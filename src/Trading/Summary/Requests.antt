-- ===== src/Trading/Summary/Requests.antt =====
-- services/execution-gateway/internal/trading: what execution_summary.go and squareoff_plan.go read
-- from the stored JSON of an order and of a trade.
use complete_dashboard.Prelude.{
  String, Option, none, some, List, [], ◌∷◌, str_eq, ◌||◌, to_upper, trim_space, if◌then◌else◌,
}
use complete_dashboard.Prelude.Int.{ℤ, pos}
use complete_dashboard.Prelude.Float.{Float64}
use complete_dashboard.Prelude.Json.{
  Json, null, flag, num, str, arr, obj, Members, JsonText, get_member,
}
use complete_dashboard.Trading.SquareOff.{RawIntents}

module _ (fl : Float64) (json : JsonText fl.F) where
  open fl use {F, lit, flt, round, to_int}
  open json use {unmarshal, print_value, scan_float}

  unfoldable pub first_string_from_map : Members F → List String → String
  first_string_from_map m [] = ""
  first_string_from_map m (k ∷ keys) = elim (get_member m k) [
    | none ↦ first_string_from_map m keys
    | some v ↦ trim_space (print_value v)
  ]

  -- A decoded number is a float64: the cases for integers never come up.
  abbrev pub number_in : Json F → Option F
  number_in (num x) = some x
  number_in (str s) = some (scan_float s)
  number_in null = none
  number_in (flag b) = none
  number_in (arr xs) = none
  number_in (obj m) = none

  abbrev pub number_at : Option (Json F) → Option F
  number_at none = none
  number_at (some v) = number_in v

  unfoldable pub first_float_from_map : Members F → List String → F
  first_float_from_map m [] = lit 0 0
  first_float_from_map m (k ∷ keys) = elim (number_at (get_member m k)) [
    | none ↦ first_float_from_map m keys
    | some x ↦ x
  ]

  unfoldable pub generic_float : Json F → F
  generic_float v = elim (number_in v) [ none ↦ lit 0 0 | some x ↦ x ]

  -- The object of a raw request, if it is one.
  unfoldable pub read_object : String → Option (Members F)
  read_object raw =
      let text = trim_space raw in
      if str_eq text "" then none else elim (unmarshal text) [
        | some (obj m) ↦ some m
        | some null ↦ none
        | some (flag b) ↦ none
        | some (num x) ↦ none
        | some (str s) ↦ none
        | some (arr xs) ↦ none
        | none ↦ none
      ]

  -- What `enrichOrderFromRawIntent` makes of a field that was empty before.
  abbrev pub enriched : List String → String → String
  enriched keys raw = elim (read_object raw) [ none ↦ "" | some m ↦ first_string_from_map m keys ]

  unfoldable pub enriched_phase : String → String
  unfolding read_object first_string_from_map
  enriched_phase raw = enriched ("phase" ∷ "Phase" ∷ []) raw

  unfoldable pub enriched_token : String → ℤ
  unfolding read_object first_float_from_map
  enriched_token raw = elim (read_object raw) [
    | none ↦ pos 0
    | some m ↦ to_int (first_float_from_map m ("token" ∷ "Token" ∷ []))
  ]

  -- The reader of requests that the square-off is given.
  unfoldable pub enrich_order_from_raw_intent : RawIntents F
  unfolding read_object first_string_from_map enriched_token
  enrich_order_from_raw_intent = record {
    read_symbol = λ raw. enriched ("symbol" ∷ "Symbol" ∷ []) raw;
    read_leg_type = λ raw. enriched ("leg_type" ∷ "LegType" ∷ []) raw;
    read_token = enriched_token;
  }

  abbrev pub positive_at : Members F → String → Option ℤ
  positive_at m k = elim (get_member m k) [
    | none ↦ none
    | some v ↦
        if flt (lit 0 0) (generic_float v) then some (to_int (round (generic_float v))) else none
  ]

  unfoldable pub first_positive : Members F → List String → Option ℤ
  unfolding generic_float
  first_positive m [] = none
  first_positive m (k ∷ keys) = elim (positive_at m k) [
    | none ↦ first_positive m keys
    | some n ↦ some n
  ]

  -- The source's table knows no SENSEX50 or BANKEX, and its NIFTY is 65.
  unfoldable pub configured_lot_size : String → ℤ
  configured_lot_size symbol =
      let s = to_upper (trim_space symbol) in
      if str_eq s "NIFTY" || str_eq s "FINNIFTY"
      then pos 65
      else if str_eq s "BANKNIFTY"
      then pos 35
      else if str_eq s "MIDCPNIFTY"
      then pos 120
      else if str_eq s "SENSEX"
      then pos 20
      else pos 0

  -- `raw` is none where the column is NULL.
  unfoldable pub lot_size_from_trade_config : Option String → String → ℤ
  unfolding first_positive configured_lot_size
  lot_size_from_trade_config none symbol = configured_lot_size symbol
  lot_size_from_trade_config (some raw) symbol =
      elim (if str_eq (trim_space raw) "" then none else unmarshal raw) [
        | some (obj m) ↦ elim (first_positive m ("lot_size" ∷ "LotSize" ∷ "lotsize" ∷ [])) [
          | none ↦ configured_lot_size symbol
          | some n ↦ n
        ]
        | some null ↦ configured_lot_size symbol
        | some (flag b) ↦ configured_lot_size symbol
        | some (num x) ↦ configured_lot_size symbol
        | some (str s) ↦ configured_lot_size symbol
        | some (arr xs) ↦ configured_lot_size symbol
        | none ↦ configured_lot_size symbol
      ]
