-- ===== src/ContractMaster/Cells.antt =====
-- services/contract-master/internal/parser/master_parser.go: the cells of a row. `parse_float`,
-- `parse_int` and `parse_time` are those of strconv and time, none on an error; a time is a number.
use complete_dashboard.Prelude.{
  ◌≡◌, refl, ℕ, ◌+s◌, String, Bool, not, ◌&&◌, ◌||◌, Option, none, some, List, [], ◌∷◌, str_eq,
  has_prefix, contains, to_upper, trim_space, equal_fold, without, get_elem?, if◌then◌else◌,
}
use complete_dashboard.Prelude.Int.{ℤ, pos}
use complete_dashboard.Prelude.Float.{Float64}
use complete_dashboard.Prelude.Digits.{trim_char, is_digit}

pub record Strings (F : Type 0) : Type 0 where
  pub parse_float : String → Option F
  pub parse_int : String → Option ℤ
  pub parse_time : String → String → Option ℕ
  -- time.Format("2006-01-02")
  pub format_day : ℕ → String

pub record Contract (F : Type 0) : Type 0 where
  pub broker_token : ℤ
  pub exchange : String
  pub symbol : String
  pub instrument_type : String
  pub expiry_date : ℕ
  pub strike_price : F
  pub option_type : String
  pub lot_size : ℤ
  pub tick_size : F
  pub raw_details : String

unfoldable pub clean_cell : String → String
clean_cell v = trim_char 34 (trim_space v)

unfoldable pub clean_numeric : String → String
unfolding clean_cell
clean_numeric v = without 44 (clean_cell v)

unfoldable pub fallback_lot_size : String → ℤ
fallback_lot_size symbol =
    let s = to_upper (trim_space symbol) in
    if str_eq s "NIFTY" || str_eq s "MIDCPNIFTY"
    then pos 65
    else if str_eq s "BANKNIFTY" || str_eq s "BANKEX"
    then pos 15
    else if str_eq s "FINNIFTY"
    then pos 40
    else if str_eq s "SENSEX"
    then pos 20
    else pos 0

unfoldable pub normalize_csv_exchange : String → String
unfolding clean_cell
normalize_csv_exchange v =
    let s = to_upper (clean_cell v) in
    if str_eq s "NSE" then "NSEFO" else if str_eq s "BSE" then "BSEFO" else s

-- Both special cases of the source give `s` too.
unfoldable pub normalize_csv_instrument_type : String → String → String
unfolding clean_cell
normalize_csv_instrument_type exchange v =
    let s = to_upper (clean_cell v) in
    if str_eq exchange "NSEFO" && str_eq s "OPTIDX"
    then "OPTIDX"
    else if str_eq exchange "BSEFO" && str_eq s "OPTION"
    then "OPTION"
    else s

unfoldable pub normalize_option_type : String → String
unfolding clean_cell
normalize_option_type v =
    let s = to_upper (clean_cell v) in
    if str_eq s "CE" || str_eq s "CALL"
    then "CE"
    else if str_eq s "PE" || str_eq s "PUT"
    then "PE"
    else ""

unfoldable pub looks_like_header : String → String → String → String → Bool
looks_like_header token exchange instrument symbol =
    let joined = to_upper (token +s " " +s exchange +s " " +s instrument +s " " +s symbol) in
    contains joined "TOKEN"
    || contains joined "EXCHANGE"
    || contains joined "SYMBOL"
    || contains joined "INSTRUMENT"

-- The digits that end where the last two characters begin, and those two; `run` are the digits that
-- stand right before the text.
digits_before_suffix : String → String → String × String
digits_before_suffix run String.[] = ("", "")
digits_before_suffix run (String.◌∷◌ c String.[]) = ("", "")
digits_before_suffix run (String.◌∷◌ c (String.◌∷◌ d String.[])) =
    (run, String.◌∷◌ c (String.◌∷◌ d String.[]))
digits_before_suffix run (String.◌∷◌ c (String.◌∷◌ d (String.◌∷◌ e s))) =
    digits_before_suffix (if is_digit c then run +s String.◌∷◌ c String.[] else "")
      (String.◌∷◌ d (String.◌∷◌ e s))

unfoldable pub derive_option_type : String → String
unfolding digits_before_suffix
derive_option_type trading_symbol =
    let suffix = (digits_before_suffix "" (to_upper (trim_space trading_symbol))).1 in
    if str_eq suffix "CE" then "CE" else if str_eq suffix "PE" then "PE" else ""

suffix_tests :
    (digits_before_suffix "" "NIFTY25DEC26000CE" ≡ ("26000", "CE"))
    × (derive_option_type " banknifty25dec51000pe" ≡ "PE")
unfolding digits_before_suffix derive_option_type to_upper trim_space
suffix_tests = (refl, refl)

module _ (fl : Float64) (go : Strings fl.F) where
  abbrev pub float_or_zero : String → fl.F
  float_or_zero s = elim (go.parse_float s) [ none ↦ fl.lit 0 0 | some x ↦ x ]

  -- `(\d+)(CE|PE)$`
  unfoldable pub derive_strike : String → String → fl.F
  unfolding digits_before_suffix
  derive_strike instrument_type trading_symbol =
      let (digits, suffix) = digits_before_suffix "" (to_upper (trim_space trading_symbol)) in
      if has_prefix (to_upper (trim_space instrument_type)) "FUT"
      then fl.lit 0 0
      else if str_eq digits "" || not (str_eq suffix "CE" || str_eq suffix "PE")
      then fl.lit 0 0
      else float_or_zero digits

  -- A cell that counts as a tick size.
  abbrev pub tick_in : Option String → Option fl.F
  tick_in none = none
  tick_in (some cell) =
      let v = clean_cell cell in
      if str_eq v "" || equal_fold v "NA" then none else elim (go.parse_float (clean_numeric v)) [
        | none ↦ none
        | some f ↦ if fl.flt (fl.lit 0 0) f && fl.fle f (fl.lit 100 0) then some f else none
      ]

  unfoldable pub first_tick : List String → List ℕ → fl.F
  unfolding clean_cell clean_numeric
  first_tick row [] = fl.lit 5 2
  first_tick row (i ∷ indices) = elim (tick_in (get_elem? row i)) [
    | none ↦ first_tick row indices
    | some f ↦ f
  ]

  unfoldable pub infer_tick_size_from_row : List String → fl.F
  unfolding first_tick
  infer_tick_size_from_row row = first_tick row (8 ∷ 9 ∷ 10 ∷ 11 ∷ 12 ∷ [])

  abbrev pub expiry_layouts : List String
  expiry_layouts =
      "2006-01-02T15:04:05Z07:00" ∷ "2006-01-02T15:04:05" ∷ "2006-01-02" ∷ "02-JAN-06"
      ∷ "02-JAN-2006" ∷ "02-Jan-06" ∷ "02-Jan-2006" ∷ "2-JAN-2006" ∷ "2-Jan-2006" ∷ []

  unfoldable pub first_time : String → List String → Option ℕ
  first_time v [] = none
  first_time v (layout ∷ layouts) = elim (go.parse_time layout v) [
    | some t ↦ some t
    | none ↦ elim (go.parse_time layout (to_upper v)) [
      | some t ↦ some t
      | none ↦ first_time v layouts
    ]
  ]

  unfoldable pub parse_expiry_flexible : String → Option ℕ
  unfolding clean_cell first_time
  parse_expiry_flexible v = first_time (clean_cell v) expiry_layouts
