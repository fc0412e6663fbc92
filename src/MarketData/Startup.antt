-- ===== src/MarketData/Startup.antt =====
-- services/market-data-gateway/cmd/main.go: fetchSpotPrice, parseQuote and what main prepares before
-- it connects: for each index its strike at the money, its chain, the lines of the token file and the
-- instruments to subscribe.
pub mod Subscribe
use complete_dashboard.Prelude.{
  ℕ, String, Option, none, some, List, [], ◌∷◌, Result, ok, err, ◌||◌, if◌then◌else◌, str_eq,
}
use complete_dashboard.Prelude.Int.{ℤ, pos, ◌*ℤ◌, eqb_ℤ}
use complete_dashboard.Prelude.Float.{Float64}
use complete_dashboard.Prelude.Json.{Json, Members, end, str, obj, num, JsonText, get_member}
use complete_dashboard.MarketData.Chains.{
  OptionChain, Config, ChainApi, build_chain, fetch_expiry_dates,
}
use complete_dashboard.MarketData.Expiries.{get_active_expiries}

-- `quotes` is the request for an instrument's quotes with a message code, `none` where it fails, and
-- `read_fut_ltp` decodes the field fut_ltp of a chain; `parse_float` is ParseFloat's value without
-- its error.
pub record QuoteApi (F : Type 0) : Type 0 where
  pub quotes : ℕ → ℤ → ℕ → Option (List (Json F))
  pub read_fut_ltp : String → Option F
  pub parse_float : String → F

module _ (fl : Float64) (text : JsonText fl.F) (api : QuoteApi fl.F) where
  abbrev members_of : Option (Json fl.F) → Members fl.F
  members_of (some (obj m)) = m
  members_of v = end

  unfoldable parse_quote : Json fl.F → Members fl.F
  parse_quote (str v) = members_of (text.unmarshal v)
  parse_quote (obj m) = m
  parse_quote v = end

  abbrev positive : fl.F → Option fl.F
  positive x = if fl.flt (fl.lit 0 0) x then some x else none

  abbrev price_in : Option (Json fl.F) → Option fl.F
  price_in (some (num x)) = positive x
  price_in (some (str s)) = positive (api.parse_float s)
  price_in v = none

  abbrev first_price : String → List (Json fl.F) → Option fl.F
  first_price key [] = none
  first_price key (q ∷ l) = price_in (get_member (parse_quote q) key)

  abbrev or_zero : Option fl.F → fl.F
  or_zero none = fl.lit 0 0
  or_zero (some x) = x

  abbrev last_traded : Option (List (Json fl.F)) → fl.F
  last_traded none = fl.lit 0 0
  last_traded (some l) = or_zero (first_price "LastTradedPrice" l)

  abbrev asked_price : ℕ → ℤ → Option (List (Json fl.F)) → fl.F
  asked_price segment id none = fl.lit 0 0
  asked_price segment id (some l) = elim (first_price "IndexValue" l) [
    | some x ↦ x
    | none ↦ last_traded (api.quotes segment id 1512)
  ]

  -- The first argument is the decoder's chain of the symbol, if there is one.
  unfoldable pub fetch_spot_price : Option String → ℕ → ℤ → fl.F
  unfolding parse_quote
  fetch_spot_price none segment id = asked_price segment id (api.quotes segment id 1502)
  fetch_spot_price (some chain) segment id = elim (api.read_fut_ltp chain) [
    | none ↦ asked_price segment id (api.quotes segment id 1502)
    | some x ↦ elim (positive x) [
      | some y ↦ y
      | none ↦ asked_price segment id (api.quotes segment id 1502)
    ]
  ]

module _ (fl : Float64) where
  unfoldable pub spot_or_default : String → fl.F → fl.F
  spot_or_default symbol spot =
      if fl.fle spot (fl.lit 0 0)
      then (if str_eq symbol "BANKNIFTY"
          then fl.lit 50000 0
          else if str_eq symbol "FINNIFTY"
          then fl.lit 22000 0
          else if str_eq symbol "MIDCPNIFTY"
          then fl.lit 12000 0
          else if str_eq symbol "SENSEX" || str_eq symbol "BANKEX"
          then fl.lit 75000 0
          else fl.lit 23000 0)
      else spot

  -- float64(int((spotPrice+(config.Gap/2))/config.Gap) * int(config.Gap))
  unfoldable pub atm_strike : fl.F → fl.F → fl.F
  atm_strike spot gap =
      fl.of_int (fl.to_int (fl.div (fl.add spot (fl.div gap (fl.lit 2 0))) gap) *ℤ fl.to_int gap)

  -- Whether a chain has rows and the first one a token.
  abbrev usable : Option (Result String (OptionChain fl.F)) → Option (OptionChain fl.F)
  usable none = none
  usable (some (err e)) = none
  usable (some (ok chain)) = elim chain.strikes [
    | [] ↦ none
    | row ∷ rows ↦ if eqb_ℤ row.ce_token (pos 0) then none else some chain
  ]

  module _ (api : ChainApi fl.F) where
    -- The chain of the first expiry that has a usable one.
    unfoldable pub valid_chain : ℕ → String → fl.F → List String → Option (OptionChain fl.F)
    valid_chain fuel symbol atm [] = none
    valid_chain fuel symbol atm (exp ∷ expiries) =
        let later = valid_chain fuel symbol atm expiries in
        elim (usable (build_chain fl api fuel symbol exp atm 40)) [
          | some chain ↦ some chain
          | none ↦ later
        ]

    abbrev expiries_or_none : Result String (List String) → List String
    expiries_or_none (ok l) = l
    expiries_or_none (err e) = []

    -- The chain of an index, from the spot price that was fetched for it.
    unfoldable pub index_chain :
        (String → Option ℕ)
        → (ℕ → String)
        → ℕ
        → ℕ
        → String
        → Config fl.F
        → fl.F
        → Option (OptionChain fl.F)
    unfolding valid_chain spot_or_default atm_strike
    index_chain parse_date format_date today fuel symbol cfg spot =
        valid_chain fuel symbol (atm_strike (spot_or_default symbol spot) cfg.gap) (
          expiries_or_none (
            get_active_expiries parse_date format_date today
              (fetch_expiry_dates fl api 2 "OPTIDX" symbol)))
