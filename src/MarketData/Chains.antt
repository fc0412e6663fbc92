-- ===== src/MarketData/Chains.antt =====
-- services/market-data-gateway/internal/chain_fetcher/fetcher.go. `get` is the HTTP request with its
-- parameters; the two `unmarshal`s are json.Unmarshal into the response types.
pub mod Strikes
use complete_dashboard.Prelude.{
  ℕ, zero, suc, ◌≡◌, refl, String, Bool, Option, none, some, List, [], ◌∷◌, Result, ok, err, ◌>>=◌,
  if◌then◌else◌, str_eq, ◌+s◌, format_nat,
}
use complete_dashboard.Prelude.Int.{ℤ, pos}
use complete_dashboard.Prelude.Float.{Float64}
use complete_dashboard.Prelude.Json.{Json, JsonText, num, str}
use complete_dashboard.Prelude.Digits.{atoi}

pub record StrikeRow (F : Type 0) : Type 0 where
  pub strike : F
  pub ce_token : ℤ
  pub pe_token : ℤ

pub record OptionChain (F : Type 0) : Type 0 where
  pub symbol : String
  pub expiry : String
  pub cash_token : ℤ
  pub exchange_seg : ℕ
  pub strikes : List (StrikeRow F)

pub record Config (F : Type 0) : Type 0 where
  pub segment : ℕ
  pub cash_segment : ℕ
  pub cash_token : ℤ
  pub gap : F
  pub series_opt : String

pub record Param : Type 0 where
  pub name : String
  pub value : String

pub record ExpiryResponse : Type 0 where
  pub description : String
  pub result : List String

-- `result` lists the `ExchangeInstrumentID`s.
pub record OptionSymbolResponse (F : Type 0) : Type 0 where
  pub description : String
  pub result : List (Json F)

-- The calls of net/http, encoding/json and fmt's %.0f.
pub record ChainApi (F : Type 0) : Type 0 where
  pub get : String → List Param → Result String String
  pub unmarshal_expiries : String → Result String ExpiryResponse
  pub unmarshal_symbols : String → Result String (OptionSymbolResponse F)
  pub print_whole : F → String

abbrev parsed : {A : Type 0} → Result String A → String → Result String A
parsed (ok a) body = ok a
parsed (err e) body = err ("JSON parse error: " +s e +s " | Body: " +s body)

module _ (fl : Float64) where
  abbrev pub config : ℕ → ℕ → ℕ → ℕ → String → Config fl.F
  config segment cash_segment cash_token gap series = record {
    segment = segment;
    cash_segment = cash_segment;
    cash_token = pos cash_token;
    gap = fl.lit gap 0;
    series_opt = series;
  }

  -- SymbolConfigs
  unfoldable pub symbol_config : String → Option (Config fl.F)
  symbol_config symbol =
      if str_eq symbol "NIFTY"
      then some (config 2 1 26000 50 "OPTIDX")
      else if str_eq symbol "BANKNIFTY"
      then some (config 2 1 26001 100 "OPTIDX")
      else if str_eq symbol "FINNIFTY"
      then some (config 2 1 26034 50 "OPTIDX")
      else if str_eq symbol "MIDCPNIFTY"
      then some (config 2 1 26121 25 "OPTIDX")
      else if str_eq symbol "SENSEX"
      then some (config 12 11 26065 100 "IO")
      else none

  module _ (api : ChainApi fl.F) where
    abbrev some_expiries : String → ExpiryResponse → Result String (List String)
    some_expiries body r = elim r.result [
      | [] ↦ err ("XTS API returned no expiries or error: " +s r.description +s " | Body: " +s body)
      | e ∷ l ↦ ok (e ∷ l)
    ]

    unfoldable pub fetch_expiry_dates : ℕ → String → String → Result String (List String)
    fetch_expiry_dates segment series symbol = do
      body ← api.get "/instruments/instrument/expiryDate" (
          record { name = "exchangeSegment"; value = format_nat segment }
          ∷ record { name = "series"; value = series }
          ∷ record { name = "symbol"; value = symbol }
          ∷ [])
      res ← parsed (api.unmarshal_expiries body) body
      some_expiries body res

    abbrev int_or : String → Option ℤ → Result String ℤ
    int_or v none = err ("strconv.Atoi: parsing " +s v)
    int_or v (some n) = ok n

    abbrev instrument : Json fl.F → Result String ℤ
    instrument (num v) = ok (fl.to_int v)
    instrument (str v) = int_or v (atoi v)
    instrument v = err "unexpected type for ExchangeInstrumentID"

    abbrev first_instrument : String → OptionSymbolResponse fl.F → Result String ℤ
    first_instrument body r = elim r.result [
      | [] ↦ err ("XTS API returned no token or error: " +s r.description +s " | Body: " +s body)
      | v ∷ l ↦ instrument v
    ]

    unfoldable pub fetch_option_token :
        ℕ → String → String → String → String → fl.F → Result String ℤ
    fetch_option_token segment series symbol expiry opt_type strike = do
      body ← api.get "/instruments/instrument/optionSymbol" (
          record { name = "exchangeSegment"; value = format_nat segment }
          ∷ record { name = "series"; value = series }
          ∷ record { name = "symbol"; value = symbol }
          ∷ record { name = "expiryDate"; value = expiry }
          ∷ record { name = "optionType"; value = opt_type }
          ∷ record { name = "strikePrice"; value = api.print_whole strike }
          ∷ [])
      res ← parsed (api.unmarshal_symbols body) body
      first_instrument body res

    abbrev token_or_zero : Result String ℤ → ℤ
    token_or_zero (ok t) = t
    token_or_zero (err e) = pos 0

    unfoldable pub strike_row : Config fl.F → String → String → fl.F → StrikeRow fl.F
    strike_row cfg symbol expiry s = record {
      strike = s;
      ce_token = token_or_zero (fetch_option_token cfg.segment cfg.series_opt symbol expiry "CE" s);
      pe_token = token_or_zero (fetch_option_token cfg.segment cfg.series_opt symbol expiry "PE" s);
    }

    abbrev pub add_row :
        StrikeRow fl.F → Option (List (StrikeRow fl.F)) → Option (List (StrikeRow fl.F))
    add_row r none = none
    add_row r (some rows) = some (r ∷ rows)

    -- for s := startStrike; s <= endStrike; s += gap, where `none` means that the fuel ran out
    unfoldable pub strike_rows :
        ℕ → Config fl.F → String → String → fl.F → fl.F → Option (List (StrikeRow fl.F))
    unfolding strike_row
    strike_rows zero cfg symbol expiry s last = none
    strike_rows (suc fuel) cfg symbol expiry s last =
        let rest = strike_rows fuel cfg symbol expiry (fl.add s cfg.gap) last in
        if fl.fle s last then add_row (strike_row cfg symbol expiry s) rest else some []

    abbrev pub chain_with :
        Config fl.F
        → String
        → String
        → Option (List (StrikeRow fl.F))
        → Option (Result String (OptionChain fl.F))
    chain_with cfg symbol expiry none = none
    chain_with cfg symbol expiry (some rows) = some (
        ok (record {
          symbol = symbol;
          expiry = expiry;
          cash_token = cfg.cash_token;
          exchange_seg = cfg.segment;
          strikes = rows;
        }))

    unfoldable pub build_chain :
        ℕ → String → String → fl.F → ℕ → Option (Result String (OptionChain fl.F))
    unfolding symbol_config strike_rows
    build_chain fuel symbol expiry atm strike_range = elim (symbol_config symbol) [
      | none ↦ some (err ("unsupported symbol " +s symbol))
      | some cfg ↦
          let reach = fl.mul (fl.of_int (pos strike_range)) cfg.gap in
          chain_with cfg symbol expiry
            (strike_rows fuel cfg symbol expiry (fl.sub atm reach) (fl.add atm reach))
    ]
