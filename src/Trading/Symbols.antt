-- ===== src/Trading/Symbols.antt =====
-- services/execution-gateway/internal/trading/helpers.go: what a symbol decides, and order ids.
use complete_dashboard.Prelude.{
  ℕ, ◌≤◌, ◌<◌, ◌||◌, String, Bool, Option, none, some, List, [], ◌∷◌, arith, leb, ltb,
  if◌then◌else◌, str_eq, ◌+s◌, len, prefix_of, to_upper, trim_space, contains, format_nat,
}
use complete_dashboard.Prelude.Int.{ℤ, eqb_ℤ}
use complete_dashboard.Prelude.Float.{Float64}
use complete_dashboard.Trading.Models.{OptionChainRow, OptionChainSnapshot}

unfoldable pub normalize_symbol : String → String
normalize_symbol s = to_upper (trim_space s)

unfoldable pub symbol_code : String → String
symbol_code symbol =
    let s = normalize_symbol symbol in
    if str_eq s "NIFTY"
    then "NIF"
    else if str_eq s "BANKNIFTY"
    then "BNF"
    else if str_eq s "FINNIFTY"
    then "FNF"
    else if str_eq s "MIDCPNIFTY"
    then "MID"
    else if str_eq s "SENSEX"
    then "SNX"
    else if str_eq s "BANKEX"
    then "BKX"
    else if leb 3 (len s)
    then prefix_of 3 s
    else s

unfoldable pub resolve_exchange_segment : String → String → String
resolve_exchange_segment symbol requested =
    let req = to_upper (trim_space requested) in
    let s = normalize_symbol symbol in
    if str_eq req ""
    then (if str_eq s "SENSEX" || str_eq s "BANKEX" then "BSEFO" else "NSEFO")
    else req

-- `stamp` is ts.Format("020106150405").
unfoldable pub build_short_order_uid : String → String → String → ℕ → String
build_short_order_uid symbol leg stamp suffix =
    let plain = symbol_code symbol +s stamp +s to_upper leg in
    let base = if ltb 0 suffix then plain +s "_" +s format_nat suffix else plain in
    if ltb 20 (len base) then prefix_of 20 base else base

unfoldable pub get_fallback_lot_size : String → ℕ
get_fallback_lot_size symbol =
    let s = normalize_symbol symbol in
    if str_eq s "NIFTY"
    then 25
    else if str_eq s "BANKNIFTY"
    then 15
    else if str_eq s "FINNIFTY"
    then 25
    else if str_eq s "MIDCPNIFTY"
    then 50
    else if str_eq s "SENSEX"
    then 10
    else if str_eq s "BANKEX"
    then 15
    else 1

unfoldable pub max_order_qty_for_symbol : String → ℕ
max_order_qty_for_symbol symbol =
    let s = normalize_symbol symbol in
    if contains s "SENSEX" then 5000 else if contains s "BANKEX" then 4000 else 1800

-- The fallback lot of every symbol is positive and fits into one order of that symbol.
fallback_lot_fits :
    (symbol : String)
    → (0 < get_fallback_lot_size symbol)
      × (get_fallback_lot_size symbol ≤ max_order_qty_for_symbol symbol)
unfolding get_fallback_lot_size max_order_qty_for_symbol
fallback_lot_fits symbol = ground arith

module _ (fl : Float64) where
  open fl use {F, feq, round, to_int}

  -- the first row that satisfies a test
  find_row : (OptionChainRow F → Bool) → List (OptionChainRow F) → Option (OptionChainRow F)
  find_row test [] = none
  find_row test (row ∷ rows) = if test row then some row else find_row test rows

  unfoldable pub find_atm_row : OptionChainSnapshot F → Option (OptionChainRow F)
  unfolding find_row
  find_atm_row chain = find_row (λ row. row.is_atm || feq row.strike chain.atm) chain.chain

  unfoldable pub find_row_by_strike : OptionChainSnapshot F → ℤ → Option (OptionChainRow F)
  unfolding find_row
  find_row_by_strike chain strike =
      find_row (λ row. eqb_ℤ (to_int (round row.strike)) strike) chain.chain
