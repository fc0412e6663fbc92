-- ===== src/Trading/Hedge.antt =====
-- services/execution-gateway/internal/trading: hedge_mapping.go, and the orders that
-- manual_hedge_broker.go plans for a request, with their defaults.
pub mod Broker
pub mod AtMoney
pub mod Placeable
pub mod Ends
use complete_dashboard.Prelude.{
  ℕ, ◌||◌, ◌&&◌, ◌+◌, not, String, Bool, true, false, Option, none, some, List, [], ◌∷◌, ◌++◌,
  Result, err, ok, ◌>>=◌, ◌>>◌, str_eq, to_upper, trim_space, equal_fold, if◌then◌else◌,
}
use complete_dashboard.Prelude.Int.{ℤ, pos, not_pos}
use complete_dashboard.Prelude.Float.{Float64}
use complete_dashboard.Trading.Models.{
  StoredTrade, OrderIntent, ExecutionResult, OptionChainRow, OptionChainSnapshot,
}
use complete_dashboard.Trading.Symbols.{get_fallback_lot_size, build_short_order_uid, find_atm_row}
use complete_dashboard.Trading.Store.{load_trade, load_snapshot}
use complete_dashboard.Trading.Build.{
  World, Gateway, send, after_send, record_intent, record_intents, record_execution,
}

pub data HedgeError : Type 0 where
  hedge_trade_not_found snapshot_not_found direction_required hedge_tokens_missing hedge_no_executor
        hedge_no_chain hedge_no_atm :
      HedgeError
  invalid_hedge_quantity : ℤ → ℤ → HedgeError
  hedge_failed : String → HedgeError

pub record Sides : Type 0 where
  pub ce_side : String
  pub pe_side : String

pub record ManualHedgeBrokerRequest (F : Type 0) : Type 0 where
  pub direction : String
  pub ce_side : String
  pub pe_side : String
  pub ce_quantity : ℤ
  pub pe_quantity : ℤ
  pub ce_limit_price : F
  pub pe_limit_price : F

-- What a call returns: results may stand beside an error.
pub record HedgeOutcome (F : Type 0) : Type 0 where
  pub results : List (ExecutionResult F)
  pub dry_run : Bool
  pub error : Option HedgeError

abbrev pub fail_when : Bool → HedgeError → Result HedgeError (Unit {0})
fail_when b e = if b then err e else ok tt

unfoldable pub normalize_manual_hedge_side : String → String
normalize_manual_hedge_side side =
    let s = to_upper (trim_space side) in
    if str_eq s "BUY" || str_eq s "B"
    then "BUY"
    else if str_eq s "SELL" || str_eq s "S"
    then "SELL"
    else ""

unfoldable pub default_manual_hedge_sides : String → Result HedgeError Sides
default_manual_hedge_sides direction =
    let d = to_upper (trim_space direction) in
    if str_eq d "NEGATIVE_DELTA" || str_eq d "NEGATIVE" || str_eq d "SHORT_DELTA"
    then ok (record { ce_side = "BUY"; pe_side = "SELL" })
    else if str_eq d "POSITIVE_DELTA" || str_eq d "POSITIVE" || str_eq d "LONG_DELTA"
    then ok (record { ce_side = "SELL"; pe_side = "BUY" })
    else err direction_required

-- The sides of a request: those it names, and the defaults of its direction for the others.
unfoldable pub hedge_sides : {F : Type 0} → ManualHedgeBrokerRequest F → Result HedgeError Sides
unfolding normalize_manual_hedge_side default_manual_hedge_sides
hedge_sides req =
    let ce = normalize_manual_hedge_side req.ce_side in
    let pe = normalize_manual_hedge_side req.pe_side in
    if str_eq ce "" || str_eq pe ""
    then (do
      sides ← default_manual_hedge_sides req.direction
      ok (record {
        ce_side = if str_eq ce "" then sides.ce_side else ce;
        pe_side = if str_eq pe "" then sides.pe_side else pe;
      }))
    else ok (record { ce_side = ce; pe_side = pe })

-- `leg` is "CE" or "PE".
unfoldable pub default_manual_hedge_qty : {F : Type 0} → StoredTrade F → String → ℤ → ℤ
default_manual_hedge_qty tr leg requested =
    if not (not_pos requested)
    then requested
    else if str_eq leg "CE" && not (not_pos tr.ce_qty)
    then tr.ce_qty
    else if str_eq leg "PE" && not (not_pos tr.pe_qty)
    then tr.pe_qty
    else if not (not_pos tr.lot_size)
    then tr.lot_size
    else pos (get_fallback_lot_size tr.symbol)

unfoldable pub default_manual_hedge_product : String → String
default_manual_hedge_product product =
    let p = trim_space product in if str_eq p "" then "NRML" else p

unfoldable pub default_manual_hedge_exchange_segment : String → String
default_manual_hedge_exchange_segment segment =
    let s = trim_space segment in if str_eq s "" then "NSEFO" else s

-- `enabled` is ENABLE_MANUAL_BROKER_ACTIONS == "1".
unfoldable pub manual_hedge_broker_execution_enabled : {F : Type 0} → Bool → StoredTrade F → Bool
manual_hedge_broker_execution_enabled enabled tr = equal_fold tr.broker_name "SIM" || enabled

module _ (fl : Float64) where
  open fl use {F, lit, sub, fabs, fmax, flt, fle}

  unfoldable pub hedge_sides_from_net_delta : F → Option Sides
  hedge_sides_from_net_delta net_delta =
      if flt (fabs net_delta) (lit 1 0)
      then none
      else if flt net_delta (lit 0 0)
      then some (record { ce_side = "BUY"; pe_side = "SELL" })
      else some (record { ce_side = "SELL"; pe_side = "BUY" })

  -- requested > 0 ? requested : entry > 0 ? entry : 0.05
  unfoldable pub default_manual_hedge_price : F → F → F
  default_manual_hedge_price entry requested =
      if flt (lit 0 0) requested then requested else if flt (lit 0 0) entry then entry else lit 5 2

  -- One leg of `ManualHedgeBrokerOrder`; `code` and `suffix` make its ids.
  unfoldable pub broker_hedge_intent :
      StoredTrade F → String → String → String → String → ℕ → ℤ → String → ℤ → F → OrderIntent F
  unfolding default_manual_hedge_exchange_segment default_manual_hedge_product
  broker_hedge_intent tr uid stamp leg code suffix token side qty price = record {
    intent_id = build_short_order_uid tr.symbol code stamp suffix;
    trade_uid = uid;
    token = token;
    symbol = tr.symbol;
    exchange_segment = default_manual_hedge_exchange_segment tr.exchange_segment;
    side = side;
    quantity = qty;
    order_type = "LIMIT";
    limit_price = some price;
    product_type = default_manual_hedge_product tr.product_type;
    leg_type = leg;
    phase = "HEDGE";
    order_uid = build_short_order_uid tr.symbol code stamp (suffix + 1);
    broker_name = tr.broker_name;
    account_id = tr.account_id;
    expected_price = price;
  }

  -- The two intents of a request, before anything is stored.
  unfoldable pub plan_broker_hedge :
      StoredTrade F
      → String
      → String
      → ManualHedgeBrokerRequest F
      → Result HedgeError (List (OrderIntent F))
  unfolding hedge_sides default_manual_hedge_qty broker_hedge_intent default_manual_hedge_price
  plan_broker_hedge tr uid stamp req = do
    sides ← hedge_sides req
    let ce_qty = default_manual_hedge_qty tr "CE" req.ce_quantity
    let pe_qty = default_manual_hedge_qty tr "PE" req.pe_quantity
    fail_when (not_pos ce_qty || not_pos pe_qty) (invalid_hedge_quantity ce_qty pe_qty)
    fail_when (not_pos tr.ce_token || not_pos tr.pe_token) hedge_tokens_missing
    let ce_price = default_manual_hedge_price tr.ce_ltp req.ce_limit_price
    let pe_price = default_manual_hedge_price tr.pe_ltp req.pe_limit_price
    ok (
        broker_hedge_intent tr uid stamp "CE" "HCE" 0 tr.ce_token sides.ce_side ce_qty ce_price
        ∷ broker_hedge_intent tr uid stamp "PE" "HPE" 2 tr.pe_token sides.pe_side pe_qty pe_price
        ∷ [])

  -- What a disabled execution answers for an intent.
  abbrev pub dry_run_result : OrderIntent F → ExecutionResult F
  dry_run_result i = record {
    intent_id = i.intent_id;
    broker_order_id = "";
    status = "DRY_RUN";
    filled_qty = pos 0;
    pending_qty = pos 0;
    fill_price = lit 0 0;
    event_reason = "MANUAL_BROKER_ACTIONS_DISABLED";
    latency_ms = pos 0;
    raw_request = "";
    raw_response =
        "set ENABLE_MANUAL_BROKER_ACTIONS=1 to execute non-SIM manual hedge broker orders";
  }

  abbrev pub dry_run_results : List (OrderIntent F) → List (ExecutionResult F)
  dry_run_results [] = []
  dry_run_results (i ∷ is) = dry_run_result i ∷ dry_run_results is
