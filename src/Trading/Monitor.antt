-- ===== src/Trading/Monitor.antt =====
-- services/execution-gateway/internal/trading: `runMonitorCycle` of service.go, and `tickRuntime`
-- and `runMonitor` of runtime.go.
pub mod StopLoss
use complete_dashboard.Prelude.{
  ℕ, String, Bool, true, false, not, ◌&&◌, ◌||◌, Option, none, some, List, [], ◌∷◌, ◌*◌, str_eq,
  if◌then◌else◌,
}
use complete_dashboard.Prelude.Int.{ℤ, pos, ◌+ℤ◌, leb_ℤ, ltb_ℤ, eqb_ℤ, not_pos}
use complete_dashboard.Prelude.Float.{Float64}
use complete_dashboard.Trading.Models.{
  StoredTrade, OptionChainRow, OptionChainSnapshot, TradeSnapshot, TradeLegSnapshot,
}
use complete_dashboard.Trading.Store.{
  Store, RuntimeTrade, load_trade, load_snapshot, save_snapshot, save_runtime,
}
use complete_dashboard.Trading.Build.{World, Gateway}
use complete_dashboard.Trading.Deploy.{put_trade, with_status}
use complete_dashboard.Trading.Deploy.Plan.{choose_underlying}
use complete_dashboard.Trading.SquareOff.{stop_runtime}

-- The statuses that a cycle leaves alone.
abbrev pub is_left_alone : String → Bool
is_left_alone status =
    str_eq status "CLOSED" || str_eq status "FAILED" || str_eq status "PENDING_FILL"

module _ (fl : Float64) where
  open fl use {F, lit, add, sub, mul, div, neg, fabs, of_int, flt, fle, feq}

  -- for i := range chain.Chain: the last row with the token
  unfoldable pub last_row :
      (OptionChainRow F → ℤ) → ℤ → List (OptionChainRow F) → Option (OptionChainRow F)
  last_row token_of token [] = none
  last_row token_of token (r ∷ rows) =
      let later = last_row token_of token rows in
      elim later [
        | some found ↦ some found
        | none ↦ if eqb_ℤ (token_of r) token then some r else none
      ]

  -- (entry - ltp) * qty: the legs are sold
  unfoldable pub leg_pnl : F → F → ℤ → F
  leg_pnl entry ltp qty = mul (sub entry ltp) (of_int qty)

  abbrev pub net_greek : StoredTrade F → F → F → F
  net_greek tr ce pe = add (mul ce (of_int tr.ce_qty)) (mul pe (of_int tr.pe_qty))

  unfoldable pub total_pnl : StoredTrade F → OptionChainRow F → OptionChainRow F → F
  unfolding leg_pnl
  total_pnl tr ce pe =
      add (leg_pnl tr.ce_ltp ce.ce_ltp tr.ce_qty) (leg_pnl tr.pe_ltp pe.pe_ltp tr.pe_qty)

  unfoldable pub monitor_snapshot :
      StoredTrade F
      → OptionChainSnapshot F
      → ℕ
      → OptionChainRow F
      → OptionChainRow F
      → TradeSnapshot F
  unfolding total_pnl leg_pnl choose_underlying
  monitor_snapshot tr chain now ce pe = record {
    trade_uid = tr.trade_uid;
    timestamp = now;
    status = tr.status;
    symbol = tr.symbol;
    expiry = tr.expiry;
    strike = tr.strike;
    underlying = choose_underlying fl chain;
    total_pnl = total_pnl tr ce pe;
    realized_pnl = lit 0 0;
    unrealized_pnl = total_pnl tr ce pe;
    net_delta = net_greek tr ce.ce_delta pe.pe_delta;
    net_gamma = net_greek tr ce.ce_gamma pe.pe_gamma;
    net_theta = net_greek tr ce.ce_theta pe.pe_theta;
    net_vega = net_greek tr ce.ce_vega pe.pe_vega;
    live_positions =
        record {
          token = tr.ce_token;
          strike = ce.strike;
          option_type = "CE";
          action = "SELL";
          quantity = tr.ce_qty;
          entry_price = tr.ce_ltp;
          ltp = ce.ce_ltp;
          pnl = leg_pnl tr.ce_ltp ce.ce_ltp tr.ce_qty;
          iv = ce.ce_iv;
          delta = ce.ce_delta;
          gamma = ce.ce_gamma;
          theta = ce.ce_theta;
          vega = ce.ce_vega;
        }
        ∷ record {
          token = tr.pe_token;
          strike = pe.strike;
          option_type = "PE";
          action = "SELL";
          quantity = tr.pe_qty;
          entry_price = tr.pe_ltp;
          ltp = pe.pe_ltp;
          pnl = leg_pnl tr.pe_ltp pe.pe_ltp tr.pe_qty;
          iv = pe.pe_iv;
          delta = pe.pe_delta;
          gamma = pe.pe_gamma;
          theta = pe.pe_theta;
          vega = pe.pe_vega;
        }
        ∷ [];
  }

  -- -SLPointsPerLot * (CEQty + PEQty) / (2 * max(1, LotSize))
  unfoldable pub sl_threshold : StoredTrade F → F
  sl_threshold tr =
      let lot = if ltb_ℤ tr.lot_size (pos 1) then pos 1 else tr.lot_size in
      mul (neg tr.config.sl_points_per_lot)
        (div (of_int (tr.ce_qty +ℤ tr.pe_qty)) (mul (lit 20 1) (of_int lot)))

  -- Both conditions of the stop loss.
  unfoldable pub sl_hit : StoredTrade F → F → Bool
  unfolding sl_threshold
  sl_hit tr pnl = flt (lit 0 0) tr.config.sl_points_per_lot && fle pnl (sl_threshold tr)

-- `get_option_chain` is none on an error.
module _ (fl : Float64) (world : World fl.F)
    (get_option_chain : String → String → Option (OptionChainSnapshot fl.F)) where
  unfoldable pub close_on_sl : StoredTrade fl.F → String → Gateway fl.F → Gateway fl.F
  unfolding put_trade with_status stop_runtime
  close_on_sl tr uid gw =
      stop_runtime
        (put_trade fl world gw (with_status fl world tr "CLOSED_SL" (world.clock gw.calls))) uid

  -- Once both rows are found.
  unfoldable pub watch :
      StoredTrade fl.F
      → String
      → OptionChainSnapshot fl.F
      → Gateway fl.F
      → OptionChainRow fl.F
      → OptionChainRow fl.F
      → Gateway fl.F
  unfolding monitor_snapshot sl_hit close_on_sl
  watch tr uid chain gw ce pe =
      let snap = monitor_snapshot fl tr chain (world.clock gw.calls) ce pe in
      let gw' = record gw { store = save_snapshot gw.store snap } in
      if sl_hit fl tr snap.total_pnl then close_on_sl tr uid gw' else gw'

  unfoldable pub watch_rows :
      StoredTrade fl.F
      → String
      → OptionChainSnapshot fl.F
      → Gateway fl.F
      → Option (OptionChainRow fl.F)
      → Option (OptionChainRow fl.F)
      → Gateway fl.F
  unfolding watch
  watch_rows tr uid chain gw none pe = gw
  watch_rows tr uid chain gw (some ce) none = gw
  watch_rows tr uid chain gw (some ce) (some pe) = watch tr uid chain gw ce pe

  unfoldable pub monitor_loaded : String → Gateway fl.F → Option (StoredTrade fl.F) → Gateway fl.F
  unfolding watch_rows last_row
  monitor_loaded uid gw none = gw
  monitor_loaded uid gw (some tr) =
      if is_left_alone tr.status then gw else elim (get_option_chain tr.symbol tr.expiry) [
        | none ↦ gw
        | some chain ↦
            watch_rows tr uid chain gw (last_row fl (λ r. r.ce_token) tr.ce_token chain.chain)
              (last_row fl (λ r. r.pe_token) tr.pe_token chain.chain)
      ]

  unfoldable pub run_monitor_cycle : String → Gateway fl.F → Gateway fl.F
  unfolding monitor_loaded
  run_monitor_cycle uid gw =
      let (loaded, store) = load_trade world.read_trade gw.store uid in
      monitor_loaded uid (record gw { store = store }) loaded

-- What a tick of a runtime logs.
pub data TickLog (F : Type 0) : Type 0 where
  quiet : TickLog F
  hedge_due : F → F → TickLog F

module _ (fl : Float64) where
  -- A zero threshold turns the check off.
  unfoldable pub tick_runtime : Store fl.F → RuntimeTrade fl.F → TickLog fl.F × RuntimeTrade fl.F
  tick_runtime s rt = elim (load_snapshot s rt.trade.trade_uid) [
    | none ↦ (quiet, rt)
    | some snap ↦
        (let threshold = rt.trade.config.hedge_threshold_delta in
          let due =
            not (fl.feq threshold (fl.lit 0 0)) && fl.flt threshold (fl.fabs snap.net_delta) in
          (
            if due then hedge_due snap.net_delta threshold else quiet,
            record rt { snapshot = snap },
          ))
  ]

-- What `runMonitor` receives: the stop channel, or a tick with the store as it is then.
pub data Wakeup (F : Type 0) : Type 0 where
  stopped : Wakeup F
  ticked : Store F → Wakeup F

-- The seconds between two ticks.
unfoldable pub poll_interval : ℤ → ℤ
poll_interval sec = if not_pos sec then pos 60 else sec

-- The loop over what its select receives, and whether it has returned.
unfoldable pub run_monitor :
    (fl : Float64) → RuntimeTrade fl.F → List (Wakeup fl.F) → RuntimeTrade fl.F × Bool
unfolding tick_runtime
run_monitor fl rt [] = (rt, false)
run_monitor fl rt (stopped ∷ events) = (rt, true)
run_monitor fl rt (ticked s ∷ events) = run_monitor fl (tick_runtime fl s rt).1 events
