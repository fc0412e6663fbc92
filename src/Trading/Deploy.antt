-- ===== src/Trading/Deploy.antt =====
-- services/execution-gateway/internal/trading/service.go: `DeployStraddle`, in the steps of its
-- body. The times of the response are left out.
pub mod Plan
pub mod Outcome
pub mod Sells
use complete_dashboard.Prelude.{
  ℕ, ◌+◌, ◌/◌, ◌||◌, ◌&&◌, not, String, Bool, true, false, Option, none, some, List, [], ◌∷◌,
  Result, err, ok, ◌>>=◌, str_eq, ◌+s◌, if◌then◌else◌,
}
use complete_dashboard.Prelude.Int.{ℤ, pos, not_pos}
use complete_dashboard.Prelude.Float.{Float64}
use complete_dashboard.Chunker.{LegData, ExecOrder, ChunkError, generate_chunked_orders}
use complete_dashboard.Trading.Models.{
  StoredTrade, DeployStraddleRequest, DeployStraddleResponse, TradeSnapshot,
}
use complete_dashboard.Trading.Symbols.{max_order_qty_for_symbol}
use complete_dashboard.Trading.Lifecycle.{BuildError, build_failure_status_from_error}
use complete_dashboard.Trading.Store.{Store, RuntimeTrade, save_trade, save_runtime, load_runtime}
use complete_dashboard.Trading.Build.{World, Gateway, execute_build}
use complete_dashboard.Trading.Deploy.Plan.{PlanError, Services, DeployPlan, plan_straddle}

pub data DeployError : Type 0 where
  refused : PlanError → DeployError
  chunking : ChunkError → DeployError
  building : BuildError → DeployError

module _ (fl : Float64) (world : World fl.F) where
  -- s.Store.SaveTrade and s.Store.UpdateTrade
  unfoldable pub put_trade : Gateway fl.F → StoredTrade fl.F → Gateway fl.F
  put_trade gw trade = record gw {
    store =
        save_trade world.marshal_trade world.marshal_intent (fl.lit 0 0) (world.clock gw.calls)
          gw.store trade;
  }

  unfoldable pub with_status : StoredTrade fl.F → String → ℕ → StoredTrade fl.F
  with_status trade status now = record trade { status = status; last_update_time = now }

  -- TradeSnapshot{TradeUID: uid}
  abbrev pub blank_snapshot : String → TradeSnapshot fl.F
  blank_snapshot uid = record {
    trade_uid = uid;
    timestamp = 0;
    status = "";
    symbol = "";
    expiry = "";
    strike = fl.lit 0 0;
    underlying = fl.lit 0 0;
    total_pnl = fl.lit 0 0;
    realized_pnl = fl.lit 0 0;
    unrealized_pnl = fl.lit 0 0;
    net_delta = fl.lit 0 0;
    net_gamma = fl.lit 0 0;
    net_theta = fl.lit 0 0;
    net_vega = fl.lit 0 0;
    live_positions = [];
  }

  -- The goroutine that startRuntime starts only reads the store and logs.
  unfoldable pub start_runtime : Store fl.F → StoredTrade fl.F → Store fl.F
  start_runtime s trade = elim (load_runtime s trade.trade_uid) [
    | some rt ↦ s
    | none ↦
        save_runtime s
          (record { trade = trade; snapshot = blank_snapshot trade.trade_uid; stop_closed = false })
  ]

  unfoldable pub build_legs : DeployPlan fl.F → List (LegData fl.F)
  build_legs p = keep_leg p.ce_lots ce (keep_leg p.pe_lots pe [])
    where
      keep_leg : ℤ → LegData fl.F → List (LegData fl.F) → List (LegData fl.F)
      keep_leg lots leg rest = if not_pos lots then rest else leg ∷ rest

      leg_of : String → ℤ → ℤ → fl.F → LegData fl.F
      leg_of option_type token lots price = record {
        token = token;
        symbol = p.trade.symbol;
        option_type = option_type;
        action = "SELL";
        total_lots = lots;
        lot_size = p.trade.lot_size;
        expected_price = price;
        exchange_segment = p.trade.exchange_segment;
      }

      ce : LegData fl.F
      ce = leg_of "CE" p.trade.ce_token p.ce_lots p.trade.ce_ltp

      pe : LegData fl.F
      pe = leg_of "PE" p.trade.pe_token p.pe_lots p.trade.pe_ltp

  unfoldable pub straddle_chunks :
      DeployPlan fl.F → ℕ → Result ChunkError (List (List (ExecOrder fl.F)))
  unfolding build_legs
  straddle_chunks p now =
      generate_chunked_orders fl (world.unix_micro now) ("BUI_" +s p.trade.trade_uid) (build_legs p)
        p.trade.lots (pos (max_order_qty_for_symbol p.trade.symbol))
        p.trade.config.order_lots_per_call

  unfoldable pub response_of : StoredTrade fl.F → DeployStraddleResponse fl.F
  response_of trade = record {
    success = true;
    trade_uid = trade.trade_uid;
    status = trade.status;
    message = "Straddle deployment initiated via " +s trade.broker_name;
    symbol = trade.symbol;
    expiry = trade.expiry;
    strike = trade.strike;
    ce_token = trade.ce_token;
    pe_token = trade.pe_token;
    ce_qty = trade.ce_qty;
    pe_qty = trade.pe_qty;
    ce_ltp = trade.ce_ltp;
    pe_ltp = trade.pe_ltp;
    net_delta = trade.net_delta;
    lot_size = trade.lot_size;
    lots = trade.lots;
  }

  -- What follows executeBuild.
  unfoldable pub finish_build :
      StoredTrade fl.F
      → Result BuildError (Unit {0}) × Gateway fl.F
      → Result DeployError (DeployStraddleResponse fl.F) × Gateway fl.F
  unfolding put_trade with_status start_runtime response_of
  finish_build trade (err e, gw) = (
    err (building e),
    put_trade gw (with_status trade (build_failure_status_from_error e) (world.clock gw.calls)),
  )
  finish_build trade (ok u, gw) =
      let active = with_status trade "ACTIVE" (world.clock gw.calls) in
      let gw' = put_trade gw active in
      (ok (response_of active), record gw' { store = start_runtime gw'.store active })

  -- What follows the chunking.
  unfoldable pub run_build :
      StoredTrade fl.F
      → Gateway fl.F
      → Result ChunkError (List (List (ExecOrder fl.F)))
      → Result DeployError (DeployStraddleResponse fl.F) × Gateway fl.F
  run_build trade gw (err e) = (err (chunking e), gw)
  run_build trade gw (ok chunks) = finish_build trade (execute_build fl world trade chunks gw)

  unfoldable pub run_plan :
      Gateway fl.F
      → Result PlanError (DeployPlan fl.F)
      → Result DeployError (DeployStraddleResponse fl.F) × Gateway fl.F
  unfolding put_trade straddle_chunks
  run_plan gw (err e) = (err (refused e), gw)
  run_plan gw (ok p) =
      run_build p.trade (put_trade gw p.trade) (straddle_chunks p (world.clock gw.calls))

  unfoldable pub deploy_straddle :
      Services fl.F
      → DeployStraddleRequest
      → Gateway fl.F
      → Result DeployError (DeployStraddleResponse fl.F) × Gateway fl.F
  deploy_straddle services req gw =
      run_plan gw (plan_straddle fl services (world.clock gw.calls) req)
