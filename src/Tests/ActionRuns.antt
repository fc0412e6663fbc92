-- ===== src/Tests/ActionRuns.antt =====
-- Runs of the hedges, of the summary and the plan of a trade, and of a monitoring cycle.
use complete_dashboard.Prelude.{◌≡◌, ◌≢◌, refl, true, none, some, [], ◌∷◌, ok, find, trim_space}
use complete_dashboard.Prelude.Int.{ℤ, pos, negsuc, neg_ℤ}
use complete_dashboard.Trading.Models.{OptionChainSnapshot}
use complete_dashboard.Trading.Store.{Database, OrderRow}
use complete_dashboard.Trading.Hedge.{
  ManualHedgeBrokerRequest, Sides, hedge_sides, hedge_sides_from_net_delta,
}
use complete_dashboard.Trading.Hedge.Broker.{manual_hedge_broker_order}
use complete_dashboard.Trading.Hedge.Placeable.{hedge_sides-from_net_delta}
use complete_dashboard.Trading.Hedge.Ends.{HedgeEnds, manual_hedge_broker_order-HedgeEnds}
use complete_dashboard.Trading.SquareOffPlan.{trade_row_of}
use complete_dashboard.Trading.Summary.Response.{execution_summary}
use complete_dashboard.Trading.Summary.Response.Counts.{
  Answers, summaries_of, execution_summary-Answers,
}
use complete_dashboard.Trading.Monitor.{last_row, sl_hit, monitor_snapshot, run_monitor_cycle}
use complete_dashboard.Trading.Monitor.StopLoss.{IsWatched, IsQuoted, run_monitor_cycle-IsWatched}
use complete_dashboard.Tests.Numbers.{whole}
use complete_dashboard.Tests.Fixtures.{straddle, sim, holding, row, json}

abbrev hedge_request : ManualHedgeBrokerRequest ℤ
hedge_request = record {
  direction = "negative_delta";
  ce_side = "";
  pe_side = "";
  ce_quantity = pos 0;
  pe_quantity = pos 50;
  ce_limit_price = pos 0;
  pe_limit_price = pos 0;
}

abbrev buy_call : Sides
buy_call = record { ce_side = "BUY"; pe_side = "SELL" }

delta_sides : hedge_sides_from_net_delta whole (negsuc 4) ≡ some buy_call
unfolding hedge_sides_from_net_delta neg_ℤ
delta_sides = refl

hedge_sides-from_net_delta_example :
    (hedge_sides hedge_request ≡ ok buy_call) × (buy_call.ce_side ≢ buy_call.pe_side)
hedge_sides-from_net_delta_example =
    hedge_sides-from_net_delta whole (negsuc 4) hedge_request buy_call delta_sides refl refl refl

manual_hedge_broker_order-HedgeEnds_example : HedgeEnds holding (
    manual_hedge_broker_order whole sim
      (λ t. "T")
      true
      (λ t. true)
      straddle.trade_uid
      hedge_request
      holding)
manual_hedge_broker_order-HedgeEnds_example =
    manual_hedge_broker_order-HedgeEnds whole sim (λ t. "T") true (λ t. true) straddle.trade_uid
      hedge_request holding

abbrev filled_row : OrderRow ℤ
filled_row = record {
  intent_id = "NIFT_BUI_1";
  order_uid = "NIFT_BUI_1";
  trade_uid = "T1";
  broker_name = "SIM";
  account_id = "ACC";
  side = "SELL";
  quantity = pos 75;
  order_type = "LIMIT";
  limit_price = none;
  status = "FILLED";
  raw_request = "{}";
  broker_order_id = "7";
  filled_qty = pos 75;
  pending_qty = pos 0;
  avg_fill_price = pos 120;
}

abbrev one_order : Database ℤ
one_order = record { trades = []; orders = filled_row ∷ []; events = [] }

execution_summary-Answers_example :
    Answers whole json
      (summaries_of whole json
        (trim_space " T1 ")
        (trade_row_of whole one_order (trim_space " T1 ")).symbol
        one_order.orders)
      (execution_summary whole json true " T1 " (some one_order))
unfolding trim_space
execution_summary-Answers_example = execution_summary-Answers whole json " T1 " one_order refl

abbrev chain : OptionChainSnapshot ℤ
chain = record {
  symbol = "NIFTY";
  synthetic_future = pos 0;
  synthetic_spot = pos 25010;
  future_ltp = pos 0;
  atm = pos 25000;
  expiry = "25-Dec-2025";
  available_expiries = [];
  lot_size = pos 75;
  chain = row ∷ [];
}

held : find holding.store.mem.trades straddle.trade_uid ≡ some straddle
unfolding find
held = refl

quoted : IsQuoted whole sim (λ s e. some chain) straddle chain row row
unfolding last_row
quoted = record { live = refl; chain_found = refl; ce_found = refl; pe_found = refl }

run_monitor_cycle-IsWatched_example :
    IsWatched whole sim
      (λ s e. some chain)
      straddle
      straddle.trade_uid
      (sl_hit whole straddle (monitor_snapshot whole straddle chain 1700 row row).total_pnl)
      (monitor_snapshot whole straddle chain 1700 row row)
      holding
      (run_monitor_cycle whole sim (λ s e. some chain) straddle.trade_uid holding)
run_monitor_cycle-IsWatched_example =
    run_monitor_cycle-IsWatched whole sim (λ s e. some chain) straddle.trade_uid holding straddle
      chain row row held quoted
