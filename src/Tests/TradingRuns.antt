-- ===== src/Tests/TradingRuns.antt =====
-- A one-lot straddle: deployed against a simulated broker, squared off, and its orders' lifecycle.
use complete_dashboard.Prelude.{
  ◌+◌, ◌*◌, ◌≡◌, ◌≤◌, refl, true, GoMap, none, some, [], ◌∷◌, ok, arith, sum_by, to_upper,
  trim_space, without_dashes,
}
use mathlib.Core.Path.{subst}
use complete_dashboard.Prelude.Int.{ℤ, pos, pos_part, ◌*ℤ◌}
use complete_dashboard.Chunker.Totals.{quantity_of}
use complete_dashboard.Trading.Models.{DeployStraddleRequest}
use complete_dashboard.Trading.Symbols.{normalize_symbol, resolve_exchange_segment, find_atm_row}
use complete_dashboard.Trading.Store.{Database, new_memory_store, save_trade, load_trade}
use complete_dashboard.Trading.Persist.{load_trade-save_trade}
use complete_dashboard.Trading.Build.{execute_build}
use complete_dashboard.Trading.Build.Fills.{
  FillsWhole, IsWholeFill, filled_in, BuildFills, execute_build-BuildFills,
}
use complete_dashboard.Trading.Build.Attempts.{calls_of, execute_build-calls}
use complete_dashboard.Trading.Build.Stops.{BuildEnds, execute_build-BuildEnds}
use complete_dashboard.Trading.Deploy.Plan.{
  Services, DeployPlan, normalize_request, choose_lot_size, bounded_lots_per_call, build_trade_uid,
  choose_underlying, choose_rows, size_legs, new_trade, plan_rows, plan_straddle,
}
use complete_dashboard.Trading.Deploy.{deploy_straddle}
use complete_dashboard.Trading.Deploy.Outcome.{DeployEnds, deploy_straddle-DeployEnds}
use complete_dashboard.Trading.Deploy.Sells.{Sold, planned_quantity, deploy_straddle-Sold}
use complete_dashboard.Trading.Handlers.{
  HttpRequest, RequestJson, handle_deploy, handle_config_build, handle_custom_sell,
}
use complete_dashboard.Trading.Handlers.Deploys.{IsTrue, deploys-IsTrue}
use complete_dashboard.Trading.SquareOff.{SqfNetPosition, net_positions}
use complete_dashboard.Trading.SquareOff.Act.{send_sqf}
use complete_dashboard.Trading.SquareOff.Closes.{Closes, intent_quantity, send_sqf-Closes}
use complete_dashboard.Tests.Numbers.{whole}
use complete_dashboard.Tests.Fixtures.{
  fill, straddle, sim, idle, row, order, sold_call, bought_put, closing, raw,
}

abbrev services : Services ℤ
services = record {
  default_client_id = "ACC";
  has_executor = λ user broker account. true;
  get_option_chain = λ symbol expiry. some (record {
    symbol = symbol;
    synthetic_future = pos 0;
    synthetic_spot = pos 25010;
    future_ltp = pos 0;
    atm = pos 25000;
    expiry = "25-Dec-2025";
    available_expiries = [];
    lot_size = pos 75;
    chain = row ∷ [];
  });
  get_lot_size = λ symbol expiry. none;
  format_strike = λ k. "K";
  format_stamp = λ t. "T";
}

abbrev request : DeployStraddleRequest
request = record {
  user_id = "";
  broker_name = " xts";
  account_id = "";
  exchange_segment = "";
  symbol = "nifty ";
  lots = pos 0;
  delta_neutral = true;
  product_type = "";
  target_expiry = "";
  strike = pos 0;
  ce_token = pos 0;
  pe_token = pos 0;
  lot_size = pos 0;
  ce_strike_price = pos 0;
  pe_strike_price = pos 0;
  order_lots_per_call = pos 4;
}

abbrev plan : DeployPlan ℤ
plan = record { trade = straddle; ce_lots = pos 1; pe_lots = pos 1 }

plan_run : plan_straddle whole services 1700 request ≡ ok plan
unfolding plan_straddle normalize_request choose_rows plan_rows choose_lot_size size_legs new_trade
    bounded_lots_per_call build_trade_uid choose_underlying normalize_symbol
    resolve_exchange_segment find_atm_row to_upper trim_space without_dashes ◌*ℤ◌
plan_run = refl

sim-FillsWhole : FillsWhole sim
sim-FillsWhole calls intent res e =
    let same : fill intent ≡ res = cc in subst (IsWholeFill intent) same refl

deploy_straddle-Sold_example :
    Sold pos_part
      (planned_quantity pos_part straddle)
      (filled_in pos_part idle)
      (deploy_straddle whole sim services request idle)
deploy_straddle-Sold_example =
    deploy_straddle-Sold whole sim pos_part sim-FillsWhole services request idle plan plan_run
      (omega arith)

deploy_straddle-DeployEnds_example :
    DeployEnds whole sim idle
      (plan_straddle whole services (sim.clock idle.calls) request)
      (deploy_straddle whole sim services request idle)
deploy_straddle-DeployEnds_example = deploy_straddle-DeployEnds whole sim services request idle

abbrev any_json : RequestJson ℤ
any_json = record {
  read_deploy = λ b. some request;
  read_config = λ b. none;
  read_custom = λ b. none;
  read_percentage = λ b. none;
}

abbrev post : HttpRequest
post = record { method = "POST"; path = "/api/trade/straddle"; body = "{}" }

deploys-IsTrue_example :
    IsTrue whole sim any_json services idle
      (some request)
      (handle_deploy whole sim any_json services post idle)
    × IsTrue whole sim any_json services idle none
        (handle_config_build whole sim any_json services post idle)
    × IsTrue whole sim any_json services idle none
        (handle_custom_sell whole sim any_json services post idle)
deploys-IsTrue_example = deploys-IsTrue whole sim any_json services post idle

execute_build-BuildFills_example :
    BuildFills whole sim pos_part straddle sim-FillsWhole
      (sum_by (sum_by (quantity_of pos_part)) ((order ∷ []) ∷ []))
      (filled_in pos_part idle)
      (execute_build whole sim straddle ((order ∷ []) ∷ []) idle)
execute_build-BuildFills_example =
    execute_build-BuildFills whole sim pos_part straddle sim-FillsWhole ((order ∷ []) ∷ []) idle

execute_build-BuildEnds_example :
    BuildEnds (execute_build whole sim straddle ((order ∷ []) ∷ []) idle)
execute_build-BuildEnds_example =
    execute_build-BuildEnds whole sim straddle (λ calls i. cc) ((order ∷ []) ∷ []) idle tt

execute_build-calls_example :
    calls_of (execute_build whole sim straddle ((order ∷ []) ∷ []) idle).1 ≤ 0 + 3 * 1
execute_build-calls_example = execute_build-calls whole sim straddle ((order ∷ []) ∷ []) idle

abbrev positions : GoMap (SqfNetPosition ℤ)
positions = net_positions whole (sold_call ∷ bought_put ∷ []) []

send_sqf-Closes_example :
    Closes whole sim raw
      (λ t. "T")
      pos_part
      sim-FillsWhole
      true
      (sum_by (intent_quantity pos_part) (closing ∷ []))
      0
      (send_sqf whole sim raw (λ t. "T") (closing ∷ []) true idle)
send_sqf-Closes_example =
    send_sqf-Closes whole sim raw (λ t. "T") pos_part sim-FillsWhole (closing ∷ []) idle

abbrev empty_db : Database ℤ
empty_db = record { trades = []; orders = []; events = [] }

load_trade-save_trade_example :
    (load_trade
      (λ s. straddle)
      (record {
        mem = new_memory_store;
        db =
            (save_trade
              (λ t. t.trade_uid)
              (λ i. i.intent_id)
              (pos 0)
              9
              (record { mem = new_memory_store; db = some empty_db })
              straddle).db;
      })
      straddle.trade_uid).0
    ≡ some straddle
load_trade-save_trade_example =
    load_trade-save_trade (λ t. t.trade_uid) (λ i. i.intent_id) (pos 0) (λ s. straddle) 9
      new_memory_store empty_db straddle refl (omega arith)
