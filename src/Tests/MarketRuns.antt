-- ===== src/Tests/MarketRuns.antt =====
-- Runs of the Greeks monitor and of the contract master.
use complete_dashboard.Prelude.{◌≡◌, refl, some, [], ◌∷◌, All, Yields}
use complete_dashboard.Prelude.Int.{ℤ, pos}
use complete_dashboard.Prelude.Json.{Members, member, end, str}
use complete_dashboard.Greeks.{
  TradeLeg, WsMonitor, MonitorCall, updated, legs_of, contribution, remove_trade, monitor_run,
}
use complete_dashboard.Greeks.Removed.{IsRemoved, remove_trade-IsRemoved_always}
use complete_dashboard.Greeks.Repeats.{updates, added, delta_of, updates-added}
use complete_dashboard.ContractMaster.Cells.{Strings}
use complete_dashboard.ContractMaster.Rows.{MasterParseConfig, parse_master}
use complete_dashboard.ContractMaster.Valid.{IsListed, parse_master-IsListed}
use complete_dashboard.Tests.Numbers.{whole}

abbrev leg : TradeLeg
leg = record { trade_uid = "T1"; token = pos 101; quantity = pos 75; side = "SELL" }

abbrev monitor : WsMonitor ℤ
monitor = record {
  token_to_legs = record { token = pos 101; legs = leg ∷ [] } ∷ [];
  trade_greeks = [];
}

abbrev tick : MonitorCall ℤ
tick = updated 5 (pos 101) (pos 1) (pos 0) (pos 0) (pos 0)

remove_trade-IsRemoved_always_example :
    IsRemoved whole "T1" (monitor_run whole (remove_trade "T1" monitor) (tick ∷ tick ∷ []))
remove_trade-IsRemoved_always_example =
    remove_trade-IsRemoved_always whole "T1" monitor (tick ∷ tick ∷ []) (tt, (tt, tt))

one_leg : legs_of monitor.token_to_legs (pos 101) ≡ leg ∷ []
unfolding legs_of
one_leg = refl

updates-added_example :
    delta_of whole 5
      (pos 101)
      (pos 1)
      (pos 0)
      (pos 0)
      (pos 0)
      (updates whole 5 (pos 101) (pos 1) (pos 0) (pos 0) (pos 0) 2 monitor)
      "T1"
    ≡ added whole 5
        (pos 101)
        (pos 1)
        (pos 0)
        (pos 0)
        (pos 0)
        2
        (contribution whole leg (pos 1))
        (delta_of whole 5 (pos 101) (pos 1) (pos 0) (pos 0) (pos 0) monitor "T1")
updates-added_example =
    updates-added whole 5 (pos 101) (pos 1) (pos 0) (pos 0) (pos 0) 2 monitor leg one_leg

-- Reads every text as 75 and every date as day 9.
abbrev go : Strings ℤ
go = record {
  parse_float = λ s. some (pos 75);
  parse_int = λ s. some (pos 75);
  parse_time = λ layout s. some 9;
  format_day = λ t. "2025-12-25";
}

abbrev config : MasterParseConfig
config = record {
  delimiter = "|";
  idx_exchange = 0;
  idx_broker_token = 1;
  idx_symbol = 2;
  idx_trading_symbol = 3;
  idx_instrument_type = 4;
  idx_tick_size = 5;
  idx_lot_size = 6;
  idx_expiry = 7;
}

abbrev master : Members ℤ
master = member "result" (str "NSEFO|75|NIFTY|NIFTY25DEC26000CE|OPTIDX|5|75|2025-12-25") end

parse_master-IsListed_example :
    Yields (All (IsListed whole go)) (parse_master whole go (λ l. l) config master)
parse_master-IsListed_example = parse_master-IsListed whole go (λ l. l) config master
