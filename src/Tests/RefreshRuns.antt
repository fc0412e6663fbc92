-- ===== src/Tests/RefreshRuns.antt =====
-- Runs of the refresh of a trade's status.
use complete_dashboard.Prelude.{
  ok, Result, err, ◌≡◌, ◌≢◌, refl, true, none, some, [], ◌∷◌, trim_space, find, put,
}
use complete_dashboard.Prelude.Int.{ℤ, pos}
use complete_dashboard.Trading.Lifecycle.{
  derive_trade_status_from_build_counts, count_where, counts_filled, counts_pending, counts_dead,
  counts_unknown,
}
use complete_dashboard.Trading.Models.{StoredTrade}
use complete_dashboard.Trading.Store.{TradeRow, OrderRow, new_memory_store, load_trade}
use complete_dashboard.Trading.Build.{World, Gateway}
use complete_dashboard.Trading.SquareOff.{SqfError, waits_for_fills}
use complete_dashboard.Trading.SquareOff.Act.{square_off}
use complete_dashboard.Trading.Handlers.Refresh.{
  RefreshTradeLifecycleResponse, refresh_trade_lifecycle, is_build_order,
}
use complete_dashboard.Trading.Handlers.Refresh.Answers.{
  row_in, Refreshes, refresh_trade_lifecycle-Refreshes,
}
use complete_dashboard.Trading.Handlers.Refresh.Ignored.{refresh_all, refresh_all-square_off}
use complete_dashboard.Trading.Handlers.Refresh.Shown.{
  shows, refresh_trade_lifecycle-execution_summary,
}
use complete_dashboard.Trading.Summary.Response.{execution_summary}
use complete_dashboard.Tests.Numbers.{whole}
use complete_dashboard.Tests.Fixtures.{json, straddle, sim, raw}

abbrev waiting : StoredTrade ℤ
waiting = record straddle { trade_uid = "T1"; status = "PENDING_FILL" }

abbrev waiting_row : TradeRow
waiting_row = record {
  user_id = "U001";
  broker_name = "XTS";
  account_id = "ACC";
  symbol = "NIFTY";
  status = "PENDING_FILL";
  config_json = "{}";
  created_at = 1700;
}

abbrev filled_order : OrderRow ℤ
filled_order = record {
  intent_id = "BUI_1";
  order_uid = "";
  trade_uid = "T1";
  broker_name = "XTS";
  account_id = "ACC";
  side = "SELL";
  quantity = pos 75;
  order_type = "LIMIT";
  limit_price = none;
  status = "FILLED";
  raw_request = "";
  broker_order_id = "9";
  filled_qty = pos 75;
  pending_qty = pos 0;
  avg_fill_price = pos 120;
}

abbrev restarted : Gateway ℤ
restarted = record {
  store = record {
    mem = new_memory_store;
    db = some (record {
      trades = record { key = "T1"; value = waiting_row } ∷ [];
      orders = filled_order ∷ [];
      events = [];
    });
  };
  calls = [];
}

-- The refresh writes that the trade is active.
refreshed_run :
    row_in (refresh_trade_lifecycle "POST" " T1 " restarted.store).1 "T1"
    ≡ some (record waiting_row { status = "ACTIVE" })
unfolding refresh_trade_lifecycle find put trim_space derive_trade_status_from_build_counts
    is_build_order count_where counts_filled
refreshed_run = refl

refresh_trade_lifecycle-Refreshes_example :
    Refreshes "POST" " T1 " restarted.store (refresh_trade_lifecycle "POST" " T1 " restarted.store)
refresh_trade_lifecycle-Refreshes_example =
    refresh_trade_lifecycle-Refreshes "POST" " T1 " restarted.store

abbrev answer : RefreshTradeLifecycleResponse
answer = record {
  trade_uid = "T1";
  old_status = "PENDING_FILL";
  new_status = "ACTIVE";
  counts = record { total = 1; filled = 1; pending = 0; terminal_fail = 0; unknown = 0 };
  changed = true;
}

answered_run : (refresh_trade_lifecycle "POST" " T1 " restarted.store).0 ≡ ok answer
unfolding refresh_trade_lifecycle find trim_space derive_trade_status_from_build_counts
    is_build_order count_where counts_filled counts_pending counts_dead counts_unknown
answered_run = refl

refresh_trade_lifecycle-execution_summary_example :
    execution_summary whole json true " T1 "
      (refresh_trade_lifecycle "POST" " T1 " restarted.store).1.db
    ≡ shows whole json "ACTIVE" (execution_summary whole json true " T1 " restarted.store.db)
refresh_trade_lifecycle-execution_summary_example =
    refresh_trade_lifecycle-execution_summary whole json "POST" " T1 " restarted.store answered_run

abbrev reads_waiting : World ℤ
reads_waiting = record sim { read_trade = λ s. waiting }

waiting_told : waiting.status ≢ ""
waiting_told e = cc

waiting_loaded : (load_trade reads_waiting.read_trade restarted.store "T1").0 ≡ some waiting
unfolding load_trade find new_memory_store
waiting_loaded = refl

abbrev squared : Result SqfError (Unit {0}) × Gateway ℤ
squared =
    square_off whole reads_waiting raw (λ t. "T") true (λ t. true) "T1"
      (record restarted { store = refresh_all (("POST", "T1") ∷ []) restarted.store })

refresh_all-square_off_example : (squared.0 ≡ err waits_for_fills) × (squared.1.calls ≡ [])
refresh_all-square_off_example =
    refresh_all-square_off whole reads_waiting raw (λ t. "T") true (λ t. true) "T1"
      (("POST", "T1") ∷ []) restarted (λ uid row h. waiting_told) waiting_loaded refl
