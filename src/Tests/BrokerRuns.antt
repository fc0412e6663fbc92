-- ===== src/Tests/BrokerRuns.antt =====
-- Runs of the executors for Greeksoft and XTS, with an order that the book shows as traded.
use complete_dashboard.Prelude.{
  ◌≤◌, ◌≡◌, refl, true, false, none, some, [], ◌∷◌, err, arith, Yields, str_eq, to_upper, to_lower,
  contains, without, without_dashes, trim_space, ◌==◌, if◌then◌else◌,
}
use complete_dashboard.Prelude.Int.{ℤ, pos, pos_part, leb_ℤ, eqb_ℤ}
use complete_dashboard.Prelude.Json.{Members, get_member}
use complete_dashboard.Trading.Models.{ExecutionResult}
use complete_dashboard.Trading.Lifecycle.{BuildError}
use complete_dashboard.Trading.Build.{execute_build}
use complete_dashboard.Brokers.Greeksoft.Book.{find_greeksoft_order_status}
use complete_dashboard.Brokers.Greeksoft.Search.{
  IsOrderIn, matched, find_greeksoft_order_status-IsOrderIn,
}
use complete_dashboard.Brokers.Greeksoft.Executor
use complete_dashboard.Brokers.Greeksoft.Executor.{
  Client, Placed, wait_order_status_from_order_book,
}
use complete_dashboard.Brokers.Greeksoft.Executor.Waits.{
  ShowsAt, wait_order_status_from_order_book-calls, wait_order_status_from_order_book-matched,
}
use complete_dashboard.Brokers.Greeksoft.Executor.Results.{execute_order_intent-whole_fill}
use complete_dashboard.Brokers.Xts.{XtsExecutor, xts_payload}
use complete_dashboard.Brokers.Xts.Submits.{
  IsXtsOrder, with_xts, xts_payload-IsXtsOrder, execute_build-with_xts,
}
use complete_dashboard.Trading.Batches.{Order, OrderExecutor, build_straddle}
use complete_dashboard.Trading.Batches.Bounds.{IsWithin, build_straddle-IsWithin}
use complete_dashboard.Tests.Numbers.{whole}
use complete_dashboard.Tests.Fixtures.{
  straddle, sim, idle, order, closing, json, book, filled_order,
}

-- The order is one field and one item deep.
found : find_greeksoft_order_status json book "7" ≡ some (matched json "7" filled_order)
unfolding find_greeksoft_order_status trim_space get_member
found = refl

find_greeksoft_order_status-IsOrderIn_example :
    (m : Members ℤ) × IsOrderIn json "7" m book
    × (matched json "7" filled_order ≡ matched json "7" m)
find_greeksoft_order_status-IsOrderIn_example =
    find_greeksoft_order_status-IsOrderIn json "7" book (matched json "7" filled_order) found

abbrev placed : Placed
placed = record { order_id = " 7 "; status = ""; raw_response = "{}" }

abbrev client : Client ℤ
client = record { place_order = λ o. some placed; order_book = λ i. some book; done = λ i. false }

wait_order_status_from_order_book-calls_example :
    (wait_order_status_from_order_book whole json client "7" 8).1 ≤ (if 8 == 0 then 1 else 8)
wait_order_status_from_order_book-calls_example =
    wait_order_status_from_order_book-calls whole json client "7" 8

shown : ShowsAt whole json client (trim_space "7") 0 (matched json "7" filled_order)
unfolding find_greeksoft_order_status trim_space get_member
shown = record {
  shows = refl;
  not_before = λ j lt. absurd (omega (arith, lt));
  not_done = λ j le. refl;
}

named : str_eq (trim_space "7") "" ≡ false
unfolding trim_space
named = refl

wait_order_status_from_order_book-matched_example :
    wait_order_status_from_order_book whole json client "7" 8
    ≡ (Executor.matched (matched json "7" filled_order), 1)
wait_order_status_from_order_book-matched_example =
    wait_order_status_from_order_book-matched whole json client "7" 8 0
      (matched json "7" filled_order) named shown (omega arith)

abbrev traded : ExecutionResult ℤ
traded = record {
  intent_id = "NIFT";
  broker_order_id = "7";
  status = "FILLED";
  filled_qty = pos 75;
  pending_qty = pos 0;
  fill_price = pos 0;
  event_reason = "GREEKSOFT_ORDERBOOK_CONFIRMED";
  latency_ms = pos 0;
  raw_request = "";
  raw_response = "{}";
}

executed : Executor.execute_order_intent whole json client [] closing ≡ some traded
unfolding Executor.execute_order_intent trim_space to_upper to_lower contains without without_dashes
    get_member
executed = refl

execute_order_intent-whole_fill_example :
    ("NIFT" ≡ closing.intent_id)
    × (str_eq "7" "" ≡ false)
    × (leb_ℤ closing.quantity (pos 75) ≡ true)
    × (eqb_ℤ (pos 0) (pos 0) ≡ true)
execute_order_intent-whole_fill_example =
    execute_order_intent-whole_fill whole json client [] closing traded executed refl refl

abbrev xts : XtsExecutor
xts = record { base_url = "https://xts"; token = "t"; client_id = "ACC" }

xts_payload-IsXtsOrder_example :
    Yields (IsXtsOrder whole closing) (xts_payload whole xts 1700 closing)
xts_payload-IsXtsOrder_example = xts_payload-IsXtsOrder whole xts 1700 closing

execute_build-with_xts_example :
    (b : BuildError) × ((execute_build whole
        (with_xts whole json (λ p. "{}") (λ url auth p. none) xts sim)
        straddle
        ((order ∷ []) ∷ [])
        idle).0
      ≡ err b)
execute_build-with_xts_example =
    execute_build-with_xts whole json (λ p. "{}") (λ url auth p. none) xts sim pos_part straddle
      ((order ∷ []) ∷ []) idle (omega arith)

abbrev batch_order : Order ℤ
batch_order = record {
  uid = "BUI_1";
  token = pos 101;
  option_type = "CE";
  action = "SELL";
  quantity = pos 75;
  expected_price = pos 120;
  limit_price = pos 118;
  limit_order_buffer = pos 2;
  exchange_segment = pos 2;
}

-- Places every batch under the id 7, which each verification asks to execute again.
abbrev batches : OrderExecutor ℤ
batches = record {
  execute_batch = λ calls orders name. some (record {
    successful_orders =
        record {
          app_order_id = "7";
          uid = "BUI_1";
          token = pos 101;
          action = "SELL";
          quantity = pos 75;
        }
        ∷ [];
    failed_orders = [];
  });
  verify_orders_bulk = λ calls ids name. record {
    verified_success = [];
    verified_failed =
        record { app_order_id = "7"; uid = "BUI_1"; status = "REEXECUTE_NEEDED"; reason = "" } ∷ [];
  };
  unix_milli = λ calls i. i;
}

build_straddle-IsWithin_example :
    IsWithin whole batches
      (λ t. t.quantity ≡ pos 75)
      12
      (build_straddle whole batches "T1"
        ((batch_order ∷ []) ∷ [])
        (record { calls = []; inserted = [] }))
build_straddle-IsWithin_example =
    build_straddle-IsWithin whole batches (λ t. t.quantity ≡ pos 75) "T1" ((batch_order ∷ []) ∷ [])
      [] ((refl, tt), tt)
