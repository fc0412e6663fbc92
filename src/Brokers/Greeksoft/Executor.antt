-- ===== src/Brokers/Greeksoft/Executor.antt =====
-- brokers/greeksoft/executor.go: `ExecuteOrderIntent` and its wait for the order book. The client of
-- libs/broker-greeksoft is given by its answers; `order_book i` and `done i` are those at attempt `i`.
pub mod Waits
pub mod Results
use complete_dashboard.Prelude.{
  text_or, ℕ, zero, suc, String, Bool, true, false, not, ◌&&◌, ◌||◌, Option, none, some, List,
  str_eq, trim_space, if◌then◌else◌, ◌==◌,
}
use complete_dashboard.Prelude.Int.{ℤ, pos, leb_ℤ, eqb_ℤ, not_pos}
use complete_dashboard.Prelude.Float.{Float64}
use complete_dashboard.Prelude.Json.{Json, JsonText}
use complete_dashboard.Trading.Models.{OrderIntent, ExecutionResult}
use complete_dashboard.Brokers.Greeksoft.Book.{
  Matched, Execution, normalize_greeksoft_order_status, find_greeksoft_order_status,
  extract_greeksoft_execution_fields,
}
use complete_dashboard.Brokers.Greeksoft.Tokens.{GreeksoftOrder, TokenEntry, map_order_intent}

-- The response to a placed order.
pub record Placed : Type 0 where
  pub order_id : String
  pub status : String
  pub raw_response : String

-- An error is none.
pub record Client (F : Type 0) : Type 0 where
  pub place_order : GreeksoftOrder F → Option Placed
  pub order_book : ℕ → Option (Json F)
  pub done : ℕ → Bool

-- How the wait ends.
pub data Waited : Type 0 where
  matched : Matched → Waited
  no_order_id cancelled book_failed not_in_book : Waited

module _ (fl : Float64) (json : JsonText fl.F) (client : Client fl.F) where
  -- for i := 0; i < attempts; i++: from attempt `i` with `left` to go; `failed` is lastErr != nil.
  -- With how it ends, the number of order books asked for.
  unfoldable pub wait_from : String → ℕ → ℕ → Bool → Waited × ℕ
  unfolding find_greeksoft_order_status
  wait_from target i zero failed = (if failed then book_failed else not_in_book, i)
  wait_from target i (suc left) failed = elim (client.done i) [
    | true ↦ (cancelled, i)
    | false ↦ elim (client.order_book i) [
      | none ↦ wait_from target (suc i) left true
      | some book ↦ elim (find_greeksoft_order_status json book target) [
        | some r ↦ (matched r, suc i)
        | none ↦ wait_from target (suc i) left failed
      ]
    ]
  ]

  unfoldable pub wait_order_status_from_order_book : String → ℕ → Waited × ℕ
  unfolding wait_from
  wait_order_status_from_order_book order_id attempts =
      if str_eq (trim_space order_id) ""
      then (no_order_id, 0)
      else wait_from (trim_space order_id) 0 (if attempts == 0 then 1 else attempts) false

  -- The status of a confirmed order, by what the book says was executed.
  unfoldable pub confirmed_status : ℤ → String → Execution fl.F → String
  confirmed_status quantity status ex =
      if not_pos ex.filled_qty || (str_eq status "REJECTED" || str_eq status "CANCELLED")
      then status
      else if eqb_ℤ ex.pending_qty (pos 0)
          && (not (not_pos quantity) && leb_ℤ quantity ex.filled_qty)
      then "FILLED"
      else "PARTIALLY_FILLED"

  abbrev pub result_of :
      OrderIntent fl.F → String → String → String → Execution fl.F → String → ExecutionResult fl.F
  result_of intent order_id status reason ex raw = record {
    intent_id = intent.intent_id;
    broker_order_id = order_id;
    status = status;
    filled_qty = ex.filled_qty;
    pending_qty = ex.pending_qty;
    fill_price = ex.avg_price;
    event_reason = reason;
    latency_ms = pos 0;
    raw_request = "";
    raw_response = raw;
  }

  abbrev pub nothing_filled : Execution fl.F
  nothing_filled = record { filled_qty = pos 0; pending_qty = pos 0; avg_price = fl.lit 0 0 }

  -- What the book's status and JSON make of the order.
  unfoldable pub confirm_order : OrderIntent fl.F → String → Placed → Matched → ExecutionResult fl.F
  unfolding confirmed_status extract_greeksoft_execution_fields normalize_greeksoft_order_status
  confirm_order intent order_id placed r =
      let raw = if str_eq (trim_space r.raw) "" then placed.raw_response else r.raw in
      let ex = extract_greeksoft_execution_fields fl json raw in
      let status =
        confirmed_status intent.quantity (normalize_greeksoft_order_status r.status) ex in
      result_of intent order_id status "GREEKSOFT_ORDERBOOK_CONFIRMED" ex raw

  abbrev pub unconfirmed : OrderIntent fl.F → String → Placed → ExecutionResult fl.F
  unconfirmed intent order_id placed =
      result_of intent order_id (text_or (trim_space placed.status) "SUBMITTED")
        "GREEKSOFT_ORDER_SENT" nothing_filled placed.raw_response

  -- Once the wait has ended.
  unfoldable pub after_wait : OrderIntent fl.F → String → Placed → Waited → ExecutionResult fl.F
  unfolding confirm_order
  after_wait intent order_id placed (matched r) =
      if str_eq (trim_space r.status) ""
      then unconfirmed intent order_id placed
      else confirm_order intent order_id placed r
  after_wait intent order_id placed no_order_id = unconfirmed intent order_id placed
  after_wait intent order_id placed cancelled = unconfirmed intent order_id placed
  after_wait intent order_id placed book_failed = unconfirmed intent order_id placed
  after_wait intent order_id placed not_in_book = unconfirmed intent order_id placed

  unfoldable pub after_place : OrderIntent fl.F → Placed → ExecutionResult fl.F
  unfolding after_wait wait_order_status_from_order_book
  after_place intent placed =
      let order_id = trim_space placed.order_id in
      if str_eq order_id ""
      then result_of intent "" "REJECTED" "GREEKSOFT_ORDER_REJECTED_NO_ORDER_ID" nothing_filled
          placed.raw_response
      else after_wait intent order_id placed (wait_order_status_from_order_book order_id 8).0

  unfoldable pub execute_order_intent :
      List TokenEntry → OrderIntent fl.F → Option (ExecutionResult fl.F)
  unfolding after_place map_order_intent
  execute_order_intent tokens intent =
      elim (client.place_order (map_order_intent fl tokens intent)) [
        | none ↦ none
        | some placed ↦ some (after_place intent placed)
      ]
