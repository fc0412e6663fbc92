-- ===== src/Trading/Store/Marks.antt =====
-- services/execution-gateway/internal/trading/store_postgres.go: what the store writes of an order's
-- execution.
use complete_dashboard.Prelude.{
  String, Option, none, some, List, [], ◌∷◌, ◌++◌, str_eq, if◌then◌else◌,
}
use complete_dashboard.Prelude.Int.{ℤ}
use complete_dashboard.Trading.Store.{Database, OrderRow, OrderEvent, update_order, find_order}

abbrev pub or_submitted : String → String
or_submitted status = if str_eq status "" then "SUBMITTED" else status

module _ {F : Type 0} where
  -- An order event is written for the row that the UPDATE returned.
  unfoldable pub log_event : Option (OrderRow F) → OrderEvent → List OrderEvent → List OrderEvent
  log_event none e events = events
  log_event (some r) e events = events ++ e ∷ []

  unfoldable pub mark_order_execution :
      Option (Database F) → String → String → String → ℤ → ℤ → F → String → Option (Database F)
  mark_order_execution none id broker_id status filled pending price raw = none
  mark_order_execution (some db) id broker_id status filled pending price raw = some (record db {
    orders =
        update_order
          (λ r. record r {
            broker_order_id = broker_id;
            status = or_submitted status;
            filled_qty = filled;
            pending_qty = pending;
            avg_fill_price = price;
          })
          id db.orders;
    events =
        log_event (find_order db.orders id)
          (record {
            intent_id = id;
            status = or_submitted status;
            reason_text = "BROKER_EXECUTION";
            raw_response = raw;
          })
          db.events;
  })

  unfoldable pub mark_order_submitted :
      Option (Database F) → String → String → String → String → Option (Database F)
  mark_order_submitted none id broker_id status raw = none
  mark_order_submitted (some db) id broker_id status raw = some (record db {
    orders =
        update_order (λ r. record r { broker_order_id = broker_id; status = or_submitted status })
          id db.orders;
    events =
        log_event (find_order db.orders id)
          (record {
            intent_id = id;
            status = or_submitted status;
            reason_text = "BROKER_RESPONSE";
            raw_response = raw;
          })
          db.events;
  })
