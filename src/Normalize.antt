-- ===== src/Normalize.antt =====
-- What the services make of a broker's words: services/reconciler/internal/normalize/normalize.go
-- and services/execution-gateway/internal/errors/normalizer.go. `now` is time.Now().
use complete_dashboard.Prelude.{
  ℕ, String, Bool, true, false, ◌||◌, Option, none, some, str_eq, to_upper, to_lower, contains,
  if◌then◌else◌,
}
use complete_dashboard.Prelude.Int.{ℤ}

pub data CanonicalOrderStatus : Type 0 where
  submitted acked partial filled cancelled rejected : CanonicalOrderStatus

pub record RawBrokerEvent (F : Type 0) : Type 0 where
  pub app_order_id : String
  pub order_unique_id : String
  pub exchange_order_id : String
  pub order_status : String
  pub order_quantity : ℤ
  pub leaves_quantity : ℤ
  pub cum_quantity : ℤ
  pub avg_traded_price : F
  pub cancel_reject : String
  pub exchange_time : String

pub record OrderUpdate (F : Type 0) : Type 0 where
  pub intent_id : String
  pub broker_order_id : String
  pub exchange_order_id : String
  pub status : CanonicalOrderStatus
  pub filled_qty : ℤ
  pub pending_qty : ℤ
  pub avg_fill_price : F
  pub reason_text : String
  pub broker_timestamp : ℕ

unfoldable pub map_status : String → CanonicalOrderStatus
map_status raw_status =
    let s = to_upper raw_status in
    if str_eq s "NEW" || str_eq s "OPEN"
    then acked
    else if str_eq s "FILLED" || str_eq s "TRADED" || str_eq s "EXECUTED"
    then filled
    else if str_eq s "PARTIALLYFILLED"
    then partial
    else if str_eq s "CANCELLED" || str_eq s "CANCELED"
    then cancelled
    else if str_eq s "REJECTED"
    then rejected
    else submitted

unfoldable pub parse_event : {F : Type 0} → ℕ → RawBrokerEvent F → OrderUpdate F
unfolding map_status
parse_event now raw = record {
  intent_id = raw.order_unique_id;
  broker_order_id = raw.app_order_id;
  exchange_order_id = raw.exchange_order_id;
  status = map_status raw.order_status;
  filled_qty = raw.cum_quantity;
  pending_qty = raw.leaves_quantity;
  avg_fill_price = raw.avg_traded_price;
  reason_text = raw.cancel_reject;
  broker_timestamp = now;
}

pub record NormalizedError : Type 0 where
  pub code : String
  pub description : String
  pub is_retryable : Bool
  -- `Original`, by its message
  pub original : Option String

unfoldable pub normalize_error : Option String → NormalizedError
normalize_error none = record { code = ""; description = ""; is_retryable = false; original = none }
normalize_error (some message) =
    let m = to_lower message in
    if contains m "timeout" || contains m "deadline"
    then record {
      code = "ERR_TIMEOUT";
      description = "Broker request timed out";
      is_retryable = true;
      original = some message;
    }
    else if contains m "unauthorized" || contains m "token expired"
    then record {
      code = "ERR_AUTH";
      description = "Broker session expired or unauthorized";
      is_retryable = false;
      original = some message;
    }
    else if contains m "margin" || contains m "insufficient funds"
    then record {
      code = "ERR_MARGIN";
      description = "Insufficient margin to place order";
      is_retryable = false;
      original = some message;
    }
    else if contains m "rate limit" || contains m "too many requests"
    then record {
      code = "ERR_RATE_LIMIT";
      description = "Broker API rate limit exceeded";
      is_retryable = true;
      original = some message;
    }
    else record {
      code = "ERR_UNKNOWN";
      description = "Unknown broker error";
      is_retryable = false;
      original = some message;
    }
