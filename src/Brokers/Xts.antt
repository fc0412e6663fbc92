-- ===== src/Brokers/Xts.antt =====
-- services/execution-gateway/internal/brokers/xts/executor.go: the executor for XTS. The semaphore,
-- the sleep and the measured latency are left out; `post` is the HTTP call with the decoding of its
-- answer, none where either fails.
pub mod Submits
use complete_dashboard.Prelude.{
  text_or, ℕ, String, Bool, not, ◌&&◌, ◌||◌, Option, none, some, Result, err, ok, ◌>>=◌, ◌>>◌, min,
  str_eq, ◌+s◌, to_upper, trim_space, format_nat, len, prefix_of, leb, ltb, if◌then◌else◌,
}
use complete_dashboard.Prelude.Int.{ℤ, pos, not_pos}
use complete_dashboard.Prelude.Float.{Float64}
use complete_dashboard.Prelude.Json.{
  Json, null, flag, num, str, arr, obj, Members, end, JsonText, get_member,
}
use complete_dashboard.Trading.Models.{OrderIntent, ExecutionResult}

pub record XtsExecutor : Type 0 where
  pub base_url : String
  pub token : String
  pub client_id : String

pub data XtsError : Type 0 where
  base_url_empty token_empty client_id_empty side_required http_failed : XtsError
  invalid_quantity : ℤ → ℤ → XtsError
  invalid_token : ℤ → XtsError
  rejected : String → XtsError

-- The payload; its timeInForce is "DAY", its disclosedQuantity and stopPrice are 0.
pub record XtsPayload (F : Type 0) : Type 0 where
  pub exchange_segment : String
  pub exchange_instrument_id : ℤ
  pub product_type : String
  pub order_type : String
  pub order_side : String
  pub order_quantity : ℤ
  pub limit_price : F
  pub order_unique_identifier : String
  pub client_id : String

pub record XtsReply (F : Type 0) : Type 0 where
  pub status_code : ℕ
  pub status : String
  pub body : Members F

abbrev pub require : Bool → XtsError → Result XtsError (Unit {0})
require b e = if b then ok tt else err e

-- The identifier of an order, at most 20 bytes; `now` is time.Now().UnixNano().
unfoldable pub xts_order_uid : {F : Type 0} → ℕ → OrderIntent F → String
xts_order_uid now intent =
    let uid =
      text_or (text_or (trim_space intent.order_uid) (trim_space intent.intent_id))
        ("OID-" +s format_nat now) in
    prefix_of (min (len uid) 20) uid

unfoldable pub xts_payload :
    (fl : Float64) → XtsExecutor → ℕ → OrderIntent fl.F → Result XtsError (XtsPayload fl.F)
unfolding xts_order_uid
xts_payload fl e now intent = do
  require (not (str_eq (trim_space e.base_url) "")) base_url_empty
  require (not (str_eq (trim_space e.token) "")) token_empty
  let client = text_or (trim_space intent.account_id) (trim_space e.client_id)
  require (not (str_eq client "")) client_id_empty
  let side = to_upper (trim_space intent.side)
  require (not (str_eq side "")) side_required
  require (not (not_pos intent.quantity)) (invalid_quantity intent.token intent.quantity)
  require (not (not_pos intent.token)) (invalid_token intent.token)
  ok (record {
    exchange_segment = text_or (to_upper (trim_space intent.exchange_segment)) "NSEFO";
    exchange_instrument_id = intent.token;
    product_type = text_or (to_upper (trim_space intent.product_type)) "MIS";
    order_type = text_or (to_upper (trim_space intent.order_type)) "LIMIT";
    order_side = side;
    order_quantity = intent.quantity;
    limit_price = elim intent.limit_price [ none ↦ fl.lit 0 0 | some p ↦ p ];
    order_unique_identifier = xts_order_uid now intent;
    client_id = client;
  })

module _ (fl : Float64) (json : JsonText fl.F) where
  -- fmt.Sprintf("%v", m[key])
  unfoldable pub print_member : Members fl.F → String → String
  print_member m key = elim (get_member m key) [ none ↦ "<nil>" | some v ↦ json.print_value v ]

  abbrev pub object_in : Option (Json fl.F) → Members fl.F
  object_in (some (obj m)) = m
  object_in (some null) = end
  object_in (some (flag b)) = end
  object_in (some (num x)) = end
  object_in (some (str s)) = end
  object_in (some (arr xs)) = end
  object_in none = end

  unfoldable pub xts_broker_order_id : Members fl.F → String
  unfolding print_member
  xts_broker_order_id body =
      let result = object_in (get_member body "result") in
      let id = print_member result "AppOrderID" in
      if str_eq id "" || str_eq id "<nil>" then print_member result "OrderID" else id

  -- The two tests on an answer.
  unfoldable pub check_reply : XtsReply fl.F → Result XtsError (Unit {0})
  unfolding print_member
  check_reply reply =
      let desc = print_member reply.body "description" in
      if ltb reply.status_code 200 || leb 300 reply.status_code
      then err (rejected (if str_eq desc "" || str_eq desc "<nil>" then reply.status else desc))
      else if str_eq (print_member reply.body "type") "success"
      then ok tt
      else err (rejected desc)

  -- `marshal_payload` is json.Marshal of the payload.
  module _ (marshal_payload : XtsPayload fl.F → String)
      (post : String → String → XtsPayload fl.F → Option (XtsReply fl.F)) where
    unfoldable pub answer_of : Option (XtsReply fl.F) → Result XtsError (XtsReply fl.F)
    answer_of none = err http_failed
    answer_of (some reply) = ok reply

    unfoldable pub execute_order_intent :
        XtsExecutor → ℕ → OrderIntent fl.F → Result XtsError (ExecutionResult fl.F)
    unfolding xts_payload answer_of check_reply xts_broker_order_id
    execute_order_intent e now intent = do
      payload ← xts_payload fl e now intent
      reply ← answer_of (post (e.base_url +s "/interactive/orders") e.token payload)
      check_reply reply
      ok (record {
        intent_id = intent.intent_id;
        broker_order_id = xts_broker_order_id reply.body;
        status = "SUBMITTED";
        filled_qty = pos 0;
        pending_qty = pos 0;
        fill_price = fl.lit 0 0;
        event_reason = "LIVE_XTS_SUBMISSION";
        latency_ms = pos 0;
        raw_request = marshal_payload payload;
        raw_response = json.marshal_object reply.body;
      })
