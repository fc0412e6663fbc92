-- ===== src/Brokers/Local.antt =====
-- services/execution-gateway/internal/trading: `MockExecutor` of executor.go and the
-- `DefaultBrokerFactory` of registry.go. A provider is what makes an executor; nil is none.
use complete_dashboard.Prelude.{
  ◌≡◌, String, Bool, false, Option, none, some, Result, err, ok, GoMap, find, put, find-put, arith,
  str_eq, to_upper, trim_space, if◌then◌else◌,
}
use complete_dashboard.Prelude.Int.{pos}
use complete_dashboard.Prelude.Float.{Float64}
use complete_dashboard.Trading.Models.{OrderIntent, ExecutionResult}

-- *intent.LimitPrice, 0 where it is nil
abbrev pub limit_of : (fl : Float64) → Option fl.F → fl.F
limit_of fl none = fl.lit 0 0
limit_of fl (some p) = p

-- `order_id` is the random id. A context that is done is none.
unfoldable pub mock_execute_order_intent :
    (fl : Float64) → Bool → String → OrderIntent fl.F → Option (ExecutionResult fl.F)
mock_execute_order_intent fl done order_id intent =
    let limit = limit_of fl intent.limit_price in
    let price = if fl.flt (fl.lit 0 0) limit then limit else intent.expected_price in
    if done
    then none
    else some (record {
      intent_id = intent.intent_id;
      broker_order_id = order_id;
      status = "FILLED";
      filled_qty = intent.quantity;
      pending_qty = pos 0;
      fill_price = if fl.fle price (fl.lit 0 0) then fl.lit 10 1 else price;
      event_reason = "UAT_MOCK";
      latency_ms = pos 0;
      raw_request = "";
      raw_response = "";
    })

pub data FactoryError : Type 0 where
  broker_name_required : FactoryError
  unsupported_broker : String → FactoryError

abbrev pub broker_key : String → String
broker_key name = to_upper (trim_space name)

module _ {P : Type 0} where
  unfoldable pub register_provider : GoMap P → String → Option P → GoMap P
  register_provider providers name none = providers
  register_provider providers name (some p) = put providers (broker_key name) p

  -- The provider that is then called with the user and the account.
  unfoldable pub get_provider : GoMap P → String → Result FactoryError P
  get_provider providers name =
      if str_eq (broker_key name) ""
      then err broker_name_required
      else elim (find providers (broker_key name)) [
        | none ↦ err (unsupported_broker name)
        | some p ↦ ok p
      ]

  -- A provider that is registered under a name is found under every name with the same trimmed
  -- upper-case form that is not blank, and the providers of other names stay.
  pub get_provider-register_provider :
      (providers : GoMap P) (name other : String) (p : P)
      → str_eq (broker_key other) "" ≡ false
      → get_provider (register_provider providers name (some p)) other ≡ (
          if str_eq (broker_key name) (broker_key other)
          then ok p
          else get_provider providers other)
  unfolding get_provider register_provider
  get_provider-register_provider providers name other p h =
      ground (arith, h, find-put providers (broker_key name) (broker_key other) p)
