-- ===== src/Trading/Build.antt =====
-- services/execution-gateway/internal/trading/service.go: `executeBuild` sends the chunks' orders.
-- A broker may answer in any way that depends on the orders sent so far: it is a function of the
-- list of calls, the latest first. An answer of `none` is an error. The waits between the rounds
-- are left out.
pub mod Fills
pub mod Attempts
pub mod Stops
pub mod Keeps
use complete_dashboard.Prelude.{
  ℕ, zero, suc, ◌+◌, ◌||◌, String, Bool, Option, none, some, List, [], ◌∷◌, Result, err, ok, str_eq,
  if◌then◌else◌,
}
use complete_dashboard.Prelude.Int.{ℤ, pos, not_pos}
use complete_dashboard.Prelude.Float.{Float64}
use complete_dashboard.Chunker.{ExecOrder}
use complete_dashboard.Trading.Models.{StoredTrade, OrderIntent, ExecutionResult}
use complete_dashboard.Trading.Lifecycle.{
  BuildError, pending_fill, invalid_build_quantity, chunk_failed, new_build_pending_fill_error,
}
use complete_dashboard.Trading.Store.{Store, append_intent}
use complete_dashboard.Trading.Store.Marks.{mark_order_execution}

pub record Call (F : Type 0) : Type 0 where
  pub intent : OrderIntent F
  pub reply : Option (ExecutionResult F)

abbrev pub Broker : Type 0 → Type 0
Broker F = List (Call F) → OrderIntent F → Option (ExecutionResult F)

-- What the functions here call and the source does not define: json.Marshal and
-- json.Unmarshal, the microseconds since 1970 of a time, time.Now (read after
-- some calls of the broker) and the broker.
pub record World (F : Type 0) : Type 0 where
  pub marshal_trade : StoredTrade F → String
  pub marshal_intent : OrderIntent F → String
  pub read_trade : String → StoredTrade F
  pub unix_micro : ℕ → ℕ
  pub clock : List (Call F) → ℕ
  pub broker : Broker F

pub record Gateway (F : Type 0) : Type 0 where
  pub store : Store F
  pub calls : List (Call F)

-- What becomes of one order in one round.
pub data Placed (F : Type 0) : Type 0 where
  filled : Placed F
  again : ExecOrder F → Placed F
  stop : BuildError → Placed F

-- What a round leaves: an error, or the orders to try again.
pub data Pass (F : Type 0) : Type 0 where
  stopped : BuildError → Pass F
  left_over : List (ExecOrder F) → Pass F

abbrev pub is_fill : String → Bool
is_fill status = str_eq status "FILLED" || str_eq status "SUCCESS"

abbrev pub is_refusal : String → Bool
is_refusal status = str_eq status "REJECTED" || str_eq status "CANCELLED"

abbrev pub max_chunk_retries : ℕ
max_chunk_retries = 3

module _ (fl : Float64) (world : World fl.F) where
  -- ExecuteOrderIntent, and what the broker answers
  unfoldable pub send : Gateway fl.F → OrderIntent fl.F → Option (ExecutionResult fl.F)
  send gw intent = world.broker gw.calls intent

  unfoldable pub after_send : Gateway fl.F → OrderIntent fl.F → Gateway fl.F
  unfolding send
  after_send gw intent = record gw {
    calls = record { intent = intent; reply = send gw intent } ∷ gw.calls;
  }

  -- s.Store.AppendIntent
  unfoldable pub record_intent : Gateway fl.F → String → OrderIntent fl.F → Gateway fl.F
  record_intent gw trade_uid intent = record gw {
    store =
        append_intent world.marshal_trade world.marshal_intent (fl.lit 0 0) (world.clock gw.calls)
          gw.store trade_uid intent;
  }

  -- s.Store.AppendIntent for each intent
  abbrev pub record_intents : Gateway fl.F → String → List (OrderIntent fl.F) → Gateway fl.F
  record_intents gw uid [] = gw
  record_intents gw uid (i ∷ is) = record_intents (record_intent gw uid i) uid is

  -- MarkOrderExecution, which only the store with a database has
  unfoldable pub record_execution : Gateway fl.F → String → ExecutionResult fl.F → Gateway fl.F
  record_execution gw intent_id res = record gw {
    store = record gw.store {
      db =
          mark_order_execution gw.store.db intent_id res.broker_order_id res.status res.filled_qty
            res.pending_qty res.fill_price res.raw_response;
    };
  }

  unfoldable pub sell_buffer_of : StoredTrade fl.F → fl.F
  sell_buffer_of trade =
      let b = trade.config.sell_buffer in if fl.fle b (fl.lit 0 0) then fl.lit 20 1 else b

  -- The limit of the try with number `retry`, in steps of 0.05.
  unfoldable pub build_limit : fl.F → ℕ → ExecOrder fl.F → fl.F
  build_limit buffer retry order =
      let limit =
        fmax (lit 5 2) (sub order.expected_price (mul buffer (of_int (pos (retry + 1))))) in
      mul (round (div limit (lit 5 2))) (lit 5 2)
    where
      open fl use {fmax, lit, sub, mul, of_int, round, div}

  unfoldable pub priced : StoredTrade fl.F → ℕ → ExecOrder fl.F → ExecOrder fl.F
  unfolding sell_buffer_of build_limit
  priced trade retry order = record order {
    limit_price = build_limit (sell_buffer_of trade) retry order;
  }

  unfoldable pub build_intent : StoredTrade fl.F → ExecOrder fl.F → OrderIntent fl.F
  build_intent trade order = record {
    intent_id = order.uid;
    trade_uid = trade.trade_uid;
    token = order.token;
    symbol = order.symbol;
    exchange_segment = trade.exchange_segment;
    side = order.action;
    quantity = order.quantity;
    order_type = "LIMIT";
    limit_price = some order.limit_price;
    product_type = trade.product_type;
    leg_type = order.option_type;
    phase = "BUILD";
    order_uid = order.uid;
    broker_name = trade.broker_name;
    account_id = trade.account_id;
    expected_price = order.expected_price;
  }

  -- switch res.Status
  unfoldable pub judge : ExecOrder fl.F → OrderIntent fl.F → ExecutionResult fl.F → Placed fl.F
  judge order intent res =
      if is_fill res.status
      then filled
      else if is_refusal res.status
      then again order
      else stop (
          pending_fill (
            new_build_pending_fill_error intent.intent_id res.broker_order_id res.status
              res.filled_qty res.pending_qty))

  unfoldable pub settle :
      ExecOrder fl.F
      → OrderIntent fl.F
      → Gateway fl.F
      → Option (ExecutionResult fl.F)
      → Placed fl.F × Gateway fl.F
  unfolding judge record_execution
  settle order intent gw none = (again order, gw)
  settle order intent gw (some res) =
      (judge order intent res, record_execution gw intent.intent_id res)

  -- The body of the loop over the orders to process.
  unfoldable pub place_order :
      StoredTrade fl.F → ℕ → ExecOrder fl.F → Gateway fl.F → Placed fl.F × Gateway fl.F
  unfolding send after_send record_intent priced build_intent settle
  place_order trade retry order gw =
      if not_pos order.quantity
      then (stop (invalid_build_quantity order.token order.quantity), gw)
      else let tried = priced trade retry order in
        let intent = build_intent trade tried in
        let gw' = record_intent gw trade.trade_uid intent in
        settle tried intent (after_send gw' intent) (send gw' intent)

  abbrev pub keep_order : ExecOrder fl.F → Pass fl.F → Pass fl.F
  keep_order o (stopped e) = stopped e
  keep_order o (left_over os) = left_over (o ∷ os)

  abbrev pub after_order :
      (Gateway fl.F → Pass fl.F × Gateway fl.F)
      → Placed fl.F × Gateway fl.F
      → Pass fl.F × Gateway fl.F
  after_order rest (filled, gw) = rest gw
  after_order rest (again o, gw) = let (pass, gw') = rest gw in (keep_order o pass, gw')
  after_order rest (stop e, gw) = (stopped e, gw)

  -- for i := range ordersToProcess
  unfoldable pub pass_orders :
      StoredTrade fl.F → ℕ → List (ExecOrder fl.F) → Gateway fl.F → Pass fl.F × Gateway fl.F
  pass_orders trade retry [] gw = (left_over [], gw)
  pass_orders trade retry (order ∷ orders) gw =
      after_order (pass_orders trade retry orders) (place_order trade retry order gw)

  abbrev pub after_pass :
      (List (ExecOrder fl.F) → Gateway fl.F → Pass fl.F × Gateway fl.F)
      → Pass fl.F × Gateway fl.F
      → Pass fl.F × Gateway fl.F
  after_pass rest (stopped e, gw) = (stopped e, gw)
  after_pass rest (left_over next, gw) = rest next gw

  -- for retryIter := 0; retryIter < maxChunkRetries && len(ordersToProcess) > 0, with `rounds` left
  unfoldable pub build_rounds :
      StoredTrade fl.F → ℕ → ℕ → List (ExecOrder fl.F) → Gateway fl.F → Pass fl.F × Gateway fl.F
  build_rounds trade retry zero orders gw = (left_over orders, gw)
  build_rounds trade retry (suc rounds) [] gw = (left_over [], gw)
  build_rounds trade retry (suc rounds) (order ∷ orders) gw =
      after_pass (build_rounds trade (suc retry) rounds)
        (pass_orders trade retry (order ∷ orders) gw)

  abbrev pub after_rounds :
      ℕ
      → (Gateway fl.F → Result BuildError (Unit {0}) × Gateway fl.F)
      → Pass fl.F × Gateway fl.F
      → Result BuildError (Unit {0}) × Gateway fl.F
  after_rounds index rest (stopped e, gw) = (err e, gw)
  after_rounds index rest (left_over [], gw) = rest gw
  after_rounds index rest (left_over (o ∷ os), gw) = (err (chunk_failed (index + 1)), gw)

  -- for chunkIdx, chunk := range chunks
  unfoldable pub build_chunks :
      StoredTrade fl.F
      → ℕ
      → List (List (ExecOrder fl.F))
      → Gateway fl.F
      → Result BuildError (Unit {0}) × Gateway fl.F
  build_chunks trade index [] gw = (ok tt, gw)
  build_chunks trade index (chunk ∷ chunks) gw =
      after_rounds index (build_chunks trade (suc index) chunks)
        (build_rounds trade 0 max_chunk_retries chunk gw)

  unfoldable pub execute_build :
      StoredTrade fl.F
      → List (List (ExecOrder fl.F))
      → Gateway fl.F
      → Result BuildError (Unit {0}) × Gateway fl.F
  execute_build trade chunks gw = build_chunks trade 0 chunks gw
