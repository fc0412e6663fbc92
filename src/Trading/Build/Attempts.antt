-- ===== src/Trading/Build/Attempts.antt =====
-- How often `executeBuild` calls the broker.
use complete_dashboard.Prelude.{
  ℕ, zero, suc, ◌+◌, ◌*◌, ◌≤◌, Bool-cases, inl, inr, Option, none, some, List, [], ◌∷◌, Result,
  arith, length, sum_by,
}
use complete_dashboard.Prelude.Int.{not_pos}
use complete_dashboard.Prelude.Float.{Float64}
use complete_dashboard.Chunker.{ExecOrder}
use complete_dashboard.Trading.Models.{StoredTrade, OrderIntent, ExecutionResult}
use complete_dashboard.Trading.Lifecycle.{BuildError}
use complete_dashboard.Trading.Build.{
  World, Gateway, Placed, filled, again, stop, Pass, stopped, left_over, send, after_send,
  record_intent, record_execution, priced, build_intent, settle, place_order, keep_order,
  after_order, pass_orders, after_pass, build_rounds, after_rounds, build_chunks, execute_build,
  max_chunk_retries,
}

abbrev pub calls_of : {F : Type 0} → Gateway F → ℕ
calls_of gw = length gw.calls

module _ (fl : Float64) (world : World fl.F) (trade : StoredTrade fl.F) where
  settle-calls :
      (order : ExecOrder fl.F) (intent : OrderIntent fl.F) (gw : Gateway fl.F)
      (reply : Option (ExecutionResult fl.F))
      → calls_of (settle fl world order intent gw reply).1 ≤ calls_of gw
  unfolding settle record_execution
  settle-calls order intent gw none = omega arith
  settle-calls order intent gw (some res) = omega arith

  place_order-calls :
      (retry : ℕ) (order : ExecOrder fl.F) (gw : Gateway fl.F)
      → calls_of (place_order fl world trade retry order gw).1 ≤ calls_of gw + 1
  unfolding place_order record_intent after_send
  place_order-calls retry order gw = elim (Bool-cases (not_pos order.quantity)) [
    | inl n ↦ rw n (omega arith)
    | inr n ↦
        (let tried = priced fl world trade retry order in
          let intent = build_intent fl world trade tried in
          let gw' = record_intent fl world gw trade.trade_uid intent in
          rw n (
            omega (
              arith,
              settle-calls tried intent (after_send fl world gw' intent) (send fl world gw' intent),
            )))
  ]

  -- At most `n` calls more, and at most `m` orders to try again.
  abbrev PassCalls : ℕ → ℕ → Pass fl.F × Gateway fl.F → Type 0
  PassCalls most m (stopped e, gw) = calls_of gw ≤ most
  PassCalls most m (left_over next, gw) = (calls_of gw ≤ most) × (length next ≤ m)

  more-PassCalls :
      (most most' m m' : ℕ) (p : Pass fl.F × Gateway fl.F)
      → most ≤ most'
      → m ≤ m'
      → PassCalls most m p
      → PassCalls most' m' p
  more-PassCalls most most' m m' (stopped e, gw) h k c = omega (arith, h, k, c)
  more-PassCalls most most' m m' (left_over next, gw) h k c =
      (omega (arith, h, c.0), omega (arith, k, c.1))

  keep_order-PassCalls :
      (most m : ℕ) (o : ExecOrder fl.F) (p : Pass fl.F) (gw : Gateway fl.F)
      → PassCalls most m (p, gw)
      → PassCalls most (suc m) (keep_order fl world o p, gw)
  keep_order-PassCalls most m o (stopped e) gw c = c
  keep_order-PassCalls most m o (left_over next) gw c = (c.0, omega (arith, c.1))

  after_order-PassCalls :
      (n before : ℕ) (rest : Gateway fl.F → Pass fl.F × Gateway fl.F)
      (p : Placed fl.F × Gateway fl.F)
      → calls_of p.1 ≤ before + 1
      → ((gw : Gateway fl.F) → PassCalls (calls_of gw + n) n (rest gw))
      → PassCalls (before + suc n) (suc n) (after_order fl world rest p)
  after_order-PassCalls n before rest (filled, gw) h k =
      more-PassCalls _ _ _ _ (rest gw) (omega (arith, h)) (omega arith) (k gw)
  after_order-PassCalls n before rest (again o, gw) h k =
      more-PassCalls _ _ _ _ (keep_order fl world o (rest gw).0, (rest gw).1) (omega (arith, h))
        (omega arith) (keep_order-PassCalls _ n o (rest gw).0 (rest gw).1 (k gw))
  after_order-PassCalls n before rest (stop e, gw) h k = omega (arith, h)

  pass_orders-PassCalls :
      (retry : ℕ) (orders : List (ExecOrder fl.F)) (gw : Gateway fl.F)
      → PassCalls
          (calls_of gw + length orders)
          (length orders)
          (pass_orders fl world trade retry orders gw)
  unfolding pass_orders
  pass_orders-PassCalls retry [] gw = (omega arith, omega arith)
  pass_orders-PassCalls retry (order ∷ orders) gw =
      after_order-PassCalls (length orders) _ _ _ (place_order-calls retry order gw)
        (pass_orders-PassCalls retry orders)

  after_pass-PassCalls :
      (rounds n before : ℕ) (rest : List (ExecOrder fl.F) → Gateway fl.F → Pass fl.F × Gateway fl.F)
      (p : Pass fl.F × Gateway fl.F)
      → PassCalls (before + n) n p
      → ((next : List (ExecOrder fl.F)) (gw : Gateway fl.F)
          → PassCalls (calls_of gw + rounds * length next) (length next) (rest next gw))
      → PassCalls (before + suc rounds * n) n (after_pass fl world rest p)
  after_pass-PassCalls rounds n before rest (stopped e, gw) h k = grind (arith, h)
  after_pass-PassCalls rounds n before rest (left_over next, gw) h k =
      more-PassCalls _ _ _ _ (rest next gw) (grind (arith, h.0, h.1)) h.1 (k next gw)

  build_rounds-PassCalls :
      (retry rounds : ℕ) (orders : List (ExecOrder fl.F)) (gw : Gateway fl.F)
      → PassCalls
          (calls_of gw + rounds * length orders)
          (length orders)
          (build_rounds fl world trade retry rounds orders gw)
  unfolding build_rounds
  build_rounds-PassCalls retry zero orders gw = (omega arith, omega arith)
  build_rounds-PassCalls retry (suc rounds) [] gw = (omega arith, omega arith)
  build_rounds-PassCalls retry (suc rounds) (order ∷ orders) gw =
      after_pass-PassCalls rounds _ _ _ _ (pass_orders-PassCalls retry (order ∷ orders) gw)
        (build_rounds-PassCalls (suc retry) rounds)

  after_rounds-calls :
      (index n before most : ℕ) (rest : Gateway fl.F → Result BuildError (Unit {0}) × Gateway fl.F)
      (p : Pass fl.F × Gateway fl.F)
      → PassCalls (before + 3 * n) n p
      → ((gw : Gateway fl.F) → calls_of (rest gw).1 ≤ calls_of gw + 3 * most)
      → calls_of (after_rounds fl world index rest p).1 ≤ before + 3 * (n + most)
  after_rounds-calls index n before most rest (stopped e, gw) h k = omega (arith, h)
  after_rounds-calls index n before most rest (left_over (o ∷ os), gw) h k = omega (arith, h.0)
  after_rounds-calls index n before most rest (left_over [], gw) h k = omega (arith, h.0, k gw)

  build_chunks-calls :
      (index : ℕ) (chunks : List (List (ExecOrder fl.F))) (gw : Gateway fl.F)
      → calls_of (build_chunks fl world trade index chunks gw).1
        ≤ calls_of gw + 3 * sum_by length chunks
  unfolding build_chunks
  build_chunks-calls index [] gw = omega arith
  build_chunks-calls index (chunk ∷ chunks) gw =
      after_rounds-calls index (length chunk) _ (sum_by length chunks) _ _
        (build_rounds-PassCalls 0 max_chunk_retries chunk gw)
        (build_chunks-calls (suc index) chunks)

  -- A build calls the broker at most three times per order of its chunks.
  pub execute_build-calls :
      (chunks : List (List (ExecOrder fl.F))) (gw : Gateway fl.F)
      → calls_of (execute_build fl world trade chunks gw).1 ≤ calls_of gw + 3 * sum_by length chunks
  unfolding execute_build
  execute_build-calls chunks gw = build_chunks-calls 0 chunks gw
