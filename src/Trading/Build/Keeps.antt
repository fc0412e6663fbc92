-- ===== src/Trading/Build/Keeps.antt =====
-- What each step of `executeBuild` preserves, the whole build preserves.
use complete_dashboard.Prelude.{
  ℕ, zero, suc, ◌≡◌, refl, Bool-cases, inl, inr, String, Option, none, some, List, [], ◌∷◌, Result,
}
use complete_dashboard.Prelude.Int.{not_pos}
use complete_dashboard.Prelude.Float.{Float64}
use complete_dashboard.Chunker.{ExecOrder}
use complete_dashboard.Trading.Models.{StoredTrade, OrderIntent, ExecutionResult}
use complete_dashboard.Trading.Lifecycle.{BuildError}
use complete_dashboard.Trading.Store.{append_intent, mem_append_intent}
use complete_dashboard.Trading.Build.{
  World, Gateway, Placed, filled, again, stop, Pass, stopped, left_over, send, after_send,
  record_intent, record_execution, priced, build_intent, settle, place_order, after_order,
  pass_orders, after_pass, build_rounds, after_rounds, build_chunks, execute_build,
  max_chunk_retries,
}
use complete_dashboard.Prelude.{GoMap}

module _ (fl : Float64) (world : World fl.F) (trade : StoredTrade fl.F) (P : Gateway fl.F → Type 0)
    (records : (gw : Gateway fl.F) (intent : OrderIntent fl.F)
      → P gw
      → P (record_intent fl world gw trade.trade_uid intent))
    (sends : (gw : Gateway fl.F) (intent : OrderIntent fl.F)
      → P gw
      → P (after_send fl world gw intent))
    (executes : (gw : Gateway fl.F) (id : String) (res : ExecutionResult fl.F)
      → P gw
      → P (record_execution fl world gw id res)) where
  settle-keeps :
      (order : ExecOrder fl.F) (intent : OrderIntent fl.F) (gw : Gateway fl.F)
      (reply : Option (ExecutionResult fl.F))
      → P gw
      → P (settle fl world order intent gw reply).1
  unfolding settle
  settle-keeps order intent gw none h = h
  settle-keeps order intent gw (some res) h = executes gw intent.intent_id res h

  place_order-keeps :
      (retry : ℕ) (order : ExecOrder fl.F) (gw : Gateway fl.F)
      → P gw
      → P (place_order fl world trade retry order gw).1
  unfolding place_order
  place_order-keeps retry order gw h = elim (Bool-cases (not_pos order.quantity)) [
    | inl n ↦ rw n h
    | inr n ↦
        (let tried = priced fl world trade retry order in
          let intent = build_intent fl world trade tried in
          let gw' = record_intent fl world gw trade.trade_uid intent in
          rw n (
            settle-keeps tried intent (after_send fl world gw' intent) (send fl world gw' intent)
              (sends gw' intent (records gw intent h))))
  ]

  after_order-keeps :
      (rest : Gateway fl.F → Pass fl.F × Gateway fl.F) (p : Placed fl.F × Gateway fl.F)
      → P p.1
      → ((gw : Gateway fl.F) → P gw → P (rest gw).1)
      → P (after_order fl world rest p).1
  after_order-keeps rest (filled, gw) h k = k gw h
  after_order-keeps rest (again o, gw) h k = k gw h
  after_order-keeps rest (stop e, gw) h k = h

  pass_orders-keeps :
      (retry : ℕ) (orders : List (ExecOrder fl.F)) (gw : Gateway fl.F)
      → P gw
      → P (pass_orders fl world trade retry orders gw).1
  unfolding pass_orders
  pass_orders-keeps retry [] gw h = h
  pass_orders-keeps retry (order ∷ orders) gw h =
      after_order-keeps (pass_orders fl world trade retry orders)
        (place_order fl world trade retry order gw) (place_order-keeps retry order gw h)
        (pass_orders-keeps retry orders)

  after_pass-keeps :
      (rest : List (ExecOrder fl.F) → Gateway fl.F → Pass fl.F × Gateway fl.F)
      (p : Pass fl.F × Gateway fl.F)
      → P p.1
      → ((next : List (ExecOrder fl.F)) (gw : Gateway fl.F) → P gw → P (rest next gw).1)
      → P (after_pass fl world rest p).1
  after_pass-keeps rest (stopped e, gw) h k = h
  after_pass-keeps rest (left_over next, gw) h k = k next gw h

  build_rounds-keeps :
      (retry rounds : ℕ) (orders : List (ExecOrder fl.F)) (gw : Gateway fl.F)
      → P gw
      → P (build_rounds fl world trade retry rounds orders gw).1
  unfolding build_rounds
  build_rounds-keeps retry zero orders gw h = h
  build_rounds-keeps retry (suc rounds) [] gw h = h
  build_rounds-keeps retry (suc rounds) (order ∷ orders) gw h =
      after_pass-keeps (build_rounds fl world trade (suc retry) rounds)
        (pass_orders fl world trade retry (order ∷ orders) gw)
        (pass_orders-keeps retry (order ∷ orders) gw h) (build_rounds-keeps (suc retry) rounds)

  after_rounds-keeps :
      (index : ℕ) (rest : Gateway fl.F → Result BuildError (Unit {0}) × Gateway fl.F)
      (p : Pass fl.F × Gateway fl.F)
      → P p.1
      → ((gw : Gateway fl.F) → P gw → P (rest gw).1)
      → P (after_rounds fl world index rest p).1
  after_rounds-keeps index rest (stopped e, gw) h k = h
  after_rounds-keeps index rest (left_over (o ∷ os), gw) h k = h
  after_rounds-keeps index rest (left_over [], gw) h k = k gw h

  build_chunks-keeps :
      (index : ℕ) (chunks : List (List (ExecOrder fl.F))) (gw : Gateway fl.F)
      → P gw
      → P (build_chunks fl world trade index chunks gw).1
  unfolding build_chunks
  build_chunks-keeps index [] gw h = h
  build_chunks-keeps index (chunk ∷ chunks) gw h =
      after_rounds-keeps index (build_chunks fl world trade (suc index) chunks)
        (build_rounds fl world trade 0 max_chunk_retries chunk gw)
        (build_rounds-keeps 0 max_chunk_retries chunk gw h) (build_chunks-keeps (suc index) chunks)

  pub execute_build-keeps :
      (chunks : List (List (ExecOrder fl.F))) (gw : Gateway fl.F)
      → P gw
      → P (execute_build fl world trade chunks gw).1
  unfolding execute_build
  execute_build-keeps chunks gw h = build_chunks-keeps 0 chunks gw h

-- A build leaves the trades and the runtimes of the store as they are.
module _ (fl : Float64) (world : World fl.F) (trade : StoredTrade fl.F) where
  abbrev SameTrades : GoMap (StoredTrade fl.F) → Gateway fl.F → Type 0
  SameTrades trades gw = gw.store.mem.trades ≡ trades

  pub execute_build-trades :
      (chunks : List (List (ExecOrder fl.F))) (gw : Gateway fl.F)
      → (execute_build fl world trade chunks gw).1.store.mem.trades ≡ gw.store.mem.trades
  unfolding record_intent after_send record_execution append_intent mem_append_intent
  execute_build-trades chunks gw =
      execute_build-keeps fl world trade (SameTrades gw.store.mem.trades) (λ gw' intent h. h)
        (λ gw' intent h. h) (λ gw' id res h. h) chunks gw refl
