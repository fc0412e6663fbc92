-- ===== src/Trading/Build/Stops.antt =====
-- `executeBuild` sends no order while the fate of an earlier one is open.
use complete_dashboard.Prelude.{
  ℕ, zero, suc, ◌||◌, ◌≡◌, ◌≢◌, refl, Bool, true, false, Bool-cases, inl, inr, Option, none, some,
  List, [], ◌∷◌, Result, ok, err, All, if◌then◌else◌,
}
use complete_dashboard.Prelude.Int.{not_pos}
use complete_dashboard.Prelude.Float.{Float64}
use complete_dashboard.Chunker.{ExecOrder}
use complete_dashboard.Trading.Models.{StoredTrade, OrderIntent, ExecutionResult}
use complete_dashboard.Trading.Lifecycle.{
  BuildError, pending_fill, invalid_build_quantity, chunk_failed, BuildPendingFillError,
  new_build_pending_fill_error,
}
use complete_dashboard.Trading.Build.{
  Call, World, Gateway, Placed, filled, again, stop, Pass, stopped, left_over, is_fill, is_refusal,
  send, after_send, record_intent, record_execution, priced, build_intent, judge, settle,
  place_order, keep_order, after_order, pass_orders, after_pass, build_rounds, after_rounds,
  build_chunks, execute_build, max_chunk_retries,
}

-- The broker refused the order or filled it. After an error the order may be live.
abbrev pub is_settled : {F : Type 0} → Call F → Bool
is_settled call = elim call.reply [
  | none ↦ false
  | some res ↦ is_fill res.status || is_refusal res.status
]

abbrev pub Settled : {F : Type 0} → List (Call F) → Type 0
Settled calls = All (λ c. is_settled c ≡ true) calls

-- `e` reports the latest call, whose order is neither filled nor refused; all before are settled.
abbrev pub Reports : {F : Type 0} → BuildPendingFillError → List (Call F) → Type 0
Reports e [] = ⊥
Reports {F} e (call ∷ calls) =
    (is_settled call ≡ false)
    × ((res : ExecutionResult F) × (call.reply ≡ some res)
        × (e
            ≡ new_build_pending_fill_error call.intent.intent_id res.broker_order_id res.status
                res.filled_qty res.pending_qty))
    × Settled calls

abbrev pub ErrorEnds : {F : Type 0} → BuildError → List (Call F) → Type 0
ErrorEnds (pending_fill e) calls = Reports e calls
ErrorEnds (invalid_build_quantity token quantity) calls = Settled calls
ErrorEnds (chunk_failed n) calls = Settled calls

abbrev pub BuildEnds : {F : Type 0} → Result BuildError (Unit {0}) × Gateway F → Type 0
BuildEnds (ok u, gw) = Settled gw.calls
BuildEnds (err e, gw) = ErrorEnds e gw.calls

-- The executor returns no error.
abbrev pub Answers : {F : Type 0} → World F → Type 0
Answers {F} world =
    (calls : List (Call F)) (intent : OrderIntent F) → world.broker calls intent ≢ none

module _ (fl : Float64) (world : World fl.F) (trade : StoredTrade fl.F)
    (answers : Answers world) where
  abbrev PlacedEnds : Placed fl.F × Gateway fl.F → Type 0
  PlacedEnds (filled, gw) = Settled gw.calls
  PlacedEnds (again o, gw) = Settled gw.calls
  PlacedEnds (stop e, gw) = ErrorEnds e gw.calls

  judged_ends :
      (fills refuses : Bool) (order : ExecOrder fl.F) (intent : OrderIntent fl.F)
      (res : ExecutionResult fl.F) (calls : List (Call fl.F)) (gw : Gateway fl.F)
      → is_fill res.status ≡ fills
      → is_refusal res.status ≡ refuses
      → gw.calls ≡ record { intent = intent; reply = some res } ∷ calls
      → Settled calls
      → PlacedEnds (
        if fills
            then filled
            else if refuses
            then again order
            else stop (
                pending_fill (
                  new_build_pending_fill_error intent.intent_id res.broker_order_id res.status
                    res.filled_qty res.pending_qty)),
        gw,
      )
  judged_ends true refuses order intent res calls gw f r e h = rw e (rw f refl, h)
  judged_ends false true order intent res calls gw f r e h = rw e (rw (f, r) refl, h)
  judged_ends false false order intent res calls gw f r e h =
      rw e (rw (f, r) refl, (res, refl, refl), h)

  settle-PlacedEnds :
      (order : ExecOrder fl.F) (intent : OrderIntent fl.F) (gw : Gateway fl.F)
      (reply : Option (ExecutionResult fl.F))
      → reply ≢ none
      → Settled gw.calls
      → PlacedEnds (
          settle fl world order intent
            (record gw { calls = record { intent = intent; reply = reply } ∷ gw.calls })
            reply)
  unfolding settle judge record_execution
  settle-PlacedEnds order intent gw none k h = absurd (k refl)
  settle-PlacedEnds order intent gw (some res) k h =
      judged_ends _ _ order intent res gw.calls _ refl refl refl h

  sent-PlacedEnds :
      (order : ExecOrder fl.F) (intent : OrderIntent fl.F) (gw : Gateway fl.F)
      → Settled gw.calls
      → PlacedEnds
          (settle fl world order intent (after_send fl world gw intent) (send fl world gw intent))
  unfolding after_send send
  sent-PlacedEnds order intent gw h =
      settle-PlacedEnds order intent gw (send fl world gw intent) (answers gw.calls intent) h

  place_order-PlacedEnds :
      (retry : ℕ) (order : ExecOrder fl.F) (gw : Gateway fl.F)
      → Settled gw.calls
      → PlacedEnds (place_order fl world trade retry order gw)
  unfolding place_order record_intent
  place_order-PlacedEnds retry order gw h = elim (Bool-cases (not_pos order.quantity)) [
    | inl n ↦ rw n h
    | inr n ↦
        (let tried = priced fl world trade retry order in
          let intent = build_intent fl world trade tried in
          rw n (sent-PlacedEnds tried intent (record_intent fl world gw trade.trade_uid intent) h))
  ]

  abbrev PassEnds : Pass fl.F × Gateway fl.F → Type 0
  PassEnds (stopped e, gw) = ErrorEnds e gw.calls
  PassEnds (left_over next, gw) = Settled gw.calls

  keep_order-PassEnds :
      (o : ExecOrder fl.F) (p : Pass fl.F) (gw : Gateway fl.F)
      → PassEnds (p, gw)
      → PassEnds (keep_order fl world o p, gw)
  keep_order-PassEnds o (stopped e) gw h = h
  keep_order-PassEnds o (left_over next) gw h = h

  after_order-PassEnds :
      (rest : Gateway fl.F → Pass fl.F × Gateway fl.F) (p : Placed fl.F × Gateway fl.F)
      → PlacedEnds p
      → ((gw : Gateway fl.F) → Settled gw.calls → PassEnds (rest gw))
      → PassEnds (after_order fl world rest p)
  after_order-PassEnds rest (filled, gw) h k = k gw h
  after_order-PassEnds rest (again o, gw) h k =
      keep_order-PassEnds o (rest gw).0 (rest gw).1 (k gw h)
  after_order-PassEnds rest (stop e, gw) h k = h

  pass_orders-PassEnds :
      (retry : ℕ) (orders : List (ExecOrder fl.F)) (gw : Gateway fl.F)
      → Settled gw.calls
      → PassEnds (pass_orders fl world trade retry orders gw)
  unfolding pass_orders
  pass_orders-PassEnds retry [] gw h = h
  pass_orders-PassEnds retry (order ∷ orders) gw h =
      after_order-PassEnds (pass_orders fl world trade retry orders)
        (place_order fl world trade retry order gw) (place_order-PlacedEnds retry order gw h)
        (pass_orders-PassEnds retry orders)

  after_pass-PassEnds :
      (rest : List (ExecOrder fl.F) → Gateway fl.F → Pass fl.F × Gateway fl.F)
      (p : Pass fl.F × Gateway fl.F)
      → PassEnds p
      → ((next : List (ExecOrder fl.F)) (gw : Gateway fl.F)
          → Settled gw.calls
          → PassEnds (rest next gw))
      → PassEnds (after_pass fl world rest p)
  after_pass-PassEnds rest (stopped e, gw) h k = h
  after_pass-PassEnds rest (left_over next, gw) h k = k next gw h

  build_rounds-PassEnds :
      (retry rounds : ℕ) (orders : List (ExecOrder fl.F)) (gw : Gateway fl.F)
      → Settled gw.calls
      → PassEnds (build_rounds fl world trade retry rounds orders gw)
  unfolding build_rounds
  build_rounds-PassEnds retry zero orders gw h = h
  build_rounds-PassEnds retry (suc rounds) [] gw h = h
  build_rounds-PassEnds retry (suc rounds) (order ∷ orders) gw h =
      after_pass-PassEnds (build_rounds fl world trade (suc retry) rounds)
        (pass_orders fl world trade retry (order ∷ orders) gw)
        (pass_orders-PassEnds retry (order ∷ orders) gw h)
        (build_rounds-PassEnds (suc retry) rounds)

  after_rounds-BuildEnds :
      (index : ℕ) (rest : Gateway fl.F → Result BuildError (Unit {0}) × Gateway fl.F)
      (p : Pass fl.F × Gateway fl.F)
      → PassEnds p
      → ((gw : Gateway fl.F) → Settled gw.calls → BuildEnds (rest gw))
      → BuildEnds (after_rounds fl world index rest p)
  after_rounds-BuildEnds index rest (stopped e, gw) h k = h
  after_rounds-BuildEnds index rest (left_over (o ∷ os), gw) h k = h
  after_rounds-BuildEnds index rest (left_over [], gw) h k = k gw h

  build_chunks-BuildEnds :
      (index : ℕ) (chunks : List (List (ExecOrder fl.F))) (gw : Gateway fl.F)
      → Settled gw.calls
      → BuildEnds (build_chunks fl world trade index chunks gw)
  unfolding build_chunks
  build_chunks-BuildEnds index [] gw h = h
  build_chunks-BuildEnds index (chunk ∷ chunks) gw h =
      after_rounds-BuildEnds index (build_chunks fl world trade (suc index) chunks)
        (build_rounds fl world trade 0 max_chunk_retries chunk gw)
        (build_rounds-PassEnds 0 max_chunk_retries chunk gw h)
        (build_chunks-BuildEnds (suc index) chunks)

  -- Where the executor returns no error, and from a gateway whose every call the broker has filled
  -- or refused: a build that returns a pending fill reports its latest call, the only one that the
  -- broker neither filled nor refused, and in every other outcome every call is filled or refused.
  -- So no order is sent while an earlier one is open.
  pub execute_build-BuildEnds :
      (chunks : List (List (ExecOrder fl.F))) (gw : Gateway fl.F)
      → Settled gw.calls
      → BuildEnds (execute_build fl world trade chunks gw)
  unfolding execute_build
  execute_build-BuildEnds chunks gw h = build_chunks-BuildEnds 0 chunks gw h
