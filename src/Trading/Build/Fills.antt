-- ===== src/Trading/Build/Fills.antt =====
-- What `executeBuild` has bought or sold when it returns.
use complete_dashboard.Prelude.{
  Bool-cases, inl, inr, ℕ, zero, suc, ◌+◌, ◌*◌, ◌≤◌, ◌≡◌, refl, ap, Bool, true, false, Option, none,
  some, List, [], ◌∷◌, Result, ok, err, arith, sum_by, if◌then◌else◌,
}
use complete_dashboard.Prelude.Int.{ℤ, pos, pos_part, not_pos}
use complete_dashboard.Prelude.Float.{Float64}
use complete_dashboard.Chunker.{ExecOrder}
use complete_dashboard.Chunker.Totals.{quantity_of}
use complete_dashboard.Trading.Models.{StoredTrade, OrderIntent, ExecutionResult}
use complete_dashboard.Trading.Lifecycle.{BuildError}
use complete_dashboard.Trading.Build.{
  Call, World, Gateway, Placed, filled, again, stop, Pass, stopped, left_over, is_fill, is_refusal,
  send, after_send, record_intent, record_execution, priced, build_intent, judge, settle,
  place_order, keep_order, after_order, pass_orders, after_pass, build_rounds, after_rounds,
  build_chunks, execute_build,
}

-- The quantity that the broker reported as filled, whatever the status, each token with a weight.
abbrev pub filled_by : {F : Type 0} → (ℤ → ℕ) → Call F → ℕ
filled_by keep call = elim call.reply [
  | none ↦ 0
  | some res ↦ keep call.intent.token * pos_part res.filled_qty
]

-- A broker that fills an order whole where it answers a fill, and otherwise not at all.
abbrev pub IsWholeFill : {F : Type 0} → OrderIntent F → ExecutionResult F → Type 0
IsWholeFill intent res = res.filled_qty ≡ (if is_fill res.status then intent.quantity else pos 0)

abbrev pub FillsWhole : {F : Type 0} → World F → Type 0
FillsWhole {F} world =
    (calls : List (Call F)) (intent : OrderIntent F) (res : ExecutionResult F)
    → world.broker calls intent ≡ some res
    → IsWholeFill intent res

pub whole_fill-filled_by :
    {F : Type 0} (keep : ℤ → ℕ) (intent : OrderIntent F) (res : ExecutionResult F)
    → IsWholeFill intent res
    → filled_by keep (record { intent = intent; reply = some res })
      ≡ (if is_fill res.status then keep intent.token * pos_part intent.quantity else 0)
whole_fill-filled_by keep intent res h = elim (Bool-cases (is_fill res.status)) [
  | inl e ↦ rw (h, e) refl
  | inr e ↦ rw (h, e) (omega arith)
]

abbrev pub filled_in : {F : Type 0} → (ℤ → ℕ) → Gateway F → ℕ
filled_in keep gw = sum_by (filled_by keep) gw.calls

module _ (fl : Float64) (world : World fl.F) (keep : ℤ → ℕ) (trade : StoredTrade fl.F)
    (whole : FillsWhole world) where
  abbrev PlacedFills : ExecOrder fl.F → ℕ → Placed fl.F × Gateway fl.F → Type 0
  PlacedFills order before (filled, gw) = filled_in keep gw ≡ before + quantity_of keep order
  PlacedFills order before (again o, gw) =
      (filled_in keep gw ≡ before) × (quantity_of keep o ≡ quantity_of keep order)
  PlacedFills order before (stop e, gw) = filled_in keep gw ≡ before

  judged_fills :
      (fills refuses : Bool) (order : ExecOrder fl.F) (e : BuildError) (gw : Gateway fl.F)
      (before n : ℕ)
      → filled_in keep gw ≡ (if fills then n else 0) + before
      → n ≡ quantity_of keep order
      → PlacedFills order before
          (if fills then filled else if refuses then again order else stop e, gw)
  judged_fills true refuses order e gw before n h k = omega (arith, h, k)
  judged_fills false true order e gw before n h k = (omega (arith, h), refl)
  judged_fills false false order e gw before n h k = omega (arith, h)

  settle-PlacedFills :
      (order : ExecOrder fl.F) (intent : OrderIntent fl.F) (gw : Gateway fl.F)
      (reply : Option (ExecutionResult fl.F))
      → keep intent.token * pos_part intent.quantity ≡ quantity_of keep order
      → ((res : ExecutionResult fl.F) → reply ≡ some res → IsWholeFill intent res)
      → PlacedFills order (filled_in keep gw) (
          settle fl world order intent
            (record gw { calls = record { intent = intent; reply = reply } ∷ gw.calls })
            reply)
  unfolding settle judge record_execution
  settle-PlacedFills order intent gw none h k = (omega arith, refl)
  settle-PlacedFills order intent gw (some res) h k =
      judged_fills (is_fill res.status) (is_refusal res.status) order _ _ _ _
        (ap (λ n. n + filled_in keep gw) (whole_fill-filled_by keep intent res (k res refl))) h

  sent-PlacedFills :
      (order : ExecOrder fl.F) (intent : OrderIntent fl.F) (gw : Gateway fl.F)
      → keep intent.token * pos_part intent.quantity ≡ quantity_of keep order
      → PlacedFills order
          (filled_in keep gw)
          (settle fl world order intent (after_send fl world gw intent) (send fl world gw intent))
  unfolding after_send send
  sent-PlacedFills order intent gw h =
      settle-PlacedFills order intent gw (send fl world gw intent) h
        (λ res e. whole gw.calls intent res e)

  place_order-PlacedFills :
      (retry : ℕ) (order : ExecOrder fl.F) (gw : Gateway fl.F)
      → PlacedFills order (filled_in keep gw) (place_order fl world trade retry order gw)
  unfolding place_order priced build_intent record_intent
  place_order-PlacedFills retry order gw = elim (Bool-cases (not_pos order.quantity)) [
    | inl n ↦ rw n refl
    | inr n ↦
        (let tried = priced fl world trade retry order in
          let intent = build_intent fl world trade tried in
          rw n
            (sent-PlacedFills tried intent (record_intent fl world gw trade.trade_uid intent) refl))
  ]

  abbrev PassFills : List (ExecOrder fl.F) → ℕ → Pass fl.F × Gateway fl.F → Type 0
  PassFills orders before (stopped e, gw) =
      filled_in keep gw ≤ before + sum_by (quantity_of keep) orders
  PassFills orders before (left_over next, gw) =
      filled_in keep gw + sum_by (quantity_of keep) next ≡ before + sum_by (quantity_of keep) orders

  more-PassFills :
      (order : ExecOrder fl.F) (orders : List (ExecOrder fl.F)) (before now : ℕ)
      (p : Pass fl.F × Gateway fl.F)
      → now ≡ before + quantity_of keep order
      → PassFills orders now p
      → PassFills (order ∷ orders) before p
  more-PassFills order orders before now (stopped e, gw) h k = omega (arith, h, k)
  more-PassFills order orders before now (left_over next, gw) h k = omega (arith, h, k)

  keep_order-PassFills :
      (order o : ExecOrder fl.F) (orders : List (ExecOrder fl.F)) (before now : ℕ) (p : Pass fl.F)
      (gw : Gateway fl.F)
      → now ≡ before
      → quantity_of keep o ≡ quantity_of keep order
      → PassFills orders now (p, gw)
      → PassFills (order ∷ orders) before (keep_order fl world o p, gw)
  keep_order-PassFills order o orders before now (stopped e) gw h j k = omega (arith, h, j, k)
  keep_order-PassFills order o orders before now (left_over next) gw h j k = omega (arith, h, j, k)

  after_order-PassFills :
      (order : ExecOrder fl.F) (orders : List (ExecOrder fl.F)) (before : ℕ)
      (rest : Gateway fl.F → Pass fl.F × Gateway fl.F) (p : Placed fl.F × Gateway fl.F)
      → PlacedFills order before p
      → ((gw : Gateway fl.F) → PassFills orders (filled_in keep gw) (rest gw))
      → PassFills (order ∷ orders) before (after_order fl world rest p)
  after_order-PassFills order orders before rest (filled, gw) h k =
      more-PassFills order orders before (filled_in keep gw) (rest gw) h (k gw)
  after_order-PassFills order orders before rest (again o, gw) h k =
      keep_order-PassFills order o orders before (filled_in keep gw) (rest gw).0 (rest gw).1 h.0 h.1
        (k gw)
  after_order-PassFills order orders before rest (stop e, gw) h k = omega (arith, h)

  pass_orders-PassFills :
      (retry : ℕ) (orders : List (ExecOrder fl.F)) (gw : Gateway fl.F)
      → PassFills orders (filled_in keep gw) (pass_orders fl world trade retry orders gw)
  unfolding pass_orders
  pass_orders-PassFills retry [] gw = refl
  pass_orders-PassFills retry (order ∷ orders) gw =
      after_order-PassFills order orders _ _ _ (place_order-PlacedFills retry order gw)
        (pass_orders-PassFills retry orders)

  after_pass-PassFills :
      (orders : List (ExecOrder fl.F)) (before : ℕ)
      (rest : List (ExecOrder fl.F) → Gateway fl.F → Pass fl.F × Gateway fl.F)
      (p : Pass fl.F × Gateway fl.F)
      → PassFills orders before p
      → ((next : List (ExecOrder fl.F)) (gw : Gateway fl.F)
          → PassFills next (filled_in keep gw) (rest next gw))
      → PassFills orders before (after_pass fl world rest p)
  after_pass-PassFills orders before rest (stopped e, gw) h k = h
  after_pass-PassFills orders before rest (left_over next, gw) h k =
      carry-PassFills orders next before (filled_in keep gw) (rest next gw) h (k next gw)
    where
      carry-PassFills :
          (orders next : List (ExecOrder fl.F)) (before now : ℕ) (p : Pass fl.F × Gateway fl.F)
          → now + sum_by (quantity_of keep) next ≡ before + sum_by (quantity_of keep) orders
          → PassFills next now p
          → PassFills orders before p
      carry-PassFills orders next before now (stopped e, gw) h k = omega (arith, h, k)
      carry-PassFills orders next before now (left_over more, gw) h k = omega (arith, h, k)

  build_rounds-PassFills :
      (retry rounds : ℕ) (orders : List (ExecOrder fl.F)) (gw : Gateway fl.F)
      → PassFills orders (filled_in keep gw) (build_rounds fl world trade retry rounds orders gw)
  unfolding build_rounds
  build_rounds-PassFills retry zero orders gw = refl
  build_rounds-PassFills retry (suc rounds) [] gw = refl
  build_rounds-PassFills retry (suc rounds) (order ∷ orders) gw =
      after_pass-PassFills (order ∷ orders) _ _ _ (pass_orders-PassFills retry (order ∷ orders) gw)
        (build_rounds-PassFills (suc retry) rounds)

  -- All ordered quantity is filled on success, and never more than that.
  abbrev pub BuildFills : ℕ → ℕ → Result BuildError (Unit {0}) × Gateway fl.F → Type 0
  BuildFills ordered before (ok u, gw) = filled_in keep gw ≡ before + ordered
  BuildFills ordered before (err e, gw) = filled_in keep gw ≤ before + ordered

  after_rounds-BuildFills :
      (index : ℕ) (chunk : List (ExecOrder fl.F)) (ordered before : ℕ)
      (rest : Gateway fl.F → Result BuildError (Unit {0}) × Gateway fl.F)
      (p : Pass fl.F × Gateway fl.F)
      → PassFills chunk before p
      → ((gw : Gateway fl.F) → BuildFills ordered (filled_in keep gw) (rest gw))
      → BuildFills
          (sum_by (quantity_of keep) chunk + ordered)
          before
          (after_rounds fl world index rest p)
  after_rounds-BuildFills index chunk ordered before rest (stopped e, gw) h k = omega (arith, h)
  after_rounds-BuildFills index chunk ordered before rest (left_over (o ∷ os), gw) h k =
      omega (arith, h)
  after_rounds-BuildFills index chunk ordered before rest (left_over [], gw) h k =
      carry-BuildFills (filled_in keep gw) (rest gw) h (k gw)
    where
      carry-BuildFills :
          (now : ℕ) (r : Result BuildError (Unit {0}) × Gateway fl.F)
          → now + 0 ≡ before + sum_by (quantity_of keep) chunk
          → BuildFills ordered now r
          → BuildFills (sum_by (quantity_of keep) chunk + ordered) before r
      carry-BuildFills now (ok u, gw) h k = omega (arith, h, k)
      carry-BuildFills now (err e, gw) h k = omega (arith, h, k)

  build_chunks-BuildFills :
      (index : ℕ) (chunks : List (List (ExecOrder fl.F))) (gw : Gateway fl.F)
      → BuildFills
          (sum_by (sum_by (quantity_of keep)) chunks)
          (filled_in keep gw)
          (build_chunks fl world trade index chunks gw)
  unfolding build_chunks
  build_chunks-BuildFills index [] gw = omega arith
  build_chunks-BuildFills index (chunk ∷ chunks) gw =
      after_rounds-BuildFills index chunk _ _ _ _ (build_rounds-PassFills 0 _ chunk gw)
        (build_chunks-BuildFills (suc index) chunks)

  -- Against any broker that fills an order whole where it answers a fill, and otherwise not at all:
  -- when a build succeeds, the quantity that the broker reported as filled has grown by exactly the
  -- quantity of the orders, token by token, and when it fails, by no more than that.
  pub execute_build-BuildFills :
      (chunks : List (List (ExecOrder fl.F))) (gw : Gateway fl.F)
      → BuildFills
          (sum_by (sum_by (quantity_of keep)) chunks)
          (filled_in keep gw)
          (execute_build fl world trade chunks gw)
  unfolding execute_build
  execute_build-BuildFills chunks gw = build_chunks-BuildFills 0 chunks gw
