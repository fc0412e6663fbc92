-- ===== src/Trading/Batches/Bounds.antt =====
-- What `BuildStraddle` asks of its executor.
use complete_dashboard.Prelude.{
  ℕ, zero, suc, ◌+◌, ◌*◌, ◌≤◌, String, Bool-cases, inl, inr, Option, none, some, List, [], ◌∷◌,
  ◌++◌, All, arith, length, str_eq, GoMap, find,
}
use complete_dashboard.Prelude.Int.{ℤ}
use complete_dashboard.Prelude.Float.{Float64}
use complete_dashboard.Trading.Batches.{
  Order, PlacedOrder, FailedOrder, ExecuteResult, BatchCall, executed, verified, OrderExecutor,
  BatchState, max_chunk_tries, max_verification_attempts, still_pending, escalate, escalate_all,
  prepared, verify_loop, uid_map, order_ids, find_order_uid, uid_or_empty, with_found,
  orders_to_retry, after_batch, batch_name, verify_name, try_chunk, run_tries, run_batches,
  build_straddle,
}

-- What an order is for: what stays of it when it is tried again.
pub record Terms : Type 0 where
  pub token : ℤ
  pub option_type : String
  pub action : String
  pub quantity : ℤ

abbrev pub terms_of : {F : Type 0} → Order F → Terms
terms_of o = record {
  token = o.token;
  option_type = o.option_type;
  action = o.action;
  quantity = o.quantity;
}

module _ (fl : Float64) (executor : OrderExecutor fl.F) (Q : Terms → Type 0) where
  abbrev pub IsMeant : Order fl.F → Type 0
  IsMeant o = Q (terms_of o)

  -- All orders of an executed batch are meant.
  abbrev pub CallIsMeant : BatchCall fl.F → Type 0
  CallIsMeant (executed orders name) = All IsMeant orders
  CallIsMeant (verified ids name) = Unit

  -- At most `n` calls, none of them for an order that is not meant.
  pub record IsWithin (n : ℕ) (st : BatchState fl.F) : Type 0 where
    pub few : length st.calls ≤ n
    pub meant : All CallIsMeant st.calls

  escalate_all-All :
      (retry : ℕ) (now : ℕ → ℕ) (os : List (Order fl.F))
      → All IsMeant os
      → All IsMeant (escalate_all fl executor retry now os)
  unfolding escalate_all escalate
  escalate_all-All retry now [] h = tt
  escalate_all-All retry now (o ∷ os) h = (h.0, escalate_all-All retry (λ i. now (suc i)) os h.1)

  prepared-All :
      (retry : ℕ) (now : ℕ → ℕ) (os : List (Order fl.F))
      → All IsMeant os
      → All IsMeant (prepared fl executor retry now os)
  prepared-All zero now os h = h
  prepared-All (suc retry) now os h = escalate_all-All (suc retry) now os h

  with_found-All :
      (os rest : List (Order fl.F)) (uid : String)
      → All IsMeant os
      → All IsMeant rest
      → All IsMeant (with_found fl executor (find_order_uid fl executor os uid) rest)
  unfolding find_order_uid
  with_found-All [] rest uid h k = k
  with_found-All (o ∷ os) rest uid h k = elim (Bool-cases (str_eq o.uid uid)) [
    | inl b ↦ rw b (h.0, k)
    | inr b ↦ rw b (with_found-All os rest uid h.1 k)
  ]

  orders_to_retry-All :
      (uids : GoMap String) (os : List (Order fl.F)) (failed : List FailedOrder)
      → All IsMeant os
      → All IsMeant (orders_to_retry fl executor uids os failed)
  unfolding orders_to_retry
  orders_to_retry-All uids os [] h = tt
  orders_to_retry-All uids os (f ∷ failed) h =
      elim (Bool-cases (str_eq f.status "REEXECUTE_NEEDED")) [
        | inl b ↦ rw b (
            with_found-All os (orders_to_retry fl executor uids os failed)
              (uid_or_empty fl executor (find uids f.app_order_id)) h
              (orders_to_retry-All uids os failed h))
        | inr b ↦ rw b (orders_to_retry-All uids os failed h)
      ]

  verify_loop-IsWithin :
      (name : ℕ → String) (attempt left : ℕ) (ids : List String) (failed : List FailedOrder)
      (st : BatchState fl.F) (n : ℕ)
      → IsWithin n st
      → IsWithin (n + left) (verify_loop fl executor name attempt left ids failed st).1
  unfolding verify_loop
  verify_loop-IsWithin name attempt zero ids failed st n h = record {
    few = omega (arith, h.few);
    meant = h.meant;
  }
  verify_loop-IsWithin name attempt (suc left) [] failed st n h = record {
    few = omega (arith, h.few);
    meant = h.meant;
  }
  verify_loop-IsWithin name attempt (suc left) (id ∷ ids) failed st n h =
      let v = executor.verify_orders_bulk st.calls (id ∷ ids) (name (attempt + 1)) in
      let called = record st { calls = verified (id ∷ ids) (name (attempt + 1)) ∷ st.calls } in
      let rest =
        verify_loop-IsWithin name (suc attempt) left (still_pending v (id ∷ ids)) v.verified_failed
          called (n + 1) (record { few = omega (arith, h.few); meant = (tt, h.meant) }) in
      record { few = omega (arith, rest.few); meant = rest.meant }

  after_batch-IsWithin :
      (name : ℕ → String) (os : List (Order fl.F)) (res : Option ExecuteResult)
      (st : BatchState fl.F) (n : ℕ)
      → All IsMeant os
      → IsWithin n st
      → All IsMeant (after_batch fl executor name os res st).0
        × IsWithin (n + 3) (after_batch fl executor name os res st).1
  after_batch-IsWithin name os none st n k h =
      (tt, record { few = omega (arith, h.few); meant = h.meant })
  after_batch-IsWithin name os (some res) st n k h =
      let placed = res.successful_orders in
      let inserted = record st { inserted = st.inserted ++ placed } in
      let ids = order_ids fl executor placed in
      (
        orders_to_retry-All (uid_map fl executor placed []) os
            (verify_loop fl executor name 0 max_verification_attempts ids [] inserted).0 k,
        verify_loop-IsWithin name 0 max_verification_attempts ids [] inserted n
            (record { few = h.few; meant = h.meant }),
      )

  try_chunk-IsWithin :
      (trade_uid : String) (chunk retry : ℕ) (os : List (Order fl.F)) (st : BatchState fl.F) (n : ℕ)
      → All IsMeant os
      → IsWithin n st
      → All IsMeant (try_chunk fl executor trade_uid chunk retry os st).0
        × IsWithin (n + 4) (try_chunk fl executor trade_uid chunk retry os st).1
  unfolding try_chunk
  try_chunk-IsWithin trade_uid chunk retry os st n k h =
      let tried = prepared fl executor retry (executor.unix_milli st.calls) os in
      let meant = prepared-All retry (executor.unix_milli st.calls) os k in
      let name = batch_name fl executor trade_uid chunk retry in
      let called = record st { calls = executed tried name ∷ st.calls } in
      let (next, within) =
        after_batch-IsWithin (verify_name fl executor trade_uid chunk retry) tried
          (executor.execute_batch st.calls tried name) called (n + 1) meant
          (record { few = omega (arith, h.few); meant = (meant, h.meant) }) in
      (next, record { few = omega (arith, within.few); meant = within.meant })

  run_tries-IsWithin :
      (trade_uid : String) (chunk retry left : ℕ) (os : List (Order fl.F)) (st : BatchState fl.F)
      (n : ℕ)
      → All IsMeant os
      → IsWithin n st
      → IsWithin (n + 4 * left) (run_tries fl executor trade_uid chunk retry left os st)
  unfolding run_tries
  run_tries-IsWithin trade_uid chunk retry zero os st n k h = record {
    few = omega (arith, h.few);
    meant = h.meant;
  }
  run_tries-IsWithin trade_uid chunk retry (suc left) [] st n k h = record {
    few = omega (arith, h.few);
    meant = h.meant;
  }
  run_tries-IsWithin trade_uid chunk retry (suc left) (o ∷ os) st n k h =
      let (next, within) = try_chunk-IsWithin trade_uid chunk retry (o ∷ os) st n k h in
      let rest =
        run_tries-IsWithin trade_uid chunk (suc retry) left
          (try_chunk fl executor trade_uid chunk retry (o ∷ os) st).0
          (try_chunk fl executor trade_uid chunk retry (o ∷ os) st).1 (n + 4) next within in
      record { few = omega (arith, rest.few); meant = rest.meant }

  run_batches-IsWithin :
      (trade_uid : String) (chunk : ℕ) (chunks : List (List (Order fl.F))) (st : BatchState fl.F)
      (n : ℕ)
      → All (All IsMeant) chunks
      → IsWithin n st
      → IsWithin (n + 12 * length chunks) (run_batches fl executor trade_uid chunk chunks st)
  unfolding run_batches
  run_batches-IsWithin trade_uid chunk [] st n k h = record {
    few = omega (arith, h.few);
    meant = h.meant;
  }
  run_batches-IsWithin trade_uid chunk (os ∷ chunks) st n k h =
      let tried = run_tries-IsWithin trade_uid chunk 0 max_chunk_tries os st n k.0 h in
      let rest =
        run_batches-IsWithin trade_uid (suc chunk) chunks
          (run_tries fl executor trade_uid chunk 0 max_chunk_tries os st) (n + 12) k.1
          (record { few = omega (arith, tried.few); meant = tried.meant }) in
      record { few = omega (arith, rest.few); meant = rest.meant }

  -- Whatever the executor answers, a build in batches calls it at most twelve times per chunk, and
  -- every order that it executes has the token, the option type, the action and the quantity of some
  -- order of the chunks: what holds of these for all orders of the chunks holds for it.
  pub build_straddle-IsWithin :
      (trade_uid : String) (chunks : List (List (Order fl.F))) (inserted : List PlacedOrder)
      → All (All IsMeant) chunks
      → IsWithin
          (12 * length chunks)
          (build_straddle fl executor trade_uid chunks (record { calls = []; inserted = inserted }))
  unfolding build_straddle
  build_straddle-IsWithin trade_uid chunks inserted k =
      let start : BatchState fl.F = record { calls = []; inserted = inserted } in
      let rest =
        run_batches-IsWithin trade_uid 0 chunks start 0 k
          (record { few = omega arith; meant = tt }) in
      record { few = omega (arith, rest.few); meant = rest.meant }
