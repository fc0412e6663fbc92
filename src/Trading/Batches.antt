-- ===== src/Trading/Batches.antt =====
-- services/execution-gateway/internal/trading/builder.go: `BuildStraddle`, which sends the chunks of
-- a trade in batches and verifies them. The waits are left out; an executor's answer depends on the
-- calls so far, the latest first, and a verification's error comes with what it answers.
pub mod Bounds
use complete_dashboard.Prelude.{
  ℕ, zero, suc, ◌+◌, ◌%◌, String, Bool, true, false, ◌||◌, ◌&&◌, Option, none, some, List, [], ◌∷◌,
  ◌++◌, str_eq, ◌+s◌, format_nat, len, prefix_of, min, ltb, if◌then◌else◌, GoMap, find, put,
}
use complete_dashboard.Prelude.Int.{ℤ, pos}
use complete_dashboard.Prelude.Float.{Float64}

pub record Order (F : Type 0) : Type 0 where
  pub uid : String
  pub token : ℤ
  pub option_type : String
  pub action : String
  pub quantity : ℤ
  pub expected_price : F
  pub limit_price : F
  pub limit_order_buffer : F
  pub exchange_segment : ℤ

pub record PlacedOrder : Type 0 where
  pub app_order_id : String
  pub uid : String
  pub token : ℤ
  pub action : String
  pub quantity : ℤ

pub record VerifiedOrder (F : Type 0) : Type 0 where
  pub app_order_id : String
  pub uid : String
  pub status : String
  pub filled_qty : ℤ
  pub avg_price : F

pub record FailedOrder : Type 0 where
  pub app_order_id : String
  pub uid : String
  pub status : String
  pub reason : String

pub record ExecuteResult : Type 0 where
  pub successful_orders : List PlacedOrder
  pub failed_orders : List FailedOrder

pub record VerifyResult (F : Type 0) : Type 0 where
  pub verified_success : List (VerifiedOrder F)
  pub verified_failed : List FailedOrder

pub data BatchCall (F : Type 0) : Type 0 where
  executed : List (Order F) → String → BatchCall F
  verified : List String → String → BatchCall F

pub record OrderExecutor (F : Type 0) : Type 0 where
  pub execute_batch : List (BatchCall F) → List (Order F) → String → Option ExecuteResult
  pub verify_orders_bulk : List (BatchCall F) → List String → String → VerifyResult F
  -- time.Now().UnixMilli(), at the reading of a number since the last call
  pub unix_milli : List (BatchCall F) → ℕ → ℕ

-- The calls of the executor, and the orders inserted into the database.
pub record BatchState (F : Type 0) : Type 0 where
  pub calls : List (BatchCall F)
  pub inserted : List PlacedOrder

abbrev pub max_chunk_tries : ℕ
max_chunk_tries = 3

abbrev pub max_verification_attempts : ℕ
max_verification_attempts = 3

-- The statuses of a failure that settle an order.
unfoldable pub is_resolved : String → Bool
is_resolved s =
    str_eq s "REJECTED"
    || str_eq s "CANCELLED"
    || str_eq s "CANCELED"
    || str_eq s "REEXECUTE_NEEDED"
    || str_eq s "NOT_FOUND_ON_RETRY"

unfoldable pub resolves : {F : Type 0} → VerifyResult F → String → Bool
unfolding is_resolved
resolves {F = F} v id = any_success v.verified_success || any_failed v.verified_failed
  where
    any_success : List (VerifiedOrder F) → Bool
    any_success [] = false
    any_success (o ∷ os) = str_eq o.app_order_id id || any_success os

    any_failed : List FailedOrder → Bool
    any_failed [] = false
    any_failed (f ∷ fs) = (is_resolved f.status && str_eq f.app_order_id id) || any_failed fs

unfoldable pub still_pending : {F : Type 0} → VerifyResult F → List String → List String
unfolding resolves
still_pending v [] = []
still_pending v (id ∷ ids) =
    let rest = still_pending v ids in if resolves v id then rest else id ∷ rest

module _ (fl : Float64) (executor : OrderExecutor fl.F) where
  -- A retried order: a wider buffer, no limit price and a new UID.
  unfoldable pub escalate : ℕ → ℕ → Order fl.F → Order fl.F
  escalate retry now o = record o {
    limit_order_buffer = fl.mul o.limit_order_buffer (fl.of_int (pos (retry + 1)));
    limit_price = fl.lit 0 0;
    uid =
        prefix_of (min (len o.uid) 14) o.uid
        +s "_TRY"
        +s format_nat retry
        +s "_"
        +s format_nat (now % 10000);
  }

  -- The clock is read for each order.
  unfoldable pub escalate_all : ℕ → (ℕ → ℕ) → List (Order fl.F) → List (Order fl.F)
  unfolding escalate
  escalate_all retry now [] = []
  escalate_all retry now (o ∷ os) =
      escalate retry (now 0) o ∷ escalate_all retry (λ i. now (suc i)) os

  abbrev pub prepared : ℕ → (ℕ → ℕ) → List (Order fl.F) → List (Order fl.F)
  prepared zero now os = os
  prepared (suc retry) now os = escalate_all (suc retry) now os

  -- The loop over the attempts with `left` of them to go. With the failures of the last one made.
  unfoldable pub verify_loop :
      (ℕ → String)
      → ℕ
      → ℕ
      → List String
      → List FailedOrder
      → BatchState fl.F
      → List FailedOrder × BatchState fl.F
  unfolding still_pending
  verify_loop name attempt zero ids failed st = (failed, st)
  verify_loop name attempt (suc left) [] failed st = (failed, st)
  verify_loop name attempt (suc left) (id ∷ ids) failed st =
      let v = executor.verify_orders_bulk st.calls (id ∷ ids) (name (attempt + 1)) in
      verify_loop name (suc attempt) left (still_pending v (id ∷ ids)) v.verified_failed
        (record st { calls = verified (id ∷ ids) (name (attempt + 1)) ∷ st.calls })

  -- appOrderIDToUIDMap
  unfoldable pub uid_map : List PlacedOrder → GoMap String → GoMap String
  uid_map [] m = m
  uid_map (p ∷ ps) m = uid_map ps (put m p.app_order_id p.uid)

  unfoldable pub order_ids : List PlacedOrder → List String
  order_ids [] = []
  order_ids (p ∷ ps) = p.app_order_id ∷ order_ids ps

  unfoldable pub find_order_uid : List (Order fl.F) → String → Option (Order fl.F)
  find_order_uid [] uid = none
  find_order_uid (o ∷ os) uid = if str_eq o.uid uid then some o else find_order_uid os uid

  abbrev pub uid_or_empty : Option String → String
  uid_or_empty none = ""
  uid_or_empty (some uid) = uid

  abbrev pub with_found : Option (Order fl.F) → List (Order fl.F) → List (Order fl.F)
  with_found none rest = rest
  with_found (some o) rest = o ∷ rest

  -- The orders that a failure asks to execute again.
  unfoldable pub orders_to_retry :
      GoMap String → List (Order fl.F) → List FailedOrder → List (Order fl.F)
  unfolding find_order_uid
  orders_to_retry uids orders [] = []
  orders_to_retry uids orders (f ∷ failed) =
      let rest = orders_to_retry uids orders failed in
      if str_eq f.status "REEXECUTE_NEEDED"
      then with_found (find_order_uid orders (uid_or_empty (find uids f.app_order_id))) rest
      else rest

  -- One try of a chunk: the orders to try again, none where the batch failed.
  abbrev pub after_batch :
      (ℕ → String)
      → List (Order fl.F)
      → Option ExecuteResult
      → BatchState fl.F
      → List (Order fl.F) × BatchState fl.F
  after_batch name orders none st = ([], st)
  after_batch name orders (some res) st =
      let placed = res.successful_orders in
      let st' = record st { inserted = st.inserted ++ placed } in
      let (failed, st'') = verify_loop name 0 max_verification_attempts (order_ids placed) [] st' in
      (orders_to_retry (uid_map placed []) orders failed, st'')

  abbrev pub batch_name : String → ℕ → ℕ → String
  batch_name trade_uid chunk retry =
      "BUI_" +s trade_uid +s "_CHUNK" +s format_nat (chunk + 1) +s "_TRY" +s format_nat (retry + 1)

  abbrev pub verify_name : String → ℕ → ℕ → ℕ → String
  verify_name trade_uid chunk retry attempt =
      "BUI_"
      +s trade_uid
      +s "_CHUNK"
      +s format_nat (chunk + 1)
      +s "_ITER"
      +s format_nat (retry + 1)
      +s "_VER"
      +s format_nat attempt

  unfoldable pub try_chunk :
      String → ℕ → ℕ → List (Order fl.F) → BatchState fl.F → List (Order fl.F) × BatchState fl.F
  unfolding escalate_all verify_loop uid_map order_ids orders_to_retry
  try_chunk trade_uid chunk retry orders st =
      let tried = prepared retry (executor.unix_milli st.calls) orders in
      let name = batch_name trade_uid chunk retry in
      after_batch (verify_name trade_uid chunk retry) tried
        (executor.execute_batch st.calls tried name)
        (record st { calls = executed tried name ∷ st.calls })

  -- for len(ordersToProcess) > 0 && retryIter < maxChunkRetries, with `left` tries to go
  unfoldable pub run_tries :
      String → ℕ → ℕ → ℕ → List (Order fl.F) → BatchState fl.F → BatchState fl.F
  unfolding try_chunk
  run_tries trade_uid chunk retry zero orders st = st
  run_tries trade_uid chunk retry (suc left) [] st = st
  run_tries trade_uid chunk retry (suc left) (o ∷ orders) st =
      let (next, st') = try_chunk trade_uid chunk retry (o ∷ orders) st in
      run_tries trade_uid chunk (suc retry) left next st'

  unfoldable pub run_batches :
      String → ℕ → List (List (Order fl.F)) → BatchState fl.F → BatchState fl.F
  unfolding run_tries
  run_batches trade_uid chunk [] st = st
  run_batches trade_uid chunk (orders ∷ chunks) st =
      run_batches trade_uid (suc chunk) chunks
        (run_tries trade_uid chunk 0 max_chunk_tries orders st)

  -- It always returns nil.
  unfoldable pub build_straddle :
      String → List (List (Order fl.F)) → BatchState fl.F → BatchState fl.F
  unfolding run_batches
  build_straddle trade_uid chunks st = run_batches trade_uid 0 chunks st
