-- ===== src/Brokers/Greeksoft/Executor/Waits.antt =====
-- The wait for an order to appear in the order book.
use complete_dashboard.Prelude.{
  str_eq, ℕ, zero, suc, ◌+◌, ◌≤◌, ◌<◌, ◌≡◌, refl, String, Bool, true, false, Bool-cases, inl, inr,
  Option, none, some, arith, ltb, ltb→lt, ◌==◌, trim_space, if◌then◌else◌,
}
use complete_dashboard.Prelude.Float.{Float64}
use complete_dashboard.Prelude.Json.{Json, JsonText}
use complete_dashboard.Brokers.Greeksoft.Book.{Matched, find_greeksoft_order_status}
use complete_dashboard.Brokers.Greeksoft.Executor.{
  Client, Waited, matched, wait_from, wait_order_status_from_order_book,
}

module _ (fl : Float64) (json : JsonText fl.F) (client : Client fl.F) where
  wait_from-calls :
      (target : String) (i left : ℕ) (failed : Bool)
      → (wait_from fl json client target i left failed).1 ≤ i + left
  unfolding wait_from
  wait_from-calls target i zero failed = omega arith
  wait_from-calls target i (suc left) failed =
      let broken = wait_from-calls target (suc i) left true in
      let missing = wait_from-calls target (suc i) left failed in ground (arith, broken, missing)

  -- What an attempt sees of an order.
  abbrev pub seen : String → Option (Json fl.F) → Option Matched
  seen target none = none
  seen target (some book) = find_greeksoft_order_status json book target

  -- An attempt that does not see the order leads to the next one.
  next_attempt :
      (target : String) (i left : ℕ) (failed : Bool) (w : Waited × ℕ) (o : Option (Json fl.F))
      → client.order_book i ≡ o
      → client.done i ≡ false
      → seen target o ≡ none
      → ((f : Bool) → wait_from fl json client target (suc i) left f ≡ w)
      → wait_from fl json client target i (suc left) failed ≡ w
  unfolding wait_from
  next_attempt target i left failed w none e d s next = rw (wait_from, d, e) (next true)
  next_attempt target i left failed w (some book) e d s next = rw (wait_from, d, e, s) (next failed)

  last_attempt :
      (target : String) (i left : ℕ) (failed : Bool) (r : Matched) (o : Option (Json fl.F))
      → client.order_book i ≡ o
      → client.done i ≡ false
      → seen target o ≡ some r
      → wait_from fl json client target i (suc left) failed ≡ (matched r, suc i)
  unfolding wait_from
  last_attempt target i left failed r none e d s = absurd (cc)
  last_attempt target i left failed r (some book) e d s = rw (wait_from, d, e, s) refl

  -- The order shows at attempt `k` and not before, and the context is not done until then.
  pub record ShowsAt (target : String) (k : ℕ) (r : Matched) : Type 0 where
    pub shows : seen target (client.order_book k) ≡ some r
    pub not_before : (j : ℕ) → j < k → seen target (client.order_book j) ≡ none
    pub not_done : (j : ℕ) → j ≤ k → client.done j ≡ false

  wait_from-matched :
      (target : String) (k : ℕ) (r : Matched)
      → ShowsAt target k r
      → (i left : ℕ) (failed : Bool) → i ≤ k
      → k < i + left
      → wait_from fl json client target i left failed ≡ (matched r, suc k)
  wait_from-matched target k r h i zero failed le lt = absurd (omega arith)
  wait_from-matched target k r h i (suc left) failed le lt = elim (Bool-cases (ltb i k)) [
    | inl b ↦
        (let more : i < k = ltb→lt i k b in
          next_attempt target i left failed (matched r, suc k) (client.order_book i) refl
            (h.not_done i le) (h.not_before i more)
            (λ f. wait_from-matched target k r h (suc i) left f (omega arith) (omega arith)))
    | inr b ↦
        (let here : i ≡ k = ground (arith, b, le) in
          rw here (
            last_attempt target k left failed r (client.order_book k) refl
              (h.not_done k (omega arith)) h.shows))
  ]

  -- The wait asks for at most as many order books as it has attempts, and at most one where that
  -- number is 0.
  pub wait_order_status_from_order_book-calls :
      (order_id : String) (attempts : ℕ)
      → (wait_order_status_from_order_book fl json client order_id attempts).1
        ≤ (if attempts == 0 then 1 else attempts)
  unfolding wait_order_status_from_order_book
  wait_order_status_from_order_book-calls order_id attempts =
      let n = if attempts == 0 then 1 else attempts in
      elim (Bool-cases (str_eq (trim_space order_id) "")) [
        | inl e ↦ rw e (omega arith)
        | inr e ↦ rw e (omega (arith, wait_from-calls (trim_space order_id) 0 n false))
      ]

  -- If the order has an id and shows in the book at some attempt within the limit and not before, and
  -- the context is not done until then, the wait ends at that attempt with what the book tells of the order.
  pub wait_order_status_from_order_book-matched :
      (order_id : String) (attempts k : ℕ) (r : Matched)
      → str_eq (trim_space order_id) "" ≡ false
      → ShowsAt (trim_space order_id) k r
      → k < attempts
      → wait_order_status_from_order_book fl json client order_id attempts ≡ (matched r, suc k)
  unfolding wait_order_status_from_order_book
  wait_order_status_from_order_book-matched order_id attempts k r named h lt =
      let n = if attempts == 0 then 1 else attempts in
      rw named
        (wait_from-matched (trim_space order_id) k r h 0 n false (omega arith) (ground arith))
