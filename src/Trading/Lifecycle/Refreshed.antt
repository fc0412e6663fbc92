-- ===== src/Trading/Lifecycle/Refreshed.antt =====
-- services/execution-gateway/internal/trading/lifecycle_refresh.go: which status the build orders give a
-- trade.
use complete_dashboard.Prelude.{
  ◌≤◌, ◌<◌, ◌≡◌, ◌≢◌, refl, eq_iff, ◌↔◌, ◌⊎◌, inl, inr, String, Bool, true, false, List, [], ◌∷◌,
  arith, All, length,
}
use mathlib.Core.Bool.{false≢true}
use complete_dashboard.Prelude.Int.{leb_ℤ}
use complete_dashboard.Trading.Lifecycle.{
  BuildOrderLifecycleCounts, BuildRow, count_where, counts_dead, counts_filled, counts_pending,
  counts_unknown, derive_trade_status_from_build_counts, is_dead_status, is_filled_status,
  is_open_status, lifecycle_counts, refreshed_status, trade_status_active, trade_status_failed,
  trade_status_pending_fill,
}

count_where-le :
    (test : BuildRow → Bool) (rows : List BuildRow) → count_where test rows ≤ length rows
unfolding count_where
count_where-le test [] = omega arith
count_where-le test (r ∷ rows) = ground (arith, count_where-le test rows)

count_where-All :
    (test : BuildRow → Bool) (rows : List BuildRow)
    → (count_where test rows ≡ length rows) ↔ All (λ r. test r ≡ true) rows
unfolding count_where
count_where-All test [] = (λ h. tt, λ h. refl)
count_where-All test (r ∷ rows) = (
  λ h. (
    ground (arith, count_where-le test rows),
    (count_where-All test rows).0 (ground (arith, count_where-le test rows)),
  ),
  λ h. ground (arith, (count_where-All test rows).1 h.1),
)

active-ne-failed : trade_status_active ≢ trade_status_failed
active-ne-failed p = false≢true ((eq_iff trade_status_active trade_status_failed).1 p)

active-ne-pending : trade_status_active ≢ trade_status_pending_fill
active-ne-pending p = false≢true ((eq_iff trade_status_active trade_status_pending_fill).1 p)

derive-active :
    (c : BuildOrderLifecycleCounts)
    → (derive_trade_status_from_build_counts c ≡ trade_status_active)
      ↔ ((0 < c.total) × (c.filled ≡ c.total))
unfolding derive_trade_status_from_build_counts
derive-active c = (
  λ h. (
    ground (arith, active-ne-failed, active-ne-pending),
    ground (arith, active-ne-failed, active-ne-pending),
  ),
  λ h. ground arith,
)

length_pos : {A : Type 0} (xs : List A) → xs ≢ [] → 0 < length xs
length_pos [] h = absurd (h refl)
length_pos (x ∷ xs) h = omega arith

ne_nil : {A : Type 0} (xs : List A) → 0 < length xs → xs ≢ []
ne_nil [] h e = elim h [ ]
ne_nil (x ∷ xs) h e = cc

-- A refreshed trade is active exactly if it has build orders and each is filled to its positive
-- quantity.
pub refreshed_status-active :
    (rows : List BuildRow)
    → (refreshed_status rows ≡ trade_status_active)
      ↔ ((rows ≢ []) × All (λ r. counts_filled r ≡ true) rows)
unfolding refreshed_status lifecycle_counts
refreshed_status-active rows =
    let active = derive-active (lifecycle_counts rows) in
    let all = count_where-All counts_filled rows in
    (
      λ h. (ne_nil rows (active.0 h).0, all.0 (active.0 h).1),
      λ h. active.1 (length_pos rows h.0, all.1 h.1),
    )

abbrev pub Any : (BuildRow → Bool) → List BuildRow → Type 0
Any test [] = ⊥
Any test (r ∷ rows) = (test r ≡ true) ⊎ Any test rows

count_where-pos :
    (test : BuildRow → Bool) (rows : List BuildRow) → Any test rows → 0 < count_where test rows
unfolding count_where
count_where-pos test [] h = absurd h
count_where-pos test (r ∷ rows) (inl e) = ground arith
count_where-pos test (r ∷ rows) (inr h) = omega (arith, count_where-pos test rows h)

not_both : (r : BuildRow) → counts_pending r ≡ true → counts_filled r ≡ false
unfolding counts_pending counts_filled
not_both r h = ground arith

pending_lt :
    (rows : List BuildRow) → Any counts_pending rows → count_where counts_filled rows < length rows
unfolding count_where
pending_lt [] h = absurd h
pending_lt (r ∷ rows) (inl e) = ground (arith, not_both r e, count_where-le counts_filled rows)
pending_lt (r ∷ rows) (inr h) = ground (arith, pending_lt rows h)

-- While some build order is open and not fully filled, a refresh leaves the trade waiting for
-- fills, whatever the other orders are.
pub refreshed_status-pending :
    (rows : List BuildRow)
    → Any counts_pending rows
    → refreshed_status rows ≡ trade_status_pending_fill
unfolding refreshed_status lifecycle_counts derive_trade_status_from_build_counts
refreshed_status-pending rows h =
    ground (arith, pending_lt rows h, count_where-pos counts_pending rows h)

open_status_cases :
    (s : String)
    → is_open_status s ≡ true
    → (s ≡ "OPEN") ⊎ ((s ≡ "SUBMITTED") ⊎ (s ≡ "PARTIALLY_FILLED"))
open_status_cases s h =
    ground (arith, eq_iff s "OPEN", eq_iff s "SUBMITTED", eq_iff s "PARTIALLY_FILLED")

-- An open status is no filled and no dead one.
open_status_only :
    (s : String)
    → is_open_status s ≡ true
    → (is_filled_status s ≡ false) × (is_dead_status s ≡ false)
open_status_only s h = elim (open_status_cases s h) [
  | inl e ↦ rw e (refl, refl)
  | inr (inl e) ↦ rw e (refl, refl)
  | inr (inr e) ↦ rw e (refl, refl)
]

-- A build order that the broker still reports as open but whose whole quantity is filled is
-- counted nowhere: a trade with only such an order is refreshed to FAILED.
refreshed_status-open_but_filled :
    (r : BuildRow)
    → is_open_status r.status ≡ true
    → leb_ℤ r.quantity r.filled_qty ≡ true
    → refreshed_status (r ∷ []) ≡ trade_status_failed
unfolding refreshed_status lifecycle_counts derive_trade_status_from_build_counts count_where
    counts_filled counts_pending counts_dead counts_unknown
refreshed_status-open_but_filled r waits filled =
    let (unfilled, alive) = open_status_only r.status waits in ground (arith, unfilled, alive)
