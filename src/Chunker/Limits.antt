-- ===== src/Chunker/Limits.antt =====
-- How many lots an order takes, and why no quantity leaves 64 bits.
use complete_dashboard.Prelude.{ℕ, ◌*◌, ◌/◌, ◌≤◌, ◌<◌, ◌⊎◌, inl, inr, arith}
use complete_dashboard.Prelude.Int.{ℤ, pos_part}
use complete_dashboard.Chunker.{max_lots_per_order, min_lots_per_order, min_int}
use native.Mathlib.Nat.{div-add-mod}

-- At least one lot goes into an order.
pub min_lots-pos : (raw max_lots : ℤ) → 0 < min_lots_per_order raw max_lots
unfolding min_lots_per_order
min_lots-pos raw max_lots = ground arith

div_mul_le : (a b : ℕ) → a / b * b ≤ a
div_mul_le a b = grind (arith, div-add-mod a b)

module _ (raw max_order_qty lot_size : ℤ) where
  abbrev lots : ℕ
  lots = min_lots_per_order raw (max_lots_per_order max_order_qty lot_size)

  lots_cases : (lots ≤ 1) ⊎ (lots ≤ pos_part max_order_qty / pos_part lot_size)
  unfolding min_lots_per_order max_lots_per_order min_int
  lots_cases = ground arith

  -- An order's quantity is at most the limit, or it is one lot.
  pub min_lots-le :
      (lots * pos_part lot_size ≤ pos_part lot_size)
      ⊎ (lots * pos_part lot_size ≤ pos_part max_order_qty)
  min_lots-le = elim lots_cases [
    | inl one ↦ inl (grind arith)
    | inr few ↦ inr (grind (arith, div_mul_le (pos_part max_order_qty) (pos_part lot_size)))
  ]
