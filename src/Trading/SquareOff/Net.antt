-- ===== src/Trading/SquareOff/Net.antt =====
-- The intents of a square-off undo the filled orders of the trade.
use complete_dashboard.Prelude.{
  ℕ, ◌+◌, ◌≤◌, ◌≡◌, to_upper, trim_space, ◌||◌, Bool, true, false, String, List, [], ◌∷◌, arith,
  sum_by, weight_or, str_eq, if◌then◌else◌, find, put, GoMap,
}
use complete_dashboard.Prelude.Int.{pos_part, neg_part, not_pos}
use complete_dashboard.Prelude.Float.{Float64}
use complete_dashboard.Trading.Models.{OrderIntent}
use complete_dashboard.Trading.SquareOff.{FilledOrder, SqfNetPosition}

-- The sum of a measure over a map after an entry was set.
pub sum-put :
    {V : Type 0} (w : V → ℕ) (m : GoMap V) (k : String) (v : V)
    → sum_by (λ e. w e.value) (put m k v) + weight_or w (find m k) ≡ sum_by (λ e. w e.value) m + w v
unfolding put find
sum-put w [] k v = omega arith
sum-put w (e ∷ m) k v = ground (arith, sum-put w m k v)

-- An order that counts: of a positive quantity and a positive token.
abbrev pub counts : {F : Type 0} → FilledOrder F → Bool
counts o = if not_pos o.filled_qty || not_pos o.token then false else true

-- What the orders of a trade have bought and sold.
abbrev sells : {F : Type 0} → FilledOrder F → Bool
sells o = str_eq (to_upper (trim_space o.side)) "SELL"

abbrev pub size : {F : Type 0} → FilledOrder F → ℕ
size o = pos_part o.filled_qty

abbrev pub bought : {F : Type 0} → FilledOrder F → ℕ
bought o = if counts o then (if sells o then 0 else size o) else 0

abbrev pub sold : {F : Type 0} → FilledOrder F → ℕ
sold o = if counts o then (if sells o then size o else 0) else 0

abbrev long : {F : Type 0} → SqfNetPosition F → ℕ
long p = pos_part p.net_qty

abbrev short : {F : Type 0} → SqfNetPosition F → ℕ
short p = neg_part p.net_qty

abbrev long_in : {F : Type 0} → GoMap (SqfNetPosition F) → ℕ
long_in m = sum_by (λ e. long e.value) m

abbrev short_in : {F : Type 0} → GoMap (SqfNetPosition F) → ℕ
short_in m = sum_by (λ e. short e.value) m

-- What intents ask to buy and to sell.
abbrev pub asked : {F : Type 0} → String → OrderIntent F → ℕ
asked side i = if str_eq i.side side then pos_part i.quantity else 0

module _ (fl : Float64) where
  -- Of the positions that the orders make: their balance, and how large they are.
  abbrev Balanced :
      List (FilledOrder fl.F) → GoMap (SqfNetPosition fl.F) → GoMap (SqfNetPosition fl.F) → Type 0
  Balanced orders m r =
      (long_in r + sum_by sold orders + short_in m ≡ short_in r + sum_by bought orders + long_in m)
      × (long_in r + short_in r ≤ long_in m + short_in m + sum_by size orders)
