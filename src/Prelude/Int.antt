-- ===== src/Prelude/Int.antt =====
-- Go's `int` and `int64` as integers, over the native numbers. Arithmetic that may leave the
-- 64 bits is written with `wrap`.
use complete_dashboard.Prelude.Tests.{ltb, leb, if◌then◌else◌, ◌==◌}
use Prim.Native.Nat.{ℕ, suc, ◌+◌, ◌-◌, ◌*◌, ◌<◌, ◌≤◌, ◌%◌, ◌^◌}
use mathlib.Core.Path.{◌≡◌}
use mathlib.Core.Bool.{Bool}
use native.Mathlib.Omega.{arith}

-- `negsuc n` is -(n + 1).
pub data ℤ : Type 0 where
  pos : ℕ → ℤ
  negsuc : ℕ → ℤ

abbrev pub pos_part : ℤ → ℕ
pos_part (pos n) = n
pos_part (negsuc n) = 0

abbrev pub neg_part : ℤ → ℕ
neg_part (pos n) = 0
neg_part (negsuc n) = suc n

abbrev pub sub_ℕ : ℕ → ℕ → ℤ
sub_ℕ a b = if leb b a then pos (a - b) else negsuc (b - a - 1)

infixl 65 ◌+ℤ◌ ◌-ℤ◌
infixl 70 ◌*ℤ◌
unfoldable pub ◌+ℤ◌ : ℤ → ℤ → ℤ
a +ℤ b = sub_ℕ (pos_part a + pos_part b) (neg_part a + neg_part b)

unfoldable pub ◌-ℤ◌ : ℤ → ℤ → ℤ
a -ℤ b = sub_ℕ (pos_part a + neg_part b) (neg_part a + pos_part b)

unfoldable pub ◌*ℤ◌ : ℤ → ℤ → ℤ
a *ℤ b =
    sub_ℕ (pos_part a * pos_part b + neg_part a * neg_part b)
      (pos_part a * neg_part b + neg_part a * pos_part b)

-- -a
unfoldable pub neg_ℤ : ℤ → ℤ
neg_ℤ a = sub_ℕ (neg_part a) (pos_part a)

-- a < b, a ≤ b, a == b
abbrev pub ltb_ℤ : ℤ → ℤ → Bool
ltb_ℤ a b = ltb (pos_part a + neg_part b) (pos_part b + neg_part a)

abbrev pub leb_ℤ : ℤ → ℤ → Bool
leb_ℤ a b = leb (pos_part a + neg_part b) (pos_part b + neg_part a)

abbrev pub eqb_ℤ : ℤ → ℤ → Bool
eqb_ℤ a b = (pos_part a + neg_part b) == (pos_part b + neg_part a)

-- a ≤ 0
abbrev pub not_pos : ℤ → Bool
not_pos a = leb_ℤ a (pos 0)

-- The integer of 64 bits with the bit pattern `n`.
unfoldable pub int64 : ℕ → ℤ
int64 n = let low = n % 2 ^ 64 in if ltb low (2 ^ 63) then pos low else negsuc (2 ^ 64 - 1 - low)

-- Within 64 bits nothing wraps.
pub int64-eq-pos : (n : ℕ) → n < 2 ^ 63 → int64 n ≡ pos n
unfolding int64
int64-eq-pos n h = ground arith

-- The integer of 64 bits that an integer wraps around to.
unfoldable pub wrap : ℤ → ℤ
unfolding int64
wrap (pos n) = int64 n
wrap (negsuc n) = int64 (2 ^ 64 - 1 - n % 2 ^ 64)

-- a + b on int64
unfoldable pub add_int64 : ℤ → ℤ → ℤ
unfolding wrap ◌+ℤ◌
add_int64 a b = wrap (a +ℤ b)

pub wrap-within : (a : ℤ) → pos_part a + neg_part a < 2 ^ 63 → wrap a ≡ a
unfolding wrap int64
wrap-within (pos n) h = ground arith
wrap-within (negsuc n) h = ground arith

pub +ℤ_parts :
    (a b : ℤ)
    → pos_part (a +ℤ b) + neg_part a + neg_part b ≡ neg_part (a +ℤ b) + pos_part a + pos_part b
unfolding ◌+ℤ◌
+ℤ_parts a b = ground arith

+ℤ-size :
    (a b : ℤ)
    → pos_part (a +ℤ b) + neg_part (a +ℤ b) ≤ pos_part a + neg_part a + (pos_part b + neg_part b)
unfolding ◌+ℤ◌
+ℤ-size a b = ground arith

pub add_int64-within :
    (a b : ℤ)
    → pos_part a + neg_part a + (pos_part b + neg_part b) < 2 ^ 63
    → (pos_part (add_int64 a b) + neg_part a + neg_part b
        ≡ neg_part (add_int64 a b) + pos_part a + pos_part b)
      × (pos_part (add_int64 a b) + neg_part (add_int64 a b)
          ≤ pos_part a + neg_part a + (pos_part b + neg_part b))
unfolding add_int64
add_int64-within a b h =
    let small = +ℤ-size a b in
    rw (wrap-within (a +ℤ b) (omega (arith, small))) (+ℤ_parts a b, small)

pub -ℤ_parts :
    (a b : ℤ)
    → pos_part (a -ℤ b) + neg_part a + pos_part b ≡ neg_part (a -ℤ b) + pos_part a + neg_part b
unfolding ◌-ℤ◌
-ℤ_parts a b = ground arith

pub neg_ℤ_parts : (a : ℤ) → pos_part (neg_ℤ a) + pos_part a ≡ neg_part (neg_ℤ a) + neg_part a
unfolding neg_ℤ
neg_ℤ_parts a = ground arith

pub eq_of_parts : (a b : ℤ) → pos_part a + neg_part b ≡ pos_part b + neg_part a → a ≡ b
eq_of_parts a b h = ground arith

pub ruleset int_laws = (arith, +ℤ_parts, -ℤ_parts, neg_ℤ_parts, eq_of_parts)
