-- ===== src/Prelude/Float.antt =====
-- Go's `float64`. There are no floats here: a type with the operations that the program calls is a
-- parameter of what computes with prices, deltas and percentages.
use complete_dashboard.Prelude.Int.{ℤ}
use Prim.Native.Nat.{ℕ}
use mathlib.Core.Bool.{Bool}

pub record Float64 : Type 1 where
  pub F : Type 0
  -- `lit m k` is the literal m / 10 ^ k
  pub lit : ℕ → ℕ → F
  pub add : F → F → F
  pub sub : F → F → F
  pub mul : F → F → F
  pub div : F → F → F
  pub neg : F → F
  -- math.Abs, math.Round, math.Ceil, math.Max
  pub fabs : F → F
  pub round : F → F
  pub ceil : F → F
  pub fmax : F → F → F
  -- float64(n), int(f)
  pub of_int : ℤ → F
  pub to_int : F → ℤ
  -- a < b, a <= b, a == b
  pub flt : F → F → Bool
  pub fle : F → F → Bool
  pub feq : F → F → Bool
