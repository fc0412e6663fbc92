-- ===== src/Tests/Numbers.antt =====
-- Whole numbers in the place of `float64`, for the runs.
use complete_dashboard.Prelude.{◌/◌, ◌^◌, if◌then◌else◌}
use complete_dashboard.Prelude.Int.{ℤ, pos, pos_part, ◌+ℤ◌, ◌-ℤ◌, ◌*ℤ◌, neg_ℤ, ltb_ℤ, leb_ℤ, eqb_ℤ}
use complete_dashboard.Prelude.Float.{Float64}

abbrev pub whole : Float64
whole = record {
  F = ℤ;
  lit = λ m k. pos (m / 10 ^ k);
  add = λ a b. a +ℤ b;
  sub = λ a b. a -ℤ b;
  mul = λ a b. a *ℤ b;
  div = λ a b. pos (pos_part a / pos_part b);
  neg = neg_ℤ;
  fabs = λ a. if ltb_ℤ a (pos 0) then neg_ℤ a else a;
  round = λ a. a;
  ceil = λ a. a;
  fmax = λ a b. if ltb_ℤ a b then b else a;
  of_int = λ a. a;
  to_int = λ a. a;
  flt = ltb_ℤ;
  fle = leb_ℤ;
  feq = eqb_ℤ;
}
