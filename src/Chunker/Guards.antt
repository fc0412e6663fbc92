-- ===== src/Chunker/Guards.antt =====
-- What `GenerateChunkedOrders` has checked when it returns chunks, and the shape of the chunks.
use mathlib.Core.Path.{subst}
use complete_dashboard.Prelude.{
  ok, first_step, ok_inj, ℕ, ◌≤◌, ◌≡◌, String, false, List, [], ◌∷◌, arith, length, All,
}
use complete_dashboard.Prelude.Int.{ℤ, pos, ltb_ℤ, not_pos}
use complete_dashboard.Prelude.Float.{Float64}
use complete_dashboard.Chunker.{
  LegData, ExecOrder, fail_if, chunk_divisor, check_leg, leg_chunks, all_leg_chunks,
  generate_chunked_orders,
}
use complete_dashboard.Chunker.Interleave.{IsFull, merge_chunks-IsFull}

abbrev pub IsChecked : {F : Type 0} → LegData F → Type 0
IsChecked leg =
    (not_pos leg.token ≡ false)
    × (not_pos leg.lot_size ≡ false)
    × (ltb_ℤ leg.total_lots (pos 0) ≡ false)

check_leg-IsChecked : {F : Type 0} (leg : LegData F) → check_leg leg ≡ ok tt → IsChecked leg
unfolding check_leg
check_leg-IsChecked leg h = ground arith

module _ {F : Type 0} (zero_price : F) (prefix : String) (ts_now min_lots : ℕ) where
  all_leg_chunks-IsChecked :
      (legs : List (LegData F)) (counter : ℕ) {lcs : List (List (List (ExecOrder F)))}
      → all_leg_chunks zero_price prefix ts_now legs min_lots counter ≡ ok lcs
      → All IsChecked legs
  unfolding all_leg_chunks leg_chunks
  all_leg_chunks-IsChecked [] counter h = tt
  all_leg_chunks-IsChecked (leg ∷ legs) counter h =
      let ((chunks, next), made, rest) =
        first_step (leg_chunks zero_price prefix ts_now leg min_lots counter) _ h in
      let (tt', checked, _) = first_step (check_leg leg) _ made in
      let (lcs', more, _) =
        first_step (all_leg_chunks zero_price prefix ts_now legs min_lots next) _ rest in
      (check_leg-IsChecked leg checked, all_leg_chunks-IsChecked legs next more)

abbrev pub Shape : {A : Type 0} → List (List A) → Type 0
Shape chunks = All IsFull chunks × (length chunks ≤ chunk_divisor)

module _ (fl : Float64) (ts_now : ℕ) (prefix : String)
    (base_lots max_order_qty order_lots_per_call : ℤ) where
  -- A call that returns chunks has rejected nothing: the limit is positive and every leg has a
  -- positive token, a positive lot size and no negative lots.
  pub generate_chunked_orders-IsChecked :
      (first : LegData fl.F) (legs : List (LegData fl.F)) {chunks : List (List (ExecOrder fl.F))}
      → generate_chunked_orders fl ts_now prefix
          (first ∷ legs)
          base_lots
          max_order_qty
          order_lots_per_call
        ≡ ok chunks
      → (not_pos max_order_qty ≡ false) × All IsChecked (first ∷ legs)
  unfolding generate_chunked_orders
  generate_chunked_orders-IsChecked first legs h =
      let (_, lot_ok, after_lot) = first_step (fail_if (not_pos first.lot_size) _) _ h in
      let (_, max_ok, after_max) = first_step (fail_if (not_pos max_order_qty) _) _ after_lot in
      let (lcs, made, _) = first_step (all_leg_chunks _ _ _ (first ∷ legs) _ 0) _ after_max in
      (ground arith, all_leg_chunks-IsChecked (fl.lit 0 0) prefix ts_now _ (first ∷ legs) 0 made)

  -- Whatever the legs, the call returns at most seven chunks, and none is empty.
  generate_chunked_orders-IsFull :
      (legs : List (LegData fl.F)) {chunks : List (List (ExecOrder fl.F))}
      → generate_chunked_orders fl ts_now prefix legs base_lots max_order_qty order_lots_per_call
        ≡ ok chunks
      → Shape chunks
  unfolding generate_chunked_orders
  generate_chunked_orders-IsFull [] h = subst Shape (ok_inj h) (tt, omega arith)
  generate_chunked_orders-IsFull (first ∷ legs) h =
      let (_, _, after_lot) = first_step (fail_if (not_pos first.lot_size) _) _ h in
      let (_, _, after_max) = first_step (fail_if (not_pos max_order_qty) _) _ after_lot in
      let (lcs, _, merged) = first_step (all_leg_chunks _ _ _ (first ∷ legs) _ 0) _ after_max in
      subst Shape (ok_inj merged) (merge_chunks-IsFull lcs 0 chunk_divisor)
