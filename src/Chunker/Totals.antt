-- ===== src/Chunker/Totals.antt =====
-- What a caller of `GenerateChunkedOrders` can rely on.
use complete_dashboard.Prelude.{
  ok, ℕ, ◌*◌, ◌≤◌, ◌<◌, ◌≡◌, refl, ◌∙◌, ◌⊎◌, String, Bool, true, ◌&&◌, List, [], ◌∷◌, arith, ltb,
  leb, if◌then◌else◌, All, All-map, sum_by,
}
use complete_dashboard.Prelude.Int.{ℤ, pos_part}
use complete_dashboard.Prelude.Float.{Float64}
use complete_dashboard.Chunker.{LegData, ExecOrder, order_of, raw_lots, generate_chunked_orders}
use complete_dashboard.Chunker.Limits.{min_lots-le}
use complete_dashboard.Chunker.Conserves.{IsValidCall, outcome_keeps}

-- The quantity that the orders of the chosen tokens ask for, each token with a weight.
abbrev pub quantity_of : {F : Type 0} → (ℤ → ℕ) → ExecOrder F → ℕ
quantity_of keep o = keep o.token * pos_part o.quantity

always : {A : Type 0} (P : A → Type 0) (xs : List A) → ((x : A) → P x) → All P xs
always P [] h = tt
always P (x ∷ xs) h = (h x, always P xs h)

-- 0 < quantity <= limit
abbrev pub within : {F : Type 0} → ℕ → ExecOrder F → Bool
within limit o = ltb 0 (pos_part o.quantity) && leb (pos_part o.quantity) limit

abbrev outside : {F : Type 0} → ℕ → ExecOrder F → ℕ
outside limit o = if within limit o then 0 else 1

none_outside :
    {F : Type 0} (limit : ℕ) (os : List (ExecOrder F))
    → sum_by (outside limit) os ≡ 0
    → All (λ o. within limit o ≡ true) os
none_outside limit [] h = tt
none_outside limit (o ∷ os) h = (ground arith, none_outside limit os (omega arith))

no_chunk_outside :
    {F : Type 0} (limit : ℕ) (chunks : List (List (ExecOrder F)))
    → sum_by (sum_by (outside limit)) chunks ≡ 0
    → All (All (λ o. within limit o ≡ true)) chunks
no_chunk_outside limit [] h = tt
no_chunk_outside limit (os ∷ chunks) h =
    (none_outside limit os (omega arith), no_chunk_outside limit chunks (omega arith))

sum-zeros : {A : Type 0} (f : A → ℕ) (xs : List A) → sum_by (λ x. f x * 0) xs ≡ 0
sum-zeros f [] = refl
sum-zeros f (x ∷ xs) = omega (arith, sum-zeros f xs)

order_fits :
    (lots min_lots size first limit : ℕ)
    → 0 < lots
    → lots ≤ min_lots
    → 0 < size
    → size ≤ first
    → first ≤ limit
    → (min_lots * first ≤ first) ⊎ (min_lots * first ≤ limit)
    → (0 < lots * size) × (lots * size ≤ limit)
order_fits lots min_lots size first limit p q r s t h =
    let le : lots * size ≤ min_lots * first = grind arith in (grind arith, omega (arith, le))

module _ (fl : Float64) (ts_now : ℕ) (prefix : String) (first : LegData fl.F)
    (legs : List (LegData fl.F)) (base_lots max_order_qty order_lots_per_call : ℤ)
    (valid : IsValidCall first legs max_order_qty) where
  -- On valid legs the call returns chunks, and for every choice of tokens the quantities of their
  -- orders add up to the legs' lots times their lot sizes: no lot is lost, doubled or moved to
  -- another token.
  pub generate_chunked_orders-keeps_quantity :
      (keep : ℤ → ℕ)
      → (chunks : List (List (ExecOrder fl.F))) × (generate_chunked_orders fl ts_now prefix
            (first ∷ legs)
            base_lots
            max_order_qty
            order_lots_per_call
          ≡ ok chunks)
        × (sum_by (sum_by (quantity_of keep)) chunks
            ≡ sum_by
                (λ leg. pos_part leg.total_lots * (keep leg.token * pos_part leg.lot_size))
                (first ∷ legs))
  unfolding order_of
  generate_chunked_orders-keeps_quantity keep =
      outcome_keeps fl ts_now prefix first legs base_lots max_order_qty order_lots_per_call valid
        (quantity_of keep) (λ leg. keep leg.token * pos_part leg.lot_size)
        (always _ (first ∷ legs) (λ leg lots c p q. omega arith))

  -- Where a lot of the first leg is within the limit on an order's quantity and no other leg has a
  -- larger lot, every order that the call on valid legs returns has a positive quantity within that
  -- limit. The code does not check that the first leg's lot is the largest.
  pub generate_chunked_orders-within_limit :
      pos_part first.lot_size ≤ pos_part max_order_qty
      → (chunks : List (List (ExecOrder fl.F))) × (generate_chunked_orders fl ts_now prefix
            (first ∷ legs)
            base_lots
            max_order_qty
            order_lots_per_call
          ≡ ok chunks)
        × All (All (λ o. within (pos_part max_order_qty) o ≡ true)) chunks
  unfolding order_of
  generate_chunked_orders-within_limit h =
      let limit = pos_part max_order_qty in
      let raw = raw_lots fl base_lots order_lots_per_call in
      let (chunks, returned, weighs) =
        outcome_keeps fl ts_now prefix first legs base_lots max_order_qty order_lots_per_call valid
          (outside limit) (λ leg. 0)
          (All-map _ _ (first ∷ legs)
            (λ leg v lots c p q. ground (
              arith,
              order_fits lots _ (pos_part leg.lot_size) _ limit p q (ground (arith, v.1)) v.3 h
                  (min_lots-le raw max_order_qty first.lot_size),
            ))
            valid.legs_valid) in
      (
        chunks,
        returned,
        no_chunk_outside limit chunks
            (weighs ∙ sum-zeros (λ leg. pos_part leg.total_lots) (first ∷ legs)),
      )
