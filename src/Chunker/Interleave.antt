-- ===== src/Chunker/Interleave.antt =====
-- What the interleaving of the legs keeps: every order of every leg, once.
use complete_dashboard.Prelude.{
  ℕ, zero, suc, ◌+◌, ◌≤◌, ◌<◌, ◌≡◌, refl, ◌∙◌, List, [], ◌∷◌, arith, length, get_elem?, All, sum_by,
  sum_by-append, sum_range, sum_range-add, sum_range-zero, sum_range-get_elem?, sum_range-get_or,
  weight_or,
}
use complete_dashboard.Chunker.{
  chunk_at, max_orders, one_round, interleave, keep_chunk, merge_chunks,
}

module _ {A : Type 0} (w : A → ℕ) where
  sum-one_round :
      (c i : ℕ) (lc : List (List A)) (lcs : List (List (List A)))
      → sum_by w (one_round c i (lc ∷ lcs))
        ≡ weight_or w (get_elem? (chunk_at c lc) i) + sum_by w (one_round c i lcs)
  unfolding one_round
  sum-one_round c i lc lcs = ground arith

  sum-interleave-nil : (c i n : ℕ) → sum_by w (interleave c [] i n) ≡ 0
  unfolding interleave one_round
  sum-interleave-nil c i zero = refl
  sum-interleave-nil c i (suc n) = sum-interleave-nil c (suc i) n

  sum-interleave-cons :
      (c i n : ℕ) (lc : List (List A)) (lcs : List (List (List A)))
      → sum_by w (interleave c (lc ∷ lcs) i n)
        ≡ sum_range (λ k. weight_or w (get_elem? (chunk_at c lc) k)) i n
          + sum_by w (interleave c lcs i n)
  unfolding interleave
  sum-interleave-cons c i zero lc lcs = omega arith
  sum-interleave-cons c i (suc n) lc lcs = omega (
    arith,
    sum-one_round c i lc lcs,
    sum-interleave-cons c (suc i) n lc lcs,
    sum_by-append w (one_round c i (lc ∷ lcs)) (interleave c (lc ∷ lcs) (suc i) n),
    sum_by-append w (one_round c i lcs) (interleave c lcs (suc i) n),
  )

  sum-interleave :
      (c n : ℕ) (lcs : List (List (List A)))
      → max_orders c lcs ≤ n
      → sum_by w (interleave c lcs 0 n) ≡ sum_by (λ lc. sum_by w (chunk_at c lc)) lcs
  unfolding max_orders
  sum-interleave c n [] h = sum-interleave-nil c 0 n
  sum-interleave c n (lc ∷ lcs) h = omega (
    arith,
    sum-interleave-cons c 0 n lc lcs,
    sum_range-get_elem? w (chunk_at c lc) n (ground arith),
    sum-interleave c n lcs (ground arith),
  )

  sum-keep_chunk :
      (os : List A) (rest : List (List A))
      → sum_by (sum_by w) (keep_chunk os rest) ≡ sum_by w os + sum_by (sum_by w) rest
  unfolding keep_chunk
  sum-keep_chunk [] rest = omega arith
  sum-keep_chunk (o ∷ os) rest = omega arith

  sum-merge_chunks :
      (lcs : List (List (List A))) (c n : ℕ)
      → sum_by (sum_by w) (merge_chunks lcs c n)
        ≡ sum_range (λ k. sum_by (λ lc. sum_by w (chunk_at k lc)) lcs) c n
  unfolding merge_chunks
  sum-merge_chunks lcs c zero = refl
  sum-merge_chunks lcs c (suc n) = omega (
    arith,
    sum-keep_chunk (interleave c lcs 0 (max_orders c lcs)) (merge_chunks lcs (suc c) n),
    sum-interleave c (max_orders c lcs) lcs (omega arith),
    sum-merge_chunks lcs (suc c) n,
  )

  sum_range-columns :
      (lcs : List (List (List A))) (n : ℕ)
      → All (λ lc. length lc ≤ n) lcs
      → sum_range (λ k. sum_by (λ lc. sum_by w (chunk_at k lc)) lcs) 0 n
        ≡ sum_by (sum_by (sum_by w)) lcs
  sum_range-columns [] n h = sum_range-zero 0 n
  sum_range-columns (lc ∷ lcs) n h = omega (
    arith,
    sum_range-add (λ k. sum_by w (chunk_at k lc)) (λ k. sum_by (λ xs. sum_by w (chunk_at k xs)) lcs)
        0 n,
    sum_range-get_or (sum_by w) lc [] n refl h.0,
    sum_range-columns lcs n h.1,
  )

  -- The merged chunks weigh what the legs' chunks weigh, for every weight of an order.
  pub merge_chunks-keeps :
      (lcs : List (List (List A))) (n : ℕ)
      → All (λ lc. length lc ≤ n) lcs
      → sum_by (sum_by w) (merge_chunks lcs 0 n) ≡ sum_by (sum_by (sum_by w)) lcs
  merge_chunks-keeps lcs n h = sum-merge_chunks lcs 0 n ∙ sum_range-columns lcs n h

-- At most one chunk for each round, and none is empty.
module _ {A : Type 0} where
  abbrev pub IsFull : List A → Type 0
  IsFull os = 0 < length os

  pub merge_chunks-IsFull :
      (lcs : List (List (List A))) (c n : ℕ)
      → All IsFull (merge_chunks lcs c n) × (length (merge_chunks lcs c n) ≤ n)
  unfolding merge_chunks keep_chunk
  merge_chunks-IsFull lcs c zero = (tt, omega arith)
  merge_chunks-IsFull lcs c (suc n) =
      let (full, few) = merge_chunks-IsFull lcs (suc c) n in
      step (interleave c lcs 0 (max_orders c lcs)) (merge_chunks lcs (suc c) n) full few
    where
      step :
          (os : List A) (rest : List (List A))
          → All IsFull rest
          → length rest ≤ n
          → All IsFull (keep_chunk os rest) × (length (keep_chunk os rest) ≤ suc n)
      step [] rest full few = (full, omega arith)
      step (o ∷ os) rest full few = ((omega arith, full), omega arith)
