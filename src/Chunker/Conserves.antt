-- ===== src/Chunker/Conserves.antt =====
-- `GenerateChunkedOrders` on valid legs returns, and loses and invents no quantity.
use complete_dashboard.Prelude.{
  Result, ok, err, ◌>>=◌, ℕ, zero, suc, ◌*◌, ◌^◌, ◌≤◌, ◌<◌, ◌/◌, ◌%◌, ◌≡◌, refl, ◌∙◌, String, false,
  List, [], ◌∷◌, arith, length, All, sum_by,
}
use complete_dashboard.Prelude.Int.{ℤ, pos, pos_part, ltb_ℤ, not_pos}
use complete_dashboard.Prelude.Float.{Float64}
use complete_dashboard.Chunker.{
  LegData, ExecOrder, chunk_divisor, chunks_from, check_leg, leg_chunks, all_leg_chunks, raw_lots,
  max_lots_per_order, min_lots_per_order, merge_chunks, generate_chunked_orders, ChunkError,
}
use complete_dashboard.Chunker.Interleave.{merge_chunks-keeps}
use complete_dashboard.Chunker.Quantity.{IsValidLeg, Weighs, leg_chunks-Makes}
use complete_dashboard.Chunker.Limits.{min_lots-pos, min_lots-le}

abbrev LengthIs : {A : Type 0} → ℕ → Result ChunkError (List A × ℕ) → Type 0
LengthIs n (ok (xs, k)) = length xs ≡ n
LengthIs n (err e) = Unit

bind-LengthIs :
    {A : Type 0} (n : ℕ) (r : Result ChunkError (A × ℕ)) (f : ℕ → Result ChunkError (List A × ℕ))
    → ((k : ℕ) → LengthIs n (f k))
    → LengthIs (suc n) (do (x, k) ← r; (xs, k') ← f k; ok (x ∷ xs, k'))
bind-LengthIs n (err e) f h = tt
bind-LengthIs n (ok (x, k)) f h = ground (arith, h k)

module _ {F : Type 0} (zero_price : F) (prefix : String) (ts_now : ℕ) where
  chunks_from-LengthIs :
      (leg : LegData F) (min_lots base rem c rounds counter : ℕ)
      → LengthIs rounds
          (chunks_from zero_price prefix ts_now leg min_lots base rem c rounds counter)
  unfolding chunks_from
  chunks_from-LengthIs leg min_lots base rem c zero counter = refl
  chunks_from-LengthIs leg min_lots base rem c (suc rounds) counter =
      bind-LengthIs rounds _
        (chunks_from zero_price prefix ts_now leg min_lots base rem (suc c) rounds)
        (chunks_from-LengthIs leg min_lots base rem (suc c) rounds)

  leg_chunks-LengthIs :
      (leg : LegData F) (min_lots counter : ℕ)
      → LengthIs chunk_divisor (leg_chunks zero_price prefix ts_now leg min_lots counter)
  unfolding leg_chunks check_leg
  leg_chunks-LengthIs leg min_lots counter = ground (
    arith,
    chunks_from-LengthIs leg min_lots (pos_part leg.total_lots / chunk_divisor)
        (pos_part leg.total_lots % chunk_divisor) 0 chunk_divisor counter,
  )

-- Calls whose numbers are those of `int64` and whose first leg has the largest lot size, on which the
-- lots per order rest: the code does not check the latter, and its callers give one lot size.
pub record IsValidCall {F : Type 0} (first : LegData F) (legs : List (LegData F))
    (max_order_qty : ℤ) : Type 0 where
  pub max_pos : not_pos max_order_qty ≡ false
  pub max_fits : pos_part max_order_qty < 2 ^ 63
  pub lot_fits : pos_part first.lot_size < 2 ^ 63
  pub first_lot_pos : not_pos first.lot_size ≡ false
  pub legs_valid :
      All
        (λ leg.
          (not_pos leg.token ≡ false)
          × (not_pos leg.lot_size ≡ false)
          × (ltb_ℤ leg.total_lots (pos 0) ≡ false)
          × (pos_part leg.lot_size ≤ pos_part first.lot_size))
        (first ∷ legs)

-- The legs' chunks were made, seven for each leg, and weigh `total`.
record MakesAll {A : Type 0} (w : A → ℕ) (r : Result ChunkError (List (List (List A)))) (total : ℕ)
    : Type 0 where
  value : List (List (List A))
  returned : r ≡ ok value
  weighs : sum_by (sum_by (sum_by w)) value ≡ total
  seven : All (λ lc. length lc ≤ chunk_divisor) value

length_of_returned :
    {A : Type 0} {n k : ℕ} {xs : List A} (r : Result ChunkError (List A × ℕ))
    → LengthIs n r
    → r ≡ ok (xs, k)
    → length xs ≤ n
length_of_returned (err e) h p = cc
length_of_returned (ok (xs, k)) h p = ground (arith)

module _ {F : Type 0} (zero_price : F) (prefix : String) (ts_now : ℕ) where
  module _ (w : ExecOrder F → ℕ) (unit : LegData F → ℕ) (min_lots : ℕ)
      (some_lots : 0 < min_lots) where
    all_leg_chunks-MakesAll :
        (legs : List (LegData F)) (counter : ℕ)
        → All (IsValidLeg min_lots) legs
        → All (λ leg. Weighs zero_price prefix ts_now w leg min_lots (unit leg)) legs
        → MakesAll w
            (all_leg_chunks zero_price prefix ts_now legs min_lots counter)
            (sum_by (λ leg. pos_part leg.total_lots * unit leg) legs)
    unfolding all_leg_chunks
    all_leg_chunks-MakesAll [] counter v each = record {
      value = [];
      returned = refl;
      weighs = refl;
      seven = tt;
    }
    all_leg_chunks-MakesAll (leg ∷ legs) counter v each =
        let here =
          leg_chunks-Makes zero_price prefix ts_now w leg min_lots (unit leg) each.0 v.0 some_lots
            counter in
        let more = all_leg_chunks-MakesAll legs here.next v.1 each.1 in
        record {
          value = here.value ∷ more.value;
          returned = rw (here.returned, more.returned);
          weighs = omega (arith, here.weighs, more.weighs);
          seven = (
            length_of_returned _ (leg_chunks-LengthIs zero_price prefix ts_now leg min_lots counter)
                here.returned,
            more.seven,
          );
        }

valid_legs :
    {F : Type 0} (raw max_order_qty : ℤ) (first : LegData F) (legs : List (LegData F))
    → pos_part max_order_qty < 2 ^ 63
    → pos_part first.lot_size < 2 ^ 63
    → All
        (λ leg.
          (not_pos leg.token ≡ false)
          × (not_pos leg.lot_size ≡ false)
          × (ltb_ℤ leg.total_lots (pos 0) ≡ false)
          × (pos_part leg.lot_size ≤ pos_part first.lot_size))
        legs
    → All
        (IsValidLeg (min_lots_per_order raw (max_lots_per_order max_order_qty first.lot_size)))
        legs
valid_legs raw mx first [] p q h = tt
valid_legs raw mx first (leg ∷ legs) p q h = (
  record {
    token_pos = h.0.0;
    lot_pos = h.0.1;
    lots_nonneg = h.0.2;
    fits = grind (arith, min_lots-le raw mx first.lot_size);
  },
  valid_legs raw mx first legs p q h.1,
)

module _ (fl : Float64) (ts_now : ℕ) (prefix : String) (first : LegData fl.F)
    (legs : List (LegData fl.F)) (base_lots max_order_qty order_lots_per_call : ℤ)
    (valid : IsValidCall first legs max_order_qty) where
  abbrev lots_per_order : ℕ
  lots_per_order =
      min_lots_per_order (raw_lots fl base_lots order_lots_per_call)
        (max_lots_per_order max_order_qty first.lot_size)

  abbrev outcome : Result ChunkError (List (List (ExecOrder fl.F)))
  outcome =
      generate_chunked_orders fl ts_now prefix (first ∷ legs) base_lots max_order_qty
        order_lots_per_call

  -- For every weight that counts the lots of an order, the call returns chunks with the legs' weight.
  pub outcome_keeps :
      (w : ExecOrder fl.F → ℕ) (unit : LegData fl.F → ℕ)
      → All
          (λ leg. Weighs (fl.lit 0 0) prefix ts_now w leg lots_per_order (unit leg))
          (first ∷ legs)
      → (chunks : List (List (ExecOrder fl.F))) × (outcome ≡ ok chunks)
        × (sum_by (sum_by w) chunks
            ≡ sum_by (λ leg. pos_part leg.total_lots * unit leg) (first ∷ legs))
  unfolding generate_chunked_orders
  outcome_keeps w unit each =
      let raw = raw_lots fl base_lots order_lots_per_call in
      let made =
        all_leg_chunks-MakesAll (fl.lit 0 0) prefix ts_now w unit lots_per_order
          (min_lots-pos raw (max_lots_per_order max_order_qty first.lot_size)) (first ∷ legs) 0
          (valid_legs raw max_order_qty first (first ∷ legs) valid.max_fits valid.lot_fits
            valid.legs_valid)
          each in
      (
        merge_chunks made.value 0 chunk_divisor,
        rw (valid.first_lot_pos, valid.max_pos, made.returned),
        merge_chunks-keeps w made.value chunk_divisor made.seven ∙ made.weighs,
      )
