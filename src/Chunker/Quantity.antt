-- ===== src/Chunker/Quantity.antt =====
-- The lots of a leg, through the two loops that make its orders. `w` is any weight of orders that
-- is `unit` for each lot, wherever the order stands in the count.
use complete_dashboard.Prelude.{
  Result, ok, ℕ, zero, suc, ◌+◌, ◌*◌, ◌/◌, ◌%◌, ◌^◌, ◌≤◌, ◌<◌, ◌≡◌, refl, String, false, ap, inl,
  inr, [], ◌∷◌, ◌++◌, arith, ltb, ◌==◌, Bool-cases, if◌then◌else◌, replicate, sum_by, sum_by-append,
}
use native.Mathlib.Nat.{div-add-mod}
use complete_dashboard.Prelude.Int.{pos, pos_part, ltb_ℤ, not_pos, int64, int64-eq-pos}
use complete_dashboard.Chunker.{
  LegData, ExecOrder, chunk_divisor, order_of, full_orders, rest_orders, chunk_orders, chunks_from,
  check_leg, leg_chunks, ChunkError,
}

-- The loops returned `value` and the next count, and the orders weigh `total`.
pub record Makes {A : Type 0} (w : A → ℕ) (r : Result ChunkError (A × ℕ)) (total : ℕ) : Type 0 where
  pub value : A
  pub next : ℕ
  pub returned : r ≡ ok (value, next)
  pub weighs : w value ≡ total

-- What a leg must satisfy so that no order of at most `min_lots` lots leaves 64 bits.
pub record IsValidLeg {F : Type 0} (min_lots : ℕ) (leg : LegData F) : Type 0 where
  pub token_pos : not_pos leg.token ≡ false
  pub lot_pos : not_pos leg.lot_size ≡ false
  pub lots_nonneg : ltb_ℤ leg.total_lots (pos 0) ≡ false
  pub fits : min_lots * pos_part leg.lot_size < 2 ^ 63

-- The lots of the chunks from the `c`-th on.
lots_from : ℕ → ℕ → ℕ → ℕ → ℕ
lots_from base rem c zero = 0
lots_from base rem c (suc rounds) =
    (if ltb c rem then base + 1 else base) + lots_from base rem (suc c) rounds

lots_from-total : (lots : ℕ) → lots_from (lots / 7) (lots % 7) 0 7 ≡ lots
unfolding lots_from
lots_from-total lots = ground arith

module _ {F : Type 0} (zero_price : F) (prefix : String) (ts_now : ℕ) (w : ExecOrder F → ℕ) where
  full-Makes :
      (leg : LegData F) (q k : ℕ)
      → 0 < q
      → ((counter : ℕ) → w (order_of zero_price prefix ts_now leg (pos q) counter) ≡ k)
      → (n counter : ℕ)
      → Makes (sum_by w) (full_orders zero_price prefix ts_now leg (pos q) n counter) (n * k)
  unfolding full_orders
  full-Makes leg q k h each zero counter = record {
    value = [];
    next = counter;
    returned = refl;
    weighs = omega arith;
  }
  full-Makes leg q k h each (suc n) counter =
      let more = full-Makes leg q k h each n (counter + 1) in
      record {
        value = order_of zero_price prefix ts_now leg (pos q) counter ∷ more.value;
        next = more.next;
        returned = rw more.returned (ground arith);
        weighs = omega (arith, each counter, more.weighs);
      }

  -- `w` weighs an order of `leg` of at most `min_lots` lots by its lots.
  abbrev pub Weighs : LegData F → ℕ → ℕ → Type 0
  Weighs leg min_lots unit =
      (lots counter : ℕ)
      → 0 < lots
      → lots ≤ min_lots
      → w (order_of zero_price prefix ts_now leg (pos (lots * pos_part leg.lot_size)) counter)
        ≡ lots * unit

  module _ (leg : LegData F) (min_lots unit : ℕ) (h : Weighs leg min_lots unit)
      (v : IsValidLeg min_lots leg) (some_lots : 0 < min_lots) where
    lot_pos : 0 < pos_part leg.lot_size
    lot_pos = ground (arith, v.lot_pos)

    int64_of_lots :
        (lots : ℕ)
        → lots ≤ min_lots
        → int64 (lots * pos_part leg.lot_size) ≡ pos (lots * pos_part leg.lot_size)
    int64_of_lots lots le = int64-eq-pos _ (grind (arith, v.fits))

    qty_pos : (lots : ℕ) → 0 < lots → 0 < lots * pos_part leg.lot_size
    qty_pos lots p = grind (arith, lot_pos)

    rest-Makes :
        (r counter : ℕ)
        → r ≤ min_lots
        → Makes (sum_by w) (rest_orders zero_price prefix ts_now leg r counter) (r * unit)
    unfolding rest_orders
    rest-Makes zero counter le = record {
      value = [];
      next = counter;
      returned = refl;
      weighs = omega arith;
    }
    rest-Makes (suc r) counter le = record {
      value =
          order_of zero_price prefix ts_now leg (pos (suc r * pos_part leg.lot_size)) counter ∷ [];
      next = counter + 1;
      returned = rw (int64_of_lots (suc r) le) (ground (arith, qty_pos (suc r)));
      weighs = omega (arith, h (suc r) counter (omega arith) le);
    }

    chunk-Makes :
        (lots counter : ℕ)
        → Makes
            (sum_by w)
            (chunk_orders zero_price prefix ts_now leg min_lots lots counter)
            (lots * unit)
    unfolding chunk_orders
    chunk-Makes lots counter =
        let full =
          full-Makes leg (min_lots * pos_part leg.lot_size) (min_lots * unit)
            (qty_pos min_lots some_lots) (λ c. h min_lots c some_lots (omega arith))
            (lots / min_lots) counter in
        let last = rest-Makes (lots % min_lots) full.next (grind arith) in
        record {
          value = full.value ++ last.value;
          next = last.next;
          returned = rw (int64_of_lots min_lots (omega arith), full.returned, last.returned);
          weighs = omega (
            arith,
            sum_by-append w full.value last.value,
            full.weighs,
            last.weighs,
            ap (λ (t : ℕ). t * unit) (div-add-mod lots min_lots),
          );
        }

    chunks-Makes :
        (base rem c rounds counter : ℕ)
        → Makes
            (sum_by (sum_by w))
            (chunks_from zero_price prefix ts_now leg min_lots base rem c rounds counter)
            (lots_from base rem c rounds * unit)
    unfolding chunks_from lots_from
    chunks-Makes base rem c zero counter = record {
      value = [];
      next = counter;
      returned = refl;
      weighs = omega arith;
    }
    chunks-Makes base rem c (suc rounds) counter =
        let lots : ℕ = if ltb c rem then base + 1 else base in
        let chunk = chunk-Makes lots counter in
        let more = chunks-Makes base rem (suc c) rounds chunk.next in
        record {
          value = chunk.value ∷ more.value;
          next = more.next;
          returned = rw (chunk.returned, more.returned);
          weighs = omega (arith, chunk.weighs, more.weighs);
        }

    -- A leg gets seven chunks, which weigh its lots.
    pub leg_chunks-Makes :
        (counter : ℕ)
        → Makes
            (sum_by (sum_by w))
            (leg_chunks zero_price prefix ts_now leg min_lots counter)
            (pos_part leg.total_lots * unit)
    unfolding leg_chunks check_leg
    leg_chunks-Makes counter =
        let lots = pos_part leg.total_lots in
        let made = chunks-Makes (lots / 7) (lots % 7) 0 7 counter in
        elim (Bool-cases (lots == 0)) [
          | inl e ↦ record {
            value = replicate chunk_divisor [];
            next = counter;
            returned = rw (v.token_pos, v.lot_pos, v.lots_nonneg, e);
            weighs = ground (arith, e);
          }
          | inr e ↦ record {
            value = made.value;
            next = made.next;
            returned = rw (v.token_pos, v.lot_pos, v.lots_nonneg, e) made.returned;
            weighs = rw made.weighs (ap (λ (t : ℕ). t * unit) (lots_from-total lots));
          }
        ]
