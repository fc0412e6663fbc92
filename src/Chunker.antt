-- ===== src/Chunker.antt =====
-- services/execution-gateway/internal/trading/chunker.go: `GenerateChunkedOrders` cuts the legs of
-- a trade into chunks of orders. An error carries the numbers that its message prints.
pub mod Interleave
pub mod Quantity
pub mod Limits
pub mod Conserves
pub mod Totals
pub mod Guards
use complete_dashboard.Prelude.{
  ℕ, zero, suc, ◌+◌, ◌*◌, ◌/◌, ◌%◌, String, Bool, Result, ok, err, ◌>>=◌, ◌>>◌, Option, none, some,
  List, [], ◌∷◌, ◌++◌, ltb, ◌==◌, if◌then◌else◌, length, get_elem?, get_or, replicate, ◌+s◌,
  format_nat,
}
use complete_dashboard.Prelude.Int.{ℤ, pos, negsuc, pos_part, ltb_ℤ, leb_ℤ, not_pos, int64}
use complete_dashboard.Prelude.Float.{Float64}

pub data ChunkError : Type 0 where
  invalid_lot_size invalid_max_order_qty invalid_token : ℤ → ChunkError
  invalid_leg_lot_size invalid_total_lots : ℤ → ℤ → ChunkError
  invalid_quantity invalid_remainder_quantity : ℤ → ChunkError

-- if bad { return err }
abbrev pub fail_if : Bool → ChunkError → Result ChunkError (Unit {0})
fail_if b e = if b then err e else ok tt

pub record LegData (F : Type 0) : Type 0 where
  pub token : ℤ
  pub symbol : String
  pub option_type : String
  pub action : String
  pub total_lots : ℤ
  pub lot_size : ℤ
  pub expected_price : F
  pub exchange_segment : String

pub record ExecOrder (F : Type 0) : Type 0 where
  pub uid : String
  pub token : ℤ
  pub symbol : String
  pub option_type : String
  pub action : String
  pub quantity : ℤ
  pub expected_price : F
  pub limit_price : F
  pub exchange_segment : String

unfoldable pub min_int : ℤ → ℤ → ℤ
min_int a b = if ltb_ℤ a b then a else b

unfoldable pub max_int : ℤ → ℤ → ℤ
max_int a b = if ltb_ℤ b a then a else b

abbrev pub chunk_divisor : ℕ
chunk_divisor = 7

-- %d
abbrev pub format_int : ℤ → String
format_int (pos n) = format_nat n
format_int (negsuc n) = "-" +s format_nat (suc n)

-- maxInt(1, maxOrderQty/lotSizeForCalc), where both are positive
unfoldable pub max_lots_per_order : ℤ → ℤ → ℤ
unfolding max_int
max_lots_per_order max_order_qty lot_size =
    max_int (pos 1) (pos (pos_part max_order_qty / pos_part lot_size))

-- the choice of `raw`
unfoldable pub raw_lots : (fl : Float64) → ℤ → ℤ → ℤ
raw_lots fl base_lots order_lots_per_call =
    if ltb_ℤ (pos 0) order_lots_per_call
    then order_lots_per_call
    else if ltb_ℤ (pos 0) base_lots
    then to_int (ceil (div (of_int base_lots) (lit 100 0)))
    else pos 1
  where
    open fl use {to_int, ceil, div, of_int, lit}

-- minInt(raw, maxLotsPerOrder), and 1 where that is not positive
unfoldable pub min_lots_per_order : ℤ → ℤ → ℕ
unfolding min_int
min_lots_per_order raw max_lots =
    let m = min_int raw max_lots in if not_pos m then 1 else pos_part m

unfoldable pub check_leg : {F : Type 0} → LegData F → Result ChunkError (Unit {0})
check_leg leg = do
  fail_if (not_pos leg.token) (invalid_token leg.token)
  fail_if (not_pos leg.lot_size) (invalid_leg_lot_size leg.token leg.lot_size)
  fail_if (ltb_ℤ leg.total_lots (pos 0)) (invalid_total_lots leg.token leg.total_lots)
  ok tt

-- One leg's orders. `counter` is `orderCounter`; `float64(0)` is the limit price left unset.
module _ {F : Type 0} (zero_price : F) (prefix : String) (ts_now : ℕ) where
  unfoldable pub order_of : LegData F → ℤ → ℕ → ExecOrder F
  order_of leg qty counter = record {
    uid = prefix +s "_" +s format_int (int64 (ts_now + counter));
    token = leg.token;
    symbol = leg.symbol;
    option_type = leg.option_type;
    action = leg.action;
    quantity = qty;
    expected_price = leg.expected_price;
    limit_price = zero_price;
    exchange_segment = leg.exchange_segment;
  }

  -- for i := 0; i < nFull; i++
  unfoldable pub full_orders : LegData F → ℤ → ℕ → ℕ → Result ChunkError (List (ExecOrder F) × ℕ)
  full_orders leg qty zero counter = ok ([], counter)
  full_orders leg qty (suc n) counter = do
    fail_if (not_pos qty) (invalid_quantity leg.token)
    (rest, counter') ← full_orders leg qty n (counter + 1)
    ok (order_of leg qty counter ∷ rest, counter')

  -- if remLots > 0
  unfoldable pub rest_orders : LegData F → ℕ → ℕ → Result ChunkError (List (ExecOrder F) × ℕ)
  rest_orders leg zero counter = ok ([], counter)
  rest_orders leg (suc r) counter = do
    let qty = int64 (suc r * pos_part leg.lot_size)
    fail_if (not_pos qty) (invalid_remainder_quantity leg.token)
    ok (order_of leg qty counter ∷ [], counter + 1)

  -- The body of the loop over `c` for `lots` lots; with no lots both loops make no order.
  unfoldable pub chunk_orders : LegData F → ℕ → ℕ → ℕ → Result ChunkError (List (ExecOrder F) × ℕ)
  chunk_orders leg min_lots lots counter = do
    (full, counter') ←
        full_orders leg (int64 (min_lots * pos_part leg.lot_size)) (lots / min_lots) counter
    (last, counter'') ← rest_orders leg (lots % min_lots) counter'
    ok (full ++ last, counter'')

  -- for c := 0; c < chunkDivisor; c++, with `rounds` of them left
  unfoldable pub chunks_from :
      LegData F → ℕ → ℕ → ℕ → ℕ → ℕ → ℕ → Result ChunkError (List (List (ExecOrder F)) × ℕ)
  chunks_from leg min_lots base rem c zero counter = ok ([], counter)
  chunks_from leg min_lots base rem c (suc rounds) counter = do
    (chunk, counter') ← chunk_orders leg min_lots (if ltb c rem then base + 1 else base) counter
    (rest, counter'') ← chunks_from leg min_lots base rem (suc c) rounds counter'
    ok (chunk ∷ rest, counter'')

  unfoldable pub leg_chunks : LegData F → ℕ → ℕ → Result ChunkError (List (List (ExecOrder F)) × ℕ)
  leg_chunks leg min_lots counter = do
    check_leg leg
    let lots = pos_part leg.total_lots
    if lots == 0
        then ok (replicate chunk_divisor [], counter)
        else chunks_from leg min_lots (lots / chunk_divisor) (lots % chunk_divisor) 0 chunk_divisor
            counter

  -- for _, leg := range legs
  unfoldable pub all_leg_chunks :
      List (LegData F) → ℕ → ℕ → Result ChunkError (List (List (List (ExecOrder F))))
  all_leg_chunks [] min_lots counter = ok []
  all_leg_chunks (leg ∷ legs) min_lots counter = do
    (chunks, counter') ← leg_chunks leg min_lots counter
    rest ← all_leg_chunks legs min_lots counter'
    ok (chunks ∷ rest)

-- The interleaving of the legs.
module _ {A : Type 0} where
  -- lc[c]
  abbrev pub chunk_at : ℕ → List (List A) → List A
  chunk_at c lc = get_or lc c []

  unfoldable pub max_orders : ℕ → List (List (List A)) → ℕ
  max_orders c [] = 0
  max_orders c (lc ∷ lcs) =
      let here = length (chunk_at c lc) in
      let rest = max_orders c lcs in if ltb here rest then rest else here

  -- The `i`-th order of each leg that has one.
  unfoldable pub one_round : ℕ → ℕ → List (List (List A)) → List A
  one_round c i [] = []
  one_round c i (lc ∷ lcs) = elim (get_elem? (chunk_at c lc) i) [
    | none ↦ one_round c i lcs
    | some o ↦ o ∷ one_round c i lcs
  ]

  -- for i := 0; i < maxOrders; i++, with `rounds` of them left
  unfoldable pub interleave : ℕ → List (List (List A)) → ℕ → ℕ → List A
  interleave c lcs i zero = []
  interleave c lcs i (suc rounds) = one_round c i lcs ++ interleave c lcs (suc i) rounds

  -- if len(interleaved) > 0 { allChunks = append(allChunks, interleaved) }
  unfoldable pub keep_chunk : List A → List (List A) → List (List A)
  keep_chunk [] rest = rest
  keep_chunk (o ∷ os) rest = (o ∷ os) ∷ rest

  unfoldable pub merge_chunks : List (List (List A)) → ℕ → ℕ → List (List A)
  merge_chunks lcs c zero = []
  merge_chunks lcs c (suc rounds) =
      keep_chunk (interleave c lcs 0 (max_orders c lcs)) (merge_chunks lcs (suc c) rounds)

unfoldable pub generate_chunked_orders :
    (fl : Float64) (ts_now : ℕ)
    → String
    → List (LegData fl.F)
    → ℤ
    → ℤ
    → ℤ
    → Result ChunkError (List (List (ExecOrder fl.F)))
generate_chunked_orders fl ts_now prefix [] base_lots max_order_qty order_lots_per_call = ok []
generate_chunked_orders fl ts_now prefix (leg ∷ legs) base_lots max_order_qty order_lots_per_call =
    do
      fail_if (not_pos leg.lot_size) (invalid_lot_size leg.lot_size)
      fail_if (not_pos max_order_qty) (invalid_max_order_qty max_order_qty)
      let max_lots = max_lots_per_order max_order_qty leg.lot_size
      let min_lots = min_lots_per_order (raw_lots fl base_lots order_lots_per_call) max_lots
      lcs ← all_leg_chunks (fl.lit 0 0) prefix ts_now (leg ∷ legs) min_lots 0
      ok (merge_chunks lcs 0 chunk_divisor)
