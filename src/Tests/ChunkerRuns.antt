-- ===== src/Tests/ChunkerRuns.antt =====
-- A straddle of fifteen lots of 75, cut for a limit of 1800.
use complete_dashboard.Prelude.{
  ok, ◌≡◌, ◌+◌, ◌*◌, refl, true, format_nat, List, [], ◌∷◌, arith, sum_by, All,
}
use complete_dashboard.Prelude.Int.{ℤ, pos, pos_part, int64}
use complete_dashboard.Chunker.{
  LegData, ExecOrder, generate_chunked_orders, raw_lots, max_lots_per_order, min_lots_per_order,
  leg_chunks, all_leg_chunks, check_leg, chunks_from, chunk_orders, full_orders, rest_orders,
  merge_chunks, keep_chunk, interleave, max_orders, one_round, order_of, min_int,
}
use complete_dashboard.Chunker.Conserves.{IsValidCall}
use complete_dashboard.Chunker.Totals.{
  quantity_of, within, generate_chunked_orders-keeps_quantity, generate_chunked_orders-within_limit,
}
use complete_dashboard.Tests.Numbers.{whole}

abbrev ce_leg : LegData ℤ
ce_leg = record {
  token = pos 101;
  symbol = "NIFTY";
  option_type = "CE";
  action = "SELL";
  total_lots = pos 15;
  lot_size = pos 75;
  expected_price = pos 120;
  exchange_segment = "NSEFO";
}

abbrev pe_leg : LegData ℤ
pe_leg = record {
  token = pos 102;
  symbol = "NIFTY";
  option_type = "PE";
  action = "SELL";
  total_lots = pos 9;
  lot_size = pos 75;
  expected_price = pos 118;
  exchange_segment = "NSEFO";
}

straddle_valid : IsValidCall ce_leg (pe_leg ∷ []) (pos 1800)
straddle_valid = record {
  max_pos = refl;
  max_fits = omega arith;
  lot_fits = omega arith;
  first_lot_pos = refl;
  legs_valid = ((refl, refl, refl, omega arith), ((refl, refl, refl, omega arith), tt));
}

generate_chunked_orders-keeps_quantity_example :
    (chunks : List (List (ExecOrder ℤ))) × (generate_chunked_orders whole 1700000000 "BUI"
        (ce_leg ∷ pe_leg ∷ [])
        (pos 15)
        (pos 1800)
        (pos 1)
      ≡ ok chunks)
    × (sum_by (sum_by (quantity_of (λ t. pos_part t))) chunks ≡ 15 * (101 * 75) + 9 * (102 * 75))
generate_chunked_orders-keeps_quantity_example =
    generate_chunked_orders-keeps_quantity whole 1700000000 "BUI" ce_leg (pe_leg ∷ []) (pos 15)
      (pos 1800) (pos 1) straddle_valid (λ t. pos_part t)

generate_chunked_orders-within_limit_example :
    (chunks : List (List (ExecOrder ℤ))) × (generate_chunked_orders whole 1700000000 "BUI"
        (ce_leg ∷ pe_leg ∷ [])
        (pos 15)
        (pos 1800)
        (pos 1)
      ≡ ok chunks)
    × All (All (λ o. within 1800 o ≡ true)) chunks
generate_chunked_orders-within_limit_example =
    generate_chunked_orders-within_limit whole 1700000000 "BUI" ce_leg (pe_leg ∷ []) (pos 15)
      (pos 1800) (pos 1) straddle_valid (omega arith)

-- One lot: a single chunk with one order of each leg, in the order of the legs.
abbrev one_lot : LegData ℤ → LegData ℤ
one_lot leg = record leg { total_lots = pos 1 }

abbrev one_lot_chunks : List (List (ExecOrder ℤ))
one_lot_chunks =
    (record {
      uid = "BUI_5";
      token = pos 101;
      symbol = "NIFTY";
      option_type = "CE";
      action = "SELL";
      quantity = pos 75;
      expected_price = pos 120;
      limit_price = pos 0;
      exchange_segment = "NSEFO";
    }
      ∷ record {
        uid = "BUI_6";
        token = pos 102;
        symbol = "NIFTY";
        option_type = "PE";
        action = "SELL";
        quantity = pos 75;
        expected_price = pos 118;
        limit_price = pos 0;
        exchange_segment = "NSEFO";
      }
      ∷ [])
    ∷ []

one_lot_run :
    generate_chunked_orders whole 5 "BUI"
      (one_lot ce_leg ∷ one_lot pe_leg ∷ [])
      (pos 1)
      (pos 1800)
      (pos 1)
    ≡ ok one_lot_chunks
unfolding generate_chunked_orders all_leg_chunks leg_chunks check_leg chunks_from chunk_orders
    full_orders min_lots_per_order raw_lots max_lots_per_order int64 rest_orders merge_chunks
    keep_chunk interleave max_orders one_round order_of min_int format_nat
one_lot_run = refl
