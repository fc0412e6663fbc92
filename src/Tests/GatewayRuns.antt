-- ===== src/Tests/GatewayRuns.antt =====
-- Runs of the market data gateway.
use complete_dashboard.Prelude.{
  ◌≡◌, refl, ap, ℕ, ◌+◌, ◌-◌, ◌*◌, ◌≤◌, some, [], ◌∷◌, ok, err, All, arith, len, leb,
}
use complete_dashboard.Prelude.Int.{ℤ, pos, ◌+ℤ◌, ◌-ℤ◌, ◌*ℤ◌}
use complete_dashboard.Prelude.Json.{str}
use complete_dashboard.MarketData.Expiries.{
  get_active_expiries, IsActive, get_active_expiries-IsActive,
}
use complete_dashboard.MarketData.Chains.{ChainApi, config, symbol_config, build_chain}
use complete_dashboard.MarketData.Chains.Strikes.{IsExact, chain_of, rows_from, build_chain-rows}
use complete_dashboard.MarketData.Startup.Subscribe.{
  Index, nothing_prepared, prepare, subscribe_all,
}
use complete_dashboard.MarketData.Startup.Subscribe.Covers.{
  IsChunk, sent, tokens, option_tokens, subscribe_all-covers,
}
use complete_dashboard.Tests.Numbers.{whole}

get_active_expiries-IsActive_example :
    IsActive
      (λ s. some (len s))
      (λ d. "")
      3
      ("2026-07-28T14:30" ∷ "26T" ∷ [])
      (get_active_expiries (λ s. some (len s)) (λ d. "") 3 (ok ("2026-07-28T14:30" ∷ "26T" ∷ [])))
get_active_expiries-IsActive_example =
    get_active_expiries-IsActive (λ s. some (len s)) (λ d. "") 3 ("2026-07-28T14:30" ∷ "26T" ∷ [])

whole_lit : (m : ℕ) → whole.lit m 0 ≡ pos m
whole_lit m = ap pos (omega arith)

whole_add : (a b : ℕ) → pos a +ℤ pos b ≡ pos (a + b)
unfolding ◌+ℤ◌
whole_add a b = ground arith

whole_sub : (a b : ℕ) → b ≤ a → pos a -ℤ pos b ≡ pos (a - b)
unfolding ◌-ℤ◌
whole_sub a b h = ground arith

whole_mul : (a b : ℕ) → pos a *ℤ pos b ≡ pos (a * b)
unfolding ◌*ℤ◌
whole_mul a b = ground arith

whole_fle : (a b : ℕ) → whole.fle (pos a) (pos b) ≡ leb a b
whole_fle a b = ground arith

abbrev whole_exact : IsExact whole
whole_exact = record {
  lit_exact = λ m h. whole_lit m;
  add_exact = λ a b h. whole_add a b;
  sub_exact = λ a b le h. whole_sub a b le;
  mul_exact = λ a b h. whole_mul a b;
  fle_exact = λ a b h k. whole_fle a b;
}

abbrev no_symbols : ChainApi ℤ
no_symbols = record {
  get = λ path params. ok "";
  unmarshal_expiries = λ body. err "no JSON";
  unmarshal_symbols = λ body. ok (record { description = ""; result = str "101" ∷ [] });
  print_whole = λ x. "";
}

build_chain-rows_example :
    build_chain whole no_symbols 6 "NIFTY" "28Jul2026" (pos 24000) 2
    ≡ some (
        ok (
          chain_of whole whole_exact no_symbols
            (config whole 2 1 26000 50 "OPTIDX")
            "NIFTY"
            "28Jul2026"
            (rows_from whole whole_exact no_symbols
              (config whole 2 1 26000 50 "OPTIDX")
              "NIFTY"
              "28Jul2026"
              50
              5
              23900)))
unfolding symbol_config
build_chain-rows_example =
    build_chain-rows whole whole_exact no_symbols "NIFTY" "28Jul2026" "OPTIDX" 2 1 26000 50 24000 2
      6 refl (omega arith) (omega arith) (omega arith) (omega arith)

abbrev index : Index ℤ
index = record {
  symbol = "NIFTY";
  cfg = config whole 2 1 26000 50 "OPTIDX";
  chain = some (record {
    symbol = "NIFTY";
    expiry = "28Jul2026";
    cash_token = pos 26000;
    exchange_seg = 2;
    strikes =
        record { strike = pos 24000; ce_token = pos 101; pe_token = pos 0 }
        ∷ record { strike = pos 24050; ce_token = pos 103; pe_token = pos 104 }
        ∷ [];
  });
}

subscribe_all-covers_example :
    (tokens (sent (subscribe_all (prepare (index ∷ []) nothing_prepared)))
      ≡ option_tokens (prepare (index ∷ []) nothing_prepared).csv_lines)
    × All IsChunk (subscribe_all (prepare (index ∷ []) nothing_prepared))
subscribe_all-covers_example = subscribe_all-covers (index ∷ [])
