-- ===== src/MarketData/Chains/Strikes.antt =====
-- services/market-data-gateway/internal/chain_fetcher/fetcher.go: the strikes of a chain.
use complete_dashboard.Prelude.{
  ℕ, zero, suc, ◌+◌, ◌-◌, ◌*◌, ◌≤◌, ◌<◌, ◌≡◌, refl, ap, ◌∙◌, String, true, false, some, List, [],
  ◌∷◌, ok, leb, arith,
}
use complete_dashboard.Prelude.Int.{pos}
use complete_dashboard.Prelude.Float.{Float64}
use complete_dashboard.MarketData.Chains.{
  StrikeRow, OptionChain, Config, ChainApi, config, symbol_config, strike_row, strike_rows,
  build_chain,
}

-- Whole numbers below 2 ^ 53 and what is computed of them are exact, as IEEE 754 has it.
pub record IsExact (fl : Float64) : Type 0 where
  pub lit_exact : (m : ℕ) → m < 9007199254740992 → fl.lit m 0 ≡ fl.of_int (pos m)
  pub add_exact :
      (a b : ℕ)
      → a + b < 9007199254740992
      → fl.add (fl.of_int (pos a)) (fl.of_int (pos b)) ≡ fl.of_int (pos (a + b))
  pub sub_exact :
      (a b : ℕ)
      → b ≤ a
      → a < 9007199254740992
      → fl.sub (fl.of_int (pos a)) (fl.of_int (pos b)) ≡ fl.of_int (pos (a - b))
  pub mul_exact :
      (a b : ℕ)
      → a * b < 9007199254740992
      → fl.mul (fl.of_int (pos a)) (fl.of_int (pos b)) ≡ fl.of_int (pos (a * b))
  pub fle_exact :
      (a b : ℕ)
      → a < 9007199254740992
      → b < 9007199254740992
      → fl.fle (fl.of_int (pos a)) (fl.of_int (pos b)) ≡ leb a b

module _ (fl : Float64) (exact : IsExact fl) (api : ChainApi fl.F) where
  -- Rows for `m` strikes at a distance of `gap`.
  abbrev pub rows_from : Config fl.F → String → String → ℕ → ℕ → ℕ → List (StrikeRow fl.F)
  rows_from cfg symbol expiry gap zero s = []
  rows_from cfg symbol expiry gap (suc m) s =
      strike_row fl api cfg symbol expiry (fl.of_int (pos s))
      ∷ rows_from cfg symbol expiry gap m (s + gap)

  strike_rows-exact :
      (cfg : Config fl.F) (symbol expiry : String) (gap m fuel s last : ℕ)
      → cfg.gap ≡ fl.of_int (pos gap)
      → 0 < gap
      → m < fuel
      → s + m * gap ≡ last + gap
      → last + gap < 9007199254740992
      → strike_rows fl api fuel cfg symbol expiry (fl.of_int (pos s)) (fl.of_int (pos last))
        ≡ some (rows_from cfg symbol expiry gap m s)
  unfolding strike_rows
  strike_rows-exact cfg symbol expiry gap m zero s last h g f e b = elim f [ ]
  strike_rows-exact cfg symbol expiry gap zero (suc fuel) s last h g f e b =
      let past : leb s last ≡ false = ground (arith, e, g) in
      rw (exact.fle_exact s last (omega arith) (omega arith), past) refl
  strike_rows-exact cfg symbol expiry gap (suc m) (suc fuel) s last h g f e b =
      let within : s ≤ last = grind arith in
      let reached : leb s last ≡ true = ground (arith, within) in
      let next : (s + gap) + m * gap ≡ last + gap = grind arith in
      let step : fl.add (fl.of_int (pos s)) cfg.gap ≡ fl.of_int (pos (s + gap)) =
        ap (fl.add (fl.of_int (pos s))) h ∙ exact.add_exact s gap (omega arith) in
      rw
        (
          exact.fle_exact s last (omega arith) (omega arith),
          reached,
          step,
          strike_rows-exact cfg symbol expiry gap m fuel (s + gap) last h g (omega arith) next b,
        )
        refl

  abbrev pub chain_of : Config fl.F → String → String → List (StrikeRow fl.F) → OptionChain fl.F
  chain_of cfg symbol expiry rows = record {
    symbol = symbol;
    expiry = expiry;
    cash_token = cfg.cash_token;
    exchange_seg = cfg.segment;
    strikes = rows;
  }

  -- Where whole numbers are exact: the chain of a known symbol around a strike that the range does not
  -- take below 0 is built, and it has the strikes at the symbol's gap from `range` gaps below to
  -- `range` gaps above, each once, in order and with the tokens that are fetched for it. The loop over
  -- the strikes ends after 2 * range + 1 rounds.
  pub build_chain-rows :
      (symbol expiry series : String) (segment cash_segment cash_token gap atm range fuel : ℕ)
      → symbol_config fl symbol ≡ some (config fl segment cash_segment cash_token gap series)
      → 0 < gap
      → range * gap ≤ atm
      → atm + range * gap + gap < 9007199254740992
      → 2 * range + 1 < fuel
      → build_chain fl api fuel symbol expiry (fl.of_int (pos atm)) range ≡ (
          let cfg = config fl segment cash_segment cash_token gap series in
          some (
            ok (
              chain_of cfg symbol expiry
                (rows_from cfg symbol expiry gap (2 * range + 1) (atm - range * gap)))))
  unfolding build_chain
  build_chain-rows symbol expiry series segment cash_segment cash_token gap atm range fuel known h
        lo hi f =
      let cfg = config fl segment cash_segment cash_token gap series in
      let lit : fl.lit gap 0 ≡ fl.of_int (pos gap) = exact.lit_exact gap (omega arith) in
      let reach : fl.mul (fl.of_int (pos range)) (fl.lit gap 0) ≡ fl.of_int (pos (range * gap)) =
        ap (fl.mul (fl.of_int (pos range))) lit ∙ exact.mul_exact range gap (omega arith) in
      rw
        (
          build_chain,
          known,
          reach,
          exact.sub_exact atm (range * gap) lo (omega arith),
          exact.add_exact atm (range * gap) (omega arith),
          strike_rows-exact cfg symbol expiry gap (2 * range + 1) fuel (atm - range * gap)
              (atm + range * gap) lit h f (grind arith) (omega arith),
        )
        refl
