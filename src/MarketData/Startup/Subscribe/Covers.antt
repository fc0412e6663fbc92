-- ===== src/MarketData/Startup/Subscribe/Covers.antt =====
-- services/market-data-gateway: what is subscribed, beside what the token file lists.
use complete_dashboard.Prelude.{
  ℕ, zero, suc, ◌+◌, ◌-◌, ◌≤◌, ◌<◌, ◌≡◌, refl, ap, ◌∙◌, sym, Option, none, some, List, [], ◌∷◌,
  ◌++◌, map, length, All, ltb, arith, append_assoc, append-nil, Bool-cases, inl, inr, String,
}
use complete_dashboard.Prelude.Int.{ℤ, pos, eqb_ℤ}
use complete_dashboard.MarketData.Chains.{StrikeRow, OptionChain}
use complete_dashboard.MarketData.Startup.Subscribe.{
  Instrument, CsvLine, Prepared, Index, nothing_prepared, add_option, add_rows, add_chain, prepare,
  take, drop, Subscription, subscribe, chunk_end, subscribe_chunks, subscribe_all,
}

module _ {A : Type 0} where
  take-all : (n : ℕ) (l : List A) → length l ≤ n → take n l ≡ l
  unfolding take
  take-all zero [] h = refl
  take-all zero (x ∷ l) h = absurd (omega arith)
  take-all (suc n) [] h = refl
  take-all (suc n) (x ∷ l) h = ap (λ r. x ∷ r) (take-all n l (omega arith))

  drop-past : (n : ℕ) (l : List A) → length l ≤ n → drop n l ≡ []
  unfolding drop
  drop-past zero [] h = refl
  drop-past zero (x ∷ l) h = absurd (omega arith)
  drop-past (suc n) [] h = refl
  drop-past (suc n) (x ∷ l) h = drop-past n l (omega arith)

  split_at : (n : ℕ) (l : List A) → take n l ++ drop n l ≡ l
  unfolding take drop
  split_at zero l = refl
  split_at (suc n) [] = refl
  split_at (suc n) (x ∷ l) = ap (λ r. x ∷ r) (split_at n l)

  take-drop : (i n : ℕ) (l : List A) → take n (drop i l) ++ drop (i + n) l ≡ drop i l
  unfolding drop
  take-drop i n [] =
      rw (drop-past i [] (omega arith), drop-past (i + n) [] (omega arith))
        (append-nil (take n []) ∙ take-all n [] (omega arith))
  take-drop zero n (x ∷ l) = let same : 0 + n ≡ n = omega arith in rw same (split_at n (x ∷ l))
  take-drop (suc i) n (x ∷ l) =
      let same : suc i + n ≡ suc (i + n) = omega arith in rw same (take-drop i n l)

  length-take : (n : ℕ) (l : List A) → n ≤ length l → length (take n l) ≡ n
  unfolding take
  length-take zero l h = refl
  length-take (suc n) [] h = absurd (omega arith)
  length-take (suc n) (x ∷ l) h = omega (arith, length-take n l)

  length-drop : (n : ℕ) (l : List A) → length (drop n l) ≡ length l - n
  unfolding drop
  length-drop zero l = omega arith
  length-drop (suc n) [] = omega arith
  length-drop (suc n) (x ∷ l) = omega (arith, length-drop n l)

-- The instruments of subscriptions, in order.
abbrev pub sent : List Subscription → List Instrument
sent [] = []
sent (s ∷ l) = s.instruments ++ sent l

abbrev pub IsChunk : Subscription → Type 0
IsChunk s = (s.message_code ≡ 1512) × (1 ≤ length s.instruments) × (length s.instruments ≤ 45)

sent-append : (a b : List Subscription) → sent (a ++ b) ≡ sent a ++ sent b
sent-append [] b = refl
sent-append (s ∷ a) b =
    ap (λ r. s.instruments ++ r) (sent-append a b)
    ∙ sym (append_assoc s.instruments (sent a) (sent b))

-- One slice and what follows it.
one_chunk :
    (fo : List Instrument) (i : ℕ)
    → i < length fo
    → take (chunk_end i (length fo) - i) (drop i fo) ++ drop (i + 45) fo ≡ drop i fo
one_chunk fo i h = elim (Bool-cases (ltb (length fo) (i + 45))) [
  | inl short ↦
      rw
        (
          short,
          drop-past (i + 45) fo (ground (arith, short)),
          append-nil (take (length fo - i) (drop i fo)),
        )
        (take-all (length fo - i) (drop i fo) (omega (arith, length-drop i fo)))
  | inr full ↦ let n : (i + 45) - i ≡ 45 = omega arith in rw (full, n) (take-drop i 45 fo)
]

slice-IsChunk :
    (fo : List Instrument) (i : ℕ)
    → i < length fo
    → IsChunk (record {
      instruments = take (chunk_end i (length fo) - i) (drop i fo);
      message_code = 1512;
    })
slice-IsChunk fo i h =
    let len =
      length-take (chunk_end i (length fo) - i) (drop i fo) (ground (arith, length-drop i fo)) in
    (refl, ground (arith, len), ground (arith, len))

subscribe_chunks-covers :
    (fuel : ℕ) (fo : List Instrument) (i : ℕ)
    → length fo < i + fuel
    → (sent (subscribe_chunks fuel fo i) ≡ drop i fo) × All IsChunk (subscribe_chunks fuel fo i)
unfolding subscribe_chunks
subscribe_chunks-covers zero fo i h = (sym (drop-past i fo (omega arith)), tt)
subscribe_chunks-covers (suc fuel) fo i h = elim (Bool-cases (ltb i (length fo))) [
  | inl more ↦
      let rest = subscribe_chunks-covers fuel fo (i + 45) (omega arith) in
      rw (more, rest.0)
        (one_chunk fo i (ground (arith, more)), (slice-IsChunk fo i (ground (arith, more)), rest.1))
  | inr done ↦ rw done (sym (drop-past i fo (ground (arith, done))), tt)
]

abbrev pub tokens : List Instrument → List ℤ
tokens l = map (λ i. i.token) l

tokens-append :
    (l : List Instrument) (i : Instrument) → tokens (l ++ i ∷ []) ≡ tokens l ++ i.token ∷ []
tokens-append [] i = refl
tokens-append (x ∷ l) i = ap (λ r. x.token ∷ r) (tokens-append l i)

no_cash : (l : List Instrument) → elim l [ [] ↦ [] | c ∷ cash ↦ subscribe (c ∷ cash) 1510 ] ≡ []
unfolding subscribe
no_cash [] = refl
no_cash (c ∷ l) = refl

module _ {F : Type 0} where
  -- The tokens of the lines that tell of an option.
  abbrev line_tokens : ℤ → Option F → List ℤ → List ℤ
  line_tokens t none l = l
  line_tokens t (some strike) l = t ∷ l

  abbrev pub option_tokens : List (CsvLine F) → List ℤ
  option_tokens [] = []
  option_tokens (line ∷ lines) = line_tokens line.token line.strike (option_tokens lines)

  option_tokens-append :
      (lines : List (CsvLine F)) (t : ℤ) (symbol kind : String) (strike : Option F)
      → option_tokens
          (lines ++ record { token = t; symbol = symbol; strike = strike; kind = kind } ∷ [])
        ≡ option_tokens lines ++ line_tokens t strike []
  option_tokens-append [] t symbol kind strike = refl
  option_tokens-append (l ∷ lines) t symbol kind strike =
      after l.token l.strike (option_tokens lines) (line_tokens t strike [])
        (option_tokens-append lines t symbol kind strike)
    where
      after :
          (u : ℤ) (s : Option F) {xs : List ℤ} (ys zs : List ℤ)
          → xs ≡ ys ++ zs
          → line_tokens u s xs ≡ line_tokens u s ys ++ zs
      after u none ys zs h = h
      after u (some s) ys zs h = ap (λ r. u ∷ r) h

  -- What is to be subscribed are the options that the file lists.
  abbrev IsListed : Prepared F → Type 0
  IsListed p = tokens p.fo_instruments ≡ option_tokens p.csv_lines

  add_option-IsListed :
      (symbol : String) (segment : ℕ) (strike : F) (kind : String) (t : ℤ) (p : Prepared F)
      → IsListed p
      → IsListed (add_option symbol segment strike kind t p)
  add_option-IsListed symbol segment strike kind t p h = elim (Bool-cases (eqb_ℤ t (pos 0))) [
    | inl zero_token ↦ rw zero_token h
    | inr real ↦
        rw
          (
            real,
            tokens-append p.fo_instruments (record { exchange_segment = segment; token = t }),
            option_tokens-append p.csv_lines t symbol kind (some strike),
            h,
          )
          refl
  ]

  add_rows-IsListed :
      (symbol : String) (segment : ℕ) (rows : List (StrikeRow F)) (p : Prepared F)
      → IsListed p
      → IsListed (add_rows symbol segment rows p)
  unfolding add_rows
  add_rows-IsListed symbol segment [] p h = h
  add_rows-IsListed symbol segment (row ∷ rows) p h =
      let with_call = add_option symbol segment row.strike "CE" row.ce_token p in
      add_rows-IsListed symbol segment rows
        (add_option symbol segment row.strike "PE" row.pe_token with_call)
        (add_option-IsListed symbol segment row.strike "PE" row.pe_token with_call
          (add_option-IsListed symbol segment row.strike "CE" row.ce_token p h))

  add_chain-IsListed :
      (i : Index F) (chain : Option (OptionChain F)) (p : Prepared F)
      → IsListed p
      → IsListed (add_chain i chain p)
  add_chain-IsListed i none p h = h
  add_chain-IsListed i (some chain) p h =
      let q = add_rows i.symbol chain.exchange_seg chain.strikes p in
      add_rows-IsListed i.symbol chain.exchange_seg chain.strikes p h
      ∙ sym (
          option_tokens-append q.csv_lines i.cfg.cash_token i.symbol "SPOT" none
          ∙ append-nil (option_tokens q.csv_lines))

  prepare-IsListed :
      (indices : List (Index F)) (p : Prepared F) → IsListed p → IsListed (prepare indices p)
  unfolding prepare
  prepare-IsListed [] p h = h
  prepare-IsListed (i ∷ indices) p h =
      prepare-IsListed indices (add_chain i i.chain p) (add_chain-IsListed i i.chain p h)

  -- Whatever chains were built and in whatever order the indices came: each round sends
  -- subscriptions of 1 to 45 instruments with the code 1512, and their tokens are those of the options
  -- that the token file lists, each once and in the file's order. The indices themselves, which the
  -- file lists too, are never subscribed.
  pub subscribe_all-covers :
      (indices : List (Index F))
      → (tokens (sent (subscribe_all (prepare indices nothing_prepared)))
          ≡ option_tokens (prepare indices nothing_prepared).csv_lines)
        × All IsChunk (subscribe_all (prepare indices nothing_prepared))
  unfolding subscribe_all drop nothing_prepared
  subscribe_all-covers indices =
      let p = prepare indices nothing_prepared in
      let fo = p.fo_instruments in
      let chunks = subscribe_chunks (length fo + 1) fo 0 in
      let covers = subscribe_chunks-covers (length fo + 1) fo 0 (omega arith) in
      rw (no_cash p.cash_instruments, append-nil chunks)
        (ap tokens covers.0 ∙ prepare-IsListed indices nothing_prepared refl, covers.1)
