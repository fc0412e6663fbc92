-- ===== src/MarketData/Startup/Subscribe.antt =====
-- services/market-data-gateway: cmd/main.go, the token file and the subscriptions that main makes of
-- the indices' chains, and Subscribe of internal/socketio/client.go. The goroutines of the indices
-- add to the lists one after the other, in any order.
pub mod Covers
use complete_dashboard.Prelude.{
  ℕ, zero, suc, ◌+◌, ◌-◌, String, ◌||◌, Option, none, some, List, [], ◌∷◌, ◌++◌, length,
  if◌then◌else◌, ◌==◌, ltb,
}
use complete_dashboard.Prelude.Int.{ℤ, pos, eqb_ℤ}
use complete_dashboard.MarketData.Chains.{StrikeRow, OptionChain, Config}

pub record Instrument : Type 0 where
  pub exchange_segment : ℕ
  pub token : ℤ

-- The fields of a line; the strike of an index is 0.
pub record CsvLine (F : Type 0) : Type 0 where
  pub token : ℤ
  pub symbol : String
  pub strike : Option F
  pub kind : String

-- csvLines without the heading, foInstruments and cashInstruments
pub record Prepared (F : Type 0) : Type 0 where
  pub csv_lines : List (CsvLine F)
  pub fo_instruments : List Instrument
  pub cash_instruments : List Instrument

-- An index with its settings and the chain that was built for it.
pub record Index (F : Type 0) : Type 0 where
  pub symbol : String
  pub cfg : Config F
  pub chain : Option (OptionChain F)

module _ {F : Type 0} where
  unfoldable pub nothing_prepared : Prepared F
  nothing_prepared = record { csv_lines = []; fo_instruments = []; cash_instruments = [] }

  abbrev pub add_option : String → ℕ → F → String → ℤ → Prepared F → Prepared F
  add_option symbol segment strike kind token p = if eqb_ℤ token (pos 0) then p else record p {
    csv_lines =
        p.csv_lines
        ++ record { token = token; symbol = symbol; strike = some strike; kind = kind } ∷ [];
    fo_instruments = p.fo_instruments ++ record { exchange_segment = segment; token = token } ∷ [];
  }

  unfoldable add_rows : String → ℕ → List (StrikeRow F) → Prepared F → Prepared F
  add_rows symbol segment [] p = p
  add_rows symbol segment (row ∷ rows) p = add_rows symbol segment rows (
      add_option symbol segment row.strike "PE" row.pe_token
        (add_option symbol segment row.strike "CE" row.ce_token p))

  abbrev add_cash : Index F → Prepared F → Prepared F
  add_cash i p = record p {
    csv_lines =
        p.csv_lines
        ++ record { token = i.cfg.cash_token; symbol = i.symbol; strike = none; kind = "SPOT" }
          ∷ [];
    cash_instruments =
        p.cash_instruments
        ++ record { exchange_segment = i.cfg.cash_segment; token = i.cfg.cash_token } ∷ [];
  }

  abbrev add_chain : Index F → Option (OptionChain F) → Prepared F → Prepared F
  add_chain i none p = p
  add_chain i (some chain) p = add_cash i (add_rows i.symbol chain.exchange_seg chain.strikes p)

  unfoldable pub prepare : List (Index F) → Prepared F → Prepared F
  unfolding add_rows
  prepare [] p = p
  prepare (i ∷ indices) p = prepare indices (add_chain i i.chain p)

-- l[lo:hi] of a list from its place `lo` on
unfoldable pub take : {A : Type 0} → ℕ → List A → List A
take zero l = []
take (suc n) [] = []
take (suc n) (x ∷ l) = x ∷ take n l

unfoldable pub drop : {A : Type 0} → ℕ → List A → List A
drop zero l = l
drop (suc n) [] = []
drop (suc n) (x ∷ l) = drop n l

pub record Subscription : Type 0 where
  pub instruments : List Instrument
  pub message_code : ℕ

-- XTSClient.Subscribe on a live connection: what is sent
unfoldable pub subscribe : List Instrument → ℕ → List Subscription
subscribe instruments code =
    if ((code == 1510) || (code == 1502)) || (code == 1501)
    then []
    else record { instruments = instruments; message_code = code } ∷ []

abbrev pub chunk_end : ℕ → ℕ → ℕ
chunk_end i n = if ltb n (i + 45) then n else i + 45

-- for i := 0; i < len(foInstruments); i += 45
unfoldable pub subscribe_chunks : ℕ → List Instrument → ℕ → List Subscription
unfolding take drop subscribe
subscribe_chunks zero fo i = []
subscribe_chunks (suc fuel) fo i =
    let rest = subscribe_chunks fuel fo (i + 45) in
    if ltb i (length fo)
    then subscribe (take (chunk_end i (length fo) - i) (drop i fo)) 1512 ++ rest
    else []

-- One round of the reconnecting loop.
unfoldable pub subscribe_all : {F : Type 0} → Prepared F → List Subscription
unfolding subscribe_chunks
subscribe_all p =
    subscribe_chunks (length p.fo_instruments + 1) p.fo_instruments 0
    ++ (elim p.cash_instruments [ [] ↦ [] | c ∷ l ↦ subscribe (c ∷ l) 1510 ])
