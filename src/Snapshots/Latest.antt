-- ===== src/Snapshots/Latest.antt =====
-- services/snapshot-service/cmd/main.go: what a request that names an expiry gets from a cache that
-- the decoder's messages have filled.
use complete_dashboard.Prelude.{
  ℕ, ◌≡◌, refl, String, Bool, true, false, Option, none, some, List, [], ◌∷◌, GoMap, find, find-put,
  if◌then◌else◌, str_eq, trim_prefix, contains, ◌&&◌, All,
}
use complete_dashboard.Prelude.Float.{Float64}
use complete_dashboard.Prelude.Json.{JsonText}
use complete_dashboard.Snapshots.Dates.{Date}
use complete_dashboard.Snapshots.Keys.{same_key}
use complete_dashboard.Snapshots.Cache.{
  ChainData, ChainCacheEntry, ChainAnswer, cached, not_built, cache_key, answer, normalize_symbol,
  message_chain, received, receive, store_chain, option_chain,
}

-- A message and the time of its receipt.
pub record Receipt : Type 0 where
  pub at : ℕ
  pub message : String

module _ (fl : Float64) (text : JsonText fl.F)
    (marshal_update : ChainData fl.F → Option String) where
  abbrev chain_of : Receipt → Option (ChainData fl.F)
  chain_of r = message_chain fl text marshal_update (text.unmarshal r.message)

  -- The cache after messages, the last one first.
  unfoldable pub cache_after : List Receipt → GoMap (ChainCacheEntry fl.F)
  unfolding receive
  cache_after [] = []
  cache_after (r ∷ before) = (receive fl text marshal_update r.at r.message (cache_after before)).0

  abbrev pub sooner_or :
      ℕ → Option (ChainData fl.F) → String → String → ChainAnswer fl.F → ChainAnswer fl.F
  sooner_or at none symbol expiry before = before
  sooner_or at (some d) symbol expiry before =
      if str_eq d.symbol symbol && str_eq d.expiry expiry then cached at d else before

  -- The chain of the last message with a symbol and an expiry.
  abbrev pub latest : List Receipt → String → String → ChainAnswer fl.F
  latest [] symbol expiry = not_built
  latest (r ∷ before) symbol expiry =
      sooner_or r.at (chain_of r) symbol expiry (latest before symbol expiry)

  -- A message whose symbol has no bar.
  abbrev pub HasPlainSymbol : Receipt → Type 0
  HasPlainSymbol r = (d : ChainData fl.F) → chain_of r ≡ some d → contains d.symbol "|" ≡ false

  if_answer :
      (b : Bool) (e : ChainCacheEntry fl.F) (o : Option (ChainCacheEntry fl.F))
      → answer (if b then some e else o) ≡ (if b then cached e.last_updated e.payload else answer o)
  if_answer true e o = refl
  if_answer false e o = refl

  after_one :
      (at : ℕ) (chain : Option (ChainData fl.F)) (cache : GoMap (ChainCacheEntry fl.F))
      (symbol expiry : String)
      → ((d : ChainData fl.F) → chain ≡ some d → contains d.symbol "|" ≡ false)
      → contains symbol "|" ≡ false
      → answer (find (received fl text marshal_update at chain cache).0 (cache_key symbol expiry))
        ≡ sooner_or at chain symbol expiry (answer (find cache (cache_key symbol expiry)))
  unfolding store_chain
  after_one at none cache symbol expiry p q = refl
  after_one at (some d) cache symbol expiry p q =
      let entry : ChainCacheEntry fl.F = record { payload = d; last_updated = at } in
      let key = cache_key symbol expiry in
      rw
        (
          find-put cache (cache_key d.symbol d.expiry) key entry,
          same_key d.symbol symbol d.expiry expiry (p d refl) q,
        )
        (if_answer (str_eq d.symbol symbol && str_eq d.expiry expiry) entry (find cache key))

  find-cache_after :
      (receipts : List Receipt) (symbol expiry : String)
      → All HasPlainSymbol receipts
      → contains symbol "|" ≡ false
      → answer (find (cache_after receipts) (cache_key symbol expiry))
        ≡ latest receipts symbol expiry
  unfolding cache_after find
  find-cache_after [] symbol expiry p q = refl
  find-cache_after (r ∷ before) symbol expiry (p, ps) q =
      rw
        (
          after_one r.at (chain_of r) (cache_after before) symbol expiry p q,
          find-cache_after before symbol expiry ps q,
        )
        refl

  -- Where no symbol has a bar, a request that names an expiry gets the chain of the last message for
  -- its symbol and expiry, with the time of its receipt, whatever messages came before, between and
  -- after, malformed ones included; and it is told that there is no chain only if no such message
  -- came.
  pub option_chain-latest :
      (today : Date) (receipts : List Receipt) (path expiry : String)
      → All HasPlainSymbol receipts
      → contains (normalize_symbol (trim_prefix path "/api/option-chain/")) "|" ≡ false
      → str_eq expiry "" ≡ false
      → option_chain today (cache_after receipts) path expiry
        ≡ latest receipts (normalize_symbol (trim_prefix path "/api/option-chain/")) expiry
  unfolding option_chain
  option_chain-latest today receipts path expiry p q h = rw h (
      find-cache_after receipts (normalize_symbol (trim_prefix path "/api/option-chain/")) expiry p
        q)
