-- ===== src/Snapshots/Cache.antt =====
-- services/snapshot-service/cmd/main.go: the cache of option chains, which the loop over the
-- decoder's messages writes and the handler of /api/option-chain/ reads.
use complete_dashboard.Prelude.{
  ℕ, String, Option, none, some, List, [], ◌∷◌, Entry, GoMap, find, put, if◌then◌else◌, str_eq,
  ◌+s◌, to_upper, trim_space, after_prefix, trim_prefix,
}
use complete_dashboard.Prelude.Float.{Float64}
use complete_dashboard.Prelude.Json.{
  Json, Items, Members, JsonText, get_member, num, str, arr, obj, last,
}
use complete_dashboard.Snapshots.Dates.{Date, is_before, parse_snapshot_expiry_date}

unfoldable pub normalize_symbol : String → String
normalize_symbol s = to_upper (trim_space s)

-- The map under "data" of the payload, and with it the two keys beside it.
pub record ChainData (F : Type 0) : Type 0 where
  pub symbol : String
  pub expiry : String
  pub future_ltp : F
  pub synthetic_future : F
  pub atm : F
  pub available_expiries : Items F
  pub chain : Items F

pub record ChainCacheEntry (F : Type 0) : Type 0 where
  pub payload : ChainData F
  pub last_updated : ℕ

-- What the handler writes: the data of an entry and when it was cached, or that there is none.
pub data ChainAnswer (F : Type 0) : Type 0 where
  cached : ℕ → ChainData F → ChainAnswer F
  not_built : ChainAnswer F

abbrev pub cache_key : String → String → String
cache_key symbol expiry = symbol +s "|" +s expiry

-- nearestEntry with nearestExpiryDate
abbrev pub Best : Type 0 → Type 0
Best F = Option (ChainCacheEntry F × Date)

module _ {F : Type 0} where
  -- A type assertion, with the zero value where it fails.
  abbrev text_of : Option (Json F) → String
  text_of (some (str s)) = s
  text_of v = ""

  abbrev number_of : F → Option (Json F) → F
  number_of d (some (num x)) = x
  number_of d v = d

  abbrev array_of : Option (Json F) → Items F
  array_of (some (arr l)) = l
  array_of v = last

  unfoldable pub store_chain :
      ℕ → ChainData F → GoMap (ChainCacheEntry F) → GoMap (ChainCacheEntry F)
  store_chain now d cache =
      put cache (cache_key d.symbol d.expiry) (record { payload = d; last_updated = now })

  -- The date of an entry of the symbol that has not passed.
  unfoldable pub live_date : Date → String → Entry (ChainCacheEntry F) → Option Date
  unfolding after_prefix
  live_date today symbol e = elim (after_prefix e.key (symbol +s "|")) [
    | none ↦ none
    | some expiry ↦ elim (parse_snapshot_expiry_date (trim_space expiry)) [
      | none ↦ none
      | some d ↦ if is_before d today then none else some d
    ]
  ]

  abbrev pub closer : ChainCacheEntry F → Date → Best F → Best F
  closer entry d none = some (entry, d)
  closer entry d (some (b, e)) = if is_before d e then some (entry, d) else some (b, e)

  abbrev pub nearer : ChainCacheEntry F → Option Date → Best F → Best F
  nearer entry none best = best
  nearer entry (some d) best = closer entry d best

  unfoldable pub nearest : Date → String → GoMap (ChainCacheEntry F) → Best F → Best F
  unfolding live_date
  nearest today symbol [] best = best
  nearest today symbol (e ∷ cache) best =
      nearest today symbol cache (nearer e.value (live_date today symbol e) best)

  abbrev pub best_entry : Best F → Option (ChainCacheEntry F)
  best_entry none = none
  best_entry (some (e, d)) = some e

  abbrev pub answer : Option (ChainCacheEntry F) → ChainAnswer F
  answer none = not_built
  answer (some e) = cached e.last_updated e.payload

  unfoldable pub option_chain : Date → GoMap (ChainCacheEntry F) → String → String → ChainAnswer F
  unfolding normalize_symbol nearest trim_prefix
  option_chain today cache path expiry =
      let symbol = normalize_symbol (trim_prefix path "/api/option-chain/") in
      if str_eq expiry ""
      then answer (best_entry (nearest today symbol cache none))
      else answer (find cache (cache_key symbol expiry))

-- `marshal_update` is json.Marshal of the payload for the web sockets.
module _ (fl : Float64) (text : JsonText fl.F)
    (marshal_update : ChainData fl.F → Option String) where
  -- The first of the members that is a number and not 0; `x` is the number so far.
  abbrev or_number : fl.F → Option (Json fl.F) → fl.F
  or_number x v = if fl.feq x (fl.lit 0 0) then number_of x v else x

  unfoldable pub chain_data : Members fl.F → Items fl.F → ChainData fl.F
  unfolding normalize_symbol
  chain_data raw chain =
      let zero_ltp = number_of (fl.lit 0 0) (get_member raw "future_ltp") in
      let zero_synthetic = number_of (fl.lit 0 0) (get_member raw "synthetic_future") in
      record {
        symbol = normalize_symbol (text_of (get_member raw "symbol"));
        expiry = text_of (get_member raw "expiry");
        future_ltp =
            or_number (or_number zero_ltp (get_member raw "fut_ltp")) (get_member raw "spot");
        synthetic_future = or_number zero_synthetic (get_member raw "synthetic_spot");
        atm = number_of (fl.lit 0 0) (get_member raw "atm");
        available_expiries = array_of (get_member raw "available_expiries");
        chain = chain;
      }

  abbrev outgoing : Option String → List String
  outgoing none = []
  outgoing (some s) = s ∷ []

  -- The chain of a message, if it is an object that holds one.
  unfoldable pub message_chain : Option (Json fl.F) → Option (ChainData fl.F)
  unfolding chain_data
  message_chain (some (obj raw)) = elim (get_member raw "chain") [
    | some (arr chain) ↦ some (chain_data raw chain)
    | _ ↦ none
  ]
  message_chain v = none

  abbrev pub received :
      ℕ
      → Option (ChainData fl.F)
      → GoMap (ChainCacheEntry fl.F)
      → GoMap (ChainCacheEntry fl.F) × List String
  received now none cache = (cache, [])
  received now (some d) cache = (store_chain now d cache, outgoing (marshal_update d))

  -- One round of the loop: the cache, and what is broadcast.
  unfoldable pub receive :
      ℕ → String → GoMap (ChainCacheEntry fl.F) → GoMap (ChainCacheEntry fl.F) × List String
  unfolding message_chain store_chain
  receive now message cache = received now (message_chain (text.unmarshal message)) cache
