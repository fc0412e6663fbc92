-- ===== src/Tests/SnapshotRuns.antt =====
-- Runs of the snapshot service.
use complete_dashboard.Prelude.{
  ℕ, arith, true, Bool, Option, some, ap, sym, to_upper, trim_space, contains, All, not, ◌==◌, ◌≡◌,
  refl, String, false, none, List, [], ◌∷◌, GoMap, Entry, trim_prefix,
}
use complete_dashboard.Prelude.Int.{ℤ, pos}
use complete_dashboard.Prelude.Json.{last, get_member}
use complete_dashboard.Snapshots.Dates.{midnight, parse_snapshot_expiry_date}
use complete_dashboard.Snapshots.Cache.{
  ChainData, ChainCacheEntry, cached, normalize_symbol, cache_key, message_chain, option_chain,
}
use complete_dashboard.Snapshots.Nearest.{IsNearest, option_chain-IsNearest}
use complete_dashboard.Snapshots.Latest.{
  HasPlainSymbol, Receipt, cache_after, latest, option_chain-latest,
}
use complete_dashboard.Snapshots.Hub.{
  has, HubEvent, register, unregister, broadcast, hub_run, new_hub,
}
use complete_dashboard.Snapshots.Hub.Clients.{IsRanged, Once, seen, client_run, hub_run-client_run}
use complete_dashboard.Tests.Numbers.{whole}
use complete_dashboard.Tests.Fixtures.{message_text}

abbrev chain_for : String → ChainData ℤ
chain_for expiry = record {
  symbol = "NIFTY";
  expiry = expiry;
  future_ltp = pos 24000;
  synthetic_future = pos 24010;
  atm = pos 24000;
  available_expiries = last;
  chain = last;
}

abbrev entry_for : String → Entry (ChainCacheEntry ℤ)
entry_for expiry = record {
  key = cache_key "NIFTY" expiry;
  value = record { payload = chain_for expiry; last_updated = 7 };
}

abbrev cache : GoMap (ChainCacheEntry ℤ)
cache = entry_for "24DEC29" ∷ entry_for "28JUL26" ∷ entry_for "30JUN26" ∷ []

nearest_run :
    option_chain (midnight 2026 7 1) cache "/api/option-chain/nifty" ""
    ≡ cached 7 (chain_for "28JUL26")
unfolding option_chain parse_snapshot_expiry_date
nearest_run = refl

option_chain-IsNearest_example :
    IsNearest
      (midnight 2026 7 1)
      (normalize_symbol (trim_prefix "/api/option-chain/nifty" "/api/option-chain/"))
      cache
      (option_chain (midnight 2026 7 1) cache "/api/option-chain/nifty" "")
option_chain-IsNearest_example =
    option_chain-IsNearest (midnight 2026 7 1) cache "/api/option-chain/nifty"

abbrev receipts : List Receipt
receipts = record { at = 9; message = "28JUL26" } ∷ record { at = 5; message = "24DEC29" } ∷ []

abbrev bar_in : Option (ChainData ℤ) → Bool
bar_in none = false
bar_in (some d) = contains d.symbol "|"

plain_symbols : All (HasPlainSymbol whole message_text (λ d. none)) receipts
unfolding contains message_chain get_member to_upper trim_space
plain_symbols = ((λ d h. ap bar_in (sym h)), ((λ d h. ap bar_in (sym h)), tt))

no_bar :
    contains (normalize_symbol (trim_prefix "/api/option-chain/NIFTY" "/api/option-chain/")) "|"
    ≡ false
unfolding contains normalize_symbol trim_prefix to_upper trim_space
no_bar = refl

option_chain-latest_example :
    option_chain
      (midnight 2026 7 1)
      (cache_after whole message_text (λ d. none) receipts)
      "/api/option-chain/NIFTY"
      "24DEC29"
    ≡ latest whole message_text
        (λ d. none)
        receipts
        (normalize_symbol (trim_prefix "/api/option-chain/NIFTY" "/api/option-chain/"))
        "24DEC29"
option_chain-latest_example =
    option_chain-latest whole message_text (λ d. none) (midnight 2026 7 1) receipts
      "/api/option-chain/NIFTY" "24DEC29" plain_symbols no_bar refl

-- The runtime meets the second client before the first one.
abbrev second_first : List ℕ → List ℕ
second_first [] = []
second_first (x ∷ []) = x ∷ []
second_first (x ∷ y ∷ l) = y ∷ x ∷ l

has-second_first : (l : List ℕ) (c : ℕ) → has (second_first l) c ≡ has l c
has-second_first [] c = refl
has-second_first (x ∷ []) c = refl
has-second_first (x ∷ y ∷ l) c = ground arith

Once-second_first : (l : List ℕ) → Once l → Once (second_first l)
Once-second_first [] h = h
Once-second_first (x ∷ []) h = h
Once-second_first (x ∷ y ∷ l) (h, (k, r)) = (ground (arith, h, k), (ground (arith, h, k), r))

-- The second client does not take the second message.
abbrev events : List HubEvent
events =
    register 1
    ∷ register 2
    ∷ broadcast (λ c. true) second_first "tick"
    ∷ unregister 1
    ∷ broadcast (λ c. not (c == 2)) (λ l. l) "tick"
    ∷ []

events-IsRanged : All IsRanged events
events-IsRanged =
    (tt, (tt, ((has-second_first, Once-second_first), (tt, ((λ l c. refl, λ l h. h), tt)))))

hub_run-client_run_example :
    seen (hub_run new_hub events) 2 ≡ client_run 2 (record { on = false; got = [] }) events
hub_run-client_run_example = hub_run-client_run events 2 events-IsRanged
