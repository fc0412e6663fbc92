-- ===== src/Tests/ServiceRuns.antt =====
-- Runs of the correlation manager, the router, the broker registry and the session manager, with
-- numbers for clients, intents and sessions.
use complete_dashboard.Prelude.{
  ℕ, ◌≡◌, ◌⊎◌, refl, true, String, some, [], ◌∷◌, Result, ok, err, str_eq, find, put,
}
use complete_dashboard.Correlation.{
  new_manager, link, get_order_id, get_intent_id, IsPaired, link-get,
}
use complete_dashboard.BrokerRegistry.{
  Registry, no_primary_set, new_registry, store_client, get_primary_broker, here, then_step,
  client_stored, get_primary_broker-found,
}
use complete_dashboard.SessionManager
use complete_dashboard.SessionManager.{login, get_session, expected}

link-get_example :
    (get_order_id (link new_manager "I" "O") "J" ≡ get_order_id new_manager "J")
    × (get_intent_id (link new_manager "I" "O") "O" ≡ some "I")
link-get_example = link-get new_manager "I" "O" "J" "O"

empty-IsPaired : IsPaired new_manager
unfolding new_manager get_order_id get_intent_id find
empty-IsPaired i o = (λ h. cc, λ h. cc)

-- The client is a number that it adds to the intent, and the account is "A".
abbrev place : ℕ → ℕ → ℕ → Result String ℕ × ℕ
place client intent placed = (ok client, intent)

abbrev one_client : Registry ℕ ℕ
one_client = record {
  factories = [];
  clients = record { key = "XTS"; value = 7 } ∷ [];
  primary = "XTS";
}

one_client_stored : store_client new_registry "XTS" (some 7) ≡ ok one_client
unfolding store_client put
one_client_stored = refl

get_primary_broker-found_example :
    ((str_eq one_client.primary "" ≡ true) × (get_primary_broker one_client ≡ err no_primary_set))
    ⊎ ((c : ℕ) × (find one_client.clients one_client.primary ≡ some c)
        × (get_primary_broker one_client ≡ ok c))
get_primary_broker-found_example =
    get_primary_broker-found (then_step here (client_stored "XTS" (some 7) one_client_stored))

abbrev xts_registry : Registry ℕ ℕ
xts_registry = record {
  factories = record { key = "XTS"; value = λ c. ok c } ∷ [];
  clients = [];
  primary = "";
}

abbrev no_sessions : SessionManager.Manager String ℕ
no_sessions = record { sessions = []; world = 0 }

abbrev log_in : ℕ → String → ℕ → Result String String × ℕ
log_in client account w = (ok "token", w)
