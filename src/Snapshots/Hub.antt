-- ===== src/Snapshots/Hub.antt =====
-- services/snapshot-service/cmd/main.go: Hub and its loop. A client is the number of its connection.
-- The loop is a function of the list of what it receives on its three channels.
pub mod Clients
use complete_dashboard.Prelude.{
  ℕ, ◌≡◌, refl, String, Bool, true, false, not, ◌||◌, List, [], ◌∷◌, ◌++◌, ◌==◌, if◌then◌else◌,
  arith,
}

pub record Sent : Type 0 where
  pub client : ℕ
  pub message : String

-- The clients, and with them the messages that were written and the connections that were closed.
pub record Hub : Type 0 where
  pub clients : List ℕ
  pub sent : List Sent
  pub closed : List ℕ

-- A broadcast comes with what its writes meet: which clients take the message, and the order in which
-- the range over the map meets them.
pub data HubEvent : Type 0 where
  register unregister : ℕ → HubEvent
  broadcast : (ℕ → Bool) → (List ℕ → List ℕ) → String → HubEvent

abbrev pub has : List ℕ → ℕ → Bool
has [] c = false
has (x ∷ l) c = (x == c) || has l c

-- delete(h.clients, c)
abbrev pub drop_client : List ℕ → ℕ → List ℕ
drop_client [] c = []
drop_client (x ∷ l) c = let rest = drop_client l c in if x == c then rest else x ∷ rest

unfoldable pub new_hub : Hub
new_hub = record { clients = []; sent = []; closed = [] }

-- for client := range h.clients; `takes c` tells whether the write to client c succeeds.
abbrev pub delivered : (ℕ → Bool) → Hub → String → List ℕ → Hub
delivered takes h m [] = h
delivered takes h m (c ∷ clients) =
    delivered takes
      (if takes c
        then record h { sent = h.sent ++ record { client = c; message = m } ∷ [] }
        else record h { clients = drop_client h.clients c; closed = h.closed ++ c ∷ [] })
      m clients

unfoldable pub hub_step : Hub → HubEvent → Hub
hub_step h (register c) = if has h.clients c then h else record h { clients = h.clients ++ c ∷ [] }
hub_step h (unregister c) =
    if has h.clients c
    then record h { clients = drop_client h.clients c; closed = h.closed ++ c ∷ [] }
    else h
hub_step h (broadcast takes range m) = delivered takes h m (range h.clients)

unfoldable pub hub_run : Hub → List HubEvent → Hub
unfolding hub_step
hub_run h [] = h
hub_run h (e ∷ events) = hub_run (hub_step h e) events
