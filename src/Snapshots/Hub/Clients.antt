-- ===== src/Snapshots/Hub/Clients.antt =====
-- services/snapshot-service/cmd/main.go: the hub as each of its clients sees it.
use complete_dashboard.Prelude.{
  ℕ, ◌≡◌, refl, ap, ◌∙◌, String, Bool, true, false, ◌||◌, List, [], ◌∷◌, ◌++◌, ◌==◌, if◌then◌else◌,
  arith, Bool-cases, append-nil, inl, inr, All,
}
use complete_dashboard.Snapshots.Hub.{
  Hub, HubEvent, register, unregister, broadcast, has, drop_client, delivered, hub_step, hub_run,
  new_hub, Sent,
}

-- The messages that were written to a client, the first one first.
abbrev pub inbox : ℕ → List Sent → List String
inbox c [] = []
inbox c (s ∷ sent) = let rest = inbox c sent in if s.client == c then s.message ∷ rest else rest

-- A client on its own: whether it is connected, and what it was sent.
pub record Connection : Type 0 where
  pub on : Bool
  pub got : List String

abbrev pub seen : Hub → ℕ → Connection
seen h c = record { on = has h.clients c; got = inbox c h.sent }

module _ (c : ℕ) where
  abbrev pub taken : Bool → Bool → String → Connection → Connection
  taken false b m k = k
  taken true true m k = record k { got = k.got ++ m ∷ [] }
  taken true false m k = record k { on = false }

  -- It connects and disconnects by itself, takes each message while it is connected, and is
  -- disconnected by the first message that it does not take.
  abbrev pub client_step : Connection → HubEvent → Connection
  client_step k (register x) = if x == c then record k { on = true } else k
  client_step k (unregister x) = if x == c then record k { on = false } else k
  client_step k (broadcast takes range m) = taken k.on (takes c) m k

  abbrev pub client_run : Connection → List HubEvent → Connection
  client_run k [] = k
  client_run k (e ∷ events) = client_run (client_step k e) events

has-append : (l : List ℕ) (x c : ℕ) → has (l ++ x ∷ []) c ≡ (has l c || (x == c))
has-append [] x c = ground arith
has-append (y ∷ l) x c = ground (arith, has-append l x c)

has-drop_client :
    (l : List ℕ) (x c : ℕ) → has (drop_client l x) c ≡ (if x == c then false else has l c)
has-drop_client [] x c = ground arith
has-drop_client (y ∷ l) x c = ground (arith, has-drop_client l x c)

inbox-append :
    (c : ℕ) (l : List Sent) (s : Sent)
    → inbox c (l ++ s ∷ []) ≡ inbox c l ++ (if s.client == c then s.message ∷ [] else [])
inbox-append c [] s = refl
inbox-append c (y ∷ l) s = ground (arith, inbox-append c l s)

-- No client stands twice.
abbrev pub Once : List ℕ → Type 0
Once [] = Unit
Once (x ∷ l) = (has l x ≡ false) × Once l

Once-append : (l : List ℕ) (x : ℕ) → Once l → has l x ≡ false → Once (l ++ x ∷ [])
Once-append [] x h k = (refl, tt)
Once-append (y ∷ l) x h k =
    (ground (arith, has-append l x y), Once-append l x h.1 (ground (arith, k)))

Once-drop_client : (l : List ℕ) (x : ℕ) → Once l → Once (drop_client l x)
Once-drop_client [] x h = tt
Once-drop_client (y ∷ l) x h = elim (Bool-cases (y == x)) [
  | inl same ↦ rw same (Once-drop_client l x h.1)
  | inr other ↦ rw other (ground (arith, has-drop_client l x y), Once-drop_client l x h.1)
]

module _ (takes : ℕ → Bool) (m : String) where
  abbrev told : ℕ → Bool → Hub → Hub
  told x b h =
      if b
      then record h { sent = h.sent ++ record { client = x; message = m } ∷ [] }
      else record h { clients = drop_client h.clients x; closed = h.closed ++ x ∷ [] }

  has-told :
      (x c : ℕ) (b : Bool) (h : Hub)
      → has (told x b h).clients c
        ≡ (if b then has h.clients c else (if x == c then false else has h.clients c))
  has-told x c true h = refl
  has-told x c false h = has-drop_client h.clients x c

  inbox-told :
      (x c : ℕ) (b : Bool) (h : Hub)
      → inbox c (told x b h).sent
        ≡ inbox c h.sent ++ (if b then (if x == c then m ∷ [] else []) else [])
  inbox-told x c true h = inbox-append c h.sent (record { client = x; message = m })
  inbox-told x c false h = rw (append-nil (inbox c h.sent)) refl

  Once-told : (x : ℕ) (b : Bool) (h : Hub) → Once h.clients → Once (told x b h).clients
  Once-told x true h k = k
  Once-told x false h k = Once-drop_client h.clients x k

  has_later :
      (same wx wc later here : Bool)
      → (same ≡ true → wx ≡ wc)
      → (let then_here = if wx then here else (if same then false else here) in
          if later then (if wc then then_here else false) else then_here)
        ≡ (if same || later then (if wc then here else false) else here)
  has_later true wx wc later here h = ground (arith, h refl)
  has_later false wx wc later here h = ground arith

  has-delivered :
      (h : Hub) (l : List ℕ) (c : ℕ)
      → has (delivered takes h m l).clients c
        ≡ (if has l c then (if takes c then has h.clients c else false) else has h.clients c)
  has-delivered h [] c = refl
  has-delivered h (x ∷ l) c =
      rw (has-delivered (told x (takes x) h) l c, has-told x c (takes x) h)
        (has_later (x == c) (takes x) (takes c) (has l c) (has h.clients c)
          (λ same. ap takes (ground (arith, same))))

  inbox_later :
      (same wx wc later : Bool) (old : List String)
      → (same ≡ true → wx ≡ wc)
      → (same ≡ true → later ≡ false)
      → (old ++ (if wx then (if same then m ∷ [] else []) else []))
          ++ (if later then (if wc then m ∷ [] else []) else [])
        ≡ old ++ (if same || later then (if wc then m ∷ [] else []) else [])
  inbox_later true wx wc later old h k = rw (h refl, k refl, append-nil) (over wc)
    where
      over : (b : Bool) → old ++ (if b then m ∷ [] else []) ≡ old ++ (if b then m ∷ [] else [])
      over b = refl
  inbox_later false true wc later old h k = rw (append-nil old) refl
  inbox_later false false wc later old h k = rw (append-nil old) refl

  inbox-delivered :
      (h : Hub) (l : List ℕ) (c : ℕ)
      → Once l
      → inbox c (delivered takes h m l).sent
        ≡ inbox c h.sent ++ (if has l c then (if takes c then m ∷ [] else []) else [])
  inbox-delivered h [] c k = rw (append-nil (inbox c h.sent)) refl
  inbox-delivered h (x ∷ l) c k =
      rw (inbox-delivered (told x (takes x) h) l c k.1, inbox-told x c (takes x) h)
        (inbox_later (x == c) (takes x) (takes c) (has l c) (inbox c h.sent)
          (λ same. ap takes (ground (arith, same))) (λ same. ground (arith, same, k)))

  Once-delivered : (h : Hub) (l : List ℕ) → Once h.clients → Once (delivered takes h m l).clients
  Once-delivered h [] k = k
  Once-delivered h (x ∷ l) k = Once-delivered (told x (takes x) h) l (Once-told x (takes x) h k)

-- A broadcast meets each client once, and no other.
abbrev pub IsRanged : HubEvent → Type 0
IsRanged (register x) = Unit
IsRanged (unregister x) = Unit
IsRanged (broadcast takes range m) =
    ((l : List ℕ) (c : ℕ) → has (range l) c ≡ has l c) × ((l : List ℕ) → Once l → Once (range l))

Once-hub_step : (h : Hub) (e : HubEvent) → Once h.clients → Once (hub_step h e).clients
unfolding hub_step
Once-hub_step h (register x) k = elim (Bool-cases (has h.clients x)) [
  | inl old ↦ rw old k
  | inr new ↦ rw new (Once-append h.clients x k new)
]
Once-hub_step h (unregister x) k = elim (Bool-cases (has h.clients x)) [
  | inl old ↦ rw old (Once-drop_client h.clients x k)
  | inr new ↦ rw new k
]
Once-hub_step h (broadcast takes range m) k = Once-delivered takes m h (range h.clients) k

taken-delivered :
    (on b : Bool) (m : String) (got : List String)
    → record {
      on = if on then (if b then on else false) else on;
      got = got ++ (if on then (if b then m ∷ [] else []) else []);
    }
      ≡ taken 0 on b m (record { on = on; got = got })
taken-delivered true true m got = refl
taken-delivered true false m got = rw (append-nil got) refl
taken-delivered false b m got = rw (append-nil got) refl

seen-hub_step :
    (h : Hub) (e : HubEvent) (c : ℕ)
    → IsRanged e
    → Once h.clients
    → seen (hub_step h e) c ≡ client_step c (seen h c) e
unfolding hub_step
seen-hub_step h (register x) c r k = ground (arith, has-append h.clients x c)
seen-hub_step h (unregister x) c r k = ground (arith, has-drop_client h.clients x c)
seen-hub_step h (broadcast takes range m) c r k =
    let met = range h.clients in
    rw
      (
        has-delivered takes m h met c,
        inbox-delivered takes m h met c (r.1 h.clients k),
        r.0 h.clients c,
      )
      (taken-delivered (has h.clients c) (takes c) m (inbox c h.sent))

seen-hub_run :
    (h : Hub) (events : List HubEvent) (c : ℕ)
    → All IsRanged events
    → Once h.clients
    → seen (hub_run h events) c ≡ client_run c (seen h c) events
unfolding hub_run
seen-hub_run h [] c r k = refl
seen-hub_run h (e ∷ events) c r k =
    seen-hub_run (hub_step h e) events c r.1 (Once-hub_step h e k)
    ∙ ap (λ s. client_run c s events) (seen-hub_step h e c r.0 k)

-- Whatever the hub receives from its start on, each client is connected and has been sent messages
-- as if it were alone: it gets each message that is broadcast while it is registered, once and in
-- order, until it leaves or a write to it fails, whatever the other clients do. Each broadcast meets
-- the clients in an order of its own, each client once, and each of its writes may fail.
pub hub_run-client_run :
    (events : List HubEvent) (c : ℕ)
    → All IsRanged events
    → seen (hub_run new_hub events) c ≡ client_run c (record { on = false; got = [] }) events
unfolding new_hub
hub_run-client_run events c r = seen-hub_run new_hub events c r tt
