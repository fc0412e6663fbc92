-- ===== src/BrokerRegistry.antt =====
-- libs/broker-registry/registry.go: broker factories by name, the clients that are in use, and the
-- primary one. A panic is a result too. The map `configs` is never read or written after `New`.
use complete_dashboard.Prelude.{
  String, ◌≡◌, ◌≢◌, refl, false, Bool-cases, Option-cases, ◌⊎◌, inl, inr, true, Option, none, some,
  List, [], map, GoMap, find, put, find-put, Result, err, ok, arith, eq_iff, str_eq, if◌then◌else◌,
}

pub data RegistryError : Type 0 where
  panic_nil_factory nil_client no_primary_set : RegistryError
  panic_already_registered unsupported_broker not_registered primary_not_found :
      String → RegistryError
  factory_error : String → RegistryError

-- A factory turns a configuration into a client or fails; both are the broker libraries'.
module _ (Config Client : Type 0) where
  abbrev pub Factory : Type 0
  Factory = Config → Result String Client

  pub record Registry : Type 0 where
    pub factories : GoMap Factory
    pub clients : GoMap Client
    pub primary : String

abbrev pub created : {Client : Type 0} → Result String Client → Result RegistryError Client
created (ok client) = ok client
created (err e) = err (factory_error e)

module _ {Config Client : Type 0} where
  abbrev pub new_registry : Registry Config Client
  new_registry = record { factories = []; clients = []; primary = "" }

  -- a nil factory is `none`
  unfoldable pub register :
      Registry Config Client
      → String
      → Option (Factory Config Client)
      → Result RegistryError (Registry Config Client)
  register r name none = err panic_nil_factory
  register r name (some factory) = elim (find r.factories name) [
    | some _ ↦ err (panic_already_registered name)
    | none ↦ ok (record r { factories = put r.factories name factory })
  ]

  unfoldable pub create_client :
      Registry Config Client → String → Config → Result RegistryError Client
  create_client r name config = elim (find r.factories name) [
    | none ↦ err (unsupported_broker name)
    | some factory ↦ created (factory config)
  ]

  unfoldable pub set_primary_broker :
      Registry Config Client → String → Result RegistryError (Registry Config Client)
  set_primary_broker r name = elim (find r.clients name) [
    | none ↦ err (not_registered name)
    | some _ ↦ ok (record r { primary = name })
  ]

  unfoldable pub get_primary_broker : Registry Config Client → Result RegistryError Client
  get_primary_broker r =
      if str_eq r.primary "" then err no_primary_set else elim (find r.clients r.primary) [
        | none ↦ err (primary_not_found r.primary)
        | some client ↦ ok client
      ]

  -- a nil client is `none`
  unfoldable pub store_client :
      Registry Config Client
      → String
      → Option Client
      → Result RegistryError (Registry Config Client)
  store_client r name none = err nil_client
  store_client r name (some client) = ok (record r {
    clients = put r.clients name client;
    primary = if str_eq r.primary "" then name else r.primary;
  })

  unfoldable pub list_brokers : Registry Config Client → List String
  list_brokers r = map (λ e. e.key) r.factories

  -- The calls that change a registry, as long as they return.
  pub data Step : Registry Config Client → Registry Config Client → Type 0 where
    registered :
        {r s : Registry Config Client} (name : String) (f : Option (Factory Config Client))
        → register r name f ≡ ok s
        → Step r s
    primary_set :
        {r s : Registry Config Client} (name : String) → set_primary_broker r name ≡ ok s → Step r s
    client_stored :
        {r s : Registry Config Client} (name : String) (c : Option Client)
        → store_client r name c ≡ ok s
        → Step r s

  pub data Reach (r : Registry Config Client) : Registry Config Client → Type 0 where
    here : Reach r r
    then_step : {s t : Registry Config Client} → Reach r s → Step s t → Reach r t

  -- The primary name is unset or names a stored client.
  abbrev pub HasPrimary : Registry Config Client → Type 0
  HasPrimary r = str_eq r.primary "" ≡ false → find r.clients r.primary ≢ none

  Step-HasPrimary : {r s : Registry Config Client} → Step r s → HasPrimary r → HasPrimary s
  unfolding register set_primary_broker store_client
  Step-HasPrimary {r} {s} (registered name f e) h = ground (arith, h)
  Step-HasPrimary {r} {s} (primary_set name e) h = ground arith
  Step-HasPrimary {r} {s} (client_stored name none e) h = cc
  Step-HasPrimary {r} {s} (client_stored name (some c) e) h = ground (
    arith,
    h,
    find-put r.clients name name c,
    find-put r.clients name r.primary c,
    eq_iff name name,
    eq_iff r.primary "",
    eq_iff name r.primary,
  )

  Reach-HasPrimary : {r s : Registry Config Client} → HasPrimary r → Reach r s → HasPrimary s
  Reach-HasPrimary h here = h
  Reach-HasPrimary h (then_step before st) = Step-HasPrimary st (Reach-HasPrimary h before)

  -- After any calls on a new registry, the primary broker's client is there if a primary name is
  -- set, and otherwise the error says that none is set: the error for a name with no client never
  -- comes up.
  pub get_primary_broker-found :
      {r : Registry Config Client}
      → Reach new_registry r
      → ((str_eq r.primary "" ≡ true) × (get_primary_broker r ≡ err no_primary_set))
        ⊎ ((c : Client) × (find r.clients r.primary ≡ some c) × (get_primary_broker r ≡ ok c))
  unfolding get_primary_broker
  get_primary_broker-found {r} reached = elim (Bool-cases (str_eq r.primary "")) [
    | inl unset ↦ inl (unset, rw unset)
    | inr named ↦ elim (Option-cases (find r.clients r.primary)) [
      | inl missing ↦ absurd (Reach-HasPrimary (λ set. absurd (cc set)) reached named missing)
      | inr (c, there) ↦ inr (c, there, ground arith)
    ]
  ]

  -- Storing a client makes it the primary one exactly if no primary name was set, and a name that
  -- was set stays.
  pub store_client-get_primary :
      (r : Registry Config Client) (name : String) (c : Client)
      → str_eq name "" ≡ false
      → (s : Registry Config Client) × (store_client r name (some c) ≡ ok s)
        × (find s.clients name ≡ some c)
        × (s.primary ≡ (if str_eq r.primary "" then name else r.primary))
        × (str_eq r.primary "" ≡ true → get_primary_broker s ≡ ok c)
  unfolding store_client get_primary_broker
  store_client-get_primary r name c h = (
    record r {
      clients = put r.clients name c;
      primary = if str_eq r.primary "" then name else r.primary;
    },
    refl,
    ground (arith, find-put r.clients name name c, eq_iff name name),
    refl,
    λ unset. rw (unset, h) (ground (arith, find-put r.clients name name c, eq_iff name name)),
  )
