-- ===== src/SessionManager.antt =====
-- services/session-manager/internal/manager/manager.go: the sessions of broker accounts. The broker
-- registry is libs/broker-registry's; `perform_full_login` is the broker client's own call.
use complete_dashboard.Prelude.{
  String, ◌≡◌, refl, Option, some, GoMap, find, put, delete, find-put, Result, err, ok, str_eq,
  if◌then◌else◌,
}
use complete_dashboard.BrokerRegistry.{Registry, RegistryError, create_client}

pub data LoginError : Type 0 where
  no_broker_client : RegistryError → LoginError
  login_failed : String → String → LoginError

-- A manager's sessions, and the world that the broker acts on.
pub record Manager (Session W : Type 0) : Type 0 where
  pub sessions : GoMap Session
  pub world : W

module _ {Session W : Type 0} where
  unfoldable pub get_session : Manager Session W → String → Option Session
  get_session m id = find m.sessions id

  unfoldable pub remove_session : Manager Session W → String → Manager Session W
  remove_session m id = record m { sessions = delete m.sessions id }

module _ {Account Session W : Type 0} (client_id : Account → String) where
  -- What a login leaves in the manager: the new session under the account's ClientID if it
  -- succeeded, the old sessions if it failed.
  abbrev pub expected :
      Result LoginError Session → Account → Manager Session W → String → Option Session
  expected (err e) acc m id = get_session m id
  expected (ok session) acc m id =
      if str_eq (client_id acc) id then some session else get_session m id

module _ {Client Account Session W : Type 0} (client_id : Account → String)
    (perform_full_login : Client → Account → W → Result String Session × W) where
  stored :
      String
      → Account
      → Result String Session × W
      → Manager Session W
      → Result LoginError Session × Manager Session W
  stored broker acc (err e, w) m = (err (login_failed broker e), record m { world = w })
  stored broker acc (ok session, w) m =
      (ok session, record { sessions = put m.sessions (client_id acc) session; world = w })

  login_with :
      String
      → Account
      → Result RegistryError Client
      → Manager Session W
      → Result LoginError Session × Manager Session W
  unfolding stored
  login_with broker acc (err e) m = (err (no_broker_client e), m)
  login_with broker acc (ok client) m = stored broker acc (perform_full_login client acc m.world) m

  unfoldable pub login :
      {Config : Type 0}
      → Registry Config Client
      → Manager Session W
      → String
      → Config
      → Account
      → Result LoginError Session × Manager Session W
  unfolding login_with
  login registry m broker config acc =
      login_with broker acc (create_client registry broker config) m

  stored_lem :
      (broker : String) (acc : Account) (r : Result String Session × W) (m : Manager Session W)
      (id : String)
      → get_session (stored broker acc r m).1 id
        ≡ expected client_id (stored broker acc r m).0 acc m id
  unfolding stored get_session
  stored_lem broker acc (err e, w) m id = refl
  stored_lem broker acc (ok session, w) m id = find-put m.sessions (client_id acc) id session

  login_with_lem :
      (broker : String) (acc : Account) (r : Result RegistryError Client) (m : Manager Session W)
      (id : String)
      → get_session (login_with broker acc r m).1 id
        ≡ expected client_id (login_with broker acc r m).0 acc m id
  unfolding login_with
  login_with_lem broker acc (err e) m id = refl
  login_with_lem broker acc (ok client) m id =
      stored_lem broker acc (perform_full_login client acc m.world) m id

  -- After a login that succeeded the account's ClientID has the new session; a login that failed
  -- leaves every session; no other ClientID's session changes.
  get_session-login :
      {Config : Type 0} (registry : Registry Config Client) (m : Manager Session W)
      (broker : String) (config : Config) (acc : Account) (id : String)
      → get_session (login registry m broker config acc).1 id
        ≡ expected client_id (login registry m broker config acc).0 acc m id
  unfolding login
  get_session-login registry m broker config acc id =
      login_with_lem broker acc (create_client registry broker config) m id
