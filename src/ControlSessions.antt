-- ===== src/ControlSessions.antt =====
-- services/control-api/internal/session/session.go: the store of the dashboard's sessions. The id of
-- a new session is what uuid.NewString returns.
use complete_dashboard.Prelude.{
  ℕ, ◌≡◌, refl, String, Bool, true, false, Option, none, some, [], GoMap, find, put, delete,
  find-put, find-delete, str_eq, if◌then◌else◌,
}

pub record Session : Type 0 where
  pub upstream_token : String
  pub username : String
  pub broker_id : String
  pub created_at : ℕ
  pub gcid : String
  pub ws_session_id : String
  pub iris_ip : String
  pub iris_port : String
  pub apollo_ip : String
  pub apollo_port : String

unfoldable pub new_store : GoMap Session
new_store = []

unfoldable pub create : GoMap Session → String → Session → GoMap Session
create sessions id session = put sessions id session

unfoldable pub get : GoMap Session → String → Option Session
get sessions id = find sessions id

abbrev pub replace : GoMap Session → String → Session → Option Session → Bool × GoMap Session
replace sessions id session none = (false, sessions)
replace sessions id session (some old) = (true, put sessions id session)

unfoldable pub update : GoMap Session → String → Session → Bool × GoMap Session
update sessions id session = replace sessions id session (find sessions id)

unfoldable pub delete_session : GoMap Session → String → GoMap Session
delete_session sessions id = delete sessions id

replaced :
    (sessions : GoMap Session) (id other : String) (session : Session) (old : Option Session)
    → find sessions id ≡ old
    → find (replace sessions id session old).1 other ≡ (
        if (replace sessions id session old).0
        then (if str_eq id other then some session else find sessions other)
        else find sessions other)
replaced sessions id other session none e = refl
replaced sessions id other session (some o) e = find-put sessions id other session

-- After an update, the session is the new one if the update returned true and the ids agree, and
-- otherwise the one before. After a deletion there is no session under its id, and the others are as
-- before.
pub get-update-delete_session :
    (sessions : GoMap Session) (id other : String) (session : Session)
    → (get (update sessions id session).1 other ≡ (
        if (update sessions id session).0
        then (if str_eq id other then some session else get sessions other)
        else get sessions other))
      × (get (delete_session sessions id) other
          ≡ (if str_eq id other then none else get sessions other))
unfolding get update delete_session
get-update-delete_session sessions id other session =
    (replaced sessions id other session (find sessions id) refl, find-delete sessions id other)
