-- ===== src/ControlApi/Auth.antt =====
-- services/control-api/internal/handlers/auth.go. The reading of a login's answer and the times of
-- sessions and cookies are parameters.
pub mod Proxy
pub mod Changes
use complete_dashboard.Prelude.{
  ℕ, String, Bool, true, false, Option, none, some, List, [], ◌∷◌, ◌++◌, GoMap, if◌then◌else◌,
  str_eq, ◌+s◌, trim_space, trim_prefix, ◌==◌, leb, ltb, not, ◌&&◌, ◌||◌,
}
use complete_dashboard.Prelude.Int.{ℤ, pos, eqb_ℤ}
use complete_dashboard.Prelude.Json.{Json, Members, JsonText, null, obj, get_member}
use complete_dashboard.ControlSessions.{Session, create, update, delete_session}
use complete_dashboard.ControlApi.{
  Config, Call, Upstream, answered, failed, Outcome, reply, handle_proxy_error, forward,
  get_session_from_cookie,
}

-- The broker's id as %v prints it, if there is one.
pub record LoginData : Type 0 where
  pub username : String
  pub broker_id : Option String

pub record JLoginData : Type 0 where
  pub error_code : ℤ
  pub client_code : String

pub record FlagValues : Type 0 where
  pub session_id : String
  pub iris_ip : String
  pub iris_port : String
  pub apollo_ip : String
  pub apollo_port : String

-- json.Unmarshal into the handlers' types, and json.Marshal of their answers.
pub record AuthJson : Type 0 where
  pub read_login : String → Option LoginData
  pub read_session_token : String → Option String
  pub read_jlogin : String → Option JLoginData
  pub read_flag_values : String → Option FlagValues
  pub print_user : String → String → String
  pub print_session : Session → String
  pub print_trading_session : Session → String
  pub print_message : String → String

abbrev pub name_of : Option LoginData → String
name_of none = "N/A"
name_of (some d) = if str_eq (trim_space d.username) "" then "N/A" else d.username

abbrev broker_of : Option LoginData → String
broker_of none = "N/A"
broker_of (some d) = elim d.broker_id [ none ↦ "N/A" | some id ↦ id ]

abbrev with_cookie : String → Outcome → Outcome
with_cookie id o = record o { set_cookie = some id }

abbrev dropped : GoMap Session → Option String → GoMap Session
dropped sessions none = sessions
dropped sessions (some id) = delete_session sessions id

-- LogoutHandler
unfoldable pub logout : GoMap Session → Option String → Outcome
unfolding delete_session
logout sessions cookie =
    with_cookie ""
      (reply 200 "{\"message\":\"Logged out successfully\"}" (dropped sessions cookie) [])

module _ (config : Config) (send : Call → Upstream) (json : AuthJson) where
  abbrev post : String → String → String → Call
  post url token body = record { method = "POST"; url = url; authorization = token; body = body }

  abbrev new_session : ℕ → String → String → String → Session
  new_session now token username broker_id = record {
    upstream_token = token;
    username = username;
    broker_id = broker_id;
    created_at = now;
    gcid = "";
    ws_session_id = "";
    iris_ip = "";
    iris_port = "";
    apollo_ip = "";
    apollo_port = "";
  }

  abbrev logged_in :
      ℕ → String → GoMap Session → Option LoginData → List Call → Option String → Outcome
  logged_in now fresh sessions login calls none =
      reply 500 "{\"message\":\"Internal server error while parsing upstream response\"}" sessions
        calls
  logged_in now fresh sessions login calls (some token) =
      if str_eq (trim_space token) ""
      then reply 401 "{\"message\":\"Login failed: No session token from API\"}" sessions calls
      else with_cookie fresh (
          reply 200 (json.print_user (name_of login) (broker_of login))
            (create sessions fresh (new_session now token (name_of login) (broker_of login))) calls)

  abbrev login_answered :
      ℕ → String → GoMap Session → Option LoginData → List Call → Upstream → Outcome
  login_answered now fresh sessions login calls (failed timeout) =
      handle_proxy_error timeout sessions calls
  login_answered now fresh sessions login calls (answered status body) =
      if leb 200 status && ltb status 300
      then logged_in now fresh sessions login calls (json.read_session_token body)
      else reply status body sessions calls

  abbrev pub login_call : String → Call
  login_call body = post (config.greek_auth_api_base_url +s "/auth/greek/sessiontoken") "" body

  -- LoginProxyHandler; `fresh` is the id that the store makes.
  unfoldable pub login_proxy : ℕ → String → GoMap Session → String → Outcome
  unfolding create handle_proxy_error
  login_proxy now fresh sessions body =
      login_answered now fresh sessions (json.read_login body) (login_call body ∷ [])
        (send (login_call body))

  abbrev trading_session : Session → String → FlagValues → Session
  trading_session sess gcid flags = record sess {
    gcid = gcid;
    ws_session_id = flags.session_id;
    iris_ip = flags.iris_ip;
    iris_port = flags.iris_port;
    apollo_ip = flags.apollo_ip;
    apollo_port = flags.apollo_port;
  }

  abbrev updated : String → Session → List Call → Bool × GoMap Session → Outcome
  updated id sess calls (false, sessions) =
      reply 401 "{\"message\":\"Session update failed\"}" sessions calls
  updated id sess calls (true, sessions) =
      with_cookie id (reply 200 (json.print_trading_session sess) sessions calls)

  abbrev flagged :
      GoMap Session → String → Session → String → List Call → String → Option FlagValues → Outcome
  flagged sessions id sess gcid calls jlogin_body none = reply 206 jlogin_body sessions calls
  flagged sessions id sess gcid calls jlogin_body (some flags) =
      let full = trading_session sess gcid flags in updated id full calls (update sessions id full)

  abbrev with_flags :
      GoMap Session → String → Session → String → List Call → String → Upstream → Outcome
  with_flags sessions id sess gcid calls jlogin_body (failed timeout) =
      handle_proxy_error timeout sessions calls
  with_flags sessions id sess gcid calls jlogin_body (answered status body) =
      flagged sessions id sess gcid calls jlogin_body (json.read_flag_values body)

  abbrev flags_call : Session → Call
  flags_call sess = post (config.greek_rest_api_base_url +s "/getFlagValues") sess.upstream_token (
      "{\"request\":{\"svcVersion\":\"1.0.0\",\"svcGroup\":\"\",\"svcName\":\"getFlagValues\",\"gscid\":\""
      +s sess.username +s "\",\"data\":{}}}")

  abbrev jlogged :
      GoMap Session → String → Session → List Call → ℕ → String → Option JLoginData → Outcome
  jlogged sessions id sess calls status body none = reply status body sessions calls
  jlogged sessions id sess calls status body (some r) =
      if not (eqb_ℤ r.error_code (pos 0))
      then reply status body sessions calls
      else with_flags sessions id sess r.client_code (calls ++ flags_call sess ∷ []) body
          (send (flags_call sess))

  abbrev jlogin_answered : GoMap Session → String → Session → List Call → Upstream → Outcome
  jlogin_answered sessions id sess calls (failed timeout) =
      handle_proxy_error timeout sessions calls
  jlogin_answered sessions id sess calls (answered status body) =
      jlogged sessions id sess calls status body (json.read_jlogin body)

  abbrev jlogin_call : Session → String → Call
  jlogin_call sess body =
      post (config.greek_rest_api_base_url +s "/jloginNew") sess.upstream_token body

  -- handleJLoginSequence
  unfoldable pub jlogin_sequence : GoMap Session → String → Session → String → Outcome
  unfolding update handle_proxy_error
  jlogin_sequence sessions id sess body =
      jlogin_answered sessions id sess (jlogin_call sess body ∷ []) (send (jlogin_call sess body))
