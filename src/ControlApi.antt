-- ===== src/ControlApi.antt =====
-- services/control-api/internal/handlers: what the handlers take and give. A handler is a function
-- of the sessions, the cookie session_id and the body; it returns the answer, the cookie that it
-- sets, the sessions and the requests that it made. Request bodies are read whole.
pub mod Auth
pub mod Straddle
pub mod Requests
use complete_dashboard.Prelude.{
  ℕ, String, Bool, Option, none, some, List, [], ◌∷◌, GoMap, if◌then◌else◌,
}
use complete_dashboard.ControlSessions.{Session, get}

-- The base URLs of config.go.
pub record Config : Type 0 where
  pub greek_auth_api_base_url : String
  pub greek_rest_api_base_url : String
  pub execution_gateway_base_url : String

-- A request to another service, with its header Authorization.
pub record Call : Type 0 where
  pub method : String
  pub url : String
  pub authorization : String
  pub body : String

-- What http.Client.Do gives: a response with its status and body, or an error, with whether it is
-- a timeout.
pub data Upstream : Type 0 where
  answered : ℕ → String → Upstream
  failed : Bool → Upstream

-- `set_cookie` is the value that the answer gives the cookie, if it sets it.
pub record Outcome : Type 0 where
  pub status : ℕ
  pub body : String
  pub set_cookie : Option String
  pub sessions : GoMap Session
  pub calls : List Call

abbrev pub reply : ℕ → String → GoMap Session → List Call → Outcome
reply status body sessions calls = record {
  status = status;
  body = body;
  set_cookie = none;
  sessions = sessions;
  calls = calls;
}

-- handleProxyError
unfoldable pub handle_proxy_error : Bool → GoMap Session → List Call → Outcome
handle_proxy_error timeout sessions calls =
    if timeout
    then reply 504 "{\"message\":\"Request to upstream API timed out\"}" sessions calls
    else reply 503 "{\"message\":\"Error connecting to the API\"}" sessions calls

-- Client.Do, and copyResponse or handleProxyError
unfoldable pub forward : Upstream → GoMap Session → List Call → Outcome
unfolding handle_proxy_error
forward (answered status body) sessions calls = reply status body sessions calls
forward (failed timeout) sessions calls = handle_proxy_error timeout sessions calls

-- getSessionFromCookie
unfoldable pub get_session_from_cookie : GoMap Session → Option String → Option Session
get_session_from_cookie sessions none = none
get_session_from_cookie sessions (some id) = get sessions id
