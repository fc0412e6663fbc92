-- ===== src/ControlApi/Auth/Proxy.antt =====
-- services/control-api/internal/handlers: proxy.go, and validateRequest of helpers.go.
use complete_dashboard.Prelude.{
  String, Bool, true, Option, none, some, List, [], ◌∷◌, GoMap, if◌then◌else◌, str_eq, ◌+s◌,
  trim_prefix, ◌&&◌,
}
use complete_dashboard.Prelude.Json.{Json, Members, JsonText, null, obj, get_member}
use complete_dashboard.ControlSessions.{Session}
use complete_dashboard.ControlApi.{
  Config, Call, Upstream, Outcome, reply, forward, get_session_from_cookie,
}
use complete_dashboard.ControlApi.Auth.{AuthJson, jlogin_sequence}

module _ {F : Type 0} (text : JsonText F) where
  abbrev is_missing : Option (Json F) → Bool
  is_missing none = true
  is_missing (some null) = true
  is_missing (some v) = str_eq (text.print_value v) ""

  abbrev check_fields : List String → Members F → Option String
  check_fields [] m = none
  check_fields (f ∷ fields) m =
      let rest = check_fields fields m in
      if is_missing (get_member m f) then some (f +s " is missing or empty") else rest

  abbrev required_fields : String → List String
  required_fields endpoint =
      if str_eq endpoint "NewOrderRequest"
      then "gcid" ∷ "gtoken" ∷ []
      else if str_eq endpoint "jloginNew"
      then "gscid" ∷ "pass" ∷ []
      else []

  abbrev check_data : String → Option (Json F) → Option String
  check_data endpoint (some (obj m)) = check_fields (required_fields endpoint) m
  check_data endpoint v = some "missing \"data\" object in \"request\""

  abbrev check_request : String → Option (Json F) → Option String
  check_request endpoint (some (obj m)) = check_data endpoint (get_member m "data")
  check_request endpoint v = some "missing \"request\" object in payload"

  -- validateRequest: the error, if there is one, without the decoder's words
  unfoldable pub validate_request : String → String → Option String
  validate_request endpoint body = elim (text.unmarshal body) [
    | some (obj m) ↦ check_request endpoint (get_member m "request")
    | some null ↦ check_request endpoint none
    | _ ↦ some "invalid JSON"
  ]

-- What GenericProxyHandler reads of a request; `raw_query` is empty where there is none.
pub record ProxyRequest : Type 0 where
  pub method : String
  pub path : String
  pub raw_query : String
  pub body : String

module _ {F : Type 0} (config : Config) (send : Call → Upstream) (json : AuthJson)
    (text : JsonText F) where
  abbrev pub endpoint_of : ProxyRequest → String
  endpoint_of r = trim_prefix r.path "/api-proxy/"

  abbrev pub proxy_call : Session → ProxyRequest → Call
  proxy_call sess r = record {
    method = r.method;
    url =
        (config.greek_rest_api_base_url +s "/" +s endpoint_of r)
        +s (if str_eq r.raw_query "" then "" else "?" +s r.raw_query);
    authorization = sess.upstream_token;
    body = r.body;
  }

  abbrev pub forwarded : GoMap Session → Session → ProxyRequest → Outcome
  forwarded sessions sess r = forward (send (proxy_call sess r)) sessions (proxy_call sess r ∷ [])

  abbrev pub validated : GoMap Session → Session → ProxyRequest → Option String → Outcome
  validated sessions sess r (some e) =
      reply 400 (json.print_message ("Invalid request from client: " +s e)) sessions []
  validated sessions sess r none = forwarded sessions sess r

  abbrev pub proxied : GoMap Session → String → Session → ProxyRequest → Outcome
  proxied sessions id sess r =
      if str_eq (endpoint_of r) "jloginNew" && str_eq r.method "POST"
      then jlogin_sequence config send json sessions id sess r.body
      else if str_eq r.method "POST"
      then validated sessions sess r (validate_request text (endpoint_of r) r.body)
      else forwarded sessions sess r

  abbrev pub proxy_for : GoMap Session → Option String → Option Session → ProxyRequest → Outcome
  proxy_for sessions (some id) (some sess) r = proxied sessions id sess r
  proxy_for sessions cookie found r =
      reply 401 "{\"message\":\"Unauthorized. Please log in.\"}" sessions []

  -- GenericProxyHandler
  unfoldable pub generic_proxy : GoMap Session → Option String → ProxyRequest → Outcome
  unfolding get_session_from_cookie forward validate_request trim_prefix jlogin_sequence
  generic_proxy sessions cookie r =
      proxy_for sessions cookie (get_session_from_cookie sessions cookie) r

module _ (json : AuthJson) where
  abbrev pub status_of : GoMap Session → Option Session → Outcome
  status_of sessions none = reply 401 "{\"message\":\"No active session\"}" sessions []
  status_of sessions (some sess) =
      reply 200 (json.print_session (record sess { upstream_token = "" })) sessions []

  -- SessionStatusHandler
  unfoldable pub session_status : GoMap Session → Option String → Outcome
  unfolding get_session_from_cookie
  session_status sessions cookie = status_of sessions (get_session_from_cookie sessions cookie)
