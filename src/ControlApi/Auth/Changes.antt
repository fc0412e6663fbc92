-- ===== src/ControlApi/Auth/Changes.antt =====
-- services/control-api/internal/handlers: what the handlers of auth.go and proxy.go do to the sessions.
use complete_dashboard.Prelude.{
  ℕ, ◌≡◌, ◌⊎◌, inl, inr, refl, String, Bool, true, false, not, ◌&&◌, Option, none, some, List, [],
  ◌∷◌, ◌++◌, GoMap, find, find-put-other, str_eq, Bool-cases, ltb, leb, trim_space,
}
use complete_dashboard.Prelude.Int.{pos, eqb_ℤ}
use complete_dashboard.Prelude.Json.{JsonText}
use complete_dashboard.ControlSessions.{Session, create, update}
use complete_dashboard.ControlApi.{
  Config, Call, Upstream, answered, failed, Outcome, handle_proxy_error, forward,
  get_session_from_cookie,
}
use complete_dashboard.ControlApi.Auth.{
  AuthJson, LoginData, FlagValues, JLoginData, flagged, jlogged, login_proxy, logged_in,
  login_answered, login_call, jlogin_answered, jlogin_sequence, jlogin_call, flags_call, with_flags,
  updated, trading_session,
}
use complete_dashboard.ControlApi.Auth.Proxy.{
  ProxyRequest, validated, forwarded, proxied, proxy_for, validate_request, endpoint_of, proxy_call,
  generic_proxy, session_status, status_of,
}

-- How a handler that is not a login or a logout changes the sessions: not at all, or by one update.
abbrev pub Changed : GoMap Session → Outcome → Type 0
Changed sessions o =
    (o.sessions ≡ sessions)
    ⊎ ((id : String) × (s : Session) × (o.sessions ≡ (update sessions id s).1))

handle_proxy_error-sessions :
    (timeout : Bool) (sessions : GoMap Session) (calls : List Call)
    → (handle_proxy_error timeout sessions calls).sessions ≡ sessions
unfolding handle_proxy_error
handle_proxy_error-sessions true sessions calls = refl
handle_proxy_error-sessions false sessions calls = refl

forward-sessions :
    (u : Upstream) (sessions : GoMap Session) (calls : List Call)
    → (forward u sessions calls).sessions ≡ sessions
unfolding forward
forward-sessions (answered status body) sessions calls = refl
forward-sessions (failed timeout) sessions calls =
    handle_proxy_error-sessions timeout sessions calls

module _ (config : Config) (send : Call → Upstream) (json : AuthJson) where
  updated-sessions :
      (id : String) (sess : Session) (calls : List Call) (r : Bool × GoMap Session)
      → (updated config send json id sess calls r).sessions ≡ r.1
  updated-sessions id sess calls (true, sessions) = refl
  updated-sessions id sess calls (false, sessions) = refl

  flagged-Changed :
      (sessions : GoMap Session) (id : String) (sess : Session) (gcid : String) (calls : List Call)
      (body : String) (flags : Option FlagValues)
      → Changed sessions (flagged config send json sessions id sess gcid calls body flags)
  flagged-Changed sessions id sess gcid calls body none = inl refl
  flagged-Changed sessions id sess gcid calls body (some flags) =
      let full = trading_session config send json sess gcid flags in
      inr (id, full, updated-sessions id full calls (update sessions id full))

  with_flags-Changed :
      (sessions : GoMap Session) (id : String) (sess : Session) (gcid : String) (calls : List Call)
      (body : String) (u : Upstream)
      → Changed sessions (with_flags config send json sessions id sess gcid calls body u)
  with_flags-Changed sessions id sess gcid calls body (failed timeout) =
      inl (handle_proxy_error-sessions timeout sessions calls)
  with_flags-Changed sessions id sess gcid calls body (answered status flags) =
      flagged-Changed sessions id sess gcid calls body (json.read_flag_values flags)

  jlogged-Changed :
      (sessions : GoMap Session) (id : String) (sess : Session) (calls : List Call) (status : ℕ)
      (body : String) (r : Option JLoginData)
      → Changed sessions (jlogged config send json sessions id sess calls status body r)
  jlogged-Changed sessions id sess calls status body none = inl refl
  jlogged-Changed sessions id sess calls status body (some r) =
      elim (Bool-cases (not (eqb_ℤ r.error_code (pos 0)))) [
        | inl refused ↦ rw refused (inl refl)
        | inr taken ↦ rw taken (
            with_flags-Changed sessions id sess r.client_code
              (calls ++ flags_call config send json sess ∷ []) body
              (send (flags_call config send json sess)))
      ]

  jlogin_answered-Changed :
      (sessions : GoMap Session) (id : String) (sess : Session) (calls : List Call) (u : Upstream)
      → Changed sessions (jlogin_answered config send json sessions id sess calls u)
  jlogin_answered-Changed sessions id sess calls (failed timeout) =
      inl (handle_proxy_error-sessions timeout sessions calls)
  jlogin_answered-Changed sessions id sess calls (answered status body) =
      jlogged-Changed sessions id sess calls status body (json.read_jlogin body)

  jlogin_sequence-Changed :
      (sessions : GoMap Session) (id : String) (sess : Session) (body : String)
      → Changed sessions (jlogin_sequence config send json sessions id sess body)
  unfolding jlogin_sequence
  jlogin_sequence-Changed sessions id sess body =
      let call = jlogin_call config send json sess body in
      jlogin_answered-Changed sessions id sess (call ∷ []) (send call)

  logged_in-find :
      (now : ℕ) (fresh other : String) (sessions : GoMap Session) (data' : Option LoginData)
      (calls : List Call) (token : Option String)
      → str_eq fresh other ≡ false
      → find (logged_in config send json now fresh sessions data' calls token).sessions other
        ≡ find sessions other
  unfolding create
  logged_in-find now fresh other sessions data' calls none h = refl
  logged_in-find now fresh other sessions data' calls (some token) h =
      elim (Bool-cases (str_eq (trim_space token) "")) [
        | inl empty ↦ rw empty refl
        | inr given ↦ rw given (find-put-other sessions fresh other _ h)
      ]

  login_answered-find :
      (now : ℕ) (fresh other : String) (sessions : GoMap Session) (data' : Option LoginData)
      (calls : List Call) (u : Upstream)
      → str_eq fresh other ≡ false
      → find (login_answered config send json now fresh sessions data' calls u).sessions other
        ≡ find sessions other
  login_answered-find now fresh other sessions data' calls (failed timeout) h =
      rw (handle_proxy_error-sessions timeout sessions calls) refl
  login_answered-find now fresh other sessions data' calls (answered status body) h =
      elim (Bool-cases (leb 200 status && ltb status 300)) [
        | inl good ↦
            rw good
              (logged_in-find now fresh other sessions data' calls (json.read_session_token body) h)
        | inr bad ↦ rw bad refl
      ]

  -- A login leaves the sessions of other ids.
  pub login_proxy-find :
      (now : ℕ) (fresh other : String) (sessions : GoMap Session) (body : String)
      → str_eq fresh other ≡ false
      → find (login_proxy config send json now fresh sessions body).sessions other
        ≡ find sessions other
  unfolding login_proxy
  login_proxy-find now fresh other sessions body h =
      let call = login_call config send json body in
      login_answered-find now fresh other sessions (json.read_login body) (call ∷ []) (send call) h

module _ {F : Type 0} (config : Config) (send : Call → Upstream) (json : AuthJson)
    (text : JsonText F) where
  forwarded-Changed :
      (sessions : GoMap Session) (sess : Session) (r : ProxyRequest)
      → Changed sessions (forwarded config send json text sessions sess r)
  forwarded-Changed sessions sess r =
      let call = proxy_call config send json text sess r in
      inl (forward-sessions (send call) sessions (call ∷ []))

  validated-Changed :
      (sessions : GoMap Session) (sess : Session) (r : ProxyRequest) (e : Option String)
      → Changed sessions (validated config send json text sessions sess r e)
  validated-Changed sessions sess r none = forwarded-Changed sessions sess r
  validated-Changed sessions sess r (some e) = inl refl

  proxied-Changed :
      (sessions : GoMap Session) (id : String) (sess : Session) (r : ProxyRequest)
      → Changed sessions (proxied config send json text sessions id sess r)
  proxied-Changed sessions id sess r =
      let endpoint = endpoint_of config send json text r in
      elim (Bool-cases (str_eq endpoint "jloginNew" && str_eq r.method "POST")) [
        | inl login ↦ rw login (jlogin_sequence-Changed config send json sessions id sess r.body)
        | inr other ↦ elim (Bool-cases (str_eq r.method "POST")) [
          | inl posted ↦
              rw (other, posted)
                (validated-Changed sessions sess r (validate_request text endpoint r.body))
          | inr got ↦ rw (other, got) (forwarded-Changed sessions sess r)
        ]
      ]

  proxy_for-Changed :
      (sessions : GoMap Session) (cookie : Option String) (found : Option Session)
      (r : ProxyRequest)
      → Changed sessions (proxy_for config send json text sessions cookie found r)
  proxy_for-Changed sessions none found r = inl refl
  proxy_for-Changed sessions (some id) none r = inl refl
  proxy_for-Changed sessions (some id) (some sess) r = proxied-Changed sessions id sess r

  pub generic_proxy-Changed :
      (sessions : GoMap Session) (cookie : Option String) (r : ProxyRequest)
      → Changed sessions (generic_proxy config send json text sessions cookie r)
  unfolding generic_proxy
  generic_proxy-Changed sessions cookie r =
      proxy_for-Changed sessions cookie (get_session_from_cookie sessions cookie) r

module _ (json : AuthJson) where
  status_of-sessions :
      (sessions : GoMap Session) (found : Option Session)
      → (status_of json sessions found).sessions ≡ sessions
  status_of-sessions sessions none = refl
  status_of-sessions sessions (some sess) = refl

  -- A request for the status leaves the sessions.
  pub session_status-sessions :
      (sessions : GoMap Session) (cookie : Option String)
      → (session_status json sessions cookie).sessions ≡ sessions
  unfolding session_status
  session_status-sessions sessions cookie =
      status_of-sessions sessions (get_session_from_cookie sessions cookie)
