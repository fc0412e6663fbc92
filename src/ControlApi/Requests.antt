-- ===== src/ControlApi/Requests.antt =====
-- services/control-api/internal/handlers: the handlers one after the other. A handler's own steps on
-- the sessions are locked; what other requests do between them is left out.
use complete_dashboard.Prelude.{
  ℕ, ◌≡◌, ◌⊎◌, inl, inr, refl, ap, ◌∙◌, String, false, Option, none, some, List, [], ◌∷◌, GoMap,
  find, find-put-other, find-delete, All, str_eq, eq_iff, arith, Bool-cases,
}
use complete_dashboard.Prelude.Json.{JsonText}
use complete_dashboard.ControlSessions.{Session, get, update, replace}
use complete_dashboard.ControlApi.{Config, Call, Upstream, Outcome, get_session_from_cookie}
use complete_dashboard.ControlApi.Auth.{AuthJson, login_proxy, logout}
use complete_dashboard.ControlApi.Auth.Proxy.{ProxyRequest, generic_proxy, session_status}
use complete_dashboard.ControlApi.Auth.Changes.{
  Changed, generic_proxy-Changed, login_proxy-find, session_status-sessions,
}
use complete_dashboard.ControlApi.Straddle.{
  SellStraddleRequest, sell_straddle, sell_straddle-IsPlaced,
}
use complete_dashboard.Trading.Models.{DeployStraddleRequest}

-- A login comes with its time and the id that the store makes for a session.
pub data Request : Type 0 where
  login : ℕ → String → String → Request
  log_out : Option String → Request
  proxy : Option String → ProxyRequest → Request
  sell : Option String → String → Request
  status_of : Option String → Request

-- The cookie of a request that needs a session.
abbrev pub cookie_of : Request → Option String
cookie_of (proxy cookie r) = cookie
cookie_of (sell cookie body) = cookie
cookie_of (status_of cookie) = cookie
cookie_of r = none

-- No login gets this id.
abbrev pub NotFresh : String → Request → Type 0
NotFresh id (login now fresh body) = str_eq fresh id ≡ false
NotFresh id r = Unit

module _ {F : Type 0} (config : Config) (send : Call → Upstream) (json : AuthJson)
    (text : JsonText F) (read_sell : String → Option SellStraddleRequest)
    (marshal_deploy : DeployStraddleRequest → String) where
  unfoldable pub handle : GoMap Session → Request → Outcome
  unfolding login_proxy logout generic_proxy sell_straddle session_status
  handle sessions (login now fresh body) = login_proxy config send json now fresh sessions body
  handle sessions (log_out cookie) = logout sessions cookie
  handle sessions (proxy cookie r) = generic_proxy config send json text sessions cookie r
  handle sessions (sell cookie body) =
      sell_straddle config send read_sell marshal_deploy sessions cookie body
  handle sessions (status_of cookie) = session_status json sessions cookie

  -- An outcome for a cookie with no session.
  abbrev pub IsRefused : Outcome → Type 0
  IsRefused o = (o.status ≡ 401) × (o.calls ≡ [])

  -- Every request with the cookie `id` is refused, one after the other.
  abbrev pub AllRefused : String → GoMap Session → List Request → Type 0
  AllRefused id sessions [] = Unit
  AllRefused id sessions (r ∷ requests) =
      (cookie_of r ≡ some id → IsRefused (handle sessions r))
      × AllRefused id (handle sessions r).sessions requests

  -- There is no session under an id.
  abbrev Out : String → GoMap Session → Type 0
  Out id sessions = find sessions id ≡ none

  update-Out :
      (id other : String) (s : Session) (sessions : GoMap Session) (old : Option Session)
      → find sessions other ≡ old
      → Out id sessions
      → Out id (replace sessions other s old).1
  update-Out id other s sessions none e h = h
  update-Out id other s sessions (some o) e h = elim (Bool-cases (str_eq other id)) [
    | inl same ↦ absurd (ground (arith, eq_iff other id, same, e, h))
    | inr apart ↦ find-put-other sessions other id s apart ∙ h
  ]

  Changed-Out :
      (id : String) (sessions : GoMap Session) (o : Outcome)
      → Changed sessions o
      → Out id sessions
      → Out id o.sessions
  unfolding update
  Changed-Out id sessions o (inl same) h = rw same h
  Changed-Out id sessions o (inr (other, s, e)) h =
      rw e (update-Out id other s sessions (find sessions other) refl h)

  logout-Out :
      (id : String) (sessions : GoMap Session) (cookie : Option String)
      → (Out id sessions) ⊎ (cookie ≡ some id)
      → Out id (logout sessions cookie).sessions
  unfolding logout
  logout-Out id sessions none (inl h) = h
  logout-Out id sessions none (inr e) = cc e
  logout-Out id sessions (some other) h =
      ground (arith, find-delete sessions other id, eq_iff other id, h)

  handle-Out :
      (id : String) (sessions : GoMap Session) (r : Request)
      → NotFresh id r
      → Out id sessions
      → Out id (handle sessions r).sessions
  unfolding handle session_status
  handle-Out id sessions (login now fresh body) n h =
      login_proxy-find config send json now fresh id sessions body n ∙ h
  handle-Out id sessions (log_out cookie) n h = logout-Out id sessions cookie (inl h)
  handle-Out id sessions (proxy cookie r) n h =
      Changed-Out id sessions (generic_proxy config send json text sessions cookie r)
        (generic_proxy-Changed config send json text sessions cookie r) h
  handle-Out id sessions (sell cookie body) n h =
      rw (sell_straddle-IsPlaced config send read_sell marshal_deploy sessions cookie body).1 h
  handle-Out id sessions (status_of cookie) n h =
      rw (session_status-sessions json sessions cookie) h

  no_session :
      (id : String) (sessions : GoMap Session)
      → Out id sessions
      → get_session_from_cookie sessions (some id) ≡ none
  unfolding get_session_from_cookie get
  no_session id sessions h = h

  handle-IsRefused :
      (id : String) (sessions : GoMap Session) (r : Request) (k : Option String)
      → get_session_from_cookie sessions k ≡ none
      → k ≡ some id
      → cookie_of r ≡ k
      → IsRefused (handle sessions r)
  unfolding handle generic_proxy sell_straddle session_status
  handle-IsRefused id sessions (login now fresh body) k h e c = absurd (cc)
  handle-IsRefused id sessions (log_out cookie) k h e c = absurd (cc)
  handle-IsRefused id sessions (proxy none r) k h e c = absurd (cc)
  handle-IsRefused id sessions (proxy (some other) r) k h e c =
      let out : get_session_from_cookie sessions (some other) ≡ none =
        ap (get_session_from_cookie sessions) c ∙ h in
      rw out (refl, refl)
  handle-IsRefused id sessions (sell cookie body) k h e c =
      let out : get_session_from_cookie sessions cookie ≡ none =
        ap (get_session_from_cookie sessions) c ∙ h in
      rw out (refl, refl)
  handle-IsRefused id sessions (status_of cookie) k h e c =
      let out : get_session_from_cookie sessions cookie ≡ none =
        ap (get_session_from_cookie sessions) c ∙ h in
      rw out (refl, refl)

  Out-AllRefused :
      (id : String) (sessions : GoMap Session) (requests : List Request)
      → All (NotFresh id) requests
      → Out id sessions
      → AllRefused id sessions requests
  Out-AllRefused id sessions [] n h = tt
  Out-AllRefused id sessions (r ∷ requests) n h = (
    λ c. handle-IsRefused id sessions r (some id) (no_session id sessions h) refl c,
    Out-AllRefused id (handle sessions r).sessions requests n.1 (handle-Out id sessions r n.0 h),
  )

  -- After a logout, every request with its cookie to the proxy, to sell a straddle or for the status is
  -- answered 401 and asks no other service, whatever requests come between, until a login makes a
  -- session with the same id.
  pub logout-AllRefused :
      (sessions : GoMap Session) (id : String) (requests : List Request)
      → All (NotFresh id) requests
      → AllRefused id (logout sessions (some id)).sessions requests
  logout-AllRefused sessions id requests n =
      Out-AllRefused id (logout sessions (some id)).sessions requests n
        (logout-Out id sessions (some id) (inr refl))
