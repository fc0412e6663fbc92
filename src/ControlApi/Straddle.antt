-- ===== src/ControlApi/Straddle.antt =====
-- services/control-api/internal/handlers/straddle.go: SellStraddleHandler. The map that it sends has
-- the JSON names of the gateway's DeployStraddleRequest, so it is one.
use complete_dashboard.Prelude.{
  text_or, ◌≡◌, refl, sym, String, Bool, true, false, Option, none, some, List, [], ◌∷◌, GoMap,
  if◌then◌else◌, str_eq, ◌+s◌, to_upper, trim_space, ◌&&◌, ◌||◌, Bool-cases, inl, inr,
}
use complete_dashboard.Prelude.Int.{ℤ, pos, not_pos}
use complete_dashboard.ControlSessions.{Session}
use complete_dashboard.ControlApi.{
  Config, Call, Upstream, answered, failed, Outcome, reply, forward, get_session_from_cookie,
}
use mathlib.Core.Path.{subst}
use complete_dashboard.Trading.Models.{DeployStraddleRequest}

-- Without the execution mode, which is not sent on.
pub record SellStraddleRequest : Type 0 where
  pub user_id : String
  pub broker_name : String
  pub symbol : String
  pub lots : ℤ
  pub delta_neutral : Bool
  pub product_type : String
  pub target_expiry : String
  pub ce_strike_price : ℤ
  pub pe_strike_price : ℤ
  pub ce_token : ℤ
  pub pe_token : ℤ
  pub lot_size : ℤ

unfoldable pub infer_exchange_segment : String → String
infer_exchange_segment symbol =
    let s = to_upper (trim_space symbol) in
    if str_eq s "SENSEX" || str_eq s "BANKEX" then "BSEFO" else "NSEFO"

-- What the gateway is asked for a session and a request. The symbol is in upper case.
unfoldable pub gateway_request : Session → SellStraddleRequest → DeployStraddleRequest
unfolding infer_exchange_segment
gateway_request sess req =
    let symbol = to_upper (trim_space req.symbol) in
    record {
      user_id = text_or (trim_space req.user_id) (text_or (trim_space sess.username) "U001");
      broker_name = text_or (to_upper (trim_space req.broker_name)) "XTS";
      account_id = trim_space sess.gcid;
      exchange_segment = infer_exchange_segment symbol;
      symbol = symbol;
      lots = if not_pos req.lots then pos 1 else req.lots;
      delta_neutral = req.delta_neutral;
      product_type = text_or (to_upper (trim_space req.product_type)) "MIS";
      target_expiry = trim_space req.target_expiry;
      strike = pos 0;
      ce_token = req.ce_token;
      pe_token = req.pe_token;
      lot_size = req.lot_size;
      ce_strike_price = req.ce_strike_price;
      pe_strike_price = req.pe_strike_price;
      order_lots_per_call = pos 1;
    }

text_or-nonempty : (s d : String) → str_eq d "" ≡ false → str_eq (text_or s d) "" ≡ false
text_or-nonempty s d h = elim (Bool-cases (str_eq s "")) [
  | inl empty ↦ rw empty h
  | inr text ↦ rw text text
]

positive_lots : (n : ℤ) → not_pos (if not_pos n then pos 1 else n) ≡ false
positive_lots n = elim (Bool-cases (not_pos n)) [
  | inl none_given ↦ rw none_given refl
  | inr given ↦ rw given given
]

-- `read_sell` decodes the body and `marshal_deploy` is json.Marshal.
module _ (config : Config) (send : Call → Upstream)
    (read_sell : String → Option SellStraddleRequest)
    (marshal_deploy : DeployStraddleRequest → String) where
  abbrev pub deploy_call : DeployStraddleRequest → Call
  deploy_call req = record {
    method = "POST";
    url = config.execution_gateway_base_url +s "/api/trade/straddle";
    authorization = "";
    body = marshal_deploy req;
  }

  abbrev pub ask_gateway : GoMap Session → DeployStraddleRequest → Outcome
  ask_gateway sessions req = forward (send (deploy_call req)) sessions (deploy_call req ∷ [])

  abbrev pub checked_sell : GoMap Session → Session → SellStraddleRequest → Outcome
  checked_sell sessions sess req =
      let asked = gateway_request sess req in
      if str_eq asked.symbol ""
      then reply 400 "{\"message\":\"symbol is required\"}" sessions []
      else if str_eq asked.account_id "" && str_eq asked.broker_name "XTS"
      then reply 400 "{\"message\":\"JLogin required before trading\"}" sessions []
      else ask_gateway sessions asked

  abbrev pub missing_session : Option String → String
  missing_session none = "{\"message\":\"authentication required: missing session cookie\"}"
  missing_session (some id) = "{\"message\":\"authentication required: invalid session\"}"

  abbrev pub sell_for :
      GoMap Session → Option String → Option Session → Option SellStraddleRequest → Outcome
  sell_for sessions cookie none req = reply 401 (missing_session cookie) sessions []
  sell_for sessions cookie (some sess) none =
      reply 400 "{\"message\":\"Invalid request body\"}" sessions []
  sell_for sessions cookie (some sess) (some req) = checked_sell sessions sess req

  unfoldable pub sell_straddle : GoMap Session → Option String → String → Outcome
  unfolding get_session_from_cookie gateway_request forward
  sell_straddle sessions cookie body =
      sell_for sessions cookie (get_session_from_cookie sessions cookie) (read_sell body)

  -- A request that is safe to place: from the session of the cookie, for a symbol, at least one lot,
  -- with a broker, a product and a user, and for XTS with the account of the session's broker login.
  abbrev pub IsPlaced : GoMap Session → Option String → Call → Type 0
  IsPlaced sessions cookie call =
      (sess : Session) × (req : DeployStraddleRequest) × (get_session_from_cookie sessions cookie
        ≡ some sess)
      × (call ≡ deploy_call req)
      × (req.account_id ≡ trim_space sess.gcid)
      × (str_eq req.symbol "" ≡ false)
      × (not_pos req.lots ≡ false)
      × (str_eq req.broker_name "" ≡ false)
      × (str_eq req.product_type "" ≡ false)
      × (str_eq req.user_id "" ≡ false)
      × ((str_eq req.account_id "" && str_eq req.broker_name "XTS") ≡ false)

  -- At most one call, and of this kind.
  abbrev pub CallsPlaced : GoMap Session → Option String → List Call → Type 0
  CallsPlaced sessions cookie [] = Unit
  CallsPlaced sessions cookie (call ∷ calls) = IsPlaced sessions cookie call × (calls ≡ [])

  forward-keeps :
      (u : Upstream) (sessions : GoMap Session) (calls : List Call)
      → ((forward u sessions calls).calls ≡ calls)
        × ((forward u sessions calls).sessions ≡ sessions)
  unfolding forward
  forward-keeps (answered status body) sessions calls = (refl, refl)
  forward-keeps (failed true) sessions calls = (refl, refl)
  forward-keeps (failed false) sessions calls = (refl, refl)

  abbrev Placed : GoMap Session → Option String → Outcome → Type 0
  Placed sessions cookie o = CallsPlaced sessions cookie o.calls × (o.sessions ≡ sessions)

  ask_gateway-Placed :
      (sessions : GoMap Session) (cookie : Option String) (req : DeployStraddleRequest)
      → IsPlaced sessions cookie (deploy_call req)
      → Placed sessions cookie (ask_gateway sessions req)
  ask_gateway-Placed sessions cookie req h =
      let kept = forward-keeps (send (deploy_call req)) sessions (deploy_call req ∷ []) in
      (subst (CallsPlaced sessions cookie) (sym kept.0) (h, refl), kept.1)

  checked_sell-Placed :
      (sessions : GoMap Session) (cookie : Option String) (sess : Session)
      (req : SellStraddleRequest)
      → get_session_from_cookie sessions cookie ≡ some sess
      → Placed sessions cookie (checked_sell sessions sess req)
  unfolding gateway_request
  checked_sell-Placed sessions cookie sess req h =
      let asked = gateway_request sess req in
      elim (Bool-cases (str_eq asked.symbol "")) [
        | inl missing ↦ rw missing (tt, refl)
        | inr symbol ↦
            elim (Bool-cases (str_eq asked.account_id "" && str_eq asked.broker_name "XTS")) [
              | inl no_login ↦ rw (symbol, no_login) (tt, refl)
              | inr login ↦
                  rw (symbol, login)
                    (ask_gateway-Placed sessions cookie asked (
                      sess,
                      asked,
                      h,
                      refl,
                      refl,
                      symbol,
                      positive_lots req.lots,
                      text_or-nonempty (to_upper (trim_space req.broker_name)) "XTS" refl,
                      text_or-nonempty (to_upper (trim_space req.product_type)) "MIS" refl,
                      text_or-nonempty (trim_space req.user_id)
                          (text_or (trim_space sess.username) "U001")
                          (text_or-nonempty (trim_space sess.username) "U001" refl),
                      login,
                    ))
            ]
      ]

  sell_for-Placed :
      (sessions : GoMap Session) (cookie : Option String) (found : Option Session)
      (req : Option SellStraddleRequest)
      → get_session_from_cookie sessions cookie ≡ found
      → Placed sessions cookie (sell_for sessions cookie found req)
  sell_for-Placed sessions cookie none req h = (tt, refl)
  sell_for-Placed sessions cookie (some sess) none h = (tt, refl)
  sell_for-Placed sessions cookie (some sess) (some req) h =
      checked_sell-Placed sessions cookie sess req h

  -- Selling a straddle asks the gateway at most once, and only for a cookie with a session. What it
  -- asks for names a symbol, a broker, a product and a user, at least one lot and the account of the
  -- session, which is not empty where the broker is XTS. The sessions stay as they are.
  pub sell_straddle-IsPlaced :
      (sessions : GoMap Session) (cookie : Option String) (body : String)
      → CallsPlaced sessions cookie (sell_straddle sessions cookie body).calls
        × ((sell_straddle sessions cookie body).sessions ≡ sessions)
  unfolding sell_straddle
  sell_straddle-IsPlaced sessions cookie body =
      sell_for-Placed sessions cookie (get_session_from_cookie sessions cookie) (read_sell body)
        refl
