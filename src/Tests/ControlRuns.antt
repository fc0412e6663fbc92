-- ===== src/Tests/ControlRuns.antt =====
-- Runs of the control API.
use complete_dashboard.Prelude.{◌≡◌, refl, true, none, some, List, [], ◌∷◌, GoMap}
use complete_dashboard.Prelude.Int.{pos}
use complete_dashboard.ControlSessions.{Session}
use complete_dashboard.ControlApi
use complete_dashboard.ControlApi.{Call, Upstream, answered}
use complete_dashboard.ControlApi.Auth.{AuthJson, logout}
use complete_dashboard.ControlApi.Requests.{
  Request, status_of, sell, login, AllRefused, logout-AllRefused,
}
use complete_dashboard.ControlApi.Straddle.{
  SellStraddleRequest, sell_straddle, CallsPlaced, sell_straddle-IsPlaced,
}
use complete_dashboard.Tests.Fixtures.{message_text}

abbrev api_config : ControlApi.Config
api_config = record {
  greek_auth_api_base_url = "http://auth";
  greek_rest_api_base_url = "http://rest";
  execution_gateway_base_url = "http://gateway";
}

abbrev session : Session
session = record {
  upstream_token = "token";
  username = "ann";
  broker_id = "1";
  created_at = 3;
  gcid = "ACC";
  ws_session_id = "";
  iris_ip = "";
  iris_port = "";
  apollo_ip = "";
  apollo_port = "";
}

abbrev sell_nifty : SellStraddleRequest
sell_nifty = record {
  user_id = "";
  broker_name = "";
  symbol = " nifty ";
  lots = pos 0;
  delta_neutral = true;
  product_type = "";
  target_expiry = "";
  ce_strike_price = pos 0;
  pe_strike_price = pos 0;
  ce_token = pos 0;
  pe_token = pos 0;
  lot_size = pos 0;
}

abbrev sessions : GoMap Session
sessions = record { key = "s1"; value = session } ∷ []

abbrev accept : Call → Upstream
accept call = answered 200 "{}"

sell_straddle-IsPlaced_example :
    CallsPlaced api_config accept
      (λ b. some sell_nifty)
      (λ r. r.symbol)
      sessions
      (some "s1")
      (sell_straddle api_config accept
        (λ b. some sell_nifty)
        (λ r. r.symbol)
        sessions
        (some "s1")
        "{}").calls
    × ((sell_straddle api_config accept
          (λ b. some sell_nifty)
          (λ r. r.symbol)
          sessions
          (some "s1")
          "{}").sessions
        ≡ sessions)
sell_straddle-IsPlaced_example =
    sell_straddle-IsPlaced api_config accept (λ b. some sell_nifty) (λ r. r.symbol) sessions
      (some "s1") "{}"

abbrev auth_json : AuthJson
auth_json = record {
  read_login = λ s. none;
  read_session_token = λ s. some "token";
  read_jlogin = λ s. none;
  read_flag_values = λ s. none;
  print_user = λ u b. u;
  print_session = λ s. s.username;
  print_trading_session = λ s. s.username;
  print_message = λ m. m;
}

abbrev requests : List Request
requests = status_of (some "s1") ∷ login 4 "s2" "{}" ∷ sell (some "s1") "{}" ∷ []

logout-AllRefused_example :
    AllRefused api_config accept auth_json message_text
      (λ b. some sell_nifty)
      (λ r. r.symbol)
      "s1"
      (logout sessions (some "s1")).sessions
      requests
logout-AllRefused_example =
    logout-AllRefused api_config accept auth_json message_text (λ b. some sell_nifty)
      (λ r. r.symbol) sessions "s1" requests (tt, (refl, (tt, tt)))
