-- ===== src/Trading/Handlers.antt =====
-- services/execution-gateway/internal/trading/handlers.go: what the handlers answer and do. Left out
-- are Health, which reads nothing, and ManualSquareOff, whose service does not compile.
pub mod Actions
pub mod Deploys
pub mod Refresh
use complete_dashboard.Prelude.{
  ℕ, String, Bool, true, not, Option, none, some, List, [], ◌∷◌, Result, ok, err, if◌then◌else◌,
  str_eq,
}
use complete_dashboard.Prelude.Int.{ℤ, pos, eqb_ℤ}
use complete_dashboard.Prelude.Float.{Float64}
use complete_dashboard.Prelude.Digits.{trim_char}
use complete_dashboard.ContractMaster.Rows.{split}
use complete_dashboard.Trading.Models.{
  DeployStraddleRequest, DeployStraddleResponse, StoredTrade, StoredIntent, OrderIntent,
  TradeSnapshot, OptionChainSnapshot,
}
use complete_dashboard.Trading.Build.{World, Gateway}
use complete_dashboard.Trading.Deploy.{DeployError, deploy_straddle}
use complete_dashboard.Trading.Deploy.Plan.{Services}
use complete_dashboard.Trading.SquareOff.{SqfError}
use complete_dashboard.Trading.Hedge.{HedgeError}

pub record HttpRequest : Type 0 where
  pub method : String
  pub path : String
  pub body : String

-- The fields that the handler reads.
pub record ConfigBuildRequest : Type 0 where
  pub user_id : String
  pub broker_name : String
  pub account_id : String
  pub exchange_segment : String
  pub symbol : String
  pub size : ℤ
  pub lots : ℤ
  pub order_lots_per_call : ℤ
  pub target_expiry : String

pub record CustomStraddleRequest : Type 0 where
  pub user_id : String
  pub broker_name : String
  pub account_id : String
  pub exchange_segment : String
  pub symbol : String
  pub lots : ℤ
  pub ce_strike_price : ℤ
  pub pe_strike_price : ℤ
  pub delta_neutral : Bool
  pub product_type : String
  pub order_lots_per_call : ℤ

-- json.Decoder's Decode into the request types; `none` is its error.
pub record RequestJson (F : Type 0) : Type 0 where
  pub read_deploy : String → Option DeployStraddleRequest
  pub read_config : String → Option ConfigBuildRequest
  pub read_custom : String → Option CustomStraddleRequest
  pub read_percentage : String → Option F

-- The bodies of the answers, with an error as what it is.
pub data Body (F : Type 0) : Type 0 where
  plain : String → Body F
  invalid_body : Body F
  deployed : DeployStraddleResponse F → Body F
  deploy_failed : DeployError → Body F
  squared_off : String → String → Body F
  square_off_failed : SqfError → Body F
  completed : String → Body F
  hedge_failed : HedgeError → Body F
  not_implemented : String → String → Body F
  straddles : List (StoredTrade F) → Body F
  snapshot : TradeSnapshot F → Body F
  pnl : F → F → F → F → F → F → F → Body F
  orders : List (StoredIntent F) → Body F
  trade_status_of : StoredTrade F → List (StoredIntent F) → Body F
  not_found : String → Body F

pub record Reply (F : Type 0) : Type 0 where
  pub status : ℕ
  pub body : Body F

abbrev pub reply : {F : Type 0} → ℕ → Body F → Reply F
reply status body = record { status = status; body = body }

-- strings.Split(strings.Trim(r.URL.Path, "/"), "/")
unfoldable pub path_parts : String → List String
unfolding trim_char split
path_parts path = split (trim_char 47 path) "/"

-- parts[2] of a path of at least `n` parts more than three
unfoldable pub trade_of_path : Bool → String → Option String
unfolding path_parts
trade_of_path four path = elim (path_parts path) [
  | a ∷ b ∷ uid ∷ [] ↦ if four then none else some uid
  | a ∷ b ∷ uid ∷ d ∷ l ↦ some uid
  | _ ↦ none
]

unfoldable pub config_deploy : ConfigBuildRequest → DeployStraddleRequest
config_deploy req = record {
  user_id = req.user_id;
  broker_name = req.broker_name;
  account_id = req.account_id;
  exchange_segment = req.exchange_segment;
  symbol = req.symbol;
  lots = if eqb_ℤ req.size (pos 0) then req.lots else req.size;
  delta_neutral = true;
  product_type = "MIS";
  target_expiry = req.target_expiry;
  strike = pos 0;
  ce_token = pos 0;
  pe_token = pos 0;
  lot_size = pos 0;
  ce_strike_price = pos 0;
  pe_strike_price = pos 0;
  order_lots_per_call = req.order_lots_per_call;
}

unfoldable pub custom_deploy : CustomStraddleRequest → DeployStraddleRequest
custom_deploy req = record {
  user_id = req.user_id;
  broker_name = req.broker_name;
  account_id = req.account_id;
  exchange_segment = req.exchange_segment;
  symbol = req.symbol;
  lots = req.lots;
  delta_neutral = req.delta_neutral;
  product_type = req.product_type;
  target_expiry = "";
  strike = pos 0;
  ce_token = pos 0;
  pe_token = pos 0;
  lot_size = pos 0;
  ce_strike_price = req.ce_strike_price;
  pe_strike_price = req.pe_strike_price;
  order_lots_per_call = req.order_lots_per_call;
}

abbrev pub read_as : {A B : Type 0} → (A → B) → Option A → Option B
read_as f none = none
read_as f (some a) = some (f a)

module _ (fl : Float64) (world : World fl.F) (json : RequestJson fl.F) where
  abbrev deploy_reply :
      ℕ
      → Result DeployError (DeployStraddleResponse fl.F) × Gateway fl.F
      → Reply fl.F × Gateway fl.F
  deploy_reply failure (ok resp, gw) = (reply 200 (deployed resp), gw)
  deploy_reply failure (err e, gw) = (reply failure (deploy_failed e), gw)

  abbrev deploy_read :
      ℕ → Services fl.F → Option DeployStraddleRequest → Gateway fl.F → Reply fl.F × Gateway fl.F
  deploy_read failure services none gw = (reply 400 invalid_body, gw)
  deploy_read failure services (some req) gw =
      deploy_reply failure (deploy_straddle fl world services req gw)

  abbrev pub posted :
      ℕ
      → Services fl.F
      → HttpRequest
      → Option DeployStraddleRequest
      → Gateway fl.F
      → Reply fl.F × Gateway fl.F
  posted failure services r req gw =
      if not (str_eq r.method "POST")
      then (reply 405 (plain "method not allowed"), gw)
      else deploy_read failure services req gw

  unfoldable pub handle_deploy :
      Services fl.F → HttpRequest → Gateway fl.F → Reply fl.F × Gateway fl.F
  handle_deploy services r gw = posted 400 services r (json.read_deploy r.body) gw

  unfoldable pub handle_config_build :
      Services fl.F → HttpRequest → Gateway fl.F → Reply fl.F × Gateway fl.F
  unfolding config_deploy
  handle_config_build services r gw =
      posted 500 services r (read_as config_deploy (json.read_config r.body)) gw

  unfoldable pub handle_custom_sell :
      Services fl.F → HttpRequest → Gateway fl.F → Reply fl.F × Gateway fl.F
  unfolding custom_deploy
  handle_custom_sell services r gw =
      posted 500 services r (read_as custom_deploy (json.read_custom r.body)) gw
