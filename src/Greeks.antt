-- ===== src/Greeks.antt =====
-- services/execution-gateway/internal/greeks/monitor.go: the `wsMonitor`, which adds up the Greeks
-- of a trade's legs. `now` is time.Now().
pub mod Removed
pub mod Repeats
use complete_dashboard.Prelude.{
  ℕ, String, Bool, Option, none, some, List, [], ◌∷◌, ◌++◌, GoMap, find, put, delete, str_eq,
  if◌then◌else◌,
}
use complete_dashboard.Prelude.Int.{ℤ, eqb_ℤ}
use complete_dashboard.Prelude.Float.{Float64}

pub record TradeGreeks (F : Type 0) : Type 0 where
  pub trade_uid : String
  pub net_delta : F
  pub net_gamma : F
  pub net_theta : F
  pub net_vega : F
  pub updated_at : ℕ

pub record TradeLeg : Type 0 where
  pub trade_uid : String
  pub token : ℤ
  pub quantity : ℤ
  pub side : String

-- An entry of `tokenToLegs`.
pub record TokenLegs : Type 0 where
  pub token : ℤ
  pub legs : List TradeLeg

pub record WsMonitor (F : Type 0) : Type 0 where
  pub token_to_legs : List TokenLegs
  pub trade_greeks : GoMap (TradeGreeks F)

unfoldable pub new_ws_monitor : {F : Type 0} → WsMonitor F
new_ws_monitor = record { token_to_legs = []; trade_greeks = [] }

-- m.tokenToLegs[token], empty where there is none
unfoldable pub legs_of : List TokenLegs → ℤ → List TradeLeg
legs_of [] token = []
legs_of (e ∷ m) token = if eqb_ℤ e.token token then e.legs else legs_of m token

-- m.tokenToLegs[leg.Token] = append(m.tokenToLegs[leg.Token], leg)
unfoldable pub add_leg : TradeLeg → List TokenLegs → List TokenLegs
add_leg leg [] = record { token = leg.token; legs = leg ∷ [] } ∷ []
add_leg leg (e ∷ m) =
    if eqb_ℤ e.token leg.token
    then record e { legs = e.legs ++ leg ∷ [] } ∷ m
    else e ∷ add_leg leg m

unfoldable pub add_legs : List TradeLeg → List TokenLegs → List TokenLegs
unfolding add_leg
add_legs [] m = m
add_legs (leg ∷ legs) m = add_legs legs (add_leg leg m)

unfoldable pub other_legs : String → List TradeLeg → List TradeLeg
other_legs uid [] = []
other_legs uid (leg ∷ legs) =
    let rest = other_legs uid legs in if str_eq leg.trade_uid uid then rest else leg ∷ rest

-- A token that is left without legs leaves the map.
unfoldable pub drop_trade : String → List TokenLegs → List TokenLegs
unfolding other_legs
drop_trade uid [] = []
drop_trade uid (e ∷ m) =
    let rest = drop_trade uid m in
    elim (other_legs uid e.legs) [ [] ↦ rest | leg ∷ legs ↦ record e { legs = leg ∷ legs } ∷ rest ]

module _ {F : Type 0} where
  unfoldable pub register_trade : List TradeLeg → WsMonitor F → WsMonitor F
  unfolding add_legs
  register_trade legs m = record m { token_to_legs = add_legs legs m.token_to_legs }

  unfoldable pub remove_trade : String → WsMonitor F → WsMonitor F
  unfolding drop_trade
  remove_trade uid m = record {
    token_to_legs = drop_trade uid m.token_to_legs;
    trade_greeks = delete m.trade_greeks uid;
  }

  unfoldable pub get_greeks : WsMonitor F → String → Option (TradeGreeks F)
  get_greeks m uid = find m.trade_greeks uid

module _ (fl : Float64) where
  open fl use {F, lit, add, mul, neg, of_int}

  abbrev pub sign : String → F
  sign side = if str_eq side "SELL" then neg (lit 10 1) else lit 10 1

  -- The zero value where the trade has no Greeks yet.
  abbrev pub greeks_or : Option (TradeGreeks F) → TradeGreeks F
  greeks_or (some g) = g
  greeks_or none = record {
    trade_uid = "";
    net_delta = lit 0 0;
    net_gamma = lit 0 0;
    net_theta = lit 0 0;
    net_vega = lit 0 0;
    updated_at = 0;
  }

  abbrev pub contribution : TradeLeg → F → F
  contribution leg greek = mul (mul (sign leg.side) (of_int leg.quantity)) greek

  unfoldable pub contribute :
      ℕ → F → F → F → F → GoMap (TradeGreeks F) → TradeLeg → GoMap (TradeGreeks F)
  contribute now delta gamma theta vega m leg =
      let tg = greeks_or (find m leg.trade_uid) in
      put m leg.trade_uid (record {
        trade_uid = leg.trade_uid;
        net_delta = add tg.net_delta (contribution leg delta);
        net_gamma = add tg.net_gamma (contribution leg gamma);
        net_theta = add tg.net_theta (contribution leg theta);
        net_vega = add tg.net_vega (contribution leg vega);
        updated_at = now;
      })

  -- for _, leg := range legs
  unfoldable pub contribute_all :
      ℕ → F → F → F → F → List TradeLeg → GoMap (TradeGreeks F) → GoMap (TradeGreeks F)
  unfolding contribute
  contribute_all now delta gamma theta vega [] m = m
  contribute_all now delta gamma theta vega (leg ∷ legs) m =
      contribute_all now delta gamma theta vega legs (contribute now delta gamma theta vega m leg)

  unfoldable pub update_leg_greeks : ℕ → ℤ → F → F → F → F → WsMonitor F → WsMonitor F
  unfolding contribute_all legs_of
  update_leg_greeks now token delta gamma theta vega m = record m {
    trade_greeks =
        contribute_all now delta gamma theta vega (legs_of m.token_to_legs token) m.trade_greeks;
  }

-- The calls that change a monitor.
pub data MonitorCall (F : Type 0) : Type 0 where
  registered : List TradeLeg → MonitorCall F
  removed : String → MonitorCall F
  updated : ℕ → ℤ → F → F → F → F → MonitorCall F

abbrev pub monitor_step : (fl : Float64) → WsMonitor fl.F → MonitorCall fl.F → WsMonitor fl.F
monitor_step fl m (registered legs) = register_trade legs m
monitor_step fl m (removed uid) = remove_trade uid m
monitor_step fl m (updated now token delta gamma theta vega) =
    update_leg_greeks fl now token delta gamma theta vega m

abbrev pub monitor_run : (fl : Float64) → WsMonitor fl.F → List (MonitorCall fl.F) → WsMonitor fl.F
monitor_run fl m [] = m
monitor_run fl m (c ∷ calls) = monitor_run fl (monitor_step fl m c) calls
