-- ===== src/Trading/Models.antt =====
-- services/execution-gateway/internal/trading/models.go and interfaces.go. `F` is the type of
-- floats; a `time.Time` is a number of nanoseconds.
use complete_dashboard.Prelude.{ℕ, String, Bool, Option, List}
use complete_dashboard.Prelude.Int.{ℤ}

pub record OptionChainRow (F : Type 0) : Type 0 where
  pub strike : F
  pub ce_token : ℤ
  pub pe_token : ℤ
  pub ce_ltp : F
  pub pe_ltp : F
  pub ce_delta : F
  pub pe_delta : F
  pub ce_gamma : F
  pub pe_gamma : F
  pub ce_theta : F
  pub pe_theta : F
  pub ce_vega : F
  pub pe_vega : F
  pub ce_iv : F
  pub pe_iv : F
  pub is_atm : Bool
  pub ce_symbol : String
  pub pe_symbol : String

pub record OptionChainSnapshot (F : Type 0) : Type 0 where
  pub symbol : String
  pub synthetic_future : F
  pub synthetic_spot : F
  pub future_ltp : F
  pub atm : F
  pub expiry : String
  pub available_expiries : List String
  pub lot_size : ℤ
  pub chain : List (OptionChainRow F)

pub record DeployStraddleRequest : Type 0 where
  pub user_id : String
  pub broker_name : String
  pub account_id : String
  pub exchange_segment : String
  pub symbol : String
  pub lots : ℤ
  pub delta_neutral : Bool
  pub product_type : String
  pub target_expiry : String
  pub strike : ℤ
  pub ce_token : ℤ
  pub pe_token : ℤ
  pub lot_size : ℤ
  pub ce_strike_price : ℤ
  pub pe_strike_price : ℤ
  pub order_lots_per_call : ℤ

-- Without the duration, the time of creation and the unused `Error`.
pub record DeployStraddleResponse (F : Type 0) : Type 0 where
  pub success : Bool
  pub trade_uid : String
  pub status : String
  pub message : String
  pub symbol : String
  pub expiry : String
  pub strike : F
  pub ce_token : ℤ
  pub pe_token : ℤ
  pub ce_qty : ℤ
  pub pe_qty : ℤ
  pub ce_ltp : F
  pub pe_ltp : F
  pub net_delta : F
  pub lot_size : ℤ
  pub lots : ℤ

pub record MonitorConfig (F : Type 0) : Type 0 where
  pub buy_buffer : F
  pub sell_buffer : F
  pub sl_points_per_lot : F
  pub hedge_threshold_delta : F
  pub straddle_stop_price : F
  pub order_lots_per_call : ℤ
  pub poll_interval_sec : ℤ

pub record StoredTrade (F : Type 0) : Type 0 where
  pub trade_uid : String
  pub user_id : String
  pub broker_name : String
  pub account_id : String
  pub symbol : String
  pub expiry : String
  pub strike : F
  pub product_type : String
  pub exchange_segment : String
  pub ce_token : ℤ
  pub pe_token : ℤ
  pub ce_qty : ℤ
  pub pe_qty : ℤ
  pub ce_ltp : F
  pub pe_ltp : F
  pub net_delta : F
  pub status : String
  pub trade_mode : String
  pub underlying : F
  pub lot_size : ℤ
  pub lots : ℤ
  pub created_at : ℕ
  pub last_update_time : ℕ
  pub config : MonitorConfig F

-- `LimitPrice` is a pointer.
pub record OrderIntent (F : Type 0) : Type 0 where
  pub intent_id : String
  pub trade_uid : String
  pub token : ℤ
  pub symbol : String
  pub exchange_segment : String
  pub side : String
  pub quantity : ℤ
  pub order_type : String
  pub limit_price : Option F
  pub product_type : String
  pub leg_type : String
  pub phase : String
  pub order_uid : String
  pub broker_name : String
  pub account_id : String
  pub expected_price : F

pub record StoredIntent (F : Type 0) : Type 0 where
  pub received_at : ℕ
  pub intent : OrderIntent F

pub record TradeLegSnapshot (F : Type 0) : Type 0 where
  pub token : ℤ
  pub strike : F
  pub option_type : String
  pub action : String
  pub quantity : ℤ
  pub entry_price : F
  pub ltp : F
  pub pnl : F
  pub iv : F
  pub delta : F
  pub gamma : F
  pub theta : F
  pub vega : F

pub record TradeSnapshot (F : Type 0) : Type 0 where
  pub trade_uid : String
  pub timestamp : ℕ
  pub status : String
  pub symbol : String
  pub expiry : String
  pub strike : F
  pub underlying : F
  pub total_pnl : F
  pub realized_pnl : F
  pub unrealized_pnl : F
  pub net_delta : F
  pub net_gamma : F
  pub net_theta : F
  pub net_vega : F
  pub live_positions : List (TradeLegSnapshot F)

pub record ExecutionResult (F : Type 0) : Type 0 where
  pub intent_id : String
  pub broker_order_id : String
  pub status : String
  pub filled_qty : ℤ
  pub pending_qty : ℤ
  pub fill_price : F
  pub event_reason : String
  pub latency_ms : ℤ
  pub raw_request : String
  pub raw_response : String
