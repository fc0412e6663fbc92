-- ===== src/Trading/Deploy/Plan.antt =====
-- services/execution-gateway/internal/trading/service.go: the part of `DeployStraddle` that decides
-- what to deploy, before anything is stored.
use complete_dashboard.Prelude.{
  text_or, ℕ, ◌/◌, ◌||◌, ◌&&◌, not, String, Bool, Option, none, some, Result, err, ok, ◌>>=◌, ◌>>◌,
  str_eq, ◌+s◌, to_upper, trim_space, without_dashes, if◌then◌else◌,
}
use complete_dashboard.Prelude.Int.{ℤ, pos, pos_part, ◌*ℤ◌, ltb_ℤ, eqb_ℤ, not_pos}
use complete_dashboard.Prelude.Float.{Float64}
use complete_dashboard.Chunker.{max_int}
use complete_dashboard.Trading.Models.{
  OptionChainRow, OptionChainSnapshot, StoredTrade, DeployStraddleRequest,
}
use complete_dashboard.Trading.Symbols.{
  normalize_symbol, resolve_exchange_segment, get_fallback_lot_size, find_atm_row,
  find_row_by_strike,
}

pub data PlanError : Type 0 where
  symbol_required no_executor no_option_chain both_strikes_required ce_strike_missing
        pe_strike_missing atm_missing tokens_missing bad_prices :
      PlanError
  invalid_deploy_lot_size invalid_deploy_lots unsafe_lots : ℤ → PlanError
  bad_quantities : ℤ → ℤ → PlanError

-- What `Service` is given: the broker factory, the snapshot and lot size providers, and the
-- formats of a strike (%.0f) and of a time (20060102150405).
pub record Services (F : Type 0) : Type 0 where
  pub default_client_id : String
  pub has_executor : String → String → String → Bool
  pub get_option_chain : String → String → Option (OptionChainSnapshot F)
  pub get_lot_size : String → String → Option ℤ
  pub format_strike : F → String
  pub format_stamp : ℕ → String

pub record DeployPlan (F : Type 0) : Type 0 where
  pub trade : StoredTrade F
  pub ce_lots : ℤ
  pub pe_lots : ℤ

pub record Rows (F : Type 0) : Type 0 where
  pub ce_row : OptionChainRow F
  pub pe_row : OptionChainRow F
  pub selected_strike : F

pub record Sizes (F : Type 0) : Type 0 where
  pub ce_lots : ℤ
  pub pe_lots : ℤ
  pub net_delta : F

abbrev pub refuse_if : Bool → PlanError → Result PlanError (Unit {0})
refuse_if b e = if b then err e else ok tt

abbrev pub some_or : {A : Type 0} → Option A → PlanError → Result PlanError A
some_or o e = elim o [ none ↦ err e | some a ↦ ok a ]

-- The input normalised, and its defaults.
unfoldable pub normalize_request : String → DeployStraddleRequest → DeployStraddleRequest
normalize_request default_client req =
    let broker = text_or (to_upper (trim_space req.broker_name)) "XTS" in
    let greek = str_eq broker "GREEKSOFT" in
    record req {
      symbol = normalize_symbol req.symbol;
      user_id = text_or (trim_space req.user_id) "U001";
      broker_name = broker;
      account_id = text_or (trim_space req.account_id) (if greek then "HRITIK" else default_client);
      product_type =
          text_or (to_upper (trim_space req.product_type)) (if greek then "NRML" else "MIS");
      exchange_segment = to_upper (trim_space req.exchange_segment);
      target_expiry = trim_space req.target_expiry;
      lots = if not_pos req.lots then pos 1 else req.lots;
    }

-- The option chain's number where it has one, else the provider's, else the symbol's.
unfoldable pub choose_lot_size :
    {F : Type 0} → Services F → DeployStraddleRequest → OptionChainSnapshot F → ℤ
choose_lot_size services req chain =
    if not (eqb_ℤ req.lot_size (pos 0))
    then req.lot_size
    else if not (not_pos chain.lot_size)
    then chain.lot_size
    else elim (services.get_lot_size req.symbol chain.expiry) [
      | none ↦ pos (get_fallback_lot_size req.symbol)
      | some n ↦ if not_pos n then pos (get_fallback_lot_size req.symbol) else n
    ]

-- req.OrderLotsPerCall after its bounds
unfoldable pub bounded_lots_per_call : ℤ → ℤ → ℤ
bounded_lots_per_call per_call lots =
    let n = if not_pos per_call then pos 1 else per_call in if ltb_ℤ lots n then lots else n

unfoldable pub build_trade_uid :
    {F : Type 0} → Services F → DeployStraddleRequest → String → F → ℕ → String
build_trade_uid services req expiry strike now =
    let upper = λ (s : String). to_upper (trim_space s) in
    "TRD_"
    +s upper req.user_id
    +s "_"
    +s upper req.broker_name
    +s "_"
    +s upper req.account_id
    +s "_"
    +s upper req.symbol
    +s "_"
    +s to_upper (without_dashes (trim_space expiry))
    +s "_"
    +s services.format_strike strike
    +s "_"
    +s services.format_stamp now

module _ (fl : Float64) where
  open fl use {F, lit, add, mul, div, fabs, round, of_int, to_int, fle, feq}

  unfoldable pub choose_underlying : OptionChainSnapshot F → F
  choose_underlying chain =
      if not (feq chain.synthetic_spot (lit 0 0))
      then chain.synthetic_spot
      else if not (feq chain.synthetic_future (lit 0 0))
      then chain.synthetic_future
      else if not (feq chain.future_ltp (lit 0 0))
      then chain.future_ltp
      else lit 0 0

  unfoldable pub choose_rows :
      DeployStraddleRequest → OptionChainSnapshot F → Result PlanError (Rows F)
  choose_rows req chain =
      if not (not_pos req.ce_strike_price) || not (not_pos req.pe_strike_price)
      then (do
        refuse_if (not_pos req.ce_strike_price || not_pos req.pe_strike_price) both_strikes_required
        ce ← some_or (find_row_by_strike fl chain req.ce_strike_price) ce_strike_missing
        pe ← some_or (find_row_by_strike fl chain req.pe_strike_price) pe_strike_missing
        ok (record {
          ce_row = ce;
          pe_row = pe;
          selected_strike = div (add ce.strike pe.strike) (lit 2 0);
        }))
      else (do
        atm ← some_or (find_atm_row fl chain) atm_missing
        ok (record { ce_row = atm; pe_row = atm; selected_strike = atm.strike }))

  -- maxInt(1, contracts/lotSize), where the contracts are at least one lot
  unfoldable pub neutral_lots : ℤ → ℤ → ℤ
  unfolding max_int
  neutral_lots contracts lot_size =
      let c = if ltb_ℤ contracts lot_size then lot_size else contracts in
      max_int (pos 1) (pos (pos_part c / pos_part lot_size))

  -- The delta neutral adjustment.
  unfoldable pub size_legs : DeployStraddleRequest → Rows F → ℤ → Sizes F
  unfolding neutral_lots
  size_legs req rows lot_size =
      let ce_delta = rows.ce_row.ce_delta in
      let pe_delta = rows.pe_row.pe_delta in
      if req.delta_neutral && not (feq ce_delta (lit 0 0)) && not (feq pe_delta (lit 0 0))
      then (let target = of_int (req.lots *ℤ lot_size) in
          let ce =
            neutral_lots (to_int (round (mul target (fabs (div ce_delta pe_delta))))) lot_size in
          let pe = neutral_lots (to_int (round target)) lot_size in
          record {
            ce_lots = ce;
            pe_lots = pe;
            net_delta =
                add (mul (of_int (ce *ℤ lot_size)) ce_delta)
                  (mul (of_int (pe *ℤ lot_size)) pe_delta);
          })
      else record { ce_lots = req.lots; pe_lots = req.lots; net_delta = lit 0 0 }

  abbrev token_or : ℤ → ℤ → ℤ
  token_or t d = if eqb_ℤ t (pos 0) then d else t

  unfoldable pub new_trade :
      Services F
      → ℕ
      → DeployStraddleRequest
      → OptionChainSnapshot F
      → Rows F
      → Sizes F
      → ℤ
      → StoredTrade F
  unfolding bounded_lots_per_call build_trade_uid choose_underlying
  new_trade services now req chain rows sizes lot_size = record {
    trade_uid = build_trade_uid services req chain.expiry rows.selected_strike now;
    user_id = req.user_id;
    broker_name = req.broker_name;
    account_id = req.account_id;
    symbol = req.symbol;
    expiry = chain.expiry;
    strike = rows.selected_strike;
    product_type = req.product_type;
    exchange_segment = text_or (resolve_exchange_segment req.symbol req.exchange_segment) "NSEFO";
    ce_token = token_or req.ce_token rows.ce_row.ce_token;
    pe_token = token_or req.pe_token rows.pe_row.pe_token;
    ce_qty = sizes.ce_lots *ℤ lot_size;
    pe_qty = sizes.pe_lots *ℤ lot_size;
    ce_ltp = rows.ce_row.ce_ltp;
    pe_ltp = rows.pe_row.pe_ltp;
    net_delta = sizes.net_delta;
    status = "BUILDING";
    trade_mode = req.broker_name;
    underlying = choose_underlying chain;
    lot_size = lot_size;
    lots = req.lots;
    created_at = now;
    last_update_time = now;
    config = record {
      buy_buffer = lit 20 1;
      sell_buffer = lit 20 1;
      sl_points_per_lot = lit 0 0;
      hedge_threshold_delta = lit 0 0;
      straddle_stop_price = lit 0 0;
      order_lots_per_call = bounded_lots_per_call req.order_lots_per_call req.lots;
      poll_interval_sec = pos 1;
    };
  }

  -- Once the rows are chosen.
  unfoldable pub plan_rows :
      Services F
      → ℕ
      → DeployStraddleRequest
      → OptionChainSnapshot F
      → Rows F
      → Result PlanError (DeployPlan F)
  unfolding choose_lot_size size_legs new_trade
  plan_rows services now req chain rows =
      let lot_size = choose_lot_size services req chain in
      let sizes = size_legs req rows lot_size in
      let trade = new_trade services now req chain rows sizes lot_size in
      do
        refuse_if (eqb_ℤ trade.ce_token (pos 0) || eqb_ℤ trade.pe_token (pos 0)) tokens_missing
        refuse_if (fle trade.ce_ltp (lit 0 0) || fle trade.pe_ltp (lit 0 0)) bad_prices
        refuse_if (not_pos lot_size) (invalid_deploy_lot_size lot_size)
        refuse_if (not_pos req.lots) (invalid_deploy_lots req.lots)
        refuse_if (ltb_ℤ (pos 1) req.lots) (unsafe_lots req.lots)
        refuse_if (not_pos trade.ce_qty || not_pos trade.pe_qty)
            (bad_quantities trade.ce_qty trade.pe_qty)
        ok (record { trade = trade; ce_lots = sizes.ce_lots; pe_lots = sizes.pe_lots })

  unfoldable pub plan_straddle :
      Services F → ℕ → DeployStraddleRequest → Result PlanError (DeployPlan F)
  unfolding normalize_request choose_rows plan_rows
  plan_straddle services now request =
      let req = normalize_request services.default_client_id request in
      do
        refuse_if (str_eq req.symbol "") symbol_required
        refuse_if (not (services.has_executor req.user_id req.broker_name req.account_id))
            no_executor
        chain ← some_or (services.get_option_chain req.symbol req.target_expiry) no_option_chain
        rows ← choose_rows req chain
        plan_rows services now req chain rows
