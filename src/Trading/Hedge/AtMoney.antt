-- ===== src/Trading/Hedge/AtMoney.antt =====
-- services/execution-gateway/internal/trading/service.go: `ManualHedge`, one lot of each
-- at-the-money option against the delta of the latest snapshot.
use complete_dashboard.Prelude.{
  ℕ, not, String, Bool, false, Option, none, some, List, [], ◌∷◌, Result, err, ok, if◌then◌else◌,
}
use complete_dashboard.Prelude.Int.{ℤ, pos, not_pos}
use complete_dashboard.Prelude.Float.{Float64}
use complete_dashboard.Trading.Models.{
  StoredTrade, OrderIntent, OptionChainRow, OptionChainSnapshot,
}
use complete_dashboard.Trading.Symbols.{get_fallback_lot_size, build_short_order_uid, find_atm_row}
use complete_dashboard.Trading.Store.{load_trade, load_snapshot}
use complete_dashboard.Trading.Build.{World, Gateway, record_intents}
use complete_dashboard.Trading.Hedge.{
  HedgeError, HedgeOutcome, Sides, hedge_no_executor, hedge_no_chain, hedge_no_atm,
  hedge_trade_not_found, snapshot_not_found, hedge_sides_from_net_delta,
}
use complete_dashboard.Trading.Hedge.Broker.{failed_with, send_hedge}

module _ (fl : Float64) (world : World fl.F)
    (get_option_chain : String → String → Option (OptionChainSnapshot fl.F))
    (format_stamp : ℕ → String) (has_executor : StoredTrade fl.F → Bool) where
  -- The source leaves the intent's symbol empty.
  unfoldable pub atm_hedge_intent :
      StoredTrade fl.F
      → String
      → String
      → String
      → String
      → ℤ
      → String
      → ℤ
      → fl.F
      → OrderIntent fl.F
  atm_hedge_intent tr uid stamp leg code token side qty ltp = record {
    intent_id = build_short_order_uid tr.symbol code stamp 0;
    trade_uid = uid;
    token = token;
    symbol = "";
    exchange_segment = tr.exchange_segment;
    side = side;
    quantity = qty;
    order_type = "LIMIT";
    limit_price = some (fl.fmax (fl.lit 5 2) (fl.sub ltp (fl.lit 20 1)));
    product_type = tr.product_type;
    leg_type = leg;
    phase = "HEDGE";
    order_uid = build_short_order_uid tr.symbol code stamp 1;
    broker_name = tr.broker_name;
    account_id = tr.account_id;
    expected_price = ltp;
  }

  -- Never 0: the source's test for that stops nothing.
  unfoldable pub hedge_lot : StoredTrade fl.F → ℤ
  hedge_lot tr = if not_pos tr.lot_size then pos (get_fallback_lot_size tr.symbol) else tr.lot_size

  unfoldable pub atm_hedge_intents :
      StoredTrade fl.F → String → String → Sides → OptionChainRow fl.F → List (OrderIntent fl.F)
  unfolding atm_hedge_intent hedge_lot
  atm_hedge_intents tr uid stamp sides row =
      atm_hedge_intent tr uid stamp "CE" "HCE" row.ce_token sides.ce_side (hedge_lot tr) row.ce_ltp
      ∷ atm_hedge_intent tr uid stamp "PE" "HPE" row.pe_token sides.pe_side (hedge_lot tr)
          row.pe_ltp
      ∷ []

  -- The first row of the chain at the money, or what is missing.
  unfoldable pub hedge_row : StoredTrade fl.F → Result HedgeError (OptionChainRow fl.F)
  hedge_row tr =
      if not (has_executor tr)
      then err hedge_no_executor
      else elim (get_option_chain tr.symbol tr.expiry) [
        | none ↦ err hedge_no_chain
        | some chain ↦ elim (find_atm_row fl chain) [ none ↦ err hedge_no_atm | some row ↦ ok row ]
      ]

  unfoldable pub send_atm_hedge :
      StoredTrade fl.F
      → String
      → Sides
      → Gateway fl.F
      → Result HedgeError (OptionChainRow fl.F)
      → HedgeOutcome fl.F × Gateway fl.F
  unfolding atm_hedge_intents
  send_atm_hedge tr uid sides gw (err e) = (failed_with fl world e, gw)
  send_atm_hedge tr uid sides gw (ok row) =
      let intents = atm_hedge_intents tr uid (format_stamp (world.clock gw.calls)) sides row in
      send_hedge fl world intents [] (record_intents fl world gw uid intents)

  -- Once the trade is loaded. A delta that calls for no hedge is no error.
  unfoldable pub hedge_loaded :
      String → Gateway fl.F → Option (StoredTrade fl.F) → HedgeOutcome fl.F × Gateway fl.F
  unfolding send_atm_hedge hedge_row hedge_sides_from_net_delta
  hedge_loaded uid gw none = (failed_with fl world hedge_trade_not_found, gw)
  hedge_loaded uid gw (some tr) = elim (load_snapshot gw.store uid) [
    | none ↦ (failed_with fl world snapshot_not_found, gw)
    | some snap ↦ elim (hedge_sides_from_net_delta fl snap.net_delta) [
      | none ↦ (record { results = []; dry_run = false; error = none }, gw)
      | some sides ↦ send_atm_hedge tr uid sides gw (hedge_row tr)
    ]
  ]

  unfoldable pub manual_hedge : String → Gateway fl.F → HedgeOutcome fl.F × Gateway fl.F
  unfolding hedge_loaded
  manual_hedge uid gw =
      let (loaded, store) = load_trade world.read_trade gw.store uid in
      hedge_loaded uid (record gw { store = store }) loaded
