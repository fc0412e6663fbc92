-- ===== src/Trading/Handlers/Actions.antt =====
-- services/execution-gateway/internal/trading/handlers.go: the handlers for one trade and the lists.
use complete_dashboard.Prelude.{
  ℕ, String, Bool, true, false, Option, none, some, List, [], ◌∷◌, Result, ok, err, if◌then◌else◌,
  str_eq, ◌||◌,
}
use complete_dashboard.Prelude.Float.{Float64}
use complete_dashboard.Trading.Models.{StoredTrade, OrderIntent, TradeSnapshot, OptionChainSnapshot}
use complete_dashboard.Trading.Store.{load_trade, load_snapshot}
use complete_dashboard.Trading.Store.Loads.{store_all_trades}
use complete_dashboard.Trading.Store.Intents.{load_intents}
use complete_dashboard.Trading.Build.{World, Gateway}
use complete_dashboard.Trading.SquareOff.{SqfError, RawIntents}
use complete_dashboard.Trading.SquareOff.Act.{square_off, partial_square_off}
use complete_dashboard.Trading.Hedge.{HedgeOutcome}
use complete_dashboard.Trading.Hedge.AtMoney.{manual_hedge}
use complete_dashboard.Trading.Handlers.{
  HttpRequest, RequestJson, Body, plain, squared_off, square_off_failed, completed, hedge_failed,
  not_implemented, straddles, snapshot, pnl, orders, trade_status_of, not_found, Reply, reply,
  trade_of_path,
}

module _ {F : Type 0} where
  abbrev status_or_empty : Option (StoredTrade F) → String
  status_or_empty none = ""
  status_or_empty (some tr) = tr.status

  abbrev bad_path : String → Gateway F → Reply F × Gateway F
  bad_path message gw = (reply 400 (plain message), gw)

  -- ManualRoll and CancelAction
  unfoldable handle_unfinished : String → HttpRequest → Gateway F → Reply F × Gateway F
  handle_unfinished what r gw = elim (trade_of_path true r.path) [
    | none ↦ bad_path "invalid trade path" gw
    | some uid ↦ (reply 200 (not_implemented uid what), gw)
  ]

  abbrev snapshot_reply : (TradeSnapshot F → Body F) → Option (TradeSnapshot F) → Reply F
  snapshot_reply f none = reply 404 (not_found "snapshot not found")
  snapshot_reply f (some s) = reply 200 (f s)

  -- ManualVerify, whose path has four parts, and GetSnapshot
  unfoldable handle_snapshot : Bool → HttpRequest → Gateway F → Reply F × Gateway F
  handle_snapshot four r gw = elim (trade_of_path four r.path) [
    | none ↦ bad_path (if four then "invalid trade path" else "invalid path") gw
    | some uid ↦ (snapshot_reply snapshot (load_snapshot gw.store uid), gw)
  ]

  abbrev pnl_of : TradeSnapshot F → Body F
  pnl_of s =
      pnl s.total_pnl s.realized_pnl s.unrealized_pnl s.net_delta s.net_gamma s.net_theta s.net_vega

  unfoldable handle_pnl : HttpRequest → Gateway F → Reply F × Gateway F
  handle_pnl r gw = elim (trade_of_path false r.path) [
    | none ↦ bad_path "invalid path" gw
    | some uid ↦ (snapshot_reply pnl_of (load_snapshot gw.store uid), gw)
  ]

  abbrev is_active : StoredTrade F → Bool
  is_active tr =
      str_eq tr.status "ACTIVE" || str_eq tr.status "BUILDING" || str_eq tr.status "PARTIAL"

  unfoldable active_trades : List (StoredTrade F) → List (StoredTrade F)
  active_trades [] = []
  active_trades (tr ∷ trades) =
      let rest = active_trades trades in if is_active tr then tr ∷ rest else rest

module _ (fl : Float64) (world : World fl.F) (json : RequestJson fl.F) where
  unfoldable handle_straddles : Gateway fl.F → Reply fl.F × Gateway fl.F
  handle_straddles gw =
      let (trades, store) = store_all_trades world.read_trade gw.store in
      (reply 200 (straddles trades), record gw { store = store })

  unfoldable handle_active_straddles : Gateway fl.F → Reply fl.F × Gateway fl.F
  handle_active_straddles gw =
      let (trades, store) = store_all_trades world.read_trade gw.store in
      (reply 200 (straddles (active_trades trades)), record gw { store = store })

  module _ (read_intent : String → OrderIntent fl.F) where
    unfoldable handle_orders : HttpRequest → Gateway fl.F → Reply fl.F × Gateway fl.F
    handle_orders r gw = elim (trade_of_path false r.path) [
      | none ↦ bad_path "invalid path" gw
      | some uid ↦
          let (intents, store) = load_intents read_intent (world.clock gw.calls) gw.store uid in
          (reply 200 (orders intents), record gw { store = store })
    ]

    abbrev trade_reply :
        String → Gateway fl.F → Option (StoredTrade fl.F) → Reply fl.F × Gateway fl.F
    trade_reply uid gw none = (reply 404 (not_found "trade not found"), gw)
    trade_reply uid gw (some tr) =
        let (intents, store) = load_intents read_intent (world.clock gw.calls) gw.store uid in
        (reply 200 (trade_status_of tr intents), record gw { store = store })

    unfoldable handle_trade_status : HttpRequest → Gateway fl.F → Reply fl.F × Gateway fl.F
    handle_trade_status r gw = elim (trade_of_path false r.path) [
      | none ↦ bad_path "invalid trade path" gw
      | some uid ↦
          let (loaded, store) = load_trade world.read_trade gw.store uid in
          trade_reply uid (record gw { store = store }) loaded
    ]

  abbrev square_off_reply :
      String → Result SqfError (Unit {0}) × Gateway fl.F → Reply fl.F × Gateway fl.F
  square_off_reply uid (err e, gw) = (reply 404 (square_off_failed e), gw)
  square_off_reply uid (ok done, gw) =
      let (loaded, store) = load_trade world.read_trade gw.store uid in
      (reply 200 (squared_off uid (status_or_empty loaded)), record gw { store = store })

  abbrev partial_reply :
      String → Result SqfError (Unit {0}) × Gateway fl.F → Reply fl.F × Gateway fl.F
  partial_reply uid (err e, gw) = (reply 400 (square_off_failed e), gw)
  partial_reply uid (ok done, gw) = (reply 200 (completed uid), gw)

  abbrev percentage_or_half : Option fl.F → fl.F
  percentage_or_half none = fl.lit 50 0
  percentage_or_half (some p) = p

  unfoldable handle_partial_square_off :
      RawIntents fl.F → (ℕ → String) → HttpRequest → Gateway fl.F → Reply fl.F × Gateway fl.F
  handle_partial_square_off raw format_stamp r gw = elim (trade_of_path true r.path) [
    | none ↦ bad_path "invalid trade path" gw
    | some uid ↦ partial_reply uid (
        partial_square_off fl world raw format_stamp uid
          (percentage_or_half (json.read_percentage r.body)) gw)
  ]

  unfoldable handle_square_off :
      RawIntents fl.F
      → (ℕ → String)
      → Bool
      → (StoredTrade fl.F → Bool)
      → HttpRequest
      → Gateway fl.F
      → Reply fl.F × Gateway fl.F
  handle_square_off raw format_stamp allow_live has_executor r gw =
      elim (trade_of_path true r.path) [
        | none ↦ bad_path "invalid trade square-off path" gw
        | some uid ↦
            square_off_reply uid
              (square_off fl world raw format_stamp allow_live has_executor uid gw)
      ]

  abbrev hedge_reply : String → HedgeOutcome fl.F × Gateway fl.F → Reply fl.F × Gateway fl.F
  hedge_reply uid (outcome, gw) = elim outcome.error [
    | some e ↦ (reply 400 (hedge_failed e), gw)
    | none ↦ (reply 200 (completed uid), gw)
  ]

  unfoldable handle_manual_hedge :
      (String → String → Option (OptionChainSnapshot fl.F))
      → (ℕ → String)
      → (StoredTrade fl.F → Bool)
      → HttpRequest
      → Gateway fl.F
      → Reply fl.F × Gateway fl.F
  handle_manual_hedge get_option_chain format_stamp has_executor r gw =
      elim (trade_of_path true r.path) [
        | none ↦ bad_path "invalid trade path" gw
        | some uid ↦
            hedge_reply uid
              (manual_hedge fl world get_option_chain format_stamp has_executor uid gw)
      ]
