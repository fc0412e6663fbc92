-- ===== src/Trading/SquareOff/Act.antt =====
-- services/execution-gateway/internal/trading/service.go: `SquareOff` and `PartialSquareOff`.
use complete_dashboard.Prelude.{
  ℕ, ◌||◌, ◌&&◌, not, String, Bool, true, false, Option, none, some, List, [], ◌∷◌, Result, err, ok,
  str_eq, if◌then◌else◌,
}
use complete_dashboard.Prelude.Int.{ℤ}
use complete_dashboard.Prelude.Float.{Float64}
use complete_dashboard.Trading.Models.{StoredTrade, OrderIntent}
use complete_dashboard.Trading.Store.{load_trade}
use complete_dashboard.Trading.Build.{
  World, Gateway, is_fill, record_intents, send, after_send, record_execution,
}
use complete_dashboard.Trading.Deploy.{put_trade, with_status}
use complete_dashboard.Trading.SquareOff.{
  RawIntents, SqfError, no_database, nothing_to_close, sqf_no_executor, sqf_failed, trade_not_found,
  waits_for_fills, invalid_percentage, closing_intents, filled_orders, net_positions, stop_runtime,
}

module _ (fl : Float64) (world : World fl.F) (raw : RawIntents fl.F)
    (format_stamp : ℕ → String) where
  unfoldable pub create_sqf_intents :
      StoredTrade fl.F → Gateway fl.F → Result SqfError (List (OrderIntent fl.F)) × Gateway fl.F
  unfolding closing_intents net_positions filled_orders
  create_sqf_intents tr gw = elim gw.store.db [
    | none ↦ (err no_database, gw)
    | some db ↦
        (let positions = net_positions fl (filled_orders fl raw tr db.orders) [] in
          let intents = closing_intents fl tr (format_stamp (world.clock gw.calls)) 0 positions in
          elim intents [
            | [] ↦ (err nothing_to_close, gw)
            | i ∷ is ↦ (ok (i ∷ is), record_intents fl world gw tr.trade_uid (i ∷ is))
          ])
  ]

  -- for _, intent := range sqfIntents; the Boolean is `allFilled`.
  unfoldable pub send_sqf :
      List (OrderIntent fl.F) → Bool → Gateway fl.F → Result SqfError Bool × Gateway fl.F
  unfolding send after_send record_execution
  send_sqf [] all_filled gw = (ok all_filled, gw)
  send_sqf (i ∷ intents) all_filled gw = elim (send fl world gw i) [
    | none ↦ (err (sqf_failed i.leg_type), after_send fl world gw i)
    | some res ↦
        send_sqf intents (all_filled && is_fill res.status)
          (record_execution fl world (after_send fl world gw i) i.intent_id res)
  ]

  unfoldable pub close_if_filled :
      StoredTrade fl.F
      → Result SqfError Bool × Gateway fl.F
      → Result SqfError (Unit {0}) × Gateway fl.F
  unfolding put_trade with_status
  close_if_filled tr (err e, gw) = (err e, gw)
  close_if_filled tr (ok false, gw) = (ok tt, gw)
  close_if_filled tr (ok true, gw) =
      (ok tt, put_trade fl world gw (with_status fl world tr "CLOSED" (world.clock gw.calls)))

  -- Once the intents are made. `allow_live` is ENABLE_LIVE_SQF_EXECUTION == "1".
  unfoldable pub run_square_off :
      Bool
      → (StoredTrade fl.F → Bool)
      → StoredTrade fl.F
      → Result SqfError (List (OrderIntent fl.F)) × Gateway fl.F
      → Result SqfError (Unit {0}) × Gateway fl.F
  unfolding put_trade with_status stop_runtime send_sqf close_if_filled
  run_square_off allow_live has_executor tr (err e, gw) = (err e, gw)
  run_square_off allow_live has_executor tr (ok intents, gw) =
      let closing = with_status fl world tr "SQUARING_OFF" (world.clock gw.calls) in
      let gw' = stop_runtime (put_trade fl world gw closing) tr.trade_uid in
      if not (allow_live || (str_eq tr.broker_name "SIM" || str_eq tr.broker_name "sim"))
      then (ok tt, gw')
      else if not (has_executor tr)
      then (err sqf_no_executor, gw')
      else close_if_filled closing (send_sqf intents true gw')

  -- Once the trade is loaded.
  unfoldable pub square_off_loaded :
      Bool
      → (StoredTrade fl.F → Bool)
      → Gateway fl.F
      → Option (StoredTrade fl.F)
      → Result SqfError (Unit {0}) × Gateway fl.F
  unfolding create_sqf_intents run_square_off
  square_off_loaded allow_live has_executor gw none = (err trade_not_found, gw)
  square_off_loaded allow_live has_executor gw (some tr) =
      if str_eq tr.status "PENDING_FILL"
      then (err waits_for_fills, gw)
      else run_square_off allow_live has_executor tr (create_sqf_intents tr gw)

  unfoldable pub square_off :
      Bool
      → (StoredTrade fl.F → Bool)
      → String
      → Gateway fl.F
      → Result SqfError (Unit {0}) × Gateway fl.F
  unfolding square_off_loaded
  square_off allow_live has_executor uid gw =
      let (loaded, store) = load_trade world.read_trade gw.store uid in
      square_off_loaded allow_live has_executor (record gw { store = store }) loaded

  unfoldable pub shrink_loaded :
      fl.F → Gateway fl.F → Option (StoredTrade fl.F) → Result SqfError (Unit {0}) × Gateway fl.F
  unfolding put_trade with_status
  shrink_loaded percentage gw none = (err trade_not_found, gw)
  shrink_loaded percentage gw (some tr) =
      if fl.fle percentage (fl.lit 0 0) || fl.flt (fl.lit 100 0) percentage
      then (err invalid_percentage, gw)
      else let scale = fl.div (fl.sub (fl.lit 100 0) percentage) (fl.lit 100 0) in
        let shrink = λ (q : ℤ). fl.to_int (fl.round (fl.mul (fl.of_int q) scale)) in
        let smaller = record tr { ce_qty = shrink tr.ce_qty; pe_qty = shrink tr.pe_qty } in
        (
          ok tt,
          put_trade fl world gw (with_status fl world smaller "PARTIAL" (world.clock gw.calls)),
        )

  unfoldable pub partial_square_off :
      String → fl.F → Gateway fl.F → Result SqfError (Unit {0}) × Gateway fl.F
  unfolding shrink_loaded
  partial_square_off uid percentage gw =
      let (loaded, store) = load_trade world.read_trade gw.store uid in
      shrink_loaded percentage (record gw { store = store }) loaded
