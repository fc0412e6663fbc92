-- ===== src/Trading/Hedge/Broker.antt =====
-- services/execution-gateway/internal/trading/manual_hedge_broker.go: `ManualHedgeBrokerOrder`.
use complete_dashboard.Prelude.{
  ℕ, not, String, Bool, true, false, Option, none, some, List, [], ◌∷◌, ◌++◌, Result, err, ok,
  if◌then◌else◌,
}
use complete_dashboard.Prelude.Float.{Float64}
use complete_dashboard.Trading.Models.{StoredTrade, OrderIntent, ExecutionResult}
use complete_dashboard.Trading.Store.{load_trade}
use complete_dashboard.Trading.Build.{
  World, Gateway, send, after_send, record_intents, record_execution,
}
use complete_dashboard.Trading.Hedge.{
  HedgeError, HedgeOutcome, ManualHedgeBrokerRequest, hedge_trade_not_found, hedge_no_executor,
  hedge_failed, dry_run_results, manual_hedge_broker_execution_enabled, plan_broker_hedge,
}

module _ (fl : Float64) (world : World fl.F) where
  abbrev pub failed_with : HedgeError → HedgeOutcome fl.F
  failed_with e = record { results = []; dry_run = false; error = some e }

  -- for _, intent := range intents, with the results so far
  unfoldable pub send_hedge :
      List (OrderIntent fl.F)
      → List (ExecutionResult fl.F)
      → Gateway fl.F
      → HedgeOutcome fl.F × Gateway fl.F
  send_hedge [] results gw = (record { results = results; dry_run = false; error = none }, gw)
  send_hedge (i ∷ is) results gw = elim (send fl world gw i) [
    | none ↦ (
      record { results = results; dry_run = false; error = some (hedge_failed i.leg_type) },
      after_send fl world gw i,
    )
    | some res ↦
        send_hedge is (results ++ res ∷ [])
          (record_execution fl world (after_send fl world gw i) i.intent_id res)
  ]

  -- Once the intents are made.
  unfoldable pub run_broker_hedge :
      Bool
      → (StoredTrade fl.F → Bool)
      → StoredTrade fl.F
      → String
      → Gateway fl.F
      → Result HedgeError (List (OrderIntent fl.F))
      → HedgeOutcome fl.F × Gateway fl.F
  unfolding manual_hedge_broker_execution_enabled send_hedge
  run_broker_hedge enabled has_executor tr uid gw (err e) = (failed_with e, gw)
  run_broker_hedge enabled has_executor tr uid gw (ok intents) =
      let gw' = record_intents fl world gw uid intents in
      if not (manual_hedge_broker_execution_enabled enabled tr)
      then (record { results = dry_run_results fl intents; dry_run = true; error = none }, gw')
      else if not (has_executor tr)
      then (failed_with hedge_no_executor, gw')
      else send_hedge intents [] gw'

  unfoldable pub broker_hedge_loaded :
      (ℕ → String)
      → Bool
      → (StoredTrade fl.F → Bool)
      → String
      → ManualHedgeBrokerRequest fl.F
      → Gateway fl.F
      → Option (StoredTrade fl.F)
      → HedgeOutcome fl.F × Gateway fl.F
  unfolding plan_broker_hedge
  broker_hedge_loaded format_stamp enabled has_executor uid req gw none =
      (failed_with hedge_trade_not_found, gw)
  broker_hedge_loaded format_stamp enabled has_executor uid req gw (some tr) =
      run_broker_hedge enabled has_executor tr uid gw
        (plan_broker_hedge fl tr uid (format_stamp (world.clock gw.calls)) req)

  unfoldable pub manual_hedge_broker_order :
      (ℕ → String)
      → Bool
      → (StoredTrade fl.F → Bool)
      → String
      → ManualHedgeBrokerRequest fl.F
      → Gateway fl.F
      → HedgeOutcome fl.F × Gateway fl.F
  manual_hedge_broker_order format_stamp enabled has_executor uid req gw =
      let (loaded, store) = load_trade world.read_trade gw.store uid in
      broker_hedge_loaded format_stamp enabled has_executor uid req (record gw { store = store })
        loaded
