-- ===== src/Trading/Deploy/Outcome.antt =====
-- What `DeployStraddle` leaves when it returns.
use complete_dashboard.Prelude.{
  ℕ, ◌≢◌, ◌≡◌, refl, String, Option, none, some, List, Result, ok, err, arith, find, find-put-same,
}
use complete_dashboard.Prelude.Float.{Float64}
use complete_dashboard.Chunker.{ExecOrder, ChunkError}
use complete_dashboard.Trading.Models.{StoredTrade, DeployStraddleRequest, DeployStraddleResponse}
use complete_dashboard.Trading.Lifecycle.{BuildError, build_failure_status_from_error}
use complete_dashboard.Trading.Store.{
  Store, RuntimeTrade, save_trade, mem_save_trade, save_runtime, load_runtime,
}
use complete_dashboard.Trading.Build.{World, Gateway, execute_build}
use complete_dashboard.Trading.Deploy.Plan.{PlanError, Services, DeployPlan, plan_straddle}
use complete_dashboard.Trading.Deploy.{
  DeployError, refused, chunking, building, put_trade, with_status, start_runtime, straddle_chunks,
  response_of, finish_build, run_build, run_plan, deploy_straddle,
}

is_some : {A : Type 0} {o : Option A} {a : A} → o ≡ some a → o ≢ none
is_some h k = cc

module _ (fl : Float64) (world : World fl.F) where
  abbrev trade_at : Gateway fl.F → String → Option (StoredTrade fl.F)
  trade_at gw uid = find gw.store.mem.trades uid

  put_trade-finds :
      (gw : Gateway fl.F) (trade : StoredTrade fl.F)
      → trade_at (put_trade fl world gw trade) trade.trade_uid ≡ some trade
  unfolding put_trade save_trade mem_save_trade
  put_trade-finds gw trade = find-put-same gw.store.mem.trades trade.trade_uid trade

  started_with :
      (s : Store fl.F) (trade : StoredTrade fl.F) (o : Option (RuntimeTrade fl.F))
      → load_runtime s trade.trade_uid ≡ o
      → ((start_runtime fl world s trade).mem.trades ≡ s.mem.trades)
        × (load_runtime (start_runtime fl world s trade) trade.trade_uid ≢ none)
  unfolding start_runtime save_runtime load_runtime
  started_with s trade none e =
      rw (start_runtime, e) (refl, λ h. is_some (find-put-same s.mem.runtimes trade.trade_uid _) h)
  started_with s trade (some rt) e = rw (start_runtime, e) (refl, ground (arith, e))

  start_runtime-IsRunning :
      (s : Store fl.F) (trade : StoredTrade fl.F)
      → ((start_runtime fl world s trade).mem.trades ≡ s.mem.trades)
        × (load_runtime (start_runtime fl world s trade) trade.trade_uid ≢ none)
  start_runtime-IsRunning s trade = started_with s trade (load_runtime s trade.trade_uid) refl

  same_trades :
      (s s' : Store fl.F) (uid : String) (o : Option (StoredTrade fl.F))
      → s'.mem.trades ≡ s.mem.trades
      → find s.mem.trades uid ≡ o
      → find s'.mem.trades uid ≡ o
  same_trades s s' uid o e h = rw e h

  -- The trade of the plan with a new status, as it is stored in the end.
  abbrev pub StoredAs : Gateway fl.F → StoredTrade fl.F → String → Type 0
  StoredAs gw' trade status =
      (t : ℕ) × (trade_at gw' trade.trade_uid ≡ some (with_status fl world trade status t))

  -- What a deployment with a plan leaves: after a response the trade of the plan is active, the
  -- response reports it and it has a runtime. After a failed build it has the status that the failure
  -- decides. A failed chunking calls no broker, and every earlier error changes nothing.
  abbrev pub DeployEnds :
      Gateway fl.F
      → Result PlanError (DeployPlan fl.F)
      → Result DeployError (DeployStraddleResponse fl.F) × Gateway fl.F
      → Type 0
  DeployEnds gw plan (ok resp, gw') =
      (p : DeployPlan fl.F) × (plan ≡ ok p)
      × (tr : StoredTrade fl.F) × (trade_at gw' p.trade.trade_uid ≡ some tr)
      × (tr.status ≡ "ACTIVE")
      × StoredAs gw' p.trade "ACTIVE"
      × (resp ≡ response_of fl world tr)
      × (resp.trade_uid ≡ p.trade.trade_uid)
      × (load_runtime gw'.store p.trade.trade_uid ≢ none)
  DeployEnds gw plan (err (building e), gw') =
      (p : DeployPlan fl.F) × (plan ≡ ok p)
      × StoredAs gw' p.trade (build_failure_status_from_error e)
  DeployEnds gw plan (err (chunking e), gw') = gw'.calls ≡ gw.calls
  DeployEnds gw plan (err (refused e), gw') = gw' ≡ gw

  finish_build-DeployEnds :
      (gw : Gateway fl.F) (p : DeployPlan fl.F) (r : Result BuildError (Unit {0}) × Gateway fl.F)
      → DeployEnds gw (ok p) (finish_build fl world p.trade r)
  unfolding finish_build response_of with_status
  finish_build-DeployEnds gw p (err e, gw') =
      let now = world.clock gw'.calls in
      let tr = with_status fl world p.trade (build_failure_status_from_error e) now in
      (p, refl, (now, put_trade-finds gw' tr))
  finish_build-DeployEnds gw p (ok u, gw') =
      let now = world.clock gw'.calls in
      let tr = with_status fl world p.trade "ACTIVE" now in
      let running = start_runtime-IsRunning (put_trade fl world gw' tr).store tr in
      let stored =
        same_trades (put_trade fl world gw' tr).store
          (start_runtime fl world (put_trade fl world gw' tr).store tr) tr.trade_uid (some tr)
          running.0 (put_trade-finds gw' tr) in
      (p, refl, tr, stored, refl, (now, stored), refl, refl, running.1)

  run_build-DeployEnds :
      (gw gw' : Gateway fl.F) (p : DeployPlan fl.F)
      (r : Result ChunkError (List (List (ExecOrder fl.F))))
      → gw'.calls ≡ gw.calls
      → DeployEnds gw (ok p) (run_build fl world p.trade gw' r)
  unfolding run_build
  run_build-DeployEnds gw gw' p (err e) h = h
  run_build-DeployEnds gw gw' p (ok chunks) h =
      finish_build-DeployEnds gw p (execute_build fl world p.trade chunks gw')

  run_plan-DeployEnds :
      (gw : Gateway fl.F) (r : Result PlanError (DeployPlan fl.F))
      → DeployEnds gw r (run_plan fl world gw r)
  unfolding run_plan put_trade
  run_plan-DeployEnds gw (err e) = refl
  run_plan-DeployEnds gw (ok p) =
      run_build-DeployEnds gw (put_trade fl world gw p.trade) p
        (straddle_chunks fl world p (world.clock gw.calls)) refl

  -- A deployment that returns a response has stored the trade of its plan as active, which the
  -- response reports, and has left it a runtime. A deployment whose build fails has stored the trade
  -- of its plan with the status that the failure decides. One whose chunking fails has called no
  -- broker, and every earlier error leaves the gateway as it was.
  pub deploy_straddle-DeployEnds :
      (services : Services fl.F) (req : DeployStraddleRequest) (gw : Gateway fl.F)
      → DeployEnds gw
          (plan_straddle fl services (world.clock gw.calls) req)
          (deploy_straddle fl world services req gw)
  unfolding deploy_straddle
  deploy_straddle-DeployEnds services req gw =
      run_plan-DeployEnds gw (plan_straddle fl services (world.clock gw.calls) req)
