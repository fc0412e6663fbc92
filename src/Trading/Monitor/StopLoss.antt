-- ===== src/Trading/Monitor/StopLoss.antt =====
-- What a monitoring cycle does to a trade and to its runtime.
use complete_dashboard.Prelude.{
  ℕ, ◌≡◌, refl, ap, ◌∙◌, inl, inr, String, Bool, true, false, Bool-cases, Option, none, some, find,
  find-put-same, find-delete, arith, eq_iff, if◌then◌else◌,
}
use complete_dashboard.Prelude.Float.{Float64}
use complete_dashboard.Trading.Models.{
  StoredTrade, OptionChainRow, OptionChainSnapshot, TradeSnapshot,
}
use complete_dashboard.Trading.Store.{
  Store, RuntimeTrade, load_trade, load_runtime, load_snapshot, save_snapshot, delete_runtime,
  save_trade, mem_save_trade,
}
use complete_dashboard.Trading.Build.{World, Gateway}
use complete_dashboard.Trading.Deploy.{put_trade, with_status}
use complete_dashboard.Trading.SquareOff.{stop_runtime}
use complete_dashboard.Trading.Monitor.{
  is_left_alone, last_row, monitor_snapshot, sl_hit, close_on_sl, watch, watch_rows, monitor_loaded,
  run_monitor_cycle,
}

kept_trade :
    {F : Type 0} (read_trade : String → StoredTrade F) (s : Store F) (uid : String)
    (tr : StoredTrade F)
    → find s.mem.trades uid ≡ some tr
    → load_trade read_trade s uid ≡ (some tr, s)
unfolding load_trade
kept_trade read_trade s uid tr e = rw (load_trade, e) refl

-- A gateway whose runtime for `uid` is stopped, and that is otherwise the one before.
record IsStopped {F : Type 0} (uid : String) (gw gw' : Gateway F) : Type 0 where
  pub gone : load_runtime gw'.store uid ≡ none
  pub same_trades : gw'.store.mem.trades ≡ gw.store.mem.trades
  pub same_snapshots : gw'.store.mem.snapshots ≡ gw.store.mem.snapshots
  pub same_calls : gw'.calls ≡ gw.calls

stop_found :
    {F : Type 0} (gw : Gateway F) (uid : String) (found : Option (RuntimeTrade F))
    → load_runtime gw.store uid ≡ found
    → IsStopped uid gw (stop_runtime gw uid)
unfolding stop_runtime load_runtime delete_runtime
stop_found gw uid none e =
    rw (stop_runtime, e)
      (record { gone = e; same_trades = refl; same_snapshots = refl; same_calls = refl })
stop_found gw uid (some rt) e =
    rw (stop_runtime, e)
      (record {
        gone = ground (arith, find-delete gw.store.mem.runtimes uid uid, eq_iff uid uid);
        same_trades = refl;
        same_snapshots = refl;
        same_calls = refl;
      })

module _ (fl : Float64) (world : World fl.F)
    (get_option_chain : String → String → Option (OptionChainSnapshot fl.F)) where
  -- The trade as the stop loss stores it.
  abbrev pub closed_by_sl : StoredTrade fl.F → ℕ → StoredTrade fl.F
  closed_by_sl tr now = record tr { status = "CLOSED_SL"; last_update_time = now }

  -- What a cycle leaves of a gateway whose trade it watches.
  pub record IsWatched (tr : StoredTrade fl.F) (uid : String) (hit : Bool)
      (snap : TradeSnapshot fl.F) (gw gw' : Gateway fl.F) : Type 0 where
    pub shown : load_snapshot gw'.store tr.trade_uid ≡ some snap
    pub stored : find gw'.store.mem.trades tr.trade_uid ≡ (
        if hit
        then some (closed_by_sl tr (world.clock gw.calls))
        else find gw.store.mem.trades tr.trade_uid)
    pub running : load_runtime gw'.store uid ≡ (if hit then none else load_runtime gw.store uid)
    pub no_calls : gw'.calls ≡ gw.calls

  watch-IsWatched :
      (tr : StoredTrade fl.F) (uid : String) (chain : OptionChainSnapshot fl.F) (gw : Gateway fl.F)
      (ce pe : OptionChainRow fl.F)
      → IsWatched tr uid
          (sl_hit fl tr (monitor_snapshot fl tr chain (world.clock gw.calls) ce pe).total_pnl)
          (monitor_snapshot fl tr chain (world.clock gw.calls) ce pe)
          gw
          (watch fl world get_option_chain tr uid chain gw ce pe)
  unfolding watch close_on_sl put_trade with_status save_trade mem_save_trade save_snapshot
      load_snapshot load_runtime
  watch-IsWatched tr uid chain gw ce pe =
      let snap = monitor_snapshot fl tr chain (world.clock gw.calls) ce pe in
      let shown = find-put-same gw.store.mem.snapshots tr.trade_uid snap in
      elim (Bool-cases (sl_hit fl tr snap.total_pnl)) [
        | inl hit ↦
            (let closed = closed_by_sl tr (world.clock gw.calls) in
              let gw1 = record gw { store = save_snapshot gw.store snap } in
              let gw2 = put_trade fl world gw1 closed in
              let stop = stop_found gw2 uid (load_runtime gw2.store uid) refl in
              rw hit (record {
                shown = ap (λ m. find m tr.trade_uid) stop.same_snapshots ∙ shown;
                stored =
                    ap (λ m. find m tr.trade_uid) stop.same_trades
                    ∙ find-put-same gw.store.mem.trades tr.trade_uid closed;
                running = stop.gone;
                no_calls = stop.same_calls;
              }))
        | inr calm ↦
            rw calm (record { shown = shown; stored = refl; running = refl; no_calls = refl })
      ]

  cycle_loaded :
      (uid : String) (gw : Gateway fl.F) (tr : StoredTrade fl.F)
      → find gw.store.mem.trades uid ≡ some tr
      → run_monitor_cycle fl world get_option_chain uid gw
        ≡ monitor_loaded fl world get_option_chain uid gw (some tr)
  unfolding run_monitor_cycle
  cycle_loaded uid gw tr e =
      ap (λ p. monitor_loaded fl world get_option_chain uid (record gw { store = p.1 }) p.0)
        (kept_trade world.read_trade gw.store uid tr e)

  -- A trade that a cycle watches: live, with a chain that has a row for each of its tokens.
  pub record IsQuoted (tr : StoredTrade fl.F) (chain : OptionChainSnapshot fl.F)
      (ce pe : OptionChainRow fl.F) : Type 0 where
    pub live : is_left_alone tr.status ≡ false
    pub chain_found : get_option_chain tr.symbol tr.expiry ≡ some chain
    pub ce_found : last_row fl (λ r. r.ce_token) tr.ce_token chain.chain ≡ some ce
    pub pe_found : last_row fl (λ r. r.pe_token) tr.pe_token chain.chain ≡ some pe

  -- A cycle for a live trade in memory whose option rows are quoted stores the snapshot of the
  -- trade. Where the stop loss is hit, the trade is then stored as CLOSED_SL and its runtime is gone;
  -- otherwise both are as before. It calls no broker in either case.
  pub run_monitor_cycle-IsWatched :
      (uid : String) (gw : Gateway fl.F) (tr : StoredTrade fl.F) (chain : OptionChainSnapshot fl.F)
      (ce pe : OptionChainRow fl.F)
      → find gw.store.mem.trades uid ≡ some tr
      → IsQuoted tr chain ce pe
      → IsWatched tr uid
          (sl_hit fl tr (monitor_snapshot fl tr chain (world.clock gw.calls) ce pe).total_pnl)
          (monitor_snapshot fl tr chain (world.clock gw.calls) ce pe)
          gw
          (run_monitor_cycle fl world get_option_chain uid gw)
  unfolding monitor_loaded watch_rows
  run_monitor_cycle-IsWatched uid gw tr chain ce pe e q =
      rw (cycle_loaded uid gw tr e, q.live, q.chain_found, q.ce_found, q.pe_found)
        (watch-IsWatched tr uid chain gw ce pe)

  -- A cycle for a trade in memory that is CLOSED, FAILED or PENDING_FILL changes nothing.
  pub run_monitor_cycle-left_alone :
      (uid : String) (gw : Gateway fl.F) (tr : StoredTrade fl.F)
      → find gw.store.mem.trades uid ≡ some tr
      → is_left_alone tr.status ≡ true
      → run_monitor_cycle fl world get_option_chain uid gw ≡ gw
  unfolding monitor_loaded
  run_monitor_cycle-left_alone uid gw tr e q = rw (cycle_loaded uid gw tr e, q) refl
