-- ===== src/Trading/Handlers/Refresh/Ignored.antt =====
-- services/execution-gateway/internal/trading: the statuses that lifecycle_refresh.go writes, and
-- what store_postgres.go and `SquareOff` of service.go read afterwards.
use complete_dashboard.Prelude.{
  ◌≡◌, ◌≢◌, inl, inr, refl, sym, arith, eq_iff, ◌∙◌, ap, ℕ, String, Bool, true, false, Option, none,
  some, List, [], ◌∷◌, find, find-put, str_eq, trim_space, ◌||◌, if◌then◌else◌, Result, err,
  Bool-cases, Option-cases,
}
use complete_dashboard.Prelude.Float.{Float64}
use complete_dashboard.Trading.Models.{StoredTrade}
use complete_dashboard.Trading.Store.{
  Store, Database, TradeRow, hydrate_stored_trade, load_trade_from_db, load_trade,
}
use complete_dashboard.Trading.Build.{World, Gateway}
use complete_dashboard.Trading.SquareOff.{RawIntents, SqfError, waits_for_fills}
use complete_dashboard.Trading.SquareOff.Act.{square_off, square_off_loaded}
use complete_dashboard.Trading.Handlers.Refresh.{
  refresh_in, refresh_trade_lifecycle, with_refreshed,
}
use complete_dashboard.Trading.Handlers.Refresh.Answers.{row_in}

-- Requests, each by its method and its trade_uid, one after the other.
abbrev pub refresh_all : {F : Type 0} → List (String × String) → Store F → Store F
refresh_all [] s = s
refresh_all ((method, query) ∷ requests) s =
    refresh_all requests (refresh_trade_lifecycle method query s).1

module _ {F : Type 0} (s : Store F) (P : Store F → Type 0) (same : P s)
    (written : (db : Database F) (row : TradeRow) (uid status : String)
      → s.db ≡ some db
      → find db.trades uid ≡ some row
      → P (record s { db = some (with_refreshed db uid row status) })) where
  refresh_in-cases : (uid : String) (d : Option (Database F)) → s.db ≡ d → P (refresh_in uid s d).1
  refresh_in-cases uid none h = same
  refresh_in-cases uid (some db) h = elim (Option-cases (find db.trades uid)) [
    | inl e ↦ rw e same
    | inr (row, e) ↦ rw e (written db row uid _ h e)
  ]

  -- A refresh leaves the store, or writes the status of one row.
  refresh_trade_lifecycle-cases :
      (method query : String) → P (refresh_trade_lifecycle method query s).1
  unfolding refresh_trade_lifecycle
  refresh_trade_lifecycle-cases method query =
      elim (Bool-cases (str_eq method "POST" || str_eq method "GET")) [
        | inr other ↦ rw other same
        | inl known ↦ rw known (elim (Bool-cases (str_eq (trim_space query) "")) [
          | inl empty ↦ rw empty same
          | inr named ↦ rw named (refresh_in-cases (trim_space query) s.db refl)
        ])
      ]

module _ {F : Type 0} (read_trade : String → StoredTrade F) where
  -- What is written of the trades tells their statuses.
  abbrev pub TellsStatus : Store F → Type 0
  TellsStatus s =
      (uid : String) (row : TradeRow)
      → row_in s uid ≡ some row
      → (read_trade row.config_json).status ≢ ""

  abbrev pub LoadsAs : Store F → Store F → Type 0
  LoadsAs s s' = (uid : String) → (load_trade read_trade s' uid).0 ≡ (load_trade read_trade s uid).0

  hydrate-status :
      (uid status : String) (row : TradeRow)
      → (read_trade row.config_json).status ≢ ""
      → hydrate_stored_trade read_trade uid (record row { status = status })
        ≡ hydrate_stored_trade read_trade uid row
  unfolding hydrate_stored_trade
  hydrate-status uid status row h =
      let told : str_eq (read_trade row.config_json).status "" ≡ false =
        ground (arith, eq_iff (read_trade row.config_json).status "", h) in
      rw told refl

  loaded-found :
      (s : Store F) (d : Option (Database F)) (uid : String)
      → load_trade_from_db read_trade d uid ≡ load_trade_from_db read_trade s.db uid
      → (load_trade read_trade (record s { db = d }) uid).0 ≡ (load_trade read_trade s uid).0
  unfolding load_trade
  loaded-found s d uid h = elim (Option-cases (find s.mem.trades uid)) [
    | inr (tr, e) ↦ rw (load_trade, e) refl
    | inl e ↦ elim (Option-cases (load_trade_from_db read_trade s.db uid)) [
      | inl k ↦ rw (load_trade, e, h, k) refl
      | inr (tr, k) ↦ rw (load_trade, e, h, k) refl
    ]
  ]

  from_db-refreshed :
      (db : Database F) (row : TradeRow) (uid status j : String)
      → find db.trades uid ≡ some row
      → (read_trade row.config_json).status ≢ ""
      → load_trade_from_db read_trade (some (with_refreshed db uid row status)) j
        ≡ load_trade_from_db read_trade (some db) j
  unfolding load_trade_from_db
  from_db-refreshed db row uid status j h told =
      let new = record row { status = status } in
      elim (Bool-cases (str_eq uid j)) [
        | inl e ↦
            rw
              (
                load_trade_from_db,
                find-put db.trades uid j new,
                e,
                ← (eq_iff uid j).0 e,
                h,
                hydrate-status uid status row told,
              )
              (ap (λ u. some (hydrate_stored_trade read_trade u row)) ((eq_iff uid j).0 e))
        | inr e ↦ rw (load_trade_from_db, find-put db.trades uid j new, e) refl
      ]

  written-LoadsAs :
      (s : Store F) (db : Database F) (row : TradeRow) (uid status : String)
      → TellsStatus s
      → s.db ≡ some db
      → find db.trades uid ≡ some row
      → LoadsAs s (record s { db = some (with_refreshed db uid row status) })
  written-LoadsAs s db row uid status tells h k j =
      loaded-found s (some (with_refreshed db uid row status)) j (
        from_db-refreshed db row uid status j k (tells uid row (rw (h, row_in) k))
        ∙ ap (λ d. load_trade_from_db read_trade d j) (sym h))

  written-TellsStatus :
      (s : Store F) (db : Database F) (row : TradeRow) (uid status : String)
      → TellsStatus s
      → s.db ≡ some db
      → find db.trades uid ≡ some row
      → TellsStatus (record s { db = some (with_refreshed db uid row status) })
  written-TellsStatus s db row uid status tells h k j r q bad =
      let new = record row { status = status } in
      let found : (if str_eq uid j then some new else find db.trades j) ≡ some r =
        sym (find-put db.trades uid j new) ∙ q in
      elim (Bool-cases (str_eq uid j)) [
        | inl e ↦
            let changed : new ≡ r = ground (arith, found, e) in
            tells uid row (rw (h, row_in) k)
              (ap (λ (t : TradeRow). (read_trade t.config_json).status) changed ∙ bad)
        | inr e ↦ tells j r (rw (h, row_in) (ground (arith, found, e))) bad
      ]

  -- Whatever refreshes are asked for, every trade is loaded with the status that it had before, where
  -- what is written of the trades tells their statuses.
  refresh_all-LoadsAs :
      (requests : List (String × String)) (s : Store F)
      → TellsStatus s
      → LoadsAs s (refresh_all requests s)
  refresh_all-LoadsAs [] s tells uid = refl
  refresh_all-LoadsAs ((method, query) ∷ requests) s tells uid =
      let next = (refresh_trade_lifecycle method query s).1 in
      refresh_all-LoadsAs requests next
        (refresh_trade_lifecycle-cases s TellsStatus tells
          (λ db row u st h k. written-TellsStatus s db row u st tells h k) method query)
        uid
      ∙ refresh_trade_lifecycle-cases s (LoadsAs s) (λ u. refl)
          (λ db row u st h k. written-LoadsAs s db row u st tells h k) method query uid

module _ (fl : Float64) (world : World fl.F) (raw : RawIntents fl.F) (format_stamp : ℕ → String)
    (allow_live : Bool) (has_executor : StoredTrade fl.F → Bool) (uid : String) where
  abbrev squared : Gateway fl.F → Result SqfError (Unit {0}) × Gateway fl.F
  squared gw = square_off fl world raw format_stamp allow_live has_executor uid gw

  waiting-refused :
      (gw : Gateway fl.F) {tr : StoredTrade fl.F}
      → (load_trade world.read_trade gw.store uid).0 ≡ some tr
      → tr.status ≡ "PENDING_FILL"
      → ((squared gw).0 ≡ err waits_for_fills) × ((squared gw).1.calls ≡ gw.calls)
  unfolding square_off square_off_loaded
  waiting-refused gw {tr} h waits =
      let test : str_eq tr.status "PENDING_FILL" ≡ true =
        (eq_iff tr.status "PENDING_FILL").1 waits in
      rw (h, test) (refl, refl)

  -- A trade that is loaded as waiting for its fills is refused by the square-off, which calls no
  -- broker, whatever refreshes come before it and whatever status they write, where what is written
  -- of the trades tells their statuses.
  pub refresh_all-square_off :
      (requests : List (String × String)) (gw : Gateway fl.F) {tr : StoredTrade fl.F}
      → TellsStatus world.read_trade gw.store
      → (load_trade world.read_trade gw.store uid).0 ≡ some tr
      → tr.status ≡ "PENDING_FILL"
      → ((square_off fl world raw format_stamp allow_live has_executor uid
            (record gw { store = refresh_all requests gw.store })).0
          ≡ err waits_for_fills)
        × ((square_off fl world raw format_stamp allow_live has_executor uid
              (record gw { store = refresh_all requests gw.store })).1.calls
            ≡ gw.calls)
  refresh_all-square_off requests gw tells h waits =
      waiting-refused (record gw { store = refresh_all requests gw.store })
        (refresh_all-LoadsAs world.read_trade requests gw.store tells uid ∙ h) waits
