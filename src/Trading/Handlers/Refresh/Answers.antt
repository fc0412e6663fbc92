-- ===== src/Trading/Handlers/Refresh/Answers.antt =====
-- services/execution-gateway/internal/trading/lifecycle_refresh.go: what a refresh answers and what
-- it changes.
use complete_dashboard.Prelude.{
  ◌≡◌, ◌≢◌, ◌↔◌, ◌⊎◌, inl, inr, refl, arith, eq_iff, String, true, false, Option, none, some, List,
  [], ◌∷◌, find, find-put-same, find-put-other, str_eq, trim_space, ◌||◌, Result, ok, err, All,
  Bool-cases, Option-cases,
}
use complete_dashboard.Prelude.Int.{leb_ℤ, ltb_ℤ, not_pos}
use complete_dashboard.Trading.Lifecycle.{
  counts_filled, counts_pending, refreshed_status, trade_status_active, trade_status_pending_fill,
}
use complete_dashboard.Trading.Lifecycle.Refreshed.{
  Any, refreshed_status-active, refreshed_status-pending,
}
use complete_dashboard.Trading.Store.{Store, Database, TradeRow, OrderRow}
use complete_dashboard.Trading.Handlers.Refresh.{
  RefreshError, RefreshTradeLifecycleResponse, is_build_order, build_row, build_rows, refresh_in,
  refresh_found, refresh_trade_lifecycle,
}

module _ {F : Type 0} where
  abbrev pub IsWhole : OrderRow F → Type 0
  IsWhole r =
      ((r.status ≡ "FILLED") ⊎ (r.status ≡ "SUCCESS"))
      × (leb_ℤ r.quantity r.filled_qty ≡ true)
      × (not_pos r.quantity ≡ false)

  abbrev pub AllBuilt : String → List (OrderRow F) → Type 0
  AllBuilt uid rows = All (λ r. is_build_order uid r ≡ true → IsWhole r) rows

  abbrev pub SomeBuild : String → List (OrderRow F) → Type 0
  SomeBuild uid [] = ⊥
  SomeBuild uid (r ∷ rows) = (is_build_order uid r ≡ true) ⊎ SomeBuild uid rows

  abbrev pub IsOpen : OrderRow F → Type 0
  IsOpen r =
      ((r.status ≡ "OPEN") ⊎ ((r.status ≡ "SUBMITTED") ⊎ (r.status ≡ "PARTIALLY_FILLED")))
      × (ltb_ℤ r.filled_qty r.quantity ≡ true)

  abbrev pub SomeOpen : String → List (OrderRow F) → Type 0
  SomeOpen uid [] = ⊥
  SomeOpen uid (r ∷ rows) = ((is_build_order uid r ≡ true) × IsOpen r) ⊎ SomeOpen uid rows

  counts_filled-IsWhole : (r : OrderRow F) → (counts_filled (build_row r) ≡ true) ↔ IsWhole r
  unfolding counts_filled
  counts_filled-IsWhole r = (
    λ h. ground (arith, eq_iff r.status "FILLED", eq_iff r.status "SUCCESS"),
    λ h. ground (arith, eq_iff r.status "FILLED", eq_iff r.status "SUCCESS"),
  )

  build_rows-some :
      (uid : String) (rows : List (OrderRow F)) → (build_rows uid rows ≢ []) ↔ SomeBuild uid rows
  unfolding build_rows
  build_rows-some uid [] = (λ h. h refl, λ h. absurd h)
  build_rows-some uid (r ∷ rows) = elim (Bool-cases (is_build_order uid r)) [
    | inl e ↦ rw e (λ h. inl refl, λ h k. cc)
    | inr e ↦ rw e (
      λ h. inr ((build_rows-some uid rows).0 h),
      λ h. elim h [ inl k ↦ cc | inr k ↦ (build_rows-some uid rows).1 k ],
    )
  ]

  build_rows-All :
      (uid : String) (rows : List (OrderRow F))
      → All (λ r. counts_filled r ≡ true) (build_rows uid rows) ↔ AllBuilt uid rows
  unfolding build_rows
  build_rows-All uid [] = (λ h. tt, λ h. tt)
  build_rows-All uid (r ∷ rows) =
      let whole = counts_filled-IsWhole r in
      let rest = build_rows-All uid rows in
      elim (Bool-cases (is_build_order uid r)) [
        | inl e ↦ rw e (λ h. (λ k. whole.0 h.0, rest.0 h.1), λ h. (whole.1 (h.0 refl), rest.1 h.1))
        | inr e ↦ rw e (λ h. (λ k. cc, rest.0 h), λ h. rest.1 h.1)
      ]

  counts_pending-IsOpen : (r : OrderRow F) → IsOpen r → counts_pending (build_row r) ≡ true
  unfolding counts_pending
  counts_pending-IsOpen r h = ground (
    arith,
    eq_iff r.status "OPEN",
    eq_iff r.status "SUBMITTED",
    eq_iff r.status "PARTIALLY_FILLED",
  )

  build_rows-open :
      (uid : String) (rows : List (OrderRow F))
      → SomeOpen uid rows
      → Any counts_pending (build_rows uid rows)
  unfolding build_rows
  build_rows-open uid [] h = h
  build_rows-open uid (r ∷ rows) (inl (b, h)) = rw b (inl (counts_pending-IsOpen r h))
  build_rows-open uid (r ∷ rows) (inr h) = elim (Bool-cases (is_build_order uid r)) [
    | inl e ↦ rw e (inr (build_rows-open uid rows h))
    | inr e ↦ rw e (build_rows-open uid rows h)
  ]

  -- The rows of the database, if there is one.
  abbrev pub orders_in : Store F → List (OrderRow F)
  orders_in s = elim s.db [ none ↦ [] | some db ↦ db.orders ]

  abbrev pub row_in : Store F → String → Option TradeRow
  row_in s uid = elim s.db [ none ↦ none | some db ↦ find db.trades uid ]

  -- The row of the trade, with the new status in place of the old one.
  abbrev pub Written : Store F → Store F → RefreshTradeLifecycleResponse → Type 0
  Written s s' resp =
      (row : TradeRow) × (row_in s resp.trade_uid ≡ some row)
      × (row.status ≡ resp.old_status)
      × (row_in s' resp.trade_uid ≡ some (record row { status = resp.new_status }))

  -- The request that names the trade of a row.
  abbrev pub Names : String → String → Store F → Type 0
  Names method query s =
      ((method ≡ "POST") ⊎ (method ≡ "GET"))
      × (trim_space query ≢ "")
      × (row : TradeRow) × (row_in s (trim_space query) ≡ some row)

  abbrev pub Refreshes :
      String
      → String
      → Store F
      → Result RefreshError RefreshTradeLifecycleResponse × Store F
      → Type 0
  Refreshes method query s (err e, s') = (s' ≡ s) × ¬ (Names method query s)
  Refreshes method query s (ok resp, s') =
      (resp.trade_uid ≡ trim_space query)
      × ((resp.new_status ≡ trade_status_active)
          ↔ (SomeBuild resp.trade_uid (orders_in s) × AllBuilt resp.trade_uid (orders_in s)))
      × (SomeOpen resp.trade_uid (orders_in s) → resp.new_status ≡ trade_status_pending_fill)
      × Written s s' resp
      × ((j : String) → str_eq resp.trade_uid j ≡ false → row_in s' j ≡ row_in s j)
      × (orders_in s' ≡ orders_in s)
      × (s'.mem ≡ s.mem)

  active-built :
      (uid : String) (rows : List (OrderRow F))
      → (refreshed_status (build_rows uid rows) ≡ trade_status_active)
        ↔ (SomeBuild uid rows × AllBuilt uid rows)
  active-built uid rows =
      let active = refreshed_status-active (build_rows uid rows) in
      let some_row = build_rows-some uid rows in
      let all = build_rows-All uid rows in
      (
        λ h. (some_row.0 (active.0 h).0, all.0 (active.0 h).1),
        λ h. active.1 (some_row.1 h.0, all.1 h.1),
      )

  found-Refreshes :
      (method query : String) (s : Store F) {db : Database F} {row : TradeRow}
      → s.db ≡ some db
      → find db.trades (trim_space query) ≡ some row
      → Refreshes method query s (refresh_found (trim_space query) s db (some row))
  found-Refreshes method query s {db} {row} h k =
      let uid = trim_space query in
      let built = active-built uid db.orders in
      let new = record row { status = refreshed_status (build_rows uid db.orders) } in
      rw h (
        refl,
        built,
        λ h. refreshed_status-pending (build_rows uid db.orders) (build_rows-open uid db.orders h),
        (row, k, refl, find-put-same db.trades uid new),
        λ j ne. find-put-other db.trades uid j new ne,
        refl,
        refl,
      )

  in-Refreshes :
      (method query : String) (s : Store F) (d : Option (Database F))
      → s.db ≡ d
      → Refreshes method query s (refresh_in (trim_space query) s d)
  in-Refreshes method query s none h = (refl, λ n. ground (arith, n.3))
  in-Refreshes method query s (some db) h =
      elim (Option-cases (find db.trades (trim_space query))) [
        | inl e ↦ rw e (refl, λ n. ground (arith, n.3))
        | inr (row, e) ↦ rw e (found-Refreshes method query s h e)
      ]

  -- A refresh that names a trade of the database, by POST or GET, answers with the status that it has
  -- then stored for it: active exactly if the trade has a build order and each is filled to its
  -- positive quantity, and waiting for fills while a build order is open and not filled. The rest of
  -- its row, every other trade, every order and the memory stay as they are, and a request that is
  -- refused leaves all.
  pub refresh_trade_lifecycle-Refreshes :
      (method query : String) (s : Store F)
      → Refreshes method query s (refresh_trade_lifecycle method query s)
  unfolding refresh_trade_lifecycle
  refresh_trade_lifecycle-Refreshes method query s =
      elim (Bool-cases (str_eq method "POST" || str_eq method "GET")) [
        | inr other ↦
            rw other (refl, λ n. ground (arith, n.0, eq_iff method "POST", eq_iff method "GET"))
        | inl known ↦ rw known (elim (Bool-cases (str_eq (trim_space query) "")) [
          | inl empty ↦ rw empty (refl, λ n. n.1 ((eq_iff (trim_space query) "").0 empty))
          | inr named ↦ rw named (in-Refreshes method query s s.db refl)
        ])
      ]
