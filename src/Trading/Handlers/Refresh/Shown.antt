-- ===== src/Trading/Handlers/Refresh/Shown.antt =====
-- services/execution-gateway/internal/trading: what `ExecutionSummary` of execution_summary.go shows
-- after a refresh of lifecycle_refresh.go.
use complete_dashboard.Prelude.{
  ◌≡◌, refl, sym, ap, ◌∙◌, inl, inr, String, true, Option, none, some, List, [], find, str_eq,
  trim_space, Result, ok, err, Bool-cases,
}
use complete_dashboard.Prelude.Float.{Float64}
use complete_dashboard.Prelude.Json.{JsonText}
use complete_dashboard.Trading.Store.{Store, Database, TradeRow, OrderRow}
use complete_dashboard.Trading.SquareOffPlan.{HttpError, trade_row_of}
use complete_dashboard.Trading.Summary.Response.{ExecutionSummaryResponse, execution_summary}
use complete_dashboard.Trading.Handlers.Refresh.{
  RefreshError, RefreshTradeLifecycleResponse, refresh_trade_lifecycle,
}
use complete_dashboard.Trading.Handlers.Refresh.Answers.{
  row_in, Refreshes, refresh_trade_lifecycle-Refreshes,
}

module _ (fl : Float64) (json : JsonText fl.F) where
  -- The answer with another status of the trade.
  abbrev pub shows :
      String
      → Result HttpError (ExecutionSummaryResponse fl.F)
      → Result HttpError (ExecutionSummaryResponse fl.F)
  shows status (err e) = err e
  shows status (ok r) = ok (record r { trade_status = status })

  abbrev summary :
      String → Option (Database fl.F) → Result HttpError (ExecutionSummaryResponse fl.F)
  summary query d = execution_summary fl json true query d

  rows-shown :
      (query status : String) (db db' : Database fl.F) (row : TradeRow)
      → find db.trades (trim_space query) ≡ some row
      → find db'.trades (trim_space query) ≡ some (record row { status = status })
      → db'.orders ≡ db.orders
      → summary query (some db') ≡ shows status (summary query (some db))
  unfolding execution_summary
  rows-shown query status db db' row h h' k =
      let uid = trim_space query in
      let before : trade_row_of fl db uid ≡ row = rw (h, trade_row_of) refl in
      let after : trade_row_of fl db' uid ≡ record row { status = status } =
        rw (h', trade_row_of) refl in
      elim (Bool-cases (str_eq (trim_space query) "")) [
        | inl e ↦ rw e refl
        | inr e ↦ rw (e, before, after, k) refl
      ]

  -- The rows of a database that may be missing.
  abbrev row_at : Option (Database fl.F) → String → Option TradeRow
  row_at d uid = elim d [ none ↦ none | some db ↦ find db.trades uid ]

  abbrev orders_at : Option (Database fl.F) → List (OrderRow fl.F)
  orders_at d = elim d [ none ↦ [] | some db ↦ db.orders ]

  databases-shown :
      (query status : String) (d d' : Option (Database fl.F)) (row : TradeRow)
      → row_at d (trim_space query) ≡ some row
      → row_at d' (trim_space query) ≡ some (record row { status = status })
      → orders_at d' ≡ orders_at d
      → summary query d' ≡ shows status (summary query d)
  databases-shown query status none d' row h h' k = cc
  databases-shown query status (some db) none row h h' k = cc
  databases-shown query status (some db) (some db') row h h' k =
      rows-shown query status db db' row h h' k

  out-shown :
      (method query : String) (s : Store fl.F)
      (out : Result RefreshError RefreshTradeLifecycleResponse × Store fl.F)
      {resp : RefreshTradeLifecycleResponse}
      → out.0 ≡ ok resp
      → Refreshes method query s out
      → summary query out.1.db ≡ shows resp.new_status (summary query s.db)
  out-shown method query s (err e, s') h r = cc
  out-shown method query s (ok resp', s') {resp} h r =
      let (named, active, waits, written, others, same, memory) = r in
      let (row, before, old, after) = written in
      let answer : resp' ≡ resp = cc in
      databases-shown query resp'.new_status s.db s'.db row (ap (row_in s) (sym named) ∙ before)
        (ap (row_in s') (sym named) ∙ after) same
      ∙ ap (λ (x : RefreshTradeLifecycleResponse). shows x.new_status (summary query s.db)) answer

  -- After a refresh that answers, the summary of the trade is the one before it with the status that
  -- the refresh answers.
  pub refresh_trade_lifecycle-execution_summary :
      (method query : String) (s : Store fl.F) {resp : RefreshTradeLifecycleResponse}
      → (refresh_trade_lifecycle method query s).0 ≡ ok resp
      → execution_summary fl json true query (refresh_trade_lifecycle method query s).1.db
        ≡ shows resp.new_status (execution_summary fl json true query s.db)
  refresh_trade_lifecycle-execution_summary method query s h =
      out-shown method query s (refresh_trade_lifecycle method query s) h
        (refresh_trade_lifecycle-Refreshes method query s)
