-- ===== src/Trading/Handlers/Refresh.antt =====
-- services/execution-gateway/internal/trading/lifecycle_refresh.go: `RefreshTradeLifecycle`. The
-- statements of the database succeed, and the constant parts of the answer are left out.
pub mod Answers
pub mod Ignored
pub mod Shown
use complete_dashboard.Prelude.{
  ℕ, String, Bool, Option, none, some, List, [], ◌∷◌, GoMap, find, put, str_eq, to_upper,
  trim_space, has_prefix, contains, len, ltb, ◌&&◌, ◌||◌, not, if◌then◌else◌, Result, ok, err,
}
use complete_dashboard.Trading.Lifecycle.{
  BuildOrderLifecycleCounts, BuildRow, lifecycle_counts, refreshed_status,
}
use complete_dashboard.Trading.Store.{Store, Database, TradeRow, OrderRow}
use complete_dashboard.Trading.SquareOffPlan.{
  HttpError, method_not_allowed, trade_uid_required, store_not_available,
}

pub data RefreshError : Type 0 where
  refused : HttpError → RefreshError
  no_such_trade : RefreshError

pub record RefreshTradeLifecycleResponse : Type 0 where
  pub trade_uid : String
  pub old_status : String
  pub new_status : String
  pub counts : BuildOrderLifecycleCounts
  pub changed : Bool

-- id LIKE 'BUI_%', where _ is any one character
unfoldable pub like_build_id : String → Bool
like_build_id id = has_prefix id "BUI" && ltb 3 (len id)

-- What the database's text of a request says of its phase.
unfoldable pub says_build : String → Bool
unfolding to_upper contains
says_build raw =
    let text = to_upper raw in
    contains text "\"PHASE\":\"BUILD\"" || contains text "\"PHASE\": \"BUILD\""

abbrev pub refresh_response : String → String → List BuildRow → RefreshTradeLifecycleResponse
refresh_response uid old rows = record {
  trade_uid = uid;
  old_status = old;
  new_status = refreshed_status rows;
  counts = lifecycle_counts rows;
  changed = not (str_eq (trim_space old) (trim_space (refreshed_status rows)));
}

module _ {F : Type 0} where
  -- The WHERE of the query.
  unfoldable pub is_build_order : String → OrderRow F → Bool
  unfolding like_build_id says_build
  is_build_order uid r =
      str_eq r.trade_uid uid
      && (like_build_id r.intent_id || like_build_id r.order_uid || says_build r.raw_request)

  abbrev pub build_row : OrderRow F → BuildRow
  build_row r = record { status = r.status; filled_qty = r.filled_qty; quantity = r.quantity }

  -- WITH build_orders AS (…)
  unfoldable pub build_rows : String → List (OrderRow F) → List BuildRow
  build_rows uid [] = []
  build_rows uid (r ∷ rows) =
      let rest = build_rows uid rows in if is_build_order uid r then build_row r ∷ rest else rest

  -- UPDATE trades SET status = $2 WHERE trade_uid = $1, for the row that was found
  abbrev pub with_refreshed : Database F → String → TradeRow → String → Database F
  with_refreshed db uid row status = record db {
    trades = put db.trades uid (record row { status = status });
  }

  abbrev pub refresh_found :
      String
      → Store F
      → Database F
      → Option TradeRow
      → Result RefreshError RefreshTradeLifecycleResponse × Store F
  refresh_found uid s db none = (err no_such_trade, s)
  refresh_found uid s db (some row) =
      let rows = build_rows uid db.orders in
      (
        ok (refresh_response uid row.status rows),
        record s { db = some (with_refreshed db uid row (refreshed_status rows)) },
      )

  abbrev pub refresh_in :
      String
      → Store F
      → Option (Database F)
      → Result RefreshError RefreshTradeLifecycleResponse × Store F
  refresh_in uid s none = (err (refused store_not_available), s)
  refresh_in uid s (some db) = refresh_found uid s db (find db.trades uid)

  -- The method and the trade_uid of the query.
  unfoldable pub refresh_trade_lifecycle :
      String → String → Store F → Result RefreshError RefreshTradeLifecycleResponse × Store F
  unfolding build_rows refreshed_status lifecycle_counts
  refresh_trade_lifecycle method query s =
      let uid = trim_space query in
      if not (str_eq method "POST" || str_eq method "GET")
      then (err (refused method_not_allowed), s)
      else if str_eq uid ""
      then (err (refused trade_uid_required), s)
      else refresh_in uid s s.db
