-- ===== src/Trading/Summary/Response.antt =====
-- services/execution-gateway/internal/trading/execution_summary.go: `ExecutionSummary`. The rows
-- have no id and no times here.
pub mod Counts
use complete_dashboard.Prelude.{
  text_or, ℕ, suc, String, Bool, not, Option, none, some, List, [], ◌∷◌, ◌++◌, GoMap, find, put,
  str_eq, to_upper, trim_space, ◌+s◌, ◌&&◌, if◌then◌else◌, Result, err, ok,
}
use complete_dashboard.Prelude.Int.{ℤ, pos, add_int64, ltb_ℤ, eqb_ℤ, not_pos}
use complete_dashboard.Prelude.Float.{Float64}
use complete_dashboard.Prelude.Json.{JsonText}
use complete_dashboard.Chunker.{format_int}
use complete_dashboard.Trading.Store.{Database, TradeRow, OrderRow}
use complete_dashboard.Trading.Build.{is_fill}
use complete_dashboard.Trading.SquareOff.{abs_int64, RawIntents}
use complete_dashboard.Trading.Summary.{infer_order_phase, classify_order_lifecycle}
use complete_dashboard.Trading.Summary.Requests.{enrich_order_from_raw_intent, enriched_phase}
use complete_dashboard.Trading.SquareOffPlan.{
  HttpError, method_not_allowed, trade_uid_required, store_not_available, signed_filled,
  trade_row_of,
}

pub record ExecutionOrderSummary (F : Type 0) : Type 0 where
  pub trade_uid : String
  pub intent_id : String
  pub order_uid : String
  pub broker_order_id : String
  pub broker_name : String
  pub account_id : String
  pub symbol : String
  pub phase : String
  pub leg_type : String
  pub token : ℤ
  pub side : String
  pub quantity : ℤ
  pub status : String
  pub filled_qty : ℤ
  pub pending_qty : ℤ
  pub avg_fill_price : F
  pub lifecycle : String

pub record ExecutionNetPosition (F : Type 0) : Type 0 where
  pub symbol : String
  pub leg_type : String
  pub token : ℤ
  pub net_quantity : ℤ
  pub avg_price : F

pub record ExecutionSummaryResponse (F : Type 0) : Type 0 where
  pub trade_uid : String
  pub trade_status : String
  pub broker_name : String
  pub account_id : String
  pub symbol : String
  pub orders : List (ExecutionOrderSummary F)
  pub grouped_orders : GoMap (List (ExecutionOrderSummary F))
  pub positions : List (ExecutionNetPosition F)
  pub counts : GoMap ℕ

-- m[k]++ and m[k] = append(m[k], x), with the zero value where the key is missing
abbrev pub count_at : Option ℕ → ℕ
count_at none = 0
count_at (some n) = n

abbrev pub listed_at : {A : Type 0} → Option (List A) → List A
listed_at none = []
listed_at (some l) = l

module _ (fl : Float64) (json : JsonText fl.F) where
  open fl use {F, lit, add, mul, div, of_int}

  -- A row with what its request says, its phase and its class.
  unfoldable pub summarise_order : String → OrderRow F → ExecutionOrderSummary F
  unfolding enrich_order_from_raw_intent enriched_phase infer_order_phase classify_order_lifecycle
  summarise_order trade_symbol r =
      let read = enrich_order_from_raw_intent fl json in
      let phase =
        text_or (enriched_phase fl json r.raw_request)
          (infer_order_phase r.intent_id r.order_uid) in
      record {
        trade_uid = r.trade_uid;
        intent_id = r.intent_id;
        order_uid = r.order_uid;
        broker_order_id = r.broker_order_id;
        broker_name = r.broker_name;
        account_id = r.account_id;
        symbol = text_or (read.read_symbol r.raw_request) trade_symbol;
        phase = text_or phase "UNKNOWN";
        leg_type = read.read_leg_type r.raw_request;
        token = read.read_token r.raw_request;
        side = r.side;
        quantity = r.quantity;
        status = r.status;
        filled_qty = r.filled_qty;
        pending_qty = r.pending_qty;
        avg_fill_price = r.avg_fill_price;
        lifecycle = classify_order_lifecycle r.status;
      }

  abbrev pub summary_key : ExecutionOrderSummary F → String
  summary_key o = o.symbol +s "|" +s o.leg_type +s "|" +s format_int o.token

  abbrev pub summary_position :
      Option (ExecutionNetPosition F) → ExecutionOrderSummary F → ExecutionNetPosition F
  summary_position (some p) o = p
  summary_position none o = record {
    symbol = o.symbol;
    leg_type = o.leg_type;
    token = o.token;
    net_quantity = pos 0;
    avg_price = lit 0 0;
  }

  -- The average weighs by the size of the net quantity so far, not by all that was traded.
  unfoldable pub grow_summary_position :
      ExecutionOrderSummary F → ExecutionNetPosition F → ExecutionNetPosition F
  unfolding abs_int64 add_int64
  grow_summary_position o p =
      let q = signed_filled o.side o.filled_qty in
      let old_abs = abs_int64 p.net_quantity in
      let new_abs = add_int64 old_abs (abs_int64 q) in
      record p {
        avg_price =
            if not_pos new_abs
            then p.avg_price
            else div
                (add (mul p.avg_price (of_int old_abs))
                  (mul o.avg_fill_price (of_int (abs_int64 q))))
                (of_int new_abs);
        net_quantity = add_int64 p.net_quantity q;
      }

  abbrev pub with_position :
      GoMap (ExecutionNetPosition F) → ExecutionOrderSummary F → GoMap (ExecutionNetPosition F)
  with_position m o =
      if not (not_pos o.filled_qty) && is_fill o.status
      then put m (summary_key o)
          (grow_summary_position o (summary_position (find m (summary_key o)) o))
      else m

  -- resp.Orders, resp.GroupedOrders, resp.Counts and positionMap
  pub record SummaryState : Type 0 where
    pub orders : List (ExecutionOrderSummary F)
    pub grouped : GoMap (List (ExecutionOrderSummary F))
    pub counts : GoMap ℕ
    pub position_map : GoMap (ExecutionNetPosition F)

  unfoldable pub summarise : SummaryState → ExecutionOrderSummary F → SummaryState
  unfolding grow_summary_position
  summarise st o = record {
    orders = st.orders ++ o ∷ [];
    grouped = put st.grouped o.phase (listed_at (find st.grouped o.phase) ++ o ∷ []);
    counts = put st.counts o.lifecycle (suc (count_at (find st.counts o.lifecycle)));
    position_map = with_position st.position_map o;
  }

  -- for rows.Next(), over the rows of the trade
  unfoldable pub summarise_rows : String → String → List (OrderRow F) → SummaryState → SummaryState
  unfolding summarise summarise_order
  summarise_rows uid symbol [] st = st
  summarise_rows uid symbol (r ∷ rows) st =
      if str_eq r.trade_uid uid
      then summarise_rows uid symbol rows (summarise st (summarise_order symbol r))
      else summarise_rows uid symbol rows st

  unfoldable pub open_positions : GoMap (ExecutionNetPosition F) → List (ExecutionNetPosition F)
  open_positions [] = []
  open_positions (e ∷ m) =
      let rest = open_positions m in
      if eqb_ℤ e.value.net_quantity (pos 0) then rest else e.value ∷ rest

  abbrev pub no_orders : SummaryState
  no_orders = record { orders = []; grouped = []; counts = []; position_map = [] }

  -- `is_get` is r.Method == http.MethodGet; the rows stand in the order of the query.
  unfoldable pub execution_summary :
      Bool → String → Option (Database F) → Result HttpError (ExecutionSummaryResponse F)
  unfolding summarise_rows open_positions
  execution_summary is_get query db =
      let uid = trim_space query in
      if not is_get
      then err method_not_allowed
      else if str_eq uid ""
      then err trade_uid_required
      else elim db [
        | none ↦ err store_not_available
        | some rows ↦
            (let tr = trade_row_of fl rows uid in
              let st = summarise_rows uid tr.symbol rows.orders no_orders in
              ok (record {
                trade_uid = uid;
                trade_status = tr.status;
                broker_name = tr.broker_name;
                account_id = tr.account_id;
                symbol = tr.symbol;
                orders = st.orders;
                grouped_orders = st.grouped;
                positions = open_positions st.position_map;
                counts = st.counts;
              }))
      ]
