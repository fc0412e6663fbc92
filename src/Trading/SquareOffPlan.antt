-- ===== src/Trading/SquareOffPlan.antt =====
-- services/execution-gateway/internal/trading/squareoff_plan.go: the closing orders that
-- `SquareOffPlan` shows for a trade. A row is given with what its request says.
use complete_dashboard.Prelude.{
  ◌+◌, String, Bool, Option, none, some, List, [], ◌∷◌, GoMap, find, put, str_eq, to_upper,
  trim_space, ◌+s◌, if◌then◌else◌, ◌%◌, ◌/◌, ◌==◌, Result, err, ok, ◌&&◌, not,
}
use complete_dashboard.Prelude.Int.{
  ℤ, pos, pos_part, neg_part, add_int64, neg_ℤ, ltb_ℤ, eqb_ℤ, not_pos,
}
use complete_dashboard.Prelude.Float.{Float64}
use complete_dashboard.Prelude.Json.{JsonText}
use complete_dashboard.Chunker.{format_int}
use complete_dashboard.Trading.Store.{Database, TradeRow, OrderRow}
use complete_dashboard.Trading.Build.{is_fill}
use complete_dashboard.Trading.SquareOff.{FilledOrder, abs_int64, position_key, RawIntents}
use complete_dashboard.Trading.Summary.Requests.{
  enrich_order_from_raw_intent, lot_size_from_trade_config,
}

pub record SquareOffPlanLeg (F : Type 0) : Type 0 where
  pub symbol : String
  pub leg_type : String
  pub token : ℤ
  pub net_quantity : ℤ
  pub avg_price : F
  pub square_off_side : String
  pub square_off_quantity : ℤ
  pub lot_size : ℤ
  pub lots : ℤ
  pub quantity_warning : String

pub record SquareOffPlanResponse (F : Type 0) : Type 0 where
  pub trade_uid : String
  pub trade_status : String
  pub broker_name : String
  pub account_id : String
  pub symbol : String
  pub lot_size : ℤ
  pub legs : List (SquareOffPlanLeg F)
  pub message : String

pub record Accumulator (F : Type 0) : Type 0 where
  pub symbol : String
  pub leg_type : String
  pub token : ℤ
  pub net_quantity : ℤ
  pub value : F
  pub abs_qty : ℤ

-- The answers 405, 400 and 500 of the handlers.
pub data HttpError : Type 0 where
  method_not_allowed trade_uid_required store_not_available : HttpError

-- strings.ToUpper(side) == "SELL", without trimming
abbrev pub signed_filled : String → ℤ → ℤ
signed_filled side qty = if str_eq (to_upper side) "SELL" then neg_ℤ qty else qty

module _ (fl : Float64) where
  open fl use {F, lit, add, mul, div, of_int}

  abbrev pub row_acc : Option (Accumulator F) → FilledOrder F → Accumulator F
  row_acc (some a) o = a
  row_acc none o = record {
    symbol = o.symbol;
    leg_type = o.leg_type;
    token = o.token;
    net_quantity = pos 0;
    value = lit 0 0;
    abs_qty = pos 0;
  }

  unfoldable pub grow_row : FilledOrder F → Accumulator F → Accumulator F
  unfolding abs_int64 add_int64
  grow_row o a =
      let q = signed_filled o.side o.filled_qty in
      record a {
        net_quantity = add_int64 a.net_quantity q;
        value = add a.value (mul (of_int (abs_int64 q)) o.avg_fill_price);
        abs_qty = add_int64 a.abs_qty (abs_int64 q);
      }

  -- for rows.Next()
  unfoldable pub accumulate : List (FilledOrder F) → GoMap (Accumulator F) → GoMap (Accumulator F)
  unfolding grow_row
  accumulate [] acc = acc
  accumulate (o ∷ orders) acc =
      if not_pos o.filled_qty
      then accumulate orders acc
      else accumulate orders
          (put acc (position_key o) (grow_row o (row_acc (find acc (position_key o)) o)))

  -- The lot size is positive where the quotient and the remainder are taken; they are those of the
  -- absolute value of the quantity, with its sign.
  abbrev pub quotient : ℤ → ℤ → ℤ
  quotient qty lot =
      if ltb_ℤ qty (pos 0)
      then neg_ℤ (pos (neg_part qty / pos_part lot))
      else pos (pos_part qty / pos_part lot)

  abbrev pub warning : ℤ → ℤ → String
  warning qty lot =
      if not_pos lot
      then "lot_size unavailable"
      else if (pos_part qty + neg_part qty) % pos_part lot == 0
      then ""
      else "quantity "
        +s format_int qty
        +s " is not an exact multiple of lot_size "
        +s format_int lot

  unfoldable pub plan_leg : ℤ → Accumulator F → SquareOffPlanLeg F
  unfolding abs_int64
  plan_leg lot a =
      let qty = abs_int64 a.net_quantity in
      record {
        symbol = a.symbol;
        leg_type = a.leg_type;
        token = a.token;
        net_quantity = a.net_quantity;
        avg_price = if not_pos a.abs_qty then lit 0 0 else div a.value (of_int a.abs_qty);
        square_off_side = if ltb_ℤ a.net_quantity (pos 0) then "BUY" else "SELL";
        square_off_quantity = qty;
        lot_size = lot;
        lots = if not_pos lot then pos 0 else quotient qty lot;
        quantity_warning = warning qty lot;
      }

  -- for _, a := range acc
  unfoldable pub plan_legs : ℤ → GoMap (Accumulator F) → List (SquareOffPlanLeg F)
  unfolding plan_leg
  plan_legs lot [] = []
  plan_legs lot (e ∷ acc) =
      let rest = plan_legs lot acc in
      if eqb_ℤ e.value.net_quantity (pos 0) then rest else plan_leg lot e.value ∷ rest

  -- WHERE trade_uid = $1 AND filled_qty > 0 AND status IN ('FILLED', 'SUCCESS')
  unfoldable pub plan_rows_of :
      RawIntents F → String → String → List (OrderRow F) → List (FilledOrder F)
  plan_rows_of raw uid symbol [] = []
  plan_rows_of raw uid symbol (r ∷ rows) =
      let rest = plan_rows_of raw uid symbol rows in
      let named = raw.read_symbol r.raw_request in
      if str_eq r.trade_uid uid && (not (not_pos r.filled_qty) && is_fill r.status)
      then record {
        side = r.side;
        filled_qty = r.filled_qty;
        avg_fill_price = r.avg_fill_price;
        symbol = if str_eq named "" then symbol else named;
        leg_type = raw.read_leg_type r.raw_request;
        token = raw.read_token r.raw_request;
      }
        ∷ rest
      else rest

  -- What the query of the trade reads, all empty where there is no such trade.
  abbrev pub unknown_trade : TradeRow
  unknown_trade = record {
    user_id = "";
    broker_name = "";
    account_id = "";
    symbol = "";
    status = "";
    config_json = "";
    created_at = 0;
  }

  abbrev pub trade_row_of : Database F → String → TradeRow
  trade_row_of db uid = elim (find db.trades uid) [ none ↦ unknown_trade | some t ↦ t ]

  abbrev pub plan_message : List (SquareOffPlanLeg F) → String
  plan_message [] = "No filled net position found for this trade. Nothing to square off yet."
  plan_message (l ∷ legs) = "Square-off plan generated from filled order quantities."

  -- `is_get` is r.Method == http.MethodGet.
  unfoldable pub square_off_plan :
      JsonText F → Bool → String → Option (Database F) → Result HttpError (SquareOffPlanResponse F)
  unfolding plan_legs accumulate plan_rows_of enrich_order_from_raw_intent
      lot_size_from_trade_config
  square_off_plan json is_get query db =
      let uid = trim_space query in
      if not is_get
      then err method_not_allowed
      else if str_eq uid ""
      then err trade_uid_required
      else elim db [
        | none ↦ err store_not_available
        | some rows ↦
            (let tr = trade_row_of rows uid in
              let lot = lot_size_from_trade_config fl json (some tr.config_json) tr.symbol in
              let orders =
                plan_rows_of (enrich_order_from_raw_intent fl json) uid tr.symbol rows.orders in
              let legs = plan_legs lot (accumulate orders []) in
              ok (record {
                trade_uid = uid;
                trade_status = tr.status;
                broker_name = tr.broker_name;
                account_id = tr.account_id;
                symbol = tr.symbol;
                lot_size = lot;
                legs = legs;
                message = plan_message legs;
              }))
      ]
