-- ===== src/Trading/SquareOff.antt =====
-- services/execution-gateway/internal/trading/squareoff_intents.go: the net positions of a trade and
-- the intents that `createSQFIntentsFromFilledNetPosition` makes of them. An order's row is given
-- with what `enrichOrderFromRawIntent` reads from its request.
pub mod Act
pub mod Net
pub mod Closes
use complete_dashboard.Prelude.{
  ℕ, suc, ◌+◌, ◌||◌, ◌&&◌, not, String, Bool, true, false, Option, none, some, List, [], ◌∷◌,
  Result, err, ok, str_eq, ◌+s◌, format_nat, trim_space, to_upper, equal_fold, if◌then◌else◌, find,
  put, GoMap, Entry,
}
use complete_dashboard.Prelude.Int.{ℤ, pos, negsuc, wrap, add_int64, neg_ℤ, ltb_ℤ, eqb_ℤ, not_pos}
use complete_dashboard.Prelude.Float.{Float64}
use complete_dashboard.Chunker.{format_int}
use complete_dashboard.Trading.Models.{StoredTrade, OrderIntent, ExecutionResult}
use complete_dashboard.Trading.Symbols.{build_short_order_uid}
use complete_dashboard.Trading.Store.{
  Store, RuntimeTrade, Database, OrderRow, load_trade, load_runtime, delete_runtime,
}
use complete_dashboard.Trading.Build.{
  World, Gateway, is_fill, send, after_send, record_intent, record_execution,
}
use complete_dashboard.Trading.Deploy.{put_trade, with_status}

-- v < 0 ? -v : v
unfoldable pub abs_int64 : ℤ → ℤ
unfolding wrap
abs_int64 v = if ltb_ℤ v (pos 0) then wrap (neg_ℤ v) else v

-- An order of the trade as the query returns it, with what its request says.
pub record FilledOrder (F : Type 0) : Type 0 where
  pub side : String
  pub filled_qty : ℤ
  pub avg_fill_price : F
  pub symbol : String
  pub leg_type : String
  pub token : ℤ

pub record SqfNetPosition (F : Type 0) : Type 0 where
  pub symbol : String
  pub leg_type : String
  pub token : ℤ
  pub net_qty : ℤ
  pub avg_price : F
  pub abs_qty_seen : ℤ

pub data SqfError : Type 0 where
  trade_not_found waits_for_fills no_database nothing_to_close sqf_no_executor invalid_percentage :
      SqfError
  sqf_failed : String → SqfError

-- What reads a request: the parts of `enrichOrderFromRawIntent`.
pub record RawIntents (F : Type 0) : Type 0 where
  pub read_symbol : String → String
  pub read_leg_type : String → String
  pub read_token : String → ℤ

abbrev pub signed_qty : String → ℤ → ℤ
signed_qty side qty = if str_eq (to_upper (trim_space side)) "SELL" then neg_ℤ qty else qty

-- %s|%s|%d
abbrev pub position_key : {F : Type 0} → FilledOrder F → String
position_key o = o.symbol +s "|" +s o.leg_type +s "|" +s format_int o.token

module _ (fl : Float64) where
  open fl use {F, lit, add, mul, div, of_int, fle}

  -- WHERE trade_uid = $1 AND filled_qty > 0 AND status IN ('FILLED', 'SUCCESS')
  unfoldable pub filled_orders :
      RawIntents F → StoredTrade F → List (OrderRow F) → List (FilledOrder F)
  filled_orders raw tr [] = []
  filled_orders raw tr (r ∷ rows) =
      let rest = filled_orders raw tr rows in
      let symbol = raw.read_symbol r.raw_request in
      if str_eq r.trade_uid tr.trade_uid && (not (not_pos r.filled_qty) && is_fill r.status)
      then record {
        side = r.side;
        filled_qty = r.filled_qty;
        avg_fill_price = r.avg_fill_price;
        symbol = if str_eq symbol "" then tr.symbol else symbol;
        leg_type = raw.read_leg_type r.raw_request;
        token = raw.read_token r.raw_request;
      }
        ∷ rest
      else rest

  abbrev pub fresh_position : FilledOrder F → SqfNetPosition F
  fresh_position o = record {
    symbol = o.symbol;
    leg_type = o.leg_type;
    token = o.token;
    net_qty = pos 0;
    avg_price = lit 0 0;
    abs_qty_seen = pos 0;
  }

  abbrev pub position_or : Option (SqfNetPosition F) → FilledOrder F → SqfNetPosition F
  position_or none o = fresh_position o
  position_or (some p) o = p

  unfoldable pub grow_position : FilledOrder F → SqfNetPosition F → SqfNetPosition F
  unfolding abs_int64 add_int64
  grow_position o p =
      let q = signed_qty o.side o.filled_qty in
      record p {
        net_qty = add_int64 p.net_qty q;
        avg_price = add p.avg_price (mul o.avg_fill_price (of_int (abs_int64 q)));
        abs_qty_seen = add_int64 p.abs_qty_seen (abs_int64 q);
      }

  -- for rows.Next()
  unfoldable pub net_positions :
      List (FilledOrder F) → GoMap (SqfNetPosition F) → GoMap (SqfNetPosition F)
  unfolding grow_position
  net_positions [] m = m
  net_positions (o ∷ orders) m =
      if not_pos o.filled_qty || not_pos o.token
      then net_positions orders m
      else net_positions orders
          (put m (position_key o) (grow_position o (position_or (find m (position_key o)) o)))

  unfoldable pub close_side : SqfNetPosition F → String
  close_side p = if ltb_ℤ p.net_qty (pos 0) then "BUY" else "SELL"

  unfoldable pub close_price : SqfNetPosition F → F
  close_price p =
      if not (not_pos p.abs_qty_seen)
      then (let avg = div p.avg_price (of_int p.abs_qty_seen) in
          if fle avg (lit 0 0) then lit 5 2 else avg)
      else lit 5 2

  unfoldable pub leg_code : SqfNetPosition F → String
  leg_code p =
      if equal_fold p.leg_type "CE"
      then "SCE"
      else if equal_fold p.leg_type "PE"
      then "SPE"
      else "SQF"

  -- `stamp` is the time in the format of the order ids.
  unfoldable pub sqf_intent : StoredTrade F → String → ℕ → SqfNetPosition F → OrderIntent F
  unfolding abs_int64 close_side close_price leg_code
  sqf_intent tr stamp count p = record {
    intent_id = build_short_order_uid tr.symbol (leg_code p) stamp count;
    trade_uid = tr.trade_uid;
    token = p.token;
    symbol = tr.symbol;
    exchange_segment = tr.exchange_segment;
    side = close_side p;
    quantity = abs_int64 p.net_qty;
    order_type = "LIMIT";
    limit_price = some (close_price p);
    product_type = tr.product_type;
    leg_type = p.leg_type;
    phase = "SQF";
    order_uid = build_short_order_uid tr.symbol (leg_code p) stamp (count + 100);
    broker_name = tr.broker_name;
    account_id = tr.account_id;
    expected_price = close_price p;
  }

  -- for _, pos := range positions, with the count of the intents created
  unfoldable pub closing_intents :
      StoredTrade F → String → ℕ → GoMap (SqfNetPosition F) → List (OrderIntent F)
  unfolding sqf_intent abs_int64
  closing_intents tr stamp count [] = []
  closing_intents tr stamp count (e ∷ m) =
      if eqb_ℤ e.value.net_qty (pos 0) || not_pos (abs_int64 e.value.net_qty)
      then closing_intents tr stamp count m
      else sqf_intent tr stamp count e.value ∷ closing_intents tr stamp (suc count) m

-- close(rt.StopCh); s.Store.DeleteRuntime(tradeUID)
unfoldable pub stop_runtime : {F : Type 0} → Gateway F → String → Gateway F
stop_runtime gw uid = elim (load_runtime gw.store uid) [
  | none ↦ gw
  | some rt ↦ record gw { store = delete_runtime gw.store uid }
]
