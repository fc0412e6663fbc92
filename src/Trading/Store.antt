-- ===== src/Trading/Store.antt =====
-- services/execution-gateway/internal/trading: `MemoryStore` of service.go and the
-- `PostgresBackedStore` of store_postgres.go, which writes the same trades and intents to a
-- database. `db = none` is a store with no database. A statement that the database refuses is only
-- logged by the source; here the statements succeed.
pub mod Marks
use complete_dashboard.Prelude.{
  text_or, ℕ, String, Bool, Option, none, some, List, [], ◌∷◌, ◌++◌, map, GoMap, find, put, delete,
  ◌==◌, str_eq, if◌then◌else◌,
}
use complete_dashboard.Prelude.Int.{ℤ, pos}
use complete_dashboard.Trading.Models.{StoredTrade, StoredIntent, OrderIntent, TradeSnapshot}
pub mod Loads
pub mod Intents

-- A channel is what matters of it: whether it is closed.
pub record RuntimeTrade (F : Type 0) : Type 0 where
  pub trade : StoredTrade F
  pub snapshot : TradeSnapshot F
  pub stop_closed : Bool

pub record MemoryStore (F : Type 0) : Type 0 where
  pub trades : GoMap (StoredTrade F)
  pub intents : GoMap (List (StoredIntent F))
  pub snapshots : GoMap (TradeSnapshot F)
  pub runtimes : GoMap (RuntimeTrade F)

-- A row of `orders`. What no statement has set yet is empty or zero, as COALESCE reads it.
pub record OrderRow (F : Type 0) : Type 0 where
  pub intent_id : String
  pub order_uid : String
  pub trade_uid : String
  pub broker_name : String
  pub account_id : String
  pub side : String
  pub quantity : ℤ
  pub order_type : String
  pub limit_price : Option F
  pub status : String
  pub raw_request : String
  pub broker_order_id : String
  pub filled_qty : ℤ
  pub pending_qty : ℤ
  pub avg_fill_price : F

pub record TradeRow : Type 0 where
  pub user_id : String
  pub broker_name : String
  pub account_id : String
  pub symbol : String
  pub status : String
  pub config_json : String
  pub created_at : ℕ

-- A row of `order_events`.
pub record OrderEvent : Type 0 where
  pub intent_id : String
  pub status : String
  pub reason_text : String
  pub raw_response : String

pub record Database (F : Type 0) : Type 0 where
  pub trades : GoMap TradeRow
  pub orders : List (OrderRow F)
  pub events : List OrderEvent

pub record Store (F : Type 0) : Type 0 where
  pub mem : MemoryStore F
  pub db : Option (Database F)

module _ {F : Type 0} where
  unfoldable pub new_memory_store : MemoryStore F
  new_memory_store = record { trades = []; intents = []; snapshots = []; runtimes = [] }

  unfoldable pub mem_save_trade : MemoryStore F → StoredTrade F → MemoryStore F
  mem_save_trade m tr = record m { trades = put m.trades tr.trade_uid tr }

  abbrev pub listed : Option (List (StoredIntent F)) → List (StoredIntent F)
  listed none = []
  listed (some l) = l

  unfoldable pub mem_append_intent : MemoryStore F → ℕ → String → OrderIntent F → MemoryStore F
  mem_append_intent m now trade_uid intent = record m {
    intents =
        put m.intents trade_uid
          (listed (find m.intents trade_uid) ++ record { received_at = now; intent = intent } ∷ []);
  }

  unfoldable pub mem_load_intents : MemoryStore F → String → List (StoredIntent F)
  mem_load_intents m trade_uid = listed (find m.intents trade_uid)

  unfoldable pub all_trades : MemoryStore F → List (StoredTrade F)
  all_trades m = map (λ e. e.value) m.trades

  unfoldable pub save_snapshot : Store F → TradeSnapshot F → Store F
  save_snapshot s snap = record s {
    mem = record s.mem { snapshots = put s.mem.snapshots snap.trade_uid snap };
  }

  unfoldable pub load_snapshot : Store F → String → Option (TradeSnapshot F)
  load_snapshot s trade_uid = find s.mem.snapshots trade_uid

  unfoldable pub save_runtime : Store F → RuntimeTrade F → Store F
  save_runtime s rt = record s {
    mem = record s.mem { runtimes = put s.mem.runtimes rt.trade.trade_uid rt };
  }

  unfoldable pub load_runtime : Store F → String → Option (RuntimeTrade F)
  load_runtime s trade_uid = find s.mem.runtimes trade_uid

  unfoldable pub delete_runtime : Store F → String → Store F
  delete_runtime s trade_uid = record s {
    mem = record s.mem { runtimes = delete s.mem.runtimes trade_uid };
  }

  -- INSERT … ON CONFLICT (intent_id) DO NOTHING
  unfoldable pub insert_order : List (OrderRow F) → OrderRow F → List (OrderRow F)
  insert_order [] row = row ∷ []
  insert_order (r ∷ rows) row =
      if str_eq r.intent_id row.intent_id then r ∷ rows else r ∷ insert_order rows row

  -- UPDATE orders SET … WHERE intent_id = $1: the rows, and whether one was found
  unfoldable pub update_order :
      (OrderRow F → OrderRow F) → String → List (OrderRow F) → List (OrderRow F)
  update_order change id [] = []
  update_order change id (r ∷ rows) =
      if str_eq r.intent_id id then change r ∷ rows else r ∷ update_order change id rows

  unfoldable pub find_order : List (OrderRow F) → String → Option (OrderRow F)
  find_order [] id = none
  find_order (r ∷ rows) id = if str_eq r.intent_id id then some r else find_order rows id

-- A creation time of 0 is the zero time. `marshal_trade` and `marshal_intent` are json.Marshal; `zero_price` is float64(0).
module _ {F : Type 0} (marshal_trade : StoredTrade F → String)
    (marshal_intent : OrderIntent F → String) (zero_price : F) where
  unfoldable pub trade_row : ℕ → Option TradeRow → StoredTrade F → TradeRow
  trade_row now old tr = record {
    user_id = tr.user_id;
    broker_name = tr.broker_name;
    account_id = tr.account_id;
    symbol = tr.symbol;
    status = tr.status;
    config_json = marshal_trade tr;
    created_at = elim old [
      | none ↦ if tr.created_at == 0 then now else tr.created_at
      | some r ↦ r.created_at
    ];
  }

  unfoldable pub upsert_trade : ℕ → Option (Database F) → StoredTrade F → Option (Database F)
  upsert_trade now none tr = none
  upsert_trade now (some db) tr = some (record db {
    trades = put db.trades tr.trade_uid (trade_row now (find db.trades tr.trade_uid) tr);
  })

  -- SaveTrade and UpdateTrade
  unfoldable pub save_trade : ℕ → Store F → StoredTrade F → Store F
  save_trade now s tr = record { mem = mem_save_trade s.mem tr; db = upsert_trade now s.db tr }

  unfoldable pub order_row : String → OrderIntent F → OrderRow F
  order_row trade_uid intent = record {
    intent_id = intent.intent_id;
    order_uid = if str_eq intent.order_uid "" then intent.intent_id else intent.order_uid;
    trade_uid = trade_uid;
    broker_name = intent.broker_name;
    account_id = intent.account_id;
    side = intent.side;
    quantity = intent.quantity;
    order_type = intent.order_type;
    limit_price = intent.limit_price;
    status = "CREATED";
    raw_request = marshal_intent intent;
    broker_order_id = "";
    filled_qty = pos 0;
    pending_qty = pos 0;
    avg_fill_price = zero_price;
  }

  unfoldable pub insert_order_intent :
      Option (Database F) → String → OrderIntent F → Option (Database F)
  insert_order_intent none trade_uid intent = none
  insert_order_intent (some db) trade_uid intent =
      some (record db { orders = insert_order db.orders (order_row trade_uid intent) })

  unfoldable pub append_intent : ℕ → Store F → String → OrderIntent F → Store F
  append_intent now s trade_uid intent = record {
    mem = mem_append_intent s.mem now trade_uid intent;
    db = insert_order_intent s.db trade_uid intent;
  }

-- `read_trade` is json.Unmarshal into an empty trade, whatever it leaves there on an error.
module _ {F : Type 0} (read_trade : String → StoredTrade F) where
  -- A creation time of 0 is the zero time.
  unfoldable pub hydrate_stored_trade : String → TradeRow → StoredTrade F
  hydrate_stored_trade uid row =
      let tr = read_trade row.config_json in
      record tr {
        trade_uid = text_or tr.trade_uid uid;
        user_id = text_or tr.user_id row.user_id;
        broker_name = text_or tr.broker_name row.broker_name;
        account_id = text_or tr.account_id row.account_id;
        symbol = text_or tr.symbol row.symbol;
        status = text_or tr.status row.status;
        created_at = if tr.created_at == 0 then row.created_at else tr.created_at;
      }

  unfoldable pub load_trade_from_db : Option (Database F) → String → Option (StoredTrade F)
  unfolding hydrate_stored_trade
  load_trade_from_db none uid = none
  load_trade_from_db (some db) uid = elim (find db.trades uid) [
    | none ↦ none
    | some row ↦ some (hydrate_stored_trade uid row)
  ]

  -- The trade of the memory, else that of the database, which is then kept in memory.
  unfoldable pub load_trade : Store F → String → Option (StoredTrade F) × Store F
  unfolding load_trade_from_db
  load_trade s uid = elim (find s.mem.trades uid) [
    | some tr ↦ (some tr, s)
    | none ↦ elim (load_trade_from_db s.db uid) [
      | none ↦ (none, s)
      | some tr ↦ (some tr, record s { mem = mem_save_trade s.mem tr })
    ]
  ]
