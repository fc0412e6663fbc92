-- ===== src/Trading/Store/Intents.antt =====
-- services/execution-gateway/internal/trading/store_postgres.go: `LoadIntents`, the intents of the
-- memory or, when it holds none for the trade, those of the database. Rows are created one after
-- the other, so that `orders` holds them by creation time; the source reads that time and drops it,
-- which leaves the zero time, 0, in what it returns.
use complete_dashboard.Prelude.{
  text_or, ℕ, String, Option, none, some, List, [], ◌∷◌, if◌then◌else◌, str_eq, ◌≡◌, refl, false,
  same_either_way,
}
use complete_dashboard.Prelude.Int.{pos, eqb_ℤ}
use complete_dashboard.Trading.Models.{StoredTrade, StoredIntent, OrderIntent}
use complete_dashboard.Trading.Store.{
  MemoryStore, Store, OrderRow, Database, mem_append_intent, mem_load_intents, order_row,
}

-- `read_intent` is json.Unmarshal into an empty intent, which text that is empty leaves empty.
module _ {F : Type 0} (read_intent : String → OrderIntent F) where
  -- An optional price: that of the request, else that of the row.
  abbrev price_or : Option F → Option F → Option F
  price_or none p = p
  price_or (some q) p = some q

  unfoldable intent_of_row : String → OrderRow F → OrderIntent F
  intent_of_row trade_uid row =
      let intent = read_intent row.raw_request in
      record intent {
        intent_id = text_or intent.intent_id row.intent_id;
        order_uid = text_or intent.order_uid row.order_uid;
        trade_uid = text_or intent.trade_uid trade_uid;
        broker_name = text_or intent.broker_name row.broker_name;
        account_id = text_or intent.account_id row.account_id;
        side = text_or intent.side row.side;
        quantity = if eqb_ℤ intent.quantity (pos 0) then row.quantity else intent.quantity;
        order_type = text_or intent.order_type row.order_type;
        limit_price = price_or intent.limit_price row.limit_price;
      }

  unfoldable intents_of_rows : String → List (OrderRow F) → List (StoredIntent F)
  unfolding intent_of_row
  intents_of_rows trade_uid [] = []
  intents_of_rows trade_uid (r ∷ rows) =
      let rest = intents_of_rows trade_uid rows in
      if str_eq r.trade_uid trade_uid
      then record { received_at = 0; intent = intent_of_row trade_uid r } ∷ rest
      else rest

  unfoldable load_intents_from_db : Option (Database F) → String → List (StoredIntent F)
  unfolding intents_of_rows
  load_intents_from_db none trade_uid = []
  load_intents_from_db (some db) trade_uid = intents_of_rows trade_uid db.orders

  unfoldable keep_intents : MemoryStore F → ℕ → String → List (StoredIntent F) → MemoryStore F
  keep_intents m now trade_uid [] = m
  keep_intents m now trade_uid (i ∷ intents) =
      keep_intents (mem_append_intent m now trade_uid i.intent) now trade_uid intents

  unfoldable pub load_intents : ℕ → Store F → String → List (StoredIntent F) × Store F
  unfolding load_intents_from_db keep_intents
  load_intents now s trade_uid = elim (mem_load_intents s.mem trade_uid) [
    | i ∷ intents ↦ (i ∷ intents, s)
    | [] ↦
        let loaded = load_intents_from_db s.db trade_uid in
        (loaded, record s { mem = keep_intents s.mem now trade_uid loaded })
  ]

  -- The row that an intent was written to gives the intent back, where reading what was written of
  -- it does and it has an order id.
  intent_of_row-order_row :
      (write_trade : StoredTrade F → String) (write_intent : OrderIntent F → String)
      (zero_price : F) (intent : OrderIntent F)
      → read_intent (write_intent intent) ≡ intent
      → str_eq intent.order_uid "" ≡ false
      → intent_of_row intent.trade_uid
          (order_row write_trade write_intent zero_price intent.trade_uid intent)
        ≡ intent
  unfolding intent_of_row order_row
  intent_of_row-order_row write_trade write_intent zero_price intent h k =
      rw
        (
          h,
          k,
          same_either_way (str_eq intent.intent_id "") intent.intent_id,
          same_either_way (str_eq intent.trade_uid "") intent.trade_uid,
          same_either_way (str_eq intent.broker_name "") intent.broker_name,
          same_either_way (str_eq intent.account_id "") intent.account_id,
          same_either_way (str_eq intent.side "") intent.side,
          same_either_way (eqb_ℤ intent.quantity (pos 0)) intent.quantity,
          same_either_way (str_eq intent.order_type "") intent.order_type,
          either_price intent.limit_price,
        )
        refl
    where
      either_price : (p : Option F) → price_or p p ≡ p
      either_price none = refl
      either_price (some q) = refl
