-- ===== src/Trading/Persist.antt =====
-- services/execution-gateway/internal/trading/store_postgres.go: what a restarted process loads.
use complete_dashboard.Prelude.{
  ℕ, String, false, Option, none, some, ◌≡◌, ◌≢◌, refl, ap, ◌∙◌, str_eq, ◌==◌, arith, find, put,
  find-put-same, same_either_way,
}
use complete_dashboard.Trading.Models.{StoredTrade, OrderIntent}
use complete_dashboard.Trading.Store.{
  MemoryStore, TradeRow, Database, new_memory_store, trade_row, upsert_trade, save_trade,
  hydrate_stored_trade, load_trade_from_db, load_trade,
}

module _ {F : Type 0} (write_trade : StoredTrade F → String) (write_intent : OrderIntent F → String)
    (zero_price : F) (read_trade : String → StoredTrade F) where
  hydrate-trade_row :
      (now : ℕ) (old : Option TradeRow) (tr : StoredTrade F)
      → read_trade (write_trade tr) ≡ tr
      → tr.created_at ≢ 0
      → hydrate_stored_trade read_trade tr.trade_uid
          (trade_row write_trade write_intent zero_price now old tr)
        ≡ tr
  unfolding hydrate_stored_trade trade_row
  hydrate-trade_row now old tr h k =
      let timed : (tr.created_at == 0) ≡ false = ground (arith, k) in
      rw
        (
          h,
          timed,
          same_either_way (str_eq tr.trade_uid "") tr.trade_uid,
          same_either_way (str_eq tr.user_id "") tr.user_id,
          same_either_way (str_eq tr.broker_name "") tr.broker_name,
          same_either_way (str_eq tr.account_id "") tr.account_id,
          same_either_way (str_eq tr.symbol "") tr.symbol,
          same_either_way (str_eq tr.status "") tr.status,
        )
        refl

  loaded_from :
      (db : Database F) (mem : MemoryStore F) (uid : String) (row : TradeRow)
      → find mem.trades uid ≡ none
      → find db.trades uid ≡ some row
      → (load_trade read_trade (record { mem = mem; db = some db }) uid).0
        ≡ some (hydrate_stored_trade read_trade uid row)
  unfolding load_trade load_trade_from_db
  loaded_from db mem uid row h k = rw (load_trade, load_trade_from_db, h, k) refl

  -- A trade that was saved to a database is the one that a process with an empty memory loads,
  -- where reading what was written of it gives it back and it has a creation time.
  pub load_trade-save_trade :
      (now : ℕ) (mem : MemoryStore F) (db : Database F) (tr : StoredTrade F)
      → read_trade (write_trade tr) ≡ tr
      → tr.created_at ≢ 0
      → (load_trade read_trade
          (record {
            mem = new_memory_store;
            db =
                (save_trade write_trade write_intent zero_price now
                  (record { mem = mem; db = some db })
                  tr).db;
          })
          tr.trade_uid).0
        ≡ some tr
  unfolding save_trade upsert_trade new_memory_store find
  load_trade-save_trade now mem db tr h k =
      let row =
        trade_row write_trade write_intent zero_price now (find db.trades tr.trade_uid) tr in
      loaded_from (record db { trades = put db.trades tr.trade_uid row }) new_memory_store
        tr.trade_uid row refl (find-put-same db.trades tr.trade_uid row)
      ∙ ap (λ t. some t) (hydrate-trade_row now (find db.trades tr.trade_uid) tr h k)
