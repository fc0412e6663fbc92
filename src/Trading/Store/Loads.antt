-- ===== src/Trading/Store/Loads.antt =====
-- services/execution-gateway/internal/trading/store_postgres.go: `AllTrades`, the trades of the
-- memory or, when it holds none, the 200 newest of the database. Of rows with one creation time,
-- whose order the database leaves open, the one that stands first is read first.
use complete_dashboard.Prelude.{
  ℕ, zero, suc, String, Option, none, some, List, [], ◌∷◌, map, Entry, if◌then◌else◌, ltb, ◌≡◌,
  refl,
}
use complete_dashboard.Trading.Models.{StoredTrade}
use complete_dashboard.Trading.Store.{
  MemoryStore, Store, TradeRow, Database, mem_save_trade, all_trades, hydrate_stored_trade,
}

-- ORDER BY created_at DESC
unfoldable insert_newest : Entry TradeRow → List (Entry TradeRow) → List (Entry TradeRow)
insert_newest e [] = e ∷ []
insert_newest e (r ∷ rows) =
    let rest = insert_newest e rows in
    if ltb e.value.created_at r.value.created_at then r ∷ rest else e ∷ r ∷ rows

unfoldable newest_first : List (Entry TradeRow) → List (Entry TradeRow)
unfolding insert_newest
newest_first [] = []
newest_first (e ∷ rows) = insert_newest e (newest_first rows)

-- LIMIT n
unfoldable limit : {A : Type 0} → ℕ → List A → List A
limit n [] = []
limit zero (x ∷ l) = []
limit (suc n) (x ∷ l) = x ∷ limit n l

module _ {F : Type 0} (read_trade : String → StoredTrade F) where
  unfoldable load_trades_from_db : Option (Database F) → List (StoredTrade F)
  unfolding newest_first limit
  load_trades_from_db none = []
  load_trades_from_db (some db) =
      map (λ e. hydrate_stored_trade read_trade e.key e.value) (limit 200 (newest_first db.trades))

  unfoldable mem_save_trades : MemoryStore F → List (StoredTrade F) → MemoryStore F
  mem_save_trades m [] = m
  mem_save_trades m (tr ∷ trades) = mem_save_trades (mem_save_trade m tr) trades

  unfoldable pub store_all_trades : Store F → List (StoredTrade F) × Store F
  unfolding load_trades_from_db mem_save_trades
  store_all_trades s = elim (all_trades s.mem) [
    | tr ∷ trades ↦ (tr ∷ trades, s)
    | [] ↦
        let loaded = load_trades_from_db s.db in
        (loaded, record s { mem = mem_save_trades s.mem loaded })
  ]

  -- A memory that holds trades is returned as it is, and the database is not asked.
  store_all_trades-filled :
      (s : Store F) (tr : StoredTrade F) (trades : List (StoredTrade F))
      → all_trades s.mem ≡ tr ∷ trades
      → store_all_trades s ≡ (tr ∷ trades, s)
  unfolding store_all_trades
  store_all_trades-filled s tr trades h = rw (store_all_trades, h) refl

abbrev row_at : String → ℕ → Entry TradeRow
row_at uid t = record {
  key = uid;
  value = record {
    user_id = "";
    broker_name = "";
    account_id = "";
    symbol = "";
    status = "";
    config_json = "";
    created_at = t;
  };
}

newest_first_run :
    map
      (λ e. e.key)
      (limit 3 (newest_first (row_at "a" 2 ∷ row_at "b" 5 ∷ row_at "c" 2 ∷ row_at "d" 9 ∷ [])))
    ≡ "d" ∷ "b" ∷ "a" ∷ []
unfolding newest_first insert_newest limit
newest_first_run = refl
