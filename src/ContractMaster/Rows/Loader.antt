-- ===== src/ContractMaster/Rows/Loader.antt =====
-- services/contract-master/internal/ingest/csv_loader.go
use complete_dashboard.Prelude.{
  ℕ, String, ◌||◌, Option, none, some, List, [], ◌∷◌, ltb, get_or, length, if◌then◌else◌,
}
use complete_dashboard.Prelude.Int.{ℤ, pos, eqb_ℤ}
use complete_dashboard.Prelude.Float.{Float64}
use complete_dashboard.ContractMaster.Cells.{Contract, Strings, float_or_zero}
use complete_dashboard.ContractMaster.Rows.{keep_some}

module _ (fl : Float64) (go : Strings fl.F) where
  -- `LoadContracts`: a row of the file, a number that cannot be read being 0.
  abbrev pub int_or_zero : Option ℤ → ℤ
  int_or_zero none = pos 0
  int_or_zero (some n) = n

  unfoldable pub loaded_contract : List String → Option ℕ → Option (Contract fl.F)
  loaded_contract row none = none
  loaded_contract row (some expiry) =
      let token = int_or_zero (go.parse_int (get_or row 0 "")) in
      let lot = int_or_zero (go.parse_int (get_or row 5 "")) in
      if eqb_ℤ token (pos 0) || eqb_ℤ lot (pos 0)
      then none
      else some (record {
        broker_token = token;
        exchange = "NSE";
        symbol = get_or row 1 "";
        instrument_type = "OPT";
        expiry_date = expiry;
        strike_price = float_or_zero fl go (get_or row 3 "");
        option_type = get_or row 4 "";
        lot_size = lot;
        tick_size = fl.lit 5 2;
        raw_details = "";
      })

  unfoldable pub load_rows : List (List String) → List (Contract fl.F)
  unfolding loaded_contract
  load_rows [] = []
  load_rows (row ∷ rows) =
      let rest = load_rows rows in
      if ltb (length row) 6
      then rest
      else keep_some (loaded_contract row (go.parse_time "2006-01-02" (get_or row 2 ""))) rest

  -- The first row is the header. `rows` is none where the file cannot be read.
  unfoldable pub load_contracts : Option (List (List String)) → Option (List (Contract fl.F))
  unfolding load_rows
  load_contracts none = none
  load_contracts (some []) = some []
  load_contracts (some (header ∷ rows)) = some (load_rows rows)
