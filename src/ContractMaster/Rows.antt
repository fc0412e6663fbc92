-- ===== src/ContractMaster/Rows.antt =====
-- services/contract-master/internal/parser/master_parser.go: the rows of the master. The columns'
-- numbers are not negative; json.Marshal of a row and encoding/csv are parameters.
pub mod Loader
use complete_dashboard.Prelude.{
  ◌≡◌, refl, ℕ, zero, suc, ◌-◌, String, ◌||◌, Option, none, some, List, [], ◌∷◌, GoMap, Result, err,
  ok, str_eq, has_prefix, to_upper, trim_space, equal_fold, ◌+s◌, len, ltb, leb, get_or, length,
  if◌then◌else◌,
}
use complete_dashboard.Prelude.Int.{ℤ, pos, not_pos, eqb_ℤ}
use complete_dashboard.Prelude.Float.{Float64}
use complete_dashboard.Prelude.Json.{
  Json, null, flag, num, str, arr, obj, Items, last, item, Members, get_member,
}
use complete_dashboard.ContractMaster.Cells.{
  Contract, Strings, clean_cell, clean_numeric, fallback_lot_size, normalize_csv_exchange,
  normalize_csv_instrument_type, normalize_option_type, looks_like_header, derive_option_type,
  derive_strike, float_or_zero, infer_tick_size_from_row, parse_expiry_flexible,
}
use complete_dashboard.ContractMaster.Lots.{lookup_lot_size}

pub record MasterParseConfig : Type 0 where
  pub delimiter : String
  pub idx_exchange : ℕ
  pub idx_broker_token : ℕ
  pub idx_symbol : ℕ
  pub idx_trading_symbol : ℕ
  pub idx_instrument_type : ℕ
  pub idx_tick_size : ℕ
  pub idx_lot_size : ℕ
  pub idx_expiry : ℕ

pub data MasterError : Type 0 where
  missing_result unsupported_format : MasterError

-- The parts of a text between occurrences of `sep`; `skip` characters of one are still to pass, and
-- `part` is the part so far.
split_from : String → ℕ → String → String → List String
split_from sep skip part String.[] = part ∷ []
split_from sep zero part (String.◌∷◌ c s) =
    let next = split_from sep (len sep - 1) "" s in
    let more = split_from sep zero (part +s String.◌∷◌ c String.[]) s in
    if has_prefix (String.◌∷◌ c s) sep then part ∷ next else more
split_from sep (suc skip) part (String.◌∷◌ c s) = split_from sep skip part s

-- strings.Split(s, sep) where `sep` is not empty
unfoldable pub split : String → String → List String
unfolding split_from
split s sep = split_from sep zero "" s

split_tests : split "NSEFO|35001||NIFTY" "|" ≡ "NSEFO" ∷ "35001" ∷ "" ∷ "NIFTY" ∷ []
unfolding split has_prefix
split_tests = refl

abbrev pub max_nat : ℕ → ℕ → ℕ
max_nat a b = if ltb a b then b else a

unfoldable pub max_index : MasterParseConfig → ℕ
max_index cfg = max_nat cfg.idx_exchange (
    max_nat cfg.idx_broker_token (
      max_nat cfg.idx_symbol (
        max_nat cfg.idx_trading_symbol (
          max_nat cfg.idx_instrument_type
            (max_nat cfg.idx_tick_size (max_nat cfg.idx_lot_size cfg.idx_expiry))))))

-- The lines that are not blank.
unfoldable pub text_items : {F : Type 0} → Items F → List String
text_items last = []
text_items (item (str s) xs) = if str_eq (trim_space s) "" then text_items xs else s ∷ text_items xs
text_items (item null xs) = text_items xs
text_items (item (flag b) xs) = text_items xs
text_items (item (num x) xs) = text_items xs
text_items (item (arr ys) xs) = text_items xs
text_items (item (obj m) xs) = text_items xs

unfoldable pub trimmed_lines : List String → List String
trimmed_lines [] = []
trimmed_lines (l ∷ lines) =
    let rest = trimmed_lines lines in if str_eq (trim_space l) "" then rest else trim_space l ∷ rest

unfoldable pub extract_lines : {F : Type 0} → Json F → Result MasterError (List String)
unfolding text_items trimmed_lines split
extract_lines (arr xs) = ok (text_items xs)
extract_lines (str s) = ok (trimmed_lines (split s "\n"))
extract_lines null = err unsupported_format
extract_lines (flag b) = err unsupported_format
extract_lines (num x) = err unsupported_format
extract_lines (obj m) = err unsupported_format

abbrev pub keep_some : {A : Type 0} → Option A → List A → List A
keep_some none rest = rest
keep_some (some a) rest = a ∷ rest

module _ (fl : Float64) (go : Strings fl.F) where
  -- `marshal_line` is json.Marshal of the line with its source.
  module _ (marshal_line : String → String) where
    -- Once the numbers of the line are read.
    unfoldable pub master_contract :
        MasterParseConfig
        → String
        → List String
        → Option ℤ
        → Option ℤ
        → Option ℕ
        → Option (Contract fl.F)
    unfolding derive_option_type derive_strike
    master_contract cfg line cols none lot expiry = none
    master_contract cfg line cols (some token) none expiry = none
    master_contract cfg line cols (some token) (some lot) none = none
    master_contract cfg line cols (some token) (some lot) (some expiry) =
        let instrument = to_upper (trim_space (get_or cols cfg.idx_instrument_type "")) in
        let trading_symbol = trim_space (get_or cols cfg.idx_trading_symbol "") in
        if eqb_ℤ token (pos 0) || not_pos lot
        then none
        else some (record {
          broker_token = token;
          exchange = to_upper (trim_space (get_or cols cfg.idx_exchange ""));
          symbol = to_upper (trim_space (get_or cols cfg.idx_symbol ""));
          instrument_type = instrument;
          expiry_date = expiry;
          strike_price = derive_strike fl go instrument trading_symbol;
          option_type = derive_option_type trading_symbol;
          lot_size = lot;
          tick_size = float_or_zero fl go (trim_space (get_or cols cfg.idx_tick_size ""));
          raw_details = marshal_line line;
        })

    unfoldable pub parse_line : MasterParseConfig → String → Option (Contract fl.F)
    unfolding split max_index master_contract parse_expiry_flexible
    parse_line cfg raw =
        let line = trim_space raw in
        let cols = split line cfg.delimiter in
        let exchange = to_upper (trim_space (get_or cols cfg.idx_exchange "")) in
        let token = trim_space (get_or cols cfg.idx_broker_token "") in
        let symbol = to_upper (trim_space (get_or cols cfg.idx_symbol "")) in
        let lot = trim_space (get_or cols cfg.idx_lot_size "") in
        let expiry = trim_space (get_or cols cfg.idx_expiry "") in
        if str_eq line "" || leb (length cols) (max_index cfg)
        then none
        else if str_eq exchange "" || str_eq token "" || str_eq symbol "" || str_eq lot ""
        then none
        else master_contract cfg line cols (go.parse_int token) (go.parse_int lot)
            (parse_expiry_flexible fl go expiry)

    unfoldable pub parse_lines : MasterParseConfig → List String → List (Contract fl.F)
    unfolding parse_line
    parse_lines cfg [] = []
    parse_lines cfg (l ∷ lines) = keep_some (parse_line cfg l) (parse_lines cfg lines)

    abbrev pub lines_parsed :
        MasterParseConfig
        → Result MasterError (List String)
        → Result MasterError (List (Contract fl.F))
    lines_parsed cfg (err e) = err e
    lines_parsed cfg (ok lines) = ok (parse_lines cfg lines)

    unfoldable pub parse_master :
        MasterParseConfig → Members fl.F → Result MasterError (List (Contract fl.F))
    unfolding parse_lines extract_lines
    parse_master cfg raw = elim (get_member raw "result") [
      | none ↦ err missing_result
      | some result ↦ lines_parsed cfg (extract_lines result)
    ]

  -- `marshal_row` is json.Marshal of the row with its source.
  module _ (marshal_row : List String → String) where
    abbrev pub or_fallback : ℤ → ℤ → ℤ
    or_fallback lot other = if not_pos lot then other else lot

    abbrev pub csv_strike : String → fl.F
    csv_strike s =
        if str_eq s "" || equal_fold s "NA"
        then fl.lit 0 0
        else float_or_zero fl go (clean_numeric s)

    -- Once the token and the expiry are read.
    unfoldable pub csv_contract :
        List String → GoMap ℤ → Option ℤ → Option ℕ → Option (Contract fl.F)
    unfolding clean_cell clean_numeric normalize_csv_exchange normalize_csv_instrument_type
        normalize_option_type lookup_lot_size fallback_lot_size infer_tick_size_from_row
    csv_contract row lots none expiry = none
    csv_contract row lots (some token) none = none
    csv_contract row lots (some token) (some expiry) =
        let symbol = clean_cell (get_or row 3 "") in
        let exchange = normalize_csv_exchange (clean_cell (get_or row 1 "")) in
        let instrument = normalize_csv_instrument_type exchange (clean_cell (get_or row 2 "")) in
        let lot =
          or_fallback (lookup_lot_size fl go lots exchange symbol expiry instrument)
            (fallback_lot_size symbol) in
        if not_pos token || not_pos lot
        then none
        else some (record {
          broker_token = token;
          exchange = exchange;
          symbol = to_upper symbol;
          instrument_type = instrument;
          expiry_date = expiry;
          strike_price = csv_strike (clean_cell (get_or row 5 ""));
          option_type = normalize_option_type (clean_cell (get_or row 6 ""));
          lot_size = lot;
          tick_size = infer_tick_size_from_row fl go row;
          raw_details = marshal_row row;
        })

    unfoldable pub parse_token_csv_row : List String → GoMap ℤ → Option (Contract fl.F)
    unfolding csv_contract looks_like_header parse_expiry_flexible
    parse_token_csv_row row lots =
        let token = clean_cell (get_or row 0 "") in
        let exchange = clean_cell (get_or row 1 "") in
        let instrument = clean_cell (get_or row 2 "") in
        let symbol = clean_cell (get_or row 3 "") in
        let expiry = clean_cell (get_or row 4 "") in
        if ltb (length row) 8
        then none
        else if str_eq token "" || str_eq exchange "" || str_eq symbol "" || str_eq expiry ""
        then none
        else if looks_like_header token exchange instrument symbol
        then none
        else csv_contract row lots (go.parse_int (clean_numeric token))
            (parse_expiry_flexible fl go expiry)

    unfoldable pub parse_token_csv_rows : List (List String) → GoMap ℤ → List (Contract fl.F)
    unfolding parse_token_csv_row
    parse_token_csv_rows [] lots = []
    parse_token_csv_rows (row ∷ rows) lots =
        keep_some (parse_token_csv_row row lots) (parse_token_csv_rows rows lots)
