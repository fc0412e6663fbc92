-- ===== src/ContractMaster/Valid.antt =====
-- The contracts that the parsers let through.
use complete_dashboard.Prelude.{
  ℕ, ◌≡◌, refl, String, Bool, true, false, ◌||◌, Bool-cases, inl, inr, Option, none, some, List, [],
  ◌∷◌, GoMap, Result, err, ok, Yields, All, str_eq, to_upper, trim_space, leb, ltb, get_or, length,
}
use complete_dashboard.Prelude.Int.{ℤ, pos, not_pos, eqb_ℤ}
use complete_dashboard.Prelude.Float.{Float64}
use complete_dashboard.Prelude.Json.{Json, Members, get_member}
use complete_dashboard.ContractMaster.Cells.{
  Contract, Strings, clean_cell, clean_numeric, looks_like_header, parse_expiry_flexible,
  normalize_csv_exchange, normalize_csv_instrument_type, fallback_lot_size,
}
use complete_dashboard.ContractMaster.Lots.{lookup_lot_size}
use complete_dashboard.ContractMaster.Rows.{
  MasterParseConfig, MasterError, split, max_index, master_contract, parse_line, parse_lines,
  parse_master, lines_parsed, extract_lines, keep_some, csv_contract, or_fallback,
  parse_token_csv_row, parse_token_csv_rows,
}

-- What holds of a value if there is one.
abbrev IfSome : {A : Type 0} → (A → Type 0) → Option A → Type 0
IfSome P none = Unit
IfSome P (some a) = P a

kept :
    {A : Type 0} (P : A → Type 0) (o : Option A) (rest : List A)
    → IfSome P o
    → All P rest
    → All P (keep_some o rest)
kept P none rest h k = k
kept P (some a) rest h k = (h, k)

neither : (a b : Bool) → (a || b) ≡ false → (a ≡ false) × (b ≡ false)
neither false false h = (refl, refl)
neither true b h = absurd (cc)
neither false true h = absurd (cc)

module _ (fl : Float64) (go : Strings fl.F) where
  -- A contract of the master: with a token other than 0, a positive lot size, an exchange and a
  -- symbol.
  pub record IsListed (c : Contract fl.F) : Type 0 where
    pub token_set : eqb_ℤ c.broker_token (pos 0) ≡ false
    pub lot_pos : not_pos c.lot_size ≡ false
    pub has_exchange : str_eq c.exchange "" ≡ false
    pub has_symbol : str_eq c.symbol "" ≡ false

  -- A contract of a token file: with a positive token and lot size.
  pub record IsTokenRow (c : Contract fl.F) : Type 0 where
    pub token_pos : not_pos c.broker_token ≡ false
    pub lot_pos : not_pos c.lot_size ≡ false

  module _ (marshal_line : String → String) where
    master_contract-IsListed :
        (cfg : MasterParseConfig) (line : String) (cols : List String) (token lot : Option ℤ)
        (expiry : Option ℕ)
        → str_eq (to_upper (trim_space (get_or cols cfg.idx_exchange ""))) "" ≡ false
        → str_eq (to_upper (trim_space (get_or cols cfg.idx_symbol ""))) "" ≡ false
        → IfSome IsListed (master_contract fl go marshal_line cfg line cols token lot expiry)
    unfolding master_contract
    master_contract-IsListed cfg line cols none lot expiry e s = tt
    master_contract-IsListed cfg line cols (some token) none expiry e s = tt
    master_contract-IsListed cfg line cols (some token) (some lot) none e s = tt
    master_contract-IsListed cfg line cols (some token) (some lot) (some expiry) e s =
        elim (Bool-cases (eqb_ℤ token (pos 0) || not_pos lot)) [
          | inl b ↦ rw b tt
          | inr b ↦
              (let (t, l) = neither (eqb_ℤ token (pos 0)) (not_pos lot) b in
                rw b (record { token_set = t; lot_pos = l; has_exchange = e; has_symbol = s }))
        ]

    parse_line-IsListed :
        (cfg : MasterParseConfig) (raw : String)
        → IfSome IsListed (parse_line fl go marshal_line cfg raw)
    unfolding parse_line
    parse_line-IsListed cfg raw =
        let line = trim_space raw in
        let cols = split line cfg.delimiter in
        let exchange = to_upper (trim_space (get_or cols cfg.idx_exchange "")) in
        let token = trim_space (get_or cols cfg.idx_broker_token "") in
        let symbol = to_upper (trim_space (get_or cols cfg.idx_symbol "")) in
        let lot = trim_space (get_or cols cfg.idx_lot_size "") in
        let short = str_eq line "" || leb (length cols) (max_index cfg) in
        let empty = str_eq exchange "" || str_eq token "" || str_eq symbol "" || str_eq lot "" in
        elim (Bool-cases short) [
          | inl b ↦ rw b tt
          | inr b ↦ elim (Bool-cases empty) [
            | inl c ↦ rw (b, c) tt
            | inr c ↦
                (let (rest, l) =
                    neither (str_eq exchange "" || str_eq token "" || str_eq symbol "")
                      (str_eq lot "") c in
                  let (more, y) =
                    neither (str_eq exchange "" || str_eq token "") (str_eq symbol "") rest in
                  let (e, t) = neither (str_eq exchange "") (str_eq token "") more in
                  rw (b, c)
                    (master_contract-IsListed cfg line cols (go.parse_int token) (go.parse_int lot)
                      (parse_expiry_flexible fl go (trim_space (get_or cols cfg.idx_expiry ""))) e
                      y))
          ]
        ]

    parse_lines-IsListed :
        (cfg : MasterParseConfig) (lines : List String)
        → All IsListed (parse_lines fl go marshal_line cfg lines)
    unfolding parse_lines
    parse_lines-IsListed cfg [] = tt
    parse_lines-IsListed cfg (l ∷ lines) =
        kept IsListed (parse_line fl go marshal_line cfg l) _ (parse_line-IsListed cfg l)
          (parse_lines-IsListed cfg lines)

    lines_parsed-IsListed :
        (cfg : MasterParseConfig) (r : Result MasterError (List String))
        → Yields (All IsListed) (lines_parsed fl go marshal_line cfg r)
    lines_parsed-IsListed cfg (err e) = tt
    lines_parsed-IsListed cfg (ok lines) = parse_lines-IsListed cfg lines

    master_found :
        (cfg : MasterParseConfig) (raw : Members fl.F) (found : Option (Json fl.F))
        → get_member raw "result" ≡ found
        → Yields (All IsListed) (parse_master fl go marshal_line cfg raw)
    unfolding parse_master
    master_found cfg raw none e = rw (parse_master, e) tt
    master_found cfg raw (some result) e =
        rw (parse_master, e) (lines_parsed-IsListed cfg (extract_lines result))

    -- Every contract that is parsed from the master has a token other than 0, a positive lot size, an
    -- exchange and a symbol.
    pub parse_master-IsListed :
        (cfg : MasterParseConfig) (raw : Members fl.F)
        → Yields (All IsListed) (parse_master fl go marshal_line cfg raw)
    parse_master-IsListed cfg raw = master_found cfg raw (get_member raw "result") refl

  module _ (marshal_row : List String → String) where
    csv_contract-IsTokenRow :
        (row : List String) (lots : GoMap ℤ) (token : Option ℤ) (expiry : Option ℕ)
        → IfSome IsTokenRow (csv_contract fl go marshal_row row lots token expiry)
    unfolding csv_contract
    csv_contract-IsTokenRow row lots none expiry = tt
    csv_contract-IsTokenRow row lots (some token) none = tt
    csv_contract-IsTokenRow row lots (some token) (some expiry) =
        let symbol = clean_cell (get_or row 3 "") in
        let exchange = normalize_csv_exchange (clean_cell (get_or row 1 "")) in
        let instrument = normalize_csv_instrument_type exchange (clean_cell (get_or row 2 "")) in
        let lot =
          or_fallback fl go marshal_row
            (lookup_lot_size fl go lots exchange symbol expiry instrument)
            (fallback_lot_size symbol) in
        elim (Bool-cases (not_pos token || not_pos lot)) [
          | inl b ↦ rw b tt
          | inr b ↦
              (let (t, l) = neither (not_pos token) (not_pos lot) b in
                rw b (record { token_pos = t; lot_pos = l }))
        ]

    parse_token_csv_row-IsTokenRow :
        (row : List String) (lots : GoMap ℤ)
        → IfSome IsTokenRow (parse_token_csv_row fl go marshal_row row lots)
    unfolding parse_token_csv_row
    parse_token_csv_row-IsTokenRow row lots =
        let token = clean_cell (get_or row 0 "") in
        let exchange = clean_cell (get_or row 1 "") in
        let instrument = clean_cell (get_or row 2 "") in
        let symbol = clean_cell (get_or row 3 "") in
        let expiry = clean_cell (get_or row 4 "") in
        let empty = str_eq token "" || str_eq exchange "" || str_eq symbol "" || str_eq expiry "" in
        elim (Bool-cases (ltb (length row) 8)) [
          | inl b ↦ rw b tt
          | inr b ↦ elim (Bool-cases empty) [
            | inl c ↦ rw (b, c) tt
            | inr c ↦ elim (Bool-cases (looks_like_header token exchange instrument symbol)) [
              | inl d ↦ rw (b, c, d) tt
              | inr d ↦
                  rw (b, c, d)
                    (csv_contract-IsTokenRow row lots (go.parse_int (clean_numeric token))
                      (parse_expiry_flexible fl go expiry))
            ]
          ]
        ]

    -- Every contract of a token file has a positive token and a positive lot size, whatever the rows
    -- and the table of lot sizes hold.
    pub parse_token_csv_rows-IsTokenRow :
        (rows : List (List String)) (lots : GoMap ℤ)
        → All IsTokenRow (parse_token_csv_rows fl go marshal_row rows lots)
    unfolding parse_token_csv_rows
    parse_token_csv_rows-IsTokenRow [] lots = tt
    parse_token_csv_rows-IsTokenRow (row ∷ rows) lots =
        kept IsTokenRow (parse_token_csv_row fl go marshal_row row lots) _
          (parse_token_csv_row-IsTokenRow row lots) (parse_token_csv_rows-IsTokenRow rows lots)
