-- ===== src/Brokers/Greeksoft/Tokens.antt =====
-- brokers/greeksoft/mapper.go: the map from short tokens to the tokens of the broker. `read_csv` is
-- what encoding/csv reads of a file, none where it cannot.
use complete_dashboard.Prelude.{
  ◌≡◌, refl, String, Bool, false, Bool-cases, inl, inr, ◌||◌, Option, none, some, List, [], ◌∷◌,
  All, str_eq, trim_space, ltb, get_or, length, if◌then◌else◌,
}
use complete_dashboard.Prelude.Int.{ℤ, eqb_ℤ, not_pos}
use complete_dashboard.Prelude.Float.{Float64}
use complete_dashboard.Prelude.Digits.{trim_char, digits_only, parse_int64}
use complete_dashboard.Trading.Models.{OrderIntent}

-- An entry of `gtokenMap`.
pub record TokenEntry : Type 0 where
  pub short_token : ℤ
  pub full_token : ℤ

unfoldable pub find_token : List TokenEntry → ℤ → Option ℤ
find_token [] token = none
find_token (e ∷ m) token =
    if eqb_ℤ e.short_token token then some e.full_token else find_token m token

unfoldable pub put_token : List TokenEntry → ℤ → ℤ → List TokenEntry
put_token [] short full = record { short_token = short; full_token = full } ∷ []
put_token (e ∷ m) short full =
    if eqb_ℤ e.short_token short
    then record e { full_token = full } ∷ m
    else e ∷ put_token m short full

-- All characters but digits are dropped, a sign and a decimal point too.
unfoldable pub parse_int64_cell : String → Option ℤ
parse_int64_cell value = parse_int64 (digits_only (trim_char 34 (trim_space value)))

abbrev pub load_cells : Option ℤ → Option ℤ → List TokenEntry → List TokenEntry
load_cells (some full) (some short) m =
    if not_pos full || not_pos short then m else put_token m short full
load_cells (some full) none m = m
load_cells none short m = m

unfoldable pub load_row : List TokenEntry → List String → List TokenEntry
unfolding parse_int64_cell put_token
load_row m row =
    if ltb (length row) 8
    then m
    else load_cells (parse_int64_cell (get_or row 0 "")) (parse_int64_cell (get_or row 7 "")) m

-- for _, row := range rows
unfoldable pub load_rows : List TokenEntry → List (List String) → List TokenEntry
unfolding load_row
load_rows m [] = m
load_rows m (row ∷ rows) = load_rows (load_row m row) rows

abbrev pub is_in : String → List String → Bool
is_in s [] = false
is_in s (x ∷ xs) = str_eq x s || is_in s xs

module _ (read_csv : String → Option (List (List String))) where
  unfoldable pub load_greeksoft_token_csv : List TokenEntry → String → List TokenEntry
  unfolding load_rows
  load_greeksoft_token_csv m path = elim (read_csv path) [ none ↦ m | some rows ↦ load_rows m rows ]

  -- for _, path := range paths, with the paths seen
  unfoldable pub load_paths : List String → List String → List TokenEntry → List TokenEntry
  unfolding load_greeksoft_token_csv
  load_paths seen [] m = m
  load_paths seen (p ∷ paths) m =
      let path = trim_space p in
      if str_eq path "" || is_in path seen
      then load_paths seen paths m
      else load_paths (path ∷ seen) paths (load_greeksoft_token_csv m path)

  -- `getenv` is os.Getenv.
  unfoldable pub candidate_greeksoft_token_csv_paths : (String → String) → List String
  candidate_greeksoft_token_csv_paths getenv =
      getenv "INDEX_TOKENS_PATH"
      ∷ getenv "INDEX_TOKENS_CSV"
      ∷ getenv "BSE_INDEX_TOKENS_PATH"
      ∷ getenv "BSE_INDEX_TOKENS_CSV"
      ∷ "/mnt/shared/IndexTokens.csv"
      ∷ "/mnt/shared/BSEIndexTokens.csv"
      ∷ "../../IndexTokens.csv"
      ∷ "../../BSEIndexTokens.csv"
      ∷ "IndexTokens.csv"
      ∷ "BSEIndexTokens.csv"
      ∷ []

  unfoldable pub load_greeksoft_token_map : (String → String) → List TokenEntry
  unfolding load_paths candidate_greeksoft_token_csv_paths
  load_greeksoft_token_map getenv = load_paths [] (candidate_greeksoft_token_csv_paths getenv) []

unfoldable pub resolve_greeksoft_gtoken : List TokenEntry → ℤ → ℤ
unfolding find_token
resolve_greeksoft_gtoken m token = if not_pos token then token else elim (find_token m token) [
  | none ↦ token
  | some mapped ↦ if not_pos mapped then token else mapped
]

-- The broker.OrderIntent of an intent; its stop price and disclosed quantity are 0.
pub record GreeksoftOrder (F : Type 0) : Type 0 where
  pub trade_uid : String
  pub intent_id : String
  pub symbol : String
  pub instrument_token : ℤ
  pub exchange_segment : String
  pub side : String
  pub quantity : ℤ
  pub order_type : String
  pub product_type : String
  pub time_in_force : String
  pub client_id : String
  pub limit_price : F

unfoldable pub map_order_intent :
    (fl : Float64) → List TokenEntry → OrderIntent fl.F → GreeksoftOrder fl.F
unfolding resolve_greeksoft_gtoken
map_order_intent fl m intent = record {
  trade_uid = intent.trade_uid;
  intent_id = intent.intent_id;
  symbol = intent.symbol;
  instrument_token = resolve_greeksoft_gtoken m intent.token;
  exchange_segment = intent.exchange_segment;
  side = intent.side;
  quantity = intent.quantity;
  order_type = intent.order_type;
  product_type = intent.product_type;
  time_in_force = "DAY";
  client_id = intent.account_id;
  limit_price = elim intent.limit_price [ none ↦ fl.lit 0 0 | some p ↦ p ];
}

-- Both tokens of an entry are positive.
abbrev pub IsMapping : TokenEntry → Type 0
IsMapping e = (not_pos e.short_token ≡ false) × (not_pos e.full_token ≡ false)

put_token-All :
    (m : List TokenEntry) (short full : ℤ)
    → not_pos short ≡ false
    → not_pos full ≡ false
    → All IsMapping m
    → All IsMapping (put_token m short full)
unfolding put_token
put_token-All [] short full s f h = ((s, f), tt)
put_token-All (e ∷ m) short full s f h = elim (Bool-cases (eqb_ℤ e.short_token short)) [
  | inl b ↦ rw b ((h.0.0, f), h.1)
  | inr b ↦ rw b (h.0, put_token-All m short full s f h.1)
]

load_cells-All :
    (full short : Option ℤ) (m : List TokenEntry)
    → All IsMapping m
    → All IsMapping (load_cells full short m)
load_cells-All none short m h = h
load_cells-All (some full) none m h = h
load_cells-All (some full) (some short) m h = elim (Bool-cases (not_pos full)) [
  | inl b ↦ rw b h
  | inr b ↦ elim (Bool-cases (not_pos short)) [
    | inl c ↦ rw (b, c) h
    | inr c ↦ rw (b, c) (put_token-All m short full c b h)
  ]
]

load_row-All :
    (m : List TokenEntry) (row : List String) → All IsMapping m → All IsMapping (load_row m row)
unfolding load_row
load_row-All m row h = elim (Bool-cases (ltb (length row) 8)) [
  | inl b ↦ rw b h
  | inr b ↦
      rw b (
        load_cells-All (parse_int64_cell (get_or row 0 "")) (parse_int64_cell (get_or row 7 "")) m
          h)
]

load_rows-All :
    (m : List TokenEntry) (rows : List (List String))
    → All IsMapping m
    → All IsMapping (load_rows m rows)
unfolding load_rows
load_rows-All m [] h = h
load_rows-All m (row ∷ rows) h = load_rows-All (load_row m row) rows (load_row-All m row h)

module _ (read_csv : String → Option (List (List String))) where
  load_csv-All :
      (m : List TokenEntry) (path : String) (read : Option (List (List String)))
      → read_csv path ≡ read
      → All IsMapping m
      → All IsMapping (load_greeksoft_token_csv read_csv m path)
  unfolding load_greeksoft_token_csv
  load_csv-All m path none e h = rw (load_greeksoft_token_csv, e) h
  load_csv-All m path (some rows) e h = rw (load_greeksoft_token_csv, e) (load_rows-All m rows h)

  load_paths-All :
      (seen paths : List String) (m : List TokenEntry)
      → All IsMapping m
      → All IsMapping (load_paths read_csv seen paths m)
  unfolding load_paths
  load_paths-All seen [] m h = h
  load_paths-All seen (p ∷ paths) m h =
      let path = trim_space p in
      elim (Bool-cases (str_eq path "" || is_in path seen)) [
        | inl b ↦ rw b (load_paths-All seen paths m h)
        | inr b ↦ rw b (
            load_paths-All (path ∷ seen) paths (load_greeksoft_token_csv read_csv m path)
              (load_csv-All m path (read_csv path) refl h))
      ]

  -- Whatever the files hold, every entry of the token map that is loaded has two positive tokens.
  load_greeksoft_token_map-All :
      (getenv : String → String) → All IsMapping (load_greeksoft_token_map read_csv getenv)
  unfolding load_greeksoft_token_map
  load_greeksoft_token_map-All getenv =
      load_paths-All [] (candidate_greeksoft_token_csv_paths read_csv getenv) [] tt
