-- ===== src/Brokers/Greeksoft/Book.antt =====
-- brokers/greeksoft/executor.go: the reading of an order book. Its JSON is decoded, so a number in
-- it is a float64.
use complete_dashboard.Prelude.{
  String, Bool, false, Option, none, some, List, [], ◌∷◌, str_eq, ◌||◌, to_upper, to_lower,
  trim_space, contains, without_dashes, without, if◌then◌else◌,
}
use complete_dashboard.Prelude.Int.{ℤ, pos}
use complete_dashboard.Prelude.Float.{Float64}
use complete_dashboard.Prelude.Json.{
  Json, null, flag, num, str, arr, obj, Items, last, item, Members, end, member, JsonText,
  get_member,
}

unfoldable pub normalize_greeksoft_order_status : String → String
normalize_greeksoft_order_status status =
    let s = to_upper (trim_space status) in
    if str_eq s ""
    then "SUBMITTED"
    else if contains s "REJECT"
    then "REJECTED"
    else if str_eq s "FILLED"
        || str_eq s "COMPLETE"
        || str_eq s "COMPLETED"
        || str_eq s "TRADED"
        || str_eq s "EXECUTED"
    then "FILLED"
    else if str_eq s "CANCELLED" || str_eq s "CANCELED"
    then "CANCELLED"
    else if str_eq s "PARTIALLYFILLED"
        || str_eq s "PARTIAL"
        || str_eq s "PARTIALLY_FILLED"
        || str_eq s "PARTIALLY FILLED"
    then "PARTIALLY_FILLED"
    else if str_eq s "OPEN"
        || str_eq s "NEW"
        || str_eq s "PENDING"
        || str_eq s "PENDINGNEW"
        || str_eq s "PENDING_NEW"
        || str_eq s "PENDING NEW"
    then "OPEN"
    else if str_eq s "SUBMITTED" || str_eq s "ACKED" || str_eq s "ACKNOWLEDGED"
    then "SUBMITTED"
    else s

unfoldable pub normalize_greeksoft_field_key : String → String
normalize_greeksoft_field_key s = without 32 (without_dashes (without 95 (to_lower (trim_space s))))

abbrev pub order_id_keys : List String
order_id_keys =
    "gorderid" ∷ "gOrderID" ∷ "gOrderId" ∷ "ordID" ∷ "orderId" ∷ "orderID" ∷ "OrderID"
    ∷ "AppOrderID" ∷ "broker_order_id" ∷ []

abbrev pub status_keys : List String
status_keys =
    "OrderStatus" ∷ "orderStatus" ∷ "order_status" ∷ "status" ∷ "Status" ∷ "ordStatus"
    ∷ "order_state" ∷ []

abbrev pub filled_keys : List String
filled_keys =
    "tradedqty" ∷ "traded_qty" ∷ "tradedQty" ∷ "filledqty" ∷ "filled_qty" ∷ "filledQty" ∷ "execQty"
    ∷ "executedQty" ∷ "CumulativeQuantity" ∷ "cumulative_quantity" ∷ []

abbrev pub pending_keys : List String
pending_keys =
    "pendingqty" ∷ "pending_qty" ∷ "pendingQty" ∷ "remainingQty" ∷ "LeavesQuantity"
    ∷ "leaves_quantity" ∷ []

abbrev pub price_keys : List String
price_keys =
    "AvgTrdPrice" ∷ "avgTrdPrice" ∷ "avg_trd_price" ∷ "OrderAverageTradedPrice" ∷ "order_avg_price"
    ∷ "avg_price" ∷ "fillPrice" ∷ "fill_price" ∷ []

-- want[k]
unfoldable pub wanted : List String → String → Bool
unfolding normalize_greeksoft_field_key
wanted [] k = false
wanted (key ∷ keys) k =
    str_eq (normalize_greeksoft_field_key key) (normalize_greeksoft_field_key k) || wanted keys k

-- The status and the JSON of an order.
pub record Matched : Type 0 where
  pub status : String
  pub raw : String

-- The results of `extractGreeksoftExecutionFields`.
pub record Execution (F : Type 0) : Type 0 where
  pub filled_qty : ℤ
  pub pending_qty : ℤ
  pub avg_price : F

abbrev pub or_else : {A : Type 0} → Option A → Option A → Option A
or_else none b = b
or_else (some a) b = some a

module _ {F : Type 0} (json : JsonText F) where
  open json use {marshal_object, print_value, print_whole, parse_float, unmarshal}

  unfoldable pub normalize_greeksoft_order_id : Json F → String
  normalize_greeksoft_order_id null = ""
  normalize_greeksoft_order_id (str s) = trim_space s
  normalize_greeksoft_order_id (num x) = print_whole x
  normalize_greeksoft_order_id (flag b) = trim_space (print_value (flag b))
  normalize_greeksoft_order_id (arr xs) = trim_space (print_value (arr xs))
  normalize_greeksoft_order_id (obj m) = trim_space (print_value (obj m))

  abbrev pub is_id : String → Option (Json F) → Bool
  is_id target none = false
  is_id target (some v) = str_eq (normalize_greeksoft_order_id v) target

  unfoldable pub has_id_at : Members F → String → List String → Bool
  unfolding normalize_greeksoft_order_id
  has_id_at m target [] = false
  has_id_at m target (k ∷ keys) = is_id target (get_member m k) || has_id_at m target keys

  unfoldable pub map_has_order_id : Members F → String → Bool
  unfolding has_id_at
  map_has_order_id m order_id =
      let target = trim_space order_id in
      if str_eq target "" then false else has_id_at m target order_id_keys

  unfoldable pub first_string_value : Members F → List String → String
  first_string_value m [] = ""
  first_string_value m (k ∷ keys) = elim (get_member m k) [
    | none ↦ first_string_value m keys
    | some v ↦ trim_space (print_value v)
  ]

  -- `target` is trimmed.
  unfoldable mutual
    unfolding map_has_order_id first_string_value

    pub find_greeksoft_order_status : Json F → String → Option Matched
    find_greeksoft_order_status (obj m) target =
        let deeper = find_in_members m target in
        if map_has_order_id m target
        then some (record { status = first_string_value m status_keys; raw = marshal_object m })
        else deeper
    find_greeksoft_order_status (arr xs) target = find_in_items xs target
    find_greeksoft_order_status null target = none
    find_greeksoft_order_status (flag b) target = none
    find_greeksoft_order_status (num x) target = none
    find_greeksoft_order_status (str s) target = none

    pub find_in_items : Items F → String → Option Matched
    find_in_items last target = none
    find_in_items (item v xs) target =
        or_else (find_greeksoft_order_status v target) (find_in_items xs target)

    pub find_in_members : Members F → String → Option Matched
    find_in_members end target = none
    find_in_members (member k v m) target =
        or_else (find_greeksoft_order_status v target) (find_in_members m target)

  abbrev pub parsed : String → Option F
  parsed text = if str_eq text "" then none else parse_float text

  unfoldable pub number_like_to_float64 : Json F → Option F
  number_like_to_float64 (num x) = some x
  number_like_to_float64 (str s) = parsed (trim_space s)
  number_like_to_float64 null = none
  number_like_to_float64 (flag b) = none
  number_like_to_float64 (arr xs) = none
  number_like_to_float64 (obj m) = none

  -- The first number at a wanted key of an object.
  unfoldable pub wanted_number : List String → Members F → Option F
  unfolding number_like_to_float64 wanted
  wanted_number keys end = none
  wanted_number keys (member k v m) =
      let rest = wanted_number keys m in
      if wanted keys k then or_else (number_like_to_float64 v) rest else rest

  -- `walk`
  unfoldable mutual
    unfolding wanted_number

    pub walk : List String → Json F → Option F
    walk keys (obj m) = or_else (wanted_number keys m) (walk_members keys m)
    walk keys (arr xs) = walk_items keys xs
    walk keys null = none
    walk keys (flag b) = none
    walk keys (num x) = none
    walk keys (str s) = none

    pub walk_items : List String → Items F → Option F
    walk_items keys last = none
    walk_items keys (item v xs) = or_else (walk keys v) (walk_items keys xs)

    pub walk_members : List String → Members F → Option F
    walk_members keys end = none
    walk_members keys (member k v m) = or_else (walk keys v) (walk_members keys m)

module _ (fl : Float64) (json : JsonText fl.F) where
  open fl use {F, lit, to_int}

  unfoldable pub first_float_like_field : Json F → List String → F
  unfolding walk
  first_float_like_field v keys = elim (walk json keys v) [ none ↦ lit 0 0 | some x ↦ x ]

  abbrev pub nothing_executed : Execution F
  nothing_executed = record { filled_qty = pos 0; pending_qty = pos 0; avg_price = lit 0 0 }

  unfoldable pub extract_greeksoft_execution_fields : String → Execution F
  unfolding first_float_like_field
  extract_greeksoft_execution_fields raw =
      let text = trim_space raw in
      if str_eq text "" then nothing_executed else elim (json.unmarshal text) [
        | none ↦ nothing_executed
        | some v ↦ record {
          filled_qty = to_int (first_float_like_field v filled_keys);
          pending_qty = to_int (first_float_like_field v pending_keys);
          avg_price = first_float_like_field v price_keys;
        }
      ]
