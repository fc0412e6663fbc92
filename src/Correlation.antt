-- ===== src/Correlation.antt =====
-- services/execution-gateway/internal/correlation/correlation.go: intents and broker orders, linked
-- both ways. A method that changes the manager returns the new one.
use complete_dashboard.Prelude.{
  ℕ, ◌+◌, ◌%◌, ◌^◌, String, ◌≡◌, ◌↔◌, Option, none, some, [], GoMap, find, put, find-put, arith,
  eq_iff, ◌+s◌, format_nat, if◌then◌else◌, str_eq,
}

pub record Manager : Type 0 where
  pub intent_to_order : GoMap String
  pub order_to_intent : GoMap String
  pub counter : ℕ  -- uint64

unfoldable pub new_manager : Manager
new_manager = record { intent_to_order = []; order_to_intent = []; counter = 0 }

-- `now` is time.Now().UnixNano(), which is positive.
unfoldable pub generate_intent_id : Manager → ℕ → String → Manager × String
generate_intent_id m now worker_id =
    let c = (m.counter + 1) % 2 ^ 64 in
    (record m { counter = c }, "INT-" +s worker_id +s "-" +s format_nat now +s "-" +s format_nat c)

-- `Map`
unfoldable pub link : Manager → String → String → Manager
link m intent_id order_id = record m {
  intent_to_order = put m.intent_to_order intent_id order_id;
  order_to_intent = put m.order_to_intent order_id intent_id;
}

unfoldable pub get_order_id : Manager → String → Option String
get_order_id m intent_id = find m.intent_to_order intent_id

unfoldable pub get_intent_id : Manager → String → Option String
get_intent_id m order_id = find m.order_to_intent order_id

-- A link is found from both ends, and every other intent and order has the answer it had.
pub link-get :
    (m : Manager) (i o j p : String)
    → (get_order_id (link m i o) j ≡ (if str_eq i j then some o else get_order_id m j))
      × (get_intent_id (link m i o) p ≡ (if str_eq o p then some i else get_intent_id m p))
unfolding link get_order_id get_intent_id
link-get m i o j p = (find-put m.intent_to_order i j o, find-put m.order_to_intent o p i)

-- An intent has an order exactly if the order has the intent.
abbrev pub IsPaired : Manager → Type 0
IsPaired m = (i o : String) → (get_order_id m i ≡ some o) ↔ (get_intent_id m o ≡ some i)

-- Linking an intent and an order that had no partner keeps the two maps inverse to each other.
link-IsPaired :
    (m : Manager) (i o : String)
    → IsPaired m
    → get_order_id m i ≡ none
    → get_intent_id m o ≡ none
    → IsPaired (link m i o)
link-IsPaired m i o h fresh_i fresh_o j p =
    let (order, intent) = link-get m i o j p in
    (
      λ e. ground (arith, order, intent, eq_iff i j, eq_iff o p, (h j p).0),
      λ e. ground (arith, order, intent, eq_iff i j, eq_iff o p, (h j p).1),
    )
