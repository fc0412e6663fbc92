-- ===== src/Router.antt =====
-- services/execution-gateway/internal/router/router.go. What a broker client does when it is called
-- is `place_order`, on the world `W` that it acts on; `client_of` reads an intent's ClientID.
use complete_dashboard.Prelude.{
  String, ◌≡◌, Option, none, some, GoMap, find, put, delete, find-put, find-delete, Result, err, ok,
  arith, str_eq, if◌then◌else◌,
}

pub data RouteError : Type 0 where
  nil_intent : RouteError
  no_active_client : String → RouteError
  broker_error : String → RouteError

module _ {Client : Type 0} where
  unfoldable pub add_client : GoMap Client → String → Client → GoMap Client
  add_client clients client_id client = put clients client_id client

  unfoldable pub remove_client : GoMap Client → String → GoMap Client
  remove_client clients client_id = delete clients client_id

module _ {Client Intent Response W : Type 0} (client_of : Intent → String)
    (place_order : Client → Intent → W → Result String Response × W) where
  -- `return client.PlaceOrder(ctx, intent)`
  abbrev pub answer : Result String Response × W → Result RouteError Response × W
  answer (ok r, w) = (ok r, w)
  answer (err e, w) = (err (broker_error e), w)

  unfoldable pub route_to : Option Client → Intent → W → Result RouteError Response × W
  route_to none intent w = (err (no_active_client (client_of intent)), w)
  route_to (some client) intent w = answer (place_order client intent w)

  unfoldable pub route_order : GoMap Client → Option Intent → W → Result RouteError Response × W
  route_order clients none w = (err nil_intent, w)
  route_order clients (some intent) w = route_to (find clients (client_of intent)) intent w

  -- Once a client is added, the orders of its ClientID go to it, and every other order goes where
  -- it went before.
  route_order-add_client :
      (clients : GoMap Client) (id : String) (client : Client) (intent : Intent) (w : W)
      → route_order (add_client clients id client) (some intent) w ≡ (
          if str_eq id (client_of intent)
          then answer (place_order client intent w)
          else route_order clients (some intent) w)
  unfolding route_order route_to add_client
  route_order-add_client clients id client intent w =
      ground (arith, find-put clients id (client_of intent) client)

  -- Once a client is removed, an order of its ClientID is an error that reaches no broker, and
  -- every other order goes where it went before.
  route_order-remove_client :
      (clients : GoMap Client) (id : String) (intent : Intent) (w : W)
      → route_order (remove_client clients id) (some intent) w ≡ (
          if str_eq id (client_of intent)
          then (err (no_active_client (client_of intent)), w)
          else route_order clients (some intent) w)
  unfolding route_order route_to remove_client
  route_order-remove_client clients id intent w =
      ground (arith, find-delete clients id (client_of intent))
