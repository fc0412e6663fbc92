-- ===== src/Brokers/Greeksoft/Search.antt =====
-- What the search of an order book finds.
use complete_dashboard.Prelude.{◌≡◌, refl, inl, inr, String, true, Bool-cases, Option, none, some}
use mathlib.Core.Path.{subst}
use complete_dashboard.Prelude.Json.{
  Json, null, flag, num, str, arr, obj, Items, last, item, Members, end, member, JsonText,
}
use complete_dashboard.Brokers.Greeksoft.Book.{
  Matched, map_has_order_id, first_string_value, status_keys, find_greeksoft_order_status,
  find_in_items, find_in_members, or_else,
}

module _ {F : Type 0} (json : JsonText F) where
  -- `m` is an object of the order in a value, in one of its items or in one of its fields.
  mutual
    pub data IsOrderIn (target : String) (m : Members F) : Json F → Type 0 where
      here : map_has_order_id json m target ≡ true → IsOrderIn target m (obj m)
      in_items : {xs : Items F} → IsOrderInItems target m xs → IsOrderIn target m (arr xs)
      in_members : {n : Members F} → IsOrderInMembers target m n → IsOrderIn target m (obj n)

    pub data IsOrderInItems (target : String) (m : Members F) : Items F → Type 0 where
      first_item :
          {v : Json F} {xs : Items F} → IsOrderIn target m v → IsOrderInItems target m (item v xs)
      later_item :
          {v : Json F} {xs : Items F}
          → IsOrderInItems target m xs
          → IsOrderInItems target m (item v xs)

    pub data IsOrderInMembers (target : String) (m : Members F) : Members F → Type 0 where
      first_member :
          {k : String} {v : Json F} {n : Members F}
          → IsOrderIn target m v
          → IsOrderInMembers target m (member k v n)
      later_member :
          {k : String} {v : Json F} {n : Members F}
          → IsOrderInMembers target m n
          → IsOrderInMembers target m (member k v n)

module _ {F : Type 0} (json : JsonText F) (target : String) where
  -- What is told of an object.
  abbrev pub matched : Members F → Matched
  matched m = record { status = first_string_value json m status_keys; raw = json.marshal_object m }

  -- Where something is found, it is an object of the order.
  abbrev Sound : (Members F → Type 0) → Option Matched → Type 0
  Sound P none = Unit
  Sound P (some r) = (m : Members F) × P m × (r ≡ matched m)

  Sound-or_else :
      (P : Members F → Type 0) (a b : Option Matched)
      → Sound P a
      → Sound P b
      → Sound P (or_else a b)
  Sound-or_else P none b h k = k
  Sound-or_else P (some r) b h k = h

  Sound-map :
      (P Q : Members F → Type 0) (o : Option Matched)
      → ((m : Members F) → P m → Q m)
      → Sound P o
      → Sound Q o
  Sound-map P Q none f h = tt
  Sound-map P Q (some r) f (m, p, e) = (m, f m p, e)

  mutual
    unfolding find_greeksoft_order_status

    sound :
        (v : Json F)
        → Sound (λ m. IsOrderIn json target m v) (find_greeksoft_order_status json v target)
    sound (obj m) = elim (Bool-cases (map_has_order_id json m target)) [
      | inl b ↦ rw b (m, here b, refl)
      | inr b ↦
          rw b
            (Sound-map _ _ (find_in_members json m target) (λ n h. in_members h) (members-Sound m))
    ]
    sound (arr xs) =
        Sound-map _ _ (find_in_items json xs target) (λ n h. in_items h) (items-Sound xs)
    sound null = tt
    sound (flag b) = tt
    sound (num x) = tt
    sound (str s) = tt

    items-Sound :
        (xs : Items F) → Sound (λ m. IsOrderInItems json target m xs) (find_in_items json xs target)
    items-Sound last = tt
    items-Sound (item v xs) =
        Sound-or_else _ (find_greeksoft_order_status json v target) (find_in_items json xs target)
          (Sound-map _ _ (find_greeksoft_order_status json v target) (λ n h. first_item h)
            (sound v))
          (Sound-map _ _ (find_in_items json xs target) (λ n h. later_item h) (items-Sound xs))

    members-Sound :
        (n : Members F)
        → Sound (λ m. IsOrderInMembers json target m n) (find_in_members json n target)
    members-Sound end = tt
    members-Sound (member k v n) =
        Sound-or_else _ (find_greeksoft_order_status json v target) (find_in_members json n target)
          (Sound-map _ _ (find_greeksoft_order_status json v target) (λ m h. first_member h)
            (sound v))
          (Sound-map _ _ (find_in_members json n target) (λ m h. later_member h) (members-Sound n))

  abbrev IsFound : Option Matched → Type 0
  IsFound o = (r : Matched) × (o ≡ some r)

  IsFound-first : (a b : Option Matched) → IsFound a → IsFound (or_else a b)
  IsFound-first none b (r, e) = cc
  IsFound-first (some q) b h = (q, refl)

  IsFound-later : (a b : Option Matched) → IsFound b → IsFound (or_else a b)
  IsFound-later none b h = h
  IsFound-later (some q) b h = (q, refl)

  mutual
    unfolding find_greeksoft_order_status

    complete :
        (m : Members F) (v : Json F)
        → IsOrderIn json target m v
        → IsFound (find_greeksoft_order_status json v target)
    complete m v (here b) = rw b (matched m, refl)
    complete m v (in_items {xs} h) = complete_items m xs h
    complete m v (in_members {n} h) = elim (Bool-cases (map_has_order_id json n target)) [
      | inl b ↦ rw b (matched n, refl)
      | inr b ↦ rw b (complete_members m n h)
    ]

    complete_items :
        (m : Members F) (xs : Items F)
        → IsOrderInItems json target m xs
        → IsFound (find_in_items json xs target)
    complete_items m xs (first_item {v} {xs = ys} h) =
        IsFound-first _ (find_in_items json ys target) (complete m v h)
    complete_items m xs (later_item {v} {xs = ys} h) =
        IsFound-later (find_greeksoft_order_status json v target) _ (complete_items m ys h)

    complete_members :
        (m n : Members F)
        → IsOrderInMembers json target m n
        → IsFound (find_in_members json n target)
    complete_members m n (first_member {v} {n = ys} h) =
        IsFound-first _ (find_in_members json ys target) (complete m v h)
    complete_members m n (later_member {v} {n = ys} h) =
        IsFound-later (find_greeksoft_order_status json v target) _ (complete_members m ys h)

  Sound-at :
      (P : Members F → Type 0) (o : Option Matched) (r : Matched)
      → Sound P o
      → o ≡ some r
      → (m : Members F) × P m × (r ≡ matched m)
  Sound-at P o r h e = subst (Sound P) e h

  -- Where the search of an order book tells of an order, the book holds an object of it, at some
  -- depth, and what is told is the status and the JSON of that object.
  pub find_greeksoft_order_status-IsOrderIn :
      (book : Json F) (r : Matched)
      → find_greeksoft_order_status json book target ≡ some r
      → (m : Members F) × IsOrderIn json target m book × (r ≡ matched m)
  find_greeksoft_order_status-IsOrderIn book r e =
      Sound-at _ (find_greeksoft_order_status json book target) r (sound book) e

  -- Where an order book holds an object of an order, at any depth, the search tells of the order.
  pub find_greeksoft_order_status-IsFound :
      (book : Json F) (m : Members F)
      → IsOrderIn json target m book
      → (r : Matched) × (find_greeksoft_order_status json book target ≡ some r)
  find_greeksoft_order_status-IsFound book m h = complete m book h
