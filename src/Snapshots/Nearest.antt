-- ===== src/Snapshots/Nearest.antt =====
-- services/snapshot-service/cmd/main.go: which chain a request with no expiry gets.
use complete_dashboard.Prelude.{
  ◌≡◌, refl, ◌≤◌, ◌⊎◌, inl, inr, String, Option, none, some, [], ◌∷◌, All, All-map, Entry, GoMap,
  arith, Bool-cases, Option-cases, ◌+s◌, trim_space, trim_prefix, after_prefix, after_prefix-append,
  after_prefix_sound,
}
use complete_dashboard.Snapshots.Dates.{Date, place, is_before, parse_snapshot_expiry_date}
use complete_dashboard.Snapshots.Cache.{
  ChainCacheEntry, ChainAnswer, cached, not_built, Best, nearer, nearest, live_date, best_entry,
  answer, normalize_symbol, option_chain,
}

-- No date, or none before `d`.
abbrev Later : Date → Option Date → Type 0
Later d none = Unit
Later d (some e) = place d ≤ place e

Later-some :
    (d : Date) (found : Option Date) {t : Date} → Later d found → found ≡ some t → place d ≤ place t
Later-some d none h e = cc
Later-some d (some t) h e = ground (arith, h, e)

module _ {F : Type 0} where
  abbrev pub In : Entry (ChainCacheEntry F) → GoMap (ChainCacheEntry F) → Type 0
  In e [] = ⊥
  In e (x ∷ cache) = (e ≡ x) ⊎ In e cache

  -- The date, from today on, that the key of an entry names for a symbol.
  abbrev pub Expires : Date → String → Entry (ChainCacheEntry F) → Date → Type 0
  Expires today symbol e d =
      (expiry : String) × (e.key ≡ (symbol +s "|") +s expiry)
      × (parse_snapshot_expiry_date (trim_space expiry) ≡ some d)
      × (place today ≤ place d)

  live_date-Expires :
      (today : Date) (symbol : String) (e : Entry (ChainCacheEntry F)) {d : Date}
      → live_date today symbol e ≡ some d
      → Expires today symbol e d
  unfolding live_date
  live_date-Expires today symbol e h = elim (Option-cases (after_prefix e.key (symbol +s "|"))) [
    | inl other ↦ absurd (ground (arith, h, other))
    | inr (expiry, cut) ↦ elim (Option-cases (parse_snapshot_expiry_date (trim_space expiry))) [
      | inl unread ↦ absurd (ground (arith, h, unread, cut))
      | inr (t, read) ↦ (
        expiry,
        after_prefix_sound e.key (symbol +s "|") cut,
        ground (arith, h, read, cut),
        ground (arith, h, read, cut),
      )
    ]
  ]

  Expires-live_date :
      (today : Date) (symbol : String) (e : Entry (ChainCacheEntry F)) {d : Date}
      → Expires today symbol e d
      → live_date today symbol e ≡ some d
  unfolding live_date
  Expires-live_date today symbol e (expiry, key, read, later) =
      let cut : after_prefix e.key (symbol +s "|") ≡ some expiry =
        rw key (after_prefix-append (symbol +s "|") expiry) in
      ground (arith, cut, read)

  abbrev BestLater : Date → Best F → Type 0
  BestLater d none = Unit
  BestLater d (some (b, e)) = place d ≤ place e

  BestLater-trans :
      (d t : Date) (best : Best F) → place d ≤ place t → BestLater t best → BestLater d best
  BestLater-trans d t none h k = tt
  BestLater-trans d t (some (b, e)) h k = omega arith

  module _ (today : Date) (symbol : String) where
    abbrev live : Entry (ChainCacheEntry F) → Option Date
    live e = live_date today symbol e

    abbrev FromCache : ChainCacheEntry F → Date → GoMap (ChainCacheEntry F) → Type 0
    FromCache entry d cache =
        (e : Entry (ChainCacheEntry F)) × In e cache × (e.value ≡ entry) × (live e ≡ some d)

    -- What the loop has found at the end, from what it had found before.
    abbrev Found : GoMap (ChainCacheEntry F) → Best F → Best F → Type 0
    Found cache best none = (best ≡ none) × All (λ e. live e ≡ none) cache
    Found cache best (some (entry, d)) =
        ((best ≡ some (entry, d)) ⊎ FromCache entry d cache)
        × All (λ e. Later d (live e)) cache
        × BestLater d best

    taken :
        (e : Entry (ChainCacheEntry F)) (cache : GoMap (ChainCacheEntry F)) (t : Date)
        (best last : Best F)
        → live e ≡ some t
        → BestLater t best
        → Found cache (some (e.value, t)) last
        → Found (e ∷ cache) best last
    taken e cache t best none h le k = cc (k.0)
    taken e cache t best (some (entry, d)) h le k = (
      elim k.0 [
        | inl now ↦ inr (e, inl refl, (cc), ground (arith, h, now))
        | inr (x, inside, same, lives) ↦ inr (x, inr inside, same, lives)
      ],
      (rw h k.2, k.1),
      BestLater-trans d t best k.2 le,
    )

    kept :
        (e : Entry (ChainCacheEntry F)) (cache : GoMap (ChainCacheEntry F)) (best last : Best F)
        → ((d : Date) → BestLater d best → Later d (live e))
        → (best ≡ none → live e ≡ none)
        → Found cache best last
        → Found (e ∷ cache) best last
    kept e cache best none later empty k = (k.0, (empty k.0, k.1))
    kept e cache best (some (entry, d)) later empty k = (
      elim k.0 [
        | inl before ↦ inl before
        | inr (x, inside, same, lives) ↦ inr (x, inr inside, same, lives)
      ],
      (later d k.2, k.1),
      k.2,
    )

    one_more :
        (e : Entry (ChainCacheEntry F)) (cache : GoMap (ChainCacheEntry F)) (found : Option Date)
        (best last : Best F)
        → live e ≡ found
        → Found cache (nearer e.value found best) last
        → Found (e ∷ cache) best last
    one_more e cache none best last h k = kept e cache best last (λ d le. rw h tt) (λ none_yet. h) k
    one_more e cache (some t) none last h k = taken e cache t none last h tt k
    one_more e cache (some t) (some (b, old)) last h k = elim (Bool-cases (is_before t old)) [
      | inl sooner ↦
          taken e cache t (some (b, old)) last h (ground (arith, sooner)) (rw sooner at k)
      | inr later ↦
          kept e cache (some (b, old)) last (λ d le. rw h (ground (arith, later)))
            (λ empty. cc empty) (rw later at k)
    ]

    nearest-Found :
        (cache : GoMap (ChainCacheEntry F)) (best : Best F)
        → Found cache best (nearest today symbol cache best)
    unfolding nearest
    nearest-Found [] none = (refl, tt)
    nearest-Found [] (some (b, d)) = (inl refl, tt, omega arith)
    nearest-Found (e ∷ cache) best =
        one_more e cache (live e) best (nearest today symbol (e ∷ cache) best) refl
          (nearest-Found cache (nearer e.value (live e) best))

    -- What an answer says of the entries whose keys name a date for the symbol, from today on.
    abbrev pub IsNearest : GoMap (ChainCacheEntry F) → ChainAnswer F → Type 0
    IsNearest cache not_built = All (λ e. (d : Date) → ¬ (Expires today symbol e d)) cache
    IsNearest cache (cached at payload) =
        (e : Entry (ChainCacheEntry F)) × (d : Date) × In e cache
        × Expires today symbol e d
        × (e.value ≡ record { payload = payload; last_updated = at })
        × All (λ x. (t : Date) → Expires today symbol x t → place d ≤ place t) cache

    Found-IsNearest :
        (cache : GoMap (ChainCacheEntry F)) (best : Best F)
        → Found cache none best
        → IsNearest cache (answer (best_entry best))
    Found-IsNearest cache none k =
        All-map (λ e. live e ≡ none) _ cache
          (λ e h d lives. absurd (ground (arith, h, Expires-live_date today symbol e lives))) k.1
    Found-IsNearest cache (some (entry, d)) k = elim k.0 [
      | inl before ↦ cc before
      | inr (e, inside, same, lives) ↦ (
        e,
        d,
        inside,
        live_date-Expires today symbol e lives,
        same,
        All-map (λ x. Later d (live x)) _ cache
            (λ x later t h. Later-some d (live x) later (Expires-live_date today symbol x h)) k.1,
      )
    ]

  -- A request that names no expiry gets the chain of an entry whose key joins the symbol to the
  -- nearest date from today on, by the calendar, and is told that there is none only if the cache
  -- has no entry for the symbol with such a date.
  pub option_chain-IsNearest :
      (today : Date) (cache : GoMap (ChainCacheEntry F)) (path : String)
      → IsNearest today
          (normalize_symbol (trim_prefix path "/api/option-chain/"))
          cache
          (option_chain today cache path "")
  unfolding option_chain
  option_chain-IsNearest today cache path =
      let symbol = normalize_symbol (trim_prefix path "/api/option-chain/") in
      Found-IsNearest today symbol cache (nearest today symbol cache none)
        (nearest-Found today symbol cache none)
