-- ===== src/Snapshots/Keys.antt =====
-- services/snapshot-service/cmd/main.go: the keys of the cache, symbol|expiry.
use complete_dashboard.Prelude.{
  ◌≡◌, ◌≢◌, refl, sym, ap, ◌∙◌, String, false, Bool-cases, inl, inr, arith, ◌&&◌, str_eq, ◌+s◌,
  contains, has_prefix, eq_iff, eq_refl,
}
use Prim.Native.Char.{Char, code}
use Prim.Native.String.{[], ◌∷◌}
use text.Mathlib.TextLemmas.{
  nil-append, cons-append, append_cancel_left, head-eq_of_cons-eq, tail-eq_of_cons-eq,
}
use complete_dashboard.Snapshots.Cache.{cache_key}

first_bar : (d : Char) (t a y : String) → "|" +s a ≡ (d ∷ t) +s y → code d ≡ 124
first_bar d t a y h =
    ap code (sym (head-eq_of_cons-eq (sym (cons-append "|" [] a) ∙ h ∙ cons-append d t y)))

no_bar_first : (d : Char) (t : String) → contains (d ∷ t) "|" ≡ false → code d ≢ 124
unfolding contains has_prefix
no_bar_first d t h e = ground (arith, h, e)

no_bar_after : (d : Char) (t : String) → contains (d ∷ t) "|" ≡ false → contains t "|" ≡ false
unfolding contains
no_bar_after d t h = ground (arith, h)

cons_eq : {c d : Char} {s t : String} → c ≡ d → s ≡ t → c ∷ s ≡ d ∷ t
cons_eq h k = cc

-- A key of the cache tells its symbol, which has no bar, and its expiry.
cache_key_inj :
    (s t a b : String)
    → contains s "|" ≡ false
    → contains t "|" ≡ false
    → cache_key s a ≡ cache_key t b
    → (s ≡ t) × (a ≡ b)
cache_key_inj [] [] a b u v h =
    (refl, append_cancel_left "|" a b (append_cancel_left [] ("|" +s a) ("|" +s b) h))
cache_key_inj [] (d ∷ t) a b u v h =
    absurd (no_bar_first d t v (first_bar d t a ("|" +s b) (sym (nil-append ("|" +s a)) ∙ h)))
cache_key_inj (c ∷ s) [] a b u v h =
    absurd (no_bar_first c s u (first_bar c s b ("|" +s a) (sym (nil-append ("|" +s b)) ∙ sym h)))
cache_key_inj (c ∷ s) (d ∷ t) a b u v h =
    let same = sym (cons-append c s ("|" +s a)) ∙ h ∙ cons-append d t ("|" +s b) in
    let rest =
      cache_key_inj s t a b (no_bar_after c s u) (no_bar_after d t v) (tail-eq_of_cons-eq same) in
    (cons_eq (head-eq_of_cons-eq same) rest.0, rest.1)

pub same_key :
    (s t a b : String)
    → contains s "|" ≡ false
    → contains t "|" ≡ false
    → str_eq (cache_key s a) (cache_key t b) ≡ (str_eq s t && str_eq a b)
same_key s t a b u v = elim (Bool-cases (str_eq (cache_key s a) (cache_key t b))) [
  | inl e ↦
      (let both = cache_key_inj s t a b u v ((eq_iff (cache_key s a) (cache_key t b)).0 e) in
        rw (both.0, both.1, eq_refl t, eq_refl b, eq_refl (cache_key t b)) refl)
  | inr e ↦ elim (Bool-cases (str_eq s t && str_eq a b)) [
    | inl both ↦
        (let symbols = (eq_iff s t).0 (ground (arith, both)) in
          let expiries = (eq_iff a b).0 (ground (arith, both)) in
          ground (arith, e, both, symbols, expiries, eq_refl (cache_key t b)))
    | inr other ↦ e ∙ sym other
  ]
]
