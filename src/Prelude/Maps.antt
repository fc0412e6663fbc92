-- ===== src/Prelude/Maps.antt =====
-- A Go map with string keys: pairs in some order, read from the front. Ranging over the map meets
-- the pairs in the order of the list, which stands for the order that the runtime picks.
use mathlib.Core.Path.{◌≡◌, refl}
use mathlib.Core.Option.{Option, none, some}
use mathlib.Core.List.{List, [], ◌∷◌}
use native.Mathlib.Omega.{arith}
use Prim.Native.String.{String}
use mathlib.Core.Bool.{true, false}
use text.Mathlib.Text.{◌==◌ as same_text}
use text.Mathlib.TextEquality.{eq_iff}
use complete_dashboard.Prelude.Tests.{if◌then◌else◌}

pub record Entry (V : Type 0) : Type 0 where
  pub key : String
  pub value : V

abbrev pub GoMap : Type 0 → Type 0
GoMap V = List (Entry V)

module _ {V : Type 0} where
  -- v, ok := m[k]
  unfoldable pub find : GoMap V → String → Option V
  find [] k = none
  find (e ∷ m) k = if same_text e.key k then some e.value else find m k

  -- m[k] = v
  unfoldable pub put : GoMap V → String → V → GoMap V
  put [] k v = record { key = k; value = v } ∷ []
  put (e ∷ m) k v = if same_text e.key k then record e { value = v } ∷ m else e ∷ put m k v

  -- delete(m, k)
  unfoldable pub delete : GoMap V → String → GoMap V
  delete [] k = []
  delete (e ∷ m) k = elim (same_text e.key k) [ true ↦ delete m k | false ↦ e ∷ delete m k ]

  pub find-put :
      (m : GoMap V) (k j : String) (v : V)
      → find (put m k v) j ≡ (if same_text k j then some v else find m j)
  unfolding find put
  find-put [] k j v = refl
  find-put (e ∷ m) k j v =
      ground (arith, find-put m k j v, eq_iff e.key k, eq_iff e.key j, eq_iff k j)

  -- What was put last at a key is found there.
  pub find-put-same : (m : GoMap V) (k : String) (v : V) → find (put m k v) k ≡ some v
  find-put-same m k v = ground (arith, find-put m k k v, eq_iff k k)

  pub find-put-other :
      (m : GoMap V) (k j : String) (v : V) → same_text k j ≡ false → find (put m k v) j ≡ find m j
  find-put-other m k j v h = ground (arith, find-put m k j v, h)

  pub find-delete :
      (m : GoMap V) (k j : String)
      → find (delete m k) j ≡ (if same_text k j then none else find m j)
  unfolding find delete
  find-delete [] k j = ground arith
  find-delete (e ∷ m) k j =
      ground (arith, eq_iff e.key j, eq_iff k j, eq_iff e.key k, find-delete m k j)
