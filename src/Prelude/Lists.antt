-- ===== src/Prelude/Lists.antt =====
-- Lists measured and indexed by native numbers, and predicates on all their members.
use Prim.Native.Nat.{ℕ, zero, suc, ◌+◌, ◌≤◌}
use mathlib.Core.Path.{◌≡◌}
use mathlib.Core.List.{List, [], ◌∷◌, ◌++◌}
use mathlib.Core.Option.{Option, none, some}
use native.Mathlib.Omega.{arith}

module _ {ℓ} {A : Type ℓ} where
  abbrev pub length : List A → ℕ
  length [] = 0
  length (x ∷ xs) = suc (length xs)

  abbrev pub get_elem? : List A → ℕ → Option A
  get_elem? [] i = none
  get_elem? (x ∷ xs) zero = some x
  get_elem? (x ∷ xs) (suc i) = get_elem? xs i

  abbrev pub get_or : List A → ℕ → A → A
  get_or [] i d = d
  get_or (x ∷ xs) zero d = x
  get_or (x ∷ xs) (suc i) d = get_or xs i d

  abbrev pub replicate : ℕ → A → List A
  replicate zero a = []
  replicate (suc n) a = a ∷ replicate n a

  pub length-append : (xs ys : List A) → length (xs ++ ys) ≡ length xs + length ys
  length-append [] ys = omega arith
  length-append (x ∷ xs) ys = omega (arith, length-append xs ys)

-- Every member satisfies `P`.
abbrev pub All {ℓ κ} : {A : Type ℓ} → (A → Type κ) → List A → Type κ
All P [] = Unit
All P (x ∷ xs) = P x × All P xs

module _ {ℓ κ} {A : Type ℓ} (P : A → Type κ) where
  pub All-append : (xs ys : List A) → All P xs → All P ys → All P (xs ++ ys)
  All-append [] ys h k = k
  All-append (x ∷ xs) ys h k = (h.0, All-append xs ys h.1 k)

  pub All-get_or : (xs : List A) (i : ℕ) (d : A) → All P xs → P d → P (get_or xs i d)
  All-get_or [] i d h k = k
  All-get_or (x ∷ xs) zero d h k = h.0
  All-get_or (x ∷ xs) (suc i) d h k = All-get_or xs i d h.1 k

module _ {ℓ κ μ} {A : Type ℓ} (P : A → Type κ) (Q : A → Type μ) where
  pub All-map : (xs : List A) → ((x : A) → P x → Q x) → All P xs → All Q xs
  All-map [] f h = tt
  All-map (x ∷ xs) f h = (f x h.0, All-map xs f h.1)

-- The sum of a measure over a list.
module _ {ℓ} {A : Type ℓ} where
  abbrev pub sum_by : (A → ℕ) → List A → ℕ
  sum_by f [] = 0
  sum_by f (x ∷ xs) = f x + sum_by f xs

  pub sum_by-append : (f : A → ℕ) (xs ys : List A) → sum_by f (xs ++ ys) ≡ sum_by f xs + sum_by f ys
  sum_by-append f [] ys = omega arith
  sum_by-append f (x ∷ xs) ys = omega (arith, sum_by-append f xs ys)

-- f i + f (i + 1) + … with `n` summands.
abbrev pub sum_range : (ℕ → ℕ) → ℕ → ℕ → ℕ
sum_range f i zero = 0
sum_range f i (suc n) = f i + sum_range f (suc i) n

pub sum_range-add :
    (f g : ℕ → ℕ) (i n : ℕ) → sum_range (λ k. f k + g k) i n ≡ sum_range f i n + sum_range g i n
sum_range-add f g i zero = omega arith
sum_range-add f g i (suc n) = omega (arith, sum_range-add f g (suc i) n)

pub sum_range-zero : (i n : ℕ) → sum_range (λ k. 0) i n ≡ 0
sum_range-zero i zero = omega arith
sum_range-zero i (suc n) = omega (arith, sum_range-zero (suc i) n)

pub sum_range-suc : (f : ℕ → ℕ) (i n : ℕ) → sum_range f (suc i) n ≡ sum_range (λ k. f (suc k)) i n
sum_range-suc f i zero = omega arith
sum_range-suc f i (suc n) = omega (arith, sum_range-suc f (suc i) n)

abbrev pub weight_or {ℓ} : {A : Type ℓ} → (A → ℕ) → Option A → ℕ
weight_or w none = 0
weight_or w (some a) = w a

module _ {ℓ} {A : Type ℓ} (w : A → ℕ) where
  -- The weights at all indices below a bound on the length add up to the weight of the list.
  pub sum_range-get_elem? :
      (xs : List A) (n : ℕ)
      → length xs ≤ n
      → sum_range (λ i. weight_or w (get_elem? xs i)) 0 n ≡ sum_by w xs
  sum_range-get_elem? [] n h = sum_range-zero 0 n
  sum_range-get_elem? (x ∷ xs) zero h = absurd (omega arith)
  sum_range-get_elem? (x ∷ xs) (suc n) h = omega (
    arith,
    sum_range-suc (λ i. weight_or w (get_elem? (x ∷ xs) i)) 0 n,
    sum_range-get_elem? xs n (omega arith),
  )

  pub sum_range-get_or :
      (xs : List A) (d : A) (n : ℕ)
      → w d ≡ 0
      → length xs ≤ n
      → sum_range (λ i. w (get_or xs i d)) 0 n ≡ sum_by w xs
  sum_range-get_or [] d n e h = rw e (sum_range-zero 0 n)
  sum_range-get_or (x ∷ xs) d zero e h = absurd (omega arith)
  sum_range-get_or (x ∷ xs) d (suc n) e h = omega (
    arith,
    sum_range-suc (λ i. w (get_or (x ∷ xs) i d)) 0 n,
    sum_range-get_or xs d n e (omega arith),
  )
