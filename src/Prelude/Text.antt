-- ===== src/Prelude/Text.antt =====
-- Go strings. `ToUpper`, `ToLower` and `TrimSpace` are those of ASCII text.
use Prim.Native.Nat.{ℕ, zero, suc, ◌/◌, ◌%◌}
use Prim.Native.Char.{Char, code}
use Prim.Native.String.{String, [], ◌∷◌, ◌++◌}
use Prim.Native.String
use mathlib.Core.Path.{◌≡◌, refl}
use mathlib.Core.Bool.{Bool, true, false, ◌&&◌, ◌||◌}
use mathlib.Core.Option.{Option, none, some}
use native.Mathlib.Omega.{arith}
use text.Mathlib.Text.{◌==◌ as same_text}
use text.Mathlib.TextEquality.{Char-path}
use text.Mathlib.TextLemmas.{nil-append, cons-append}
use complete_dashboard.Prelude.Tests.{◌==◌, leb, if◌then◌else◌}

-- s == t
abbrev pub str_eq : String → String → Bool
str_eq s t = same_text s t

-- The text, or `d` where it is empty.
abbrev pub text_or : String → String → String
text_or s d = if str_eq s "" then d else s

-- s + t
infixr 65 ◌+s◌
abbrev pub ◌+s◌ : String → String → String
s +s t = s ++ t

-- The character of `to` that stands where `from` has `c`.
translate : String → String → Char → Char
translate [] to c = c
translate (x ∷ from) [] c = c
translate (x ∷ from) (y ∷ to) c = if code x == code c then y else translate from to c

map_text : (Char → Char) → String → String
map_text f [] = []
map_text f (c ∷ s) = f c ∷ map_text f s

abbrev lower_letters : String
lower_letters = "abcdefghijklmnopqrstuvwxyz"

abbrev upper_letters : String
upper_letters = "ABCDEFGHIJKLMNOPQRSTUVWXYZ"

-- strings.ToUpper
unfoldable pub to_upper : String → String
unfolding map_text translate
to_upper s = map_text (translate lower_letters upper_letters) s

-- strings.ToLower
unfoldable pub to_lower : String → String
unfolding map_text translate
to_lower s = map_text (translate upper_letters lower_letters) s

is_space : Char → Bool
is_space c = code c == 32 || leb 9 (code c) && leb (code c) 13

trim_left : String → String
trim_left [] = []
trim_left (c ∷ s) = if is_space c then trim_left s else c ∷ s

trim_right : String → String
trim_right [] = []
trim_right (c ∷ s) =
    let rest = trim_right s in if is_space c && same_text rest "" then [] else c ∷ rest

-- strings.TrimSpace
unfoldable pub trim_space : String → String
unfolding trim_left trim_right is_space
trim_space s = trim_right (trim_left s)

-- strings.HasPrefix
unfoldable pub has_prefix : String → String → Bool
has_prefix s [] = true
has_prefix [] (d ∷ t) = false
has_prefix (c ∷ s) (d ∷ t) = code c == code d && has_prefix s t

-- strings.Contains
unfoldable pub contains : String → String → Bool
unfolding has_prefix
contains [] t = has_prefix [] t
contains (c ∷ s) t = has_prefix (c ∷ s) t || contains s t

-- strings.EqualFold
unfoldable pub equal_fold : String → String → Bool
unfolding to_upper
equal_fold s t = same_text (to_upper s) (to_upper t)

-- strings.ReplaceAll(s, "-", "")
unfoldable pub without_dashes : String → String
without_dashes [] = []
without_dashes (c ∷ s) = let rest = without_dashes s in if code c == 45 then rest else c ∷ rest

-- strings.ReplaceAll(s, string(c), "") for the character of code `n`
unfoldable pub without : ℕ → String → String
without n [] = []
without n (c ∷ s) = let rest = without n s in if code c == n then rest else c ∷ rest

-- len(s), in bytes, and s[:n]
abbrev pub len : String → ℕ
len s = String.len s

abbrev pub prefix_of : ℕ → String → String
prefix_of n s = String.slice s 0 n

nth_digit : String → ℕ → String
nth_digit [] n = []
nth_digit (c ∷ s) zero = c ∷ []
nth_digit (c ∷ s) (suc n) = nth_digit s n

-- The decimal digits of `n` before `acc`. A number has fewer digits than its successor.
digits_before : ℕ → ℕ → String → String
digits_before zero n acc = acc
digits_before (suc f) n acc =
    let here = nth_digit "0123456789" (n % 10) ++ acc in
    let more = digits_before f (n / 10) here in if n / 10 == 0 then here else more

-- %d of a number that is not negative
unfoldable pub format_nat : ℕ → String
unfolding digits_before nth_digit
format_nat n = digits_before (suc n) n []

text_tests :
    (to_upper (trim_space "  nifty ") ≡ "NIFTY")
    × (contains "BUI_TRD" "UI_" ≡ true)
    × (format_nat 1047 ≡ "1047")
    × (prefix_of 3 "SENSEX" ≡ "SEN")
unfolding to_upper trim_space contains format_nat
text_tests = (refl, refl, refl, refl)

-- strings.CutPrefix: what follows a prefix, if it is one
unfoldable pub after_prefix : String → String → Option String
after_prefix s [] = some s
after_prefix [] (d ∷ p) = none
after_prefix (c ∷ s) (d ∷ p) =
    let rest = after_prefix s p in if code c == code d then rest else none

-- strings.TrimPrefix
unfoldable pub trim_prefix : String → String → String
unfolding after_prefix
trim_prefix s p = elim (after_prefix s p) [ none ↦ s | some rest ↦ rest ]

pub after_prefix-append : (p s : String) → after_prefix (p ++ s) p ≡ some s
unfolding after_prefix
after_prefix-append [] [] = rw (nil-append []) refl
after_prefix-append [] (c ∷ s) = rw (nil-append (c ∷ s)) refl
after_prefix-append (d ∷ p) s = rw (cons-append d p s) (ground (arith, after_prefix-append p s))

same_first :
    (c d : Char) (s p rest : String) → code c ≡ code d → s ≡ p ++ rest → c ∷ s ≡ (d ∷ p) ++ rest
same_first c d s p rest h k = rw (cons-append d p rest) (cc (Char-path c d h))

pub after_prefix_sound :
    (s p : String) {rest : String} → after_prefix s p ≡ some rest → s ≡ p ++ rest
unfolding after_prefix
after_prefix_sound [] [] {rest} h = rw (nil-append rest) (cc)
after_prefix_sound (c ∷ s) [] {rest} h = rw (nil-append rest) (cc)
after_prefix_sound [] (d ∷ p) h = cc
after_prefix_sound (c ∷ s) (d ∷ p) {rest} h =
    same_first c d s p rest (ground (arith, h)) (after_prefix_sound s p (ground (arith, h)))
