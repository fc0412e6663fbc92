-- ===== src/Prelude/Digits.antt =====
-- Trimming a character, and numbers read from decimal digits.
use Prim.Native.Nat.{ℕ, zero, suc, ◌+◌, ◌-◌, ◌*◌}
use Prim.Native.Char.{Char, code}
use Prim.Native.String.{String, [], ◌∷◌}
use mathlib.Core.Path.{◌≡◌, refl}
use mathlib.Core.Bool.{Bool, true, ◌&&◌}
use mathlib.Core.Option.{Option, none, some}
use mathlib.Core.Option
use text.Mathlib.Text.{◌==◌ as same_text}
use complete_dashboard.Prelude.Tests.{◌==◌, leb, if◌then◌else◌}
use complete_dashboard.Prelude.Int.{ℤ, pos, negsuc}

trim_char_left : ℕ → String → String
trim_char_left n [] = []
trim_char_left n (c ∷ s) = if code c == n then trim_char_left n s else c ∷ s

trim_char_right : ℕ → String → String
trim_char_right n [] = []
trim_char_right n (c ∷ s) =
    let rest = trim_char_right n s in if code c == n && same_text rest "" then [] else c ∷ rest

-- strings.Trim(s, string(c)) for the character of code `n`
unfoldable pub trim_char : ℕ → String → String
unfolding trim_char_left trim_char_right
trim_char n s = trim_char_right n (trim_char_left n s)

abbrev pub is_digit : Char → Bool
is_digit c = leb 48 (code c) && leb (code c) 57

-- The digits of a text.
unfoldable pub digits_only : String → String
digits_only [] = []
digits_only (c ∷ s) = let rest = digits_only s in if is_digit c then c ∷ rest else rest

-- The number that digits write after `acc`.
unfoldable pub digits_value : String → ℕ → ℕ
digits_value [] acc = acc
digits_value (c ∷ s) acc = digits_value s (acc * 10 + (code c - 48))

abbrev pub max_int64 : ℕ
max_int64 = 9223372036854775807

-- strconv.ParseInt(s, 10, 64) of a text of digits
unfoldable pub parse_int64 : String → Option ℤ
unfolding digits_value
parse_int64 s =
    if same_text s ""
    then none
    else if leb (digits_value s 0) max_int64
    then some (pos (digits_value s 0))
    else none

digits_tests :
    (trim_char 34 "\"26000\"" ≡ "26000")
    × (digits_only "-12.50" ≡ "1250")
    × (parse_int64 "1047" ≡ some (pos 1047))
    × (parse_int64 "9223372036854775808" ≡ none)
unfolding trim_char digits_only parse_int64
digits_tests = (refl, refl, refl, refl)

all_digits : String → Bool
all_digits [] = true
all_digits (c ∷ s) = is_digit c && all_digits s

-- The number that a text of digits writes, if it is one.
unfoldable pub natural : String → Option ℕ
unfolding digits_value all_digits
natural s = if same_text s "" then none else if all_digits s then some (digits_value s 0) else none

-- -n
abbrev negated : ℕ → ℤ
negated zero = pos 0
negated (suc n) = negsuc n

signed : String → Option ℤ
signed [] = none
signed (c ∷ s) =
    if code c == 45
    then Option.map negated (natural s)
    else if code c == 43
    then Option.map pos (natural s)
    else Option.map pos (natural (c ∷ s))

abbrev in_int64 : Option ℤ → Option ℤ
in_int64 none = none
in_int64 (some (pos n)) = if leb n max_int64 then some (pos n) else none
in_int64 (some (negsuc n)) = if leb n max_int64 then some (negsuc n) else none

-- strconv.Atoi
unfoldable pub atoi : String → Option ℤ
unfolding natural signed
atoi s = in_int64 (signed s)

atoi_tests :
    (atoi "26" ≡ some (pos 26))
    × (atoi "-9" ≡ some (negsuc 8))
    × (atoi "+7" ≡ some (pos 7))
    × (atoi "2x" ≡ none)
    × (atoi "-" ≡ none)
unfolding atoi
atoi_tests = (refl, refl, refl, refl, refl)
