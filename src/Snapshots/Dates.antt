-- ===== src/Snapshots/Dates.antt =====
-- services/snapshot-service/cmd/main.go: parseSnapshotExpiryDate. Dates are those of a time zone
-- where every day has a midnight.
use complete_dashboard.Prelude.{
  ℕ, zero, suc, ◌+◌, ◌-◌, ◌*◌, ◌%◌, ◌≤◌, ◌<◌, ◌≡◌, refl, String, Bool, not, ◌&&◌, ◌||◌, Option,
  none, some, List, [], ◌∷◌, length, get_or, ◌==◌, ltb, leb, if◌then◌else◌, str_eq, len, to_upper,
  trim_space, without, arith, Bool-cases, inl, inr,
}
use complete_dashboard.Prelude.Int.{ℤ, pos, negsuc}
use complete_dashboard.Prelude.Digits.{atoi}
use Prim.Native.String

pub record Date : Type 0 where
  pub day : ℕ
  pub month : ℕ
  pub year : ℕ

abbrev pub midnight : ℕ → ℕ → ℕ → Date
midnight y m d = record { day = d; month = m; year = y }

-- d.Before(e) at the midnights of dates: the day's place in the order of years, months and days
abbrev pub place : Date → ℕ
place d = (d.year * 16 + d.month) * 32 + d.day

abbrev pub is_before : Date → Date → Bool
is_before d e = ltb (place d) (place e)

unfoldable pub is_leap : ℕ → Bool
is_leap y = y % 4 == 0 && not (y % 100 == 0) || y % 400 == 0

abbrev common_lengths : List ℕ
common_lengths = 31 ∷ 28 ∷ 31 ∷ 30 ∷ 31 ∷ 30 ∷ 31 ∷ 31 ∷ 30 ∷ 31 ∷ 30 ∷ 31 ∷ []

unfoldable pub days_in : ℕ → ℕ → ℕ
unfolding is_leap
days_in y m = get_or common_lengths (m - 1) 31 + (if (m == 2) && is_leap y then 1 else 0)

-- A day that may lie past the last day, `n`, of its month.
abbrev within_month : ℕ → ℕ → ℕ → ℕ → Date
within_month n y m d =
    if leb d n
    then midnight y m d
    else if m == 12
    then midnight (y + 1) 1 (d - n)
    else midnight y (m + 1) (d - n)

-- time.Date for a month from 1 to 12 and a day from 1 to 31: a day past the end of its month is one
-- of the next month.
unfoldable pub go_date : ℕ → ℕ → ℕ → Date
unfolding days_in
go_date y m d = within_month (days_in y m) y m d

-- monthMap[s]: the months in their order, the first of number `n`
month_from : ℕ → List String → String → Option ℕ
month_from n [] s = none
month_from n (name ∷ names) s = if str_eq name s then some n else month_from (n + 1) names s

abbrev month_names : List String
month_names =
    "JAN" ∷ "FEB" ∷ "MAR" ∷ "APR" ∷ "MAY" ∷ "JUN" ∷ "JUL" ∷ "AUG" ∷ "SEP" ∷ "OCT" ∷ "NOV" ∷ "DEC"
    ∷ []

unfoldable pub month_of : String → Option ℕ
unfolding month_from
month_of s = month_from 1 month_names s

-- if year < 100 { year += 2000 }: a sign leaves room for three digits, so the sum is positive
abbrev full_year : ℤ → ℕ
full_year (pos y) = if ltb y 100 then y + 2000 else y
full_year (negsuc n) = 2000 - suc n

-- clean[lo:hi], with clean's `- _ /` and spaces removed
unfoldable pub clean_expiry : String → String
unfolding without to_upper trim_space
clean_expiry expiry =
    without 47 (without 32 (without 95 (without 45 (to_upper (trim_space expiry)))))

abbrev unmoved : Date → ℕ → ℕ → ℕ → Option Date
unmoved t y m d =
    if (not (t.day == d) || not (t.month == m)) || not (t.year == y) then none else some t

abbrev checked_date : ℕ → ℕ → ℕ → Option Date
checked_date y m d = unmoved (go_date y m d) y m d

abbrev day_and_year : ℕ → Option ℤ → Option ℤ → Option Date
day_and_year m (some (pos (suc d))) (some y) =
    if ltb 31 (suc d) then none else checked_date (full_year y) m (suc d)
day_and_year m day year = none

abbrev parts_date : Option ℕ → Option ℤ → Option ℤ → Option Date
parts_date none day year = none
parts_date (some m) day year = day_and_year m day year

unfoldable pub parse_snapshot_expiry_date : String → Option Date
unfolding clean_expiry month_of atoi go_date
parse_snapshot_expiry_date expiry =
    let clean = clean_expiry expiry in
    if not (len clean == 7) && not (len clean == 9)
    then none
    else parts_date (month_of (String.slice clean 2 5)) (atoi (String.slice clean 0 2))
        (atoi (String.slice clean 5 (len clean)))

-- A day of the calendar.
abbrev IsDate : Date → Type 0
IsDate t = (1 ≤ t.month) × (t.month ≤ 12) × (1 ≤ t.day) × (t.day ≤ days_in t.year t.month)

month_from-range :
    (n : ℕ) (names : List String) (s : String) {m : ℕ}
    → month_from n names s ≡ some m
    → (n ≤ m) × (m < n + length names)
unfolding month_from
month_from-range n [] s h = cc
month_from-range n (name ∷ names) s {m} h = ground (arith, month_from-range (n + 1) names s {m = m})

month_of-range : (s : String) {m : ℕ} → month_of s ≡ some m → (1 ≤ m) × (m ≤ 12)
unfolding month_of
month_of-range s h = omega (arith, month_from-range 1 month_names s h)

unmoved-within_month :
    (n y m d : ℕ) {t : Date}
    → m ≤ 12
    → unmoved (within_month n y m d) y m d ≡ some t
    → (t ≡ midnight y m d) × (d ≤ n)
unmoved-within_month n y m d h k = ground arith

checked_date-IsDate :
    (y m d : ℕ) {t : Date} → 1 ≤ m → m ≤ 12 → 1 ≤ d → checked_date y m d ≡ some t → IsDate t
unfolding go_date
checked_date-IsDate y m d lo hi k h =
    let same = unmoved-within_month (days_in y m) y m d hi h in rw same.0 (lo, hi, k, same.1)

parts_date-IsDate :
    (month : Option ℕ) (day year : Option ℤ) {t : Date}
    → ((m : ℕ) → month ≡ some m → (1 ≤ m) × (m ≤ 12))
    → parts_date month day year ≡ some t
    → IsDate t
parts_date-IsDate none day year r h = cc
parts_date-IsDate (some m) none year r h = cc
parts_date-IsDate (some m) (some (negsuc d)) year r h = cc
parts_date-IsDate (some m) (some (pos zero)) year r h = cc
parts_date-IsDate (some m) (some (pos (suc d))) none r h = cc
parts_date-IsDate (some m) (some (pos (suc d))) (some y) r h =
    checked_date-IsDate (full_year y) m (suc d) (r m refl).0 (r m refl).1 (omega arith)
      (ground arith)

-- An expiry that is read is a day of the calendar.
parse_snapshot_expiry_date-IsDate :
    (expiry : String) {t : Date} → parse_snapshot_expiry_date expiry ≡ some t → IsDate t
unfolding parse_snapshot_expiry_date
parse_snapshot_expiry_date-IsDate expiry h =
    let clean = clean_expiry expiry in
    let month = month_of (String.slice clean 2 5) in
    elim (Bool-cases (not (len clean == 7) && not (len clean == 9))) [
      | inl bad ↦ cc
      | inr fits ↦
          parts_date-IsDate month (atoi (String.slice clean 0 2))
            (atoi (String.slice clean 5 (len clean)))
            (λ m e. month_of-range (String.slice clean 2 5) e) (rw fits at h)
    ]

parse_runs :
    (parse_snapshot_expiry_date " 28-Jul-26" ≡ some (midnight 2026 7 28))
    × (parse_snapshot_expiry_date "24DEC2029" ≡ some (midnight 2029 12 24))
    × (parse_snapshot_expiry_date "29FEB25" ≡ none)
    × (parse_snapshot_expiry_date "2026-07-28" ≡ none)
unfolding parse_snapshot_expiry_date
parse_runs = (refl, refl, refl, refl)
