-- ===== src/MarketData/Expiries.antt =====
-- services/market-data-gateway/cmd/main.go: getActiveExpiries. `parse_date` is time.Parse with the
-- layout 2006-01-02 and `format_date` the layout 02Jan2006; a date is the number of its day.
use Prim.Native.Char.{code}
use complete_dashboard.Prelude.{
  ℕ, ◌+◌, ◌≤◌, ◌≡◌, ◌≢◌, refl, ◌∙◌, String, Option, none, some, List, [], ◌∷◌, map, All, All-map,
  Result, ok, err, if◌then◌else◌, ltb, ◌==◌, arith, Bool-cases, inl, inr,
}

-- strings.Split(s, "T")[0]
unfoldable pub before_t : String → String
before_t String.[] = String.[]
before_t (String.◌∷◌ c s) =
    let rest = before_t s in if code c == 84 then String.[] else String.◌∷◌ c rest

-- sort.Slice by Before
unfoldable pub insert_date : ℕ → List ℕ → List ℕ
insert_date d [] = d ∷ []
insert_date d (e ∷ dates) =
    let rest = insert_date d dates in if ltb e d then e ∷ rest else d ∷ e ∷ dates

unfoldable pub sort_dates : List ℕ → List ℕ
unfolding insert_date
sort_dates [] = []
sort_dates (d ∷ dates) = insert_date d (sort_dates dates)

module _ (parse_date : String → Option ℕ) (format_date : ℕ → String) where
  abbrev keep : ℕ → Option ℕ → List ℕ → List ℕ
  keep today none dates = dates
  keep today (some d) dates = if ltb d today then dates else d ∷ dates

  -- The dates that have not passed, in the order in which they were fetched.
  unfoldable pub valid_dates : ℕ → List String → List ℕ
  unfolding before_t
  valid_dates today [] = []
  valid_dates today (e ∷ expiries) =
      keep today (parse_date (before_t e)) (valid_dates today expiries)

  abbrev some_dates : List ℕ → Result String (List String)
  some_dates [] = err "no expiries found"
  some_dates (d ∷ dates) = ok (map format_date (sort_dates (d ∷ dates)))

  -- The argument is what FetchExpiryDates returned.
  unfoldable pub get_active_expiries : ℕ → Result String (List String) → Result String (List String)
  unfolding valid_dates sort_dates
  get_active_expiries today (err e) = err e
  get_active_expiries today (ok expiries) = some_dates (valid_dates today expiries)

-- How often a date stands in a list.
abbrev pub count : ℕ → List ℕ → ℕ
count d [] = 0
count d (e ∷ dates) = (if d == e then 1 else 0) + count d dates

-- Each date is at most all that follow.
abbrev pub IsSorted : List ℕ → Type 0
IsSorted [] = Unit
IsSorted (d ∷ dates) = All (λ e. d ≤ e) dates × IsSorted dates

count-insert_date : (c d : ℕ) (dates : List ℕ) → count c (insert_date d dates) ≡ count c (d ∷ dates)
unfolding insert_date
count-insert_date c d [] = refl
count-insert_date c d (e ∷ dates) = ground (arith, count-insert_date c d dates)

All-insert_date :
    (lo d : ℕ) (dates : List ℕ)
    → lo ≤ d
    → All (λ e. lo ≤ e) dates
    → All (λ e. lo ≤ e) (insert_date d dates)
unfolding insert_date
All-insert_date lo d [] h k = (h, tt)
All-insert_date lo d (e ∷ dates) h k = elim (Bool-cases (ltb e d)) [
  | inl after ↦ rw after (k.0, All-insert_date lo d dates h k.1)
  | inr before ↦ rw before (h, k)
]

insert_date-IsSorted : (d : ℕ) (dates : List ℕ) → IsSorted dates → IsSorted (insert_date d dates)
unfolding insert_date
insert_date-IsSorted d [] h = (tt, tt)
insert_date-IsSorted d (e ∷ dates) h = elim (Bool-cases (ltb e d)) [
  | inl after ↦
      rw after
        (All-insert_date e d dates (ground (arith, after)) h.0, insert_date-IsSorted d dates h.1)
  | inr before ↦ rw before (
    (ground (arith, before), All-map (λ x. e ≤ x) _ dates (λ x le. ground (arith, before, le)) h.0),
    h,
  )
]

count-sort_dates : (c : ℕ) (dates : List ℕ) → count c (sort_dates dates) ≡ count c dates
unfolding sort_dates
count-sort_dates c [] = refl
count-sort_dates c (d ∷ dates) =
    ground (arith, count-insert_date c d (sort_dates dates), count-sort_dates c dates)

sort_dates-IsSorted : (dates : List ℕ) → IsSorted (sort_dates dates)
unfolding sort_dates
sort_dates-IsSorted [] = tt
sort_dates-IsSorted (d ∷ dates) =
    insert_date-IsSorted d (sort_dates dates) (sort_dates-IsSorted dates)

insert_date-ne : (d : ℕ) (dates : List ℕ) → insert_date d dates ≢ []
unfolding insert_date
insert_date-ne d [] h = cc
insert_date-ne d (e ∷ dates) h = elim (Bool-cases (ltb e d)) [
  | inl after ↦ ground (arith, h, after)
  | inr before ↦ ground (arith, h, before)
]

sort_dates-ne : (d : ℕ) (dates : List ℕ) → sort_dates (d ∷ dates) ≢ []
unfolding sort_dates
sort_dates-ne d dates = insert_date-ne d (sort_dates dates)

module _ (parse_date : String → Option ℕ) (format_date : ℕ → String) (today : ℕ) where
  -- How many of the texts are read as a date.
  abbrev is_date : ℕ → Option ℕ → ℕ
  is_date d none = 0
  is_date d (some e) = if d == e then 1 else 0

  abbrev pub readings : ℕ → List String → ℕ
  readings d [] = 0
  readings d (e ∷ expiries) = is_date d (parse_date (before_t e)) + readings d expiries

  -- Dates by the times that they are read, from today on.
  abbrev pub Upcoming : List String → List ℕ → Type 0
  Upcoming expiries dates =
      (d : ℕ) → count d dates ≡ (if ltb d today then 0 else readings d expiries)

  keep-count :
      (d : ℕ) (found : Option ℕ) (dates : List ℕ) (n : ℕ)
      → count d dates ≡ (if ltb d today then 0 else n)
      → count d (keep parse_date format_date today found dates)
        ≡ (if ltb d today then 0 else is_date d found + n)
  keep-count d none dates n h = ground (arith, h)
  keep-count d (some e) dates n h = ground (arith, h)

  valid_dates-Upcoming :
      (expiries : List String)
      → Upcoming expiries (valid_dates parse_date format_date today expiries)
  unfolding valid_dates
  valid_dates-Upcoming [] d = ground arith
  valid_dates-Upcoming (e ∷ expiries) d =
      keep-count d (parse_date (before_t e)) (valid_dates parse_date format_date today expiries)
        (readings d expiries) (valid_dates-Upcoming expiries d)

  -- The dates of an answer, or that there are none.
  abbrev pub IsActive : List String → Result String (List String) → Type 0
  IsActive expiries (err e) = Upcoming expiries []
  IsActive expiries (ok l) =
      (dates : List ℕ) × (l ≡ map format_date dates)
      × (dates ≢ [])
      × IsSorted dates
      × Upcoming expiries dates

  some_dates-IsActive :
      (expiries : List String) (dates : List ℕ)
      → Upcoming expiries dates
      → IsActive expiries (some_dates parse_date format_date dates)
  some_dates-IsActive expiries [] h = h
  some_dates-IsActive expiries (d ∷ dates) h = (
    sort_dates (d ∷ dates),
    refl,
    sort_dates-ne d dates,
    sort_dates-IsSorted (d ∷ dates),
    λ c. count-sort_dates c (d ∷ dates) ∙ h c,
  )

  -- The active expiries are the dates from today on that the fetched texts are read as, each as
  -- often as it is read, in the order of the calendar, and there is an error exactly if there are
  -- none.
  pub get_active_expiries-IsActive :
      (expiries : List String)
      → IsActive expiries (get_active_expiries parse_date format_date today (ok expiries))
  unfolding get_active_expiries
  get_active_expiries-IsActive expiries =
      some_dates-IsActive expiries (valid_dates parse_date format_date today expiries)
        (valid_dates-Upcoming expiries)
