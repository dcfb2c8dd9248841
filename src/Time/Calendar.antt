-- ===== src/Time/Calendar.antt =====
-- The calendar that the code keeps: every fourth year has 366 days.
use ogos.Prelude.{
  ℕ, zero, suc, ◌+◌, ◌-◌, ◌*◌, ◌/◌, ◌%◌, ◌^◌, ◌<◌, ◌≤◌, ◌≡◌, ◌≢◌, refl, inl, inr, List, Bool, true,
  false, ◌&&◌, not, ◌||◌, arith, ltb, leb, ◌==◌, if◌then◌else◌, Bool-cases, get_or, Option, none,
  some, all_below, all_below_sound,
}
use ogos.Time.{
  mdays, mdays_leap, add_years, compute_days_for_year, find_month, epoch_years_of, year_day_of,
}

-- The days of the k years from 1970 on.
abbrev pub years_days : ℕ → ℕ
years_days k = k * 365 + (k + 1) / 4

abbrev pub year_length : ℕ → ℕ
year_length k = if (1970 + k) % 4 == 0 then 366 else 365

add_years_lem :
    (n k ret i : ℕ) → i ≡ 1970 + k → add_years n i ret + years_days k ≡ ret + years_days (k + n)
unfolding add_years
add_years_lem zero k ret i e = omega arith
add_years_lem (suc n) k ret i e = ground (
  arith,
  add_years_lem n (k + 1) (if i % 4 == 0 then ret + 366 else ret + 365) (i + 1) (omega arith),
)

-- The closed form of the loop over the years.
pub compute_days-years : (k : ℕ) → k < 2 ^ 32 → compute_days_for_year (1970 + k) ≡ years_days k
unfolding compute_days_for_year
compute_days-years k h =
    let n : 1970 + k - 1970 ≡ k = omega arith in rw n (omega (arith, add_years_lem k 0 0 1970 refl))

-- `tdate_parseTime` finds the year and the day of the year, up to the year 3431.
pub epoch_years_lem :
    (k y : ℕ)
    → k < 1462
    → y < year_length k
    → (epoch_years_of (years_days k + y) ≡ k) × (year_day_of (years_days k + y) k ≡ y)
unfolding epoch_years_of year_day_of
epoch_years_lem k y h p = elim (Bool-cases ((1970 + k) % 4 == 0)) [
  | inl leap ↦
      let last : y < 366 = rw leap at p in
      let fourth : k % 4 ≡ 2 = ground arith in (omega arith, omega arith)
  | inr common ↦
      let last : y < 365 = rw common at p in
      let other : k % 4 ≢ 2 = ground arith in (omega arith, omega arith)
]

abbrev pub month_table : Bool → List ℕ
month_table leap = if leap then mdays_leap else mdays

-- Day y of a year stands in month m, counted from 1.
abbrev pub in_month : Bool → ℕ → ℕ → Bool
in_month leap m y =
    leb 1 m && leb (get_or (month_table leap) (m - 1) 0) y && ltb y (get_or (month_table leap) m 0)

abbrev is_some_eq : Option ℕ → ℕ → Bool
is_some_eq none m = false
is_some_eq (some n) m = n == m

abbrev month_check : Bool → ℕ → ℕ → Bool
month_check leap y m =
    not (in_month leap m y) || is_some_eq (find_month 13 (month_table leap) y 1) m

months_common : all_below 365 (λ y. all_below 13 (month_check false y)) ≡ true
unfolding all_below find_month
months_common = refl

months_leap : all_below 366 (λ y. all_below 13 (month_check true y)) ≡ true
unfolding all_below find_month
months_leap = refl

found : (b : Bool) (o : Option ℕ) (m : ℕ) → (not b || is_some_eq o m) ≡ true → b ≡ true → o ≡ some m
found true none m c h = cc
found true (some n) m c h = ground arith
found false o m c h = cc

table_end : all_below 13 (λ m. leb (get_or mdays m 0) 365 && leb (get_or mdays_leap m 0) 366) ≡ true
unfolding all_below
table_end = refl

before_end :
    (lo y hi last : ℕ) (c : Bool)
    → (c && leb lo y && ltb y hi) ≡ true
    → leb hi last ≡ true
    → y < last
before_end lo y hi last c h le = ground arith

both : (a b : Bool) → (a && b) ≡ true → (a ≡ true) × (b ≡ true)
both a b h = ground arith

-- The search for the month ends inside the table, at the month of the day.
pub find_month_lem :
    (leap : Bool) (y m : ℕ)
    → m < 13
    → in_month leap m y ≡ true
    → find_month 13 (month_table leap) y 1 ≡ some m
find_month_lem true y m lt h =
    let ends = both _ _ (all_below_sound 13 _ m table_end lt) in
    let inside : y < 366 = before_end _ y _ 366 _ h ends.1 in
    found _ _ m
      (all_below_sound 13 (month_check true y) m (all_below_sound 366 _ y months_leap inside) lt) h
find_month_lem false y m lt h =
    let ends = both _ _ (all_below_sound 13 _ m table_end lt) in
    let inside : y < 365 = before_end _ y _ 365 _ h ends.0 in
    found _ _ m
      (all_below_sound 13 (month_check false y) m (all_below_sound 365 _ y months_common inside) lt)
      h

-- A day of a month lies in the year.
pub day_below : (b : Bool) (y m : ℕ) → m < 13 → in_month b m y ≡ true → y < (if b then 366 else 365)
day_below true y m lt h =
    before_end _ y _ 366 _ h (both _ _ (all_below_sound 13 _ m table_end lt)).1
day_below false y m lt h =
    before_end _ y _ 365 _ h (both _ _ (all_below_sound 13 _ m table_end lt)).0

-- The start of the month is at most its day, and the day of the month has at most two digits.
pub month_start-le :
    (b : Bool) (y m : ℕ) → in_month b m y ≡ true → get_or (month_table b) (m - 1) 0 ≤ y
month_start-le b y m h = start (leb 1 m) _ y _ h
  where
    start : (c : Bool) (lo y hi : ℕ) → (c && leb lo y && ltb y hi) ≡ true → lo ≤ y
    start c lo y hi h = ground arith
