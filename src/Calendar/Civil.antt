-- ===== src/Calendar/Civil.antt =====
-- `month_index` finds the month that a day lies in, so the fields of a day are those of the
-- proleptic Gregorian calendar, and `date` of the fields is the day again.
use native.Mathlib.Decide.{dec_lt}
use sajni_api.Prelude.{ℕ, zero, suc, ◌+◌, ◌-◌, ◌*◌, ◌/◌, ◌%◌, ◌≤◌, ◌<◌, ◌≡◌, min, ap, ◌∙◌, arith}
use sajni_api.Calendar.{
  is_leap, month_length, days_before_year, days_before_month, month_start, month_days, year,
  find_month, month_index, day_of_month, date, month,
}
use sajni_api.Calendar.Months.{month_start_at, month_start-suc, month_unique, month_start_mono}

-- The days before a year, by the cycles that `year` counts.
days_before_cycles :
    (a c q y : ℕ)
    → c ≤ 3
    → q ≤ 24
    → y ≤ 3
    → days_before_year (a * 400 + c * 100 + q * 4 + y + 1)
      ≡ a * 146097 + c * 36524 + q * 1461 + y * 365
unfolding days_before_year
days_before_cycles a c q y hc hq hy = omega arith

year_length_cycles :
    (a c q y r : ℕ)
    → c ≤ 3
    → q ≤ 24
    → y ≤ 3
    → r < 366
    → (y ≤ 2 → r < 365)
    → (q ≡ 24 → c ≤ 2 → r < 365)
    → r < days_before_month (a * 400 + c * 100 + q * 4 + y + 1) 12
unfolding days_before_month month_length is_leap
year_length_cycles a c q y r hc hq hy h h1 h2 = ground arith

-- A day lies in its year.
pub year_holds :
    (n : ℕ)
    → (1 ≤ year n)
      × (days_before_year (year n) ≤ n)
      × (n < days_before_year (year n) + days_before_month (year n) 12)
unfolding year
year_holds n =
    let a = n / 146097 in
    let cycle = n % 146097 in
    let c = min (cycle / 36524) 3 in
    let in_century = cycle - c * 36524 in
    let q = in_century / 1461 in
    let in_four = in_century % 1461 in
    let y = min (in_four / 365) 3 in
    let before = days_before_cycles a c q y (omega arith) (omega arith) (omega arith) in
    let inside =
      year_length_cycles a c q y (in_four - y * 365) (omega arith) (omega arith) (omega arith)
        (omega arith) (omega arith) (omega arith) in
    (omega arith, omega arith, omega arith)

month_days_at :
    (y m : ℕ)
    → m < 12
    → month_days (y * 12 + m) + days_before_month y m ≡ days_before_month y (suc m)
unfolding month_days days_before_month
month_days_at y m h =
    let year_is : (y * 12 + m) / 12 ≡ y = omega arith in
    let month_is : (y * 12 + m) % 12 ≡ m = omega arith in rw (year_is, month_is) (omega arith)

-- The search for the month stops at the one that holds the day.
find_month_holds :
    (y m d : ℕ)
    → d < days_before_month y (suc m)
    → (find_month y m d ≤ m)
      × (days_before_month y (find_month y m d) ≤ d)
      × (d < days_before_month y (suc (find_month y m d)))
unfolding find_month
find_month_holds y zero d h = (omega arith, unfold days_before_month in omega arith, h)
find_month_holds y (suc m) d h = ground (arith, find_month_holds y m d)

-- A day lies in its month.
pub month_index_holds :
    (n : ℕ)
    → (12 ≤ month_index n)
      × (month_start (month_index n) ≤ n)
      × (n < month_start (suc (month_index n)))
unfolding month_index
month_index_holds n =
    let y = year n in
    let in_year = year_holds n in
    let m = find_month y 11 (n - days_before_year y) in
    let found = find_month_holds y 11 (n - days_before_year y) (omega arith) in
    let starts = month_start_at y m (omega arith) in
    let ends = month_start-suc (y * 12 + m) (omega arith) in
    let days = month_days_at y m (omega arith) in (omega arith, omega arith, omega arith)

-- The month of a day is the one whose days it lies among.
pub month_index-eq :
    (k n : ℕ) → 12 ≤ k → month_start k ≤ n → n < month_start (suc k) → month_index n ≡ k
month_index-eq k n h lo hi =
    let holds = month_index_holds n in
    month_unique (month_index n) k n holds.0 h holds.1 holds.2 lo hi

-- The fields of a day are a month from 1 to 12 and a day of that month.
pub field_bounds :
    (n : ℕ)
    → (1 ≤ month n)
      × (month n ≤ 12)
      × (1 ≤ day_of_month n)
      × (day_of_month n ≤ month_days (month_index n))
unfolding month day_of_month
field_bounds n =
    let holds = month_index_holds n in
    let ends = month_start-suc (month_index n) holds.0 in
    (omega arith, omega arith, omega arith, omega arith)

-- `year` and `month` are the two parts of the month's number.
pub year-month_index : (n : ℕ) → year n ≡ month_index n / 12
unfolding month_index
year-month_index n =
    let y = year n in
    let in_year = year_holds n in
    let found = find_month_holds y 11 (n - days_before_year y) (omega arith) in omega arith

pub month_index-fields : (n : ℕ) → year n * 12 + month n - 1 ≡ month_index n
unfolding month
month_index-fields n = omega (arith, year-month_index n)

-- `time.Date` of the fields of a day is the day.
pub date-fields : (n : ℕ) → date (year n) (month n) (day_of_month n) ≡ n
unfolding date day_of_month
date-fields n = let holds = month_index_holds n in rw month_index-fields (omega arith)

-- The length of a month, by its year and its place in the year.
pub month_days-eq : (y m : ℕ) → 1 ≤ m → m ≤ 12 → month_days (y * 12 + m - 1) ≡ month_length y m
unfolding month_days
month_days-eq y m lo hi =
    let split : y * 12 + m - 1 ≡ y * 12 + (m - 1) = omega arith in
    ap (λ i. month_length (i / 12) (i % 12 + 1)) split
    ∙ ap (λ i. month_length i ((y * 12 + (m - 1)) % 12 + 1)) (omega arith)
    ∙ ap (month_length y) (omega arith)

-- A day named within its month lies in that month.
pub month_index-date :
    (y m d : ℕ)
    → 1 ≤ y
    → 1 ≤ m
    → m ≤ 12
    → 1 ≤ d
    → d ≤ month_length y m
    → month_index (date y m d) ≡ y * 12 + m - 1
unfolding date
month_index-date y m d hy lo hi hd fits =
    let k : ℕ = y * 12 + m - 1 in
    let ends = month_start-suc k (omega arith) in
    let days = month_days-eq y m lo hi in
    month_index-eq k (month_start k + d - 1) (omega arith) (omega arith) (omega arith)

-- The fields of a `time.Date` within the month are its arguments.
pub fields-date :
    (y m d : ℕ)
    → 1 ≤ y
    → 1 ≤ m
    → m ≤ 12
    → 1 ≤ d
    → d ≤ month_length y m
    → (year (date y m d) ≡ y) × (month (date y m d) ≡ m) × (day_of_month (date y m d) ≡ d)
fields-date y m d hy lo hi hd fits =
    let here = month_index-date y m d hy lo hi hd fits in
    (
      omega (arith, here, year-month_index (date y m d)),
      unfold month in omega (arith, here),
      unfold day_of_month in rw here (unfold date in omega arith),
    )

-- A day of the month is one that the month has.
pub day_in_month : (n : ℕ) → day_of_month n ≤ month_length (year n) (month n)
unfolding month
day_in_month n = rw year-month_index (unfold month_days in (field_bounds n).3)

-- Between the first days of two months lie the months between.
pub month_index_mono : (m n : ℕ) → m ≤ n → month_index m ≤ month_index n
month_index_mono m n h =
    let low = month_index_holds m in
    let high = month_index_holds n in
    elim (dec_lt (month_index n) (month_index m)) [
      | yes less ↦
          absurd (
            omega
              (arith, month_start_mono (suc (month_index n)) (month_index m) (omega arith) less))
      | no more ↦ omega arith
    ]

-- Within a month the days of the month are in the order of the days.
pub day_of_month_same :
    (m n : ℕ) → month_index m ≡ month_index n → day_of_month m + n ≡ day_of_month n + m
unfolding day_of_month
day_of_month_same m n h =
    let low = month_index_holds m in
    let high = month_index_holds n in let same = ap month_start h in omega arith
