-- ===== src/Calendar.antt =====
-- The calendar of Go's package time, as far as the program uses it: dates at midnight UTC are
-- counted in days from 0001-01-01, which is Go's zero time and a Monday. `time.Date` normalises a
-- month past December into the next years and a day outside its month into its neighbours.
pub mod Months
pub mod Civil
pub mod Text
pub mod Zone
pub mod Kolkata
use sajni_api.Prelude.{
  ℕ, zero, suc, ◌+◌, ◌-◌, ◌*◌, ◌/◌, ◌%◌, min, Bool, not, ◌&&◌, ◌||◌, ◌==◌, leb, if◌then◌else◌,
}
use sajni_api.Prelude.Int.{ℤ, pos, sub_ℕ}

unfoldable pub is_leap : ℕ → Bool
is_leap y = y % 4 == 0 && (not (y % 100 == 0) || y % 400 == 0)

-- The length of month `m`, 1 to 12, of year `y`.
unfoldable pub month_length : ℕ → ℕ → ℕ
month_length y m =
    if m == 2
    then (if is_leap y then 29 else 28)
    else if m == 4 || m == 6 || m == 9 || m == 11
    then 30
    else 31

-- The days before January 1st of year `y`.
unfoldable pub days_before_year : ℕ → ℕ
days_before_year y = let p = y - 1 in p * 365 + p / 4 - p / 100 + p / 400

-- The days of year `y` before its month `m`, counting months from 0.
unfoldable pub days_before_month : ℕ → ℕ → ℕ
days_before_month y zero = 0
days_before_month y (suc m) = days_before_month y m + month_length y (m + 1)

-- A month is numbered through: month `m` of year `y` is `y * 12 + (m - 1)`.
unfoldable pub month_start : ℕ → ℕ
month_start k = days_before_year (k / 12) + days_before_month (k / 12) (k % 12)

-- The number of days of the month numbered `k`.
unfoldable pub month_days : ℕ → ℕ
month_days k = month_length (k / 12) (k % 12 + 1)

-- `time.Date(y, m, d, 0, 0, 0, 0, time.UTC)`: months and days past the end carry over.
unfoldable pub date : ℕ → ℕ → ℕ → ℕ
date y m d = month_start (y * 12 + m - 1) + d - 1

-- `t.Weekday()`: 0 is Sunday. Day 0 is a Monday.
unfoldable pub weekday : ℕ → ℕ
weekday n = (n + 1) % 7

-- `t.Year()` by the cycles of 400, 100 and 4 years.
unfoldable pub year : ℕ → ℕ
year n =
    let cycle = n % 146097 in
    let century = min (cycle / 36524) 3 in
    let in_century = cycle - century * 36524 in
    let in_four = in_century % 1461 in
    n / 146097 * 400 + century * 100 + in_century / 1461 * 4 + min (in_four / 365) 3 + 1

-- The last month of year `y`, up to month `m` from 0, that starts on or before day `d` of the year.
unfoldable pub find_month : ℕ → ℕ → ℕ → ℕ
find_month y zero d = 0
find_month y (suc m) d = if leb (days_before_month y (suc m)) d then suc m else find_month y m d

-- The month that holds day `n`, numbered through.
unfoldable pub month_index : ℕ → ℕ
month_index n = let y = year n in y * 12 + find_month y 11 (n - days_before_year y)

-- `int(t.Month())`
unfoldable pub month : ℕ → ℕ
month n = month_index n % 12 + 1

-- `t.Day()`
unfoldable pub day_of_month : ℕ → ℕ
day_of_month n = n - month_start (month_index n) + 1

-- `t.AddDate(0, 0, d)` and `t.AddDate(0, 0, -d)`: no date of the program lies before day 0.
abbrev pub add_days : ℕ → ℕ → ℕ
add_days n d = n + d

abbrev pub sub_days : ℕ → ℕ → ℕ
sub_days n d = n - d

-- `int(a.Sub(b).Hours() / 24)`: a Duration saturates at 2 ^ 63 - 1 nanoseconds, a part of a day
-- more than 106751 days, and the conversion drops that part.
abbrev pub longest_duration : ℕ
longest_duration = 106751

unfoldable pub days_between : ℕ → ℕ → ℤ
days_between a b =
    if leb b a then pos (min (a - b) longest_duration) else sub_ℕ 0 (min (b - a) longest_duration)
