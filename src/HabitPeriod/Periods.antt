-- ===== src/HabitPeriod/Periods.antt =====
-- The periods of a cadence tile the days: each date lies in its period, every date of a period has
-- that period, and `next` and `previous` step from one period to its neighbours.
use text.Mathlib.Text.{◌==◌ as str_eq}
use sajni_api.Prelude.{
  ℕ, suc, ◌+◌, ◌-◌, ◌*◌, ◌%◌, ◌≤◌, ◌<◌, ◌≡◌, ◌↔◌, ap, sym, ◌∙◌, String, refl, if◌then◌else◌, arith,
}
use sajni_api.Calendar.{
  date, weekday, year, month, month_start, month_index, days_between, days_before_year,
  days_before_month,
}
use sajni_api.Calendar.Months.{month_start-suc, month_days_bounds}
use sajni_api.Calendar.Civil.{month_index_holds, month_index-eq, month_index-fields}
use sajni_api.HabitPeriod.{
  Period, weekly, fortnightly, monthly, week_start, fortnight_start, fortnight_epoch, for_date,
  next, previous,
}

Period-eq : {p q : Period} → p.start ≡ q.start → p.end ≡ q.end → p ≡ q
Period-eq h k = λ i. record { start = h i; end = k i }

week_start-eq : (d : ℕ) → week_start d ≡ d - d % 7
unfolding week_start weekday
week_start-eq d = omega arith

fortnight_epoch-eq : fortnight_epoch ≡ 719173
unfolding fortnight_epoch date month_start days_before_year days_before_month
fortnight_epoch-eq = refl

-- The dates from 1677-10-11 to 2262-04-22: the Duration from the epoch to them, and to the Mondays
-- around them, does not saturate.
abbrev pub IsDate : ℕ → Type 0
IsDate d = (612430 ≤ d) × (d ≤ 825924)

-- Fortnights begin on every second Monday, counted from the epoch.
fortnight_start-eq :
    (m : ℕ) → m % 7 ≡ 0 → 612422 ≤ m → m ≤ 825924 → fortnight_start m ≡ m - (m + 7) % 14
unfolding fortnight_start days_between
fortnight_start-eq m h lo hi = rw fortnight_epoch-eq (ground arith)

pub month_start_of : (d : ℕ) → date (year d) (month d) 1 ≡ month_start (month_index d)
unfolding date
month_start_of d = rw month_index-fields (omega arith)

pub next_month_start : (d : ℕ) → date (year d) (month d + 1) 1 ≡ month_start (suc (month_index d))
unfolding date
next_month_start d =
    let holds = month_index_holds d in
    let fields = month_index-fields d in
    let same : year d * 12 + (month d + 1) - 1 ≡ suc (month_index d) = omega arith in
    rw same (omega arith)

pub previous_month_start : (d : ℕ) → date (year d) (month d - 1) 1 ≡ month_start (month_index d - 1)
unfolding date month
previous_month_start d =
    let fields = month_index-fields d in
    let same : year d * 12 + (month d - 1) - 1 ≡ month_index d - 1 = unfold month in omega arith in
    rw same (omega arith)

-- The period of `d` under each cadence, by the arithmetic of days.
abbrev pub start_spec : ℕ → String → ℕ
start_spec d frequency =
    if str_eq frequency weekly
    then d - d % 7
    else if str_eq frequency fortnightly
    then d - (d + 7) % 14
    else if str_eq frequency monthly
    then month_start (month_index d)
    else d

abbrev pub next_spec : ℕ → String → ℕ
next_spec d frequency =
    if str_eq frequency weekly
    then d - d % 7 + 7
    else if str_eq frequency fortnightly
    then d - (d + 7) % 14 + 14
    else if str_eq frequency monthly
    then month_start (suc (month_index d))
    else d + 1

month_index-start : (k : ℕ) → 12 ≤ k → month_index (month_start k) ≡ k
month_index-start k h =
    let ends = month_start-suc k h in
    let days = month_days_bounds k in month_index-eq k (month_start k) h (omega arith) (omega arith)

pub next_month-start :
    (k : ℕ)
    → 12 ≤ k
    → date (year (month_start k)) (month (month_start k) + 1) 1 ≡ month_start (suc k)
next_month-start k h =
    next_month_start (month_start k) ∙ ap (λ i. month_start (suc i)) (month_index-start k h)

-- What `for_date` computes.
pub for_date-start :
    (d : ℕ) (frequency : String) → IsDate d → (for_date d frequency).start ≡ start_spec d frequency
unfolding for_date
for_date-start d frequency h =
    ground (arith, week_start-eq d, fortnight_start-eq (d - d % 7), month_start_of d)

for_date-end :
    (d : ℕ) (frequency : String) → IsDate d → (for_date d frequency).end + 1 ≡ next_spec d frequency
unfolding for_date
for_date-end d frequency h =
    let holds = month_index_holds d in
    let next_month : date (year (date (year d) (month d) 1)) (month (date (year d) (month d) 1) + 1)
          1
        ≡ month_start (suc (month_index d)) =
      rw month_start_of (next_month-start (month_index d) holds.0) in
    ground (arith, week_start-eq d, fortnight_start-eq (d - d % 7), holds)

pub next-start :
    (d : ℕ) (frequency : String)
    → IsDate d
    → next (start_spec d frequency) frequency ≡ next_spec d frequency
unfolding next
next-start d frequency h = ground (arith, next_month-start (month_index d) (month_index_holds d).0)

pub spec_holds :
    (d : ℕ) (frequency : String)
    → IsDate d
    → (start_spec d frequency ≤ d) × (d < next_spec d frequency)
spec_holds d frequency h = ground (arith, month_index_holds d)

pub spec_unique :
    (d e : ℕ) (frequency : String)
    → IsDate d
    → start_spec d frequency ≤ e
    → e < next_spec d frequency
    → (start_spec e frequency ≡ start_spec d frequency)
      × (next_spec e frequency ≡ next_spec d frequency)
spec_unique d e frequency h lo hi =
    ground (arith, month_index-eq (month_index d) e (month_index_holds d).0)

-- The first day of the next period opens a period of its own.
pub spec_next :
    (d : ℕ) (frequency : String)
    → IsDate d
    → start_spec (next_spec d frequency) frequency ≡ next_spec d frequency
spec_next d frequency h =
    ground (arith, month_index-start (suc (month_index d)) (omega (arith, month_index_holds d)))

previous-spec :
    (d : ℕ) (frequency : String)
    → IsDate d
    → previous (next_spec d frequency) frequency ≡ start_spec d frequency
unfolding previous
previous-spec d frequency h =
    let k = month_index d in
    let holds = month_index_holds d in
    let back : date (year (month_start (suc k))) (month (month_start (suc k)) - 1) 1
        ≡ month_start k =
      previous_month_start (month_start (suc k))
      ∙ ap (λ i. month_start (i - 1)) (month_index-start (suc k) (omega arith))
      ∙ ap month_start (omega arith) in
    ground arith

-- For two dates from 1677-10-11 to 2262-04-22: the first lies in the period that `ForDate` gives it, and
-- the second is in that period exactly when `ForDate` gives it the same period.
pub for_date_tiles :
    (d e : ℕ) (frequency : String)
    → IsDate d
    → IsDate e
    → ((for_date d frequency).start ≤ d)
      × (d ≤ (for_date d frequency).end)
      × (((for_date d frequency).start ≤ e) × (e ≤ (for_date d frequency).end)
          ↔ (for_date e frequency ≡ for_date d frequency))
for_date_tiles d e frequency h he =
    let start_is = for_date-start d frequency h in
    let end_is = for_date-end d frequency h in
    let holds = spec_holds d frequency h in
    let e_start = for_date-start e frequency he in
    let e_end = for_date-end e frequency he in
    (
      omega arith,
      omega arith,
      (
        λ within.
            let same = spec_unique d e frequency h (omega arith) (omega arith) in
            Period-eq (e_start ∙ same.0 ∙ sym start_is) (omega arith),
        λ same.
            let e_holds = spec_holds e frequency he in
            let starts : (for_date e frequency).start ≡ (for_date d frequency).start =
              ap (λ (p : Period). p.start) same in
            let ends : (for_date e frequency).end ≡ (for_date d frequency).end =
              ap (λ (p : Period). p.end) same in
            (omega arith, omega arith),
      ),
    )

pub next-for_date :
    (d : ℕ) (frequency : String)
    → IsDate d
    → next (for_date d frequency).start frequency ≡ next_spec d frequency
next-for_date d frequency h =
    ap (λ s. next s frequency) (for_date-start d frequency h) ∙ next-start d frequency h

-- `Next` of a period's start is the day after its end and opens a period itself, and `Previous` of
-- that day is the start again. The date is from 1677-10-11 to 2262-04-22, and so is the day that `Next`
-- gives.
pub next_neighbours :
    (d : ℕ) (frequency : String)
    → IsDate d
    → IsDate (next (for_date d frequency).start frequency)
    → (next (for_date d frequency).start frequency ≡ (for_date d frequency).end + 1)
      × ((for_date (next (for_date d frequency).start frequency) frequency).start
          ≡ next (for_date d frequency).start frequency)
      × (previous (next (for_date d frequency).start frequency) frequency
          ≡ (for_date d frequency).start)
next_neighbours d frequency h later =
    let next_is = next-for_date d frequency h in
    (
      next_is ∙ sym (for_date-end d frequency h),
      for_date-start (next (for_date d frequency).start frequency) frequency later
          ∙ ap (λ s. start_spec s frequency) next_is
          ∙ spec_next d frequency h
          ∙ sym next_is,
      ap (λ s. previous s frequency) next_is
          ∙ previous-spec d frequency h
          ∙ sym (for_date-start d frequency h),
    )
