-- ===== src/HabitPeriod/Current.antt =====
-- What `Streaks` returns: it always ends, the current streak is the number of completed periods back
-- from the cursor, and the longest streak is no shorter.
use native.Mathlib.Decide.{dec_lt, ℕ_discrete}
use native.Mathlib.Nat.{zero-add}
use sajni_api.Prelude.{
  ℕ, zero, suc, ◌+◌, ◌-◌, ◌≤◌, ◌<◌, true, false, List, [], ◌∷◌, String, ◌≡◌, Option, none, some,
  contains, All, arith, Bool-cases, inl, inr, refl, subst, sym, ap, ◌∙◌,
}
use sajni_api.Calendar.{
  month_index, month_start, month, year, date, days_before_year, days_before_month, month_length,
  is_leap,
}
use sajni_api.Calendar.Civil.{month_index_holds}
use sajni_api.Calendar.Months.{month_start-suc, month_start_mono, month_days_bounds}
use sajni_api.Calendar.Text.{Text, parse_date}
use sajni_api.HabitPeriod.{for_date, next, previous}
use sajni_api.HabitPeriod.Periods.{
  IsDate, start_spec, spec_unique, for_date-start, spec_holds, previous_month_start,
  next_month-start,
}
use sajni_api.HabitPeriod.Count.{start_spec-near}
use sajni_api.HabitPeriod.Streaks.{
  add_log, completed_from, completed_periods, count_back, sort, longest_run, streak_cursor,
  streaks_of, streaks,
}
use sajni_api.HabitPeriod.Runs.{
  Distinct, IsStart, Chain, Chain-le, All-sort, sort-IsSorted, contains-sort,
}

-- The k-th period before the one that starts at `start`.
abbrev pub nth_back : ℕ → ℕ → String → ℕ
nth_back zero start frequency = start
nth_back (suc k) start frequency = nth_back k (previous start frequency) frequency

late_month : (s : ℕ) → IsDate s → 13 ≤ month_index s
late_month s h =
    let holds = month_index_holds s in
    elim (dec_lt (month_index s) 13) [
      | yes early ↦
          let mono = month_start_mono (suc (month_index s)) 13 (omega arith) (omega arith) in
          let small : month_start 13 ≡ 31 =
            unfold month_start days_before_year days_before_month month_length is_leap in refl in
          absurd (omega arith)
      | no late ↦ omega arith
    ]

previous-lt : (s : ℕ) (frequency : String) → IsDate s → previous s frequency < s
unfolding previous
previous-lt s frequency h =
    let k = month_index s in
    let late = late_month s h in
    let holds = month_index_holds s in
    let step = month_start-suc (k - 1) (omega arith) in
    let same : suc (k - 1) ≡ k = omega arith in
    let days = month_days_bounds (k - 1) in
    let starts = ap month_start same in ground (arith, previous_month_start s)

-- `Next` undoes `Previous` at a period's start.
next-previous :
    (s : ℕ) (frequency : String) → IsStart frequency s → next (previous s frequency) frequency ≡ s
unfolding next previous
next-previous s frequency h =
    let k = month_index s in
    let late = late_month s h.0 in
    let same : suc (k - 1) ≡ k = omega arith in
    let starts = ap month_start same in
    let month_back : date (year (date (year s) (month s - 1) 1))
          (month (date (year s) (month s - 1) 1) + 1) 1
        ≡ month_start (suc (k - 1)) =
      rw previous_month_start (next_month-start (k - 1) (omega arith)) in
    ground arith

add_log-Distinct :
    (o : Option ℕ) (frequency : String) (out : List ℕ)
    → Distinct out
    → Distinct (add_log o frequency out)
unfolding add_log
add_log-Distinct none frequency out h = h
add_log-Distinct (some d) frequency out h = ground arith

for_date-IsStart :
    (d : ℕ) (frequency : String)
    → 612500 ≤ d
    → d ≤ 825924
    → IsStart frequency (for_date d frequency).start
for_date-IsStart d frequency lo hi =
    let start_is = for_date-start d frequency (omega arith) in
    let near = start_spec-near d frequency in
    let holds = spec_holds d frequency (omega arith) in
    (
      omega arith,
      ap (λ s. start_spec s frequency) start_is
          ∙ (spec_unique d (start_spec d frequency) frequency (omega arith) (omega arith)
              (omega arith)).0
          ∙ sym start_is,
    )

completed_from-Distinct :
    (log_dates : List Text) (frequency : String) (out : List ℕ)
    → Distinct out
    → Distinct (completed_from log_dates frequency out)
unfolding completed_from add_log
completed_from-Distinct [] frequency out h = h
completed_from-Distinct (v ∷ vs) frequency out h =
    completed_from-Distinct vs frequency (add_log (parse_date v) frequency out)
      (add_log-Distinct (parse_date v) frequency out h)

-- A log's text is no date, or one from 1677-12-20 to 2262-04-22.
abbrev pub IsLogged : Option ℕ → Type 0
IsLogged none = Unit
IsLogged (some d) = (612500 ≤ d) × (d ≤ 825924)

abbrev pub IsLog : Text → Type 0
IsLog value = IsLogged (parse_date value)

add_log-IsStart :
    (o : Option ℕ) (frequency : String) (out : List ℕ)
    → IsLogged o
    → All (IsStart frequency) out
    → All (IsStart frequency) (add_log o frequency out)
unfolding add_log
add_log-IsStart none frequency out h all = all
add_log-IsStart (some d) frequency out h all = ground (arith, for_date-IsStart d frequency h.0 h.1)

completed_from-IsStart :
    (log_dates : List Text) (frequency : String) (out : List ℕ)
    → All IsLog log_dates
    → All (IsStart frequency) out
    → All (IsStart frequency) (completed_from log_dates frequency out)
unfolding completed_from
completed_from-IsStart [] frequency out logs all = all
completed_from-IsStart (v ∷ vs) frequency out logs all =
    completed_from-IsStart vs frequency (add_log (parse_date v) frequency out) logs.1
      (add_log-IsStart (parse_date v) frequency out logs.0 all)

-- The `c` periods back from `cursor` are all completed, and the one before them is not.
abbrev pub Back : List ℕ → String → ℕ → ℕ → Type 0
Back completed frequency zero cursor = contains completed cursor ≡ false
Back completed frequency (suc c) cursor =
    (contains completed cursor ≡ true) × Back completed frequency c (previous cursor frequency)

contains-All : (P : ℕ → Type 0) (xs : List ℕ) (a : ℕ) → All P xs → contains xs a ≡ true → P a
contains-All P [] a all h = cc
contains-All P (x ∷ xs) a all h = elim (ℕ_discrete x a) [
  | yes here ↦ subst P here all.0
  | no later ↦ contains-All P xs a all.1 (ground arith)
]

count_back-Back :
    (fuel cursor current : ℕ) (completed : List ℕ) (frequency : String)
    → All (IsStart frequency) completed
    → cursor < fuel
    → (c : ℕ) × (count_back fuel completed cursor frequency current ≡ some (current + c))
      × Back completed frequency c cursor
unfolding count_back
count_back-Back zero cursor current completed frequency all h = elim h [ ]
count_back-Back (suc fuel) cursor current completed frequency all h =
    elim (Bool-cases (contains completed cursor)) [
      | inl more ↦
          let start = contains-All (IsStart frequency) completed cursor all more in
          let lower = previous-lt cursor frequency start.0 in
          let (c, result, back) =
            count_back-Back fuel (previous cursor frequency) (current + 1) completed frequency all
              (omega arith) in
          (suc c, rw more (result ∙ ap some (omega arith)), (more, back))
      | inr done ↦ (0, rw done (ap some (omega arith)), done)
    ]

-- Periods counted back are a chain counted forward.
Back-Chain :
    (c m x k : ℕ) (completed : List ℕ) (frequency : String)
    → k ≡ suc c + m
    → All (IsStart frequency) completed
    → Back completed frequency (suc c) x
    → Chain frequency m (next x frequency) completed
    → (a : ℕ) × Chain frequency k a completed
Back-Chain zero m x k completed frequency e all back chain =
    let same : k ≡ suc m = omega arith in
    (x, subst (λ n. Chain frequency n x completed) (sym same) (back.0, chain))
Back-Chain (suc c) m x k completed frequency e all back chain =
    let undone =
      next-previous x frequency (contains-All (IsStart frequency) completed x all back.0) in
    Back-Chain c (suc m) (previous x frequency) k completed frequency (omega arith) all back.1
      (subst (λ s. Chain frequency (suc m) s completed) (sym undone) (back.0, chain))

Chain-sort :
    (frequency : String) (k a : ℕ) (xs : List ℕ)
    → Chain frequency k a xs
    → Chain frequency k a (sort xs)
Chain-sort frequency zero a xs c = tt
Chain-sort frequency (suc k) a xs c =
    (contains-sort a xs ∙ c.0, Chain-sort frequency k (next a frequency) xs c.1)

Back-longest :
    (c x : ℕ) (completed : List ℕ) (frequency : String)
    → Distinct completed
    → All (IsStart frequency) completed
    → Back completed frequency c x
    → c ≤ longest_run frequency (sort completed) 0 0 0
Back-longest zero x completed frequency distinct all back = omega arith
Back-longest (suc c) x completed frequency distinct all back =
    let (a, chain) = Back-Chain c 0 x (suc c) completed frequency (omega arith) all back tt in
    Chain-le frequency (sort completed) 0 0 0 a c (All-sort (IsStart frequency) completed all)
      (sort-IsSorted completed distinct) (Chain-sort frequency (suc c) a completed chain)

-- What is promised of the two streaks, with no completed period or with some.
Kept : List ℕ → String → ℕ → Option (ℕ × ℕ) → Type 0
Kept completed frequency cursor result =
    (current : ℕ) × (longest : ℕ) × (result ≡ some (current, longest))
    × (current ≤ longest)
    × Back completed frequency current cursor

streaks_of-Kept :
    (completed : List ℕ) (frequency : String) (today : ℕ)
    → Distinct completed
    → All (IsStart frequency) completed
    → Kept completed frequency
        (streak_cursor completed frequency today)
        (streaks_of completed frequency today)
unfolding streaks_of Kept
streaks_of-Kept [] frequency today distinct all = (0, 0, refl, omega arith, refl)
streaks_of-Kept (x ∷ xs) frequency today distinct all =
    let completed = x ∷ xs in
    let cursor = streak_cursor completed frequency today in
    let (c, result, back) =
      count_back-Back (cursor + 1) cursor 0 completed frequency all (omega arith) in
    (
      c,
      longest_run frequency (sort completed) 0 0 0,
      rw result (rw zero-add),
      Back-longest c cursor completed frequency distinct all back,
      back,
    )

-- For logs whose texts are dates from 1677-12-20 to 2262-04-22, or no dates, and for any day that is
-- today, `Streaks` ends. The current streak is the number of
-- completed periods in a row back from where the count begins, and is no longer than the longest one.
pub streaks_kept :
    (log_dates : List Text) (frequency : String) (today : ℕ)
    → All IsLog log_dates
    → (current longest : ℕ) × (streaks log_dates frequency today ≡ some (current, longest))
      × (current ≤ longest)
      × Back
          (completed_periods log_dates frequency)
          frequency
          current
          (streak_cursor (completed_periods log_dates frequency) frequency today)
unfolding streaks completed_periods Kept
streaks_kept log_dates frequency today logs =
    streaks_of-Kept (completed_periods log_dates frequency) frequency today
      (completed_from-Distinct log_dates frequency [] tt)
      (completed_from-IsStart log_dates frequency [] logs tt)
