-- ===== src/HabitPeriod/Streaks.antt =====
-- `CompletedPeriods` and `Streaks`. The map of completed periods is a list of the periods' starts
-- with none twice: its keys are the starts as text, which `ParseDate` reads back
-- (Calendar/Text.antt), and the order in which a map is walked is lost when `starts` is sorted.
use mathlib.Core.Option
use sajni_api.Prelude.{
  ℕ, zero, suc, ◌+◌, ◌==◌, ◌||◌, Option, none, some, List, [], ◌∷◌, String, ltb, leb, if◌then◌else◌,
  contains,
}
use sajni_api.Calendar.Text.{Text, parse_date}
use sajni_api.HabitPeriod.{for_date, next, previous}

-- `out[start] = struct{}{}`
abbrev pub insert : ℕ → List ℕ → List ℕ
insert start out = if contains out start then out else start ∷ out

-- One round of the loop of `CompletedPeriods`: a text that is no date is passed over.
unfoldable pub add_log : Option ℕ → String → List ℕ → List ℕ
add_log none frequency out = out
add_log (some d) frequency out = insert (for_date d frequency).start out

unfoldable pub completed_from : List Text → String → List ℕ → List ℕ
completed_from [] frequency out = out
completed_from (value ∷ log_dates) frequency out =
    completed_from log_dates frequency (add_log (parse_date value) frequency out)

unfoldable pub completed_periods : List Text → String → List ℕ
completed_periods log_dates frequency = completed_from log_dates frequency []

-- The loop that counts back from `cursor`; `none` means that the fuel ran out.
unfoldable pub count_back : ℕ → List ℕ → ℕ → String → ℕ → Option ℕ
count_back zero completed cursor frequency current = none
count_back (suc fuel) completed cursor frequency current =
    let rest = count_back fuel completed (previous cursor frequency) frequency (current + 1) in
    if contains completed cursor then rest else some current

-- `sort.Slice(starts, …Before…)`
unfoldable pub insert_sorted : ℕ → List ℕ → List ℕ
insert_sorted a [] = a ∷ []
insert_sorted a (x ∷ xs) = if leb a x then a ∷ x ∷ xs else x ∷ insert_sorted a xs

unfoldable pub sort : List ℕ → List ℕ
sort [] = []
sort (x ∷ xs) = insert_sorted x (sort xs)

-- The next value of `run` at `start`: day 0 is the zero time.
unfoldable pub next_run : String → ℕ → ℕ → ℕ → ℕ
next_run frequency run previous_start start =
    if previous_start == 0 || next previous_start frequency == start then run + 1 else 1

-- The loop over the sorted starts, with `run`, `previous` and `longest`.
unfoldable pub longest_run : String → List ℕ → ℕ → ℕ → ℕ → ℕ
longest_run frequency [] run previous_start longest = longest
longest_run frequency (start ∷ starts) run previous_start longest =
    let run' = next_run frequency run previous_start start in
    longest_run frequency starts run' start (if ltb longest run' then run' else longest)

-- Where the count of the current streak begins: an open period does not end it.
unfoldable pub streak_cursor : List ℕ → String → ℕ → ℕ
streak_cursor completed frequency today =
    let cursor = (for_date today frequency).start in
    if contains completed cursor then cursor else previous cursor frequency

-- `current` and `longest`, from the completed periods.
unfoldable pub streaks_of : List ℕ → String → ℕ → Option (ℕ × ℕ)
streaks_of [] frequency today = some (0, 0)
streaks_of (x ∷ xs) frequency today =
    let completed = x ∷ xs in
    let cursor = streak_cursor completed frequency today in
    Option.map (λ current. (current, longest_run frequency (sort completed) 0 0 0))
      (count_back (cursor + 1) completed cursor frequency 0)

unfoldable pub streaks : List Text → String → ℕ → Option (ℕ × ℕ)
streaks log_dates frequency today =
    streaks_of (completed_periods log_dates frequency) frequency today
