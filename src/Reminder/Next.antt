-- ===== src/Reminder/Next.antt =====
-- `Next` and its helpers, in a time zone. A zero `time.Time` is instant 0. A weekly rule with
-- interval 0, which `Normalize` never returns, divides by zero: `none` stands for that panic.
pub mod Fields
pub mod Weekly
pub mod ActiveDay
pub mod Monthly
pub mod Occurrence
use text.Mathlib.Text.{◌==◌ as str_eq}
use sajni_api.Prelude.{
  ℕ, zero, suc, ◌+◌, ◌-◌, ◌*◌, ◌/◌, ◌%◌, ◌==◌, Bool, true, false, not, ◌&&◌, ◌||◌, Option, none,
  some, List, [], ◌∷◌, String, ltb, leb, if◌then◌else◌,
}
use sajni_api.Prelude.Int.{
  ℤ, pos, negsuc, ltb_ℤ, eqb_ℤ, quot, rem, pos_part, neg_part, ◌+ℤ◌, ◌-ℤ◌, ◌*ℤ◌,
}
use sajni_api.Calendar.{year, month, date, day_of_month, weekday, days_between}
use sajni_api.Calendar.Text.{Text, format_date, text_ltb}
use sajni_api.Calendar.Zone.{Zone, utc, local_day, clock, at}
use sajni_api.Reminder.Rule.{Rule, recurring, days_in_month, contains_int}

-- `time.Date` with a day that may be zero or negative, and `AddDate` by days.
abbrev pub date_ℤ : ℕ → ℕ → ℤ → ℕ
date_ℤ y m d = date y m 1 + pos_part d - (neg_part d + 1)

unfoldable pub add_date : Zone → ℕ → ℤ → ℕ
add_date zone t n = at zone (local_day zone t + pos_part n - neg_part n) (clock zone t)

-- `mondayDate`: midnight of the Monday of the week.
unfoldable pub monday_date : Zone → ℕ → ℕ
monday_date zone t =
    let delta = (weekday (local_day zone t) + 6) % 7 in
    at zone (local_day zone (add_date zone t (pos 0 -ℤ pos delta))) 0

-- `localDateTime`, with the time of day of `clock_of`.
unfoldable pub local_date_time : Zone → ℕ → ℕ → ℤ → ℕ → ℕ
local_date_time zone y m d clock_of =
    let last = pos (days_in_month y m) in
    at zone (date_ℤ y m (if ltb_ℤ last d then last else d)) (clock zone clock_of)

-- The candidate of `nextWeekly` some days on.
unfoldable pub weekly_candidate : Zone → ℕ → ℕ → ℕ → ℕ
weekly_candidate zone start current days =
    let d = local_day zone (add_date zone current (pos days)) in
    local_date_time zone (year d) (month d) (pos (day_of_month d)) start

-- Whole weeks from the week of the start to that of the candidate.
unfoldable pub week_delta : Zone → ℕ → ℕ → ℤ
week_delta zone start candidate =
    quot
      (days_between (local_day zone (monday_date zone candidate))
        (local_day zone (monday_date zone start)))
      7

-- The test of `nextWeekly`; `none` is a division by zero.
unfoldable pub weekly_matches : Zone → ℕ → Rule → ℕ → Option Bool
weekly_matches zone start rule candidate =
    let delta = week_delta zone start candidate in
    let interval = pos_part rule.interval + neg_part rule.interval in
    if ltb_ℤ delta (pos 0)
    then some false
    else if interval == 0
    then none
    else some (
        eqb_ℤ (rem delta interval) (pos 0)
        && contains_int rule.weekdays (pos (weekday (local_day zone candidate))))

-- The loop of `nextWeekly` from `days` on, with the rounds that are left.
unfoldable pub weekly_loop : Zone → ℕ → ℕ → Rule → ℕ → ℕ → Option ℕ
weekly_loop zone start current rule zero days = some 0
weekly_loop zone start current rule (suc left) days =
    let rest = weekly_loop zone start current rule left (days + 1) in
    let candidate = weekly_candidate zone start current days in
    elim (weekly_matches zone start rule candidate) [
      | none ↦ none
      | some true ↦ some candidate
      | some false ↦ rest
    ]

unfoldable pub next_weekly : Zone → ℕ → ℕ → Rule → Option ℕ
next_weekly zone start current rule = weekly_loop zone start current rule 3660 1

-- The loop of `nthWeekday` back from the last day of the month.
unfoldable pub last_weekday : Zone → ℕ → ℕ → ℤ → ℕ → ℕ → ℕ → Option ℕ
last_weekday zone y m wanted clock_of zero d = none
last_weekday zone y m wanted clock_of (suc left) d =
    let candidate = local_date_time zone y m (pos d) clock_of in
    if eqb_ℤ (pos (weekday (local_day zone candidate))) wanted
    then some candidate
    else last_weekday zone y m wanted clock_of left (d - 1)

-- The rest of `nthWeekday`, counted from the first day of the month.
unfoldable pub counted_weekday : Zone → ℕ → ℕ → ℤ → ℤ → ℕ → Option ℕ
counted_weekday zone y m wanted ordinal clock_of =
    let first = local_date_time zone y m (pos 1) clock_of in
    let ahead = rem (wanted -ℤ pos (weekday (local_day zone first)) +ℤ pos 7) 7 in
    let d = pos 1 +ℤ ahead +ℤ (ordinal -ℤ pos 1) *ℤ pos 7 in
    if ltb_ℤ (pos (days_in_month y m)) d then none else some (local_date_time zone y m d clock_of)

unfoldable pub nth_weekday : Zone → ℕ → ℕ → ℤ → ℤ → ℕ → Option ℕ
nth_weekday zone y m wanted ordinal clock_of =
    if eqb_ℤ ordinal (negsuc 0)
    then (elim (last_weekday zone y m wanted clock_of 7 (days_in_month y m)) [
      | some candidate ↦ some candidate
      | none ↦ counted_weekday zone y m wanted ordinal clock_of
    ])
    else counted_weekday zone y m wanted ordinal clock_of

-- The month `attempts` intervals on, numbered through.
unfoldable pub later_month : Zone → ℕ → Rule → ℕ → ℕ
later_month zone current rule attempts =
    let d = local_day zone current in
    year d * 12
    + month d
    - 1
    + attempts * pos_part rule.interval
    - attempts * neg_part rule.interval

-- The loop of `nextMonthly`, with the attempts that are left.
unfoldable pub monthly_loop : Zone → ℕ → Rule → ℕ → ℕ → ℕ
monthly_loop zone current rule zero attempts = 0
monthly_loop zone current rule (suc left) attempts =
    let rest = monthly_loop zone current rule left (attempts + 1) in
    let index = later_month zone current rule attempts in
    let y = index / 12 in
    let m = index % 12 + 1 in
    if str_eq rule.monthly_mode "weekday"
    then (elim (nth_weekday zone y m rule.weekday rule.ordinal current) [
      | some candidate ↦ candidate
      | none ↦ rest
    ])
    else local_date_time zone y m rule.month_day current

unfoldable pub next_monthly : Zone → ℕ → Rule → ℕ
next_monthly zone current rule = monthly_loop zone current rule 1200 1

-- The switch of `Next` on the frequency: `none` is the panic, instant 0 the zero time. The default
-- case, which returns false, is the zero time too.
unfoldable pub candidate_after : Zone → ℕ → ℕ → Rule → Option ℕ
candidate_after zone start current rule =
    if str_eq rule.frequency "daily"
    then some (add_date zone current rule.interval)
    else if str_eq rule.frequency "weekly"
    then next_weekly zone start current rule
    else if str_eq rule.frequency "monthly"
    then some (next_monthly zone current rule)
    else if str_eq rule.frequency "yearly"
    then (let y = year (local_day zone current) + pos_part rule.interval - neg_part rule.interval in
        let s = local_day zone start in
        some (local_date_time zone y (month s) (pos (day_of_month s)) start))
    else some 0

-- What `Next` does: an occurrence, the end of the series, or the panic.
pub data Outcome : Type 0 where
  occurs : ℕ → Outcome
  ended panics : Outcome

abbrev pub is_empty : Text → Bool
is_empty [] = true
is_empty (c ∷ text) = false

-- The two tests after the switch.
unfoldable pub within_until : Zone → Rule → Option ℕ → Outcome
within_until zone rule none = panics
within_until zone rule (some next) =
    if next == 0
    then ended
    else if not (is_empty rule.until) && text_ltb rule.until (format_date (local_day zone next))
    then ended
    else occurs next

-- `Next`; a nil location means UTC.
unfoldable pub next : ℕ → ℕ → ℕ → Rule → Option Zone → Outcome
next start current sequence rule loc =
    let zone : Zone = elim loc [ none ↦ utc | some z ↦ z ] in
    if not (recurring rule) || (ltb_ℤ (pos 0) rule.count && not (ltb_ℤ (pos sequence) rule.count))
    then ended
    else within_until zone rule (candidate_after zone start current rule)
