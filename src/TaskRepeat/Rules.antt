-- ===== src/TaskRepeat/Rules.antt =====
-- `Scope`, `Normalize`, `interval` and `Next`. The dates are days at midnight UTC, so the reminders'
-- `Next` is asked in UTC.
use text.Mathlib.Text.{◌==◌ as str_eq}
use sajni_api.Prelude.{
  ℕ, zero, suc, ◌+◌, ◌*◌, true, false, not, Option, none, some, [], ◌∷◌, ltb, if◌then◌else◌, Result,
  ok, err,
}
use sajni_api.Prelude.Int.{ℤ, pos, pos_part, ltb_ℤ, eqb_ℤ}
use sajni_api.Calendar.{date, year, month as month_of}
use sajni_api.Calendar.Text.{Text, parse_date}
use sajni_api.Calendar.Zone.{utc, local_day, at}
use sajni_api.Reminder.Rule.{Rule, no_rule, recurring, out_of_range}
use sajni_api.Reminder.Rule as reminder_rule
use sajni_api.Reminder.Next as reminder_next
use sajni_api.Reminder.Next.{Outcome, occurs, ended, panics}

-- `kind` of `anchor`: where a task sits.
pub data Kind : Type 0 where
  day week month : Kind

pub record Scope : Type 0 where
  pub due : Text
  pub week : Text
  pub month : Text

-- `value[:min(len(value), 10)]`
abbrev pub take : ℕ → Text → Text
take zero text = []
take (suc n) [] = []
take (suc n) (c ∷ text) = c ∷ take n text

-- One round of the loop of `anchor`, and what the rounds after it found.
unfoldable pub anchor_at : Kind → Text → Option (Kind × ℕ) → Option (Kind × ℕ)
anchor_at kind [] later = later
anchor_at kind (c ∷ text) later = elim (parse_date (take 10 (c ∷ text))) [
  | none ↦ later
  | some d ↦ some (kind, d)
]

unfoldable pub anchor : Scope → Option (Kind × ℕ)
anchor s = anchor_at day s.due (anchor_at week s.week (anchor_at month s.month none))

-- What an operation fails with; `panicked` is a division by zero in the reminders' `Next`.
pub data Error : Type 0 where
  undated week_not_weekly month_not_monthly bad_interval not_found not_repeating panicked : Error
  reminder_error : reminder_rule.Error → Error

unfoldable pub interval : Rule → Result Error Rule
interval r =
    let n : ℤ = if eqb_ℤ r.interval (pos 0) then pos 1 else r.interval in
    if out_of_range n 1 999 then err bad_interval else ok (record r { interval = n })

-- An error of the reminders' `Normalize` is passed on as an invalid repeat.
abbrev pub as_invalid : Result reminder_rule.Error Rule → Result Error Rule
as_invalid (ok r) = ok r
as_invalid (err e) = err (reminder_error e)

-- The switch of `Normalize` on the kind; `rule` has no until and no count.
unfoldable pub normalize_kind : Kind → ℕ → Rule → Result Error Rule
normalize_kind week start rule =
    if not (str_eq rule.frequency "weekly")
    then err week_not_weekly
    else interval (record no_rule { frequency = "weekly"; interval = rule.interval })
normalize_kind month start rule =
    if not (str_eq rule.frequency "monthly")
    then err month_not_monthly
    else interval (record no_rule { frequency = "monthly"; interval = rule.interval })
normalize_kind day start rule = as_invalid (reminder_rule.normalize rule start)

-- The part of `Normalize` past the anchor.
unfoldable pub normalize_at : Option (Kind × ℕ) → Rule → Result Error Rule
normalize_at none rule = err undated
normalize_at (some (kind, start)) rule =
    normalize_kind kind start (record rule { until = []; count = pos 0 })

unfoldable pub normalize : Rule → Scope → Result Error Rule
normalize rule scope = if not (recurring rule) then ok no_rule else normalize_at (anchor scope) rule

-- `step`: an interval below 1 counts as 1.
unfoldable pub step : Rule → ℕ
step rule = if ltb_ℤ rule.interval (pos 1) then 1 else pos_part rule.interval

-- What the body of the loop of `Next` does to `cur`, an instant: `ended` is its return with false.
unfoldable pub advance_date : Rule → Kind → ℕ → ℕ → Outcome
advance_date rule week from cur = occurs (reminder_next.add_date utc cur (pos (7 * step rule)))
advance_date rule month from cur =
    let d = local_day utc cur in occurs (at utc (date (year d) (month_of d + step rule) 1) 0)
advance_date rule day from cur = reminder_next.next from cur 1 rule (some utc)

-- The loop of `Next`, with the rounds that are left.
unfoldable pub next_loop : Rule → Kind → ℕ → ℕ → ℕ → ℕ → Outcome
next_loop rule kind from not_before zero cur = ended
next_loop rule kind from not_before (suc left) cur = elim (advance_date rule kind from cur) [
  | ended ↦ ended
  | panics ↦ panics
  | occurs t ↦ elim (ltb t not_before) [
    | true ↦ next_loop rule kind from not_before left t
    | false ↦ occurs t
  ]
]

-- `Next`
unfoldable pub next : Rule → Kind → ℕ → ℕ → Outcome
next rule kind from not_before =
    if not (recurring rule) then ended else next_loop rule kind from not_before 10000 from
