-- ===== src/Lends/Due.antt =====
-- `CardCycleDue` and `lendDue`. The dates of `CardCycleDue` are midnights in UTC, here day numbers.
pub mod Cycle
use text.Mathlib.Text.{◌==◌ as str_eq}
use sajni_api.Prelude.{
  ℕ, ◌+◌, ◌-◌, ◌==◌, min, max, [], ◌∷◌, Bool, ◌&&◌, Option, none, some, String, ltb, leb,
  if◌then◌else◌,
}
use sajni_api.Prelude.Int.{ℤ, pos, pos_part}
use sajni_api.Calendar.{date, year, month, day_of_month}
use sajni_api.Calendar.Text.{Text, format_date}
use sajni_api.Calendar.Zone.{Zone, local_day}
use sajni_api.Lends.Ledger.{Account}

-- `min(max(statementDay, 1), 28)`: a day below 1, as one below 0, counts as 1.
unfoldable pub clamp_day : ℤ → ℕ
clamp_day statement_day = min (max (pos_part statement_day) 1) 28

-- The statement that carries the charge.
unfoldable pub statement_on : ℕ → ℕ → ℕ
statement_on charged sd =
    if ltb sd (day_of_month charged)
    then date (year charged) (month charged + 1) sd
    else date (year charged) (month charged) sd

-- The due day: by default 15 days after the statement day.
unfoldable pub cycle_day : ℕ → ℤ → ℕ
cycle_day sd due_day = if pos_part due_day == 0 then sd + 15 else pos_part due_day

unfoldable pub card_cycle_due : ℕ → ℤ → ℤ → ℕ
card_cycle_due charged statement_day due_day =
    let sd = clamp_day statement_day in
    let statement = statement_on charged sd in
    let dd = cycle_day sd due_day in
    let ahead : ℕ = if leb dd sd then 1 else 0 in
    date (year statement) (month statement + ahead) 1 + (min dd 28 - 1)

abbrev or_zero : Option ℤ → ℤ
or_zero none = pos 0
or_zero (some n) = n

-- The due date of a card that has a statement day.
abbrev pub cycle_of : Account → ℕ → Option ℤ → Option Text
cycle_of account charged none = none
cycle_of account charged (some statement_day) =
    if str_eq account.type "credit_card"
    then some (format_date (card_cycle_due charged statement_day (or_zero account.due_day)))
    else none

-- `lendDue`: the date asked for, none for an empty one, else that of the card's cycle.
unfoldable pub lend_due : Option Text → Account → ℕ → Zone → Option Text
lend_due (some []) account at loc = none
lend_due (some (c ∷ text)) account at loc = some (c ∷ text)
lend_due none account at loc = cycle_of account (local_day loc at) account.statement_day
