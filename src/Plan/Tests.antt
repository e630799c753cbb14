-- ===== src/Plan/Tests.antt =====
-- Runs of internal/plan/plan.go, and the theorems at inputs where they hold: a plan at 09:00 on
-- Mondays, of a user in Asia/Kolkata.
use sajni_api.Prelude.{
  ℕ, ◌+◌, ◌*◌, ◌-◌, ◌≤◌, ◌<◌, ◌≡◌, String, length, [], ◌∷◌, some, none, true, arith, refl, ok, err,
  ◌⊎◌,
}
use sajni_api.Calendar.{year, month_index, find_month, days_before_year, weekday}
use sajni_api.Calendar.Text.{Text, parse_date, format_date}
use sajni_api.Prelude.Int.{pos}
use sajni_api.Calendar.Zone.{Zone, day_length, local_day, clock, at}
use sajni_api.Calendar.Kolkata.{kolkata, kolkata-IsSteady, monday, four_o_clock}
use sajni_api.Reminder.Next.{add_date}
use sajni_api.Plan.{
  not_found, PlanRow, on, get, start_clock, start_at, next_day, next, next_one, occurrence,
}
use sajni_api.Plan.Input.{
  TextOps, SaveInput, Checked, normalize, is_color, is_clock, full_start, distinct_days, insert_day,
  sort_days,
}
use sajni_api.Plan.Input.Ready.{IsReady, normalize-IsReady}
use sajni_api.Plan.Saved.{
  Plans, save, advance, delete, find_plan, rearm, alert_of, store_plan, new_plan, delete_plan,
  is_plan,
}
use sajni_api.Plan.Saved.Rows.{IsDeleted, delete_gone}
use sajni_api.Plan.Saved.Table.{IsTable, IsValidTable}
use sajni_api.Plan.Saved.Armed.{IsClockScan, IsArmed, save-IsArmed, advance-IsArmed}
use sajni_api.Plan.First.{IsStart, next-IsStart}
use sajni_api.Plan.Landing.{IsPlanned, occurrence-IsPlanned}

-- `Sscanf` reads nine o'clock.
abbrev nine : Text → ℕ × ℕ
nine text = (9, 0)

abbrev mondays : PlanRow
mondays = record {
  id = 1;
  user_id = "u";
  name = b'M' ∷ [];
  color = [];
  weekdays = 1 ∷ [];
  start_time = [];
  notify = true;
  next_alert_at = none;
  alert_claimed_until = none;
}

-- Monday at 16:00 in Kolkata; the plan's next start is a week on, at 09:00.
abbrev now : ℕ
now = four_o_clock monday

abbrev next_monday : ℕ
next_monday = (monday + 7) * day_length + 32400000000000 - 19800000000000

nine_fits : start_clock nine [] < day_length
unfolding start_clock
nine_fits = omega arith

next-mondays : next nine (1 ∷ []) [] kolkata now ≡ some next_monday
unfolding next next_day on weekday start_at start_clock local_day at add_date clock
next-mondays = refl

next-IsStart_example :
    (t : ℕ) × (next nine (1 ∷ []) [] kolkata now ≡ some t)
    × IsStart kolkata (1 ∷ []) (start_clock nine []) now t
    × ((u : ℕ)
        → 1 ≤ local_day kolkata u
        → IsStart kolkata (1 ∷ []) (start_clock nine []) now u
        → t ≤ u)
unfolding local_day
next-IsStart_example =
    next-IsStart nine (1 ∷ []) [] kolkata now 1 kolkata-IsSteady (omega arith) nine_fits
      (omega arith) refl

get-mondays : get "u" 1 (mondays ∷ []) ≡ some mondays
unfolding get
get-mondays = refl

occurrence-mondays :
    occurrence nine kolkata now "u" 1 [] (mondays ∷ [])
    ≡ ok (format_date (local_day kolkata next_monday), next_monday)
unfolding occurrence get next_one next next_day on weekday start_at start_clock local_day at
    add_date clock
occurrence-mondays = refl

occurrence-IsPlanned_example :
    IsPlanned kolkata
      (1 ∷ [])
      (start_clock nine [])
      (format_date (local_day kolkata next_monday))
      next_monday
unfolding local_day parse_date year month_index find_month days_before_year
occurrence-IsPlanned_example =
    occurrence-IsPlanned nine kolkata now "u" 1 [] (format_date (local_day kolkata next_monday))
      (mondays ∷ []) mondays next_monday kolkata-IsSteady (omega arith) get-mondays nine_fits
      (λ d e. cc) (omega arith) occurrence-mondays

-- A plan that is saved with an empty start time, which is nine o'clock, and without a choice of alerts.
abbrev ops : TextOps
ops = record { trim = λ t. t; upper = λ t. t; runes = λ t. length t }

abbrev read_clock : Text → ℕ × ℕ
read_clock (a ∷ b ∷ c ∷ d ∷ e ∷ []) = ((a - b'0') * 10 + (b - b'0'), (d - b'0') * 10 + (e - b'0'))
read_clock text = (0, 0)

read_clock-reads : IsClockScan read_clock
read_clock-reads a b d e h = refl

abbrev everywhere : String → Zone
everywhere uid = kolkata

abbrev input : SaveInput
input = record {
  name = b'M' ∷ [];
  color = [];
  weekdays = some (pos 1 ∷ pos 1 ∷ []);
  start_time = [];
  notify = none;
}

abbrev checked : Checked
checked = record {
  name = b'M' ∷ [];
  color = [];
  weekdays = 1 ∷ [];
  start_time = b'0' ∷ b'9' ∷ b':' ∷ b'0' ∷ b'0' ∷ [];
  notify = true;
}

checked-ok : normalize ops input ≡ ok checked
unfolding normalize is_color is_clock full_start distinct_days insert_day sort_days
checked-ok = refl

abbrev empty : Plans
empty = record { rows = []; next_id = 1; queue = [] }

abbrev saved : PlanRow
saved = record mondays {
  start_time = b'0' ∷ b'9' ∷ b':' ∷ b'0' ∷ b'0' ∷ [];
  next_alert_at = some next_monday;
}

abbrev plans : Plans
plans = record { rows = saved ∷ []; next_id = 2; queue = (1, next_monday) ∷ [] }

saved-ok : save ops read_clock everywhere now "u" 0 input empty ≡ ok (saved, plans)
unfolding save normalize is_color is_clock full_start distinct_days insert_day sort_days alert_of
    store_plan new_plan get next next_day on weekday start_at start_clock local_day at add_date
    clock
saved-ok = refl

empty-IsValidTable : IsValidTable ops empty
unfolding IsValidTable
empty-IsValidTable = tt

plans-IsTable : IsTable plans
unfolding IsTable is_clock
plans-IsTable = ((omega arith, record { week = refl; some_day = omega arith; timed = refl }), tt)

abbrev later_monday : ℕ
later_monday = next_monday + 7 * day_length

abbrev moved : Plans
moved = record {
  rows = record saved { next_alert_at = some later_monday } ∷ [];
  next_id = 2;
  queue = (1, next_monday) ∷ (1, later_monday) ∷ [];
}

moved-ok : advance read_clock everywhere 1 next_monday plans ≡ ok moved
unfolding advance find_plan rearm alert_of next next_day on weekday start_at start_clock local_day
    at add_date clock
moved-ok = refl

-- Two users, each with a plan.
abbrev shared : Plans
shared = record plans { rows = saved ∷ record saved { user_id = "v"; id = 2 } ∷ []; next_id = 3 }

delete-own :
    delete "u" 1 shared ≡ ok (record shared { rows = record saved { user_id = "v"; id = 2 } ∷ [] })
unfolding delete delete_plan is_plan get
delete-own = refl

delete_of_other : delete "u" 2 shared ≡ err not_found
unfolding delete get
delete_of_other = refl

normalize-IsReady_example : IsReady ops input checked
normalize-IsReady_example = normalize-IsReady ops input checked checked-ok

save-IsArmed_example : IsArmed read_clock kolkata now saved × IsValidTable ops plans
unfolding local_day
save-IsArmed_example =
    save-IsArmed ops read_clock everywhere now "u" 0 input empty (saved, plans) empty-IsValidTable
      kolkata-IsSteady (omega arith) read_clock-reads saved-ok

advance-IsArmed_example :
    (row : PlanRow) × (find_plan 1 moved.rows ≡ some row)
    × (row.alert_claimed_until ≡ none)
    × IsArmed read_clock kolkata next_monday row
unfolding local_day
advance-IsArmed_example =
    advance-IsArmed read_clock everywhere 1 next_monday plans moved plans-IsTable
      (λ uid. kolkata-IsSteady) (λ uid. omega arith) read_clock-reads moved-ok

delete_gone_example :
    ((row : PlanRow) × (get "u" 1 shared.rows ≡ some row)
      × ((t : Plans) × (delete "u" 1 shared ≡ ok t) × IsDeleted "u" 1 shared t))
    ⊎ ((get "u" 1 shared.rows ≡ none) × (delete "u" 1 shared ≡ err not_found))
delete_gone_example = delete_gone "u" 1 shared
