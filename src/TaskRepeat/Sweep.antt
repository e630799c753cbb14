-- ===== src/TaskRepeat/Sweep.antt =====
-- `Sweep`, `advanceOne` and `Enqueue` of internal/taskrepeat/taskrepeat.go. `zone_of` is `Location`, which
-- looks up a user's zone, and `now` reads the clock in each round. The queue takes every entry; the source
-- logs a failure and goes on, and it arms the reminders of one task in no fixed order. The column of a task that does not repeat holds the empty rule.
use sajni_api.Prelude.{
  ℕ, zero, suc, ◌+◌, Bool, false, not, ◌&&◌, ◌||◌, Option, none, some, List, [], ◌∷◌, ◌++◌, String,
  ltb, if◌then◌else◌, ok, err,
}
use text.Mathlib.Text.{◌==◌ as str_eq}
use sajni_api.Calendar.Text.{Text, format_date, text_ltb}
use sajni_api.Calendar.Zone.{Zone}
use sajni_api.Reminder.Rule.{recurring}
use sajni_api.TaskRepeat.Advance.{Task, Store, Moved, advance}

-- What is armed: a task at its time, or one of its reminders.
pub data Armed : Type 0 where
  armed_task armed_reminder : ℕ → ℕ → Armed

abbrev arm_task : ℕ → Bool → Option ℕ → List Armed
arm_task id remind none = []
arm_task id remind (some time) = if remind then armed_task id time ∷ [] else []

unfoldable pub arm_reminders : ℕ → List (ℕ × ℕ) → List Armed
arm_reminders now [] = []
arm_reminders now ((rid, time) ∷ reminders) =
    if ltb now time
    then armed_reminder rid time ∷ arm_reminders now reminders
    else arm_reminders now reminders

-- `Enqueue`
unfoldable pub enqueue : ℕ → Moved → List Armed
enqueue now m = arm_task m.id m.remind m.scheduled_at ++ arm_reminders now m.reminders

-- The candidates: `today` is the database's date.
abbrev is_before : Text → Option Text → Bool
is_before limit none = false
is_before limit (some date) = text_ltb date limit

unfoldable pub is_candidate : ℕ → Task → Bool
is_candidate today task =
    let limit = format_date (today + 1) in
    recurring task.recurrence
    && not (str_eq task.status "scratched")
    && (is_before limit task.due_date
        || is_before limit task.week_of
        || is_before limit task.month_of)

-- `ORDER BY id`
unfoldable pub insert_by_id : Task → List Task → List Task
insert_by_id task [] = task ∷ []
insert_by_id task (other ∷ tasks) =
    if ltb other.id task.id then other ∷ insert_by_id task tasks else task ∷ other ∷ tasks

unfoldable pub candidates : ℕ → List Task → List Task
candidates today [] = []
candidates today (task ∷ tasks) =
    if is_candidate today task
    then insert_by_id task (candidates today tasks)
    else candidates today tasks

-- `LIMIT n`
unfoldable pub limit_rows : ℕ → List Task → List Task
limit_rows zero tasks = []
limit_rows (suc n) [] = []
limit_rows (suc n) (task ∷ tasks) = task ∷ limit_rows n tasks

-- `advanceOne`: the transaction of one task; an error or no move leaves the tables.
unfoldable pub advance_one : Zone → String → ℕ → ℕ → Store → Option (Moved × Store)
advance_one loc uid id now s = elim (advance loc false uid id now s) [
  | err e ↦ none
  | ok answer ↦ answer
]

-- The loop of `Sweep`, from round `i` on.
unfoldable pub sweep_loop :
    (String → Zone) → (ℕ → ℕ) → ℕ → List Task → Store → List Moved × List Armed × Store
sweep_loop zone_of now i [] s = ([], [], s)
sweep_loop zone_of now i (c ∷ cands) s =
    elim (advance_one (zone_of c.user_id) c.user_id c.id (now i) s) [
      | none ↦ sweep_loop zone_of now (suc i) cands s
      | some (m, t) ↦
          let (moved, armed, last) = sweep_loop zone_of now (suc i) cands t in
          (m ∷ moved, enqueue (now i) m ++ armed, last)
    ]

-- `Sweep`
unfoldable pub sweep : (String → Zone) → (ℕ → ℕ) → ℕ → Store → List Moved × List Armed × Store
sweep zone_of now today s = sweep_loop zone_of now 0 (limit_rows 2000 (candidates today s.tasks)) s
