-- ===== src/Plan/AddTask/Landed.antt =====
-- Where `AddTask` puts a task.
use text.Mathlib.Text.{◌==◌ as str_eq}
use text.Mathlib.TextPositions.{eq_refl}
use sajni_api.Prelude.{
  ℕ, ◌*◌, ◌/◌, ◌≤◌, ◌<◌, ◌≡◌, ◌==◌, Bool, true, false, ◌&&◌, Option, none, some, List, [], ◌∷◌,
  ◌++◌, map, String, Result, ok, ◌>>=◌, ok_of_bind, All, arith, refl, sym, ap, subst, ◌∙◌,
  Bool-cases, inl, inr,
}
use sajni_api.Calendar.Text.{Text, text_eq, text_eq_refl, text_ltb, parse_date, format_date}
use sajni_api.Calendar.Zone.{Zone, IsSteady, day_length, local_day, clock, at}
use sajni_api.Reminder.Next.Fields.{IsAt, at-IsAt, clock-lt}
use sajni_api.TaskRepeat.Advance.{Task, Due, Store, is_row, find_task, has_row}
use sajni_api.TaskRepeat.Advance.Lapse.{others, others_same, find_update}
use sajni_api.Plan.{PlanRow, PlanError, occurrence}
use sajni_api.Plan.Input.Ready.{plan_of_ok}
use sajni_api.Plan.AddTask.{
  found_task, moved_time, is_open, mark_rescheduled, write_rescheduled, note_history, planned,
  add_to, add_task,
}

-- The row of a task that `AddTask` moved, in the tables it left.
pub record IsLanded (loc : Zone) (uid : String) (plan_id id : ℕ) (date : Text) (s t : Store)
    : Type 0 where
  pub task : Task
  pub row : Task
  pub before : find_task uid id s.tasks ≡ some task
  pub after : find_task uid id t.tasks ≡ some row
  pub on_date : row.due_date ≡ some date
  pub in_plan : row.plan_id ≡ some plan_id
  pub no_week : row.week_of ≡ none
  pub no_month : row.month_of ≡ none
  pub same_status : row.status ≡ task.status
  pub untimed : task.scheduled_at ≡ none → row.scheduled_at ≡ none
  pub timed :
      (time d : ℕ)
      → task.scheduled_at ≡ some time
      → parse_date date ≡ some d
      → 1 ≤ d
      → (new : ℕ) × (row.scheduled_at ≡ some new)
        × IsAt loc d (clock loc time / 60000000000 * 60000000000) new
  pub others_stay : others uid id t.tasks ≡ others uid id s.tasks

task_of_some : {a b : Task} → some a ≡ some b → a ≡ b
task_of_some h = cc

found_task_lem {κ} :
    {B : Type κ} {rest : Task → Result PlanError B} {last : B} (o : Option Task)
    → (found_task o >>= rest) ≡ ok last
    → (a : Task) × (o ≡ some a) × (rest a ≡ ok last)
found_task_lem none h = cc
found_task_lem (some a) h = (a, refl, h)

planned-is_row :
    (uid : String) (id plan_id : ℕ) (date : Text) (scheduled : Option ℕ) (t : Task)
    → is_row uid id (planned plan_id date scheduled t) ≡ is_row uid id t
unfolding is_row planned
planned-is_row uid id plan_id date scheduled t = refl

moved_time-IsAt :
    (loc : Zone) (date : Text) (time d : ℕ)
    → IsSteady loc
    → parse_date date ≡ some d
    → 1 ≤ d
    → (new : ℕ) × (moved_time loc date (some time) ≡ some new)
      × IsAt loc d (clock loc time / 60000000000 * 60000000000) new
unfolding moved_time
moved_time-IsAt loc date time d steady parsed second =
    let midnight = at-IsAt loc d 0 steady second (omega arith) in
    let minute = clock loc time / 60000000000 * 60000000000 in
    let fits : minute < day_length = omega (arith, clock-lt loc time) in
    (
      at loc d minute,
      rw (moved_time, parsed, midnight.on_day) refl,
      at-IsAt loc d minute steady second fits,
    )

-- A task that is added to a plan lands on the date that `Occurrence` gives: it is due then, in the plan and
-- in no week or month, with the status it had. A timed task keeps its hour and minute on that day, where
-- the date is a day past the first of year 1 in a zone whose clocks are never changed. Other tasks stay.
pub add_task-IsLanded :
    (scan : Text → ℕ × ℕ) (loc : Zone) (now : ℕ) (uid : String) (plan_id id : ℕ) (text : Text)
    (plans : List PlanRow) (s : Store) (done : Text × Option ℕ × Store)
    → IsSteady loc
    → add_task scan loc now uid plan_id id text plans s ≡ ok done
    → IsLanded loc uid plan_id id done.0 s done.2
      × ((start : ℕ) × (occurrence scan loc now uid plan_id text plans ≡ ok (done.0, start)))
unfolding add_task add_to
add_task-IsLanded scan loc now uid plan_id id text plans s done steady h =
    let (place, e1, h1) = ok_of_bind (occurrence scan loc now uid plan_id text plans) h in
    let date = place.0 in
    let (task, e2, h2) = found_task_lem (find_task uid id s.tasks) h1 in
    let scheduled = moved_time loc date task.scheduled_at in
    let f = planned plan_id date scheduled in
    let there = find_update uid id f s.tasks (planned-is_row uid id plan_id date scheduled) e2 in
    let stay = others_same uid id f s.tasks (planned-is_row uid id plan_id date scheduled) in
    subst
      (λ (x : Text × Option ℕ × Store).
        IsLanded loc uid plan_id id x.0 s x.2
        × ((start : ℕ) × (occurrence scan loc now uid plan_id text plans ≡ ok (x.0, start))))
      (plan_of_ok h2)
      (
        record {
          task = task;
          row = f task;
          before = e2;
          after = there;
          on_date = unfold planned in refl;
          in_plan = unfold planned in refl;
          no_week = unfold planned in refl;
          no_month = unfold planned in refl;
          same_status = unfold planned in refl;
          untimed = λ none_set.
              unfold planned in ap (moved_time loc date) none_set ∙ unfold moved_time in refl;
          timed = λ time d set parsed second.
              let (new, is, lands) = moved_time-IsAt loc date time d steady parsed second in
              (new, unfold planned in ap (moved_time loc date) set ∙ is, lands);
          others_stay = stay;
        },
        (place.1, e1),
      )

-- A row of the history for a day of a task.
abbrev pub is_due : String → ℕ → Text → Due → Bool
is_due uid id from row = str_eq row.user_id uid && (row.task_id == id) && text_eq row.due_date from

module _ (uid : String) (id : ℕ) (from : Text) where
  mark-is_due :
      (row : Due) → is_due uid id from (mark_rescheduled uid id from row) ≡ is_due uid id from row
  unfolding mark_rescheduled
  mark-is_due row = elim (Bool-cases (is_due uid id from row)) [
    | inl own ↦ rw (mark_rescheduled, own) own
    | inr other ↦ rw (mark_rescheduled, other) other
  ]

  mark_outcome :
      (row : Due)
      → is_due uid id from row ≡ true
      → (mark_rescheduled uid id from row).outcome ≡ "rescheduled"
  unfolding mark_rescheduled
  mark_outcome row own = rw (mark_rescheduled, own) refl

  has_row-map :
      (rows : List Due)
      → has_row uid id from (map (mark_rescheduled uid id from) rows) ≡ has_row uid id from rows
  unfolding has_row
  has_row-map [] = refl
  has_row-map (row ∷ rows) = rw (has_row, mark-is_due row, has_row-map rows) refl

  has_row-append :
      (rows : List Due) (row : Due)
      → is_due uid id from row ≡ true
      → has_row uid id from (rows ++ row ∷ []) ≡ true
  unfolding has_row
  has_row-append [] row own = rw own refl
  has_row-append (r ∷ rows) row own = let rest = has_row-append rows row own in ground arith

  every_marked :
      (rows : List Due)
      → All
          (λ row. is_due uid id from row ≡ true → row.outcome ≡ "rescheduled")
          (map (mark_rescheduled uid id from) rows)
  every_marked [] = tt
  every_marked (row ∷ rows) =
      (λ own. mark_outcome row (sym (mark-is_due row) ∙ own), every_marked rows)

  write_rescheduled-marked :
      (rows : List Due)
      → (has_row uid id from (write_rescheduled uid id from rows) ≡ true)
        × All
            (λ row. is_due uid id from row ≡ true → row.outcome ≡ "rescheduled")
            (write_rescheduled uid id from rows)
  unfolding write_rescheduled
  write_rescheduled-marked rows = elim (Bool-cases (has_row uid id from rows)) [
    | inl there ↦ rw (write_rescheduled, there) (has_row-map rows ∙ there, every_marked rows)
    | inr missing ↦
        let row : Due = record {
          user_id = uid;
          task_id = id;
          due_date = from;
          outcome = "rescheduled";
        } in
        let own : is_due uid id from row ≡ true =
          rw (eq_refl uid, text_eq_refl from) (ground arith) in
        rw (write_rescheduled, missing)
          (
            has_row-map (rows ++ row ∷ []) ∙ has_row-append rows row own,
            every_marked (rows ++ row ∷ []),
          )
  ]

-- A task that is open and was due before today leaves its day for another one: the history has a row of that
-- day, and every such row says that the task was rescheduled.
pub add_task_rescheduled :
    (scan : Text → ℕ × ℕ) (loc : Zone) (now : ℕ) (uid : String) (plan_id id : ℕ) (text due : Text)
    (plans : List PlanRow) (s : Store) (done : Text × Option ℕ × Store) (task : Task)
    → find_task uid id s.tasks ≡ some task
    → task.due_date ≡ some due
    → text_ltb due (format_date (local_day loc now)) ≡ true
    → is_open task.status ≡ true
    → add_task scan loc now uid plan_id id text plans s ≡ ok done
    → text_eq due done.0 ≡ false
    → (has_row uid id due done.2.history ≡ true)
      × All (λ row. is_due uid id due row ≡ true → row.outcome ≡ "rescheduled") done.2.history
unfolding add_task add_to note_history
add_task_rescheduled scan loc now uid plan_id id text due plans s done task e was past still h =
    let (place, e1, h1) = ok_of_bind (occurrence scan loc now uid plan_id text plans) h in
    let (found, e2, h2) = found_task_lem (find_task uid id s.tasks) h1 in
    let same : task ≡ found = task_of_some (sym e ∙ e2) in
    let had : found.due_date ≡ some due = ap Task.due_date (sym same) ∙ was in
    let open_still : is_open found.status ≡ true =
      ap (λ (t : Task). is_open t.status) (sym same) ∙ still in
    subst
      (λ (x : Text × Option ℕ × Store).
        text_eq due x.0 ≡ false
        → (has_row uid id due x.2.history ≡ true)
          × All (λ row. is_due uid id due row ≡ true → row.outcome ≡ "rescheduled") x.2.history)
      (plan_of_ok h2)
      (λ apart.
        rw (note_history, had, apart, past, open_still)
          (write_rescheduled-marked uid id due s.history))
