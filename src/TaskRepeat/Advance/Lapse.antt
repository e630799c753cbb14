-- ===== src/TaskRepeat/Advance/Lapse.antt =====
-- What `Advance`, `Skip` and `Fit` do to a task and to the other rows.
use text.Mathlib.Text.{◌==◌ as str_eq}
use sajni_api.Prelude.{
  ℕ, ◌≤◌, ◌≡◌, ◌≢◌, ltb, Bool, true, false, not, ◌&&◌, ◌||◌, arith, refl, sym, ap, ◌∙◌, subst,
  Bool-cases, Option-cases, inl, inr, ◌⊎◌, Option, some, none, List, [], ◌∷◌, if◌then◌else◌, ok,
  err, String,
}
use text.Mathlib.TextEquality.{eq_iff}
use sajni_api.Calendar.{year}
use sajni_api.Calendar.Text.{Text, format_date, parse_date, parse_date-format_date}
use sajni_api.Calendar.Zone.{Zone, utc, local_day, at}
use sajni_api.Reminder.Rule.{recurring}
use sajni_api.Reminder.Next.{occurs}
use sajni_api.TaskRepeat.Rules.{Kind, day, week, month, take, anchor, anchor_at, Error, next}
use sajni_api.TaskRepeat.Advance.Series.{Outcome-cases, next_reached}
use sajni_api.TaskRepeat.Advance.{
  Step, untick, new_status, moved_row, scope, not_before, date_of, skip_before, write_move,
  advance_from, advance_task, advance, Answer, Task, Store, Moved, is_row, find_task, update_task,
}

module _ (uid : String) (id : ℕ) where
  -- The rows of other tasks, in their order.
  unfoldable pub others : List Task → List Task
  others [] = []
  others (task ∷ tasks) = if is_row uid id task then others tasks else task ∷ others tasks

  pub find_update :
      (f : Task → Task) (tasks : List Task) {task : Task}
      → ((t : Task) → is_row uid id (f t) ≡ is_row uid id t)
      → find_task uid id tasks ≡ some task
      → find_task uid id (update_task uid id f tasks) ≡ some (f task)
  unfolding find_task update_task
  find_update f [] keeps h = cc
  find_update f (t ∷ tasks) {task} keeps h = elim (Bool-cases (is_row uid id t)) [
    | inl own ↦ ground (arith, keeps t, own)
    | inr other ↦ let rest = find_update f tasks {task = task} keeps (ground arith) in ground arith
  ]

  pub others_same :
      (f : Task → Task) (tasks : List Task)
      → ((t : Task) → is_row uid id (f t) ≡ is_row uid id t)
      → others (update_task uid id f tasks) ≡ others tasks
  unfolding others update_task
  others_same f [] keeps = refl
  others_same f (t ∷ tasks) keeps =
      let rest = others_same f tasks keeps in
      elim (Bool-cases (is_row uid id t)) [
        | inl own ↦ ground (arith, keeps t, own, rest)
        | inr other ↦ ground arith
      ]

-- What has to hold for `Advance` to move a task, and the move.
pub record Advanced (loc : Zone) (skip : Bool) (uid : String) (id today : ℕ) (s : Store) (m : Moved)
    (t : Store) : Type 0 where
  pub task : Task
  pub kind : Kind
  pub start : ℕ
  pub to : ℕ
  pub found : find_task uid id s.tasks ≡ some task
  pub repeats : recurring task.recurrence ≡ true
  pub kept : str_eq task.status "scratched" ≡ false
  pub sits : anchor (scope task) ≡ some (kind, start)
  pub ended_first :
      not skip && not (ltb (at utc start 0) (not_before kind (date_of loc today))) ≡ false
  pub lands :
      next task.recurrence kind
        (at utc start 0)
        (skip_before skip kind (at utc start 0) (not_before kind (date_of loc today)))
      ≡ occurs to
  pub writes : (m, t) ≡ write_move loc skip uid id kind (at utc start 0) to task s

none_not : {x : Moved × Store} → ◌≡◌ {A = Answer} (ok none) (ok (some x)) → ⊥
none_not h = cc

err_not : {e : Error} {x : Moved × Store} → ◌≡◌ {A = Answer} (err e) (ok (some x)) → ⊥
err_not h = cc

pair_of_ok : {x y : Moved × Store} → ◌≡◌ {A = Answer} (ok (some x)) (ok (some y)) → x ≡ y
pair_of_ok h = cc

module _ (loc : Zone) (skip : Bool) (uid : String) (id today : ℕ) (s : Store) (m : Moved)
    (t : Store) where
  advance_from_lem :
      (task : Task) (kind : Kind) (start : ℕ)
      → find_task uid id s.tasks ≡ some task
      → recurring task.recurrence ≡ true
      → str_eq task.status "scratched" ≡ false
      → anchor (scope task) ≡ some (kind, start)
      → advance_from loc skip uid id today task s (kind, start) ≡ ok (some (m, t))
      → Advanced loc skip uid id today s m t
  unfolding advance_from
  advance_from_lem task kind start found repeats kept sits h =
      let from = at utc start 0 in
      let earliest = not_before kind (date_of loc today) in
      elim (Bool-cases (not skip && not (ltb from earliest))) [
        | inl early ↦ absurd (ground arith)
        | inr due ↦
            elim (Outcome-cases
              (next task.recurrence kind from (skip_before skip kind from earliest))) [
                | inr (inl e) ↦ absurd (none_not (rw (due, e) at h))
                | inr (inr e) ↦ absurd (err_not (rw (due, e) at h))
                | inl (to, e) ↦ record {
                  task = task;
                  kind = kind;
                  start = start;
                  to = to;
                  found = found;
                  repeats = repeats;
                  kept = kept;
                  sits = sits;
                  ended_first = due;
                  lands = e;
                  writes = sym (pair_of_ok (rw (due, e) at h));
                }
              ]
      ]

  advance_lem :
      advance loc skip uid id today s ≡ ok (some (m, t)) → Advanced loc skip uid id today s m t
  unfolding advance advance_task
  advance_lem h = elim (Option-cases (find_task uid id s.tasks)) [
    | inl e ↦ absurd (err_not (rw (advance, e) at h))
    | inr (task, e) ↦
        elim (Bool-cases (not (recurring task.recurrence) || str_eq task.status "scratched")) [
          | inl idle ↦ absurd (none_not (rw (advance, e, advance_task, idle) at h))
          | inr active ↦ elim (Option-cases (anchor (scope task))) [
            | inl a ↦ absurd (none_not (rw (advance, e, advance_task, active, a) at h))
            | inr ((kind, start), a) ↦
                advance_from_lem task kind start e (ground arith) (ground arith) a
                  (rw (advance, e, advance_task, active, a) at h)
          ]
        ]
  ]

anchor_parsed :
    (kind : Kind) (text : Text) (d : ℕ) (later : Option (Kind × ℕ))
    → take 10 text ≡ text
    → text ≢ []
    → parse_date text ≡ some d
    → anchor_at kind text later ≡ some (kind, d)
unfolding anchor_at
anchor_parsed kind [] d later short some_text h = absurd (some_text refl)
anchor_parsed kind (c ∷ text) d later short some_text h = rw (anchor_at, short, h) refl

anchor_written :
    (kind : Kind) (d : ℕ) (later : Option (Kind × ℕ))
    → year d ≤ 9999
    → anchor_at kind (format_date d) later ≡ some (kind, d)
unfolding format_date
anchor_written kind d later h =
    anchor_parsed kind (format_date d) d later refl (λ e. cc) (parse_date-format_date d h)

-- The moved row sits on the date that it moved to.
anchor-moved_row :
    (loc : Zone) (kind : Kind) (from to : ℕ) (task : Task)
    → year (local_day utc to) ≤ 9999
    → anchor (scope (moved_row loc kind from to task)) ≡ some (kind, local_day utc to)
unfolding anchor scope moved_row anchor_at
anchor-moved_row loc day from to task h = anchor_written day (local_day utc to) none h
anchor-moved_row loc week from to task h = anchor_written week (local_day utc to) none h
anchor-moved_row loc month from to task h = anchor_written month (local_day utc to) none h

reached :
    (loc : Zone) (kind : Kind) (today to : ℕ)
    → not_before kind (date_of loc today) ≤ to
    → ltb (at utc (local_day utc to) 0) (not_before kind (date_of loc today)) ≡ false
unfolding not_before date_of at local_day
reached loc day today to h = ground arith
reached loc week today to h = ground arith
reached loc month today to h = ground arith

kept_keys :
    (uid : String) (id : ℕ) (loc : Zone) (kind : Kind) (from to : ℕ) (t : Task)
    → is_row uid id (moved_row loc kind from to t) ≡ is_row uid id t
unfolding is_row moved_row
kept_keys uid id loc kind from to t = refl

-- The rows after the move.
moved_tasks :
    (loc : Zone) (skip : Bool) (uid : String) (id : ℕ) (kind : Kind) (from to : ℕ) (task : Task)
    (s : Store)
    → (write_move loc skip uid id kind from to task s).1.tasks
      ≡ update_task uid id (moved_row loc kind from to) s.tasks
unfolding write_move
moved_tasks loc skip uid id kind from to task s = refl

module _ (loc : Zone) (skip : Bool) (uid : String) (id today : ℕ) (s : Store) (m : Moved)
    (t : Store) where
  new_tasks :
      (a : Advanced loc skip uid id today s m t)
      → t.tasks ≡ update_task uid id (moved_row loc a.kind (at utc a.start 0) a.to) s.tasks
  new_tasks a =
      ap (λ p. p.1.tasks) a.writes
      ∙ moved_tasks loc skip uid id a.kind (at utc a.start 0) a.to a.task s

  new_row :
      (a : Advanced loc skip uid id today s m t)
      → find_task uid id t.tasks ≡ some (moved_row loc a.kind (at utc a.start 0) a.to a.task)
  new_row a =
      ap (find_task uid id) (new_tasks a)
      ∙ find_update uid id (moved_row loc a.kind (at utc a.start 0) a.to) s.tasks
          (kept_keys uid id loc a.kind (at utc a.start 0) a.to) a.found

again :
    (loc : Zone) (uid : String) (id today : ℕ) (t : Store) (row : Task) (kind : Kind) (start : ℕ)
    → find_task uid id t.tasks ≡ some row
    → anchor (scope row) ≡ some (kind, start)
    → ltb (at utc start 0) (not_before kind (date_of loc today)) ≡ false
    → advance loc false uid id today t ≡ ok none
unfolding advance advance_task advance_from
again loc uid id today t row kind start found sits early =
    elim (Bool-cases (not (recurring row.recurrence) || str_eq row.status "scratched")) [
      | inl idle ↦ rw (advance, found, advance_task, idle) refl
      | inr active ↦ rw (advance, found, advance_task, active, sits, advance_from, early) refl
    ]

earliest-le :
    (loc : Zone) (skip : Bool) (uid : String) (id today : ℕ) (s : Store) (m : Moved) (t : Store)
    (a : Advanced loc skip uid id today s m t)
    → not_before a.kind (date_of loc today) ≤ a.to
unfolding skip_before
earliest-le loc skip uid id today s m t a =
    let from = at utc a.start 0 in
    let earliest = not_before a.kind (date_of loc today) in
    let far =
      next_reached a.task.recurrence a.kind from (skip_before skip a.kind from earliest) a.to
        a.lands in
    ground arith

-- A lapse that moved a task, to a date up to the year 9999, moves it no further when it is run
-- again at the same time: `to` is the date that `Next` finds for the task.
pub advance_again :
    (loc : Zone) (uid : String) (id today : ℕ) (s : Store) (m : Moved) (t : Store) (task : Task)
    (kind : Kind) (start to : ℕ)
    → find_task uid id s.tasks ≡ some task
    → anchor (scope task) ≡ some (kind, start)
    → next task.recurrence kind (at utc start 0) (not_before kind (date_of loc today)) ≡ occurs to
    → year (local_day utc to) ≤ 9999
    → advance loc false uid id today s ≡ ok (some (m, t))
    → advance loc false uid id today t ≡ ok none
unfolding skip_before next
advance_again loc uid id today s m t task kind start to found sits lands small h =
    let a = advance_lem loc false uid id today s m t h in
    let same : a.task ≡ task = cc in
    let same_kind : a.kind ≡ kind = cc in
    let same_to : a.to ≡ to = cc in
    again loc uid id today t (moved_row loc a.kind (at utc a.start 0) a.to a.task) a.kind
      (local_day utc a.to) (new_row loc false uid id today s m t a)
      (anchor-moved_row loc a.kind (at utc a.start 0) a.to a.task (rw same_to small))
      (reached loc a.kind today a.to (earliest-le loc false uid id today s m t a))

unfoldable pub all_unticked : List Step → Bool
all_unticked [] = true
all_unticked (step ∷ steps) = not step.done && all_unticked steps

untick-all : (steps : Option (List Step)) → all_unticked (untick steps) ≡ true
unfolding all_unticked untick
untick-all none = refl
untick-all (some []) = refl
untick-all (some (step ∷ steps)) = untick-all (some steps)

-- The row of a task that moved: it sits on the date `to` alone, is open or blocked, has no step
-- ticked and repeats as before.
pub record IsReopened (loc : Zone) (kind : Kind) (to : ℕ) (task row : Task) : Type 0 where
  pub sits : anchor (scope row) ≡ some (kind, local_day utc to)
  pub status : (row.status ≡ "todo") ⊎ ((row.status ≡ "blocked") × (task.status ≡ "blocked"))
  pub steps : (steps : List Step) × (row.steps ≡ some steps) × (all_unticked steps ≡ true)
  pub same_rule : row.recurrence ≡ task.recurrence
  pub unclaimed : (row.reminded_at ≡ none) × (row.reminder_claimed_until ≡ none)

moved_row-IsReopened :
    (loc : Zone) (kind : Kind) (from to : ℕ) (task : Task)
    → year (local_day utc to) ≤ 9999
    → IsReopened loc kind to task (moved_row loc kind from to task)
unfolding moved_row new_status
moved_row-IsReopened loc kind from to task small = record {
  sits = anchor-moved_row loc kind from to task small;
  status = elim (Bool-cases (str_eq task.status "blocked")) [
    | inl blocked ↦ inr (rw blocked refl, (eq_iff task.status "blocked").0 blocked)
    | inr not_blocked ↦ inl (rw not_blocked refl)
  ];
  steps = (untick task.steps, refl, untick-all task.steps);
  same_rule = refl;
  unclaimed = (refl, refl);
}

-- A task that moves to `to`, up to the year 9999: `to` is not before the start of the current day,
-- week or month, the task's row is reopened there, and the rows of other tasks are as before.
pub advance-IsReopened :
    (loc : Zone) (skip : Bool) (uid : String) (id today : ℕ) (s : Store) (m : Moved) (t : Store)
    (task : Task) (kind : Kind) (start to : ℕ)
    → find_task uid id s.tasks ≡ some task
    → anchor (scope task) ≡ some (kind, start)
    → next task.recurrence kind
        (at utc start 0)
        (skip_before skip kind (at utc start 0) (not_before kind (date_of loc today)))
      ≡ occurs to
    → year (local_day utc to) ≤ 9999
    → advance loc skip uid id today s ≡ ok (some (m, t))
    → (not_before kind (date_of loc today) ≤ to)
      × ((row : Task) × (find_task uid id t.tasks ≡ some row) × IsReopened loc kind to task row)
      × (others uid id t.tasks ≡ others uid id s.tasks)
advance-IsReopened loc skip uid id today s m t task kind start to found sits lands small h =
    let a = advance_lem loc skip uid id today s m t h in
    let same : a.task ≡ task = cc in
    let same_kind : a.kind ≡ kind = cc in
    let same_start : a.start ≡ start = cc in
    let same_to : a.to ≡ to = cc in
    let from = at utc a.start 0 in
    let keeps = kept_keys uid id loc a.kind from a.to in
    let row = moved_row loc a.kind from a.to a.task in
    let reopened : IsReopened loc kind to task row =
      subst (λ k. IsReopened loc k to task row) same_kind
        (subst (λ d. IsReopened loc a.kind d task row) same_to
          (subst (λ x. IsReopened loc a.kind a.to x row) same
            (moved_row-IsReopened loc a.kind from a.to a.task (rw same_to small)))) in
    let far = earliest-le loc skip uid id today s m t a in
    (
      subst (λ k. not_before k (date_of loc today) ≤ to) same_kind
          (subst (λ d. not_before a.kind (date_of loc today) ≤ d) same_to far),
      (row, new_row loc skip uid id today s m t a, reopened),
      ap (others uid id) (new_tasks loc skip uid id today s m t a)
          ∙ others_same uid id (moved_row loc a.kind from a.to) s.tasks keeps,
    )
