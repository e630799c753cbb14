-- ===== src/Plan/Saved/Table.antt =====
-- The table of plans, and what `Save` stores in it: every plan is one that `Normalize` accepts.
use text.Mathlib.TextPositions.{eq_refl}
use sajni_api.Prelude.{
  append-All, ℕ, ◌+◌, ◌≤◌, ◌<◌, ◌≡◌, ◌==◌, true, false, Option, some, List, [], ◌∷◌, ◌++◌, String,
  length, ok, All, arith, refl, ap, subst, ◌∙◌, Bool-cases, Option-cases, inl, inr,
}
use sajni_api.Calendar.Text.{Text}
use sajni_api.Plan.{PlanRow, get}
use sajni_api.Plan.Saved.Rows.{get-update_plan, get_new, get-is_plan, own_plan}
use sajni_api.Reminder.Rule.{is_empty}
use sajni_api.Prelude.{◌||◌}
use sajni_api.Plan.Input.{TextOps, Checked, is_color, is_clock}
use sajni_api.Plan.Input.Ready.{is_ascending, in_week, not_ok, plan_of_ok}
use sajni_api.Plan.Saved.{Plans, is_plan, update_plan, new_plan, replaced, store_plan}

-- What an alert needs of a plan: some weekday, all of them weekdays, and a clock time.
pub record IsPlan (weekdays : List ℕ) (start_time : Text) : Type 0 where
  pub week : in_week weekdays ≡ true
  pub some_day : 1 ≤ length weekdays
  pub timed : is_clock start_time ≡ true

-- The table: every plan has an id that was given out, and what an alert needs.
unfoldable pub IsTable : Plans → Type 0
IsTable s = All (λ row. (row.id < s.next_id) × IsPlan row.weekdays row.start_time) s.rows

-- What `Normalize` asks of a plan: a name that is not empty and has at most 80 runes, a colour that is
-- empty or a hex value, some weekday, all of them from 0 to 6, in order and none twice, and a start time
-- as a clock shows it.
pub record IsAccepted (ops : TextOps) (name color : Text) (weekdays : List ℕ) (start_time : Text)
    : Type 0 where
  pub named : is_empty name ≡ false
  pub short : ops.runes name ≤ 80
  pub colored : (is_empty color || is_color color) ≡ true
  pub ascending : is_ascending weekdays ≡ true
  pub plan : IsPlan weekdays start_time

abbrev AcceptedRow : TextOps → ℕ → PlanRow → Type 0
AcceptedRow ops n row = (row.id < n) × IsAccepted ops row.name row.color row.weekdays row.start_time

-- Every plan of the table has an id that was given out, and all that `Normalize` asks of a plan.
unfoldable pub IsValidTable : TextOps → Plans → Type 0
IsValidTable ops s = All (AcceptedRow ops s.next_id) s.rows

grow :
    (ops : TextOps) (n m : ℕ) (rows : List PlanRow)
    → n ≤ m
    → All (AcceptedRow ops n) rows
    → All (AcceptedRow ops m) rows
grow ops n m [] le all = tt
grow ops n m (row ∷ rows) le all = ((omega (arith, all.0.0), all.0.1), grow ops n m rows le all.1)

older :
    (ops : TextOps) (n : ℕ) (rows : List PlanRow)
    → All (AcceptedRow ops n) rows
    → All (λ row. row.id < n) rows
older ops n [] all = tt
older ops n (row ∷ rows) all = (all.0.0, older ops n rows all.1)

All-update_plan {κ} :
    (P : PlanRow → Type κ) (uid : String) (id : ℕ) (f : PlanRow → PlanRow) (rows : List PlanRow)
    → ((row : PlanRow) → P row → P (f row))
    → All P rows
    → All P (update_plan uid id f rows)
unfolding update_plan
All-update_plan P uid id f [] keeps all = tt
All-update_plan P uid id f (r ∷ rows) keeps all = elim (Bool-cases (is_plan uid id r)) [
  | inl own ↦ rw (update_plan, own) (keeps r all.0, All-update_plan P uid id f rows keeps all.1)
  | inr other ↦ rw (update_plan, other) (all.0, All-update_plan P uid id f rows keeps all.1)
]

new-is_plan :
    (uid : String) (id : ℕ) (c : Checked) (alert : Option ℕ)
    → is_plan uid id (new_plan uid id c alert) ≡ true
unfolding is_plan new_plan
new-is_plan uid id c alert = rw (eq_refl uid) (ground arith)

-- The row that `Save` stored, and the table.
pub store_plan_lem :
    (ops : TextOps) (uid : String) (id : ℕ) (c : Checked) (alert : Option ℕ) (s : Plans)
    (stored : ℕ × Plans)
    → IsValidTable ops s
    → IsAccepted ops c.name c.color c.weekdays c.start_time
    → store_plan uid id c alert s ≡ ok stored
    → (get uid stored.0 stored.1.rows ≡ some (new_plan uid stored.0 c alert))
      × IsValidTable ops stored.1
unfolding store_plan IsValidTable
store_plan_lem ops uid id c alert s stored table plan h = elim (Bool-cases (id == 0)) [
  | inl new ↦
      let row = new_plan uid s.next_id c alert in
      let t : Plans = record s { rows = s.rows ++ row ∷ []; next_id = s.next_id + 1 } in
      subst
        (λ (x : ℕ × Plans).
          (get uid x.0 x.1.rows ≡ some (new_plan uid x.0 c alert)) × IsValidTable ops x.1)
        (plan_of_ok (rw (store_plan, new) at h))
        (
          get_new uid s.next_id row s.rows (older ops s.next_id s.rows table)
              (new-is_plan uid s.next_id c alert),
          append-All (AcceptedRow ops (s.next_id + 1)) s.rows (row ∷ [])
              (grow ops s.next_id (s.next_id + 1) s.rows (omega arith) table)
              (unfold new_plan in (omega arith, plan), tt),
        )
  | inr old ↦ elim (Option-cases (get uid id s.rows)) [
    | inl nothing ↦ absurd (not_ok (rw (store_plan, old, nothing) at h))
    | inr (row, e) ↦
        let own = own_plan uid id row (get-is_plan uid id s.rows e) in
        let same : replaced c alert row ≡ new_plan uid id c alert =
          unfold replaced in
          ap (λ u. new_plan u row.id c alert) own.0 ∙ ap (λ i. new_plan uid i c alert) own.1 in
        subst
          (λ (x : ℕ × Plans).
            (get uid x.0 x.1.rows ≡ some (new_plan uid x.0 c alert)) × IsValidTable ops x.1)
          (plan_of_ok (rw (store_plan, old, e) at h))
          (
            get-update_plan uid id (replaced c alert) s.rows
                  (λ r. unfold is_plan replaced new_plan in refl) e
                ∙ ap (λ r. some r) same,
            All-update_plan (AcceptedRow ops s.next_id) uid id (replaced c alert) s.rows
                (λ r k. unfold replaced new_plan in (k.0, plan)) table,
          )
  ]
]
