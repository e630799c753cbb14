-- ===== src/TaskRepeat/Stored.antt =====
-- What `Fit` leaves in the tables.
use sajni_api.Prelude.{
  ℕ, true, false, Option, none, some, List, [], ◌∷◌, String, ◌≡◌, arith, Bool-cases, Option-cases,
  Result-cases, inl, inr, refl, sym, subst, ap, ◌∙◌, Result, ok, err, ok_of_bind,
}
use sajni_api.Reminder.Rule.{Rule, no_rule, recurring}
use sajni_api.TaskRepeat.Rules.{Scope, Error, normalize}
use sajni_api.TaskRepeat.Fitting.{normalize_again}
use sajni_api.TaskRepeat.Advance.{
  Task, Store, scope, is_row, find_task, update_task, encode, or_none, fit_rule, fit,
}
use sajni_api.TaskRepeat.Advance.Lapse.{find_update}

abbrev with_rule : Rule → Task → Task
with_rule r task = record task { recurrence = r }

update_twice :
    (uid : String) (id : ℕ) (r : Rule) (tasks : List Task)
    → update_task uid id (with_rule r) (update_task uid id (with_rule r) tasks)
      ≡ update_task uid id (with_rule r) tasks
unfolding update_task is_row
update_twice uid id r [] = refl
update_twice uid id r (task ∷ tasks) =
    let rest = update_twice uid id r tasks in
    elim (Bool-cases (is_row uid id task)) [ inl own ↦ ground arith | inr other ↦ ground arith ]

-- A rule that `Fit` without a rule stores again.
IsStored : Scope → Rule → Type 0
IsStored sc r = or_none (normalize r sc) ≡ r

none-IsStored : (sc : Scope) → IsStored sc no_rule
unfolding IsStored normalize recurring encode
none-IsStored sc = refl

encode-recurring : (r : Rule) → recurring r ≡ true → encode r ≡ r
unfolding encode
encode-recurring r h = rw h refl

encode-once : (r : Rule) → recurring r ≡ false → encode r ≡ no_rule
unfolding encode
encode-once r h = rw h refl

encode-IsStored : (rule r : Rule) (sc : Scope) → normalize rule sc ≡ ok r → IsStored sc (encode r)
unfolding IsStored
encode-IsStored rule r sc h = elim (Bool-cases (recurring r)) [
  | inl repeats ↦
      let same = encode-recurring r repeats in
      subst (IsStored sc) (sym same) (ap or_none (normalize_again rule r sc h).1 ∙ same)
  | inr once ↦ subst (IsStored sc) (sym (encode-once r once)) (none-IsStored sc)
]

ok_same {ℓ} : {A : Type ℓ} {a b : A} → ◌≡◌ {A = Result Error A} (ok a) (ok b) → a ≡ b
ok_same h = cc

fail_not {ℓ} : {A : Type ℓ} {e : Error} {a : A} → ◌≡◌ {A = Result Error A} (err e) (ok a) → ⊥
fail_not h = cc

fit_rule-IsStored :
    (task : Task) (rule : Option Rule) (r : Rule)
    → fit_rule task rule ≡ ok r
    → IsStored (scope task) r
unfolding fit_rule
fit_rule-IsStored task none r h = elim (Result-cases (normalize task.recurrence (scope task))) [
  | inl (v, e) ↦
      subst (IsStored (scope task)) (ok_same (rw e at h))
        (encode-IsStored task.recurrence v (scope task) e)
  | inr (failure, e) ↦
      subst (IsStored (scope task)) (ok_same (rw e at h)) (none-IsStored (scope task))
]
fit_rule-IsStored task (some rule) r h =
    let (v, e, last) = ok_of_bind {rest = λ v. ok (encode v)} (normalize rule (scope task)) h in
    subst (IsStored (scope task)) (ok_same last) (encode-IsStored rule v (scope task) e)

fit_rule_again :
    (task : Task) (r : Rule) → IsStored (scope task) r → fit_rule (with_rule r task) none ≡ ok r
unfolding fit_rule scope IsStored
fit_rule_again task r h = ap ok h

keeps_keys :
    (uid : String) (id : ℕ) (r : Rule) (t : Task) → is_row uid id (with_rule r t) ≡ is_row uid id t
unfolding is_row
keeps_keys uid id r t = refl

-- A `Fit` with no rule after a `Fit` changes nothing.
pub fit_again :
    (uid : String) (id : ℕ) (rule : Option Rule) (s t : Store)
    → fit uid id rule s ≡ ok t
    → fit uid id none t ≡ ok t
unfolding fit
fit_again uid id rule s t h = elim (Option-cases (find_task uid id s.tasks)) [
  | inl e ↦ absurd (fail_not (rw (fit, e) at h))
  | inr (task, e) ↦ elim (Result-cases (fit_rule task rule)) [
    | inr (failure, f) ↦ absurd (fail_not (rw (fit, e, f) at h))
    | inl (r, f) ↦
        let same : record s { tasks = update_task uid id (with_rule r) s.tasks } ≡ t =
          ok_same (rw (fit, e, f) at h) in
        let found = find_update uid id (with_rule r) s.tasks (keeps_keys uid id r) e in
        let fits = fit_rule_again task r (fit_rule-IsStored task rule r f) in
        subst (λ x. fit uid id none x ≡ ok x) same
          (rw (fit, found, fits, update_twice uid id r s.tasks) refl)
  ]
]
