-- ===== src/TaskRepeat/Advance/Series.antt =====
-- Which date the loop of `Next` stops at.
use sajni_api.Prelude.{
  ℕ, zero, suc, ◌+◌, ◌-◌, ◌*◌, ◌≤◌, ◌<◌, ◌≡◌, ◌≢◌, ltb, true, false, arith, refl, Bool-cases, subst,
  sym, ◌∙◌, inl, inr, ◌⊎◌,
}
use sajni_api.Calendar.{date, year, month as month_of}
use sajni_api.Calendar.Civil.{field_bounds, month_index-fields}
use sajni_api.Calendar.Zone.{IsSteady, utc, local_day, clock, at}
use sajni_api.Reminder.Rule.{Rule, recurring}
use sajni_api.Reminder.Normal.{IsNormal}
use sajni_api.Reminder.Next.{Outcome, occurs, ended, panics}
use sajni_api.Reminder.Next.Fields.{add_date-IsAt}
use sajni_api.Reminder.Next.Occurrence.{next-IsLater, later_start}
use sajni_api.TaskRepeat.Rules.{Kind, day, week, month, step, advance_date, next_loop, next}

-- From `cur`, `t` is the first date of the series that is not before `not_before`.
pub data FirstFrom (rule : Rule) (kind : Kind) (from not_before : ℕ) : ℕ → ℕ → Type 0 where
  here :
      {cur t : ℕ}
      → advance_date rule kind from cur ≡ occurs t
      → not_before ≤ t
      → FirstFrom rule kind from not_before cur t
  past :
      {cur s t : ℕ}
      → advance_date rule kind from cur ≡ occurs s
      → s < not_before
      → FirstFrom rule kind from not_before s t
      → FirstFrom rule kind from not_before cur t

pub utc-IsSteady : IsSteady utc
utc-IsSteady = record {
  wall-instant = λ w h. refl;
  instant_mono = λ w v h lt. lt;
  instant-wall = λ t h. refl;
}

pub Outcome-cases : (o : Outcome) → ((t : ℕ) × (o ≡ occurs t)) ⊎ ((o ≡ ended) ⊎ (o ≡ panics))
Outcome-cases (occurs t) = inl (t, refl)
Outcome-cases ended = inr (inl refl)
Outcome-cases panics = inr (inr refl)

of_occurs : {a b : ℕ} → occurs a ≡ occurs b → a ≡ b
of_occurs h = cc

ended_not : {t : ℕ} → ended ≢ occurs t
ended_not h = cc

panics_not : {t : ℕ} → panics ≢ occurs t
panics_not h = cc

step_pos : (rule : Rule) → 1 ≤ step rule
unfolding step
step_pos rule = ground arith

module _ (rule : Rule) (kind : Kind) (from not_before : ℕ) where
  loop_stop :
      (left cur : ℕ) {s : ℕ}
      → advance_date rule kind from cur ≡ occurs s
      → ltb s not_before ≡ false
      → next_loop rule kind from not_before (suc left) cur ≡ occurs s
  unfolding next_loop
  loop_stop left cur e reached = rw (next_loop, e, reached) refl

  loop_go :
      (left cur : ℕ) {s : ℕ}
      → advance_date rule kind from cur ≡ occurs s
      → ltb s not_before ≡ true
      → next_loop rule kind from not_before (suc left) cur
        ≡ next_loop rule kind from not_before left s
  unfolding next_loop
  loop_go left cur e before = rw (next_loop, e, before) refl

  loop_only :
      (left cur : ℕ) {t : ℕ}
      → next_loop rule kind from not_before (suc left) cur ≡ occurs t
      → (s : ℕ) × (advance_date rule kind from cur ≡ occurs s)
  unfolding next_loop
  loop_only left cur {t} h = elim (Outcome-cases (advance_date rule kind from cur)) [
    | inr (inl e) ↦ absurd (ended_not {t = t} (rw (next_loop, e) at h))
    | inr (inr e) ↦ absurd (panics_not {t = t} (rw (next_loop, e) at h))
    | inl found ↦ found
  ]

  loop_first :
      (left cur : ℕ) {t : ℕ}
      → next_loop rule kind from not_before left cur ≡ occurs t
      → FirstFrom rule kind from not_before cur t
  unfolding next_loop
  loop_first zero cur {t} h = absurd (ended_not {t = t} h)
  loop_first (suc left) cur {t} h =
      let (s, e) = loop_only left cur h in
      elim (Bool-cases (ltb s not_before)) [
        | inl before ↦
            past e (ground arith) (loop_first left s (sym (loop_go left cur e before) ∙ h))
        | inr reached ↦
            let same : s ≡ t = of_occurs (sym (loop_stop left cur e reached) ∙ h) in
            subst (FirstFrom rule kind from not_before cur) same (here e (ground arith))
      ]

-- A midnight from the second day of year 1 on.
pub record IsDate (t : ℕ) : Type 0 where
  pub second_day : 1 ≤ local_day utc t
  pub midnight : clock utc t ≡ 0

at_midnight : (d : ℕ) → (local_day utc (at utc d 0) ≡ d) × (clock utc (at utc d 0) ≡ 0)
unfolding at local_day clock
at_midnight d = (omega arith, omega arith)

month_later : (rule : Rule) (d : ℕ) → d < date (year d) (month_of d + step rule) 1
unfolding date
month_later rule d =
    let many = step_pos rule in
    let fields = month_index-fields d in
    let bounds = field_bounds d in
    let starts = later_start d (year d * 12 + (month_of d + step rule) - 1) (omega arith) in
    omega arith

module _ (rule : Rule) (kind : Kind) (from not_before : ℕ) (kept : kind ≡ day → IsNormal rule)
    (start : IsDate from) where
  advance_later :
      (k : Kind) (cur : ℕ) {t : ℕ}
      → k ≡ kind
      → IsDate cur
      → advance_date rule k from cur ≡ occurs t
      → (local_day utc cur < local_day utc t) × (clock utc t ≡ 0)
  unfolding advance_date
  advance_later week cur {t} e h moves =
      let many = step_pos rule in
      let lands = add_date-IsAt utc cur (7 * step rule) utc-IsSteady h.second_day in
      subst (λ x. (local_day utc cur < local_day utc x) × (clock utc x ≡ 0)) (of_occurs moves)
        (rw lands.on_day (omega arith), lands.at_time ∙ h.midnight)
  advance_later month cur {t} e h moves =
      subst (λ x. (local_day utc cur < local_day utc x) × (clock utc x ≡ 0)) (of_occurs moves)
        (let (same, midnight) =
            at_midnight
              (date (year (local_day utc cur)) (month_of (local_day utc cur) + step rule) 1) in
          (rw same (month_later rule (local_day utc cur)), midnight))
  advance_later day cur {t} e h moves =
      let later =
        next-IsLater utc from cur 1 rule t utc-IsSteady (kept (sym e)) h.second_day
          (h.midnight ∙ sym start.midnight) moves in
      (later.later, later.at_time ∙ start.midnight)

  first_later :
      {cur t : ℕ}
      → IsDate cur
      → FirstFrom rule kind from not_before cur t
      → (not_before ≤ t) × (local_day utc cur < local_day utc t) × (clock utc t ≡ 0)
  first_later {cur} {t} h (here moves reached) =
      let (later, midnight) = advance_later kind cur refl h moves in (reached, later, midnight)
  first_later {cur} h (past {cur = _} {s = s} moves before more) =
      let (later, midnight) = advance_later kind cur refl h moves in
      let rest =
        first_later {cur = s} (record { second_day = omega arith; midnight = midnight }) more in
      (rest.0, omega arith, rest.2)

-- For a series that starts at a midnight after the first day of year 1, and for a day task with a rule
-- that `Normalize` accepted: a date that `Next` returns is the first one of the series that is not
-- before `not_before`, and it is a midnight of a later day than the start.
pub next_first :
    (rule : Rule) (kind : Kind) (from not_before t : ℕ)
    → (kind ≡ day → IsNormal rule)
    → IsDate from
    → next rule kind from not_before ≡ occurs t
    → FirstFrom rule kind from not_before from t
      × (not_before ≤ t)
      × (local_day utc from < local_day utc t)
      × (clock utc t ≡ 0)
unfolding next
next_first rule kind from not_before t kept start h =
    let series = loop_first rule kind from not_before 10000 from {t = t} (ground arith) in
    let (reached, later, midnight) =
      first_later rule kind from not_before kept start start series in
    (series, reached, later, midnight)

first_reached :
    {rule : Rule} {kind : Kind} {from not_before cur t : ℕ}
    → FirstFrom rule kind from not_before cur t
    → not_before ≤ t
first_reached (here moves lands) = lands
first_reached (past moves before more) = first_reached more

pub next_reached :
    (rule : Rule) (kind : Kind) (from not_before t : ℕ)
    → next rule kind from not_before ≡ occurs t
    → not_before ≤ t
unfolding next
next_reached rule kind from not_before t h =
    first_reached (loop_first rule kind from not_before 10000 from {t = t} (ground arith))

module _ (rule : Rule) (kind : Kind) (from not_before : ℕ) (wide : kind ≢ day) where
  always : (k : Kind) (cur : ℕ) → k ≢ day → (t : ℕ) × (advance_date rule k from cur ≡ occurs t)
  unfolding advance_date
  always week cur h = (_, refl)
  always month cur h = (_, refl)
  always day cur h = absurd (h refl)

  midnight_le :
      (s : ℕ)
      → clock utc s ≡ 0
      → clock utc not_before ≡ 0
      → local_day utc not_before ≤ local_day utc s
      → not_before ≤ s
  unfolding local_day clock
  midnight_le s e f h = omega arith

  loop_found :
      (left cur : ℕ)
      → IsDate from
      → IsDate cur
      → clock utc not_before ≡ 0
      → local_day utc not_before ≤ local_day utc cur + suc left
      → (t : ℕ) × (next_loop rule kind from not_before (suc left) cur ≡ occurs t)
  loop_found zero cur start h ends enough =
      let (s, e) = always kind cur wide in
      let (later, midnight) =
        advance_later rule kind from not_before (λ f. absurd (wide f)) start kind cur refl h e in
      let order = midnight_le s midnight ends (omega arith) in
      (s, loop_stop rule kind from not_before zero cur e (ground arith))
  loop_found (suc left) cur start h ends enough =
      let (s, e) = always kind cur wide in
      let (later, midnight) =
        advance_later rule kind from not_before (λ f. absurd (wide f)) start kind cur refl h e in
      elim (Bool-cases (ltb s not_before)) [
        | inr reached ↦ (s, loop_stop rule kind from not_before (suc left) cur e reached)
        | inl before ↦
            let (t, found) =
              loop_found left s start (record { second_day = omega arith; midnight = midnight })
                ends (omega arith) in
            (t, loop_go rule kind from not_before (suc left) cur e before ∙ found)
      ]

-- A week or month task that repeats always has a next date when the date to reach, a midnight, is
-- at most 10000 days on.
pub next_found :
    (rule : Rule) (kind : Kind) (from not_before : ℕ)
    → kind ≢ day
    → recurring rule ≡ true
    → IsDate from
    → clock utc not_before ≡ 0
    → local_day utc not_before ≤ local_day utc from + 10000
    → (t : ℕ) × (next rule kind from not_before ≡ occurs t)
unfolding next
next_found rule kind from not_before wide repeats start ends enough =
    rw repeats (loop_found rule kind from not_before wide 9999 from start start ends enough)
