-- ===== src/Plan/Landing.antt =====
-- Where `Occurrence` lets a task land.
use sajni_api.Prelude.{
  ℕ, ◌≤◌, ◌<◌, ◌≡◌, true, Option, none, some, List, String, Result, ok, err, arith, refl, sym, ap,
  ◌∙◌, subst, inl, inr, Bool-cases,
}
use sajni_api.Calendar.{year}
use sajni_api.Calendar.Text.{Text, parse_date, format_date, parse_date-format_date}
use sajni_api.Calendar.Zone.{Zone, IsSteady, day_length, local_day, clock}
use sajni_api.Reminder.Next.{is_empty}
use sajni_api.Reminder.Next.Fields.{at-IsAt}
use sajni_api.Plan.{
  PlanRow, PlanError, on, get, start_clock, start_at, next, given_day, next_one, occurrence,
}
use sajni_api.Plan.First.{IsStart, found-IsStart}

-- A task planned for `date` starts at `t`: the day is one of the plan's, and `t` is its start there.
pub record IsPlanned (loc : Zone) (weekdays : List ℕ) (time : ℕ) (date : Text) (t : ℕ)
    : Type 0 where
  pub on_date : parse_date date ≡ some (local_day loc t)
  pub runs : on weekdays (local_day loc t) ≡ true
  pub at_time : clock loc t ≡ time

same_of_ok :
    {date text : Text} {t u : ℕ}
    → ◌≡◌ {A = Result PlanError (Text × ℕ)} (ok (text, u)) (ok (date, t))
    → (text ≡ date) × (u ≡ t)
same_of_ok h = (cc, cc)

error_not :
    {e : PlanError} {x : Text × ℕ} → ◌≡◌ {A = Result PlanError (Text × ℕ)} (err e) (ok x) → ⊥
error_not h = cc

module _ (scan : Text → ℕ × ℕ) (loc : Zone) (steady : IsSteady loc) (row : PlanRow)
    (fits : start_clock scan row.start_time < day_length) where
  given-IsPlanned :
      (date text : Text) (day t : ℕ)
      → parse_date text ≡ some day
      → 1 ≤ day
      → given_day scan row loc text (some day) ≡ ok (date, t)
      → IsPlanned loc row.weekdays (start_clock scan row.start_time) date t
  unfolding given_day start_at
  given-IsPlanned date text day t parsed second h =
      let midnight = at-IsAt loc day 0 steady second (omega arith) in
      let lands = at-IsAt loc day (start_clock scan row.start_time) steady second fits in
      let here = midnight.on_day in
      elim (Bool-cases (on row.weekdays day)) [
        | inr off ↦ absurd (error_not (rw (given_day, here, off) at h))
        | inl runs ↦
            let (same, start) = same_of_ok (rw (given_day, here, runs) at h) in
            subst (λ x. IsPlanned loc row.weekdays (start_clock scan row.start_time) x t) same
              (subst (λ x. IsPlanned loc row.weekdays (start_clock scan row.start_time) text x)
                start
                (record {
                  on_date = parsed ∙ ap some (sym lands.on_day);
                  runs = ap (on row.weekdays) lands.on_day ∙ runs;
                  at_time = lands.at_time;
                }))
      ]

  next-IsPlanned :
      (now t u : ℕ) (date : Text)
      → IsStart loc row.weekdays (start_clock scan row.start_time) now u
      → year (local_day loc u) ≤ 9999
      → next_one loc (some u) ≡ ok (date, t)
      → IsPlanned loc row.weekdays (start_clock scan row.start_time) date t
  unfolding next_one
  next-IsPlanned now t u date s small h =
      let (same, start) = same_of_ok h in
      subst (λ x. IsPlanned loc row.weekdays (start_clock scan row.start_time) x t) same
        (subst
          (λ x.
            IsPlanned loc row.weekdays (start_clock scan row.start_time)
              (format_date (local_day loc u)) x)
          start
          (record {
            on_date = parse_date-format_date (local_day loc u) small;
            runs = s.runs;
            at_time = s.at_time;
          }))

  one_day :
      (now t : ℕ) (date : Text)
      → 1 ≤ local_day loc now
      → year (local_day loc t) ≤ 9999
      → (o : Option ℕ) → next scan row.weekdays row.start_time loc now ≡ o
      → next_one loc o ≡ ok (date, t)
      → IsPlanned loc row.weekdays (start_clock scan row.start_time) date t
  unfolding next_one
  one_day now t date first small none e h = absurd (error_not h)
  one_day now t date first small (some u) e h =
      let start = found-IsStart scan row.weekdays row.start_time loc now u steady first fits e in
      let same = (same_of_ok h).1 in next-IsPlanned now t u date start (rw same small) h

  parsed_day :
      (t : ℕ) (date text : Text)
      → ((d : ℕ) → parse_date text ≡ some d → 1 ≤ d)
      → (o : Option ℕ) → parse_date text ≡ o
      → given_day scan row loc text o ≡ ok (date, t)
      → IsPlanned loc row.weekdays (start_clock scan row.start_time) date t
  unfolding given_day
  parsed_day t date text second none e h = absurd (error_not h)
  parsed_day t date text second (some d) e h = given-IsPlanned date text d t e (second d e) h

-- When `Occurrence` succeeds, on a given date or without one, the date that it returns is that of the
-- start in the zone, the plan runs on that day, and the start is at its time of day. This holds in a
-- zone whose clocks are never changed, from the second day of year 1 on and up to the year 9999.
pub occurrence-IsPlanned :
    (scan : Text → ℕ × ℕ) (loc : Zone) (now : ℕ) (uid : String) (id : ℕ) (text date : Text)
    (rows : List PlanRow) (row : PlanRow) (t : ℕ)
    → IsSteady loc
    → 1 ≤ local_day loc now
    → get uid id rows ≡ some row
    → start_clock scan row.start_time < day_length
    → ((d : ℕ) → parse_date text ≡ some d → 1 ≤ d)
    → year (local_day loc t) ≤ 9999
    → occurrence scan loc now uid id text rows ≡ ok (date, t)
    → IsPlanned loc row.weekdays (start_clock scan row.start_time) date t
unfolding occurrence
occurrence-IsPlanned scan loc now uid id text date rows row t steady first found fits second small
      h =
    elim (Bool-cases (is_empty text)) [
      | inl nothing ↦
          one_day scan loc steady row fits now t date first small
            (next scan row.weekdays row.start_time loc now) refl
            (rw (occurrence, found, nothing) at h)
      | inr given ↦
          parsed_day scan loc steady row fits t date text second (parse_date text) refl
            (rw (occurrence, found, given) at h)
    ]
