-- ===== src/Plan/Saved/Armed.antt =====
-- The alerts that `Save` and `Advance` leave: the next start of a plan that notifies.
use sajni_api.Prelude.{
  ℕ, ◌+◌, ◌-◌, ◌*◌, ◌≤◌, ◌<◌, ◌≡◌, ◌==◌, true, false, Option, none, some, List, [], ◌∷◌, String,
  length, Result, ok, ◌>>=◌, ok_of_bind, contains, All, arith, refl, sym, ap, subst, ◌∙◌,
  Bool-cases, inl, inr,
}
use sajni_api.Calendar.Text.{Text}
use sajni_api.Calendar.Zone.{Zone, IsSteady, day_length, local_day}
use sajni_api.Plan.{PlanRow, PlanError, get, start_clock}
use sajni_api.Plan.First.{IsStart, next-IsStart}
use sajni_api.Plan.Saved.Table.{IsPlan, IsTable, IsAccepted, IsValidTable, store_plan_lem}
use sajni_api.Plan.Saved.Rows.{row_of_some}
use sajni_api.Plan.Input.{TextOps, SaveInput, is_clock, normalize}
use sajni_api.Plan.Input.Ready.{in_week, normalize-IsReady, plan_of_ok}
use sajni_api.Plan.Saved.{
  Plans, found, new_plan, store_plan, alert_of, save, find_plan, rearm, advance,
}

-- `fmt.Sscanf` with "%d:%d" on a clock time reads its two numbers.
abbrev pub IsClockScan : (Text → ℕ × ℕ) → Type 0
IsClockScan scan =
    (a b d e : ℕ)
    → is_clock (a ∷ b ∷ b':' ∷ d ∷ e ∷ []) ≡ true
    → scan (a ∷ b ∷ b':' ∷ d ∷ e ∷ [])
      ≡ ((a - b'0') * 10 + (b - b'0'), (d - b'0') * 10 + (e - b'0'))

-- The alert of a plan that notifies is its first start after a time; another has none.
pub record IsArmed (scan : Text → ℕ × ℕ) (loc : Zone) (after : ℕ) (row : PlanRow) : Type 0 where
  pub silent : row.notify ≡ false → row.next_alert_at ≡ none
  pub armed :
      row.notify ≡ true
      → (t : ℕ) × (row.next_alert_at ≡ some t)
        × IsStart loc row.weekdays (start_clock scan row.start_time) after t
        × ((u : ℕ)
            → 1 ≤ local_day loc u
            → IsStart loc row.weekdays (start_clock scan row.start_time) after u
            → t ≤ u)

first_weekday :
    (days : List ℕ)
    → in_week days ≡ true
    → 1 ≤ length days
    → (w : ℕ) × (w ≤ 6) × (contains days w ≡ true)
first_weekday [] h some_day = absurd (omega arith)
first_weekday (w ∷ days) h some_day = (w, ground arith, ground arith)

small_clock :
    (a b d e : ℕ)
    → is_clock (a ∷ b ∷ b':' ∷ d ∷ e ∷ []) ≡ true
    → (((a - b'0') * 10 + (b - b'0')) * 60 + ((d - b'0') * 10 + (e - b'0'))) * 60000000000
      < day_length
unfolding is_clock
small_clock a b d e h = ground arith

clock_fits :
    (scan : Text → ℕ × ℕ) (text : Text)
    → IsClockScan scan
    → is_clock text ≡ true
    → start_clock scan text < day_length
unfolding is_clock start_clock
clock_fits scan (a ∷ b ∷ c ∷ d ∷ e ∷ []) reads h =
    let colon : c ≡ b':' = ground arith in
    subst
      (λ x.
        is_clock (a ∷ b ∷ x ∷ d ∷ e ∷ []) ≡ true
        → start_clock scan (a ∷ b ∷ x ∷ d ∷ e ∷ []) < day_length)
      (sym colon) (λ k. rw (start_clock, reads a b d e k) (small_clock a b d e k)) h
clock_fits scan _ reads h = ground arith

module _ (scan : Text → ℕ × ℕ) (zone_of : String → Zone) where
  alert-IsArmed :
      (row : PlanRow) (after : ℕ)
      → IsSteady (zone_of row.user_id)
      → 1 ≤ local_day (zone_of row.user_id) after
      → IsClockScan scan
      → IsPlan row.weekdays row.start_time
      → row.next_alert_at
        ≡ alert_of scan row.notify row.weekdays row.start_time (zone_of row.user_id) after
      → IsArmed scan (zone_of row.user_id) after row
  unfolding alert_of
  alert-IsArmed row after steady first reads plan h =
      let loc = zone_of row.user_id in
      let (w, small, has) = first_weekday row.weekdays plan.week plan.some_day in
      let (t, e, start, least) =
        next-IsStart scan row.weekdays row.start_time loc after w steady first
          (clock_fits scan row.start_time reads plan.timed) small has in
      record {
        silent = λ off. h ∙ rw (alert_of, off) refl;
        armed = λ on. (t, h ∙ rw (alert_of, on) e, start, least);
      }

pub found_lem {ℓ κ} :
    {A : Type ℓ} {B : Type κ} {rest : A → Result PlanError B} {last : B} (o : Option A)
    → (found o >>= rest) ≡ ok last
    → (a : A) × (o ≡ some a) × (rest a ≡ ok last)
found_lem none h = cc
found_lem (some a) h = (a, refl, h)

-- A saved plan that notifies has its alert at its first start after now, and one that does not has none.
-- Where every plan of the table had an id that was given out, a name that is not empty and has at most
-- 80 runes, a colour that is empty or a hex value, one or more weekdays from 0 to 6 in order and none
-- twice, and a clock time as its start, so does every plan of the table that `Save` leaves. The user's
-- clocks are never changed, now is past the first day of year 1, and `Sscanf` reads the two numbers of a
-- clock time.
pub save-IsArmed :
    (ops : TextOps) (scan : Text → ℕ × ℕ) (zone_of : String → Zone) (now : ℕ) (uid : String)
    (id : ℕ) (input : SaveInput) (s : Plans) (done : PlanRow × Plans)
    → IsValidTable ops s
    → IsSteady (zone_of uid)
    → 1 ≤ local_day (zone_of uid) now
    → IsClockScan scan
    → save ops scan zone_of now uid id input s ≡ ok done
    → IsArmed scan (zone_of uid) now done.0 × IsValidTable ops done.1
unfolding save new_plan IsValidTable
save-IsArmed ops scan zone_of now uid id input s done table steady first reads h =
    let (c, e1, h1) = ok_of_bind (normalize ops input) h in
    let alert = alert_of scan c.notify c.weekdays c.start_time (zone_of uid) now in
    let (stored, e2, h2) = ok_of_bind (store_plan uid id c alert s) h1 in
    let (row, e3, h3) = found_lem (get uid stored.0 stored.1.rows) h2 in
    let ready = normalize-IsReady ops input c e1 in
    let plan : IsPlan c.weekdays c.start_time = record {
      week = ready.week;
      some_day = ready.some_day;
      timed = ready.timed;
    } in
    let accepted : IsAccepted ops c.name c.color c.weekdays c.start_time = record {
      named = ready.named;
      short = ready.short;
      colored = ready.colored;
      ascending = ready.ascending;
      plan = plan;
    } in
    let (there, kept) = store_plan_lem ops uid id c alert s stored table accepted e2 in
    let same = row_of_some (sym e3 ∙ there) in
    let new = new_plan uid stored.0 c alert in
    let armed = alert-IsArmed scan zone_of new now steady first reads plan refl in
    subst (λ (x : PlanRow × Plans). IsArmed scan (zone_of uid) now x.0 × IsValidTable ops x.1)
      (plan_of_ok h3) (subst (IsArmed scan (zone_of uid) now) (sym same) armed, kept)

-- The row that an alert belongs to, once it is moved.
rearm_lem :
    (P : PlanRow → Type 0) (id : ℕ) (alert : Option ℕ) (rows : List PlanRow) {row : PlanRow}
    → find_plan id rows ≡ some row
    → All P rows
    → (find_plan id (rearm id alert rows)
        ≡ some (record row { next_alert_at = alert; alert_claimed_until = none }))
      × P row
unfolding find_plan rearm
rearm_lem P id alert [] h all = cc
rearm_lem P id alert (r ∷ rows) {row} h all = elim (Bool-cases (r.id == id)) [
  | inl own ↦
      let here : some r ≡ some row = rw own at h in
      let same = row_of_some here in
      (
        rw (own, own)
            (ap
              (λ (x : PlanRow).
                some (record x { next_alert_at = alert; alert_claimed_until = none }))
              same),
        subst P same all.0,
      )
  | inr other ↦ rw (other, other) (rearm_lem P id alert rows {row = row} (rw other at h) all.1)
]

-- The plan that `Advance` moved has its alert at its first start after the given time where it notifies,
-- and none otherwise, and it is no longer claimed. Every plan of the table has an id that was given out,
-- one or more weekdays, all from 0 to 6, and a clock time as its start; no user's clocks are changed, the
-- given time is past the first day of year 1, and `Sscanf` reads the two numbers of a clock time.
pub advance-IsArmed :
    (scan : Text → ℕ × ℕ) (zone_of : String → Zone) (id after : ℕ) (s t : Plans)
    → IsTable s
    → ((uid : String) → IsSteady (zone_of uid))
    → ((uid : String) → 1 ≤ local_day (zone_of uid) after)
    → IsClockScan scan
    → advance scan zone_of id after s ≡ ok t
    → (row : PlanRow) × (find_plan id t.rows ≡ some row)
      × (row.alert_claimed_until ≡ none)
      × IsArmed scan (zone_of row.user_id) after row
unfolding advance IsTable
advance-IsArmed scan zone_of id after s t table steady first reads h =
    let (row, e, h1) = found_lem (find_plan id s.rows) h in
    let alert = alert_of scan row.notify row.weekdays row.start_time (zone_of row.user_id) after in
    let moved : PlanRow = record row { next_alert_at = alert; alert_claimed_until = none } in
    let (there, own) =
      rearm_lem (λ row. (row.id < s.next_id) × IsPlan row.weekdays row.start_time) id alert s.rows e
        table in
    let armed =
      alert-IsArmed scan zone_of moved after (steady row.user_id) (first row.user_id) reads own.1
        refl in
    subst
      (λ (x : Plans).
        (row : PlanRow) × (find_plan id x.rows ≡ some row)
        × (row.alert_claimed_until ≡ none)
        × IsArmed scan (zone_of row.user_id) after row)
      (plan_of_ok h1) (moved, there, refl, armed)
