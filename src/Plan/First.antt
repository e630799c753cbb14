-- ===== src/Plan/First.antt =====
-- `Next` finds the first start of the plan after a time.
use sajni_api.Prelude.{
  ℕ, zero, suc, ◌+◌, ◌-◌, ◌*◌, ◌/◌, ◌%◌, ◌≤◌, ◌<◌, ◌≡◌, ◌≢◌, Bool, true, false, ◌&&◌, none, some,
  List, ltb, contains, arith, refl, sym, ap, ◌∙◌, subst, inl, inr, lt→ltb, ◌==◌, Bool-cases,
  Option-cases, if◌then◌else◌,
}
use sajni_api.Calendar.{weekday}
use sajni_api.Calendar.Text.{Text}
use sajni_api.Calendar.Zone.{Zone, IsSteady, day_length, local_day, clock, at}
use sajni_api.Reminder.Next.Fields.{IsAt, add_date-IsAt, at-IsAt}
use sajni_api.Plan.{on, start_clock, start_at, next_day, next}

-- `t` is a start of the plan after a time.
pub record IsStart (loc : Zone) (weekdays : List ℕ) (time after t : ℕ) : Type 0 where
  pub later : after < t
  pub runs : on weekdays (local_day loc t) ≡ true
  pub at_time : clock loc t ≡ time

of_some : {a b : ℕ} → some a ≡ some b → a ≡ b
of_some h = cc

true_not : true ≢ false
true_not h = cc

some_not : {a : ℕ} → some a ≢ none
some_not h = cc

module _ (scan : Text → ℕ × ℕ) (weekdays : List ℕ) (text : Text) (loc : Zone) (after : ℕ)
    (steady : IsSteady loc) (first : 1 ≤ local_day loc after)
    (fits : start_clock scan text < day_length) where
  candidate : ℕ → ℕ
  candidate i = at loc (local_day loc after + i) (start_clock scan text)

  candidate-IsAt :
      (i : ℕ) → IsAt loc (local_day loc after + i) (start_clock scan text) (candidate i)
  unfolding candidate
  candidate-IsAt i =
      at-IsAt loc (local_day loc after + i) (start_clock scan text) steady (omega arith) fits

  candidate_mono : (i j : ℕ) → i < j → candidate i < candidate j
  unfolding candidate at local_day
  candidate_mono i j lt =
      let c = start_clock scan text in
      let d = loc.wall after / day_length in
      steady.instant_mono ((d + i) * day_length + c) ((d + j) * day_length + c) (omega arith)
        (omega arith)

  passes : ℕ → Bool
  passes i = on weekdays (local_day loc after + i) && ltb after (candidate i)

  next_day-suc :
      (left i : ℕ)
      → next_day scan weekdays text loc after (suc left) i ≡ (
          if passes i
          then some (candidate i)
          else next_day scan weekdays text loc after left (i + 1))
  unfolding next_day start_at passes candidate
  next_day-suc left i =
      let same = (add_date-IsAt loc after i steady first).on_day in rw (next_day, same) refl

  step_stops :
      (left i : ℕ) {t : ℕ}
      → passes i ≡ true
      → next_day scan weekdays text loc after (suc left) i ≡ some t
      → t ≡ candidate i
  step_stops left i stops h =
      let found : some (candidate i) ≡ some _ = rw stops at (sym (next_day-suc left i) ∙ h) in
      sym (of_some found)

  step_goes :
      (left i : ℕ)
      → passes i ≡ false
      → next_day scan weekdays text loc after (suc left) i
        ≡ next_day scan weekdays text loc after left (i + 1)
  step_goes left i goes = next_day-suc left i ∙ rw goes refl

  -- The day that the loop stops at.
  record Stop (i left t : ℕ) : Type 0 where
    day : ℕ
    from_i : i ≤ day
    in_time : day < i + left
    lands : t ≡ candidate day
    stops : passes day ≡ true
    before : (j : ℕ) → i ≤ j → j < day → passes j ≡ false

  found_day :
      (left i : ℕ) {t : ℕ} → next_day scan weekdays text loc after left i ≡ some t → Stop i left t
  unfolding next_day
  found_day zero i h = cc
  found_day (suc left) i {t} h = elim (Bool-cases (passes i)) [
    | inl stops ↦ record {
      day = i;
      from_i = omega arith;
      in_time = omega arith;
      lands = step_stops left i stops h;
      stops = stops;
      before = λ j lo hi. absurd (omega arith);
    }
    | inr goes ↦
        let rest = found_day left (i + 1) {t = t} (sym (step_goes left i goes) ∙ h) in
        record {
          day = rest.day;
          from_i = omega (arith, rest.from_i);
          in_time = omega (arith, rest.in_time);
          lands = rest.lands;
          stops = rest.stops;
          before = λ j lo hi. ground (arith, goes, rest.before j);
        }
  ]

  never :
      (left i : ℕ)
      → next_day scan weekdays text loc after left i ≡ none
      → (j : ℕ) → i ≤ j
      → j < i + left
      → passes j ≡ false
  unfolding next_day
  never zero i h j lo hi = absurd (omega arith)
  never (suc left) i h j lo hi = elim (Bool-cases (passes i)) [
    | inl stops ↦ absurd (some_not (rw stops at (sym (next_day-suc left i) ∙ h)))
    | inr goes ↦ ground (arith, goes, never left (i + 1) (sym (step_goes left i goes) ∙ h) j)
  ]

  back : (u : ℕ) → 1 ≤ local_day loc u → loc.instant (loc.wall u) ≡ u
  unfolding local_day
  back u h = steady.instant-wall u (omega arith)

  -- A later wall reading is a later instant.
  later_wall :
      (u v : ℕ) → 1 ≤ local_day loc u → 1 ≤ local_day loc v → loc.wall u < loc.wall v → u < v
  unfolding local_day
  later_wall u v hu hv lt =
      let order = steady.instant_mono (loc.wall u) (loc.wall v) (omega arith) lt in
      omega (arith, back u hu, back v hv)

  later_day : (u v : ℕ) → 1 ≤ local_day loc u → local_day loc u < local_day loc v → u < v
  unfolding local_day
  later_day u v hu lt = later_wall u v hu (omega arith) (omega arith)

  passes_of :
      (i u : ℕ)
      → local_day loc after + i ≡ local_day loc u
      → candidate i ≡ u
      → on weekdays (local_day loc u) ≡ true
      → after < u
      → passes i ≡ true
  unfolding passes
  passes_of i u day same runs lt =
      let here : on weekdays (local_day loc after + i) ≡ true = ap (on weekdays) day ∙ runs in
      let past : ltb after (candidate i) ≡ true = ap (ltb after) same ∙ lt→ltb after u lt in
      rw (here, past) refl

  of_passes :
      (i : ℕ)
      → passes i ≡ true
      → (on weekdays (local_day loc after + i) ≡ true) × (after < candidate i)
  unfolding passes
  of_passes i h = (ground arith, ground arith)

  day_order : (u : ℕ) → 1 ≤ local_day loc u → after < u → local_day loc after ≤ local_day loc u
  day_order u h lt = elim (Bool-cases (ltb (local_day loc u) (local_day loc after))) [
    | inl before ↦ absurd (omega (arith, later_day u after h (ground arith)))
    | inr not_before ↦ ground arith
  ]

  wall_is : (u : ℕ) → loc.wall u ≡ local_day loc u * day_length + clock loc u
  unfolding local_day clock
  wall_is u = omega arith

  same_start :
      (i u : ℕ)
      → 1 ≤ local_day loc u
      → local_day loc after + i ≡ local_day loc u
      → clock loc u ≡ start_clock scan text
      → candidate i ≡ u
  unfolding candidate at
  same_start i u h day time =
      let wall : (local_day loc after + i) * day_length + start_clock scan text ≡ loc.wall u =
        omega (arith, wall_is u) in
      ap loc.instant wall ∙ back u h

  start-candidate :
      (u : ℕ)
      → 1 ≤ local_day loc u
      → IsStart loc weekdays (start_clock scan text) after u
      → (i : ℕ) × (candidate i ≡ u) × (passes i ≡ true)
  start-candidate u h s =
      let order = day_order u h s.later in
      let i : ℕ = local_day loc u - local_day loc after in
      let day : local_day loc after + i ≡ local_day loc u = omega arith in
      let same = same_start i u h day s.at_time in (i, same, passes_of i u day same s.runs s.later)

  Stop-IsStart :
      {i left t : ℕ} → Stop i left t → IsStart loc weekdays (start_clock scan text) after t
  Stop-IsStart {t = t} stop =
      let lands = candidate-IsAt stop.day in
      let good = of_passes stop.day stop.stops in
      subst (IsStart loc weekdays (start_clock scan text) after) (sym stop.lands) (record {
        later = good.1;
        runs = ap (on weekdays) lands.on_day ∙ good.0;
        at_time = lands.at_time;
      })

  Stop-first :
      {left t : ℕ} (stop : Stop 0 left t) (u i : ℕ) → candidate i ≡ u → passes i ≡ true → t ≤ u
  Stop-first stop u i same good = elim (Bool-cases (ltb i stop.day)) [
    | inl skipped ↦ absurd (true_not (sym good ∙ stop.before i (omega arith) (ground arith)))
    | inr reached ↦ elim (Bool-cases (i == stop.day)) [
      | inl here ↦
          let e : i ≡ stop.day = ground arith in
          let at_u = ap candidate e in omega (arith, stop.lands)
      | inr past ↦ omega (arith, candidate_mono stop.day i (ground arith), stop.lands)
    ]
  ]

  some_day :
      (w : ℕ)
      → w ≤ 6
      → contains weekdays w ≡ true
      → (i : ℕ) × (1 ≤ i) × (i ≤ 7) × (on weekdays (local_day loc after + i) ≡ true)
  unfolding on weekday
  some_day w small h =
      let d : ℕ = local_day loc after in
      let i : ℕ = 1 + (w + 6 * ((d + 2) % 7)) % 7 in
      let same : (d + i + 1) % 7 ≡ w = omega arith in
      (i, omega arith, omega arith, ap (contains weekdays) same ∙ h)

  next-some :
      (w : ℕ)
      → w ≤ 6
      → contains weekdays w ≡ true
      → (t : ℕ) × (next scan weekdays text loc after ≡ some t)
  unfolding next
  next-some w small h = elim (Option-cases (next_day scan weekdays text loc after 8 0)) [
    | inr found ↦ found
    | inl nothing ↦
        let (i, lo, hi, runs) = some_day w small h in
        let lands = candidate-IsAt i in
        let lt = later_day after (candidate i) first (omega (arith, lands.on_day)) in
        let good =
          passes_of i (candidate i) (sym lands.on_day) refl (ap (on weekdays) lands.on_day ∙ runs)
            lt in
        absurd (true_not (sym good ∙ never 8 0 nothing i (omega arith) (omega arith)))
  ]

pub found-IsStart :
    (scan : Text → ℕ × ℕ) (weekdays : List ℕ) (text : Text) (loc : Zone) (after t : ℕ)
    → IsSteady loc
    → 1 ≤ local_day loc after
    → start_clock scan text < day_length
    → next scan weekdays text loc after ≡ some t
    → IsStart loc weekdays (start_clock scan text) after t
found-IsStart scan weekdays text loc after t steady first fits e =
    Stop-IsStart scan weekdays text loc after steady first fits
      (found_day scan weekdays text loc after steady first fits 8 0 {t = t} (unfold next in e))

-- `Next` on a plan with a weekday from 0 to 6, in a zone whose clocks are never changed, for a start
-- time within the day: it finds a start of the plan, on one of its weekdays, at its time of day and
-- after the given time, and there is no earlier such start.
pub next-IsStart :
    (scan : Text → ℕ × ℕ) (weekdays : List ℕ) (text : Text) (loc : Zone) (after w : ℕ)
    → IsSteady loc
    → 1 ≤ local_day loc after
    → start_clock scan text < day_length
    → w ≤ 6
    → contains weekdays w ≡ true
    → (t : ℕ) × (next scan weekdays text loc after ≡ some t)
      × IsStart loc weekdays (start_clock scan text) after t
      × ((u : ℕ)
          → 1 ≤ local_day loc u
          → IsStart loc weekdays (start_clock scan text) after u
          → t ≤ u)
next-IsStart scan weekdays text loc after w steady first fits small h =
    let (t, e) = next-some scan weekdays text loc after steady first fits w small h in
    let stop =
      found_day scan weekdays text loc after steady first fits 8 0 {t = t} (unfold next in e) in
    (
      t,
      e,
      Stop-IsStart scan weekdays text loc after steady first fits stop,
      λ u hu s.
          let (i, same, good) =
            start-candidate scan weekdays text loc after steady first fits u hu s in
          Stop-first scan weekdays text loc after steady first fits stop u i same good,
    )
