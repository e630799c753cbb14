-- ===== src/Reminder/Next/ActiveDay.antt =====
-- `nextWeekly` by the calendar: weeks are counted from Monday, every n-th week from that of the start
-- is active, and the first day after the current one that is in an active week and on one of the
-- rule's weekdays is the answer.
use text.Mathlib.Text.{◌==◌ as str_eq}
use mathlib.Core.Logic.Or
use mathlib.Core.Bool.{Bool-set}
use mathlib.Core.List.{Mem, not-mem-nil, eq-or-mem_of_mem-cons, mem-cons_self, mem-cons_of_mem}
use native.Mathlib.Decide.{ℕ_discrete}
use native.Mathlib.Nat.{mod-add-mod, mod_self, mod-lt}
use sajni_api.Prelude.{
  ℕ, zero, suc, ◌+◌, ◌-◌, ◌*◌, ◌/◌, ◌%◌, ◌≤◌, ◌<◌, ◌≡◌, ◌↔◌, ◌==◌, subst, Bool, true, false, ◌&&◌,
  some, leb, List, [], ◌∷◌, arith, Bool-cases, inl, inr, ap, ◌∙◌, refl, sym,
}
use sajni_api.Prelude.Int.{
  ℤ, negsuc, pos, pos_part, neg_part, quot, ltb_ℤ, eqb_ℤ, eq_of_eqb_ℤ, ◌-ℤ◌,
}
use sajni_api.Calendar.{weekday, days_between}
use sajni_api.Calendar.Zone.{Zone, IsSteady, local_day, clock, at}
use sajni_api.Reminder.Rule.{Rule, out_of_range, is_empty, contains_int}
use sajni_api.Reminder.Normal.{IsNormal}
use sajni_api.Reminder.Normal.Weekdays.{in_week}
use sajni_api.Reminder.Next.{
  add_date, monday_date, weekly_candidate, week_delta, weekly_matches, weekly_loop, next_weekly,
}
use sajni_api.Reminder.Next.Fields.{IsAt, at-IsAt, clock-lt}
use sajni_api.Reminder.Next.Weekly.{weekly_candidate-IsAt}

-- Day `d` is in a week that is a number of times `n` weeks after that of day `first`, or in that week,
-- and it is on a weekday of the rule. Day 0 is a Monday.
pub record IsActive (rule : Rule) (n first d : ℕ) : Type 0 where
  pub not_before : first / 7 ≤ d / 7
  pub in_cycle : (d / 7 - first / 7) % n ≡ 0
  pub chosen : Mem (pos (weekday d)) rule.weekdays

eqb-same : (a : ℤ) → eqb_ℤ a a ≡ true
eqb-same a = ground arith

mem-contains_int : (v : ℤ) (values : List ℤ) → Mem v values ↔ (contains_int values v ≡ true)
unfolding contains_int
mem-contains_int v [] = (λ m. absurd (not-mem-nil m), λ h. cc)
mem-contains_int v (x ∷ values) =
    let rest = mem-contains_int v values in
    (
      λ m.
          Or.elim (Bool-set (contains_int (x ∷ values) v) true) (eq-or-mem_of_mem-cons m)
            (λ e. let hit = ap (λ z. eqb_ℤ z v) (sym e) ∙ eqb-same v in ground arith)
            (λ k. let there = rest.0 k in ground arith),
      λ h. elim (Bool-cases (eqb_ℤ x v)) [
        | inl hit ↦ subst (λ z. Mem v (z ∷ values)) (sym (eq_of_eqb_ℤ x v hit)) mem-cons_self
        | inr miss ↦ mem-cons_of_mem x (rest.1 (ground arith))
      ],
    )

abbrev is_active : Rule → ℕ → ℕ → ℕ → Bool
is_active rule n first d =
    leb (first / 7) (d / 7)
    && ((d / 7 - first / 7) % n == 0)
    && contains_int rule.weekdays (pos (weekday d))

is_active-IsActive :
    (rule : Rule) (n first d : ℕ) → is_active rule n first d ≡ true → IsActive rule n first d
is_active-IsActive rule n first d h = record {
  not_before = ground arith;
  in_cycle = ground arith;
  chosen = (mem-contains_int (pos (weekday d)) rule.weekdays).1 (ground arith);
}

not-IsActive :
    (rule : Rule) (n first d : ℕ) → is_active rule n first d ≡ false → ¬ IsActive rule n first d
not-IsActive rule n first d h active =
    let a = active.not_before in
    let b = active.in_cycle in
    let c = (mem-contains_int (pos (weekday d)) rule.weekdays).0 active.chosen in ground arith

back_days :
    (d delta : ℕ) → d + pos_part (pos 0 -ℤ pos delta) - neg_part (pos 0 -ℤ pos delta) ≡ d - delta
unfolding ◌-ℤ◌
back_days d delta = ground arith

-- The Monday of a week.
monday_date-day :
    (zone : Zone) (t : ℕ)
    → IsSteady zone
    → 7 ≤ local_day zone t
    → local_day zone (monday_date zone t) ≡ 7 * (local_day zone t / 7)
unfolding monday_date add_date
monday_date-day zone t steady h =
    let d = local_day zone t in
    let delta : ℕ = (weekday d + 6) % 7 in
    let back : d - delta ≡ 7 * (d / 7) = unfold weekday in omega arith in
    let same = back_days d delta ∙ back in
    let there = at-IsAt zone (7 * (d / 7)) (clock zone t) steady (omega arith) (clock-lt zone t) in
    rw (same, there.on_day) (at-IsAt zone (7 * (d / 7)) 0 steady (omega arith) (omega arith)).on_day

-- The weeks from one Monday to another that is not before it, and at most 106751 days after it.
weeks_between :
    (a b : ℕ) → a ≤ b → 7 * b ≤ 7 * a + 106751 → quot (days_between (7 * b) (7 * a)) 7 ≡ pos (b - a)
unfolding days_between
weeks_between a b le near = ground arith

weeks_before : (a b : ℕ) → b < a → ltb_ℤ (quot (days_between (7 * b) (7 * a)) 7) (pos 0) ≡ true
unfolding days_between
weeks_before a b lt = ground arith

-- The test of the loop is whether the candidate's day is active.
weekly_matches-eq :
    (zone : Zone) (start candidate n : ℕ) (rule : Rule)
    → IsSteady zone
    → 7 ≤ local_day zone start
    → 7 ≤ local_day zone candidate
    → local_day zone candidate ≤ local_day zone start + 106740
    → rule.interval ≡ pos n
    → 1 ≤ n
    → weekly_matches zone start rule candidate
      ≡ some (is_active rule n (local_day zone start) (local_day zone candidate))
unfolding weekly_matches week_delta
weekly_matches-eq zone start candidate n rule steady first later near every some_weeks =
    let a = local_day zone start / 7 in
    let b = local_day zone candidate / 7 in
    let begins = monday_date-day zone start steady first in
    let ends = monday_date-day zone candidate steady later in
    elim (Bool-cases (leb a b)) [
      | inl after ↦
          let weeks = weeks_between a b (ground arith) (omega arith) in
          rw (every, ends, begins, weeks) (ground arith)
      | inr before ↦
          let weeks = weeks_before a b (ground arith) in rw (ends, begins, weeks, before) refl
    ]

-- Day `k` after the current one is the first active one, and `t` is on it, at the start's time of day.
pub record FirstActive (zone : Zone) (start current : ℕ) (rule : Rule) (n t : ℕ) : Type 0 where
  pub k : ℕ
  pub ahead : (1 ≤ k) × (k ≤ 3660)
  pub active : IsActive rule n (local_day zone start) (local_day zone current + k)
  pub passed :
      (j : ℕ)
      → 1 ≤ j
      → j < k
      → ¬ IsActive rule n (local_day zone start) (local_day zone current + j)
  pub lands : IsAt zone (local_day zone current + k) (clock zone start) t

true_not_false : true ≡ false → ⊥
true_not_false h = cc

-- What the loop returns from `days` on, where `test` is what it asks of each day.
Searched : (ℕ → Bool) → (ℕ → ℕ) → ℕ → ℕ → ℕ → Type 0
Searched test candidate left days t =
    (k : ℕ) × (days ≤ k)
    × (k < days + left)
    × (test k ≡ true)
    × (t ≡ candidate k)
    × ((j : ℕ) → days ≤ j → j < k → test j ≡ false)

module _ (zone : Zone) (start current : ℕ) (rule : Rule) (test : ℕ → Bool)
    (agree : (k : ℕ)
      → k ≤ 3660
      → weekly_matches zone start rule (weekly_candidate zone start current k)
        ≡ some (test k)) where
  loop_stops :
      (left days : ℕ)
      → weekly_matches zone start rule (weekly_candidate zone start current days) ≡ some true
      → weekly_loop zone start current rule (suc left) days
        ≡ some (weekly_candidate zone start current days)
  unfolding weekly_loop
  loop_stops left days h = rw (weekly_loop, h) refl

  loop_goes_on :
      (left days : ℕ)
      → weekly_matches zone start rule (weekly_candidate zone start current days) ≡ some false
      → weekly_loop zone start current rule (suc left) days
        ≡ weekly_loop zone start current rule left (days + 1)
  unfolding weekly_loop
  loop_goes_on left days h = rw (weekly_loop, h) refl

  -- The loop finds the first day that passes the test, if one of them does.
  weekly_loop-Searched :
      (left days some_day : ℕ)
      → days + left ≤ 3661
      → days ≤ some_day
      → some_day < days + left
      → test some_day ≡ true
      → (t : ℕ) × (weekly_loop zone start current rule left days ≡ some t)
        × Searched test (weekly_candidate zone start current) left days t
  unfolding Searched
  weekly_loop-Searched zero days some_day most lo hi hit = absurd (omega arith)
  weekly_loop-Searched (suc left) days some_day most lo hi hit =
      let here = agree days (omega arith) in
      elim (Bool-cases (test days)) [
        | inl found ↦
            let candidate = weekly_candidate zone start current days in
            (
              candidate,
              loop_stops left days (here ∙ ap some found),
              (days, omega arith, omega arith, found, refl, λ j a b. absurd (omega arith)),
            )
        | inr missed ↦
            let other : (days ≡ some_day) → ⊥ =
              λ same. true_not_false (sym hit ∙ sym (ap test same) ∙ missed) in
            let (t, e, (k, after, before, found, at, passed)) =
              weekly_loop-Searched left (days + 1) some_day (omega arith) (omega arith)
                (omega arith) hit in
            (
              t,
              loop_goes_on left days (here ∙ ap some missed) ∙ e,
              (
                k,
                omega arith,
                omega arith,
                found,
                at,
                λ j a b. elim (ℕ_discrete j days) [
                  | yes same ↦ ap test same ∙ missed
                  | no apart ↦ passed j (omega arith) b
                ],
              ),
            )
      ]

-- A weekly rule that is normal has a weekday, and weeks between.
some_weekday :
    (days : List ℤ)
    → is_empty days ≡ false
    → in_week days ≡ true
    → (w : ℕ) × (w ≤ 6) × (contains_int days (pos w) ≡ true)
unfolding out_of_range contains_int
some_weekday [] h k = absurd (true_not_false h)
some_weekday (pos w ∷ days) h k = (w, ground arith, ground arith)
some_weekday (negsuc w ∷ days) h k = absurd (ground arith)

some_interval : (z : ℤ) → out_of_range z 1 999 ≡ false → (z ≡ pos (pos_part z)) × (1 ≤ pos_part z)
unfolding out_of_range
some_interval (pos n) h = (refl, ground arith)
some_interval (negsuc n) h = absurd (ground arith)

-- `x` and the weeks that are left of its cycle are whole cycles.
cycle_end : (x n : ℕ) → 1 ≤ n → (x + (n - x % n)) % n ≡ 0
cycle_end x n some_weeks =
    let short = mod-lt x some_weeks in
    let whole : x % n + (n - x % n) ≡ n = omega arith in
    sym (mod-add-mod x n (n - x % n)) ∙ ap (λ m. m % n) whole ∙ mod_self n

-- A day of the next active week, on weekday `w`.
next_active :
    (rule : Rule) (n first today w : ℕ)
    → 1 ≤ n
    → w ≤ 6
    → contains_int rule.weekdays (pos w) ≡ true
    → first ≤ today
    → (k : ℕ) × (1 ≤ k) × (k ≤ 7 * n + 6) × (is_active rule n first (today + k) ≡ true)
next_active rule n first today w some_weeks small has le =
    let x = today / 7 - first / 7 in
    let ahead = n - x % n in
    let short = mod-lt x some_weeks in
    let k = 7 * (today / 7 + ahead) + (w + 6) % 7 - today in
    let lands : today + k ≡ 7 * (today / 7 + ahead) + (w + 6) % 7 = omega arith in
    let week : (today + k) / 7 ≡ today / 7 + ahead = omega arith in
    let on : weekday (today + k) ≡ w = unfold weekday in omega arith in
    let weeks : (today + k) / 7 - first / 7 ≡ x + ahead = omega arith in
    let cycle = ap (λ m. m % n) weeks ∙ cycle_end x n some_weeks in
    let chosen = ap (λ d. contains_int rule.weekdays (pos d)) on ∙ has in
    let late : first / 7 ≤ (today + k) / 7 = omega arith in
    (k, omega arith, omega arith, ground arith)

-- For a weekly rule that `Normalize` returns, with an interval of at most 522 weeks, `nextWeekly` always
-- finds an occurrence. It is at the start's time of day, on the first day after the current one that is
-- in an active week and on a weekday of the rule; a week is active when it is a multiple of the
-- interval after the week, from Monday on, of the start. The zone's clocks are never changed; the start
-- is not in the first week of year 1, and is not after the current day, nor more than 103000 days before
-- it.
pub next_weekly-FirstActive :
    (zone : Zone) (start current : ℕ) (rule : Rule)
    → IsSteady zone
    → IsNormal rule
    → str_eq rule.frequency "weekly" ≡ true
    → pos_part rule.interval ≤ 522
    → 7 ≤ local_day zone start
    → local_day zone start ≤ local_day zone current
    → local_day zone current ≤ local_day zone start + 103000
    → (t : ℕ) × (next_weekly zone start current rule ≡ some t)
      × FirstActive zone start current rule (pos_part rule.interval) t
unfolding next_weekly Searched
next_weekly-FirstActive zone start current rule steady normal weekly few first le near =
    let n = pos_part rule.interval in
    let s = local_day zone start in
    let today = local_day zone current in
    let (every, some_weeks) = some_interval rule.interval (ground (arith, normal.basics)) in
    let (w, small, has) =
      some_weekday rule.weekdays (ground (arith, normal.weekdays))
        (ground (arith, normal.weekdays)) in
    let test : ℕ → Bool = λ k. is_active rule n s (today + k) in
    let lands : (k : ℕ)
        → IsAt zone (today + k) (clock zone start) (weekly_candidate zone start current k) =
      λ k. weekly_candidate-IsAt zone start current k steady (omega arith) in
    let agree : (k : ℕ)
        → k ≤ 3660
        → weekly_matches zone start rule (weekly_candidate zone start current k) ≡ some (test k) =
      λ k most.
        let on = (lands k).on_day in
        weekly_matches-eq zone start (weekly_candidate zone start current k) n rule steady first
          (rw on (omega arith)) (rw on (omega arith)) every some_weeks
        ∙ ap (λ d. some (is_active rule n s d)) on in
    let (m, low, high, hit) = next_active rule n s today w some_weeks small has le in
    let (t, e, (k, lo, hi, found, at, passed)) =
      weekly_loop-Searched zone start current rule test agree 3660 1 m (omega arith) low
        (omega arith) hit in
    (
      t,
      e,
      record {
        k = k;
        ahead = (lo, omega arith);
        active = is_active-IsActive rule n s (today + k) found;
        passed = λ j a b. not-IsActive rule n s (today + j) (passed j a b);
        lands = rw at (lands k);
      },
    )
