-- ===== src/Lends/Due/Cycle.antt =====
-- The due date of a card's cycle: after the charge, and within two months of it.
use sajni_api.Prelude.{
  ℕ, suc, ◌+◌, ◌*◌, ◌-◌, ◌≤◌, ◌<◌, ◌≡◌, min, Bool-cases, ltb, leb, arith, ap, ◌∙◌, inl, inr,
}
use sajni_api.Prelude.Int.{ℤ}
use sajni_api.Calendar.{date, year, month, day_of_month, month_index, month_start}
use sajni_api.Calendar.Months.{month_days_bounds, month_start-suc}
use sajni_api.Calendar.Civil.{month_index_holds, month_index-eq, month_index-fields}
use sajni_api.HabitPeriod.Periods.{month_start_of, next_month_start}
use sajni_api.Lends.Due.{clamp_day, statement_on, cycle_day, card_cycle_due}

-- A day of the month up to 28 is in every month.
day_in : (k d : ℕ) → 12 ≤ k → d < 28 → month_index (month_start k + d) ≡ k
day_in k d h short =
    let ends = month_start-suc k h in
    let days = month_days_bounds k in
    month_index-eq k (month_start k + d) h (omega arith) (omega arith)

clamp_bounds : (statement_day : ℤ) → (1 ≤ clamp_day statement_day) × (clamp_day statement_day ≤ 28)
unfolding clamp_day
clamp_bounds statement_day = (ground arith, ground arith)

-- The statement is on the day `sd` of the charge's month or the next one, and not before the charge.
statement_place :
    (charged sd : ℕ)
    → 1 ≤ sd
    → sd ≤ 28
    → (k : ℕ) × (12 ≤ k)
      × (month_index charged ≤ k)
      × (k ≤ month_index charged + 1)
      × (statement_on charged sd ≡ month_start k + (sd - 1))
      × (charged ≤ statement_on charged sd)
unfolding statement_on date day_of_month
statement_place charged sd lo hi =
    let k = month_index charged in
    let holds = month_index_holds charged in
    let fields = month_index-fields charged in
    let ends = month_start-suc k holds.0 in
    elim (Bool-cases (ltb sd (day_of_month charged))) [
      | inl late ↦
          let next : year charged * 12 + (month charged + 1) - 1 ≡ suc k = omega arith in
          let there : statement_on charged sd ≡ month_start (suc k) + (sd - 1) =
            rw (statement_on, late, date, next) (omega arith) in
          (suc k, omega arith, omega arith, omega arith, there, rw there (omega arith))
      | inr in_time ↦
          let there : statement_on charged sd ≡ month_start k + (sd - 1) =
            rw (statement_on, in_time, date, fields) (omega arith) in
          let day : charged + 1 ≤ month_start k + sd = ground arith in
          (k, holds.0, omega arith, omega arith, there, rw there (omega arith))
    ]

-- The due date of a card's cycle is not before the charge; it is on the due day, at most the 28th, of a
-- month no later than two after the charge's.
pub card_cycle_due_bounds :
    (charged : ℕ) (statement_day due_day : ℤ)
    → (charged ≤ card_cycle_due charged statement_day due_day)
      × (day_of_month (card_cycle_due charged statement_day due_day)
          ≡ min (cycle_day (clamp_day statement_day) due_day) 28)
      × (month_index (card_cycle_due charged statement_day due_day) ≤ month_index charged + 2)
unfolding card_cycle_due
card_cycle_due_bounds charged statement_day due_day =
    let sd = clamp_day statement_day in
    let dd = cycle_day sd due_day in
    let st = statement_on charged sd in
    let clamped = clamp_bounds statement_day in
    let (k, year_one, from, to, there, after) = statement_place charged sd clamped.0 clamped.1 in
    let positive : 1 ≤ dd = unfold cycle_day in ground arith in
    let held : month_index (statement_on charged sd) ≡ k =
      rw there (day_in k (sd - 1) year_one (omega arith)) in
    elim (Bool-cases (leb dd sd)) [
      | inl ahead ↦
          let due : card_cycle_due charged statement_day due_day
              ≡ month_start (suc k) + (min dd 28 - 1) =
            rw (card_cycle_due, ahead)
              (ap (λ x. x + (min dd 28 - 1))
                (next_month_start st ∙ ap (λ i. month_start (suc i)) held)) in
          let ends = month_start-suc k year_one in
          let days = month_days_bounds k in
          let at = day_in (suc k) (min dd 28 - 1) (omega arith) (omega arith) in
          (
            rw due (omega arith),
            rw due (unfold day_of_month in rw at (omega arith)),
            rw (due, at) (omega arith),
          )
      | inr same ↦
          let no_month : month st + 0 ≡ month st = omega arith in
          let due : card_cycle_due charged statement_day due_day ≡ month_start k + (min dd 28 - 1) =
            rw (card_cycle_due, same)
              (ap (λ m. date (year st) m 1 + (min dd 28 - 1)) no_month
                ∙ ap (λ x. x + (min dd 28 - 1)) (month_start_of st ∙ ap month_start held)) in
          let at = day_in k (min dd 28 - 1) year_one (omega arith) in
          let reached : sd ≤ min dd 28 = ground arith in
          (
            rw due (omega arith),
            rw due (unfold day_of_month in rw at (omega arith)),
            rw (due, at) (omega arith),
          )
    ]
