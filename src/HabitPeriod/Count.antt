-- ===== src/HabitPeriod/Count.antt =====
-- `CountOverlapping` counts the periods from that of the first date to that of the last one.
use native.Mathlib.Decide.{dec_lt}
use sajni_api.Prelude.{ℕ, zero, suc, ◌+◌, ◌≤◌, ◌<◌, ◌≡◌, Option, some, String, arith, ap, ◌∙◌, sym}
use sajni_api.Calendar.{month_index}
use sajni_api.Calendar.Months.{month_start-suc, month_days_bounds}
use sajni_api.Calendar.Civil.{month_index_holds}
use sajni_api.HabitPeriod.{for_date, next, count_from, count_overlapping}
use sajni_api.HabitPeriod.Periods.{
  IsDate, start_spec, next_spec, for_date-start, next-start, spec_holds, spec_unique, spec_next,
  next_month_start,
}

-- The start of the k-th period from the one that starts at `start`.
abbrev pub nth_start : ℕ → ℕ → String → ℕ
nth_start zero start frequency = start
nth_start (suc k) start frequency = nth_start k (next start frequency) frequency

-- A period is not empty, so the loop goes on.
pub lt-next : (s : ℕ) (frequency : String) → s < next s frequency
unfolding next
lt-next s frequency = ground (arith, next_month_start s, month_index_holds s)

pub start_spec-near : (d : ℕ) (frequency : String) → d ≤ start_spec d frequency + 31
start_spec-near d frequency =
    ground (
      arith,
      month_index_holds d,
      month_start-suc (month_index d),
      month_days_bounds (month_index d),
    )

-- `cursor` opens its period.
abbrev pub Opens : ℕ → String → Type 0
Opens cursor frequency = start_spec cursor frequency ≡ cursor

pub next-Opens :
    (s : ℕ) (frequency : String)
    → IsDate s
    → Opens s frequency
    → (next s frequency ≡ next_spec s frequency) × Opens (next s frequency) frequency
next-Opens s frequency h opens =
    let next_is = ap (λ c. next c frequency) (sym opens) ∙ next-start s frequency h in
    (next_is, ap (λ c. start_spec c frequency) next_is ∙ spec_next s frequency h ∙ sym next_is)

-- The loop ends with `c` more periods counted, the last of which is that of `to`.
Counted : ℕ → ℕ → String → ℕ → Option ℕ → Type 0
Counted cursor to frequency count result =
    (c : ℕ) × (result ≡ some (count + suc c))
    × (nth_start c cursor frequency ≡ start_spec to frequency)

count_from_stop :
    (fuel cursor to : ℕ) (frequency : String) (count : ℕ)
    → to < cursor
    → 0 < fuel
    → count_from fuel cursor to frequency count ≡ some count
unfolding count_from
count_from_stop zero cursor to frequency count h more = elim more [ ]
count_from_stop (suc fuel) cursor to frequency count h more = ground arith

count_from_step :
    (fuel cursor to : ℕ) (frequency : String) (count : ℕ)
    → cursor ≤ to
    → count_from (suc fuel) cursor to frequency count
      ≡ count_from fuel (next cursor frequency) to frequency (count + 1)
unfolding count_from
count_from_step fuel cursor to frequency count h = ground arith

count_from-Counted :
    (fuel cursor to : ℕ) (frequency : String) (count : ℕ)
    → IsDate cursor
    → to ≤ 825924
    → Opens cursor frequency
    → cursor ≤ to
    → to + 1 < cursor + fuel
    → Counted cursor to frequency count (count_from fuel cursor to frequency count)
unfolding Counted
count_from-Counted zero cursor to frequency count h top opens le enough = absurd (omega arith)
count_from-Counted (suc fuel) cursor to frequency count h top opens le enough =
    let (next_is, next_opens) = next-Opens cursor frequency h opens in
    let grows = lt-next cursor frequency in
    elim (dec_lt to (next cursor frequency)) [
      | yes last ↦ (
        0,
        count_from_step fuel cursor to frequency count le
            ∙ count_from_stop fuel (next cursor frequency) to frequency (count + 1) last
                (omega arith),
        sym ((spec_unique cursor to frequency h (omega arith) (omega arith)).0 ∙ opens),
      )
      | no more ↦
          let (c, result, at) =
            count_from-Counted fuel (next cursor frequency) to frequency (count + 1) (omega arith)
              top next_opens (omega arith) (omega arith) in
          (
            suc c,
            count_from_step fuel cursor to frequency count le ∙ result ∙ ap some (omega arith),
            at,
          )
    ]

-- For two dates in order, both from 1677-12-20 to 2262-04-22, the loop ends: it counts one period for each step of `Next`
-- from the period of `from` to that of `to`, both included.
pub count_overlapping_steps :
    (from to : ℕ) (frequency : String)
    → 612500 ≤ from
    → from ≤ to
    → to ≤ 825924
    → (c : ℕ) × (count_overlapping from to frequency ≡ some (suc c))
      × (nth_start c (for_date from frequency).start frequency ≡ (for_date to frequency).start)
unfolding count_overlapping Counted
count_overlapping_steps from to frequency lo le hi =
    let start = (for_date from frequency).start in
    let start_is = for_date-start from frequency (omega arith) in
    let near = start_spec-near from frequency in
    let holds = spec_holds from frequency (omega arith) in
    let opens : Opens start frequency =
      ap (λ s. start_spec s frequency) start_is
      ∙ (spec_unique from (start_spec from frequency) frequency (omega arith) (omega arith)
          (omega arith)).0
      ∙ sym start_is in
    let (c, result, at) =
      count_from-Counted (to + 2) start to frequency 0 (omega arith) hi opens (omega arith)
        (omega arith) in
    (c, ground arith, at ∙ sym (for_date-start to frequency (omega arith)))
