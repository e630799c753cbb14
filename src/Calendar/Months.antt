-- ===== src/Calendar/Months.antt =====
-- Months numbered through tile the days: each starts where the one before it ends.
use native.Mathlib.Decide.{le_ind, dec_lt}
use native.Mathlib.Nat.{le_refl, le_trans}
use sajni_api.Prelude.{ℕ, suc, ◌+◌, ◌*◌, ◌/◌, ◌%◌, ◌≤◌, ◌<◌, ◌≡◌, sym, ap, ◌∙◌, arith}
use sajni_api.Calendar.{
  is_leap, month_length, days_before_year, days_before_month, month_start, month_days,
}

pub month_length_bounds : (y m : ℕ) → (28 ≤ month_length y m) × (month_length y m ≤ 31)
unfolding month_length
month_length_bounds y m = ground arith

-- The twelve months make up the year.
pub days_before_year-suc :
    (y : ℕ) → 1 ≤ y → days_before_year (suc y) ≡ days_before_year y + days_before_month y 12
unfolding days_before_year days_before_month month_length is_leap
days_before_year-suc y h = ground arith

-- A month's number splits into its year and its place in it.
pub month_start_at :
    (y m : ℕ) → m < 12 → month_start (y * 12 + m) ≡ days_before_year y + days_before_month y m
unfolding month_start
month_start_at y m h =
    let year_is : (y * 12 + m) / 12 ≡ y = omega arith in
    let month_is : (y * 12 + m) % 12 ≡ m = omega arith in rw (year_is, month_is)

month_start_next :
    (y m : ℕ)
    → 1 ≤ y
    → m < 12
    → month_start (suc (y * 12 + m))
      ≡ days_before_year y + days_before_month y m + month_length y (m + 1)
month_start_next y m hy h = elim (dec_lt m 11) [
  | yes early ↦
      let same : suc (y * 12 + m) ≡ y * 12 + suc m = omega arith in
      rw (same, month_start_at y (suc m) (omega arith)) (unfold days_before_month in omega arith)
  | no late ↦
      let last : m ≡ 11 = omega arith in
      let next : suc (y * 12 + m) ≡ suc y * 12 + 0 = omega arith in
      rw (next, month_start_at (suc y) 0 (omega arith), days_before_year-suc y hy, last)
        (unfold days_before_month in omega arith)
]

-- Each month starts where the one before it ends.
pub month_start-suc : (k : ℕ) → 12 ≤ k → month_start (suc k) ≡ month_start k + month_days k
unfolding month_days
month_start-suc k h =
    let split : k ≡ k / 12 * 12 + k % 12 = omega arith in
    ap (λ i. month_start (suc i)) split
    ∙ month_start_next (k / 12) (k % 12) (omega arith) (omega arith)
    ∙ ap (λ t. t + month_length (k / 12) (k % 12 + 1))
        (sym (month_start_at (k / 12) (k % 12) (omega arith)) ∙ ap month_start (sym split))

pub month_days_bounds : (k : ℕ) → (28 ≤ month_days k) × (month_days k ≤ 31)
unfolding month_days
month_days_bounds k = month_length_bounds (k / 12) (k % 12 + 1)

pub month_start_mono : (i j : ℕ) → 12 ≤ i → i ≤ j → month_start i ≤ month_start j
month_start_mono i j h =
    le_ind (λ m. month_start i ≤ month_start m) (le_refl _)
      (λ m le ih. omega (arith, month_start-suc m (le_trans h le))) j

-- A day lies in one month only.
pub month_unique :
    (i j n : ℕ)
    → 12 ≤ i
    → 12 ≤ j
    → month_start i ≤ n
    → n < month_start (suc i)
    → month_start j ≤ n
    → n < month_start (suc j)
    → i ≡ j
month_unique i j n hi hj i_lo i_hi j_lo j_hi = elim (dec_lt i j) [
  | yes below ↦ absurd (omega (arith, month_start_mono (suc i) j (omega arith) below))
  | no above ↦ elim (dec_lt j i) [
    | yes below ↦ absurd (omega (arith, month_start_mono (suc j) i (omega arith) below))
    | no same ↦ omega arith
  ]
]
