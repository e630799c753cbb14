-- ===== src/Reminder/Next/Fields.antt =====
-- Where the helpers of `Next` land, in a zone whose clocks are never changed: on which local day, and
-- at the time of day that they were given.
use native.Mathlib.Decide.{dec_lt}
use sajni_api.Prelude.{ℕ, suc, ◌+◌, ◌-◌, ◌*◌, ◌≤◌, ◌<◌, min, ◌≡◌, arith, if◌then◌else◌}
use sajni_api.Prelude.Int.{pos, ltb_ℤ}
use sajni_api.Calendar.{year, month, date, day_of_month, month_length, month_index, month_start}
use sajni_api.Calendar.Months.{month_start-suc, month_length_bounds}
use sajni_api.Calendar.Civil.{
  month_index-eq, month_index-date, month_days-eq, day_in_month, date-fields, month_index_mono,
}
use sajni_api.Calendar.Zone.{Zone, IsSteady, local_day, clock, at, day_length}
use sajni_api.Reminder.Rule.{days_in_month}
use sajni_api.Reminder.Next.{add_date, date_ℤ, local_date_time}

-- `t` is on local day `d`, at time of day `time`.
pub record IsAt (zone : Zone) (d time t : ℕ) : Type 0 where
  pub on_day : local_day zone t ≡ d
  pub at_time : clock zone t ≡ time

pub clock-lt : (zone : Zone) (t : ℕ) → clock zone t < day_length
unfolding clock
clock-lt zone t = omega arith

pub at-IsAt :
    (zone : Zone) (d time : ℕ)
    → IsSteady zone
    → 1 ≤ d
    → time < day_length
    → IsAt zone d time (at zone d time)
unfolding at local_day clock
at-IsAt zone d time steady h lt =
    let w = steady.wall-instant (d * day_length + time) (omega arith) in
    record { on_day = rw w (omega arith); at_time = rw w (omega arith) }

n-zero : (n m : ℕ) → m + n - 0 ≡ m + n
n-zero n m = omega arith

pub add_date-IsAt :
    (zone : Zone) (t n : ℕ)
    → IsSteady zone
    → 1 ≤ local_day zone t
    → IsAt zone (local_day zone t + n) (clock zone t) (add_date zone t (pos n))
unfolding add_date
add_date-IsAt zone t n steady h =
    rw n-zero
      (at-IsAt zone (local_day zone t + n) (clock zone t) steady (omega arith) (clock-lt zone t))

-- The last day of a month, by its year and its place in the year.
pub days_in_month-eq : (y m : ℕ) → 1 ≤ y → 1 ≤ m → m ≤ 12 → days_in_month y m ≡ month_length y m
unfolding days_in_month date day_of_month
days_in_month-eq y m hy lo hi =
    let k : ℕ = y * 12 + m - 1 in
    let ends = month_start-suc k (omega arith) in
    let days = month_days-eq y m lo hi in
    let most = month_length_bounds y m in
    let same : y * 12 + (m + 1) - 1 ≡ suc k = omega arith in
    let here : month_index (month_start (suc k) + 0 - 1) ≡ k =
      month_index-eq k (month_start (suc k) + 0 - 1) (omega arith) (omega arith) (omega arith) in
    rw (same, here) (omega arith)

-- A day of month `m` of year `y`, the last one if the month is shorter.
unfoldable pub clamped : ℕ → ℕ → ℕ → ℕ
clamped y m d = date y m (min d (month_length y m))

clamp_same :
    (y m d : ℕ)
    → date_ℤ y m (if ltb_ℤ (pos (month_length y m)) (pos d) then pos (month_length y m) else pos d)
      ≡ clamped y m d
unfolding clamped date
clamp_same y m d = ground arith

pub local_date_time-IsAt :
    (zone : Zone) (y m d clock_of : ℕ)
    → IsSteady zone
    → 1 ≤ y
    → 1 ≤ m
    → m ≤ 12
    → 1 ≤ d
    → 1 ≤ clamped y m d
    → IsAt zone (clamped y m d) (clock zone clock_of) (local_date_time zone y m (pos d) clock_of)
unfolding local_date_time clamped date
local_date_time-IsAt zone y m d clock_of steady hy lo hi hd late =
    let length_is = days_in_month-eq y m hy lo hi in
    let same : date_ℤ y m
          (if ltb_ℤ (pos (days_in_month y m)) (pos d) then pos (days_in_month y m) else pos d)
        ≡ clamped y m d =
      rw length_is (clamp_same y m d) in
    rw same
      (at-IsAt zone (clamped y m d) (clock zone clock_of) steady late (clock-lt zone clock_of))

pub month_index-clamped :
    (y m d : ℕ) → 1 ≤ y → 1 ≤ m → m ≤ 12 → 1 ≤ d → month_index (clamped y m d) ≡ y * 12 + m - 1
unfolding clamped
month_index-clamped y m d hy lo hi hd =
    let most = month_length_bounds y m in
    month_index-date y m (min d (month_length y m)) hy lo hi (omega arith) (omega arith)

-- A day of a later month is later.
pub later_month-lt : (a b : ℕ) → month_index a < month_index b → a < b
later_month-lt a b h = elim (dec_lt a b) [
  | yes lt ↦ lt
  | no ge ↦ absurd (omega (arith, month_index_mono b a (omega arith)))
]

pub clamped-fields : (n : ℕ) → clamped (year n) (month n) (day_of_month n) ≡ n
unfolding clamped
clamped-fields n =
    let same : min (day_of_month n) (month_length (year n) (month n)) ≡ day_of_month n =
      omega (arith, day_in_month n) in
    rw same (date-fields n)
