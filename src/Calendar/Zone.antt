-- ===== src/Calendar/Zone.antt =====
-- Instants and time zones. An instant is the number of nanoseconds since 0001-01-01 00:00 UTC, Go's
-- zero time; a wall reading is the same count read off a local clock. The time zone database is not
-- part of the repository, so a zone is a pair of functions: what its clocks show at an instant, and
-- the instant that `time.Date` picks for a wall reading.
use sajni_api.Prelude.{ℕ, ◌+◌, ◌*◌, ◌/◌, ◌%◌, ◌≤◌, ◌<◌, ◌≡◌}

pub record Zone : Type 0 where
  pub wall : ℕ → ℕ
  pub instant : ℕ → ℕ

-- `time.UTC`
abbrev pub utc : Zone
utc = record { wall = λ t. t; instant = λ w. w }

-- 24 hours in nanoseconds.
abbrev pub day_length : ℕ
day_length = 86400000000000

-- The date of an instant in the zone, and the time of day.
unfoldable pub local_day : Zone → ℕ → ℕ
local_day zone t = zone.wall t / day_length

unfoldable pub clock : Zone → ℕ → ℕ
clock zone t = zone.wall t % day_length

-- `time.Date` of a day and a time of day in the zone.
unfoldable pub at : Zone → ℕ → ℕ → ℕ
at zone d time = zone.instant (d * day_length + time)

-- What the program relies on of a zone whose clocks are never changed, as Asia/Kolkata: from the
-- second day on every wall reading occurs, and readings come in the order of the instants.
pub record IsSteady (zone : Zone) : Type 0 where
  pub wall-instant : (w : ℕ) → day_length ≤ w → zone.wall (zone.instant w) ≡ w
  pub instant_mono : (w v : ℕ) → day_length ≤ w → w < v → zone.instant w < zone.instant v
  pub instant-wall : (t : ℕ) → day_length ≤ zone.wall t → zone.instant (zone.wall t) ≡ t
