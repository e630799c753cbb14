-- ===== src/Calendar/Kolkata.antt =====
-- A zone and a date that the tests share.
use sajni_api.Prelude.{ℕ, ◌+◌, ◌*◌, ◌-◌, arith}
use sajni_api.Calendar.Zone.{Zone, IsSteady, day_length}

-- UTC+05:30: 19800 seconds.
abbrev pub kolkata : Zone
kolkata = record { wall = λ t. t + 19800000000000; instant = λ w. w - 19800000000000 }

pub kolkata-IsSteady : IsSteady kolkata
kolkata-IsSteady = record {
  wall-instant = λ w h. omega arith;
  instant_mono = λ w v h lt. omega arith;
  instant-wall = λ t h. omega arith;
}

-- 16:00 on day `d` in Kolkata.
abbrev pub four_o_clock : ℕ → ℕ
four_o_clock d = d * day_length + 57600000000000 - 19800000000000

-- 2026-08-17, a Monday.
abbrev pub monday : ℕ
monday = 739844
