-- ===== src/Media/Tests.antt =====
-- Runs of internal/media/status.go, and a theorem at an input: a show that is released on the day
-- after Monday 2026-08-17.
use text.Mathlib.Text.{◌==◌ as str_eq}
use sajni_api.Prelude.{◌+◌, ◌<◌, ◌≡◌, ◌↔◌, ◌||◌, true, some, arith, refl}
use sajni_api.Calendar.{year, month_index, find_month, days_before_year}
use sajni_api.Calendar.Text.{format_date}
use sajni_api.Calendar.Kolkata.{monday}
use sajni_api.Media.{complete, pending, upcoming, normalize_status, resolve_status}
use sajni_api.Media.Resolved.{resolve_status-upcoming}

normalize-done : normalize_status "done" ≡ some complete
unfolding normalize_status
normalize-done = refl

resolve_status-upcoming_example :
    (resolve_status "show" pending (format_date (monday + 1)) monday ≡ upcoming)
    ↔ (((str_eq "show" "movie" || str_eq "show" "show") ≡ true) × (monday < monday + 1))
unfolding year month_index find_month days_before_year
resolve_status-upcoming_example =
    resolve_status-upcoming "show" pending (monday + 1) monday (omega arith) (omega arith)
