-- ===== src/Media/Resolved.antt =====
-- What the statuses of a library item can be.
use text.Mathlib.Text.{◌==◌ as str_eq}
use sajni_api.Prelude.{
  ℕ, ◌≤◌, ◌<◌, ◌≡◌, ◌≢◌, ◌↔◌, Bool, true, false, ◌||◌, some, String, refl, Bool-cases, ltb→lt,
  lt→ltb, inl, inr, ltb, sym, ap, ◌∙◌,
}
use sajni_api.Calendar.{year}
use sajni_api.Calendar.Text.{
  Text, format_date, parse_date, parse_date-format_date, text_ltb-format_date,
}
use sajni_api.TaskRepeat.Rules.{take}
use sajni_api.Media.{
  Status, pending, in_progress, waiting, complete, new_season, upcoming, dropped, scratched,
  archived, status_text, normalize_status, resolve_status, is_future, not_upcoming,
}

-- The text of a status, read again, is that status.
pub normalize_status-status_text : (s : Status) → normalize_status (status_text s) ≡ some s
unfolding normalize_status status_text
normalize_status-status_text pending = refl
normalize_status-status_text in_progress = refl
normalize_status-status_text waiting = refl
normalize_status-status_text complete = refl
normalize_status-status_text new_season = refl
normalize_status-status_text upcoming = refl
normalize_status-status_text dropped = refl
normalize_status-status_text scratched = refl
normalize_status-status_text archived = refl

true_not : true ≢ false
true_not h = cc

upcoming_not : (s : Status) → not_upcoming s ≢ upcoming
upcoming_not pending h = cc
upcoming_not in_progress h = cc
upcoming_not waiting h = cc
upcoming_not complete h = cc
upcoming_not new_season h = cc
upcoming_not upcoming h = cc
upcoming_not dropped h = cc
upcoming_not scratched h = cc
upcoming_not archived h = cc

resolved_by :
    (kind : String) (requested : Status) (text : Text) (today : ℕ)
    → take 10 text ≡ text
    → (future : Bool) → is_future (parse_date text) (format_date today) text ≡ future
    → (resolve_status kind requested text today ≡ upcoming)
      ↔ (((str_eq kind "movie" || str_eq kind "show") ≡ true) × (future ≡ true))
unfolding resolve_status
resolved_by kind requested text today short future e =
    elim (Bool-cases (str_eq kind "movie" || str_eq kind "show")) [
      | inr other ↦ (
        λ h. absurd (upcoming_not requested (rw (resolve_status, short, other) at h)),
        λ h. absurd (true_not (sym h.0 ∙ other)),
      )
      | inl releasable ↦ elim (Bool-cases future) [
        | inl later ↦
            (λ h. (releasable, later), λ h. rw (resolve_status, short, releasable, e, later) refl)
        | inr past ↦ (
          λ h.
              absurd
                (upcoming_not requested (rw (resolve_status, short, releasable, e, past) at h)),
          λ h. absurd (true_not (sym h.1 ∙ past)),
        )
      ]
    ]

dated :
    (release today : ℕ)
    → year release ≤ 9999
    → year today ≤ 9999
    → is_future (parse_date (format_date release)) (format_date today) (format_date release)
      ≡ ltb today release
dated release today small late =
    ap (λ o. is_future o (format_date today) (format_date release))
      (parse_date-format_date release small)
    ∙ text_ltb-format_date today release late small

-- For a release date `release` up to the year 9999: an item is upcoming exactly when it is a movie or
-- show that is released after today, whatever status was asked for.
pub resolve_status-upcoming :
    (kind : String) (requested : Status) (release today : ℕ)
    → year release ≤ 9999
    → year today ≤ 9999
    → (resolve_status kind requested (format_date release) today ≡ upcoming)
      ↔ (((str_eq kind "movie" || str_eq kind "show") ≡ true) × (today < release))
unfolding format_date
resolve_status-upcoming kind requested release today small late =
    let both =
      resolved_by kind requested (format_date release) today refl (ltb today release)
        (dated release today small late) in
    (
      λ h. ((both.0 h).0, ltb→lt today release (both.0 h).1),
      λ h. both.1 (h.0, lt→ltb today release h.1),
    )
