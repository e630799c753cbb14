-- ===== src/Media.antt =====
-- internal/media/status.go: the statuses of the media library. `folded` is the source's
-- `strings.ToLower(strings.TrimSpace(raw))`, and `trimmed` its `strings.TrimSpace(releaseDate)`.
pub mod Resolved
pub mod Progress
mod Tests
mod ProgressTests
use text.Mathlib.Text.{◌==◌ as str_eq}
use sajni_api.Prelude.{
  ℕ, Bool, true, false, ◌&&◌, ◌||◌, Option, none, some, String, leb, length, if◌then◌else◌,
}
use sajni_api.Calendar.Text.{Text, format_date, parse_date, text_ltb}
use sajni_api.TaskRepeat.Rules.{take}

pub data Status : Type 0 where
  pending in_progress waiting complete new_season upcoming dropped scratched archived : Status

-- The canonical text of a status.
unfoldable pub status_text : Status → String
status_text pending = "pending"
status_text in_progress = "in_progress"
status_text waiting = "waiting"
status_text complete = "complete"
status_text new_season = "new_season"
status_text upcoming = "upcoming"
status_text dropped = "dropped"
status_text scratched = "scratched"
status_text archived = "archived"

-- The switch of `NormalizeStatus`.
unfoldable pub normalize_status : String → Option Status
normalize_status folded =
    if str_eq folded ""
    then some pending
    else if str_eq folded "pending"
        || str_eq folded "planned"
        || str_eq folded "plan"
        || str_eq folded "queue"
        || str_eq folded "queued"
        || str_eq folded "want_to_watch"
        || str_eq folded "want-to-watch"
    then some pending
    else if str_eq folded "in_progress"
        || str_eq folded "in progress"
        || str_eq folded "in-progress"
        || str_eq folded "watching"
        || str_eq folded "reading"
        || str_eq folded "started"
    then some in_progress
    else if str_eq folded "waiting"
    then some waiting
    else if str_eq folded "complete"
        || str_eq folded "completed"
        || str_eq folded "done"
        || str_eq folded "finished"
        || str_eq folded "watched"
        || str_eq folded "read"
    then some complete
    else if str_eq folded "new_season" || str_eq folded "new season" || str_eq folded "new-season"
    then some new_season
    else if str_eq folded "upcoming"
    then some upcoming
    else if str_eq folded "dropped" || str_eq folded "drop"
    then some dropped
    else if str_eq folded "scratched" || str_eq folded "scratch"
    then some scratched
    else if str_eq folded "archived" || str_eq folded "archive"
    then some archived
    else none

-- `len(releaseDate) >= 10`: a shorter text is kept, and is no date.
abbrev pub is_future : Option ℕ → Text → Text → Bool
is_future none today date = false
is_future (some d) today date = text_ltb today date

abbrev pub not_upcoming : Status → Status
not_upcoming upcoming = pending
not_upcoming status = status

-- `ResolveStatus`, on the local date `today`.
unfoldable pub resolve_status : String → Status → Text → ℕ → Status
resolve_status kind requested trimmed today =
    let date = take 10 trimmed in
    if (str_eq kind "movie" || str_eq kind "show")
      && is_future (parse_date date) (format_date today) date
    then upcoming
    else not_upcoming requested
