-- ===== src/Plan.antt =====
-- internal/plan/plan.go: weekly plans, with `On`, `At`, `Next` and `Occurrence` in this file. `scan` is
-- `fmt.Sscanf` with "%d:%d", which reads the hours and minutes of a start time.
pub mod First
pub mod Landing
pub mod Input
pub mod Saved
pub mod AddTask
mod Tests
mod TaskTests
use text.Mathlib.Text.{◌==◌ as str_eq}
use sajni_api.Prelude.{
  ℕ, zero, suc, ◌+◌, ◌*◌, ◌==◌, Bool, true, false, ◌&&◌, ◌||◌, Option, none, some, List, [], ◌∷◌,
  String, ltb, if◌then◌else◌, Result, ok, err, contains,
}
use sajni_api.Prelude.Int.{pos}
use sajni_api.Calendar.{weekday}
use sajni_api.Calendar.Text.{Text, parse_date, format_date}
use sajni_api.Calendar.Zone.{Zone, local_day, at}
use sajni_api.Reminder.Next.{add_date, is_empty}

-- `plans`, without the times of its creation and its last change.
pub record PlanRow : Type 0 where
  pub id : ℕ
  pub user_id : String
  pub name : Text
  pub color : Text
  pub weekdays : List ℕ
  pub start_time : Text
  pub notify : Bool
  pub next_alert_at : Option ℕ
  pub alert_claimed_until : Option ℕ

pub data PlanError : Type 0 where
  not_found bad_date wrong_day no_days : PlanError
  no_task no_name long_name bad_color bad_weekday no_weekday bad_start : PlanError

-- `On`
unfoldable pub on : List ℕ → ℕ → Bool
on weekdays d = contains weekdays (weekday d)

-- `Get`
unfoldable pub get : String → ℕ → List PlanRow → Option PlanRow
get uid id [] = none
get uid id (row ∷ rows) =
    if str_eq row.user_id uid && (row.id == id) then some row else get uid id rows

-- What `Occurrence` returns for the plan's next start.
unfoldable pub next_one : Zone → Option ℕ → Result PlanError (Text × ℕ)
next_one loc none = err no_days
next_one loc (some t) = ok (format_date (local_day loc t), t)

module _ (scan : Text → ℕ × ℕ) where
  unfoldable pub start_clock : Text → ℕ
  start_clock text = let (h, m) = scan text in (h * 60 + m) * 60000000000

  -- `At`
  unfoldable pub start_at : Text → ℕ → Zone → ℕ
  start_at text d loc = at loc d (start_clock text)

  -- The loop of `Next` from day `i` on, with the rounds that are left.
  unfoldable pub next_day : List ℕ → Text → Zone → ℕ → ℕ → ℕ → Option ℕ
  next_day weekdays text loc after zero i = none
  next_day weekdays text loc after (suc left) i =
      let rest = next_day weekdays text loc after left (i + 1) in
      let d = local_day loc (add_date loc after (pos i)) in
      let time = start_at text d loc in if on weekdays d && ltb after time then some time else rest

  unfoldable pub next : List ℕ → Text → Zone → ℕ → Option ℕ
  next weekdays text loc after = next_day weekdays text loc after 8 0

  -- `Occurrence` of a plan on a given date.
  unfoldable pub given_day : PlanRow → Zone → Text → Option ℕ → Result PlanError (Text × ℕ)
  given_day row loc date none = err bad_date
  given_day row loc date (some day) =
      let d = local_day loc (at loc day 0) in
      if on row.weekdays d then ok (date, start_at row.start_time d loc) else err wrong_day

  unfoldable pub occurrence :
      Zone → ℕ → String → ℕ → Text → List PlanRow → Result PlanError (Text × ℕ)
  occurrence loc now uid id date rows = elim (get uid id rows) [
    | none ↦ err not_found
    | some row ↦
        if is_empty date
        then next_one loc (next row.weekdays row.start_time loc now)
        else given_day row loc date (parse_date date)
  ]
