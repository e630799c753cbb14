-- ===== src/Plan/Input.antt =====
-- `Normalize` of internal/plan/plan.go, which checks what a plan is saved with. The calls on texts that
-- are library functions are parameters.
pub mod Ready
use sajni_api.Prelude.{
  ℕ, ◌+◌, ◌==◌, Bool, true, false, not, ◌&&◌, ◌||◌, Option, none, some, List, [], ◌∷◌, ◌++◌, ltb,
  leb, length, if◌then◌else◌, Result, ok, err, ◌>>=◌, contains,
}
use sajni_api.Prelude.Int.{ℤ, pos, pos_part, ltb_ℤ}
use sajni_api.Calendar.Text.{Text}
use sajni_api.Reminder.Rule.{is_empty}
use sajni_api.Plan.{PlanError, no_name, long_name, bad_color, bad_weekday, no_weekday, bad_start}

-- `strings.TrimSpace`, `strings.ToUpper` and the number of runes of a text.
pub record TextOps : Type 0 where
  pub trim : Text → Text
  pub upper : Text → Text
  pub runes : Text → ℕ

-- `SaveInput`; nil is none.
pub record SaveInput : Type 0 where
  pub name : Text
  pub color : Text
  pub weekdays : Option (List ℤ)
  pub start_time : Text
  pub notify : Option Bool

-- What `Normalize` returns: no field is nil, and the weekdays are from 0 to 6.
pub record Checked : Type 0 where
  pub name : Text
  pub color : Text
  pub weekdays : List ℕ
  pub start_time : Text
  pub notify : Bool

abbrev between : ℕ → ℕ → ℕ → Bool
between lo hi c = leb lo c && leb c hi

-- `colorRe`: `^#[0-9A-Fa-f]{6}$`
abbrev is_hex : ℕ → Bool
is_hex c = between b'0' b'9' c || between b'A' b'F' c || between b'a' b'f' c

unfoldable pub is_color : Text → Bool
is_color (h ∷ a ∷ b ∷ c ∷ d ∷ e ∷ f ∷ []) =
    (h == b'#') && is_hex a && is_hex b && is_hex c && is_hex d && is_hex e && is_hex f
is_color _ = false

-- `clockRe`: `^([01]\d|2[0-3]):[0-5]\d$`
unfoldable pub is_clock : Text → Bool
is_clock (a ∷ b ∷ c ∷ d ∷ e ∷ []) =
    (between b'0' b'1' a && between b'0' b'9' b || (a == b'2') && between b'0' b'3' b)
    && (c == b':')
    && between b'0' b'5' d
    && between b'0' b'9' e
is_clock _ = false

-- "09:00" for an empty text; an hour of one digit gets a zero.
unfoldable pub full_start : Text → Text
full_start [] = b'0' ∷ b'9' ∷ b':' ∷ b'0' ∷ b'0' ∷ []
full_start (a ∷ b ∷ c ∷ d ∷ []) =
    if b == b':' then b'0' ∷ a ∷ b ∷ c ∷ d ∷ [] else a ∷ b ∷ c ∷ d ∷ []
full_start text = text

-- The loop over the weekdays; `days` is the list kept so far.
unfoldable pub distinct_days : List ℕ → List ℤ → Result PlanError (List ℕ)
distinct_days days [] = ok days
distinct_days days (d ∷ weekdays) =
    if ltb_ℤ d (pos 0) || ltb_ℤ (pos 6) d
    then err bad_weekday
    else distinct_days (if contains days (pos_part d) then days else days ++ pos_part d ∷ [])
        weekdays

-- `sort.Ints`
unfoldable pub insert_day : ℕ → List ℕ → List ℕ
insert_day d [] = d ∷ []
insert_day d (x ∷ days) = if ltb x d then x ∷ insert_day d days else d ∷ x ∷ days

unfoldable pub sort_days : List ℕ → List ℕ
sort_days [] = []
sort_days (d ∷ days) = insert_day d (sort_days days)

abbrev pub refuse_plan : PlanError → Bool → Result PlanError Bool
refuse_plan e test = if test then err e else ok test

abbrev pub or_workdays : Option (List ℤ) → List ℤ
or_workdays none = pos 1 ∷ pos 2 ∷ pos 3 ∷ pos 4 ∷ pos 5 ∷ []
or_workdays (some weekdays) = weekdays

abbrev pub or_on : Option Bool → Bool
or_on none = true
or_on (some notify) = notify

-- `Normalize`
unfoldable pub normalize : TextOps → SaveInput → Result PlanError Checked
normalize ops input = do
  let name = ops.trim input.name
  named ← refuse_plan no_name (is_empty name)
  short ← refuse_plan long_name (ltb 80 (ops.runes name))
  let color = ops.upper (ops.trim input.color)
  colored ← refuse_plan bad_color (not (is_empty color) && not (is_color color))
  days ← distinct_days [] (or_workdays input.weekdays)
  some_day ← refuse_plan no_weekday (length days == 0)
  let start_time = full_start (ops.trim input.start_time)
  timed ← refuse_plan bad_start (not (is_clock start_time))
  ok (record {
    name = name;
    color = color;
    weekdays = sort_days days;
    start_time = start_time;
    notify = or_on input.notify;
  })
