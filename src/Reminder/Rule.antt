-- ===== src/Reminder/Rule.antt =====
-- `Rule`, and `Normalize`, which checks a rule and fills in its defaults. Go's ints are integers
-- here; the start enters by its local date alone.
use text.Mathlib.Text.{◌==◌ as str_eq}
use sajni_api.Prelude.{Result, ok, err, ◌>>=◌}
use sajni_api.Prelude.{
  ℕ, ◌+◌, ◌-◌, ◌/◌, Bool, true, false, not, ◌&&◌, ◌||◌, Option, none, some, List, [], ◌∷◌, ◌++◌,
  String, ltb, if◌then◌else◌,
}
use sajni_api.Prelude.Int.{ℤ, pos, negsuc, ltb_ℤ, eqb_ℤ}
use sajni_api.Calendar.{year, month, date, day_of_month, weekday}
use sajni_api.Calendar.Text.{Text, parse_date}

pub record Rule : Type 0 where
  pub frequency : String
  pub interval : ℤ
  pub weekdays : List ℤ
  pub monthly_mode : String
  pub month_day : ℤ
  pub weekday : ℤ
  pub ordinal : ℤ
  pub until : Text
  pub count : ℤ

-- `Rule{}`
abbrev pub no_rule : Rule
no_rule = record {
  frequency = "";
  interval = pos 0;
  weekdays = [];
  monthly_mode = "";
  month_day = pos 0;
  weekday = pos 0;
  ordinal = pos 0;
  until = [];
  count = pos 0;
}

unfoldable pub recurring : Rule → Bool
recurring r = not (str_eq r.frequency "")

pub data Error : Type 0 where
  bad_frequency bad_interval bad_count bad_until bad_weekday : Error
  bad_month_day bad_monthly_weekday bad_ordinal bad_monthly_mode : Error

-- `daysInMonth`: day 0 of the next month is the last one of this.
unfoldable pub days_in_month : ℕ → ℕ → ℕ
days_in_month y m = day_of_month (date y (m + 1) 0)

unfoldable pub ordinal_in_month : ℕ → ℤ
ordinal_in_month start =
    if ltb (days_in_month (year start) (month start)) (day_of_month start + 7)
    then negsuc 0
    else pos ((day_of_month start - 1) / 7 + 1)

unfoldable pub contains_int : List ℤ → ℤ → Bool
contains_int [] value = false
contains_int (candidate ∷ values) value = eqb_ℤ candidate value || contains_int values value

unfoldable pub out_of_range : ℤ → ℕ → ℕ → Bool
out_of_range z lo hi = ltb_ℤ z (pos lo) || ltb_ℤ (pos hi) z

-- The loop over the weekdays; `seen` is the list kept so far.
unfoldable pub distinct_weekdays : List ℤ → List ℤ → Result Error (List ℤ)
distinct_weekdays seen [] = ok seen
distinct_weekdays seen (weekday ∷ weekdays) =
    if out_of_range weekday 0 6
    then err bad_weekday
    else distinct_weekdays (if contains_int seen weekday then seen else seen ++ weekday ∷ [])
        weekdays

-- `sort.Ints`
unfoldable pub insert_int : ℤ → List ℤ → List ℤ
insert_int a [] = a ∷ []
insert_int a (x ∷ xs) = if ltb_ℤ x a then x ∷ insert_int a xs else a ∷ x ∷ xs

unfoldable pub sort_ints : List ℤ → List ℤ
sort_ints [] = []
sort_ints (x ∷ xs) = insert_int x (sort_ints xs)

abbrev pub is_empty {ℓ} : {A : Type ℓ} → List A → Bool
is_empty [] = true
is_empty (x ∷ xs) = false

abbrev pub is_none {ℓ} : {A : Type ℓ} → Option A → Bool
is_none none = true
is_none (some a) = false

-- The checks on frequency, interval, count and until; the interval's default is 1.
unfoldable pub normalize_basics : Rule → Result Error Rule
normalize_basics rule =
    let interval : ℤ = if eqb_ℤ rule.interval (pos 0) then pos 1 else rule.interval in
    if not (
      str_eq rule.frequency "daily"
      || str_eq rule.frequency "weekly"
      || str_eq rule.frequency "monthly"
      || str_eq rule.frequency "yearly")
    then err bad_frequency
    else if out_of_range interval 1 999
    then err bad_interval
    else if out_of_range rule.count 0 100000
    then err bad_count
    else if not (is_empty rule.until) && is_none (parse_date rule.until)
    then err bad_until
    else ok (record rule { interval = interval })

-- The weekdays of a weekly rule, by default that of the start; other rules have none.
unfoldable pub normalize_weekdays : ℕ → Rule → Result Error Rule
normalize_weekdays start rule =
    if str_eq rule.frequency "weekly"
    then (do
      weekdays ←
          distinct_weekdays []
            (if is_empty rule.weekdays then pos (weekday start) ∷ [] else rule.weekdays)
      ok (record rule { weekdays = sort_ints weekdays }))
    else ok (record rule { weekdays = [] })

-- The two modes of a monthly rule; a rule of another frequency loses these fields.
unfoldable pub normalize_date_mode : ℕ → Rule → Result Error Rule
normalize_date_mode start rule =
    let month_day : ℤ =
      if eqb_ℤ rule.month_day (pos 0) then pos (day_of_month start) else rule.month_day in
    if out_of_range month_day 1 31
    then err bad_month_day
    else ok (record rule { month_day = month_day })

unfoldable pub normalize_weekday_mode : ℕ → Rule → Result Error Rule
normalize_weekday_mode start rule =
    let ordinal : ℤ = if eqb_ℤ rule.ordinal (pos 0) then ordinal_in_month start else rule.ordinal in
    if out_of_range rule.weekday 0 6
    then err bad_monthly_weekday
    else if not (eqb_ℤ ordinal (negsuc 0)) && out_of_range ordinal 1 5
    then err bad_ordinal
    else ok (record rule { ordinal = ordinal })

unfoldable pub normalize_monthly : ℕ → Rule → Result Error Rule
normalize_monthly start rule =
    if str_eq rule.frequency "monthly"
    then (let mode : String = if str_eq rule.monthly_mode "" then "date" else rule.monthly_mode in
        let moded = record rule { monthly_mode = mode } in
        if str_eq mode "date"
        then normalize_date_mode start moded
        else if str_eq mode "weekday"
        then normalize_weekday_mode start moded
        else err bad_monthly_mode)
    else ok (record rule { monthly_mode = ""; month_day = pos 0; weekday = pos 0; ordinal = pos 0 })

unfoldable pub normalize : Rule → ℕ → Result Error Rule
normalize rule start = if str_eq rule.frequency "" then ok no_rule else (do
  basics ← normalize_basics rule
  weekly ← normalize_weekdays start basics
  normalize_monthly start weekly)
