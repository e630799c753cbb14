-- ===== src/Reminder/Normal.antt =====
-- What `Normalize` accepts and returns: a rule within the limits, with only the fields that its
-- frequency uses; and such a rule is left as it is.
pub mod Weekdays
use text.Mathlib.Text.{◌==◌ as str_eq}
use text.Mathlib.TextEquality.{eq_iff}
use sajni_api.Prelude.{Result, ok, err, ◌>>=◌, Result-cases, ok_of_bind}
use sajni_api.Prelude.{
  ℕ, Bool, true, false, not, ◌&&◌, ◌||◌, Option, none, some, List, [], ◌∷◌, String, if◌then◌else◌,
  ◌≡◌, arith, Bool-cases, inl, inr, ◌⊎◌, refl, sym, ap, ◌∙◌,
}
use sajni_api.Prelude.Int.{ℤ, pos, negsuc, ltb_ℤ, eqb_ℤ, eq_of_eqb_ℤ}
use sajni_api.Calendar.{weekday}
use sajni_api.Calendar.Text.{Text, parse_date}
use sajni_api.Reminder.Rule.{
  Rule, no_rule, Error, bad_frequency, out_of_range, is_empty, is_none, distinct_weekdays,
  sort_ints, normalize_basics, normalize_weekdays, normalize_date_mode, normalize_weekday_mode,
  normalize_monthly, normalize, recurring,
}
use Weekdays.{
  is_ascending, in_week, sort_ascending, in_week-sort_ints, is_empty-sort_ints,
  distinct_weekdays_lem, distinct_ascending, sort_fixed,
}

abbrev pub known_frequency : String → Bool
known_frequency f = str_eq f "daily" || str_eq f "weekly" || str_eq f "monthly" || str_eq f "yearly"

abbrev pub basics_normal : Rule → Bool
basics_normal r =
    known_frequency r.frequency
    && not (out_of_range r.interval 1 999)
    && not (out_of_range r.count 0 100000)
    && (is_empty r.until || not (is_none (parse_date r.until)))

-- A weekly rule names weekdays, in order and none twice; any other names none.
abbrev pub weekdays_normal : Rule → Bool
weekdays_normal r =
    if str_eq r.frequency "weekly"
    then not (is_empty r.weekdays) && in_week r.weekdays && is_ascending r.weekdays
    else is_empty r.weekdays

abbrev pub monthly_normal : Rule → Bool
monthly_normal r =
    if str_eq r.frequency "monthly"
    then (if str_eq r.monthly_mode "date"
        then not (out_of_range r.month_day 1 31)
        else str_eq r.monthly_mode "weekday"
          && not (out_of_range r.weekday 0 6)
          && (eqb_ℤ r.ordinal (negsuc 0) || not (out_of_range r.ordinal 1 5)))
    else str_eq r.monthly_mode ""
      && eqb_ℤ r.month_day (pos 0)
      && eqb_ℤ r.weekday (pos 0)
      && eqb_ℤ r.ordinal (pos 0)

-- The limits that a stored rule keeps.
pub record IsNormal (r : Rule) : Type 0 where
  pub basics : basics_normal r ≡ true
  pub weekdays : weekdays_normal r ≡ true
  pub monthly : monthly_normal r ≡ true

basics_lem :
    (rule r : Rule)
    → normalize_basics rule ≡ ok r
    → (basics_normal r ≡ true) × (r.frequency ≡ rule.frequency) × (r.weekdays ≡ rule.weekdays)
unfolding normalize_basics
basics_lem rule r h = ground arith

weekdays_lem :
    (start : ℕ) (rule r : Rule)
    → normalize_weekdays start rule ≡ ok r
    → basics_normal rule ≡ true
    → (basics_normal r ≡ true) × (weekdays_normal r ≡ true)
unfolding normalize_weekdays
weekdays_lem start rule r h b =
    let given : List ℤ =
      if is_empty rule.weekdays then pos (weekday start) ∷ [] else rule.weekdays in
    let some_given : is_empty given ≡ false = ground arith in
    elim (Result-cases (distinct_weekdays [] given)) [
      | inl (weekdays, e) ↦
          let (inside, once, some_kept) =
            distinct_weekdays_lem [] given weekdays e refl refl (inr some_given) in
          let sorted = sort_ascending weekdays once in
          ground (arith, in_week-sort_ints weekdays, is_empty-sort_ints weekdays)
      | inr (error, e) ↦ ground arith
    ]

date_mode_lem :
    (start : ℕ) (rule r : Rule)
    → normalize_date_mode start rule ≡ ok r
    → basics_normal rule ≡ true
    → weekdays_normal rule ≡ true
    → str_eq rule.frequency "monthly" ≡ true
    → str_eq rule.monthly_mode "date" ≡ true
    → IsNormal r
unfolding normalize_date_mode
date_mode_lem start rule r h b w m d = ground arith

weekday_mode_lem :
    (start : ℕ) (rule r : Rule)
    → normalize_weekday_mode start rule ≡ ok r
    → basics_normal rule ≡ true
    → weekdays_normal rule ≡ true
    → str_eq rule.frequency "monthly" ≡ true
    → str_eq rule.monthly_mode "date" ≡ false
    → str_eq rule.monthly_mode "weekday" ≡ true
    → IsNormal r
unfolding normalize_weekday_mode
weekday_mode_lem start rule r h b w m d e = ground arith

monthly_lem :
    (start : ℕ) (rule r : Rule)
    → normalize_monthly start rule ≡ ok r
    → basics_normal rule ≡ true
    → weekdays_normal rule ≡ true
    → IsNormal r
unfolding normalize_monthly
monthly_lem start rule r h b w =
    let mode : String = if str_eq rule.monthly_mode "" then "date" else rule.monthly_mode in
    let moded = record rule { monthly_mode = mode } in
    elim (Bool-cases (str_eq rule.frequency "monthly")) [
      | inl is_monthly ↦ elim (Bool-cases (str_eq mode "date")) [
        | inl is_date ↦ date_mode_lem start moded r (ground arith) b w is_monthly is_date
        | inr not_date ↦ elim (Bool-cases (str_eq mode "weekday")) [
          | inl is_weekday ↦
              weekday_mode_lem start moded r (ground arith) b w is_monthly not_date is_weekday
          | inr neither ↦ absurd (ground arith)
        ]
      ]
      | inr other ↦ ground (arith, eq_iff r.monthly_mode "", h)
    ]

-- What `Normalize` returns for a repeating rule keeps every limit.
pub normalize-IsNormal :
    (rule r : Rule) (start : ℕ) → recurring rule ≡ true → normalize rule start ≡ ok r → IsNormal r
unfolding normalize recurring
normalize-IsNormal rule r start repeats h =
    let rest : Rule → Result Error Rule =
      λ basics. normalize_weekdays start basics >>= normalize_monthly start in
    let (basics, e, h1) = ok_of_bind {rest = rest} (normalize_basics rule) (ground arith) in
    let (weekly, f, h2) =
      ok_of_bind {rest = normalize_monthly start} (normalize_weekdays start basics) h1 in
    let basic = basics_lem rule basics e in
    let week = weekdays_lem start basics weekly f basic.0 in
    monthly_lem start weekly r h2 week.0 week.1

basics_fixed : (r : Rule) → basics_normal r ≡ true → normalize_basics r ≡ ok r
unfolding normalize_basics out_of_range
basics_fixed r h = ground arith

weekdays_fixed :
    (r : Rule) (start : ℕ) → weekdays_normal r ≡ true → normalize_weekdays start r ≡ ok r
unfolding normalize_weekdays
weekdays_fixed r start h = ground (arith, distinct_ascending r.weekdays, sort_fixed r.weekdays)

date_mode_fixed :
    (r : Rule) (start : ℕ)
    → out_of_range r.month_day 1 31 ≡ false
    → normalize_date_mode start r ≡ ok r
unfolding normalize_date_mode out_of_range
date_mode_fixed r start h = ground arith

weekday_mode_fixed :
    (r : Rule) (start : ℕ)
    → (not (out_of_range r.weekday 0 6)
        && (eqb_ℤ r.ordinal (negsuc 0) || not (out_of_range r.ordinal 1 5)))
      ≡ true
    → normalize_weekday_mode start r ≡ ok r
unfolding normalize_weekday_mode out_of_range
weekday_mode_fixed r start h = ground arith

no_mode :
    (mode : String)
    → str_eq mode "" ≡ true
    → (str_eq mode "date" ≡ false) × (str_eq mode "weekday" ≡ false)
no_mode mode h =
    let e = (eq_iff mode "").0 h in (ap (λ m. str_eq m "date") e, ap (λ m. str_eq m "weekday") e)

other_fixed :
    (r : Rule) (start : ℕ)
    → monthly_normal r ≡ true
    → str_eq r.frequency "monthly" ≡ false
    → normalize_monthly start r ≡ ok r
unfolding normalize_monthly
other_fixed r start h m =
    let no_day = eq_of_eqb_ℤ r.month_day (pos 0) (ground arith) in
    let no_weekday = eq_of_eqb_ℤ r.weekday (pos 0) (ground arith) in
    let no_ordinal = eq_of_eqb_ℤ r.ordinal (pos 0) (ground arith) in
    let empty = (eq_iff r.monthly_mode "").0 (ground arith) in
    rw m (
      ap ok (λ i. record r {
        monthly_mode = sym empty i;
        month_day = sym no_day i;
        weekday = sym no_weekday i;
        ordinal = sym no_ordinal i;
      }))

monthly_fixed : (r : Rule) (start : ℕ) → monthly_normal r ≡ true → normalize_monthly start r ≡ ok r
monthly_fixed r start h = elim (Bool-cases (str_eq r.frequency "monthly")) [
  | inr other ↦ other_fixed r start h other
  | inl is_monthly ↦
      let moded : str_eq r.monthly_mode "" ≡ false = ground (arith, no_mode r.monthly_mode) in
      elim (Bool-cases (str_eq r.monthly_mode "date")) [
        | inl is_date ↦
            let fixed = date_mode_fixed r start (ground arith) in
            unfold normalize_monthly in rw (is_monthly, moded, is_date) fixed
        | inr not_date ↦
            let weekday_mode : str_eq r.monthly_mode "weekday" ≡ true = ground arith in
            let fixed = weekday_mode_fixed r start (ground arith) in
            unfold normalize_monthly in rw (is_monthly, moded, not_date, weekday_mode) fixed
      ]
]

-- `Normalize` leaves a repeating rule within the limits as it is, whatever the start.
pub normalize_fixed :
    (r : Rule) (start : ℕ) → recurring r ≡ true → IsNormal r → normalize r start ≡ ok r
unfolding normalize recurring
normalize_fixed r start repeats h =
    let first = basics_fixed r h.basics in
    let second = weekdays_fixed r start h.weekdays in
    let third = monthly_fixed r start h.monthly in ground arith
