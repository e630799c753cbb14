-- ===== src/Reminder/Next/Occurrence.antt =====
-- What `Next` promises of a rule that `Normalize` returned: the occurrence is on a later day, at the
-- time of day of the series, and not past the last day.
use text.Mathlib.TextEquality.{eq_iff}
use text.Mathlib.Text.{◌==◌ as str_eq}
use sajni_api.Prelude.{
  ℕ, zero, suc, ◌+◌, ◌-◌, ◌*◌, ◌/◌, ◌%◌, ◌≤◌, ◌<◌, ◌≡◌, ◌≢◌, min, true, false, Option, none, some,
  arith, Option-cases, Bool-cases, inl, inr, ◌⊎◌, refl, sym, ap, ◌∙◌, subst, String,
}
use sajni_api.Prelude.Int.{ℤ, pos, negsuc, ltb_ℤ, pos_part, neg_part}
use sajni_api.Calendar.{date, year, month, day_of_month, month_length, month_index, month_start}
use sajni_api.Calendar.Civil.{
  field_bounds, year_holds, month_index-fields, month_index-date, month_index_holds,
}
use sajni_api.Calendar.Months.{month_length_bounds, month_start_mono}
use sajni_api.Calendar.Text.{format_date, text_ltb, text_ltb-format_date}
use sajni_api.Calendar.Zone.{Zone, IsSteady, local_day, clock}
use sajni_api.Reminder.Rule.{Rule, out_of_range}
use sajni_api.Reminder.Normal.{IsNormal}
use sajni_api.Reminder.Next.{
  add_date, local_date_time, weekly_candidate, next_weekly, later_month, monthly_loop, next_monthly,
  candidate_after, within_until, occurs, next, is_empty, nth_weekday,
}
use sajni_api.Reminder.Next.Fields.{
  IsAt, add_date-IsAt, local_date_time-IsAt, clamped, later_month-lt,
}
use sajni_api.Reminder.Next.Weekly.{weekly_candidate-IsAt, FirstMatch, weekly_loop-FirstMatch}
use sajni_api.Reminder.Next.Monthly.{nth_weekday-IsNth}

-- `t` is on a later local day than `current`, at time of day `time`.
pub record IsLater (zone : Zone) (current time t : ℕ) : Type 0 where
  pub later : local_day zone current < local_day zone t
  pub at_time : clock zone t ≡ time

IsAt-IsLater :
    (zone : Zone) (current d time t : ℕ)
    → IsAt zone d time t
    → local_day zone current < d
    → IsLater zone current time t
IsAt-IsLater zone current d time t h lt = record { later = rw h.on_day lt; at_time = h.at_time }

of_some : {a b : ℕ} → some a ≡ some b → a ≡ b
of_some h = cc

-- A month past that of a day begins after it.
pub later_start : (n k : ℕ) → month_index n < k → n < month_start k
later_start n k h =
    let holds = month_index_holds n in
    omega (arith, month_start_mono (suc (month_index n)) k (omega arith) h)

positive : (z : ℤ) → ltb_ℤ z (pos 1) ≡ false → (i : ℕ) × (z ≡ pos (suc i))
positive (pos zero) h = absurd (ground arith)
positive (pos (suc i)) h = (i, refl)
positive (negsuc n) h = absurd (ground arith)

-- The first day of month `k` is the start of that month.
first_day : {n : ℕ} (k : ℕ) → n < month_start k → 1 ≤ date (k / 12) (k % 12 + 1) 1
unfolding date
first_day k h = let same : k / 12 * 12 + (k % 12 + 1) - 1 ≡ k = omega arith in rw same (omega arith)

weekday_mode : (mode : String) → str_eq mode "weekday" ≡ true → str_eq mode "date" ≡ false
weekday_mode mode h = ap (λ m. str_eq m "date") ((eq_iff mode "weekday").0 h)

within_until_lem :
    {t : ℕ} (zone : Zone) (rule : Rule) (o : Option ℕ)
    → within_until zone rule o ≡ occurs t
    → (o ≡ some t)
      × (t ≢ 0)
      × ((is_empty rule.until ≡ true)
          ⊎ (text_ltb rule.until (format_date (local_day zone t)) ≡ false))
unfolding within_until
within_until_lem zone rule none h = cc
within_until_lem zone rule (some next_time) h = ground arith

module _ (zone : Zone) (start current : ℕ) (rule : Rule) (steady : IsSteady zone)
    (normal : IsNormal rule) (first : 1 ≤ local_day zone current) where
  positive_interval : (i : ℕ) × (rule.interval ≡ pos (suc i))
  unfolding out_of_range
  positive_interval = positive rule.interval (ground (arith, normal.basics))

  daily-IsLater : IsLater zone current (clock zone current) (add_date zone current rule.interval)
  daily-IsLater =
      let (i, e) = positive_interval in
      rw e (
        IsAt-IsLater zone current (local_day zone current + suc i) (clock zone current)
          (add_date zone current (pos (suc i))) (add_date-IsAt zone current (suc i) steady first)
          (omega arith))

  weekly-IsLater :
      {t : ℕ}
      → t ≢ 0
      → next_weekly zone start current rule ≡ some t
      → IsLater zone current (clock zone start) t
  unfolding next_weekly FirstMatch
  weekly-IsLater {t} some_time h = elim (weekly_loop-FirstMatch zone start current rule 3660 1 h) [
    | inl nothing ↦ absurd (some_time nothing)
    | inr (k, lt, at, matches, skipped) ↦ subst (IsLater zone current (clock zone start)) (sym at) (
        IsAt-IsLater zone current (local_day zone current + (1 + k)) (clock zone start)
          (weekly_candidate zone start current (1 + k))
          (weekly_candidate-IsAt zone start current (1 + k) steady first) (omega arith))
  ]

  later_month-past :
      (attempts : ℕ)
      → 1 ≤ attempts
      → (month_index (local_day zone current) < later_month zone current rule attempts)
        × (12 ≤ later_month zone current rule attempts)
  unfolding later_month
  later_month-past attempts h =
      let (i, e) = positive_interval in
      let fields = month_index-fields (local_day zone current) in
      let holds = month_index_holds (local_day zone current) in
      let grows : 1 ≤ attempts * suc i = grind arith in rw e (omega arith, omega arith)

  -- What the loop returns in the month that it looks at.
  month-IsLater :
      (k d time t : ℕ)
      → 12 ≤ k
      → month_index (local_day zone current) < k
      → 1 ≤ d
      → d ≤ month_length (k / 12) (k % 12 + 1)
      → IsAt zone (date (k / 12) (k % 12 + 1) d) time t
      → IsLater zone current time t
  month-IsLater k d time t low past lo hi lands =
      let here =
        month_index-date (k / 12) (k % 12 + 1) d (omega arith) (omega arith) (omega arith) lo hi in
      IsAt-IsLater zone current (date (k / 12) (k % 12 + 1) d) time t lands
        (later_month-lt (local_day zone current) (date (k / 12) (k % 12 + 1) d) (omega arith))

  date_mode-IsLater :
      (k : ℕ)
      → 12 ≤ k
      → month_index (local_day zone current) < k
      → out_of_range rule.month_day 1 31 ≡ false
      → IsLater zone current
          (clock zone current)
          (local_date_time zone (k / 12) (k % 12 + 1) rule.month_day current)
  unfolding clamped out_of_range
  date_mode-IsLater k low past h =
      let (n, e) = positive rule.month_day (ground arith) in
      let y = k / 12 in
      let m = k % 12 + 1 in
      let most = month_length_bounds y m in
      let d : ℕ = min (suc n) (month_length y m) in
      let here =
        month_index-date y m d (omega arith) (omega arith) (omega arith) (omega arith)
          (omega arith) in
      let after = later_month-lt (local_day zone current) (date y m d) (omega arith) in
      rw e (
        month-IsLater k d (clock zone current) (local_date_time zone y m (pos (suc n)) current) low
          past (omega arith) (omega arith)
          (local_date_time-IsAt zone y m (suc n) current steady (omega arith) (omega arith)
            (omega arith) (omega arith) (omega arith)))

  monthly-IsLater :
      (left attempts : ℕ)
      → 1 ≤ attempts
      → str_eq rule.frequency "monthly" ≡ true
      → monthly_loop zone current rule left attempts ≢ 0
      → IsLater zone current (clock zone current) (monthly_loop zone current rule left attempts)
  unfolding monthly_loop
  monthly-IsLater zero attempts h m some_time = absurd (some_time refl)
  monthly-IsLater (suc left) attempts h m some_time =
      let k = later_month zone current rule attempts in
      let (past, low) = later_month-past attempts h in
      let starts = later_start (local_day zone current) k past in
      let limits = normal.monthly in
      elim (Bool-cases (str_eq rule.monthly_mode "weekday")) [
        | inr by_date ↦ rw by_date (date_mode-IsLater k low past (ground arith))
        | inl by_weekday ↦
            let not_date = weekday_mode rule.monthly_mode by_weekday in
            elim (Option-cases
              (nth_weekday zone (k / 12) (k % 12 + 1) rule.weekday rule.ordinal current)) [
                | inr (c, e) ↦
                    let nth =
                      nth_weekday-IsNth zone (k / 12) (k % 12 + 1) current steady (omega arith)
                        (omega arith) (omega arith) (first_day k starts) rule.weekday rule.ordinal
                        (ground arith) (ground arith) e in
                    rw (by_weekday, e)
                      (month-IsLater k nth.d (clock zone current) c low past nth.in_month.0
                        nth.in_month.1 nth.found)
                | inl e ↦
                    rw (by_weekday, e)
                      (monthly-IsLater left (attempts + 1) (omega arith) m
                        (rw (by_weekday, e) at some_time))
              ]
      ]

  yearly-IsLater : IsLater zone current (clock zone start) (
      local_date_time zone
        (year (local_day zone current) + pos_part rule.interval - neg_part rule.interval)
        (month (local_day zone start))
        (pos (day_of_month (local_day zone start)))
        start)
  unfolding clamped
  yearly-IsLater =
      let (i, e) = positive_interval in
      let s = local_day zone start in
      let y : ℕ = year (local_day zone current) + suc i in
      let m = month s in
      let bounds = field_bounds s in
      let from_year = year_holds (local_day zone current) in
      let now = month_index-fields (local_day zone current) in
      let now_bounds = field_bounds (local_day zone current) in
      let most = month_length_bounds y m in
      let d : ℕ = min (day_of_month s) (month_length y m) in
      let here =
        month_index-date y m d (omega arith) bounds.0 bounds.1 (omega arith) (omega arith) in
      let after = later_month-lt (local_day zone current) (date y m d) (omega arith) in
      let same : y - 0 ≡ y = omega arith in
      rw e (
        rw same (
          IsAt-IsLater zone current (date y m d) (clock zone start)
            (local_date_time zone y m (pos (day_of_month s)) start)
            (local_date_time-IsAt zone y m (day_of_month s) start steady (omega arith) bounds.0
              bounds.1 bounds.2 (omega arith))
            after))

  candidate-IsLater :
      {t : ℕ}
      → clock zone current ≡ clock zone start
      → t ≢ 0
      → candidate_after zone start current rule ≡ some t
      → IsLater zone current (clock zone start) t
  unfolding candidate_after
  candidate-IsLater {t} same some_time h = elim (Bool-cases (str_eq rule.frequency "daily")) [
    | inl day ↦ subst (IsLater zone current (clock zone start)) (of_some (rw day at h)) (
        subst (λ c. IsLater zone current c (add_date zone current rule.interval)) same
          daily-IsLater)
    | inr not_day ↦ elim (Bool-cases (str_eq rule.frequency "weekly")) [
      | inl week ↦ weekly-IsLater some_time (rw (not_day, week) at h)
      | inr not_week ↦ elim (Bool-cases (str_eq rule.frequency "monthly")) [
        | inl each_month ↦
            let t_is : next_monthly zone current rule ≡ t =
              of_some (rw (not_day, not_week, each_month) at h) in
            unfold next_monthly in
            subst (IsLater zone current (clock zone start)) t_is (
              subst (λ c. IsLater zone current c (next_monthly zone current rule)) same
                (monthly-IsLater 1200 1 (omega arith) each_month (λ e. some_time (sym t_is ∙ e))))
        | inr not_month ↦ elim (Bool-cases (str_eq rule.frequency "yearly")) [
          | inl each_year ↦
              subst (IsLater zone current (clock zone start))
                (of_some (rw (not_day, not_week, not_month, each_year) at h)) yearly-IsLater
          | inr neither ↦
              absurd (some_time (sym (of_some (rw (not_day, not_week, not_month, neither) at h))))
        ]
      ]
    ]
  ]

format_date-some : (n : ℕ) → is_empty (format_date n) ≡ false
unfolding format_date
format_date-some n = refl

-- From an occurrence at the series' time of day, a rule that `Normalize` accepted and a zone whose
-- clocks are never changed: the next occurrence is on a later local day, at that time of day.
pub next-IsLater :
    (zone : Zone) (start current sequence : ℕ) (rule : Rule) (t : ℕ)
    → IsSteady zone
    → IsNormal rule
    → 1 ≤ local_day zone current
    → clock zone current ≡ clock zone start
    → next start current sequence rule (some zone) ≡ occurs t
    → IsLater zone current (clock zone start) t
unfolding next
next-IsLater zone start current sequence rule t steady normal first same h =
    let (found, some_time, _) =
      within_until_lem {t = t} zone rule (candidate_after zone start current rule) (ground arith) in
    candidate-IsLater zone start current rule steady normal first same some_time found

-- An occurrence is not past the last day that the rule names, up to the year 9999.
pub next_until :
    (zone : Zone) (start current sequence : ℕ) (rule : Rule) (t last : ℕ)
    → rule.until ≡ format_date last
    → year last ≤ 9999
    → year (local_day zone t) ≤ 9999
    → next start current sequence rule (some zone) ≡ occurs t
    → local_day zone t ≤ last
unfolding next
next_until zone start current sequence rule t last e small late h =
    let (_, _, kept) =
      within_until_lem {t = t} zone rule (candidate_after zone start current rule) (ground arith) in
    let written = format_date-some last in
    let order = text_ltb-format_date last (local_day zone t) small late in
    elim kept [
      | inl nothing ↦ absurd (ground arith)
      | inr inside ↦ ground (arith, ap (λ text. text_ltb text (format_date (local_day zone t))) e)
    ]
