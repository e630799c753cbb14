-- ===== src/Reminder/Next/Monthly.antt =====
-- `nthWeekday` finds the day that it names: the n-th such weekday of the month, or the last one.
use sajni_api.Prelude.{
  ℕ, zero, suc, ◌+◌, ◌-◌, ◌*◌, ◌%◌, ◌≤◌, ◌<◌, ◌≡◌, ◌≢◌, min, true, false, not, ◌||◌, none, some,
  arith, Option-cases, Bool-cases, inl, inr, sym, ap, ◌∙◌, subst, if◌then◌else◌,
}
use sajni_api.Prelude.Int.{ℤ, pos, negsuc, eqb_ℤ, ltb_ℤ, rem, ◌+ℤ◌, ◌-ℤ◌, ◌*ℤ◌, eq_of_eqb_ℤ}
use sajni_api.Calendar.{date, weekday, month_length}
use sajni_api.Calendar.Months.{month_length_bounds}
use sajni_api.Calendar.Zone.{Zone, IsSteady, local_day, clock}
use sajni_api.Reminder.Rule.{days_in_month, out_of_range}
use sajni_api.Reminder.Next.{local_date_time, last_weekday, counted_weekday, nth_weekday}
use sajni_api.Reminder.Next.Fields.{IsAt, local_date_time-IsAt, clamped, days_in_month-eq}

-- Day `d` is the `ordinal`-th of its weekday in a month of `length` days; -1 is the last.
abbrev pub InPlace : ℤ → ℕ → ℕ → Type 0
InPlace (pos o) length d = (d ≤ 7 * o) × (7 * o < d + 7)
InPlace (negsuc _) length d = length < d + 7

pub record IsNth (zone : Zone) (y m : ℕ) (wanted ordinal : ℤ) (time t : ℕ) : Type 0 where
  pub d : ℕ
  pub in_month : (1 ≤ d) × (d ≤ month_length y m)
  pub in_place : InPlace ordinal (month_length y m) d
  pub on_weekday : pos (weekday (date y m d)) ≡ wanted
  pub found : IsAt zone (date y m d) time t

-- The day of the month that `nthWeekday` counts to, where the month begins on weekday `f`.
abbrev day_number : ℕ → ℕ → ℕ → ℕ
day_number w o f = 1 + (w + 7 - f) % 7 + (o - 1) * 7

day_number_lem :
    (w o f : ℕ)
    → w < 7
    → f < 7
    → 1 ≤ o
    → pos 1 +ℤ rem (pos w -ℤ pos f +ℤ pos 7) 7 +ℤ (pos o -ℤ pos 1) *ℤ pos 7 ≡ pos (day_number w o f)
unfolding ◌+ℤ◌ ◌-ℤ◌ ◌*ℤ◌
day_number_lem w o f hw hf ho = ground arith

weekday-lt : (n : ℕ) → weekday n < 7
unfolding weekday
weekday-lt n = omega arith

module _ (zone : Zone) (y m clock_of : ℕ) (steady : IsSteady zone) (hy : 1 ≤ y) (lo : 1 ≤ m)
    (hi : m ≤ 12) (late : 1 ≤ date y m 1) where
  -- A day within the month.
  within-IsAt :
      (d : ℕ)
      → 1 ≤ d
      → d ≤ month_length y m
      → IsAt zone (date y m d) (clock zone clock_of) (local_date_time zone y m (pos d) clock_of)
  unfolding clamped date
  within-IsAt d h k =
      let same : min d (month_length y m) ≡ d = omega arith in
      let lands = local_date_time-IsAt zone y m d clock_of steady hy lo hi h (omega arith) in
      subst
        (λ n.
          IsAt zone (date y m n) (clock zone clock_of) (local_date_time zone y m (pos d) clock_of))
        same lands

  -- The weekday of the candidate on day `d`.
  within-weekday :
      (d : ℕ)
      → 1 ≤ d
      → d ≤ month_length y m
      → weekday (local_day zone (local_date_time zone y m (pos d) clock_of)) ≡ weekday (date y m d)
  within-weekday d h k = ap weekday (within-IsAt d h k).on_day

  last_weekday-IsNth :
      (wanted : ℤ) (left d : ℕ) {t : ℕ}
      → d + 7 ≡ month_length y m + left
      → left ≤ 7
      → last_weekday zone y m wanted clock_of left d ≡ some t
      → IsNth zone y m wanted (negsuc 0) (clock zone clock_of) t
  unfolding last_weekday
  last_weekday-IsNth wanted zero d e le h = cc
  last_weekday-IsNth wanted (suc left) d {t} e le h =
      let candidate = local_date_time zone y m (pos d) clock_of in
      let most = month_length_bounds y m in
      let day_is = within-weekday d (omega arith) (omega arith) in
      elim (Bool-cases (eqb_ℤ (pos (weekday (local_day zone candidate))) wanted)) [
        | inl hit ↦
            let same : candidate ≡ t = ground arith in
            record {
              d = d;
              in_month = (omega arith, omega arith);
              in_place = omega arith;
              on_weekday =
                  ap pos (sym day_is)
                  ∙ eq_of_eqb_ℤ (pos (weekday (local_day zone candidate))) wanted hit;
              found =
                  subst (IsAt zone (date y m d) (clock zone clock_of)) same
                    (within-IsAt d (omega arith) (omega arith));
            }
        | inr miss ↦
            last_weekday-IsNth wanted left (d - 1) (omega arith) (omega arith) (ground arith)
      ]

  -- Among the last seven days every weekday is found: `j` days before day `d` is the one wanted.
  last_weekday-found :
      (w left d j : ℕ)
      → j < left
      → j < d
      → d ≤ month_length y m
      → weekday (date y m (d - j)) ≡ w
      → last_weekday zone y m (pos w) clock_of left d ≢ none
  unfolding last_weekday
  last_weekday-found w zero d j a b c e h = absurd (omega arith)
  last_weekday-found w (suc left) d zero a b c e h =
      let day_is = within-weekday d (omega arith) c in
      let same : date y m (d - 0) ≡ date y m d = ap (date y m) (omega arith) in
      let hit = ap weekday same in ground arith
  last_weekday-found w (suc left) d (suc j) a b c e h =
      let same : date y m (d - suc j) ≡ date y m (d - 1 - j) = ap (date y m) (omega arith) in
      let later =
        last_weekday-found w left (d - 1) j (omega arith) (omega arith) (omega arith)
          (sym (ap weekday same) ∙ e) in
      ground (arith, later)

  weekday_back : (d j : ℕ) → j < d → (weekday (date y m (d - j)) + j) % 7 ≡ weekday (date y m d)
  unfolding weekday date
  weekday_back d j h = omega arith

  last_weekday-some :
      (w : ℕ) → w < 7 → last_weekday zone y m (pos w) clock_of 7 (month_length y m) ≢ none
  last_weekday-some w h =
      let last = month_length y m in
      let most = month_length_bounds y m in
      let j : ℕ = (weekday (date y m last) + 7 - w) % 7 in
      last_weekday-found w 7 last j (omega arith) (omega arith) (omega arith)
        (weekday_is last w j (omega arith) h (omega arith))
    where
      weekday_is :
          (last w j : ℕ)
          → j < last
          → w < 7
          → j ≡ (weekday (date y m last) + 7 - w) % 7
          → weekday (date y m (last - j)) ≡ w
      weekday_is last w j a b e = unfold weekday date in omega arith

  counted_weekday-eq :
      (w o : ℕ)
      → w < 7
      → 1 ≤ o
      → counted_weekday zone y m (pos w) (pos o) clock_of ≡ (
          if ltb_ℤ (pos (month_length y m)) (pos (day_number w o (weekday (date y m 1))))
          then none
          else some
              (local_date_time zone y m (pos (day_number w o (weekday (date y m 1)))) clock_of))
  unfolding counted_weekday
  counted_weekday-eq w o h a =
      let most = month_length_bounds y m in
      rw (
        days_in_month-eq y m hy lo hi,
        within-weekday 1 (omega arith) (omega arith),
        day_number_lem w o (weekday (date y m 1)) h (weekday-lt (date y m 1)) a,
      )

  counted_weekday-IsNth :
      (w o : ℕ) {t : ℕ}
      → w < 7
      → 1 ≤ o
      → o ≤ 5
      → counted_weekday zone y m (pos w) (pos o) clock_of ≡ some t
      → IsNth zone y m (pos w) (pos o) (clock zone clock_of) t
  counted_weekday-IsNth w o {t} h a b e =
      let most = month_length_bounds y m in
      let f = weekday (date y m 1) in
      let small = weekday-lt (date y m 1) in
      let d = day_number w o f in
      let e' = sym (counted_weekday-eq w o h a) ∙ e in
      elim (Bool-cases (ltb_ℤ (pos (month_length y m)) (pos d))) [
        | inl beyond ↦ absurd (ground arith)
        | inr fits ↦
            let same : local_date_time zone y m (pos d) clock_of ≡ t = ground arith in
            let inside : d ≤ month_length y m = ground arith in
            record {
              d = d;
              in_month = (omega arith, inside);
              in_place = (omega arith, omega arith);
              on_weekday = ap pos (unfold weekday date in omega arith);
              found =
                  subst (IsAt zone (date y m d) (clock zone clock_of)) same
                    (within-IsAt d (omega arith) inside);
            }
      ]

  -- In a zone whose clocks are never changed, in a month that begins after the first day of year 1, for
  -- a weekday from 0 to 6 and an ordinal from 1 to 5, or -1: what `nthWeekday` returns is on a day of
  -- that month that has the weekday, it is the one of that ordinal among the month's days with that
  -- weekday, the last of them for -1, and it has the time of day of the instant that is given.
  pub nth_weekday-IsNth :
      (wanted ordinal : ℤ) {t : ℕ}
      → out_of_range wanted 0 6 ≡ false
      → (eqb_ℤ ordinal (negsuc 0) || not (out_of_range ordinal 1 5)) ≡ true
      → nth_weekday zone y m wanted ordinal clock_of ≡ some t
      → IsNth zone y m wanted ordinal (clock zone clock_of) t
  unfolding nth_weekday out_of_range
  nth_weekday-IsNth (negsuc w) ordinal a b e = absurd (ground arith)
  nth_weekday-IsNth (pos w) (negsuc zero) {t} a b e =
      let length_is = days_in_month-eq y m hy lo hi in
      elim (Option-cases (last_weekday zone y m (pos w) clock_of 7 (days_in_month y m))) [
        | inl nothing ↦ absurd (
            last_weekday-some w (ground arith)
              (ap (last_weekday zone y m (pos w) clock_of 7) (sym length_is) ∙ nothing))
        | inr (c, found) ↦
            last_weekday-IsNth (pos w) 7 (days_in_month y m) (omega arith) (omega arith)
              (ground arith)
      ]
  nth_weekday-IsNth (pos w) (negsuc (suc o)) a b e = absurd (ground arith)
  nth_weekday-IsNth (pos w) (pos o) {t} a b e =
      counted_weekday-IsNth w o {t = t} (ground arith) (ground arith) (ground arith) (ground arith)
