-- ===== src/TaskRepeat/Fitting.antt =====
-- What `Normalize` and `Fit` leave on a task.
use text.Mathlib.Text.{◌==◌ as str_eq}
use text.Mathlib.TextEquality.{eq_iff}
use sajni_api.Prelude.{
  ℕ, true, false, some, List, [], ◌∷◌, String, if◌then◌else◌, ◌≡◌, arith, Bool-cases, Option-cases,
  inl, inr, refl, sym, subst, ap, Result, ok, err, ◌>>=◌, ok_of_bind, Result-cases,
}
use sajni_api.Prelude.Int.{ℤ, pos, eqb_ℤ}
use sajni_api.Calendar.{weekday}
use sajni_api.Reminder.Rule as reminder_rule
use sajni_api.Reminder.Rule.{
  Rule, is_empty, out_of_range, distinct_weekdays, no_rule, recurring, normalize_basics,
  normalize_weekdays, normalize_monthly, normalize_date_mode, normalize_weekday_mode,
}
use sajni_api.Reminder.Normal.{IsNormal, known_frequency, normalize-IsNormal, normalize_fixed}
use sajni_api.TaskRepeat.Rules.{
  Kind, day, week, month, Scope, anchor, Error, interval, as_invalid, normalize_kind, normalize_at,
  normalize,
}

-- The two fields that a task's rule never has.
pub record IsEndless (r : Rule) : Type 0 where
  pub no_until : r.until ≡ []
  pub no_count : r.count ≡ pos 0

basics-IsEndless : (rule r : Rule) → normalize_basics rule ≡ ok r → IsEndless rule → IsEndless r
unfolding normalize_basics
basics-IsEndless rule r h e = record {
  no_until = ground (arith, e.no_until);
  no_count = ground (arith, e.no_count);
}

weekdays-IsEndless :
    (start : ℕ) (rule r : Rule)
    → normalize_weekdays start rule ≡ ok r
    → IsEndless rule
    → IsEndless r
unfolding normalize_weekdays
weekdays-IsEndless start rule r h e =
    let given : List ℤ =
      if is_empty rule.weekdays then pos (weekday start) ∷ [] else rule.weekdays in
    elim (Result-cases (distinct_weekdays [] given)) [
      | inl (weekdays, kept) ↦ record {
        no_until = ground (arith, e.no_until);
        no_count = ground (arith, e.no_count);
      }
      | inr (error, failed) ↦ record {
        no_until = ground (arith, e.no_until);
        no_count = ground (arith, e.no_count);
      }
    ]

monthly-IsEndless :
    (start : ℕ) (rule r : Rule) → normalize_monthly start rule ≡ ok r → IsEndless rule → IsEndless r
unfolding normalize_monthly normalize_date_mode normalize_weekday_mode
monthly-IsEndless start rule r h e = record {
  no_until = ground (arith, e.no_until);
  no_count = ground (arith, e.no_count);
}

normalize-IsEndless :
    (rule r : Rule) (start : ℕ)
    → recurring rule ≡ true
    → IsEndless rule
    → reminder_rule.normalize rule start ≡ ok r
    → IsEndless r
unfolding reminder_rule.normalize recurring
normalize-IsEndless rule r start repeats e h =
    let rest : Rule → Result reminder_rule.Error Rule =
      λ basics. normalize_weekdays start basics >>= normalize_monthly start in
    let (basics, f, h1) = ok_of_bind {rest = rest} (normalize_basics rule) (ground arith) in
    let (weekly, g, h2) =
      ok_of_bind {rest = normalize_monthly start} (normalize_weekdays start basics) h1 in
    monthly-IsEndless start weekly r h2
      (weekdays-IsEndless start basics weekly g (basics-IsEndless rule basics f e))

-- The rule of a week or month task.
abbrev plain : String → ℤ → Rule
plain frequency n = record no_rule { frequency = frequency; interval = n }

interval-plain :
    (frequency : String) (z : ℤ) (r : Rule)
    → interval (plain frequency z) ≡ ok r
    → (n : ℤ) × (r ≡ plain frequency n) × (interval (plain frequency n) ≡ ok (plain frequency n))
unfolding interval out_of_range
interval-plain frequency z r h = elim (Bool-cases (eqb_ℤ z (pos 0))) [
  | inl default ↦ (pos 1, ground arith, refl)
  | inr given ↦ (z, ground arith, ground arith)
]

normal_recurring : (r : Rule) → IsNormal r → recurring r ≡ true
unfolding recurring
normal_recurring r h = elim (Bool-cases (str_eq r.frequency "")) [
  | inl nothing ↦
      let unknown : known_frequency r.frequency ≡ false =
        ap known_frequency ((eq_iff r.frequency "").0 nothing) in
      let known = h.basics in absurd (ground arith)
  | inr some_frequency ↦ rw some_frequency refl
]

ok_of_valid :
    {r : Rule} (call : Result reminder_rule.Error Rule) → as_invalid call ≡ ok r → call ≡ ok r
ok_of_valid (ok value) h = cc
ok_of_valid (err e) h = cc

ok_same : {r s : Rule} → ◌≡◌ {A = Result Error Rule} (ok r) (ok s) → r ≡ s
ok_same h = cc

undated_not : {e : Error} {r : Rule} → ◌≡◌ {A = Result Error Rule} (err e) (ok r) → ⊥
undated_not h = cc

endless_same : (r : Rule) → IsEndless r → record r { until = []; count = pos 0 } ≡ r
endless_same r h = cc

-- A rule that is kept as it is.
record IsKept (kind : Kind) (start : ℕ) (r : Rule) : Type 0 where
  repeats : recurring r ≡ true
  endless : IsEndless r
  fixed : normalize_kind kind start r ≡ ok r

week-IsKept :
    (start : ℕ) (n : ℤ)
    → interval (plain "weekly" n) ≡ ok (plain "weekly" n)
    → IsKept week start (plain "weekly" n)
unfolding normalize_kind recurring
week-IsKept start n h = record {
  repeats = refl;
  endless = record { no_until = refl; no_count = refl };
  fixed = h;
}

month-IsKept :
    (start : ℕ) (n : ℤ)
    → interval (plain "monthly" n) ≡ ok (plain "monthly" n)
    → IsKept month start (plain "monthly" n)
unfolding normalize_kind recurring
month-IsKept start n h = record {
  repeats = refl;
  endless = record { no_until = refl; no_count = refl };
  fixed = h;
}

kind-IsKept :
    (kind : Kind) (start : ℕ) (rule r : Rule)
    → recurring rule ≡ true
    → normalize_kind kind start rule ≡ ok r
    → IsEndless rule
    → IsKept kind start r
unfolding normalize_kind
kind-IsKept week start rule r repeats h e =
    let (n, same, again) = interval-plain "weekly" rule.interval r (ground arith) in
    subst (IsKept week start) (sym same) (week-IsKept start n again)
kind-IsKept month start rule r repeats h e =
    let (n, same, again) = interval-plain "monthly" rule.interval r (ground arith) in
    subst (IsKept month start) (sym same) (month-IsKept start n again)
kind-IsKept day start rule r repeats h e =
    let valid = ok_of_valid (reminder_rule.normalize rule start) h in
    let normal = normalize-IsNormal rule r start repeats valid in
    let again = normal_recurring r normal in
    record {
      repeats = again;
      endless = normalize-IsEndless rule r start repeats e valid;
      fixed = rw (normalize_fixed r start again normal) refl;
    }

none_again : (scope : Scope) → IsEndless no_rule × (normalize no_rule scope ≡ ok no_rule)
unfolding normalize recurring
none_again scope = (record { no_until = refl; no_count = refl }, refl)

normalize_scoped :
    (rule r : Rule) (scope : Scope) (kind : Kind) (start : ℕ)
    → recurring rule ≡ true
    → anchor scope ≡ some (kind, start)
    → normalize rule scope ≡ ok r
    → IsKept kind start r
unfolding normalize normalize_at recurring
normalize_scoped rule r scope kind start repeats at h =
    let found : normalize_kind kind start (record rule { until = []; count = pos 0 }) ≡ ok r =
      rw (normalize, repeats, normalize_at, at) at h in
    kind-IsKept kind start (record rule { until = []; count = pos 0 }) r repeats found
      (record { no_until = refl; no_count = refl })

normalize-anchored :
    (rule r : Rule) (scope : Scope)
    → recurring rule ≡ true
    → normalize rule scope ≡ ok r
    → (start : Kind × ℕ) × (anchor scope ≡ some start)
unfolding normalize normalize_at
normalize-anchored rule r scope repeats h = elim (Option-cases (anchor scope)) [
  | inl undated ↦ absurd (undated_not (rw (normalize, repeats, normalize_at, undated) at h))
  | inr found ↦ found
]

-- Checked again in the same scope, a rule that `Normalize` returned is returned as it is, and it
-- has no last day and no count.
pub normalize_again :
    (rule r : Rule) (scope : Scope)
    → normalize rule scope ≡ ok r
    → IsEndless r × (normalize r scope ≡ ok r)
unfolding normalize normalize_at
normalize_again rule r scope h = elim (Bool-cases (recurring rule)) [
  | inr once ↦
      let same : no_rule ≡ r = ok_same (rw (normalize, once) at h) in
      subst (λ x. IsEndless x × (normalize x scope ≡ ok x)) same (none_again scope)
  | inl repeats ↦
      let ((kind, start), at) = normalize-anchored rule r scope repeats h in
      let kept = normalize_scoped rule r scope kind start repeats at h in
      (
        kept.endless,
        rw (normalize, kept.repeats, normalize_at, at, endless_same r kept.endless) kept.fixed,
      )
]
