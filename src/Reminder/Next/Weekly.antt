-- ===== src/Reminder/Next/Weekly.antt =====
-- The loop of `nextWeekly`: where its candidates land, and which of them it returns.
use sajni_api.Prelude.{
  ℕ, zero, suc, ◌+◌, ◌≤◌, ◌<◌, ◌≡◌, true, false, some, arith, Option-cases, inl, inr, ◌⊎◌, sym, ap,
  ◌∙◌, subst,
}
use sajni_api.Prelude.Int.{pos}
use sajni_api.Calendar.{year, month, day_of_month}
use sajni_api.Calendar.Civil.{field_bounds, year_holds}
use sajni_api.Calendar.Zone.{Zone, IsSteady, local_day, clock}
use sajni_api.Reminder.Rule.{Rule}
use sajni_api.Reminder.Next.{add_date, weekly_candidate, weekly_matches, weekly_loop}
use sajni_api.Reminder.Next.Fields.{IsAt, add_date-IsAt, local_date_time-IsAt, clamped-fields}

pub weekly_candidate-IsAt :
    (zone : Zone) (start current n : ℕ)
    → IsSteady zone
    → 1 ≤ local_day zone current
    → IsAt zone
        (local_day zone current + n)
        (clock zone start)
        (weekly_candidate zone start current n)
unfolding weekly_candidate
weekly_candidate-IsAt zone start current n steady h =
    let d : ℕ = local_day zone (add_date zone current (pos n)) in
    let d_is = (add_date-IsAt zone current n steady h).on_day in
    let bounds = field_bounds d in
    let same = clamped-fields d in
    let lands =
      local_date_time-IsAt zone (year d) (month d) (day_of_month d) start steady (year_holds d).0
        bounds.0 bounds.1 bounds.2 (omega arith) in
    record { on_day = lands.on_day ∙ same ∙ d_is; at_time = lands.at_time }

-- The `k` candidates from `days` on do not match.
abbrev pub Skipped : Zone → ℕ → ℕ → Rule → ℕ → ℕ → Type 0
Skipped zone start current rule zero days = Unit
Skipped zone start current rule (suc k) days =
    (weekly_matches zone start rule (weekly_candidate zone start current days) ≡ some false)
    × Skipped zone start current rule k (days + 1)

-- Day `days + k` from the current one is the first match, within the rounds that are left.
unfoldable pub FirstMatch : Zone → ℕ → ℕ → Rule → ℕ → ℕ → ℕ → Type 0
FirstMatch zone start current rule left days t =
    (k : ℕ) × (k < left)
    × (t ≡ weekly_candidate zone start current (days + k))
    × (weekly_matches zone start rule t ≡ some true)
    × Skipped zone start current rule k days

pub weekly_loop-FirstMatch :
    (zone : Zone) (start current : ℕ) (rule : Rule) (left days : ℕ) {t : ℕ}
    → weekly_loop zone start current rule left days ≡ some t
    → (t ≡ 0) ⊎ FirstMatch zone start current rule left days t
unfolding weekly_loop FirstMatch
weekly_loop-FirstMatch zone start current rule zero days h = inl (ground arith)
weekly_loop-FirstMatch zone start current rule (suc left) days {t} h =
    let candidate = weekly_candidate zone start current days in
    elim (Option-cases (weekly_matches zone start rule candidate)) [
      | inl stops ↦ absurd (ground arith)
      | inr (true, e) ↦
          let same : days ≡ days + 0 = omega arith in
          let here : candidate ≡ t = ground arith in
          inr (
            0,
            omega arith,
            sym here ∙ ap (weekly_candidate zone start current) same,
            subst (λ c. weekly_matches zone start rule c ≡ some true) here e,
            tt,
          )
      | inr (false, e) ↦
          let rest : weekly_loop zone start current rule left (days + 1) ≡ some t = ground arith in
          elim (weekly_loop-FirstMatch zone start current rule left (days + 1) rest) [
            | inl nothing ↦ inl nothing
            | inr (k, lt, at, matches, skipped) ↦ inr (
              suc k,
              omega arith,
              at ∙ ap (weekly_candidate zone start current) (omega arith),
              matches,
              (e, skipped),
            )
          ]
    ]
