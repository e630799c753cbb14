-- ===== src/AiLimit/Window.antt =====
-- What `check` answers, by the events of the last hour.
use sajni_api.Prelude.{
  ℕ, ◌+◌, ◌-◌, ◌≤◌, ◌<◌, ◌≡◌, ◌||◌, List, [], ◌∷◌, String, ltb, leb, length, if◌then◌else◌, arith,
  refl, ◌⊎◌, inl, inr, Bool-cases,
}
use sajni_api.Prelude.Int.{pos, ◌-ℤ◌}
use sajni_api.AiLimit.{
  ai_window, ai_max_messages, ai_max_tokens, AiEvent, Log, since, tokens_of, allowed, retry_after,
  verdict, check,
}

-- The events that are not before `cutoff`, wherever they stand.
unfoldable pub recent : ℕ → List AiEvent → List AiEvent
recent cutoff [] = []
recent cutoff (event ∷ events) =
    if leb cutoff event.ts then event ∷ recent cutoff events else recent cutoff events

-- The events are in the order of their times, all of them from `low` to `high`.
abbrev pub IsOrdered : ℕ → ℕ → List AiEvent → Type 0
IsOrdered low high [] = low ≤ high
IsOrdered low high (event ∷ events) = (low ≤ event.ts) × IsOrdered event.ts high events

ordered_le : (low high : ℕ) (events : List AiEvent) → IsOrdered low high events → low ≤ high
ordered_le low high [] h = h
ordered_le low high (event ∷ events) h = omega (arith, ordered_le event.ts high events h.1)

recent_all :
    (cutoff low high : ℕ) (events : List AiEvent)
    → cutoff ≤ low
    → IsOrdered low high events
    → recent cutoff events ≡ events
unfolding recent
recent_all cutoff low high [] le h = refl
recent_all cutoff low high (event ∷ events) le h =
    let rest = recent_all cutoff event.ts high events (omega arith) h.1 in ground arith

pub since-recent :
    (cutoff low high : ℕ) (events : List AiEvent)
    → IsOrdered low high events
    → since cutoff events ≡ recent cutoff events
unfolding since recent
since-recent cutoff low high [] h = refl
since-recent cutoff low high (event ∷ events) h =
    let rest = since-recent cutoff event.ts high events h.1 in
    elim (Bool-cases (ltb event.ts cutoff)) [
      | inl before ↦ ground arith
      | inr kept ↦
          let all = recent_all cutoff event.ts high events (ground arith) h.1 in ground arith
    ]

weaker :
    (low lower high : ℕ) (events : List AiEvent)
    → low ≤ lower
    → IsOrdered lower high events
    → IsOrdered low high events
weaker low lower high [] le h = omega arith
weaker low lower high (event ∷ events) le h = (omega arith, h.1)

pub since-IsOrdered :
    (cutoff low high : ℕ) (events : List AiEvent)
    → IsOrdered low high events
    → IsOrdered low high (since cutoff events)
unfolding since
since-IsOrdered cutoff low high [] h = h
since-IsOrdered cutoff low high (event ∷ events) h = elim (Bool-cases (ltb event.ts cutoff)) [
  | inl before ↦ rw before (
      weaker low event.ts high (since cutoff events) h.0
        (since-IsOrdered cutoff event.ts high events h.1))
  | inr kept ↦ rw kept h
]

-- What `since` leaves begins at the cutoff.
since_bounded :
    (cutoff low high : ℕ) (events : List AiEvent)
    → cutoff ≤ high
    → IsOrdered low high events
    → IsOrdered cutoff high (since cutoff events)
unfolding since
since_bounded cutoff low high [] le h = le
since_bounded cutoff low high (event ∷ events) le h = elim (Bool-cases (ltb event.ts cutoff)) [
  | inl before ↦ rw before (since_bounded cutoff event.ts high events le h.1)
  | inr kept ↦ rw kept (ground arith, h.1)
]

-- The hour still has room.
abbrev pub HasRoom : List AiEvent → Type 0
HasRoom events = (length events < ai_max_messages) × (tokens_of events < ai_max_tokens)

verdict_lem :
    (now : ℕ) (events : List AiEvent)
    → IsOrdered (now - ai_window) now events
    → (HasRoom events × (verdict now events ≡ allowed))
      ⊎ (((ai_max_messages ≤ length events) ⊎ (ai_max_tokens ≤ tokens_of events))
          × ((wait : ℕ) × (wait ≤ ai_window) × (verdict now events ≡ retry_after (pos wait))))
unfolding verdict tokens_of ◌-ℤ◌
verdict_lem now [] h = inl ((omega arith, omega arith), refl)
verdict_lem now (event ∷ events) h =
    let late = ordered_le event.ts now events h.1 in
    elim (Bool-cases (
      leb ai_max_messages (length (event ∷ events))
      || leb ai_max_tokens (tokens_of (event ∷ events)))) [
        | inr room ↦ inl ((ground arith, ground arith), rw room refl)
        | inl full ↦
            inr (ground arith, (event.ts + ai_window - now, omega arith, rw full (ground arith)))
      ]

-- While the events are in order and none is later than now, `check` never fails: it allows the call
-- when the events of the last hour are fewer than 240 and their tokens fewer than 400000, and
-- otherwise names a wait of at most an hour.
pub check_by_hour :
    (log : Log) (uid : String) (now : ℕ)
    → IsOrdered 0 now (log uid)
    → (HasRoom (recent (now - ai_window) (log uid)) × ((check log uid now).0 ≡ allowed))
      ⊎ (((ai_max_messages ≤ length (recent (now - ai_window) (log uid)))
            ⊎ (ai_max_tokens ≤ tokens_of (recent (now - ai_window) (log uid))))
          × ((wait : ℕ) × (wait ≤ ai_window) × ((check log uid now).0 ≡ retry_after (pos wait))))
unfolding check
check_by_hour log uid now h = rw (← since-recent (now - ai_window) 0 now (log uid) h) (
    verdict_lem now (since (now - ai_window) (log uid))
      (since_bounded (now - ai_window) 0 now (log uid) (omega arith) h))
