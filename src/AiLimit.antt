-- ===== src/AiLimit.antt =====
-- internal/api/ailimit.go: the hourly limit on AI calls. Times are nanoseconds since 0001-01-01;
-- each operation takes the time that it reads as `now`.
pub mod Window
pub mod Sequence
mod Tests
use text.Mathlib.Text.{◌==◌ as str_eq}
use sajni_api.Prelude.{
  ℕ, ◌+◌, ◌-◌, Bool, ◌||◌, List, [], ◌∷◌, ◌++◌, String, ltb, leb, length, if◌then◌else◌,
}
use sajni_api.Prelude.Int.{ℤ, pos, pos_part, ltb_ℤ, ◌-ℤ◌}

-- `time.Hour`
abbrev pub ai_window : ℕ
ai_window = 3600000000000

abbrev pub ai_max_messages : ℕ
ai_max_messages = 240

abbrev pub ai_max_tokens : ℕ
ai_max_tokens = 400000

-- `aiEvent`; `record` keeps no negative count.
pub record AiEvent : Type 0 where
  pub ts : ℕ
  pub tokens : ℕ

-- `log` of `aiLimiter`.
abbrev pub Log : Type 0
Log = String → List AiEvent

abbrev pub set : Log → String → List AiEvent → Log
set log uid events other = if str_eq other uid then events else log other

-- The loop of `prune`: the events from the first that is not before `cutoff` on.
unfoldable pub since : ℕ → List AiEvent → List AiEvent
since cutoff [] = []
since cutoff (event ∷ events) = if ltb event.ts cutoff then since cutoff events else event ∷ events

unfoldable pub prune : Log → String → ℕ → Log
prune log uid now = set log uid (since (now - ai_window) (log uid))

-- The loop of `check` over the events.
unfoldable pub tokens_of : List AiEvent → ℕ
tokens_of [] = 0
tokens_of (event ∷ events) = event.tokens + tokens_of events

-- What `check` returns; `panics` is `events[0]` of no events.
pub data Verdict : Type 0 where
  allowed panics : Verdict
  retry_after : ℤ → Verdict

-- `time.Until(oldest.Add(aiWindow))`
abbrev pub until_oldest : ℕ → List AiEvent → Verdict
until_oldest now [] = panics
until_oldest now (oldest ∷ events) = retry_after (pos (oldest.ts + ai_window) -ℤ pos now)

unfoldable pub verdict : ℕ → List AiEvent → Verdict
verdict now events =
    if leb ai_max_messages (length events) || leb ai_max_tokens (tokens_of events)
    then until_oldest now events
    else allowed

unfoldable pub check : Log → String → ℕ → Verdict × Log
check log uid now = (verdict now (since (now - ai_window) (log uid)), prune log uid now)

-- `record`
unfoldable pub add_usage : Log → String → ℤ → ℕ → Log
add_usage log uid tokens now =
    let pruned = prune log uid now in
    set pruned uid (
      pruned uid
      ++ record { ts = now; tokens = if ltb_ℤ tokens (pos 0) then 0 else pos_part tokens } ∷ [])
