-- ===== src/AiLimit/Sequence.antt =====
-- Requests that use the limiter, of any users, one after another or at the same time. Each asks `check`
-- once, and where that allows it may call `record` later, some times or never, as the handlers of
-- internal/api/ai.go and internal/api/finance.go do: the chat and the other parsers record up to
-- once, and parseTransactionMessage up to twice.
use text.Mathlib.Text.{◌==◌ as str_eq}
use text.Mathlib.TextEquality.{eq_iff}
use mathlib.Core.List.{append-nil, append_assoc}
use sajni_api.Prelude.{
  suc, ap, sym, false, ◌∙◌, ℕ, ◌+◌, ◌-◌, ◌≤◌, ◌<◌, ◌≡◌, ◌||◌, List, [], ◌∷◌, ◌++◌, String, ltb, leb,
  length, length-append, if◌then◌else◌, arith, refl, subst, ◌≢◌, inl, inr, Bool-cases,
}
use sajni_api.Prelude.Int.{ℤ, pos, pos_part, ltb_ℤ}
use sajni_api.AiLimit.{
  ai_window, ai_max_messages, ai_max_tokens, AiEvent, Log, since, prune, tokens_of, allowed,
  retry_after, verdict, check, add_usage,
}
use sajni_api.AiLimit.Window.{IsOrdered, since-IsOrdered}

-- The log, the latest time that was read, and how many more times the requests of each user that were
-- allowed may record.
pub record Server : Type 0 where
  pub log : Log
  pub time : ℕ
  pub owed : String → ℕ

abbrev pub owe : (String → ℕ) → String → ℕ → String → ℕ
owe owed uid n other = if str_eq other uid then n else owed other

-- What can happen, while the requests of one user that are under way may record `cap` times together.
pub data Step (cap : ℕ) : Server → Server → Type 0 where
  start :
      (s : Server) (uid : String) (now more : ℕ)
      → s.time ≤ now
      → (check s.log uid now).0 ≡ allowed
      → s.owed uid + more ≤ cap
      → Step cap s (record {
        log = (check s.log uid now).1;
        time = now;
        owed = owe s.owed uid (s.owed uid + more);
      })
  look :
      (s : Server) (uid : String) (now : ℕ)
      → s.time ≤ now
      → Step cap s (record { log = (check s.log uid now).1; time = now; owed = s.owed })
  spend :
      (s : Server) (uid : String) (now : ℕ) (tokens : ℤ) (k : ℕ)
      → s.time ≤ now
      → s.owed uid ≡ suc k
      → Step cap s
          (record { log = add_usage s.log uid tokens now; time = now; owed = owe s.owed uid k })
  give_up :
      (s : Server) (uid : String) (k : ℕ)
      → s.owed uid ≡ suc k
      → Step cap s (record s { owed = owe s.owed uid k })

-- A server begins without events.
abbrev pub fresh : Server
fresh = record { log = λ uid. []; time = 0; owed = λ uid. 0 }

pub data Reach (cap : ℕ) : Server → Type 0 where
  here : Reach cap fresh
  next : {s t : Server} → Reach cap s → Step cap s t → Reach cap t

-- A user's events: those of a log that had room, then those of requests that were allowed by then.
pub record IsLimited (cap owed last : ℕ) (events : List AiEvent) : Type 0 where
  pub ordered : IsOrdered 0 last events
  pub old : List AiEvent
  pub recent : List AiEvent
  pub parts : events ≡ old ++ recent
  pub messages : length old < ai_max_messages
  pub tokens : tokens_of old < ai_max_tokens
  pub few : length recent + owed ≤ cap

since_tokens :
    (cutoff : ℕ) (events : List AiEvent) → tokens_of (since cutoff events) ≤ tokens_of events
unfolding since tokens_of
since_tokens cutoff [] = omega arith
since_tokens cutoff (event ∷ events) = ground (arith, since_tokens cutoff events)

length-since : (cutoff : ℕ) (events : List AiEvent) → length (since cutoff events) ≤ length events
unfolding since
length-since cutoff [] = omega arith
length-since cutoff (event ∷ events) = ground (arith, length-since cutoff events)

-- Both parts only lose events.
since_parts :
    (cutoff : ℕ) (old recent : List AiEvent)
    → (kept : List AiEvent) × (rest : List AiEvent) × (since cutoff (old ++ recent) ≡ kept ++ rest)
      × (length kept ≤ length old)
      × (tokens_of kept ≤ tokens_of old)
      × (length rest ≤ length recent)
unfolding since tokens_of
since_parts cutoff [] recent =
    ([], since cutoff recent, refl, omega arith, omega arith, length-since cutoff recent)
since_parts cutoff (event ∷ old) recent = elim (Bool-cases (ltb event.ts cutoff)) [
  | inl before ↦
      let (kept, rest, e, a, b, c) = since_parts cutoff old recent in
      (kept, rest, rw before e, omega arith, omega arith, c)
  | inr stays ↦ (event ∷ old, recent, rw stays refl, omega arith, omega arith, omega arith)
]

later :
    (low high now : ℕ) (events : List AiEvent)
    → high ≤ now
    → IsOrdered low high events
    → IsOrdered low now events
later low high now [] le h = omega arith
later low high now (event ∷ events) le h = (h.0, later event.ts high now events le h.1)

append-IsOrdered :
    (low now : ℕ) (events : List AiEvent) (last : AiEvent)
    → last.ts ≡ now
    → IsOrdered low now events
    → IsOrdered low now (events ++ last ∷ [])
append-IsOrdered low now [] last e h = (omega arith, omega arith)
append-IsOrdered low now (event ∷ events) last e h =
    (h.0, append-IsOrdered event.ts now events last e h.1)

module _ (cap owed last now : ℕ) (events : List AiEvent) (le : last ≤ now)
    (h : IsLimited cap owed last events) where
  since-IsLimited : (cutoff : ℕ) → IsLimited cap owed now (since cutoff events)
  since-IsLimited cutoff =
      let (kept, rest, e, a, b, c) = since_parts cutoff h.old h.recent in
      record {
        ordered = since-IsOrdered cutoff 0 now events (later 0 last now events le h.ordered);
        old = kept;
        recent = rest;
        parts = ap (since cutoff) h.parts ∙ e;
        messages = omega (arith, h.messages);
        tokens = omega (arith, h.tokens);
        few = omega (arith, h.few);
      }

  later-IsLimited : (less : ℕ) → less ≤ owed → IsLimited cap less now events
  later-IsLimited less fewer = record {
    ordered = later 0 last now events le h.ordered;
    old = h.old;
    recent = h.recent;
    parts = h.parts;
    messages = h.messages;
    tokens = h.tokens;
    few = omega (arith, h.few);
  }

-- One more event, of a request that could still record.
append-IsLimited :
    (cap k now : ℕ) (events : List AiEvent) (last : AiEvent)
    → last.ts ≡ now
    → IsLimited cap (suc k) now events
    → IsLimited cap k now (events ++ last ∷ [])
append-IsLimited cap k now events last e h = record {
  ordered = append-IsOrdered 0 now events last e h.ordered;
  old = h.old;
  recent = h.recent ++ last ∷ [];
  parts = ap (λ xs. xs ++ last ∷ []) h.parts ∙ append_assoc h.old h.recent (last ∷ []);
  messages = h.messages;
  tokens = h.tokens;
  few = omega (arith, length-append h.recent (last ∷ []), h.few);
}

retry_not : {wait : ℤ} → retry_after wait ≢ allowed
retry_not h = cc

room :
    (now : ℕ) (events : List AiEvent)
    → verdict now events ≡ allowed
    → (length events < ai_max_messages) × (tokens_of events < ai_max_tokens)
unfolding verdict tokens_of
room now [] h = (omega arith, omega arith)
room now (event ∷ events) h =
    elim (Bool-cases (
      leb ai_max_messages (length (event ∷ events))
      || leb ai_max_tokens (tokens_of (event ∷ events)))) [
        | inr open_hour ↦ (ground arith, ground arith)
        | inl full ↦ absurd (retry_not (rw full at h))
      ]

prune-own :
    (log : Log) (uid : String) (now : ℕ) → prune log uid now uid ≡ since (now - ai_window) (log uid)
unfolding prune
prune-own log uid now = rw ((eq_iff uid uid).1 refl) refl

module _ (cap : ℕ) (s : Server) (now : ℕ) (le : s.time ≤ now) (uid user : String)
    (holds : (user : String) → IsLimited cap (s.owed user) s.time (s.log user)) where
  prune-IsLimited : IsLimited cap (s.owed user) now (prune s.log user now user)
  prune-IsLimited =
      rw (prune-own s.log user now) (
        since-IsLimited cap (s.owed user) s.time now (s.log user) le (holds user) (now - ai_window))

  other_kept : str_eq user uid ≡ false → IsLimited cap (s.owed user) now (s.log user)
  other_kept apart =
      later-IsLimited cap (s.owed user) s.time now (s.log user) le (holds user) (s.owed user)
        (omega arith)

-- The user whose request was allowed: the log that had room is the old part.
start-IsLimited :
    (cap : ℕ) (s : Server) (uid : String) (now n : ℕ)
    → s.time ≤ now
    → (check s.log uid now).0 ≡ allowed
    → n ≤ cap
    → IsLimited cap (s.owed uid) s.time (s.log uid)
    → IsLimited cap n now (since (now - ai_window) (s.log uid))
unfolding check
start-IsLimited cap s uid now n le allows small h =
    let events = since (now - ai_window) (s.log uid) in
    let kept = since-IsLimited cap (s.owed uid) s.time now (s.log uid) le h (now - ai_window) in
    let space = room now events allows in
    record {
      ordered = kept.ordered;
      old = events;
      recent = [];
      parts = sym (append-nil events);
      messages = space.0;
      tokens = space.1;
      few = omega arith;
    }

Step-IsLimited :
    {cap : ℕ} {s t : Server}
    → Step cap s t
    → ((user : String) → IsLimited cap (s.owed user) s.time (s.log user))
    → (user : String) → IsLimited cap (t.owed user) t.time (t.log user)
unfolding check add_usage prune
Step-IsLimited {cap} (start s uid now more le allows small) holds user =
    elim (Bool-cases (str_eq user uid)) [
      | inl same ↦
          rw same (start-IsLimited cap s uid now (s.owed uid + more) le allows small (holds uid))
      | inr apart ↦ rw apart (other_kept cap s now le uid user holds apart)
    ]
Step-IsLimited {cap} (look s uid now le) holds user = elim (Bool-cases (str_eq user uid)) [
  | inl same ↦
      let named = (eq_iff user uid).0 same in rw named (prune-IsLimited cap s now le uid uid holds)
  | inr apart ↦ rw apart (other_kept cap s now le uid user holds apart)
]
Step-IsLimited {cap} (spend s uid now tokens k le left) holds user =
    elim (Bool-cases (str_eq user uid)) [
      | inl same ↦ rw same (
          append-IsLimited cap k now (prune s.log uid now uid)
            (record { ts = now; tokens = if ltb_ℤ tokens (pos 0) then 0 else pos_part tokens }) refl
            (subst (λ n. IsLimited cap n now (prune s.log uid now uid)) left
              (prune-IsLimited cap s now le uid uid holds)))
      | inr apart ↦ rw apart (other_kept cap s now le uid user holds apart)
    ]
Step-IsLimited {cap} (give_up s uid k left) holds user = elim (Bool-cases (str_eq user uid)) [
  | inl same ↦
      let named = (eq_iff user uid).0 same in
      rw (same, named)
        (later-IsLimited cap (s.owed uid) s.time s.time (s.log uid) (omega arith) (holds uid) k
          (omega arith))
  | inr apart ↦ rw apart (holds user)
]

Reach-all :
    {cap : ℕ} {s : Server}
    → Reach cap s
    → (user : String) → IsLimited cap (s.owed user) s.time (s.log user)
unfolding tokens_of
Reach-all here user = record {
  ordered = omega arith;
  old = [];
  recent = [];
  parts = refl;
  messages = omega arith;
  tokens = omega arith;
  few = omega arith;
}
Reach-all (next calls step) user = Step-IsLimited step (Reach-all calls) user

-- Where the requests of one user that are under way may record at most `cap` times together, in whatever
-- order the requests check and record: a user's events are in the order of their times, and they are
-- at most 239 that used fewer than 400000 tokens together, followed by at most `cap` more. So there are
-- at most 239 + `cap`: 240 for calls one at a time that record once, and 241 where one records twice.
pub Reach-IsLimited :
    (cap : ℕ) (s : Server) (user : String)
    → Reach cap s
    → IsLimited cap (s.owed user) s.time (s.log user)
      × (length (s.log user) < ai_max_messages + cap)
Reach-IsLimited cap s user calls =
    let h = Reach-all calls user in
    let size = ap length h.parts ∙ length-append h.old h.recent in
    (h, omega (arith, h.messages, h.few))
