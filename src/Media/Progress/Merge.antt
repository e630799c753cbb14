-- ===== src/Media/Progress/Merge.antt =====
-- Progress in steps leaves the entry that one step leaves.
use text.Mathlib.Text.{◌==◌ as str_eq}
use text.Mathlib.TextPositions.{eq_refl}
use sajni_api.Prelude.{
  ℕ, ◌+◌, ◌≤◌, ◌<◌, ◌≡◌, true, false, not, ◌&&◌, ◌||◌, Option, none, some, List, [], ◌∷◌, ◌++◌,
  String, ltb, All, arith, refl, sym, ap, ◌∙◌, Bool-cases, inl, inr,
}
use sajni_api.Prelude.Int.{ℤ, ltb_ℤ}
use sajni_api.Media.Progress.{
  Meta, MediaEvent, EventLog, Run, delete, update, plan_progress, merge_window, is_of, latest_event,
  run_of, meta_of, is_event, delete_event, update_event, progress_entry, apply_action,
  log_media_progress,
}

-- The rows have ids that were given out, and none is from the future.
abbrev pub IsPast : ℕ → ℕ → MediaEvent → Type 0
IsPast now next_id e = (e.id < next_id) × (e.created_at ≤ now)

unfoldable pub IsLog : ℕ → EventLog → Type 0
IsLog now s = All (IsPast now s.next_id) s.rows

module _ (uid : String) (media_id now n : ℕ) (meta : Meta) where
  entry : MediaEvent
  entry = progress_entry n uid media_id meta now

  entry-is_of : is_of uid media_id entry ≡ true
  unfolding is_of entry progress_entry
  entry-is_of = rw (eq_refl uid) (ground arith)

  entry-is_event : is_event uid n entry ≡ true
  unfolding is_event entry progress_entry
  entry-is_event = rw (eq_refl uid) (ground arith)

  older-is_event : (e : MediaEvent) → IsPast now n e → is_event uid n e ≡ false
  unfolding is_event
  older-is_event e past = ground (arith, past.0)

  latest-append :
      (rows : List MediaEvent)
      → All (IsPast now n) rows
      → latest_event uid media_id (rows ++ entry ∷ []) ≡ some entry
  unfolding latest_event
  latest-append [] past = rw (latest_event, entry-is_of) refl
  latest-append (e ∷ rows) past = elim (Bool-cases (is_of uid media_id e)) [
    | inl own ↦
        let rest = latest-append rows past.1 in
        rw (latest_event, own, rest)
          (unfold entry progress_entry in ground (arith, past.0.0, past.0.1))
    | inr other ↦ rw (latest_event, other) (latest-append rows past.1)
  ]

  delete-append :
      (rows : List MediaEvent)
      → All (IsPast now n) rows
      → delete_event uid n (rows ++ entry ∷ []) ≡ rows
  unfolding delete_event
  delete-append [] past = rw (delete_event, entry-is_event) refl
  delete-append (e ∷ rows) past =
      rw (delete_event, older-is_event e past.0) (ap (λ x. e ∷ x) (delete-append rows past.1))

  update-append :
      (later : ℕ) (new : Meta) (rows : List MediaEvent)
      → All (IsPast now n) rows
      → update_event uid n later new (rows ++ entry ∷ [])
        ≡ rows ++ progress_entry n uid media_id new later ∷ []
  unfolding update_event
  update-append later new [] past =
      rw (update_event, entry-is_event) (unfold entry progress_entry in refl)
  update-append later new (e ∷ rows) past =
      rw (update_event, older-is_event e past.0)
        (ap (λ x. e ∷ x) (update-append later new rows past.1))

-- A run that is closed stays closed.
closed_later :
    (now later : ℕ) (o : Option MediaEvent)
    → now ≤ later
    → run_of now o ≡ none
    → run_of later o ≡ none
unfolding run_of
closed_later now later none le h = refl
closed_later now later (some e) le h =
    elim (Bool-cases (str_eq e.kind "progress" && ltb later (e.created_at + merge_window))) [
      | inr closed ↦ rw (run_of, closed) refl
      | inl going ↦
          let before : (str_eq e.kind "progress" && ltb now (e.created_at + merge_window)) ≡ true =
            ground arith in
          rw (run_of, going) (rw (run_of, before) at h)
    ]

module _ (uid : String) (media_id : ℕ) (prev_eps prev_seas eps seas total : ℤ)
    (season_eps : List ℤ) where
  -- A forward move without an open run adds an entry.
  opens :
      (now : ℕ) (s : EventLog)
      → run_of now (latest_event uid media_id s.rows) ≡ none
      → (ltb_ℤ prev_eps eps || ltb_ℤ prev_seas seas) ≡ true
      → log_media_progress now uid media_id prev_eps prev_seas eps seas total season_eps s
        ≡ record s {
          rows =
              s.rows
              ++ progress_entry s.next_id uid media_id
                  (meta_of prev_eps prev_seas eps seas total season_eps)
                  now
                ∷ [];
          next_id = s.next_id + 1;
        }
  unfolding log_media_progress plan_progress apply_action
  opens now s closed forward =
      rw (log_media_progress, closed, plan_progress, forward, apply_action) refl

  module _ (now later : ℕ) (s : EventLog) (log : IsLog now s)
      (in_window : later < now + merge_window)
      (closed : run_of now (latest_event uid media_id s.rows) ≡ none)
      (forward : (ltb_ℤ prev_eps eps || ltb_ℤ prev_seas seas) ≡ true) where
    opened : EventLog
    opened = record s {
      rows =
          s.rows
          ++ progress_entry s.next_id uid media_id
              (meta_of prev_eps prev_seas eps seas total season_eps) now
            ∷ [];
      next_id = s.next_id + 1;
    }

    open_run :
        run_of later (latest_event uid media_id opened.rows)
        ≡ some (record { id = s.next_id; from_eps = prev_eps; from_seas = prev_seas })
    unfolding IsLog run_of opened entry meta_of progress_entry
    open_run =
        let here =
          latest-append uid media_id now s.next_id
            (meta_of prev_eps prev_seas eps seas total season_eps) s.rows log in
        let recent : ltb later (now + merge_window) ≡ true = ground arith in rw (here, recent) refl

-- What is logged, by the run that is open.
log_run :
    (now : ℕ) (uid : String) (media_id : ℕ) (prev_eps prev_seas eps seas total : ℤ)
    (season_eps : List ℤ) (s : EventLog) (run : Option Run)
    → run_of now (latest_event uid media_id s.rows) ≡ run
    → log_media_progress now uid media_id prev_eps prev_seas eps seas total season_eps s
      ≡ apply_action now uid media_id eps seas total season_eps run
          (plan_progress run prev_eps prev_seas eps seas)
          s
unfolding log_media_progress
log_run now uid media_id prev_eps prev_seas eps seas total season_eps s run h =
    ap
      (λ o.
        apply_action now uid media_id eps seas total season_eps o
          (plan_progress o prev_eps prev_seas eps seas) s)
      h

-- Two moves within half an hour, with no run open before, the first one forward and both together forward: the
-- log is the one that a single move from the first start to the last counts leaves.
pub log_media_progress_merged :
    (uid : String) (media_id : ℕ) (prev_eps prev_seas mid_eps mid_seas eps seas total : ℤ)
    (season_eps : List ℤ) (now later : ℕ) (s : EventLog)
    → IsLog now s
    → now ≤ later
    → later < now + merge_window
    → run_of now (latest_event uid media_id s.rows) ≡ none
    → (ltb_ℤ prev_eps mid_eps || ltb_ℤ prev_seas mid_seas) ≡ true
    → (ltb_ℤ prev_eps eps || ltb_ℤ prev_seas seas) ≡ true
    → log_media_progress later uid media_id mid_eps mid_seas eps seas total season_eps
        (log_media_progress now uid media_id prev_eps prev_seas mid_eps mid_seas total season_eps s)
      ≡ log_media_progress later uid media_id prev_eps prev_seas eps seas total season_eps s
unfolding log_media_progress plan_progress apply_action opened IsLog progress_entry entry
log_media_progress_merged uid media_id prev_eps prev_seas mid_eps mid_seas eps seas total season_eps
      now later s log le in_window closed first whole =
    let once =
      opens uid media_id prev_eps prev_seas mid_eps mid_seas total season_eps now s closed first in
    let still = closed_later now later (latest_event uid media_id s.rows) le closed in
    let direct =
      opens uid media_id prev_eps prev_seas eps seas total season_eps later s still whole in
    let mid : EventLog =
      opened uid media_id prev_eps prev_seas mid_eps mid_seas total season_eps now later s log
        in_window closed first in
    let going =
      open_run uid media_id prev_eps prev_seas mid_eps mid_seas total season_eps now later s log
        in_window closed first in
    let new = meta_of prev_eps prev_seas eps seas total season_eps in
    let rows =
      update-append uid media_id now s.next_id
        (meta_of prev_eps prev_seas mid_eps mid_seas total season_eps) later new s.rows log in
    let ahead : (not (ltb_ℤ prev_eps eps) && not (ltb_ℤ prev_seas seas)) ≡ false = ground arith in
    let run : Run = record { id = s.next_id; from_eps = prev_eps; from_seas = prev_seas } in
    let planned : plan_progress (some run) mid_eps mid_seas eps seas ≡ update prev_eps prev_seas =
      rw (plan_progress, ahead) refl in
    let twice : log_media_progress later uid media_id mid_eps mid_seas eps seas total season_eps mid
        ≡ record s {
          rows = s.rows ++ progress_entry s.next_id uid media_id new later ∷ [];
          next_id = s.next_id + 1;
        } =
      log_run later uid media_id mid_eps mid_seas eps seas total season_eps mid (some run) going
      ∙ ap (λ a. apply_action later uid media_id eps seas total season_eps (some run) a mid) planned
      ∙ ap (λ (x : List MediaEvent). record s { rows = x; next_id = s.next_id + 1 }) rows in
    ap (log_media_progress later uid media_id mid_eps mid_seas eps seas total season_eps) once
    ∙ twice
    ∙ sym direct

-- Two moves within half an hour, with no run open before, the first one forward and the second back to the start
-- or before it: the rows of the log are the ones before both.
pub log_media_progress_undone :
    (uid : String) (media_id : ℕ) (prev_eps prev_seas mid_eps mid_seas eps seas total : ℤ)
    (season_eps : List ℤ) (now later : ℕ) (s : EventLog)
    → IsLog now s
    → later < now + merge_window
    → run_of now (latest_event uid media_id s.rows) ≡ none
    → (ltb_ℤ prev_eps mid_eps || ltb_ℤ prev_seas mid_seas) ≡ true
    → (ltb_ℤ prev_eps eps || ltb_ℤ prev_seas seas) ≡ false
    → EventLog.rows (
        log_media_progress later uid media_id mid_eps mid_seas eps seas total season_eps (
          log_media_progress now uid media_id prev_eps prev_seas mid_eps mid_seas total season_eps
            s))
      ≡ s.rows
unfolding log_media_progress plan_progress apply_action opened IsLog delete_event progress_entry
    entry
log_media_progress_undone uid media_id prev_eps prev_seas mid_eps mid_seas eps seas total season_eps
      now later s log in_window closed first back =
    let once =
      opens uid media_id prev_eps prev_seas mid_eps mid_seas total season_eps now s closed first in
    let mid : EventLog =
      opened uid media_id prev_eps prev_seas mid_eps mid_seas total season_eps now later s log
        in_window closed first in
    let going =
      open_run uid media_id prev_eps prev_seas mid_eps mid_seas total season_eps now later s log
        in_window closed first in
    let behind : (not (ltb_ℤ prev_eps eps) && not (ltb_ℤ prev_seas seas)) ≡ true = ground arith in
    let run : Run = record { id = s.next_id; from_eps = prev_eps; from_seas = prev_seas } in
    let planned : plan_progress (some run) mid_eps mid_seas eps seas ≡ delete =
      rw (plan_progress, behind) refl in
    ap
      (λ x.
        EventLog.rows
          (log_media_progress later uid media_id mid_eps mid_seas eps seas total season_eps x))
      once
    ∙ ap EventLog.rows
        (log_run later uid media_id mid_eps mid_seas eps seas total season_eps mid (some run) going)
    ∙ ap
        (λ a.
          EventLog.rows
            (apply_action later uid media_id eps seas total season_eps (some run) a mid))
        planned
    ∙ delete-append uid media_id now s.next_id
        (meta_of prev_eps prev_seas mid_eps mid_seas total season_eps) s.rows log
