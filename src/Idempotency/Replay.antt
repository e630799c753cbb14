-- ===== src/Idempotency/Replay.antt =====
-- A change that arrives again.
use text.Mathlib.TextEquality.{eq_iff}
use sajni_api.Prelude.{
  ℕ, ◌+◌, ◌≤◌, ◌<◌, ◌≡◌, ◌≢◌, [], ◌==◌, true, false, ◌&&◌, Option, none, some, String, ltb, leb,
  arith, refl, sym, ap, ◌∙◌, Bool-cases, inl, inr,
}
use sajni_api.Calendar.Text.{Text, text_eq_refl}
use sajni_api.Idempotency.{
  KeyRow, Keys, Reply, Request, two_minutes, thirty_days, set_row, claim_row, stored_reply,
  store_reply, drop_old, purge, keep_reply, bypass, run_claimed, with_idempotency,
}

set_row-same :
    (uid : String) (key : Text) (row : Option KeyRow) (keys : Keys)
    → set_row uid key row keys uid key ≡ row
unfolding set_row
set_row-same uid key row keys = rw ((eq_iff uid uid).1 refl, text_eq_refl key) refl

purge-same :
    (uid : String) (key : Text) (now : ℕ) (keys : Keys)
    → purge uid now keys uid key ≡ drop_old now (keys uid key)
unfolding purge
purge-same uid key now keys = rw ((eq_iff uid uid).1 refl) refl

-- The row of a claimed key after its reply was stored.
kept_row :
    (uid : String) (key : Text) (reply : Reply) (ends : ℕ) (row : KeyRow) (keys : Keys)
    → reply.status < 500
    → ends ≤ row.created_at + thirty_days
    → keep_reply uid key reply ends (set_row uid key (some row) keys) uid key
      ≡ some (record row { status = reply.status; body = reply.body })
unfolding keep_reply store_reply drop_old
kept_row uid key reply ends row keys small soon =
    let fine : leb 500 reply.status ≡ false = ground arith in
    let fresh : ltb (row.created_at + thirty_days) ends ≡ false = ground arith in
    rw (keep_reply, fine, purge-same, set_row-same, set_row-same, store_reply, drop_old, fresh) refl

module _ {S : Type 0} (next : S → Reply × S) (r : Request) (keyed : bypass r ≡ false) where
  unclaimed :
      (begins ends : ℕ) (keys : Keys) (s : S) (row : Option KeyRow)
      → keys r.user_id r.key ≡ row
      → claim_row begins row ≡ none
      → with_idempotency next r begins ends keys s ≡ (stored_reply row, keys, s)
  unfolding with_idempotency
  unclaimed begins ends keys s row e busy =
      rw (with_idempotency, keyed, e, busy) (ap (λ x. (stored_reply x, keys, s)) e)

  claimed :
      (begins ends : ℕ) (keys : Keys) (s : S) (row : KeyRow)
      → claim_row begins (keys r.user_id r.key) ≡ some row
      → with_idempotency next r begins ends keys s
        ≡ run_claimed next r ends (set_row r.user_id r.key (some row) keys) s
  unfolding with_idempotency
  claimed begins ends keys s row e = rw (with_idempotency, keyed, e) refl

of_some : {a b : KeyRow} → some a ≡ some b → a ≡ b
of_some h = cc

none_not : {a : KeyRow} → none ≢ some a
none_not h = cc

claim_status :
    (begins : ℕ) (old : Option KeyRow) (row : KeyRow)
    → claim_row begins old ≡ some row
    → row.status ≡ 0
unfolding claim_row
claim_status begins none row h = sym (ap KeyRow.status (of_some h))
claim_status begins (some old) row h =
    elim (Bool-cases ((old.status == 0) && ltb (old.created_at + two_minutes) begins)) [
      | inl stale ↦ sym (ap KeyRow.status (of_some (rw stale at h))) ∙ ground arith
      | inr kept ↦ absurd (none_not (rw kept at h))
    ]

too_soon :
    (now : ℕ) (row : KeyRow) → now ≤ row.created_at + two_minutes → claim_row now (some row) ≡ none
unfolding claim_row
too_soon now row h = ground arith

claim_created :
    (begins : ℕ) (old : Option KeyRow) (row : KeyRow)
    → claim_row begins old ≡ some row
    → row.created_at ≡ begins
unfolding claim_row
claim_created begins none row h = sym (ap KeyRow.created_at (of_some h))
claim_created begins (some old) row h =
    elim (Bool-cases ((old.status == 0) && ltb (old.created_at + two_minutes) begins)) [
      | inl stale ↦ sym (ap KeyRow.created_at (of_some (rw stale at h)))
      | inr kept ↦ absurd (none_not (rw kept at h))
    ]

answered : (begins : ℕ) (row : KeyRow) → 1 ≤ row.status → claim_row begins (some row) ≡ none
unfolding claim_row
answered begins row h = ground arith

answered_reply :
    (row : KeyRow)
    → 1 ≤ row.status
    → stored_reply (some row)
      ≡ record { status = row.status; body = row.body; pending = false; replayed = true }
unfolding stored_reply
answered_reply row h = ground arith

-- A keyed change that claimed its key and was answered, without a server error and within 30 days:
-- sent again, it gets the same status and body, marked as replayed, and nothing is changed.
pub with_idempotency_again :
    {S : Type 0} (next : S → Reply × S) (r : Request) (begins ends begins' ends' : ℕ) (keys : Keys)
    (s : S) (row : KeyRow)
    → bypass r ≡ false
    → claim_row begins (keys r.user_id r.key) ≡ some row
    → 1 ≤ (next s).0.status
    → (next s).0.status < 500
    → ends ≤ begins + thirty_days
    → let first = with_idempotency next r begins ends keys s in
      (first.0 ≡ (next s).0)
      × (first.2 ≡ (next s).1)
      × (with_idempotency next r begins' ends' first.1 first.2 ≡ (
        record {
          status = (next s).0.status;
          body = (next s).0.body;
          pending = false;
          replayed = true;
        },
        first.1,
        first.2,
      ))
unfolding run_claimed
with_idempotency_again next r begins ends begins' ends' keys s row keyed claim some_status small
      soon =
    let ran = claimed next r keyed begins ends keys s row claim in
    let created = claim_created begins (keys r.user_id r.key) row claim in
    let kept = kept_row r.user_id r.key (next s).0 ends row keys small (omega arith) in
    let answer : KeyRow = record row { status = (next s).0.status; body = (next s).0.body } in
    rw ran (
      refl,
      refl,
      unclaimed next r keyed begins' ends'
            (keep_reply r.user_id r.key (next s).0 ends (set_row r.user_id r.key (some row) keys))
            (next s).1 (some answer) kept (answered begins' answer some_status)
          ∙ ap
              (λ a. (
                a,
                keep_reply r.user_id r.key (next s).0 ends
                    (set_row r.user_id r.key (some row) keys),
                (next s).1,
              ))
              (answered_reply answer some_status),
    )

dropped_row :
    (uid : String) (key : Text) (reply : Reply) (ends : ℕ) (row : Option KeyRow) (keys : Keys)
    → 500 ≤ reply.status
    → keep_reply uid key reply ends (set_row uid key row keys) uid key ≡ none
unfolding keep_reply
dropped_row uid key reply ends row keys failed =
    let server_error : leb 500 reply.status ≡ true = ground arith in
    rw (keep_reply, server_error, set_row-same) refl

-- A keyed change that claimed its key and was answered with a server error runs when it is sent
-- again, on the state that the first attempt left.
pub with_idempotency_retry :
    {S : Type 0} (next : S → Reply × S) (r : Request) (begins ends begins' ends' : ℕ) (keys : Keys)
    (s : S) (row : KeyRow)
    → bypass r ≡ false
    → claim_row begins (keys r.user_id r.key) ≡ some row
    → 500 ≤ (next s).0.status
    → let first = with_idempotency next r begins ends keys s in
      let second = with_idempotency next r begins' ends' first.1 first.2 in
      (second.0 ≡ (next (next s).1).0) × (second.2 ≡ (next (next s).1).1)
unfolding run_claimed claim_row
with_idempotency_retry next r begins ends begins' ends' keys s row keyed claim failed =
    let ran = claimed next r keyed begins ends keys s row claim in
    let dropped = dropped_row r.user_id r.key (next s).0 ends (some row) keys failed in
    rw ran (
      let again =
        claimed next r keyed begins' ends'
          (keep_reply r.user_id r.key (next s).0 ends (set_row r.user_id r.key (some row) keys))
          (next s).1 _ (ap (claim_row begins') dropped) in
      rw again (refl, refl))

-- While a keyed change that claimed its key runs, and for two minutes from its claim, the same change
-- is answered with a conflict that tells the client to retry, and does not run.
pub with_idempotency_pending :
    {S : Type 0} (next : S → Reply × S) (r : Request) (begins begins' ends' : ℕ) (keys : Keys)
    (s : S) (row : KeyRow)
    → bypass r ≡ false
    → claim_row begins (keys r.user_id r.key) ≡ some row
    → begins' ≤ begins + two_minutes
    → let running = set_row r.user_id r.key (some row) keys in
      with_idempotency next r begins' ends' running s
      ≡ (record { status = 409; body = []; pending = true; replayed = false }, running, s)
unfolding stored_reply
with_idempotency_pending next r begins begins' ends' keys s row keyed claim soon =
    let created = claim_created begins (keys r.user_id r.key) row claim in
    let zero_status = claim_status begins (keys r.user_id r.key) row claim in
    let running = set_row r.user_id r.key (some row) keys in
    unclaimed next r keyed begins' ends' running s (some row)
      (set_row-same r.user_id r.key (some row) keys) (too_soon begins' row (omega arith))
    ∙ rw zero_status refl
