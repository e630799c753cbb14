-- ===== src/Idempotency/Tests.antt =====
-- Runs of internal/api/idempotency.go, and the theorems at inputs where they hold: a change that
-- counts its runs, sent with the key "k".
use sajni_api.Prelude.{ℕ, suc, ◌≡◌, true, false, none, some, [], ◌∷◌, arith, refl}
use sajni_api.Idempotency.{
  KeyRow, Keys, Reply, Request, set_row, claim_row, bypass, with_idempotency,
}
use sajni_api.Idempotency.Replay.{
  with_idempotency_again, with_idempotency_retry, with_idempotency_pending,
}

abbrev created : ℕ → Reply × ℕ
created runs =
    (record { status = 201; body = 49 ∷ []; pending = false; replayed = false }, suc runs)

abbrev failing : ℕ → Reply × ℕ
failing runs = (record { status = 503; body = []; pending = false; replayed = false }, suc runs)

abbrev change : Request
change = record { user_id = "u"; key = 107 ∷ []; is_get = false }

abbrev no_keys : Keys
no_keys uid key = none

abbrev claim_at_5 : KeyRow
claim_at_5 = record { status = 0; body = []; created_at = 5 }

change-keyed : bypass change ≡ false
unfolding bypass
change-keyed = refl

change_claims : claim_row 5 (no_keys change.user_id change.key) ≡ some claim_at_5
unfolding claim_row
change_claims = refl

with_idempotency_again_example :
    let first = with_idempotency created change 5 9 no_keys 0 in
    (first.0 ≡ (created 0).0)
    × (first.2 ≡ 1)
    × (with_idempotency created change 20 21 first.1 first.2 ≡ (
      record { status = 201; body = 49 ∷ []; pending = false; replayed = true },
      first.1,
      first.2,
    ))
with_idempotency_again_example =
    with_idempotency_again created change 5 9 20 21 no_keys 0 claim_at_5 change-keyed change_claims
      (omega arith) (omega arith) (omega arith)

with_idempotency_retry_example :
    let first = with_idempotency failing change 5 9 no_keys 0 in
    let second = with_idempotency failing change 20 21 first.1 first.2 in
    (second.0 ≡ (failing 1).0) × (second.2 ≡ 2)
with_idempotency_retry_example =
    with_idempotency_retry failing change 5 9 20 21 no_keys 0 claim_at_5 change-keyed change_claims
      (omega arith)

with_idempotency_pending_example :
    let running = set_row "u" (107 ∷ []) (some claim_at_5) no_keys in
    with_idempotency created change 7 8 running 0
    ≡ (record { status = 409; body = []; pending = true; replayed = false }, running, 0)
with_idempotency_pending_example =
    with_idempotency_pending created change 5 7 8 no_keys 0 claim_at_5 change-keyed change_claims
      (omega arith)
