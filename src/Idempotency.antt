-- ===== src/Idempotency.antt =====
-- internal/api/idempotency.go: a change that a client sends more than once runs once. The table
-- idempotency_keys has at most one row for a user and a key. The handler that is wrapped is a
-- parameter: it answers and changes the application's own state.
pub mod Replay
mod Tests
use text.Mathlib.Text.{◌==◌ as str_eq}
use sajni_api.Prelude.{
  ℕ, ◌+◌, ◌==◌, Bool, true, false, ◌&&◌, ◌||◌, Option, none, some, [], String, ltb, leb, length,
  if◌then◌else◌,
}
use sajni_api.Calendar.Text.{Text, text_eq}
use sajni_api.Reminder.Next.{is_empty}

pub record KeyRow : Type 0 where
  pub status : ℕ
  pub body : Text
  pub created_at : ℕ

abbrev pub Keys : Type 0
Keys = String → Text → Option KeyRow

-- What the client sees; `pending` and `replayed` are the two headers.
pub record Reply : Type 0 where
  pub status : ℕ
  pub body : Text
  pub pending : Bool
  pub replayed : Bool

pub record Request : Type 0 where
  pub user_id : String
  pub key : Text
  pub is_get : Bool

abbrev pub two_minutes : ℕ
two_minutes = 120000000000

abbrev pub thirty_days : ℕ
thirty_days = 2592000000000000

unfoldable pub set_row : String → Text → Option KeyRow → Keys → Keys
set_row uid key row keys u k = if str_eq u uid && text_eq k key then row else keys u k

-- The insert that claims a key at a time; `none` is its return of no row.
unfoldable pub claim_row : ℕ → Option KeyRow → Option KeyRow
claim_row now none = some (record { status = 0; body = []; created_at = now })
claim_row now (some row) =
    if (row.status == 0) && ltb (row.created_at + two_minutes) now
    then some (record row { created_at = now })
    else none

-- The answer to a request that has no claim; `none` cannot be read, an internal error.
unfoldable pub stored_reply : Option KeyRow → Reply
stored_reply none = record { status = 500; body = []; pending = false; replayed = false }
stored_reply (some row) =
    if row.status == 0
    then record { status = 409; body = []; pending = true; replayed = false }
    else record { status = row.status; body = row.body; pending = false; replayed = true }

-- The update and the two deletes after the handler has answered.
unfoldable pub store_reply : Reply → Option KeyRow → Option KeyRow
store_reply reply none = none
store_reply reply (some row) = some (record row { status = reply.status; body = reply.body })

unfoldable pub drop_old : ℕ → Option KeyRow → Option KeyRow
drop_old now none = none
drop_old now (some row) = if ltb (row.created_at + thirty_days) now then none else some row

unfoldable pub purge : String → ℕ → Keys → Keys
purge uid now keys u k = if str_eq u uid then drop_old now (keys u k) else keys u k

unfoldable pub keep_reply : String → Text → Reply → ℕ → Keys → Keys
keep_reply uid key reply now keys =
    if leb 500 reply.status
    then set_row uid key none keys
    else purge uid now (set_row uid key (store_reply reply (keys uid key)) keys)

unfoldable pub bypass : Request → Bool
bypass r = is_empty r.key || r.is_get || ltb 100 (length r.key)

module _ {S : Type 0} (next : S → Reply × S) where
  -- The part after the claim.
  unfoldable pub run_claimed : Request → ℕ → Keys → S → Reply × Keys × S
  run_claimed r ends keys s =
      let (reply, after) = next s in (reply, keep_reply r.user_id r.key reply ends keys, after)

  -- `withIdempotency`, for a request that claims its key at `begins` and stores its reply at `ends`.
  unfoldable pub with_idempotency : Request → ℕ → ℕ → Keys → S → Reply × Keys × S
  with_idempotency r begins ends keys s =
      if bypass r
      then (let (reply, after) = next s in (reply, keys, after))
      else elim (claim_row begins (keys r.user_id r.key)) [
        | none ↦ (stored_reply (keys r.user_id r.key), keys, s)
        | some row ↦ run_claimed r ends (set_row r.user_id r.key (some row) keys) s
      ]
