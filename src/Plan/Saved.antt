-- ===== src/Plan/Saved.antt =====
-- `Save`, `Delete` and `Advance` of internal/plan/plan.go. A user's zone, which `Location` looks up, is a
-- parameter.
pub mod Rows
pub mod Table
pub mod Armed
use text.Mathlib.Text.{◌==◌ as str_eq}
use sajni_api.Prelude.{
  ℕ, ◌+◌, ◌==◌, Bool, true, false, ◌&&◌, Option, none, some, List, [], ◌∷◌, ◌++◌, String,
  if◌then◌else◌, Result, ok, err, ◌>>=◌,
}
use sajni_api.Calendar.Text.{Text}
use sajni_api.Calendar.Zone.{Zone}
use sajni_api.Plan.{PlanRow, PlanError, not_found, get, next}
use sajni_api.Plan.Input.{TextOps, SaveInput, Checked, normalize}

-- The table, the next id, and the alerts that were enqueued, each with its plan.
pub record Plans : Type 0 where
  pub rows : List PlanRow
  pub next_id : ℕ
  pub queue : List (ℕ × ℕ)

-- `enqueue`, where there is an alert.
abbrev pub enqueue : ℕ → Option ℕ → List (ℕ × ℕ) → List (ℕ × ℕ)
enqueue id none queue = queue
enqueue id (some time) queue = queue ++ (id, time) ∷ []

-- `WHERE user_id=$1 AND id=$2`
unfoldable pub is_plan : String → ℕ → PlanRow → Bool
is_plan uid id row = str_eq row.user_id uid && (row.id == id)

unfoldable pub update_plan : String → ℕ → (PlanRow → PlanRow) → List PlanRow → List PlanRow
update_plan uid id f [] = []
update_plan uid id f (row ∷ rows) =
    (if is_plan uid id row then f row else row) ∷ update_plan uid id f rows

unfoldable pub delete_plan : String → ℕ → List PlanRow → List PlanRow
delete_plan uid id [] = []
delete_plan uid id (row ∷ rows) =
    if is_plan uid id row then delete_plan uid id rows else row ∷ delete_plan uid id rows

abbrev pub is_missing : Option PlanRow → Bool
is_missing none = true
is_missing (some row) = false

abbrev pub found {ℓ} : {A : Type ℓ} → Option A → Result PlanError A
found none = err not_found
found (some row) = ok row

-- The row that `Save` inserts, and the columns that it replaces.
unfoldable pub new_plan : String → ℕ → Checked → Option ℕ → PlanRow
new_plan uid id checked alert = record {
  id = id;
  user_id = uid;
  name = checked.name;
  color = checked.color;
  weekdays = checked.weekdays;
  start_time = checked.start_time;
  notify = checked.notify;
  next_alert_at = alert;
  alert_claimed_until = none;
}

unfoldable pub replaced : Checked → Option ℕ → PlanRow → PlanRow
replaced checked alert row = new_plan row.user_id row.id checked alert

-- The insert or the update of `Save`, and the id of its row.
unfoldable pub store_plan : String → ℕ → Checked → Option ℕ → Plans → Result PlanError (ℕ × Plans)
store_plan uid id checked alert s =
    if id == 0
    then ok (
      s.next_id,
      record s {
        rows = s.rows ++ new_plan uid s.next_id checked alert ∷ [];
        next_id = s.next_id + 1;
      },
    )
    else if is_missing (get uid id s.rows)
    then err not_found
    else ok (id, record s { rows = update_plan uid id (replaced checked alert) s.rows })

-- The next alert, with notify on. `scan` is `fmt.Sscanf` with "%d:%d".
unfoldable pub alert_of : (Text → ℕ × ℕ) → Bool → List ℕ → Text → Zone → ℕ → Option ℕ
alert_of scan notify weekdays start_time loc after =
    if notify then next scan weekdays start_time loc after else none

-- `Save`
unfoldable pub save :
    TextOps
    → (Text → ℕ × ℕ)
    → (String → Zone)
    → ℕ
    → String
    → ℕ
    → SaveInput
    → Plans
    → Result PlanError (PlanRow × Plans)
save ops scan zone_of now uid id input s = do
  checked ← normalize ops input
  let alert = alert_of scan checked.notify checked.weekdays checked.start_time (zone_of uid) now
  stored ← store_plan uid id checked alert s
  row ← found (get uid stored.0 stored.1.rows)
  ok (row, record stored.1 { queue = enqueue stored.0 alert stored.1.queue })

-- `Delete`
unfoldable pub delete : String → ℕ → Plans → Result PlanError Plans
delete uid id s =
    if is_missing (get uid id s.rows)
    then err not_found
    else ok (record s { rows = delete_plan uid id s.rows })

-- `WHERE id=$1`
unfoldable pub find_plan : ℕ → List PlanRow → Option PlanRow
find_plan id [] = none
find_plan id (row ∷ rows) = if row.id == id then some row else find_plan id rows

unfoldable pub rearm : ℕ → Option ℕ → List PlanRow → List PlanRow
rearm id alert [] = []
rearm id alert (row ∷ rows) =
    (if row.id == id then record row { next_alert_at = alert; alert_claimed_until = none } else row)
    ∷ rearm id alert rows

-- `Advance`, which looks a plan up by its id alone.
unfoldable pub advance : (Text → ℕ × ℕ) → (String → Zone) → ℕ → ℕ → Plans → Result PlanError Plans
advance scan zone_of id after s = do
  row ← found (find_plan id s.rows)
  let alert = alert_of scan row.notify row.weekdays row.start_time (zone_of row.user_id) after
  ok (record s { rows = rearm id alert s.rows; queue = enqueue id alert s.queue })
