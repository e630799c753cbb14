-- ===== src/Media/Progress.antt =====
-- internal/api/media_progress.go: `planProgress` and `logMediaProgress`, and `progressMeta` of
-- internal/api/media.go. Times are in nanoseconds. The statements are best-effort in the source; here they
-- succeed. Of an event's meta the fields that a progress entry has are kept.
pub mod Merge
use text.Mathlib.Text.{◌==◌ as str_eq}
use sajni_api.Prelude.{
  ℕ, ◌+◌, ◌==◌, Bool, true, false, not, ◌&&◌, ◌||◌, Option, none, some, List, [], ◌∷◌, ◌++◌, String,
  ltb, if◌then◌else◌,
}
use sajni_api.Prelude.Int.{ℤ, pos, ltb_ℤ, ◌+ℤ◌, ◌-ℤ◌}

-- `progressMeta`: the counts, and the season and the episode in it. `from` is where the run of the entry
-- started: its counts, and its season and episode.
pub record Meta : Type 0 where
  pub episodes_watched : ℤ
  pub episodes_total : ℤ
  pub seasons_watched : ℤ
  pub place : Option (ℤ × ℤ)
  pub from_episodes_watched : Option ℤ
  pub from_seasons_watched : Option ℤ
  pub from_place : Option (ℤ × ℤ)

-- `media_events`
pub record MediaEvent : Type 0 where
  pub id : ℕ
  pub user_id : String
  pub media_id : ℕ
  pub kind : String
  pub meta : Meta
  pub created_at : ℕ

pub record EventLog : Type 0 where
  pub rows : List MediaEvent
  pub next_id : ℕ

-- The loop over the seasons, at season `i` with `acc` episodes before it.
unfoldable pub season_of : ℤ → ℤ → ℤ → ℤ → List ℤ → ℤ × ℤ
season_of watched i acc length [] = (i +ℤ pos 1, (watched -ℤ acc))
season_of watched i acc length (more ∷ seasons) =
    let rest = season_of watched (i +ℤ pos 1) (acc +ℤ length) more seasons in
    if not (ltb_ℤ (acc +ℤ length) watched) then (i +ℤ pos 1, (watched -ℤ acc)) else rest

unfoldable pub place_of : ℤ → ℤ → List ℤ → Option (ℤ × ℤ)
place_of seasons_watched watched [] =
    if ltb_ℤ (pos 0) seasons_watched then some (seasons_watched, watched) else none
place_of seasons_watched watched (length ∷ seasons) =
    some (season_of watched (pos 0) (pos 0) length seasons)

-- `progressRun`
pub record Run : Type 0 where
  pub id : ℕ
  pub from_eps : ℤ
  pub from_seas : ℤ

-- `progressAction`, with the start that goes with it.
pub data Action : Type 0 where
  nothing delete : Action
  insert update : ℤ → ℤ → Action

-- `planProgress`
unfoldable pub plan_progress : Option Run → ℤ → ℤ → ℤ → ℤ → Action
plan_progress (some run) prev_eps prev_seas eps seas =
    if not (ltb_ℤ run.from_eps eps) && not (ltb_ℤ run.from_seas seas)
    then delete
    else update run.from_eps run.from_seas
plan_progress none prev_eps prev_seas eps seas =
    if ltb_ℤ prev_eps eps || ltb_ℤ prev_seas seas then insert prev_eps prev_seas else nothing

-- `progressMergeWindow`: 30 minutes.
abbrev pub merge_window : ℕ
merge_window = 1800000000000

unfoldable pub is_of : String → ℕ → MediaEvent → Bool
is_of uid media_id e = str_eq e.user_id uid && (e.media_id == media_id)

-- `ORDER BY created_at DESC, id DESC LIMIT 1`
abbrev is_newer : MediaEvent → MediaEvent → Bool
is_newer e f = ltb f.created_at e.created_at || (f.created_at == e.created_at) && ltb f.id e.id

abbrev newest : MediaEvent → Option MediaEvent → MediaEvent
newest e none = e
newest e (some best) = if is_newer best e then best else e

unfoldable pub latest_event : String → ℕ → List MediaEvent → Option MediaEvent
latest_event uid media_id [] = none
latest_event uid media_id (e ∷ rows) =
    if is_of uid media_id e
    then some (newest e (latest_event uid media_id rows))
    else latest_event uid media_id rows

abbrev with_start : ℕ → Option ℤ → Option ℤ → Option Run
with_start id (some eps) (some seas) = some (record { id = id; from_eps = eps; from_seas = seas })
with_start id _ _ = none

-- The open run: the latest event, where it is a recent progress entry that has its start.
unfoldable pub run_of : ℕ → Option MediaEvent → Option Run
run_of now none = none
run_of now (some e) =
    if str_eq e.kind "progress" && ltb now (e.created_at + merge_window)
    then with_start e.id e.meta.from_episodes_watched e.meta.from_seasons_watched
    else none

unfoldable pub meta_of : ℤ → ℤ → ℤ → ℤ → ℤ → List ℤ → Meta
meta_of from_eps from_seas eps seas total season_eps = record {
  episodes_watched = eps;
  episodes_total = total;
  seasons_watched = seas;
  place = place_of seas eps season_eps;
  from_episodes_watched = some from_eps;
  from_seasons_watched = some from_seas;
  from_place = place_of from_seas from_eps season_eps;
}

-- The statements `WHERE id = $1 AND user_id = $2`.
unfoldable pub is_event : String → ℕ → MediaEvent → Bool
is_event uid id e = str_eq e.user_id uid && (e.id == id)

unfoldable pub delete_event : String → ℕ → List MediaEvent → List MediaEvent
delete_event uid id [] = []
delete_event uid id (e ∷ rows) =
    if is_event uid id e then delete_event uid id rows else e ∷ delete_event uid id rows

unfoldable pub update_event : String → ℕ → ℕ → Meta → List MediaEvent → List MediaEvent
update_event uid id now meta [] = []
update_event uid id now meta (e ∷ rows) =
    (if is_event uid id e then record e { meta = meta; created_at = now } else e)
    ∷ update_event uid id now meta rows

unfoldable pub progress_entry : ℕ → String → ℕ → Meta → ℕ → MediaEvent
progress_entry id uid media_id meta now = record {
  id = id;
  user_id = uid;
  media_id = media_id;
  kind = "progress";
  meta = meta;
  created_at = now;
}

-- What `logMediaProgress` does for each action; the run's id is there for an update or a deletion.
unfoldable pub apply_action :
    ℕ → String → ℕ → ℤ → ℤ → ℤ → List ℤ → Option Run → Action → EventLog → EventLog
apply_action now uid media_id eps seas total season_eps run nothing s = s
apply_action now uid media_id eps seas total season_eps none delete s = s
apply_action now uid media_id eps seas total season_eps (some run) delete s = record s {
  rows = delete_event uid run.id s.rows;
}
apply_action now uid media_id eps seas total season_eps none (update from_eps from_seas) s = s
apply_action now uid media_id eps seas total season_eps (some run) (update from_eps from_seas) s =
    record s {
      rows =
          update_event uid run.id now (meta_of from_eps from_seas eps seas total season_eps) s.rows;
    }
apply_action now uid media_id eps seas total season_eps run (insert from_eps from_seas) s =
    record s {
      rows =
          s.rows
          ++ progress_entry s.next_id uid media_id
              (meta_of from_eps from_seas eps seas total season_eps) now
            ∷ [];
      next_id = s.next_id + 1;
    }

-- `logMediaProgress`
unfoldable pub log_media_progress :
    ℕ → String → ℕ → ℤ → ℤ → ℤ → ℤ → ℤ → List ℤ → EventLog → EventLog
log_media_progress now uid media_id prev_eps prev_seas eps seas total season_eps s =
    let run = run_of now (latest_event uid media_id s.rows) in
    apply_action now uid media_id eps seas total season_eps run
      (plan_progress run prev_eps prev_seas eps seas) s
