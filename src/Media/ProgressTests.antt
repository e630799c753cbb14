-- ===== src/Media/ProgressTests.antt =====
-- Runs of `logMediaProgress` on a show of two seasons, and its theorems at them.
use sajni_api.Prelude.{◌≡◌, some, none, [], ◌∷◌, refl, arith}
use sajni_api.Prelude.Int.{pos, ◌+ℤ◌, ◌-ℤ◌}
use sajni_api.Media.Progress.{
  MediaEvent, EventLog, latest_event, is_of, run_of, plan_progress, place_of, season_of, meta_of,
  progress_entry, apply_action, log_media_progress, is_event, update_event,
}
use sajni_api.Media.Progress.Merge.{IsLog, log_media_progress_merged, log_media_progress_undone}

-- One event, of another kind.
abbrev added : MediaEvent
added = record {
  id = 1;
  user_id = "u";
  media_id = 5;
  kind = "added";
  meta = record {
    episodes_watched = pos 0;
    episodes_total = pos 0;
    seasons_watched = pos 0;
    place = none;
    from_episodes_watched = none;
    from_seasons_watched = none;
    from_place = none;
  };
  created_at = 0;
}

abbrev before : EventLog
before = record { rows = added ∷ []; next_id = 2 }

before-IsLog : IsLog 100 before
unfolding IsLog
before-IsLog = ((omega arith, omega arith), tt)

closed : run_of 100 (latest_event "u" 5 before.rows) ≡ none
unfolding run_of latest_event is_of
closed = refl

-- Episode 3 of season 1, then episode 2 of season 2: one entry from the start to the last.
stepped :
    log_media_progress 200 "u" 5 (pos 3) (pos 0) (pos 12) (pos 1) (pos 20) (pos 10 ∷ pos 10 ∷ []) (
      log_media_progress 100 "u" 5
        (pos 2)
        (pos 0)
        (pos 3)
        (pos 0)
        (pos 20)
        (pos 10 ∷ pos 10 ∷ [])
        before)
    ≡ record {
      rows =
          added
          ∷ record {
            id = 2;
            user_id = "u";
            media_id = 5;
            kind = "progress";
            meta = record {
              episodes_watched = pos 12;
              episodes_total = pos 20;
              seasons_watched = pos 1;
              place = some (pos 2, pos 2);
              from_episodes_watched = some (pos 2);
              from_seasons_watched = some (pos 0);
              from_place = some (pos 1, pos 2);
            };
            created_at = 200;
          }
          ∷ [];
      next_id = 3;
    }
unfolding log_media_progress run_of latest_event is_of plan_progress place_of season_of meta_of
    progress_entry apply_action is_event update_event ◌+ℤ◌ ◌-ℤ◌
stepped = refl

log_media_progress_merged_example :
    log_media_progress 200 "u" 5 (pos 3) (pos 0) (pos 12) (pos 1) (pos 20) (pos 10 ∷ pos 10 ∷ []) (
      log_media_progress 100 "u" 5
        (pos 2)
        (pos 0)
        (pos 3)
        (pos 0)
        (pos 20)
        (pos 10 ∷ pos 10 ∷ [])
        before)
    ≡ log_media_progress 200 "u" 5
        (pos 2)
        (pos 0)
        (pos 12)
        (pos 1)
        (pos 20)
        (pos 10 ∷ pos 10 ∷ [])
        before
log_media_progress_merged_example =
    log_media_progress_merged "u" 5 (pos 2) (pos 0) (pos 3) (pos 0) (pos 12) (pos 1) (pos 20)
      (pos 10 ∷ pos 10 ∷ []) 100 200 before before-IsLog (omega arith) (omega arith) closed refl
      refl

log_media_progress_undone_example :
    EventLog.rows (
      log_media_progress 200 "u" 5
        (pos 3)
        (pos 0)
        (pos 2)
        (pos 0)
        (pos 20)
        []
        (log_media_progress 100 "u" 5 (pos 2) (pos 0) (pos 3) (pos 0) (pos 20) [] before))
    ≡ before.rows
log_media_progress_undone_example =
    log_media_progress_undone "u" 5 (pos 2) (pos 0) (pos 3) (pos 0) (pos 2) (pos 0) (pos 20) [] 100
      200 before before-IsLog (omega arith) closed refl refl
