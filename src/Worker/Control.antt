-- ===== src/Worker/Control.antt =====
-- The lease, the errors and the end of a run in apps/reddit-kafka/src/stream/worker.py.
use reddit_kafka.Base.{ℕ, Bool, true, false, not, ◌||◌, String, if◌then◌else◌}
use reddit_kafka.Errors.{
  Foreign, Error, foreign, Recovery, abandon, sleep, reraise, is_retryable, choose_recovery,
  not_found, forbidden, too_many_requests,
}
use reddit_kafka.World.{Services, World}
use reddit_kafka.Lock.{refresh_lock, release_lock}
use reddit_kafka.Registry.Status.{update_status_if_owner, heartbeat}
use reddit_kafka.ErrorLog.{record_error}
use reddit_kafka.Worker.Comments.{save_checkpoint}

abbrev pub lock_ttl : ℕ
lock_ttl = 60

-- What a worker is constructed with, as far as it tells Redis about it.
pub record Identity : Type 0 where
  pub subreddit : String
  pub instance_id : String
  pub stream_id : String
  pub lock_token : String
  pub has_session_maker : Bool

-- How the command to refresh the lease goes: it is answered in time; or it raises or times out,
-- after it has been carried out or without; or the task is cancelled meanwhile.
pub data Reply : Type 0 where
  answered : Reply
  unanswered : Bool → Reply
  cancelled : Reply

-- How a call in the outer `finally` of `run` goes: it is answered; or it raises an `Exception`, or the
-- run is cancelled again while it waits for it, after it has been carried out or without.
pub data FinalCall : Type 0 where
  completes : FinalCall
  fails cut_off : Bool → FinalCall

-- How `_refresh_lock_or_raise` ends.
pub data Refreshed : Type 0 where
  still_owned lock_lost was_cancelled : Refreshed

-- How `_handle_error` ends: it raises the error again, or it has slept and the loop goes on.
pub data Handled : Type 0 where
  raises : Handled
  slept : ℕ → Handled

-- The entry of an error in the log.
pub record LogEntry : Type 0 where
  pub entry_id : String
  pub entry : String
  pub error_type : String
  pub message : String
  pub timestamp : String

-- `isinstance(error, (NotFound, Forbidden))`, of an error that is no `TooManyRequests`
unfoldable pub is_unavailable : {f : Foreign} → Error f → Bool
is_unavailable {f} (foreign e) =
    if f.isinstance e too_many_requests
    then false
    else f.isinstance e not_found || f.isinstance e forbidden
is_unavailable _ = false

module _ {S : Services} (me : Identity) where
  -- `if not success: … raise`, and else the heartbeat, whose failure is swallowed
  unfoldable pub after_refresh : Bool → String → World S × Bool → World S × Bool × Refreshed
  after_refresh heartbeat_raises now (w, true) = (
    if heartbeat_raises then w else (heartbeat me.stream_id me.instance_id now w).0,
    false,
    still_owned,
  )
  after_refresh heartbeat_raises now (w, false) = (w, true, lock_lost)

  -- `_refresh_lock_or_raise`: the world, whether the stop event is set by it, and how it ends
  unfoldable pub refresh_lock_or_raise :
      Reply → Bool → String → World S → World S × Bool × Refreshed
  unfolding after_refresh
  refresh_lock_or_raise answered heartbeat_raises now w =
      after_refresh heartbeat_raises now (refresh_lock me.subreddit me.lock_token lock_ttl w)
  refresh_lock_or_raise (unanswered carried_out) heartbeat_raises now w = (
    if carried_out then (refresh_lock me.subreddit me.lock_token lock_ttl w).0 else w,
    true,
    lock_lost,
  )
  refresh_lock_or_raise cancelled heartbeat_raises now w = (w, false, was_cancelled)

  -- the final checkpoint, after a shutdown only
  unfoldable pub save_at_end : Bool → FinalCall → String → String → World S → World S × Bool
  save_at_end false save processed_at now w = (w, false)
  save_at_end true completes processed_at now w =
      (save_checkpoint me.stream_id false processed_at now w, false)
  save_at_end true (fails carried_out) processed_at now w =
      (save_checkpoint me.stream_id (not carried_out) processed_at now w, false)
  save_at_end true (cut_off carried_out) processed_at now w =
      (save_checkpoint me.stream_id (not carried_out) processed_at now w, true)

  -- the release of the lease
  unfoldable pub release_at_end : FinalCall → World S → World S × Bool
  release_at_end completes w = ((release_lock me.subreddit me.lock_token w).0, false)
  release_at_end (fails carried_out) w =
      (if carried_out then (release_lock me.subreddit me.lock_token w).0 else w, false)
  release_at_end (cut_off carried_out) w =
      (if carried_out then (release_lock me.subreddit me.lock_token w).0 else w, true)

  -- after the save: a cancellation is no `Exception`, and leaves the `finally`
  unfoldable pub after_save : FinalCall → World S × Bool → World S × Bool
  unfolding release_at_end
  after_save release (w, true) = (w, true)
  after_save release (w, false) = release_at_end release w

  -- The outer `finally` of `run`, and whether a cancellation leaves it.
  unfoldable pub finish_run :
      Bool → FinalCall → FinalCall → String → String → World S → World S × Bool
  unfolding save_at_end after_save
  finish_run shutdown_event save release processed_at now w =
      after_save release (save_at_end shutdown_event save processed_at now w)

  -- the part of `_handle_error` after the error has been recorded
  unfoldable pub recover : Recovery → String → World S → World S × Handled
  recover abandon now w = (
    (update_status_if_owner me.has_session_maker me.stream_id "error" me.instance_id now w).0,
    raises,
  )
  recover (sleep n) now w = (w, slept n)
  recover reraise now w = (w, raises)

module _ {S : Services} {f : Foreign} (me : Identity) where
  -- `_handle_fetch_exception`, which then raises the error again
  unfoldable pub handle_fetch_exception : Error f → String → World S → World S
  unfolding is_unavailable
  handle_fetch_exception e now w =
      if is_unavailable e
      then (update_status_if_owner me.has_session_maker me.stream_id "error" me.instance_id now w).0
      else w

  unfoldable pub handle_error : Error f → LogEntry → String → World S → World S × Handled
  unfolding recover
  handle_error e log now w = recover me (choose_recovery e) now (
      record_error me.has_session_maker me.stream_id log.entry_id log.entry log.error_type
        log.message (is_retryable e) log.timestamp w)
