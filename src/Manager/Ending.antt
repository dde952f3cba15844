-- ===== src/Manager/Ending.antt =====
-- `_run` with `_handle_runner_cancellation` and `_should_preserve_for_failover`, `stop_stream` and
-- `stop_all`.
use reddit_kafka.Base.{
  Bool, true, not, ◌&&◌, ◌||◌, Option, none, some, [], ◌∷◌, String, Dict, lookup, if◌then◌else◌,
}
use reddit_kafka.Errors.{Foreign, Error, Result, ok, err, lock_lost_error, stream_not_found_error}
use reddit_kafka.World.{Services}
use reddit_kafka.Registry.Status.{update_status_if_owner, is_stop_requested, request_stop}
use reddit_kafka.Background.{stop_reconciliation}
use reddit_kafka.Manager.State.{Instance, LocalTask, Manager, Others, del_task}

-- How the runner and the watcher of stop requests end. `none` is a runner that returns or, where it
-- has been cancelled, lets the cancellation through. The runner may end first; or the watcher sees a
-- stop request, and the runner is cancelled; or the watcher raises, and the runner is cancelled in
-- the `finally`; or the task is cancelled, or the runner raises the cancellation by itself.
pub data RunEnd (f : Foreign) : Type 0 where
  runner_ended : Option (Error f) → RunEnd f
  stop_seen : Option (Error f) → RunEnd f
  watcher_failed : Error f → Option (Error f) → RunEnd f
  task_cancelled : Option (Error f) → RunEnd f

-- What is raised in the `finally` of `_run`, before the local task is removed: `await runner_task`
-- and `await stop_watcher` suppress a cancellation only. The argument is what the watcher has raised
-- until then.
unfoldable pub finally_raises : {f : Foreign} → Option (Error f) → RunEnd f → Option (Error f)
finally_raises watched (watcher_failed e none) = some e
finally_raises watched (watcher_failed e (some raised)) = some raised
finally_raises watched (stop_seen raised) = none
finally_raises watched end = watched

-- How `_run` ends: it returns, or raises `CancelledError`, or raises what the runner raised while it
-- was cancelled, or what the `finally` raises.
pub data Ended (f : Foreign) : Type 0 where
  returns : Ended f
  cancels : Ended f
  fails : Error f → Ended f

module _ {S : Services} (me : Instance) where
  -- `_should_preserve_for_failover`
  unfoldable pub should_preserve_for_failover : Bool → String → Manager S → Bool
  should_preserve_for_failover inspect_raises stream_id m =
      m.shutting_down && (inspect_raises || not (is_stop_requested stream_id m.world))

  -- `update_status_if_owner` by this instance
  unfoldable pub write_status : String → String → String → Manager S → Manager S
  write_status status stream_id now m = record m {
    world =
        (update_status_if_owner me.has_session_maker stream_id status me.instance_id now m.world).0;
  }

  -- `_handle_runner_cancellation`
  unfoldable pub handle_runner_cancellation : Bool → String → String → Manager S → Manager S
  unfolding should_preserve_for_failover write_status
  handle_runner_cancellation inspect_raises stream_id now m =
      if should_preserve_for_failover inspect_raises stream_id m
      then m
      else write_status "stopped" stream_id now m

module _ {S : Services} {f : Foreign} (me : Instance) where
  -- the clauses of the `try`, for what the awaited runner did
  unfoldable pub record_end : Option (Error f) → String → String → Manager S → Manager S
  unfolding write_status
  record_end none stream_id now m = write_status me "stopped" stream_id now m
  record_end (some lock_lost_error) stream_id now m = m
  record_end (some stream_not_found_error) stream_id now m = m
  record_end (some e) stream_id now m = write_status me "error" stream_id now m

  -- the `try` of `_run`, once the runner has ended
  unfoldable pub conclude_run : Bool → RunEnd f → String → String → Manager S → Manager S × Ended f
  unfolding record_end handle_runner_cancellation
  conclude_run inspect_raises (runner_ended e) stream_id now m =
      (record_end e stream_id now m, returns)
  conclude_run inspect_raises (stop_seen e) stream_id now m =
      (record_end e stream_id now m, returns)
  conclude_run inspect_raises (watcher_failed e raised) stream_id now m =
      (record_end (some e) stream_id now m, returns)
  conclude_run inspect_raises (task_cancelled none) stream_id now m =
      (handle_runner_cancellation me inspect_raises stream_id now m, cancels)
  conclude_run inspect_raises (task_cancelled (some e)) stream_id now m = (m, fails e)

  -- the `finally` of `_run`, for what is raised before the local task is removed
  unfoldable pub leave : Option (Error f) → String → Manager S × Ended f → Manager S × Ended f
  leave none stream_id (m, ended) = (record m { tasks = del_task stream_id m.tasks }, ended)
  leave (some e) stream_id (m, ended) = (m, fails e)

  -- the end of `_run`
  unfoldable pub end_run :
      Bool → Option (Error f) → RunEnd f → String → String → Manager S → Manager S × Ended f
  unfolding conclude_run finally_raises leave
  end_run inspect_raises watched end stream_id now m =
      leave (finally_raises watched end) stream_id (conclude_run inspect_raises end stream_id now m)

-- The flag, and `await self.stop_reconciliation()`.
unfoldable pub begin_shutdown : {S : Services} → Manager S → Manager S
unfolding stop_reconciliation
begin_shutdown m = record m { shutting_down = true; reconciler = stop_reconciliation m.reconciler }

-- What a cancelled runner does before it has ended, how it ends, what its watcher has raised, whether
-- the stop request can then be inspected, and the time of the status.
pub record Drain (S : Services) (f : Foreign) : Type 0 where
  pub effect : Others S
  pub raised : Option (Error f)
  pub watched : Option (Error f)
  pub inspect_raises : Bool
  pub now : String

module _ {S : Services} {f : Foreign} (me : Instance) where
  -- a local task that is cancelled, until it has ended
  unfoldable pub drain_task : Drain S f → String → Manager S → Manager S × Ended f
  unfolding end_run
  drain_task d stream_id m =
      end_run me d.inspect_raises d.watched (task_cancelled d.raised) stream_id d.now
        (record m { world = d.effect m.world })

  -- what `await task` under `suppress(CancelledError)` passes on
  unfoldable pub await_task : Manager S × Ended f → Manager S × Result f (Unit {0})
  await_task (m, returns) = (m, ok tt)
  await_task (m, cancels) = (m, ok tt)
  await_task (m, fails e) = (m, err e)

  -- `_stop_stream` after the request has been published
  unfoldable pub stop_local :
      Drain S f → String → Manager S → Result f (Unit {0}) → Manager S × Result f (Unit {0})
  unfolding drain_task await_task
  stop_local d stream_id m (err e) = (m, err e)
  stop_local d stream_id m (ok _) = elim (lookup stream_id m.tasks) [
    | none ↦ (m, ok tt)
    | some t ↦ await_task (drain_task d stream_id m)
  ]

  -- `stop_stream`; `later` is the second time that the request reads
  unfoldable pub stop_stream :
      Drain S f → String → String → String → Manager S → Manager S × Result f (Unit {0})
  unfolding stop_local
  stop_stream d stream_id now later m =
      let (w, requested) = request_stop me.has_session_maker stream_id now later m.world in
      stop_local d stream_id (record m { world = w }) requested

  -- the cancelled tasks of `stop_all`, which end one after the other, as it were
  unfoldable pub drain_tasks : (String → Drain S f) → Dict LocalTask → Manager S → Manager S
  unfolding drain_task
  drain_tasks drain [] m = m
  drain_tasks drain ((i, t) ∷ tasks) m = drain_tasks drain tasks (drain_task (drain i) i m).0

  -- `stop_all`; what a sweep has done that is cut off here stands before the call
  unfoldable pub stop_all : (String → Drain S f) → Manager S → Manager S
  unfolding drain_tasks begin_shutdown
  stop_all drain m = drain_tasks drain m.tasks (begin_shutdown m)
