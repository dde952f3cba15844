-- ===== src/Worker/Run.antt =====
-- `run` in apps/reddit-kafka/src/stream/worker.py: the first look at the lease, the two tasks, and the
-- end. What the task that refreshes the lease does to the world stands with what others do.
use reddit_kafka.Base.{Bool, true, false, List, String, if◌then◌else◌}
use reddit_kafka.Errors.{Foreign, lock_lost_error}
use reddit_kafka.World.{Services, World}
use reddit_kafka.Breaker.{Config, Ending, returned, cancelled, raised}
use reddit_kafka.Worker.Session.{Fetch}
use reddit_kafka.Worker.Control.{
  Identity, Reply, Refreshed, still_owned, lock_lost, was_cancelled, refresh_lock_or_raise,
  FinalCall, finish_run,
}
use reddit_kafka.Worker.Loop.{
  Pass, LoopEnd, looping, stopped, loop_cancelled, loop_raised, stream_loop,
}

-- Which of these comes first: the loop ends, the refresher fails, or the run is cancelled.
pub data First : Type 0 where
  stream_first lock_first run_cancelled : First

-- What a run meets: the answer to the first refresh, whether its heartbeat raises and the time of it;
-- the passes of the loop; what comes first; what others do until the end; whether the run is cancelled
-- again while it waits for its cancelled tasks; and how the calls of the end go.
pub record Run (S : Services) (f : Foreign) : Type 0 where
  pub reply : Reply
  pub heartbeat_raises : Bool
  pub refreshed_at : String
  pub passes : List (Pass S f)
  pub first : First
  pub others : World S → World S
  pub gather_cut_off : Bool
  pub save : FinalCall
  pub release : FinalCall
  pub processed_at : String
  pub now : String

module _ {f : Foreign} where
  -- `shutdown_event`, and what the inner `try` passes on. A loop that has not ended is cancelled.
  unfoldable pub conclude_wait : First → LoopEnd f → Bool × Ending f
  conclude_wait run_cancelled out = (true, cancelled)
  conclude_wait lock_first out = (true, raised lock_lost_error)
  conclude_wait stream_first looping = (true, cancelled)
  conclude_wait stream_first loop_cancelled = (true, cancelled)
  conclude_wait stream_first stopped = (false, returned)
  conclude_wait stream_first (loop_raised e) = (false, raised e)

  -- the wait for the two tasks in the inner `finally`
  unfoldable pub await_tasks : Bool → Bool × Ending f → Bool × Ending f
  await_tasks gather_cut_off (shutdown_event, ending) =
      (shutdown_event, if gather_cut_off then cancelled else ending)

module _ {S : Services} {f : Foreign} (cfg : Config) (me : Identity) where
  -- the outer `finally`
  unfoldable pub end_run_of : Run S f → Fetch S → Bool × Ending f → Fetch S × Ending f
  end_run_of r s (shutdown_event, ending) =
      let (w, cut) = finish_run me shutdown_event r.save r.release r.processed_at r.now s.world in
      (record s { world = w }, if cut then cancelled else ending)

  -- the two tasks
  unfoldable pub run_tasks : Run S f → Fetch S → Fetch S × Ending f
  unfolding conclude_wait await_tasks end_run_of
  run_tasks r s =
      let (s', out) = stream_loop cfg me r.passes s in
      end_run_of r (record s' { world = r.others s'.world })
        (await_tasks r.gather_cut_off (conclude_wait r.first out))

  -- after the first refresh
  unfoldable pub after_first_refresh :
      Run S f → Fetch S → World S × Bool × Refreshed → Fetch S × Ending f
  unfolding run_tasks
  after_first_refresh r s (w, stops, still_owned) = run_tasks r (record s { world = w })
  after_first_refresh r s (w, stops, lock_lost) =
      end_run_of r (record s { world = w }) (false, raised lock_lost_error)
  after_first_refresh r s (w, stops, was_cancelled) =
      end_run_of r (record s { world = w }) (false, cancelled)

  unfoldable pub run_worker : Run S f → Fetch S → Fetch S × Ending f
  unfolding after_first_refresh
  run_worker r s =
      after_first_refresh r s
        (refresh_lock_or_raise me r.reply r.heartbeat_raises r.refreshed_at s.world)
