-- ===== src/App/Lifespan.antt =====
-- The end of `lifespan`, after the application has served its last request: the manager is drained,
-- and what its workers have saved is flushed.
use reddit_kafka.Base.{Bool, true, false, none, some, Option, String, lookup}
use reddit_kafka.Errors.{Foreign}
use reddit_kafka.World.{Services, World}
use reddit_kafka.Worker.Control.{Identity, FinalCall, finish_run}
use reddit_kafka.Manager.State.{Instance, LocalTask, Manager}
use reddit_kafka.Manager.Ending.{Drain, stop_all}
use reddit_kafka.Flusher.{flush}

-- How far the task of a worker has come when it is cancelled: its run has not begun, its run is at
-- the first refresh of the lease, or its loops are running.
pub data Phase : Type 0 where
  before_run refreshing running : Phase

-- What a local task meets that is cancelled while the application ends: how far it is, the stream
-- that its worker was constructed for, how the save of its checkpoint and the release of its lease
-- go, whether the stop request can then be inspected, and the times.
pub record Leaving : Type 0 where
  pub phase : Phase
  pub stream_id : String
  pub save : FinalCall
  pub release : FinalCall
  pub inspect_raises : Bool
  pub processed_at : String
  pub saved_at : String
  pub now : String

module _ {S : Services} (me : Instance) (l : Leaving) where
  -- the rest of a run that is cancelled
  unfoldable pub cancel_run : Phase → Identity → World S → World S
  unfolding finish_run
  cancel_run before_run worker w = w
  cancel_run refreshing worker w =
      (finish_run worker false l.save l.release l.processed_at l.saved_at w).0
  cancel_run running worker w =
      (finish_run worker true l.save l.release l.processed_at l.saved_at w).0

  -- the worker that the runner has constructed for the token; without one it has raised
  unfoldable pub cancel_runner : String → Option String → World S → World S
  unfolding cancel_run
  cancel_runner subreddit none w = w
  cancel_runner subreddit (some lock_token) w =
      cancel_run l.phase
        (record {
          subreddit = subreddit;
          instance_id = me.instance_id;
          stream_id = l.stream_id;
          lock_token = lock_token;
          has_session_maker = me.has_session_maker;
        })
        w

  unfoldable pub cancel_task : Option LocalTask → World S → World S
  unfolding cancel_runner
  cancel_task none w = w
  cancel_task (some t) w = cancel_runner t.subreddit t.lock_token w

-- the local task of such a worker
unfoldable pub drain_worker :
    {S : Services} {f : Foreign} → Instance → Leaving → Option LocalTask → Drain S f
unfolding cancel_task
drain_worker me l task = record {
  effect = λ w. cancel_task me l task w;
  raised = none;
  watched = none;
  inspect_raises = l.inspect_raises;
  now = l.now;
}

module _ {S : Services} (f : Foreign) (me : Instance) (from_iso : String → Option String) where
  -- `manager.stop_all()` and `flusher.flush()`
  unfoldable pub shut_down : (String → Leaving) → Manager S → Manager S × Bool
  unfolding stop_all drain_worker flush
  shut_down leaving m =
      let drained = stop_all {f = f} me (λ i. drain_worker me (leaving i) (lookup i m.tasks)) m in
      let (w, flushed) = flush from_iso me.instance_id drained.world in
      (record drained { world = w }, flushed)
