-- ===== src/Manager/Activation.antt =====
-- `_start_local_worker`.
use reddit_kafka.Base.{Bool, ◌||◌, Option, some, ◌∷◌, String, if◌then◌else◌}
use reddit_kafka.World.{Services, World}
use reddit_kafka.Registry.Status.{update_status}
use reddit_kafka.Manager.State.{Instance, Manager, Others, has_task, may_run}

-- What happens while a worker is activated: what others do before the status is written and while
-- Postgres is; whether `update_status` raises, in which case `during` has also what it wrote until
-- then; and the time of the status.
pub record Activation (S : Services) : Type 0 where
  pub before : Others S
  pub during : Others S
  pub update_raises : Bool
  pub now : String

-- How `_start_local_worker` ends: it answers yes, or no, or raises.
pub data Activated : Type 0 where
  started refused activation_raised : Activated

module _ {S : Services} (me : Instance) where
  -- the part after the status has been written: the second look at the lease
  unfoldable pub launch :
      String → String → Option String → World S → Manager S → Manager S × Activated
  unfolding may_run
  launch stream_id subreddit lock_token w m =
      if may_run me subreddit lock_token w
      then (
        record m {
          world = w;
          tasks = (stream_id, record { subreddit = subreddit; lock_token = lock_token }) ∷ m.tasks;
        },
        started,
      )
      else (record m { world = w }, refused)

  unfoldable pub start_local_worker :
      Activation S → String → String → Option String → Manager S → Manager S × Activated
  unfolding launch
  start_local_worker a stream_id subreddit lock_token m =
      if m.shutting_down || has_task stream_id m.tasks
      then (m, refused)
      else if may_run me subreddit lock_token m.world
      then (if a.update_raises
          then (record m { world = a.during (a.before m.world) }, activation_raised)
          else launch stream_id subreddit lock_token
              (a.during (
                update_status me.has_session_maker stream_id "active" (some me.instance_id) a.now
                  (a.before m.world)))
              m)
      else (m, refused)
