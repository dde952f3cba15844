-- ===== src/Manager/Activated.antt =====
-- When `_start_local_worker` creates a task.
use reddit_kafka.Base.{◌≡◌, ◌≢◌, true, false, Option, ◌∷◌, String, arith}
use reddit_kafka.World.{Services}
use reddit_kafka.Manager.State.{Instance, Manager, has_task, may_run}
use reddit_kafka.Manager.Activation.{Activation, started, start_local_worker}

module _ {S : Services} (me : Instance) where
  -- If it answers yes, the manager is not shutting down, the stream had no task and has one now, and
  -- the token, if it matters, owned the lease before and owns it at the end. Otherwise no task is
  -- created.
  pub start_local_worker_exact :
      (a : Activation S) (i subreddit : String) (token : Option String) (m : Manager S)
      → let (m', r) = start_local_worker me a i subreddit token m in
        (r ≡ started
          → (m.shutting_down ≡ false)
            × (has_task i m.tasks ≡ false)
            × (m'.tasks ≡ (i, record { subreddit = subreddit; lock_token = token }) ∷ m.tasks)
            × (may_run me subreddit token m.world ≡ true)
            × (may_run me subreddit token m'.world ≡ true))
        × (r ≢ started → m'.tasks ≡ m.tasks)
        × (m'.shutting_down ≡ m.shutting_down)
  unfolding start_local_worker
  start_local_worker_exact a i subreddit token m = ground arith
