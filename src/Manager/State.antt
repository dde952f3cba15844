-- ===== src/Manager/State.antt =====
-- The state of a manager, and the map of its tasks.
use reddit_kafka.Base.{
  Bool, true, Option, none, some, List, [], ◌∷◌, String, Dict, lookup, is_some, str_eq,
  if◌then◌else◌, ℕ,
}
use reddit_kafka.Background.{Background}
use reddit_kafka.World.{Services, World}
use reddit_kafka.Registry.Fields.{or_none}
use reddit_kafka.Lock.{owns_lock, release_lock}

abbrev pub lease_ttl_seconds : ℕ
lease_ttl_seconds = 60

-- What a manager is constructed with. `has_session_maker` is a property of its registry.
pub record Instance : Type 0 where
  pub instance_id : String
  pub has_session_maker : Bool
  pub has_lock_manager : Bool

-- The arguments of `_run`, besides the identity of the stream.
pub record LocalTask : Type 0 where
  pub subreddit : String
  pub lock_token : Option String

-- The shared world, and the fields that change; `reconciler` is `_reconcile_task`.
pub record Manager (S : Services) : Type 0 where
  pub world : World S
  pub tasks : Dict LocalTask
  pub shutting_down : Bool
  pub reconciler : Background

-- What others do to the world while this instance awaits.
abbrev pub Others : Services → Type 0
Others S = World S → World S

-- `stream_id in self._tasks`, and `del self._tasks[stream_id]`
abbrev pub has_task : String → Dict LocalTask → Bool
has_task i tasks = is_some (lookup i tasks)

abbrev pub del_task : String → Dict LocalTask → Dict LocalTask
del_task i [] = []
del_task i ((j, t) ∷ tasks) =
    let rest = del_task i tasks in if str_eq j i then rest else (j, t) ∷ rest

abbrev pub task_ids : Dict LocalTask → List String
task_ids [] = []
task_ids ((i, t) ∷ tasks) = i ∷ task_ids tasks

module _ {S : Services} (me : Instance) where
  -- whether there is no lock manager, no token, or the token still owns the lease
  unfoldable pub may_run : String → Option String → World S → Bool
  may_run subreddit lock_token w = elim (or_none lock_token) [
    | none ↦ true
    | some t ↦ if me.has_lock_manager then owns_lock subreddit t w else true
  ]

  -- `if self.lock_manager and lock_token: await self.lock_manager.release_lock(...)`
  unfoldable pub give_up : String → Option String → World S → World S
  give_up subreddit lock_token w = elim (or_none lock_token) [
    | none ↦ w
    | some t ↦ if me.has_lock_manager then (release_lock subreddit t w).0 else w
  ]

module _ {S : Services} where
  unfoldable pub is_running_locally : String → Manager S → Bool
  is_running_locally stream_id m = has_task stream_id m.tasks

  -- the identities of `list_local_streams`; the names of the tasks follow from them
  unfoldable pub list_local_streams : Manager S → List String
  list_local_streams m = task_ids m.tasks
