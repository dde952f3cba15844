-- ===== src/App/Runner.antt =====
-- The function that `_create_runner` returns: it looks the stream up, constructs a worker of
-- apps/reddit-kafka/src/stream/worker.py and runs it.
use reddit_kafka.Base.{Bool, Option, none, some, [], String, Dict, lookup}
use reddit_kafka.Errors.{Foreign, Error, Result, ok, err, runtime_error, foreign}
use reddit_kafka.World.{Services, World}
use reddit_kafka.Breaker.{Ending, raised, default_config, new_breaker}
use reddit_kafka.Registry.Reading.{get_stream_by_subreddit}
use reddit_kafka.Worker.Comments.{Progress}
use reddit_kafka.Worker.Session.{Fetch}
use reddit_kafka.Worker.Control.{Identity}
use reddit_kafka.Worker.Run.{Run, run_worker}

-- What every runner of the application knows; the `KeyError` of a mapping without an id; what the
-- construction of the worker raises, which loads the schema; and what the run meets.
pub record Task (S : Services) (f : Foreign) : Type 0 where
  pub instance_id : String
  pub has_session_maker : Bool
  pub key_error : f.Exc
  pub construction_raises : Option (Error f)
  pub run : Run S f

-- the fields of a new worker
unfoldable pub new_progress : Progress
new_progress = record {
  comments_since_checkpoint = 0;
  pending_deliveries = [];
  futures = λ _. none;
  next_delivery = 0;
}

unfoldable pub new_worker : {S : Services} → World S → Fetch S
unfolding new_breaker new_progress
new_worker w = record { world = w; progress = new_progress; breaker = new_breaker default_config }

module _ {S : Services} {f : Foreign} where
  -- a worker for the stream, if its construction does not raise
  unfoldable pub construct :
      Task S f → String → String → Option String → Option (Error f) → Result f Identity
  construct task subreddit token none raises = err (foreign task.key_error)
  construct task subreddit token (some stream_id) (some e) = err e
  construct task subreddit token (some stream_id) none = ok (record {
    subreddit = subreddit;
    instance_id = task.instance_id;
    stream_id = stream_id;
    lock_token = token;
    has_session_maker = task.has_session_maker;
  })

  -- the answer of `get_stream_by_subreddit`
  unfoldable pub check_stream :
      Task S f → String → String → Result f (Option (Dict String)) → Result f Identity
  unfolding construct
  check_stream task subreddit token (err e) = err e
  check_stream task subreddit token (ok none) = err runtime_error
  check_stream task subreddit token (ok (some stream_meta)) =
      construct task subreddit token (lookup "id" stream_meta) task.construction_raises

  -- the runner until the worker has been constructed
  unfoldable pub prepare : Task S f → String → Option String → World S → Result f Identity
  unfolding check_stream get_stream_by_subreddit
  prepare task subreddit none w = err runtime_error
  prepare task subreddit (some token) w =
      check_stream task subreddit token (get_stream_by_subreddit subreddit w)

  -- the constructed worker, or what was raised
  unfoldable pub run_prepared : Task S f → World S → Result f Identity → World S × Ending f
  unfolding run_worker new_worker
  run_prepared task w (err e) = (w, raised e)
  run_prepared task w (ok me) =
      let (s, ending) = run_worker default_config me task.run (new_worker w) in (s.world, ending)

  unfoldable pub runner : Task S f → String → Option String → World S → World S × Ending f
  unfolding prepare run_prepared
  runner task subreddit lock_token w = run_prepared task w (prepare task subreddit lock_token w)
