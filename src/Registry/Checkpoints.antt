-- ===== src/Registry/Checkpoints.antt =====
-- apps/reddit-kafka/src/repositories/stream_registry.py: the checkpoint of a stream.
use reddit_kafka.Base.{Option, none, some, [], ◌∷◌, ◌++◌, String, Dict, lookup, if◌then◌else◌}
use reddit_kafka.Redis.{is_empty}
use reddit_kafka.Redis.Keys.{checkpoint_key}
use reddit_kafka.World.{Services, World}
use reddit_kafka.Commands.{hgetall, hset}

-- the mapping of `set_checkpoint`, without `updated_at`
checkpoint_mapping : Option String → Option String → Dict String
checkpoint_mapping none none = []
checkpoint_mapping (some c) none = ("last_comment_id", c) ∷ []
checkpoint_mapping none (some p) = ("last_processed_at", p) ∷ []
checkpoint_mapping (some c) (some p) = ("last_comment_id", c) ∷ ("last_processed_at", p) ∷ []

module _ {S : Services} where
  unfoldable pub set_checkpoint :
      String → Option String → Option String → String → World S → World S
  unfolding checkpoint_mapping
  set_checkpoint stream_id last_comment_id last_processed_at now w =
      let mapping = checkpoint_mapping last_comment_id last_processed_at in
      if is_empty mapping
      then w
      else hset (checkpoint_key stream_id) (mapping ++ ("updated_at", now) ∷ []) w

  -- `last_comment_id`, `last_processed_at` and `updated_at`
  unfoldable pub get_checkpoint : String → World S → Option String × Option String × Option String
  get_checkpoint stream_id w =
      let stored = hgetall w (checkpoint_key stream_id) in
      (
        lookup "last_comment_id" stored,
        lookup "last_processed_at" stored,
        lookup "updated_at" stored,
      )
