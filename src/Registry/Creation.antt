-- ===== src/Registry/Creation.antt =====
-- apps/reddit-kafka/src/repositories/stream_registry.py: `create_stream`.
use reddit_kafka.Base.{Bool, Option, none, some, String, Dict, if◌then◌else◌}
use reddit_kafka.Errors.{Foreign, Result, ok, err, stream_exists_error, runtime_error}
use reddit_kafka.Redis.Keys.{meta_key, subreddit_key, identity_key, all_streams_key, instance_key}
use reddit_kafka.World.{Services, World, persist}
use reddit_kafka.Commands.{is_truthy, get, set_nx, hset, sadd}
use reddit_kafka.Registry.Fields.{or_blank, or_none, new_meta}

module _ {S : Services} where
  -- `if instance_id: await redis.sadd(...)`
  index_stream : Option String → String → World S → World S
  index_stream none stream_id w = w
  index_stream (some i) stream_id w = sadd (instance_key i) stream_id w

  -- the part of `create_stream` after the subreddit has been claimed
  unfoldable pub register_stream :
      Bool → String → String → Option String → String → Dict String → World S → World S
  unfolding index_stream
  register_stream has_session_maker stream_id subreddit instance_id config meta w =
      let stored = sadd all_streams_key stream_id (hset (meta_key stream_id) meta w) in
      persist has_session_maker (index_stream (or_none instance_id) stream_id stored)
        (S.postgres.insert_stream stream_id subreddit "starting" (or_none instance_id) config)

module _ {S : Services} {f : Foreign} where
  -- the part of `create_stream` from the claim of the subreddit on, for a resolved identity
  unfoldable pub claim_stream :
      Bool
      → String
      → String
      → Option String
      → String
      → String
      → String
      → World S
      → World S × Result f (Dict String)
  claim_stream has_session_maker stream_id subreddit instance_id config created_at updated_at w =
      let (w', claimed) = set_nx (subreddit_key subreddit) stream_id w in
      let meta = new_meta stream_id subreddit instance_id config created_at updated_at in
      if claimed
      then (
        register_stream has_session_maker stream_id subreddit instance_id config meta w',
        ok meta,
      )
      else (w', err stream_exists_error)

  -- `create_stream`, with what others do between the two reads of the registry and before the claim
  -- of the subreddit
  unfoldable pub create_stream_among :
      (World S → World S)
      → (World S → World S)
      → Bool
      → String
      → Option String
      → String
      → String
      → String
      → String
      → World S
      → World S × Result f (Dict String)
  unfolding claim_stream
  create_stream_among before_identity before_claim has_session_maker subreddit instance_id config
        candidate_id created_at updated_at w =
      let existing = get w (subreddit_key subreddit) in
      let met = before_identity w in
      if is_truthy existing
      then ((set_nx (identity_key subreddit) (or_blank existing) met).0, err stream_exists_error)
      else (let (w', identity_created) = set_nx (identity_key subreddit) candidate_id met in
          let stream_id =
            if identity_created then some candidate_id else get w' (identity_key subreddit) in
          if is_truthy stream_id
          then claim_stream has_session_maker (or_blank stream_id) subreddit instance_id config
              created_at updated_at (before_claim w')
          else (w', err runtime_error))

  -- `create_stream` with nobody in between
  unfoldable pub create_stream :
      Bool
      → String
      → Option String
      → String
      → String
      → String
      → String
      → World S
      → World S × Result f (Dict String)
  unfolding create_stream_among
  create_stream has_session_maker subreddit instance_id config candidate_id created_at updated_at
        w =
      create_stream_among (λ v. v) (λ v. v) has_session_maker subreddit instance_id config
        candidate_id created_at updated_at w
