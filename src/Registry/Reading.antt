-- ===== src/Registry/Reading.antt =====
-- apps/reddit-kafka/src/repositories/stream_registry.py: `get_stream`, `get_stream_by_subreddit`
-- and `list_streams`. The text of a configuration is not parsed.
use reddit_kafka.Base.{Option, none, some, List, [], ◌∷◌, String, Dict, if◌then◌else◌}
use reddit_kafka.Errors.{Foreign, Result, ok, err, stream_not_found_error}
use reddit_kafka.Redis.{is_empty}
use reddit_kafka.Redis.Keys.{Key, meta_key, subreddit_key, all_streams_key}
use reddit_kafka.World.{Services, World}
use reddit_kafka.Commands.{get, hgetall, smembers, srem}
use reddit_kafka.Registry.Fields.{or_none}

module _ {S : Services} where
  -- the streams that are listed and have no mapping
  unfoldable pub stale_ids : World S → List String → List String
  stale_ids w [] = []
  stale_ids w (i ∷ ids) =
      let rest = stale_ids w ids in if is_empty (hgetall w (meta_key i)) then i ∷ rest else rest

  -- the mappings of those that have one
  live_rows : World S → List String → List (Dict String)
  live_rows w [] = []
  live_rows w (i ∷ ids) =
      let rest = live_rows w ids in
      let row = hgetall w (meta_key i) in if is_empty row then rest else row ∷ rest

  unfoldable pub srem_all : Key → List String → World S → World S
  srem_all k [] w = w
  srem_all k (x ∷ xs) w = srem_all k xs (srem k x w)

  unfoldable pub list_streams : World S → World S × List (Dict String)
  unfolding stale_ids live_rows srem_all
  list_streams w =
      let stream_ids = smembers w all_streams_key in
      (srem_all all_streams_key (stale_ids w stream_ids) w, live_rows w stream_ids)

module _ {S : Services} {f : Foreign} where
  unfoldable pub get_stream : String → World S → Result f (Dict String)
  get_stream stream_id w =
      let stored = hgetall w (meta_key stream_id) in
      if is_empty stored then err stream_not_found_error else ok stored

  unfoldable pub get_stream_by_subreddit : String → World S → Result f (Option (Dict String))
  unfolding get_stream
  get_stream_by_subreddit subreddit w = elim (or_none (get w (subreddit_key subreddit))) [
    | none ↦ ok none
    | some i ↦ elim (get_stream i w) [ ok stored ↦ ok (some stored) | err e ↦ err e ]
  ]
