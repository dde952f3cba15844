-- ===== src/Registry/Removal.antt =====
-- apps/reddit-kafka/src/repositories/stream_registry.py: `delete_stream`.
use reddit_kafka.Base.{Bool, false, ◌&&◌, Option, String, Dict, lookup, if◌then◌else◌}
use reddit_kafka.Redis.Keys.{meta_key, instance_key}
use reddit_kafka.World.{Services, World}
use reddit_kafka.Commands.{is_truthy, hgetall, srem}
use reddit_kafka.Registry.Scripts.{delete_stream_if_unchanged_script}
use reddit_kafka.Registry.Fields.{or_blank, field_or_blank}

module _ {S : Services} where
  -- `if deleted and instance_id: await self._redis.srem(...)`
  unfoldable pub unindex_stream : Bool → Option String → String → World S → World S
  unindex_stream deleted instance_id stream_id w =
      if deleted && is_truthy instance_id
      then srem (instance_key (or_blank instance_id)) stream_id w
      else w

  -- `delete_stream` once it has read the mapping
  delete_stream_read :
      Dict String → String → Option String → Option String → Bool → World S → World S × Bool
  unfolding delete_stream_if_unchanged_script unindex_stream
  delete_stream_read meta stream_id expected_status expected_updated_at purge_checkpoint w =
      if is_truthy (lookup "subreddit" meta)
      then (let (w', deleted) =
            delete_stream_if_unchanged_script stream_id (field_or_blank "subreddit" meta)
              (or_blank expected_status) (or_blank expected_updated_at) purge_checkpoint w in
          (unindex_stream deleted (lookup "instance_id" meta) stream_id w', deleted))
      else (w, false)

  unfoldable pub delete_stream :
      String → Option String → Option String → Bool → World S → World S × Bool
  unfolding delete_stream_read
  delete_stream stream_id expected_status expected_updated_at purge_checkpoint w =
      delete_stream_read (hgetall w (meta_key stream_id)) stream_id expected_status
        expected_updated_at purge_checkpoint w
