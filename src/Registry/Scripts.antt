-- ===== src/Registry/Scripts.antt =====
-- The four Lua scripts of apps/reddit-kafka/src/repositories/stream_registry.py. Redis runs a
-- script as one step. The keys that a script is called with are those that the methods pass it.
use reddit_kafka.Base.{Bool, true, false, ◌&&◌, not, [], ◌∷◌, String, if◌then◌else◌, truthy}
use reddit_kafka.Redis.Keys.{
  lock_key, meta_key, checkpoint_key, stop_request_key, subreddit_key, identity_key,
  all_streams_key, instance_key,
}
use reddit_kafka.Commands.{
  is_value, get, exists, set, del, del_hash, hget, exists_hash, hset, sadd, srem,
}
use reddit_kafka.World.{Services, World}

module _ {S : Services} where
  -- what the script removes, once its guards have passed
  unfoldable pub remove_stream : String → String → Bool → World S → World S
  remove_stream stream_id subreddit purge w =
      let unclaimed =
        if is_value (get w (subreddit_key subreddit)) stream_id
        then del (subreddit_key subreddit) w
        else w in
      let kept = set (identity_key subreddit) stream_id unclaimed in
      let cleared = del (stop_request_key stream_id) (del_hash (meta_key stream_id) kept) in
      let unlisted = srem all_streams_key stream_id cleared in
      if purge
      then del (identity_key subreddit) (del_hash (checkpoint_key stream_id) unlisted)
      else unlisted

  -- `_DELETE_STREAM_IF_UNCHANGED_SCRIPT`
  unfoldable pub delete_stream_if_unchanged_script :
      String → String → String → String → Bool → World S → World S × Bool
  delete_stream_if_unchanged_script stream_id subreddit status updated_at purge w =
      if not (exists_hash w (meta_key stream_id))
      then (w, false)
      else if truthy status && not (is_value (hget w (meta_key stream_id) "status") status)
      then (w, false)
      else if truthy updated_at
          && not (is_value (hget w (meta_key stream_id) "updated_at") updated_at)
      then (w, false)
      else (remove_stream stream_id subreddit purge w, true)

  -- `_HEARTBEAT_IF_ACTIVE_SCRIPT`
  unfoldable pub heartbeat_if_active_script : String → String → String → World S → World S × Bool
  heartbeat_if_active_script stream_id instance_id now w =
      if not (is_value (hget w (meta_key stream_id) "instance_id") instance_id)
      then (w, false)
      else if not (is_value (hget w (meta_key stream_id) "status") "active")
      then (w, false)
      else (
        sadd (instance_key instance_id) stream_id
            (hset (meta_key stream_id) (("updated_at", now) ∷ []) w),
        true,
      )

  -- `_UPDATE_STATUS_IF_OWNER_SCRIPT`
  unfoldable pub update_status_if_owner_script :
      String → String → String → String → World S → World S × Bool
  update_status_if_owner_script stream_id instance_id status now w =
      if not (exists_hash w (meta_key stream_id))
      then (w, false)
      else if not (is_value (hget w (meta_key stream_id) "instance_id") instance_id)
      then (w, false)
      else (hset (meta_key stream_id) (("status", status) ∷ ("updated_at", now) ∷ []) w, true)

  -- `_FINALIZE_STOP_IF_UNOWNED_SCRIPT`
  unfoldable pub finalize_stop_if_unowned_script :
      String → String → String → String → World S → World S × Bool
  finalize_stop_if_unowned_script stream_id subreddit expected_updated_at now w =
      if not (exists_hash w (meta_key stream_id))
      then (w, false)
      else if not (is_value (hget w (meta_key stream_id) "status") "stopping")
      then (w, false)
      else if not (is_value (hget w (meta_key stream_id) "updated_at") expected_updated_at)
      then (w, false)
      else if exists w (lock_key subreddit)
      then (w, false)
      else (hset (meta_key stream_id) (("status", "stopped") ∷ ("updated_at", now) ∷ []) w, true)
