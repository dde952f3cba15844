-- ===== src/Registry/Status.antt =====
-- apps/reddit-kafka/src/repositories/stream_registry.py: the methods that change the status of a
-- stream.
use reddit_kafka.Base.{
  Bool, not, ◌&&◌, Option, none, some, [], ◌∷◌, String, Dict, lookup, if◌then◌else◌, str_eq,
}
use reddit_kafka.Errors.{Foreign, Result, ok, err}
use reddit_kafka.Redis.Keys.{meta_key, stop_request_key, instance_key}
use reddit_kafka.World.{Services, World, persist}
use reddit_kafka.Commands.{is_truthy, exists, set, hget, hset, sadd, srem}
use reddit_kafka.Registry.Scripts.{
  heartbeat_if_active_script, update_status_if_owner_script, finalize_stop_if_unowned_script,
}
use reddit_kafka.Registry.Fields.{or_blank, or_none}
use reddit_kafka.Registry.Reading.{get_stream}

-- the mapping of `update_status`
status_mapping : String → Option String → String → Dict String
status_mapping status none now = ("status", status) ∷ ("updated_at", now) ∷ []
status_mapping status (some i) now =
    ("status", status) ∷ ("updated_at", now) ∷ ("instance_id", i) ∷ []

module _ {S : Services} where
  -- the index of the new owner, and that of the owner before it
  move_index : String → Option String → Option String → World S → World S
  move_index stream_id none previous w = w
  move_index stream_id (some i) previous w =
      let added = sadd (instance_key i) stream_id w in
      if is_truthy previous && not (str_eq (or_blank previous) i)
      then srem (instance_key (or_blank previous)) stream_id added
      else added

  unfoldable pub update_status : Bool → String → String → Option String → String → World S → World S
  unfolding move_index status_mapping
  update_status has_session_maker stream_id status instance_id now w =
      let previous = hget w (meta_key stream_id) "instance_id" in
      let written = hset (meta_key stream_id) (status_mapping status instance_id now) w in
      persist has_session_maker (move_index stream_id instance_id previous written)
        (S.postgres.update_status status instance_id stream_id)

  -- a statement that follows a script which answered yes
  persist_if : Bool → Bool → World S → (S.postgres.Db → Option S.postgres.Db) → World S
  persist_if done has_session_maker w statement =
      if done then persist has_session_maker w statement else w

  unfoldable pub update_status_if_owner :
      Bool → String → String → String → String → World S → World S × Bool
  unfolding update_status_if_owner_script persist_if
  update_status_if_owner has_session_maker stream_id status instance_id now w =
      let (w', updated) = update_status_if_owner_script stream_id instance_id status now w in
      (
        persist_if updated has_session_maker w'
            (S.postgres.update_status_if_owner status stream_id instance_id),
        updated,
      )

  unfoldable pub finalize_stop_if_unowned :
      Bool → String → String → String → String → World S → World S × Bool
  unfolding finalize_stop_if_unowned_script persist_if
  finalize_stop_if_unowned has_session_maker stream_id subreddit expected_updated_at now w =
      let (w', updated) =
        finalize_stop_if_unowned_script stream_id subreddit expected_updated_at now w in
      (persist_if updated has_session_maker w' (S.postgres.finish_stop stream_id), updated)

  unfoldable pub heartbeat : String → String → String → World S → World S × Bool
  unfolding heartbeat_if_active_script
  heartbeat stream_id instance_id now w = heartbeat_if_active_script stream_id instance_id now w

  unfoldable pub is_stop_requested : String → World S → Bool
  is_stop_requested stream_id w = exists w (stop_request_key stream_id)

module _ {S : Services} {f : Foreign} where
  unfoldable pub request_stop : Bool → String → String → String → World S → World S × Result f Unit
  unfolding get_stream update_status
  request_stop has_session_maker stream_id now later w = elim (get_stream stream_id w) [
    | err e ↦ (w, err e)
    | ok stored ↦ (
      update_status has_session_maker stream_id "stopping" (or_none (lookup "instance_id" stored))
          later (set (stop_request_key stream_id) now w),
      ok tt,
    )
  ]
