-- ===== src/Registry/Ownership.antt =====
-- Which calls change the status of a stream, and what they leave alone.
use reddit_kafka.Base.{
  ◌≡◌, ◌≢◌, Bool, true, false, some, [], ◌∷◌, String, has, not, ◌&&◌, arith, str_eq_iff,
  str_eq_refl,
}
use reddit_kafka.Redis.Keys.{meta_key, lock_key, instance_key}
use reddit_kafka.Commands.{hget, is_value, exists, smembers}
use reddit_kafka.World.{Services, World}
use reddit_kafka.Registry.Status.{update_status_if_owner, finalize_stop_if_unowned, heartbeat}

module _ {S : Services} (persists : Bool) (stream_id : String) (w : World S) where
  -- `update_status_if_owner` by an instance that the stored mapping does not name answers no and
  -- changes nothing, in Redis or in Postgres.
  pub update_status_if_owner-stranger :
      (status instance_id now : String)
      → is_value (hget w (meta_key stream_id) "instance_id") instance_id ≡ false
      → update_status_if_owner persists stream_id status instance_id now w ≡ (w, false)
  unfolding update_status_if_owner
  update_status_if_owner-stranger status instance_id now h = ground arith

  -- `update_status_if_owner` by the instance that the mapping names answers yes, and the mapping
  -- then has the status and the time that were given, and all else as it was, the owner too.
  pub update_status_if_owner-owner :
      (status instance_id now : String)
      → hget w (meta_key stream_id) "instance_id" ≡ some instance_id
      → let (w', done) = update_status_if_owner persists stream_id status instance_id now w in
        (done ≡ true)
        × (hget w' (meta_key stream_id) "status" ≡ some status)
        × (hget w' (meta_key stream_id) "updated_at" ≡ some now)
        × ((f : String)
            → f ≢ "status"
            → f ≢ "updated_at"
            → hget w' (meta_key stream_id) f ≡ hget w (meta_key stream_id) f)
  unfolding update_status_if_owner
  update_status_if_owner-owner status instance_id now h =
      let law =
        S.hashes.lookup-hset w.hashes (meta_key stream_id) (meta_key stream_id)
          (("status", status) ∷ ("updated_at", now) ∷ []) in
      (
        ground (arith, str_eq_refl instance_id),
        ground (arith, str_eq_refl instance_id, str_eq_refl stream_id, law "status"),
        ground (arith, str_eq_refl instance_id, str_eq_refl stream_id, law "updated_at"),
        λ f a b. ground (
          arith,
          str_eq_refl instance_id,
          str_eq_refl stream_id,
          law f,
          str_eq_iff "status" f,
          str_eq_iff "updated_at" f,
        ),
      )

  -- `update_status_if_owner` by the instance that the mapping names answers yes, and the mapping then
  -- has the status and the time that were given, and all else as it was, the owner too. By any other
  -- instance it answers no and changes nothing, in Redis or in Postgres.
  pub update_status_if_owner_exact :
      (status instance_id now : String)
      → (hget w (meta_key stream_id) "instance_id" ≡ some instance_id
          → let (w', done) = update_status_if_owner persists stream_id status instance_id now w in
            (done ≡ true)
            × (hget w' (meta_key stream_id) "status" ≡ some status)
            × (hget w' (meta_key stream_id) "updated_at" ≡ some now)
            × ((f : String)
                → f ≢ "status"
                → f ≢ "updated_at"
                → hget w' (meta_key stream_id) f ≡ hget w (meta_key stream_id) f))
        × (is_value (hget w (meta_key stream_id) "instance_id") instance_id ≡ false
            → update_status_if_owner persists stream_id status instance_id now w ≡ (w, false))
  update_status_if_owner_exact status instance_id now = (
    update_status_if_owner-owner status instance_id now,
    update_status_if_owner-stranger status instance_id now,
  )

  -- `finalize_stop_if_unowned` answers yes exactly when the stream is stopping, was last updated
  -- when the caller saw it, and nobody holds the lease of the subreddit. It then stores the status
  -- stopped with the new time; otherwise it changes nothing.
  pub finalize_stop_if_unowned_exact :
      (subreddit expected now : String)
      → let (w', done) = finalize_stop_if_unowned persists stream_id subreddit expected now w in
        (done ≡ (
          is_value (hget w (meta_key stream_id) "status") "stopping"
          && (is_value (hget w (meta_key stream_id) "updated_at") expected
              && not (exists w (lock_key subreddit)))))
        × (done ≡ false → w' ≡ w)
        × (done ≡ true
            → (hget w' (meta_key stream_id) "status" ≡ some "stopped")
              × (hget w' (meta_key stream_id) "updated_at" ≡ some now)
              × (hget w' (meta_key stream_id) "instance_id"
                  ≡ hget w (meta_key stream_id) "instance_id"))
  unfolding finalize_stop_if_unowned
  finalize_stop_if_unowned_exact subreddit expected now =
      let law =
        S.hashes.lookup-hset w.hashes (meta_key stream_id) (meta_key stream_id)
          (("status", "stopped") ∷ ("updated_at", now) ∷ []) in
      (
        ground arith,
        λ no. ground arith,
        λ done. (
          ground (arith, str_eq_refl stream_id, law "status"),
          ground (arith, str_eq_refl stream_id, law "updated_at"),
          ground (arith, str_eq_refl stream_id, law "instance_id"),
        ),
      )

  -- A heartbeat answers yes exactly when the stream is active and owned by the instance. It then
  -- stores the time and indexes the stream under the instance, and leaves the status, the owner and
  -- every other field; otherwise it changes nothing.
  pub heartbeat_exact :
      (instance_id now : String)
      → let (w', done) = heartbeat stream_id instance_id now w in
        (done ≡ (
          is_value (hget w (meta_key stream_id) "instance_id") instance_id
          && is_value (hget w (meta_key stream_id) "status") "active"))
        × (done ≡ false → w' ≡ w)
        × (done ≡ true
            → (hget w' (meta_key stream_id) "updated_at" ≡ some now)
              × (has stream_id (smembers w' (instance_key instance_id)) ≡ true)
              × ((f : String)
                  → f ≢ "updated_at"
                  → hget w' (meta_key stream_id) f ≡ hget w (meta_key stream_id) f))
  unfolding heartbeat
  heartbeat_exact instance_id now =
      let law =
        S.hashes.lookup-hset w.hashes (meta_key stream_id) (meta_key stream_id)
          (("updated_at", now) ∷ []) in
      (
        ground arith,
        λ no. ground arith,
        λ done. (
          ground (arith, str_eq_refl stream_id, law "updated_at"),
          ground (
            arith,
            str_eq_refl stream_id,
            str_eq_refl instance_id,
            S.sets.has-sadd w.sets (instance_key instance_id) (instance_key instance_id) stream_id
                stream_id,
          ),
          λ f ne. ground (arith, str_eq_refl stream_id, law f, str_eq_iff "updated_at" f),
        ),
      )
