-- ===== src/Registry/Deleting.antt =====
-- When `delete_stream` removes a stream, and what remains for a restart.
use reddit_kafka.Base.{
  ◌≡◌, refl, ap, ◌∙◌, Bool, true, false, Option, none, some, [], String, has, truthy, arith,
  str_eq_refl, ◌&&◌, if◌then◌else◌,
}
use reddit_kafka.Redis.Keys.{
  meta_key, checkpoint_key, subreddit_key, identity_key, all_streams_key, instance_key,
}
use reddit_kafka.Commands.{get, hget, hgetall, is_value, smembers}
use reddit_kafka.World.{Services, World}
use reddit_kafka.Registry.Scripts.{remove_stream}
use reddit_kafka.Registry.Status.{is_stop_requested}
use reddit_kafka.Registry.Fields.{or_blank}
use reddit_kafka.Registry.Removal.{unindex_stream, delete_stream}

module _ {S : Services} (stream_id : String) (w : World S) where
  -- A stream whose stored status or time of update is not the one that the caller saw is left
  -- alone: `delete_stream` answers no and changes nothing.
  pub delete_stream_changed :
      (status updated_at : String) (purge : Bool)
      → truthy status ≡ true
      → truthy updated_at ≡ true
      → (is_value (hget w (meta_key stream_id) "status") status
          && is_value (hget w (meta_key stream_id) "updated_at") updated_at)
        ≡ false
      → delete_stream stream_id (some status) (some updated_at) purge w ≡ (w, false)
  unfolding delete_stream
  delete_stream_changed status updated_at purge p q h = ground arith

  -- what the script leaves in each store
  hashes-remove_stream :
      (subreddit : String)
      → (hgetall (remove_stream stream_id subreddit false w) (meta_key stream_id) ≡ [])
        × (hgetall (remove_stream stream_id subreddit false w) (checkpoint_key stream_id)
            ≡ hgetall w (checkpoint_key stream_id))
  unfolding remove_stream
  hashes-remove_stream subreddit = (
    ground (
      arith,
      S.hashes.hgetall-del w.hashes (meta_key stream_id) (meta_key stream_id),
      str_eq_refl stream_id,
    ),
    ground (arith, S.hashes.hgetall-del w.hashes (meta_key stream_id) (checkpoint_key stream_id)),
  )

  strings-remove_stream :
      (subreddit : String)
      → (is_stop_requested stream_id (remove_stream stream_id subreddit false w) ≡ false)
        × (get (remove_stream stream_id subreddit false w) (identity_key subreddit)
            ≡ some stream_id)
        × (get (remove_stream stream_id subreddit false w) (subreddit_key subreddit) ≡ (
            if is_value (get w (subreddit_key subreddit)) stream_id
            then none
            else get w (subreddit_key subreddit)))
  unfolding remove_stream is_stop_requested
  strings-remove_stream subreddit = (
    simp (S.strings.entry-del, S.strings.entry-set, str_eq_refl),
    simp (S.strings.entry-del, S.strings.entry-set, str_eq_refl),
    simp (S.strings.entry-del, S.strings.entry-set)
        (ground (
          arith,
          S.strings.entry-del w.strings (subreddit_key subreddit) (subreddit_key subreddit),
          str_eq_refl subreddit,
        )),
  )

  sets-remove_stream :
      (subreddit : String)
      → has stream_id (smembers (remove_stream stream_id subreddit false w) all_streams_key) ≡ false
  unfolding remove_stream
  sets-remove_stream subreddit = ground (
    arith,
    S.sets.has-srem w.sets all_streams_key all_streams_key stream_id stream_id,
    str_eq_refl stream_id,
  )

  delete_stream-eq :
      (status updated_at subreddit : String)
      → truthy subreddit ≡ true
      → hget w (meta_key stream_id) "subreddit" ≡ some subreddit
      → hget w (meta_key stream_id) "status" ≡ some status
      → hget w (meta_key stream_id) "updated_at" ≡ some updated_at
      → delete_stream stream_id (some status) (some updated_at) false w ≡ (
        unindex_stream true
            (hget w (meta_key stream_id) "instance_id")
            stream_id
            (remove_stream stream_id subreddit false w),
        true,
      )
  unfolding delete_stream
  delete_stream-eq status updated_at subreddit p hs ht hu =
      ground (arith, str_eq_refl status, str_eq_refl updated_at)

  has-unindex_stream :
      (deleted : Bool) (instance_id : Option String) (v : World S) (x : String)
      → has x (smembers (unindex_stream deleted instance_id stream_id v) all_streams_key)
        ≡ has x (smembers v all_streams_key)
  unfolding unindex_stream
  has-unindex_stream deleted instance_id v x = ground (
    arith,
    S.sets.has-srem v.sets (instance_key (or_blank instance_id)) all_streams_key stream_id x,
  )

  unindex_stream-keeps :
      (deleted : Bool) (instance_id : Option String) (v : World S)
      → ((unindex_stream deleted instance_id stream_id v).strings ≡ v.strings)
        × ((unindex_stream deleted instance_id stream_id v).hashes ≡ v.hashes)
  unfolding unindex_stream
  unindex_stream-keeps deleted instance_id v = (ground arith, ground arith)

  -- A stream that is as the caller saw it is removed: its mapping, its stop request and its listing
  -- are gone, the subreddit is free if it named this stream, and its identity and its checkpoint
  -- remain.
  pub delete_stream_unchanged :
      (status updated_at subreddit : String)
      → truthy subreddit ≡ true
      → hget w (meta_key stream_id) "subreddit" ≡ some subreddit
      → hget w (meta_key stream_id) "status" ≡ some status
      → hget w (meta_key stream_id) "updated_at" ≡ some updated_at
      → let (w', done) = delete_stream stream_id (some status) (some updated_at) false w in
        (done ≡ true)
        × (hgetall w' (meta_key stream_id) ≡ [])
        × (is_stop_requested stream_id w' ≡ false)
        × (has stream_id (smembers w' all_streams_key) ≡ false)
        × (get w' (subreddit_key subreddit) ≡ (
            if is_value (get w (subreddit_key subreddit)) stream_id
            then none
            else get w (subreddit_key subreddit)))
        × (get w' (identity_key subreddit) ≡ some stream_id)
        × (hgetall w' (checkpoint_key stream_id) ≡ hgetall w (checkpoint_key stream_id))
  unfolding is_stop_requested
  delete_stream_unchanged status updated_at subreddit p hs ht hu =
      let owner = hget w (meta_key stream_id) "instance_id" in
      let left = remove_stream stream_id subreddit false w in
      let (same_strings, same_hashes) = unindex_stream-keeps true owner left in
      let (no_meta, kept_checkpoint) = hashes-remove_stream subreddit in
      let (no_stop, identity, claim) = strings-remove_stream subreddit in
      rw (delete_stream-eq status updated_at subreddit p hs ht hu) (
        refl,
        ap (λ (h : S.hashes.Store). S.hashes.hgetall h (meta_key stream_id)) same_hashes ∙ no_meta,
        rw same_strings no_stop,
        has-unindex_stream true owner left stream_id ∙ sets-remove_stream subreddit,
        rw same_strings claim,
        rw same_strings identity,
        ap (λ (h : S.hashes.Store). S.hashes.hgetall h (checkpoint_key stream_id)) same_hashes
            ∙ kept_checkpoint,
      )
