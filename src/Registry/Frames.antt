-- ===== src/Registry/Frames.antt =====
-- What `delete_stream` and `list_streams` leave alone.
use reddit_kafka.Base.{
  ◌≡◌, ◌≢◌, refl, true, false, Option, some, List, [], ◌∷◌, String, truthy, arith, str_eq_iff, inl,
  inr, ◌⊎◌,
}
use reddit_kafka.Redis.Keys.{
  Key, all_streams_key, meta_key, checkpoint_key, subreddit_key, lock_key,
}
use reddit_kafka.Commands.{is_value, hget, hgetall, smembers, srem}
use reddit_kafka.World.{Services, World}
use reddit_kafka.Lock.Laws.{lease}
use reddit_kafka.Registry.Fields.{field_or_blank}
use reddit_kafka.Registry.Scripts.{remove_stream, delete_stream_if_unchanged_script}
use reddit_kafka.Registry.Reading.{stale_ids, srem_all, list_streams}
use reddit_kafka.Registry.Removal.{delete_stream, unindex_stream}

module _ {S : Services} where
  remove_stream-keeps :
      (i subreddit : String) (w : World S)
      → ((j : String)
          → hgetall (remove_stream i subreddit false w) (checkpoint_key j)
            ≡ hgetall w (checkpoint_key j))
        × ((j : String)
            → i ≢ j
            → hgetall (remove_stream i subreddit false w) (meta_key j) ≡ hgetall w (meta_key j))
        × ((s : String) → lease s (remove_stream i subreddit false w) ≡ lease s w)
  unfolding remove_stream
  remove_stream-keeps i subreddit w = (
    λ j. ground (arith, S.hashes.hgetall-del w.hashes (meta_key i) (checkpoint_key j)),
    λ j ne. ground (arith, S.hashes.hgetall-del w.hashes (meta_key i) (meta_key j), str_eq_iff i j),
    λ s.
        simp (S.strings.entry-del, S.strings.entry-set)
          (ground (arith, S.strings.entry-del w.strings (subreddit_key subreddit) (lock_key s))),
  )

  -- the mappings and the texts are those of before, or those that the script leaves
  delete_stream-either :
      (i : String) (status updated_at : Option String) (w : World S)
      → let w' = (delete_stream i status updated_at false w).0 in
        let left = remove_stream i (field_or_blank "subreddit" (hgetall w (meta_key i))) false w in
        ((w'.hashes ≡ w.hashes) × (w'.strings ≡ w.strings))
        ⊎ ((w'.hashes ≡ left.hashes) × (w'.strings ≡ left.strings))
  unfolding delete_stream delete_stream_if_unchanged_script unindex_stream
  delete_stream-either i status updated_at w = ground arith

  pub delete_stream-keeps :
      (i : String) (status updated_at : Option String) (w : World S)
      → let w' = (delete_stream i status updated_at false w).0 in
        ((j : String) → hgetall w' (checkpoint_key j) ≡ hgetall w (checkpoint_key j))
        × ((j : String) → i ≢ j → hgetall w' (meta_key j) ≡ hgetall w (meta_key j))
        × ((s : String) → lease s w' ≡ lease s w)
  delete_stream-keeps i status updated_at w =
      let kept = remove_stream-keeps i (field_or_blank "subreddit" (hgetall w (meta_key i))) w in
      elim (delete_stream-either i status updated_at w) [
        | inl (h, s) ↦
            ((λ j. rw (h, hgetall) refl), (λ j ne. rw (h, hgetall) refl), (λ r. rw (s, lease) refl))
        | inr (h, s) ↦ (
          (λ j. rw (h, hgetall) (kept.0 j)),
          (λ j ne. rw (h, hgetall) (kept.1 j ne)),
          (λ r. rw (s, lease) (kept.2 r)),
        )
      ]

  pub delete_stream-mismatch :
      (i status : String) (updated_at : Option String) (w : World S)
      → truthy status ≡ true
      → is_value (hget w (meta_key i) "status") status ≡ false
      → delete_stream i (some status) updated_at false w ≡ (w, false)
  unfolding delete_stream delete_stream_if_unchanged_script
  delete_stream-mismatch i status updated_at w p h = ground arith

  pub srem_all-keeps :
      (k : Key) (xs : List String) (w : World S)
      → ((srem_all k xs w).strings ≡ w.strings)
        × ((srem_all k xs w).hashes ≡ w.hashes)
        × ((srem_all k xs w).db ≡ w.db)
  unfolding srem_all
  srem_all-keeps k [] w = (refl, refl, refl)
  srem_all-keeps k (x ∷ xs) w = srem_all-keeps k xs (srem k x w)

  pub list_streams-keeps :
      (w : World S)
      → ((list_streams w).0.strings ≡ w.strings) × ((list_streams w).0.hashes ≡ w.hashes)
  unfolding list_streams
  list_streams-keeps w =
      let kept = srem_all-keeps all_streams_key (stale_ids w (smembers w all_streams_key)) w in
      (kept.0, kept.1)
