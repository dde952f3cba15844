-- ===== src/Registry/Restarting.antt =====
-- Sequences of calls on one subreddit: two creations, and a deletion followed by a creation.
use mathlib.Core.Path.{subst}
use reddit_kafka.Base.{
  ◌≡◌, ap, ◌∙◌, Bool, true, false, Option, none, some, String, truthy, arith, str_eq_refl,
  get_or_else,
}
use reddit_kafka.Errors.{Foreign, ok, err, stream_exists_error}
use reddit_kafka.Redis.Keys.{meta_key, checkpoint_key, subreddit_key, identity_key}
use reddit_kafka.Commands.{get, hget, hgetall}
use reddit_kafka.World.{Services, World}
use reddit_kafka.Registry.Fields.{new_meta}
use reddit_kafka.Registry.Creation.{create_stream}
use reddit_kafka.Registry.Creating.{create_stream_free, create_stream_taken}
use reddit_kafka.Registry.Removal.{delete_stream}
use reddit_kafka.Registry.Deleting.{delete_stream_unchanged}
use reddit_kafka.Registry.Checkpoints.{get_checkpoint}

module _ {S : Services} (f : Foreign) (persists : Bool) (subreddit : String) (w : World S) where
  -- Of two creations of a free subreddit, one after the other with nobody in between, by any
  -- instances with any candidates, where the identity is not the empty text, the first succeeds and
  -- the second raises `StreamExistsError` and leaves every mapping and set and Postgres as the
  -- first has left them.
  pub create_stream_once :
      (instance_id other : Option String) (config config' candidate candidate' t0 t1 t2 t3 : String)
      → get w (subreddit_key subreddit) ≡ none
      → truthy (get_or_else (get w (identity_key subreddit)) candidate) ≡ true
      → let (w1, r1) =
          create_stream {f = f} persists subreddit instance_id config candidate t0 t1 w in
        let (w2, r2) = create_stream {f = f} persists subreddit other config' candidate' t2 t3 w1 in
        (r1
          ≡ ok (
              new_meta
                (get_or_else (get w (identity_key subreddit)) candidate)
                subreddit
                instance_id
                config
                t0
                t1))
        × (r2 ≡ err stream_exists_error)
        × (w2.hashes ≡ w1.hashes)
        × (w2.sets ≡ w1.sets)
        × (w2.db ≡ w1.db)
  create_stream_once instance_id other config config' candidate candidate' t0 t1 t2 t3 free named =
      let first =
        create_stream_free f persists subreddit instance_id config candidate t0 t1 w free named in
      let w1 = (create_stream {f = f} persists subreddit instance_id config candidate t0 t1 w).0 in
      let second =
        create_stream_taken f persists subreddit other config' candidate' t2 t3 w1 first.1 named in
      (first.0, second.0, second.3, second.4, second.5)

  -- A stream that is deleted as it was seen, its progress kept, and then created again, with nobody
  -- in between, by any instance with any candidate, gets the identity that it had and finds its checkpoint.
  pub restart_resumes :
      (stream_id status updated_at : String) (instance_id : Option String)
      (config candidate t0 t1 : String)
      → truthy subreddit ≡ true
      → truthy stream_id ≡ true
      → get w (subreddit_key subreddit) ≡ some stream_id
      → hget w (meta_key stream_id) "subreddit" ≡ some subreddit
      → hget w (meta_key stream_id) "status" ≡ some status
      → hget w (meta_key stream_id) "updated_at" ≡ some updated_at
      → let w1 = (delete_stream stream_id (some status) (some updated_at) false w).0 in
        let (w2, r) =
          create_stream {f = f} persists subreddit instance_id config candidate t0 t1 w1 in
        (r ≡ ok (new_meta stream_id subreddit instance_id config t0 t1))
        × (get_checkpoint stream_id w2 ≡ get_checkpoint stream_id w)
  unfolding get_checkpoint
  restart_resumes stream_id status updated_at instance_id config candidate t0 t1 p q claim hs ht
        hu =
      let gone = delete_stream_unchanged stream_id w status updated_at subreddit p hs ht hu in
      let w1 = (delete_stream stream_id (some status) (some updated_at) false w).0 in
      let free = gone.4 ∙ ground (arith, str_eq_refl stream_id) in
      let id_of = λ (o : Option String). get_or_else o candidate in
      let same_id = ap id_of gone.5 in
      let again =
        create_stream_free f persists subreddit instance_id config candidate t0 t1 w1 free
          (ap truthy same_id ∙ q) in
      let w2 = (create_stream {f = f} persists subreddit instance_id config candidate t0 t1 w1).0 in
      let kept =
        subst (λ (i : String). hgetall w2 (checkpoint_key i) ≡ hgetall w1 (checkpoint_key i))
          same_id again.5
        ∙ gone.6 in
      (
        again.0 ∙ ap (λ (i : String). ok (new_meta i subreddit instance_id config t0 t1)) same_id,
        rw kept,
      )
