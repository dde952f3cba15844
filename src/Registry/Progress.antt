-- ===== src/Registry/Progress.antt =====
-- The checkpoint of a stream: what is written is read back, and nothing else changes.
use reddit_kafka.Base.{
  ◌≡◌, ◌≢◌, refl, Option, none, some, String, [], ◌∷◌, arith, str_eq_iff, str_eq_refl, ◌⊎◌, inl,
  inr, Dict, lookup, ◌∙◌,
}
use reddit_kafka.Redis.{or_field}
use reddit_kafka.Redis.Keys.{meta_key, checkpoint_key}
use reddit_kafka.Commands.{hgetall, hset}
use reddit_kafka.World.{Services, World}
use reddit_kafka.Registry.Checkpoints.{set_checkpoint, get_checkpoint}

module _ {S : Services} (stream_id : String) (w : World S) where
  field-hset :
      (m : Dict String) (field : String)
      → lookup field (hgetall (hset (checkpoint_key stream_id) m w) (checkpoint_key stream_id))
        ≡ or_field (lookup field m) (lookup field (hgetall w (checkpoint_key stream_id)))
  field-hset m field =
      S.hashes.lookup-hset w.hashes (checkpoint_key stream_id) (checkpoint_key stream_id) m field
      ∙ rw (str_eq_refl stream_id)

  others-hset :
      (m : Dict String) (other : String)
      → other ≢ stream_id
      → hgetall (hset (checkpoint_key stream_id) m w) (checkpoint_key other)
        ≡ hgetall w (checkpoint_key other)
  others-hset m other ne =
      S.hashes.hgetall-hset_ne w.hashes (checkpoint_key stream_id) (checkpoint_key other) m
        (ground (arith, str_eq_iff stream_id other))

  meta-hset :
      (m : Dict String) (other : String)
      → hgetall (hset (checkpoint_key stream_id) m w) (meta_key other) ≡ hgetall w (meta_key other)
  meta-hset m other =
      S.hashes.hgetall-hset_ne w.hashes (checkpoint_key stream_id) (meta_key other) m refl

  -- `get_checkpoint` after `set_checkpoint` returns each part that was given, and the earlier value
  -- of a part that was not; the time of update is new if any part was given. The mapping of every
  -- stream, and the checkpoints of the others, stay as they were.
  pub get_checkpoint-set_checkpoint :
      (comment_id processed_at : Option String) (now : String)
      → let w' = set_checkpoint stream_id comment_id processed_at now w in
        let (old_id, old_time, old_update) = get_checkpoint stream_id w in
        let (new_id, new_time, new_update) = get_checkpoint stream_id w' in
        (new_id ≡ or_field comment_id old_id)
        × (new_time ≡ or_field processed_at old_time)
        × ((comment_id ≢ none) ⊎ (processed_at ≢ none) → new_update ≡ some now)
        × ((other : String)
            → other ≢ stream_id
            → hgetall w' (checkpoint_key other) ≡ hgetall w (checkpoint_key other))
        × ((other : String) → hgetall w' (meta_key other) ≡ hgetall w (meta_key other))
  unfolding set_checkpoint get_checkpoint
  get_checkpoint-set_checkpoint none none now = (
    refl,
    refl,
    λ given. elim given [ inl h ↦ absurd (h refl) | inr h ↦ absurd (h refl) ],
    λ other ne. refl,
    λ other. refl,
  )
  get_checkpoint-set_checkpoint none (some p) now =
      let m : Dict String = ("last_processed_at", p) ∷ ("updated_at", now) ∷ [] in
      (
        field-hset m "last_comment_id",
        field-hset m "last_processed_at",
        λ _. field-hset m "updated_at",
        others-hset m,
        meta-hset m,
      )
  get_checkpoint-set_checkpoint (some c) none now =
      let m : Dict String = ("last_comment_id", c) ∷ ("updated_at", now) ∷ [] in
      (
        field-hset m "last_comment_id",
        field-hset m "last_processed_at",
        λ _. field-hset m "updated_at",
        others-hset m,
        meta-hset m,
      )
  get_checkpoint-set_checkpoint (some c) (some p) now =
      let m : Dict String =
        ("last_comment_id", c) ∷ ("last_processed_at", p) ∷ ("updated_at", now) ∷ [] in
      (
        field-hset m "last_comment_id",
        field-hset m "last_processed_at",
        λ _. field-hset m "updated_at",
        others-hset m,
        meta-hset m,
      )
