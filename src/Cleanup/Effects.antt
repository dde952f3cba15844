-- ===== src/Cleanup/Effects.antt =====
-- What a sweep leaves alone.
use mathlib.Core.Bool.{false≢true}
use reddit_kafka.Base.{
  ℕ, take, ◌≡◌, refl, sym, ◌∙◌, true, false, Option, some, List, [], ◌∷◌, String, Dict, lookup,
  truthy, arith, str_eq, str_eq_iff, Bool-cases, inl, inr, ap, ◌&&◌, str_cases, Option-cases,
}
use reddit_kafka.Redis.Keys.{meta_key, checkpoint_key, identity_key}
use reddit_kafka.Commands.{hget, hgetall, get}
use reddit_kafka.World.{Services, World}
use reddit_kafka.Lock.Laws.{lease}
use reddit_kafka.Registry.Fields.{or_blank, or_none, field_or_blank}
use reddit_kafka.Registry.Reading.{list_streams}
use reddit_kafka.Registry.Deleting.{delete_stream_unchanged}
use reddit_kafka.Registry.Removal.{delete_stream}
use reddit_kafka.Registry.Frames.{delete_stream-keeps, delete_stream-mismatch, list_streams-keeps}
use reddit_kafka.Cleanup.Loop.{cleanup_until}
use reddit_kafka.Cleanup.{is_dead_status, is_dead_stream, clean_stream, clean_streams, cleanup}

dead_status-truthy : (s : String) → is_dead_status s ≡ true → truthy s ≡ true
dead_status-truthy s h = elim (str_cases s "") [
  | inl same ↦ absurd (false≢true (ap is_dead_status (sym same) ∙ h))
  | inr ne ↦ ground (arith, str_eq_iff s "")
]

-- the listed status of a stream to be deleted is a text, and not the stored one of a live stream
dead_status_lem :
    (stream : Dict String) (stored : String)
    → is_dead_stream stream ≡ true
    → is_dead_status stored ≡ false
    → (s : String) × (or_none (lookup "status" stream) ≡ some s)
      × (truthy s ≡ true)
      × (str_eq stored s ≡ false)
unfolding is_dead_stream
dead_status_lem stream stored dead live = elim (Option-cases (lookup "status" stream)) [
  | inl e ↦
      absurd (false≢true (ap (λ (o : Option String). is_dead_status (or_blank o)) (sym e) ∙ dead))
  | inr (s, e) ↦ (
    s,
    ground (arith, dead_status-truthy s),
    ground (arith, dead_status-truthy s),
    ground (arith, str_eq_iff stored s),
  )
]

module _ {S : Services} where
  -- a stream whose stored status is not one of an ended stream keeps its mapping
  clean_stream-spares :
      (stream : Dict String) (w : World S) (i status : String)
      → hget w (meta_key i) "status" ≡ some status
      → is_dead_status status ≡ false
      → hgetall (clean_stream stream w).0 (meta_key i) ≡ hgetall w (meta_key i)
  unfolding clean_stream
  clean_stream-spares stream w i status h live =
      let id = field_or_blank "id" stream in
      let updated_at = or_none (lookup "updated_at" stream) in
      elim (Bool-cases (is_dead_stream stream && truthy id)) [
        | inr e ↦ rw (e, clean_stream) refl
        | inl e ↦ elim (str_cases id i) [
          | inr ne ↦
              rw (e, clean_stream)
                ((delete_stream-keeps id (or_none (lookup "status" stream)) updated_at w).1 i ne)
          | inl same ↦
              let (s, listed, p, differs) = dead_status_lem stream status (ground arith) live in
              rw (e, listed, same, clean_stream)
                (rw (delete_stream-mismatch i s updated_at w p (ground arith)) refl)
        ]
      ]

  clean_stream-keeps :
      (stream : Dict String) (w : World S)
      → let w' = (clean_stream stream w).0 in
        ((j : String) → hgetall w' (checkpoint_key j) ≡ hgetall w (checkpoint_key j))
        × ((s : String) → lease s w' ≡ lease s w)
  unfolding clean_stream
  clean_stream-keeps stream w =
      let kept =
        delete_stream-keeps (field_or_blank "id" stream) (or_none (lookup "status" stream))
          (or_none (lookup "updated_at" stream)) w in
      elim (Bool-cases (is_dead_stream stream && truthy (field_or_blank "id" stream))) [
        | inl e ↦ rw (e, clean_stream) (kept.0, kept.2)
        | inr e ↦ rw (e, clean_stream) ((λ j. refl), (λ s. refl))
      ]

  clean_streams-keeps :
      (streams : List (Dict String)) (w : World S)
      → let w' = (clean_streams streams w).0 in
        ((j : String) → hgetall w' (checkpoint_key j) ≡ hgetall w (checkpoint_key j))
        × ((s : String) → lease s w' ≡ lease s w)
  unfolding clean_streams
  clean_streams-keeps [] w = ((λ j. refl), (λ s. refl))
  clean_streams-keeps (stream ∷ streams) w =
      let one = clean_stream-keeps stream w in
      let rest = clean_streams-keeps streams (clean_stream stream w).0 in
      ((λ j. rest.0 j ∙ one.0 j), (λ s. rest.1 s ∙ one.1 s))

  clean_streams-spares :
      (streams : List (Dict String)) (w : World S) (i status : String)
      → hget w (meta_key i) "status" ≡ some status
      → is_dead_status status ≡ false
      → hgetall (clean_streams streams w).0 (meta_key i) ≡ hgetall w (meta_key i)
  unfolding clean_streams
  clean_streams-spares [] w i status h live = refl
  clean_streams-spares (stream ∷ streams) w i status h live =
      let one = clean_stream-spares stream w i status h live in
      clean_streams-spares streams (clean_stream stream w).0 i status (ap (lookup "status") one ∙ h)
        live
      ∙ one

  -- what the deletions of some streams leave alone, after the streams have been listed
  sweep-spares :
      (streams : List (Dict String)) (w : World S)
      → let w' = (clean_streams streams (list_streams w).0).0 in
        ((s : String) → lease s w' ≡ lease s w)
        × ((i : String) → hgetall w' (checkpoint_key i) ≡ hgetall w (checkpoint_key i))
        × ((i status : String)
            → hget w (meta_key i) "status" ≡ some status
            → is_dead_status status ≡ false
            → hgetall w' (meta_key i) ≡ hgetall w (meta_key i))
  sweep-spares streams w =
      let listed = (list_streams w).0 in
      let (same_strings, same_hashes) = list_streams-keeps w in
      let kept = clean_streams-keeps streams listed in
      let meta =
        λ (i : String). ap (λ (h : S.hashes.Store). S.hashes.hgetall h (meta_key i)) same_hashes in
      (
        λ s. kept.1 s ∙ rw (same_strings, lease) refl,
        λ i. kept.0 i ∙ rw (same_hashes, hgetall) refl,
        λ i status h live.
            clean_streams-spares streams listed i status (ap (lookup "status") (meta i) ∙ h) live
            ∙ meta i,
      )

  -- A sweep leaves the lease of every subreddit and the checkpoint of every stream as they are, and
  -- the mapping of every stream whose stored status is not stopped, error or inactive.
  pub cleanup_spares :
      (w : World S)
      → let w' = (cleanup w).0 in
        ((s : String) → lease s w' ≡ lease s w)
        × ((i : String) → hgetall w' (checkpoint_key i) ≡ hgetall w (checkpoint_key i))
        × ((i status : String)
            → hget w (meta_key i) "status" ≡ some status
            → is_dead_status status ≡ false
            → hgetall w' (meta_key i) ≡ hgetall w (meta_key i))
  unfolding cleanup
  cleanup_spares w = sweep-spares (list_streams w).1 w

  -- So does a sweep that is cut off.
  pub cleanup_until-spares :
      (k : ℕ) (w : World S)
      → let w' = cleanup_until k w in
        ((s : String) → lease s w' ≡ lease s w)
        × ((i : String) → hgetall w' (checkpoint_key i) ≡ hgetall w (checkpoint_key i))
        × ((i status : String)
            → hget w (meta_key i) "status" ≡ some status
            → is_dead_status status ≡ false
            → hgetall w' (meta_key i) ≡ hgetall w (meta_key i))
  unfolding cleanup_until
  cleanup_until-spares k w = sweep-spares (take k (list_streams w).1) w

  clean_stream_lem :
      (stream : Dict String) (w : World S) (i status updated_at : String)
      → truthy i ≡ true
      → lookup "id" stream ≡ some i
      → lookup "status" stream ≡ some status
      → is_dead_status status ≡ true
      → lookup "updated_at" stream ≡ some updated_at
      → truthy updated_at ≡ true
      → clean_stream stream w ≡ delete_stream i (some status) (some updated_at) false w
  unfolding clean_stream is_dead_stream
  clean_stream_lem stream w i status updated_at pi hi ht dead hu pu =
      rw (hi, ht, hu, dead, pi, pu, dead_status-truthy status dead, clean_stream, is_dead_stream)
        refl

  -- An ended stream that is still as it was listed, with a subreddit, a status and a time of
  -- update, is deleted: its mapping is gone and counted as deleted, and its checkpoint remains.
  pub clean_stream_removes :
      (w : World S) (i subreddit status updated_at : String)
      → let stream = hgetall w (meta_key i) in
        truthy i ≡ true
        → lookup "id" stream ≡ some i
        → truthy subreddit ≡ true
        → lookup "subreddit" stream ≡ some subreddit
        → lookup "status" stream ≡ some status
        → is_dead_status status ≡ true
        → lookup "updated_at" stream ≡ some updated_at
        → truthy updated_at ≡ true
        → let (w', deleted) = clean_stream stream w in
          (deleted ≡ true)
          × (hgetall w' (meta_key i) ≡ [])
          × (get w' (identity_key subreddit) ≡ some i)
          × (hgetall w' (checkpoint_key i) ≡ hgetall w (checkpoint_key i))
  clean_stream_removes w i subreddit status updated_at pi hi ps hs ht dead hu pu =
      let gone = delete_stream_unchanged i w status updated_at subreddit ps hs ht hu in
      let same =
        clean_stream_lem (hgetall w (meta_key i)) w i status updated_at pi hi ht dead hu pu in
      rw same (gone.0, gone.1, gone.5, gone.6)
