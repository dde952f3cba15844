-- ===== src/Flusher/Stopping.antt =====
-- What the flush of a stream that stops stores in Postgres.
use reddit_kafka.Base.{
  ◌≡◌, refl, ap, Bool, true, false, Option, none, some, List, [], ◌∷◌, String, arith, str_eq,
  Bool-cases, Option-cases, inl, inr, if◌then◌else◌,
}
use reddit_kafka.Redis.Keys.{checkpoint_key}
use reddit_kafka.Commands.{hgetall}
use reddit_kafka.World.{Services, World, CheckpointRow}
use reddit_kafka.Flusher.{row_of, upsert_checkpoints, upsert_row, flush_stream_on_stop}
use reddit_kafka.Redis.{is_empty}
use reddit_kafka.Flusher.Effects.{or_row}

module _ {S : Services} (from_iso : String → Option String) where
  row_of-empty :
      (w : World S) (i : String)
      → is_empty (hgetall w (checkpoint_key i)) ≡ true
      → row_of from_iso w i ≡ none
  unfolding row_of
  row_of-empty w i e = rw (e, row_of) refl

  upsert_row_lem :
      (w : World S) (stream_id : String) (r : Option CheckpointRow)
      → let (w', done) = upsert_row from_iso stream_id r w in
        (done ≡ true
          → (i : String)
          → S.postgres.checkpoint w'.db i ≡ (
              if str_eq stream_id i
              then or_row r (S.postgres.checkpoint w.db i)
              else S.postgres.checkpoint w.db i))
        × (done ≡ false → w' ≡ w)
  unfolding upsert_row
  upsert_row_lem w stream_id none = ((λ done. cc), (λ no. refl))
  upsert_row_lem w stream_id (some row) =
      let rows : List (String × CheckpointRow) = (stream_id, row) ∷ [] in
      elim (Option-cases (S.postgres.upsert_checkpoints rows w.db)) [
        | inl raised ↦ rw (raised, upsert_row, upsert_checkpoints) ((λ done. cc), (λ no. refl))
        | inr (db, stored) ↦
            rw (stored, upsert_row, upsert_checkpoints)
              (λ done i. S.postgres.checkpoint-upsert_checkpoints rows w.db db i stored, λ no. cc)
      ]

  flush_stream_on_stop_lem :
      (w : World S) (stream_id : String) (b : Bool)
      → is_empty (hgetall w (checkpoint_key stream_id)) ≡ b
      → flush_stream_on_stop from_iso stream_id w
        ≡ (if b then (w, true) else upsert_row from_iso stream_id (row_of from_iso w stream_id) w)
  unfolding flush_stream_on_stop
  flush_stream_on_stop_lem w stream_id b e =
      ap
        (λ (c : Bool).
          if c then (w, true) else upsert_row from_iso stream_id (row_of from_iso w stream_id) w)
        e

  -- The flush of one stream when it stops: if it ends without an error, Postgres has the row of the
  -- stream's checkpoint, or the row that it had if there is no checkpoint; the other rows stay. If
  -- the checkpoint cannot be parsed or Postgres raises, nothing changes.
  pub flush_stream_on_stop_exact :
      (w : World S) (stream_id : String)
      → let (w', done) = flush_stream_on_stop from_iso stream_id w in
        (done ≡ true
          → (i : String)
          → S.postgres.checkpoint w'.db i ≡ (
              if str_eq stream_id i
              then or_row (row_of from_iso w stream_id) (S.postgres.checkpoint w.db i)
              else S.postgres.checkpoint w.db i))
        × (done ≡ false → w' ≡ w)
  flush_stream_on_stop_exact w stream_id =
      elim (Bool-cases (is_empty (hgetall w (checkpoint_key stream_id)))) [
        | inl e ↦
            rw (flush_stream_on_stop_lem w stream_id true e)
              ((λ done i. ground (arith, row_of-empty w stream_id e)), (λ no. refl))
        | inr e ↦
            rw (flush_stream_on_stop_lem w stream_id false e)
              (upsert_row_lem w stream_id (row_of from_iso w stream_id))
      ]
