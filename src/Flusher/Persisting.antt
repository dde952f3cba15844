-- ===== src/Flusher/Persisting.antt =====
-- That the loop of flushes brings a checkpoint to Postgres.
use reddit_kafka.Base.{
  ◌≡◌, ◌<◌, refl, ap, ◌∙◌, true, false, Option, some, List, [], ◌∷◌, String, has, arith, Bool-cases,
  inl, inr, All,
}
use reddit_kafka.Redis.Keys.{meta_key, instance_key}
use reddit_kafka.Commands.{smembers}
use reddit_kafka.World.{Services, World, CheckpointRow}
use reddit_kafka.Flusher.{is_owned, row_of, flush}
use reddit_kafka.Flusher.Effects.{owns_stream, flush_exact, flush_prunes}
use reddit_kafka.Flusher.Loop.{FlushTurn, not_running, interrupted, slept, flush_loop}

module _ {S : Services} (from_iso : String → Option String) (me i : String)
    (row : CheckpointRow) where
  -- The index of the instance names the stream, the mapping names the instance, and the row is that
  -- of the checkpoint.
  abbrev pub IsDue : World S → Type 0
  IsDue w =
      (has i (smembers w (instance_key me)) ≡ true)
      × (owns_stream me w i ≡ true)
      × (row_of from_iso w i ≡ some row)

  -- What is done in a turn keeps that, and the row of the stream in Postgres.
  abbrev pub Keeps : FlushTurn S → Type 0
  Keeps not_running = Unit
  Keeps (interrupted others) =
      (w : World S)
      → IsDue w
      → IsDue (others w) × (S.postgres.checkpoint (others w).db i ≡ S.postgres.checkpoint w.db i)
  Keeps (slept others) =
      (w : World S)
      → IsDue w
      → IsDue (others w) × (S.postgres.checkpoint (others w).db i ≡ S.postgres.checkpoint w.db i)

  row_of-same : (v w : World S) → v.hashes ≡ w.hashes → row_of from_iso v i ≡ row_of from_iso w i
  unfolding row_of
  row_of-same v w e = ground (arith, e)

  flush-IsDue :
      (w : World S)
      → IsDue w
      → let (w', done) = flush from_iso me w in
        IsDue w'
        × (done ≡ true → S.postgres.checkpoint w'.db i ≡ some row)
        × (done ≡ false → S.postgres.checkpoint w'.db i ≡ S.postgres.checkpoint w.db i)
  flush-IsDue w (listed, owned, read) =
      let law = flush_exact from_iso me w in
      (
        (
          flush_prunes from_iso me w i ∙ rw (listed, owned) refl,
          ap (λ (h : S.hashes.Store). is_owned me (S.hashes.hgetall h (meta_key i))) law.2 ∙ owned,
          row_of-same (flush from_iso me w).0 w law.2 ∙ read,
        ),
        λ done. law.0 done i ∙ rw (listed, owned, read) refl,
        λ failed. ap (λ (b : S.postgres.Db). S.postgres.checkpoint b i) (law.1 failed),
      )

  -- The row is stored where it was, or where a flush has ended without an error.
  flush_loop_lem :
      (turns : List (FlushTurn S)) (w : World S)
      → All Keeps turns
      → IsDue w
      → let (w', n) = flush_loop from_iso me turns w in
        IsDue w'
        × (S.postgres.checkpoint w.db i ≡ some row → S.postgres.checkpoint w'.db i ≡ some row)
        × (0 < n → S.postgres.checkpoint w'.db i ≡ some row)
  unfolding flush_loop
  flush_loop_lem [] w keeps due = (due, (λ e. e), (λ h. absurd (omega (arith, h))))
  flush_loop_lem (not_running ∷ turns) w keeps due =
      (due, (λ e. e), (λ h. absurd (omega (arith, h))))
  flush_loop_lem (interrupted others ∷ turns) w (keep, keeps) due =
      let kept = keep w due in (kept.0, (λ e. kept.1 ∙ e), (λ h. absurd (omega (arith, h))))
  flush_loop_lem (slept others ∷ turns) w (keep, keeps) due =
      let kept = keep w due in
      let once = flush-IsDue (others w) kept.0 in
      let flushed = (flush from_iso me (others w)).0 in
      let rest = flush_loop_lem turns flushed keeps once.0 in
      elim (Bool-cases (flush from_iso me (others w)).1) [
        | inl done ↦ (rest.0, (λ e. rest.1 (once.1 done)), (λ h. rest.1 (once.1 done)))
        | inr failed ↦ (
          rest.0,
          (λ e. rest.1 (once.2 failed ∙ kept.1 ∙ e)),
          (λ h. rest.2 (ground (arith, failed, h))),
        )
      ]

  -- If a checkpoint stays due and nobody else changes its row, whatever the turns of the loop meet:
  -- as soon as one flush of the loop has ended without an error,
  -- Postgres has the row of the checkpoint, and keeps it in the later turns, failed flushes too.
  -- A checkpoint is due while the index of the instance names its stream, the mapping names the
  -- instance, and the checkpoint can be parsed as that row.
  pub flush_loop_persists :
      (turns : List (FlushTurn S)) (w : World S)
      → All Keeps turns
      → IsDue w
      → 0 < (flush_loop from_iso me turns w).1
      → S.postgres.checkpoint (flush_loop from_iso me turns w).0.db i ≡ some row
  flush_loop_persists turns w keeps due flushed = (flush_loop_lem turns w keeps due).2 flushed
