-- ===== src/Flusher/Tests.antt =====
-- A flush of apps/reddit-kafka/src/tasks/checkpoint_flusher.py at a concrete state.
use reddit_kafka.Base.{
  ◌≡◌, refl, List, arith, true, false, ◌&&◌, Option, some, none, [], ◌∷◌, String, has,
  if◌then◌else◌,
}
use reddit_kafka.Redis.Keys.{key_eq, meta_key, checkpoint_key, instance_key}
use reddit_kafka.World.{World}
use reddit_kafka.World.Memory.{memory, empty_world, python_meta}
use reddit_kafka.Flusher.{
  row_of, flush, flush_ids, flush_collected, collect, parse_checkpoint_data, upsert_checkpoints,
  is_owned,
}
use reddit_kafka.Flusher.Loop.{FlushTurn, interrupted, slept, flush_loop}
use reddit_kafka.Flusher.Persisting.{flush_loop_persists}
use reddit_kafka.Flusher.Effects.{or_row, owns_stream, flush_exact}

-- times are kept as they are
abbrev read_time : String → Option String
read_time t = some t

-- the index of the instance "one" names its stream "s1" and a stream that has gone
abbrev indexed_world : World memory
indexed_world = record empty_world {
  hashes = λ k.
      if key_eq k (meta_key "s1")
      then python_meta
      else if key_eq k (checkpoint_key "s1")
      then ("last_comment_id", "c7") ∷ ("last_processed_at", "t0") ∷ []
      else [];
  sets = λ k. if key_eq k (instance_key "one") then "s1" ∷ "s2" ∷ [] else [];
}

flush_exact_example :
    let (w', done) = flush read_time "one" indexed_world in
    (done ≡ true
      → (i : String)
      → memory.postgres.checkpoint w'.db i ≡ (
          if has i ("s1" ∷ "s2" ∷ []) && owns_stream "one" indexed_world i
          then or_row (row_of read_time indexed_world i) none
          else none))
    × (done ≡ false → w'.db ≡ indexed_world.db)
    × (w'.hashes ≡ indexed_world.hashes)
    × (w'.strings ≡ indexed_world.strings)
flush_exact_example = flush_exact read_time "one" indexed_world

-- a turn whose flush is cut off, and one before it that ends
abbrev turns : List (FlushTurn memory)
turns = slept (λ w. w) ∷ interrupted (λ w. w) ∷ []

flush_loop_persists_example :
    memory.postgres.checkpoint (flush_loop read_time "one" turns indexed_world).0.db "s1"
    ≡ some (some "c7", some "t0")
unfolding flush_loop flush flush_ids flush_collected collect row_of parse_checkpoint_data
    upsert_checkpoints is_owned
flush_loop_persists_example =
    flush_loop_persists read_time "one" "s1" (some "c7", some "t0") turns indexed_world
      ((λ w due. (due, refl)), ((λ w due. (due, refl)), tt)) (refl, refl, refl) (omega arith)
