-- ===== src/Flusher.antt =====
-- apps/reddit-kafka/src/tasks/checkpoint_flusher.py: `CheckpointFlusher`, which copies the
-- checkpoints of one instance's streams from Redis to Postgres. `from_iso` stands for
-- `datetime.fromisoformat` of a text without the `Z` at its end, with the time zone dropped; it
-- raises where it is `none`. What a flush raises is logged: an operation answers whether it ended
-- without. The periodic loop is not modelled.
pub mod Effects
pub mod Loop
pub mod Persisting
pub mod Stopping
mod Tests
use reddit_kafka.Base.{
  Bool, true, false, not, ◌&&◌, Option, none, some, List, [], ◌∷◌, String, Dict, lookup,
  if◌then◌else◌,
}
use reddit_kafka.Redis.{is_empty}
use reddit_kafka.Redis.Keys.{meta_key, checkpoint_key, instance_key}
use reddit_kafka.Commands.{hgetall, smembers, is_value}
use reddit_kafka.World.{Services, World, CheckpointRow}
use reddit_kafka.Registry.Fields.{or_none}
use reddit_kafka.Registry.Reading.{srem_all}

-- the test of the ownership of a stream, by its stored mapping
unfoldable pub is_owned : String → Dict String → Bool
is_owned instance_id meta = not (is_empty meta) && is_value (lookup "instance_id" meta) instance_id

-- an entry for a row that could be parsed
abbrev pub add_row :
    String → Option CheckpointRow → List (String × CheckpointRow) → List (String × CheckpointRow)
add_row i none rows = rows
add_row i (some row) rows = (i, row) ∷ rows

module _ (from_iso : String → Option String) where
  -- `_parse_checkpoint_data`
  unfoldable pub parse_checkpoint_data : Dict String → Option CheckpointRow
  parse_checkpoint_data d = elim (or_none (lookup "last_processed_at" d)) [
    | none ↦ some (lookup "last_comment_id" d, none)
    | some t ↦ elim (from_iso t) [
      | none ↦ none
      | some dt ↦ some (lookup "last_comment_id" d, some dt)
    ]
  ]

  module _ {S : Services} where
    -- the row of a stream that is owned, if it has a checkpoint that can be parsed
    unfoldable pub row_of : World S → String → Option CheckpointRow
    unfolding parse_checkpoint_data
    row_of w i =
        let stored = hgetall w (checkpoint_key i) in
        if is_empty stored then none else parse_checkpoint_data stored

    -- the loop of `_flush`: the stale streams, and the rows
    unfoldable pub collect :
        String → World S → List String → List String × List (String × CheckpointRow)
    unfolding row_of is_owned
    collect instance_id w [] = ([], [])
    collect instance_id w (i ∷ ids) =
        let (stale, rows) = collect instance_id w ids in
        if is_owned instance_id (hgetall w (meta_key i))
        then (stale, add_row i (row_of w i) rows)
        else (i ∷ stale, rows)

    -- `_upsert_checkpoints`, which rolls back what raises
    unfoldable pub upsert_checkpoints : List (String × CheckpointRow) → World S → World S × Bool
    upsert_checkpoints rows w = elim (S.postgres.upsert_checkpoints rows w.db) [
      | none ↦ (w, false)
      | some db ↦ (record w { db = db }, true)
    ]

    -- the end of `_flush`
    unfoldable pub flush_collected :
        String → List String × List (String × CheckpointRow) → World S → World S × Bool
    unfolding upsert_checkpoints
    flush_collected instance_id (stale, []) w = (srem_all (instance_key instance_id) stale w, true)
    flush_collected instance_id (stale, row ∷ rows) w =
        upsert_checkpoints (row ∷ rows) (srem_all (instance_key instance_id) stale w)

    -- `_flush`, of the streams that the index holds
    unfoldable pub flush_ids : String → List String → World S → World S × Bool
    unfolding collect flush_collected
    flush_ids instance_id [] w = (w, true)
    flush_ids instance_id (i ∷ ids) w =
        flush_collected instance_id (collect instance_id w (i ∷ ids)) w

    -- `flush`
    unfoldable pub flush : String → World S → World S × Bool
    unfolding flush_ids
    flush instance_id w = flush_ids instance_id (smembers w (instance_key instance_id)) w

    -- the part of `flush_stream_on_stop` after the checkpoint has been read
    unfoldable pub upsert_row : String → Option CheckpointRow → World S → World S × Bool
    unfolding upsert_checkpoints
    upsert_row stream_id none w = (w, false)
    upsert_row stream_id (some row) w = upsert_checkpoints ((stream_id, row) ∷ []) w

    -- `flush_stream_on_stop`
    unfoldable pub flush_stream_on_stop : String → World S → World S × Bool
    unfolding row_of upsert_row
    flush_stream_on_stop stream_id w =
        if is_empty (hgetall w (checkpoint_key stream_id))
        then (w, true)
        else upsert_row stream_id (row_of w stream_id) w
