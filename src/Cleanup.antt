-- ===== src/Cleanup.antt =====
-- apps/reddit-kafka/src/tasks/dead_stream_cleanup.py: `DeadStreamCleanup`, which removes the
-- registry entries of streams that have ended. Its sweep is repeated with a pause, and what a sweep
-- raises is logged; a deletion that raises is not modelled.
pub mod Effects
pub mod Loop
pub mod Sparing
mod Tests
use reddit_kafka.Base.{
  ℕ, suc, Bool, false, ◌||◌, ◌&&◌, List, [], ◌∷◌, String, Dict, lookup, truthy, str_eq,
  if◌then◌else◌,
}
use reddit_kafka.World.{Services, World}
use reddit_kafka.Registry.Fields.{or_none, field_or_blank}
use reddit_kafka.Registry.Reading.{list_streams}
use reddit_kafka.Registry.Removal.{delete_stream}

-- `status in dead_statuses`
abbrev pub is_dead_status : String → Bool
is_dead_status status = str_eq status "stopped" || str_eq status "error" || str_eq status "inactive"

-- `_is_dead_stream`, of a listed mapping
unfoldable pub is_dead_stream : Dict String → Bool
is_dead_stream stream = is_dead_status (field_or_blank "status" stream)

module _ {S : Services} where
  -- one turn of the loop in `_cleanup`: whether the stream was deleted
  unfoldable pub clean_stream : Dict String → World S → World S × Bool
  unfolding is_dead_stream
  clean_stream stream w =
      if is_dead_stream stream && truthy (field_or_blank "id" stream)
      then delete_stream (field_or_blank "id" stream) (or_none (lookup "status" stream))
          (or_none (lookup "updated_at" stream)) false w
      else (w, false)

  -- the loop, with the number of streams that were deleted
  unfoldable pub clean_streams : List (Dict String) → World S → World S × ℕ
  unfolding clean_stream
  clean_streams [] w = (w, 0)
  clean_streams (stream ∷ streams) w =
      let (cleaned, deleted) = clean_stream stream w in
      let (w', dead_count) = clean_streams streams cleaned in
      (w', if deleted then suc dead_count else dead_count)

  -- `_cleanup`
  unfoldable pub cleanup : World S → World S × ℕ
  unfolding clean_streams
  cleanup w = let (listed, streams) = list_streams w in clean_streams streams listed
