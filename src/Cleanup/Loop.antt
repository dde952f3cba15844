-- ===== src/Cleanup/Loop.antt =====
-- `_cleanup_loop`, the task that `start` creates, and `cleanup`, which logs what a sweep raises.
use reddit_kafka.Base.{ℕ, ◌+◌, List, [], ◌∷◌, take}
use reddit_kafka.Registry.Reading.{list_streams}
use reddit_kafka.World.{Services, World}
use reddit_kafka.Cleanup.{clean_streams, cleanup}

-- One turn of the loop, with what others do during its sleep: `_running` is false; or the task is
-- cancelled in the sleep; or it is cancelled in the sweep that follows, after so many of the listed
-- streams; or the sweep ends.
pub data CleanupTurn (S : Services) : Type 0 where
  not_running : CleanupTurn S
  interrupted slept : (World S → World S) → CleanupTurn S
  cut_off : ℕ → (World S → World S) → CleanupTurn S

module _ {S : Services} where
  -- a sweep that is cancelled between two streams, and counts none as deleted
  unfoldable pub cleanup_until : ℕ → World S → World S
  unfolding clean_streams
  cleanup_until k w =
      let (listed, streams) = list_streams w in (clean_streams (take k streams) listed).0

  -- the loop, with the number of streams that were deleted, as the metric counts them
  unfoldable pub cleanup_loop : List (CleanupTurn S) → World S → World S × ℕ
  unfolding cleanup cleanup_until
  cleanup_loop [] w = (w, 0)
  cleanup_loop (not_running ∷ turns) w = (w, 0)
  cleanup_loop (interrupted others ∷ turns) w = (others w, 0)
  cleanup_loop (cut_off k others ∷ turns) w = (cleanup_until k (others w), 0)
  cleanup_loop (slept others ∷ turns) w =
      let (cleaned, dead_count) = cleanup (others w) in
      let (w', n) = cleanup_loop turns cleaned in (w', dead_count + n)
