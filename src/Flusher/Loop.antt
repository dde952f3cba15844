-- ===== src/Flusher/Loop.antt =====
-- `_flush_loop`, the task that `start` creates.
use reddit_kafka.Base.{ℕ, suc, Option, List, [], ◌∷◌, String, if◌then◌else◌}
use reddit_kafka.World.{Services, World}
use reddit_kafka.Flusher.{flush}

-- One turn of the loop: `_running` is false; or the task is cancelled, with what others and a flush
-- that is cut off have done until then; or the sleep ends, with what others have done meanwhile.
pub data FlushTurn (S : Services) : Type 0 where
  not_running : FlushTurn S
  interrupted slept : (World S → World S) → FlushTurn S

module _ {S : Services} (from_iso : String → Option String) (instance_id : String) where
  -- the loop, with the number of flushes that ended without an error, as the metric counts them
  unfoldable pub flush_loop : List (FlushTurn S) → World S → World S × ℕ
  unfolding flush
  flush_loop [] w = (w, 0)
  flush_loop (not_running ∷ turns) w = (w, 0)
  flush_loop (interrupted others ∷ turns) w = (others w, 0)
  flush_loop (slept others ∷ turns) w =
      let (flushed, success) = flush from_iso instance_id (others w) in
      let (w', n) = flush_loop turns flushed in (w', if success then suc n else n)
