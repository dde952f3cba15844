-- ===== src/Cleanup/Tests.antt =====
-- A sweep of apps/reddit-kafka/src/tasks/dead_stream_cleanup.py over concrete streams.
use reddit_kafka.Base.{
  ℕ, ◌≡◌, refl, ap, lookup, String, Dict, Option, List, some, none, [], ◌∷◌, if◌then◌else◌, arith,
}
use reddit_kafka.Redis.{age}
use reddit_kafka.Redis.Keys.{key_eq, meta_key, subreddit_key, all_streams_key}
use reddit_kafka.Commands.{hgetall}
use reddit_kafka.World.{World}
use reddit_kafka.World.Memory.{memory, empty_world}
use reddit_kafka.Lock.Laws.{lease, wait}
use reddit_kafka.Cleanup.Loop.{CleanupTurn, slept, cut_off, cleanup_loop}
use reddit_kafka.Cleanup.Sparing.{Holds, IsLive, cleanup_loop_spares}

-- "python" has stopped
abbrev stopped_world : World memory
stopped_world = record empty_world {
  strings = λ k. if key_eq k (subreddit_key "python") then some ("s1", none) else none;
  hashes = λ k.
      if key_eq k (meta_key "s1")
      then ("id", "s1")
        ∷ ("subreddit", "python")
        ∷ ("status", "stopped")
        ∷ ("updated_at", "t0")
        ∷ []
      else [];
  sets = λ k. if key_eq k all_streams_key then "s1" ∷ [] else [];
}

-- "s2" runs
abbrev mixed_world : World memory
mixed_world = record stopped_world {
  hashes = λ k.
      if key_eq k (meta_key "s2")
      then ("id", "s2") ∷ ("status", "active") ∷ []
      else stopped_world.hashes k;
}

-- a sweep after a minute, and one after half a minute that is cut off
abbrev turns : List (CleanupTurn memory)
turns = slept (wait 60) ∷ cut_off 1 (wait 30) ∷ []

-- "s2" is active and its checkpoint is empty, and only "one:1" may hold the lease.
abbrev Active : Option (String × Option ℕ) → Dict String → Dict String → Type 0
Active l c stream =
    (stream ≡ hgetall mixed_world (meta_key "s2"))
    × (c ≡ [])
    × ((holder : String) (r : Option ℕ) → l ≡ some (holder, r) → holder ≡ "one:1")

age-holder :
    (n : ℕ) (l : Option (String × Option ℕ))
    → ((holder : String) (r : Option ℕ) → l ≡ some (holder, r) → holder ≡ "one:1")
    → (holder : String) (r : Option ℕ) → age n l ≡ some (holder, r)
    → holder ≡ "one:1"
age-holder n none only holder r e = absurd cc
age-holder n (some (t, none)) only holder r e = only holder r e
age-holder n (some (t, some m)) only holder r e = ground (arith, e, only t (some m) refl)

wait-Active :
    (n : ℕ) (w : World memory) → Holds "s2" "rust" Active w → Holds "s2" "rust" Active (wait n w)
unfolding wait
wait-Active n w (stream, c, only) = (stream, c, age-holder n (lease "rust" w) only)

Active-IsLive :
    (l : Option (String × Option ℕ)) (c stream : Dict String) → Active l c stream → IsLive stream
Active-IsLive l c stream (same, empty, only) =
    ("active", ap (lookup "status") same, λ e. cc, λ e. cc, λ e. cc)

cleanup_loop_spares_example : Holds "s2" "rust" Active (cleanup_loop turns mixed_world).0
cleanup_loop_spares_example =
    cleanup_loop_spares "s2" "rust" Active Active-IsLive turns mixed_world
      (wait-Active 60, (wait-Active 30, tt)) (refl, refl, λ holder r e. cc)
