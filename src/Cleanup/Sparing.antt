-- ===== src/Cleanup/Sparing.antt =====
-- What the loop of sweeps leaves alone.
use reddit_kafka.Base.{
  ℕ, ◌≡◌, ◌≢◌, false, Option, some, List, [], ◌∷◌, String, Dict, lookup, All, str_eq_iff, arith,
}
use reddit_kafka.Redis.Keys.{meta_key, checkpoint_key}
use reddit_kafka.Commands.{hgetall}
use reddit_kafka.World.{Services, World}
use reddit_kafka.Lock.Laws.{lease}
use reddit_kafka.Cleanup.{is_dead_status, cleanup}
use reddit_kafka.Cleanup.Effects.{cleanup_spares, cleanup_until-spares}
use reddit_kafka.Cleanup.Loop.{
  CleanupTurn, not_running, interrupted, slept, cut_off, cleanup_until, cleanup_loop,
}

-- The stored status of a mapping is none of an ended stream.
abbrev pub IsLive : Dict String → Type 0
IsLive stream =
    (status : String) × (lookup "status" stream ≡ some status)
    × (status ≢ "stopped")
    × (status ≢ "error")
    × (status ≢ "inactive")

is_dead_status-live :
    (status : String)
    → status ≢ "stopped"
    → status ≢ "error"
    → status ≢ "inactive"
    → is_dead_status status ≡ false
is_dead_status-live status p q r = ground (
  arith,
  p,
  q,
  r,
  str_eq_iff status "stopped",
  str_eq_iff status "error",
  str_eq_iff status "inactive",
)

module _ {S : Services} (i subreddit : String)
    (Held : Option (String × Option ℕ) → Dict String → Dict String → Type 0) where
  -- The property of the lease of the subreddit, and of the checkpoint and the mapping of the stream.
  abbrev pub Holds : World S → Type 0
  Holds w = Held (lease subreddit w) (hgetall w (checkpoint_key i)) (hgetall w (meta_key i))

  -- what others do in the sleep of a turn keeps the property
  abbrev pub OthersKeep : CleanupTurn S → Type 0
  OthersKeep not_running = Unit
  OthersKeep (interrupted others) = (w : World S) → Holds w → Holds (others w)
  OthersKeep (slept others) = (w : World S) → Holds w → Holds (others w)
  OthersKeep (cut_off k others) = (w : World S) → Holds w → Holds (others w)

  -- a sweep that leaves the three alone
  Holds-same :
      (w w' : World S)
      → IsLive (hgetall w (meta_key i))
      → ((s : String) → lease s w' ≡ lease s w)
        × ((j : String) → hgetall w' (checkpoint_key j) ≡ hgetall w (checkpoint_key j))
        × ((j status : String)
            → lookup "status" (hgetall w (meta_key j)) ≡ some status
            → is_dead_status status ≡ false
            → hgetall w' (meta_key j) ≡ hgetall w (meta_key j))
      → Holds w
      → Holds w'
  Holds-same w w' (status, stored, p, q, r) law holds =
      rw (law.0 subreddit, law.1 i, law.2 i status stored (is_dead_status-live status p q r)) holds

  -- Let a property of the lease of a subreddit, and of the checkpoint and the mapping of a stream,
  -- entail that the stored status of the stream is not stopped, error or inactive. If the property
  -- holds and what others do in each sleep keeps it, then it holds after any number of sweeps,
  -- however the loop ends, also when it is cancelled in a sweep between two streams.
  pub cleanup_loop_spares :
      (live : (l : Option (String × Option ℕ)) (c stream : Dict String)
        → Held l c stream
        → IsLive stream)
      (turns : List (CleanupTurn S)) (w : World S)
      → All OthersKeep turns
      → Holds w
      → Holds (cleanup_loop turns w).0
  unfolding cleanup_loop
  cleanup_loop_spares live [] w keep holds = holds
  cleanup_loop_spares live (not_running ∷ turns) w keep holds = holds
  cleanup_loop_spares live (interrupted others ∷ turns) w (kept, keep) holds = kept w holds
  cleanup_loop_spares live (cut_off k others ∷ turns) w (kept, keep) holds =
      let met = kept w holds in
      Holds-same (others w) (cleanup_until k (others w)) (live _ _ _ met)
        (cleanup_until-spares k (others w)) met
  cleanup_loop_spares live (slept others ∷ turns) w (kept, keep) holds =
      let met = kept w holds in
      let cleaned = (cleanup (others w)).0 in
      cleanup_loop_spares live turns cleaned keep
        (Holds-same (others w) cleaned (live _ _ _ met) (cleanup_spares (others w)) met)
