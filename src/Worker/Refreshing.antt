-- ===== src/Worker/Refreshing.antt =====
-- `_lock_refresh_loop` in apps/reddit-kafka/src/stream/worker.py, and that it keeps the lease.
use reddit_kafka.Base.{◌≡◌, ◌<◌, refl, Bool, true, false, some, String, List, [], ◌∷◌, All, arith}
use reddit_kafka.World.{Services, World}
use reddit_kafka.Lock.{owns_lock}
use reddit_kafka.Lock.Laws.{lease, refresh_lock-owned}
use reddit_kafka.Lock.Leases.{Op, waits, Keeps, run, lease_exclusive}
use reddit_kafka.Worker.Control.{
  Identity, Reply, answered, Refreshed, still_owned, lock_lost, was_cancelled, lock_ttl,
  after_refresh, refresh_lock_or_raise,
}
use reddit_kafka.Worker.Closing.{refresh_fails_closed}

-- One turn of the loop: what others do and the clock does during the sleep, the reply to the
-- refresh, and whether the heartbeat raises, with its time.
pub record RefreshTurn (S : Services) : Type 0 where
  pub slept : World S → World S
  pub reply : Reply
  pub heartbeat_raises : Bool
  pub now : String

-- how the loop goes on after a refresh
unfoldable pub go_on_refreshing :
    {S : Services}
    → World S × Bool × Refreshed
    → World S × Bool × Refreshed
    → World S × Bool × Refreshed
go_on_refreshing (w, stops, still_owned) rest = rest
go_on_refreshing (w, stops, lock_lost) rest = (w, stops, lock_lost)
go_on_refreshing (w, stops, was_cancelled) rest = (w, stops, was_cancelled)

module _ {S : Services} (me : Identity) where
  -- the world, whether the stop event is set, and what was raised, if the loop has ended
  unfoldable pub lock_refresh_loop : List (RefreshTurn S) → World S → World S × Bool × Refreshed
  unfolding refresh_lock_or_raise go_on_refreshing
  lock_refresh_loop [] w = (w, false, still_owned)
  lock_refresh_loop (t ∷ turns) w =
      let refreshed = refresh_lock_or_raise me t.reply t.heartbeat_raises t.now (t.slept w) in
      let rest = lock_refresh_loop turns refreshed.0 in go_on_refreshing refreshed rest

-- A turn in which any instances use the leases while time passes, and the refresh is answered.
pub record LeaseTurn : Type 0 where
  pub operations : List Op
  pub heartbeat_raises : Bool
  pub now : String

abbrev pub refresh_turn : {S : Services} → LeaseTurn → RefreshTurn S
refresh_turn t = record {
  slept = run t.operations;
  reply = answered;
  heartbeat_raises = t.heartbeat_raises;
  now = t.now;
}

abbrev pub refresh_turns : {S : Services} → List LeaseTurn → List (RefreshTurn S)
refresh_turns [] = []
refresh_turns (t ∷ turns) = refresh_turn t ∷ refresh_turns turns

-- The turn is shorter than the TTL, every TTL that is asked for is as long, and nobody releases
-- the lease with this token.
abbrev pub IsTimely : Identity → LeaseTurn → Type 0
IsTimely me t =
    (waits t.operations < lock_ttl) × All (Keeps me.subreddit me.lock_token lock_ttl) t.operations

module _ {S : Services} (me : Identity) where
  abbrev pub HasFullLease : World S → Type 0
  HasFullLease w = lease me.subreddit w ≡ some (me.lock_token, some lock_ttl)

  refresh_owned :
      (heartbeat_raises : Bool) (now : String) (w : World S)
      → owns_lock me.subreddit me.lock_token w ≡ true
      → (refresh_lock_or_raise me answered heartbeat_raises now w).2 ≡ still_owned
  unfolding refresh_lock_or_raise after_refresh
  refresh_owned heartbeat_raises now w owned =
      ground (arith, refresh_lock-owned me.subreddit me.lock_token lock_ttl w (omega arith) owned)

  go_on_lem :
      (refreshed rest : World S × Bool × Refreshed)
      → refreshed.2 ≡ still_owned
      → go_on_refreshing refreshed rest ≡ rest
  unfolding go_on_refreshing
  go_on_lem (w, stops, still_owned) rest e = refl
  go_on_lem (w, stops, lock_lost) rest e = absurd cc
  go_on_lem (w, stops, was_cancelled) rest e = absurd cc

  -- A worker that has its lease for the whole TTL keeps it while its refresher runs, whatever any
  -- instances do in whatever order: if every turn is shorter than the TTL of 60 seconds, every
  -- refresh is answered, no call asks for a shorter TTL and nobody else releases the lease with this
  -- token, then the refresher does not end and does not set the stop event, and after the turns the
  -- lease is the worker's for the whole TTL again.
  pub lock_refresh_loop_keeps :
      (turns : List LeaseTurn) (w : World S)
      → All (IsTimely me) turns
      → HasFullLease w
      → let (w', stops, refreshed) = lock_refresh_loop me (refresh_turns turns) w in
        (refreshed ≡ still_owned) × (stops ≡ false) × HasFullLease w'
  unfolding lock_refresh_loop
  lock_refresh_loop_keeps [] w timely full = (refl, refl, full)
  lock_refresh_loop_keeps (t ∷ turns) w ((short, keeps), timely) full =
      let held =
        lease_exclusive t.operations w me.subreddit me.lock_token lock_ttl full short keeps in
      let slept = run t.operations w in
      let refreshed = refresh_lock_or_raise me answered t.heartbeat_raises t.now slept in
      let owned = refresh_owned t.heartbeat_raises t.now slept held.0 in
      let law = (refresh_fails_closed me answered t.heartbeat_raises t.now slept).0 owned in
      rw (go_on_lem refreshed (lock_refresh_loop me (refresh_turns turns) refreshed.0) owned)
        (lock_refresh_loop_keeps turns refreshed.0 timely law.2)
