-- ===== src/App/Shutdown.antt =====
-- What the end of the application leaves behind, for another instance to go on with.
use reddit_kafka.Base.{◌≡◌, refl, Option, none, String}
use reddit_kafka.Errors.{Foreign}
use reddit_kafka.Redis.Keys.{meta_key}
use reddit_kafka.Commands.{hgetall}
use reddit_kafka.World.{Services, World}
use reddit_kafka.Registry.Status.{is_stop_requested}
use reddit_kafka.Manager.State.{Instance, LocalTask, Manager}
use reddit_kafka.App.Lifespan.{Leaving, drain_worker}

module _ {S : Services} (i : String) where
  -- what a call leaves alone
  abbrev Keeps : World S → World S → Type 0
  Keeps w w' =
      (hgetall w' (meta_key i) ≡ hgetall w (meta_key i))
      × (is_stop_requested i w' ≡ is_stop_requested i w)

module _ (S : Services) (f : Foreign) (me : Instance) (leaving : String → Leaving)
    (local : String → Option LocalTask) where
  pub unhurt : (i : String) → (drain_worker {S = S} {f = f} me (leaving i) (local i)).watched ≡ none
  unfolding drain_worker
  unhurt i = refl
