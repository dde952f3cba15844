-- ===== src/Manager/Looping.antt =====
-- The two loops of a manager: `_reconcile_loop` and `_wait_for_stop_request`.
use reddit_kafka.Base.{
  ◌≡◌, refl, ℕ, Bool, true, false, Option, List, [], ◌∷◌, String, All, arith, Bool-cases, inl, inr,
  if◌then◌else◌,
}
use reddit_kafka.Errors.{Foreign, Error}
use reddit_kafka.World.{Services, World}
use reddit_kafka.Registry.Status.{is_stop_requested}
use reddit_kafka.Manager.State.{Instance, Manager, Others}
use reddit_kafka.Manager.Adopting.{Sweep, reconcile_once}
use reddit_kafka.Manager.Evolving.{Evolves, Evolves-trans, Evolves-same}
use reddit_kafka.Manager.Sweeping.{reconcile_once-Evolves}

-- One turn of `_reconcile_loop`: a sweep, or one that raises with what it has done until then, and
-- what others do in the sleep after it; or the task is cancelled, with what a sweep that is cut off
-- has done.
pub data ReconcileTurn (S : Services) (f : Foreign) : Type 0 where
  sweeps : (ℕ → Sweep S f) → Others S → ReconcileTurn S f
  raises : (Manager S → Manager S) → Others S → ReconcileTurn S f
  cancels : (Manager S → Manager S) → ReconcileTurn S f

module _ {S : Services} {f : Foreign} (me : Instance) (from_iso : String → Option ℕ) where
  -- the loop, and whether it has ended
  unfoldable pub reconcile_loop : List (ReconcileTurn S f) → Manager S → Manager S × Bool
  unfolding reconcile_once
  reconcile_loop [] m = (m, false)
  reconcile_loop (sweeps sweep others ∷ turns) m =
      let swept = reconcile_once me from_iso sweep m in
      reconcile_loop turns (record swept { world = others swept.world })
  reconcile_loop (raises partial others ∷ turns) m =
      let swept = partial m in reconcile_loop turns (record swept { world = others swept.world })
  reconcile_loop (cancels partial ∷ turns) m = (partial m, true)

  -- A sweep that is cut off evolves the map of tasks as a whole one does.
  abbrev pub CutsOff : ReconcileTurn S f → Type 0
  CutsOff (sweeps sweep others) = Unit
  CutsOff (raises partial others) = (m : Manager S) → Evolves m (partial m)
  CutsOff (cancels partial) = (m : Manager S) → Evolves m (partial m)

  -- However many sweeps the loop makes and however it ends: if no stream has two local tasks before,
  -- none has two afterwards, and once the instance is shutting down, it stays so and no stream gets a
  -- local task.
  pub reconcile_loop-Evolves :
      (turns : List (ReconcileTurn S f)) (m : Manager S)
      → All CutsOff turns
      → Evolves m (reconcile_loop turns m).0
  unfolding reconcile_loop
  reconcile_loop-Evolves [] m cut = Evolves-same m m refl refl
  reconcile_loop-Evolves (sweeps sweep others ∷ turns) m (_, cut) =
      let swept = reconcile_once me from_iso sweep m in
      let next = record swept { world = others swept.world } in
      Evolves-trans m next (reconcile_loop turns next).0
        (Evolves-trans m swept next (reconcile_once-Evolves me from_iso sweep m)
          (Evolves-same swept next refl refl))
        (reconcile_loop-Evolves turns next cut)
  reconcile_loop-Evolves (raises partial others ∷ turns) m (part, cut) =
      let swept = partial m in
      let next = record swept { world = others swept.world } in
      Evolves-trans m next (reconcile_loop turns next).0
        (Evolves-trans m swept next (part m) (Evolves-same swept next refl refl))
        (reconcile_loop-Evolves turns next cut)
  reconcile_loop-Evolves (cancels partial ∷ turns) m (part, cut) = part m

-- One read of `_wait_for_stop_request`: it raises, or is answered, and then others act in the sleep.
pub data Poll (S : Services) (f : Foreign) : Type 0 where
  read_raises : Error f → Poll S f
  read : Others S → Poll S f

-- How the watcher ends, if it has ended.
pub data Watched (f : Foreign) : Type 0 where
  watching stop_found : Watched f
  failed : Error f → Watched f

module _ {S : Services} {f : Foreign} (stream_id : String) where
  unfoldable pub wait_for_stop_request : List (Poll S f) → World S → World S × Watched f
  unfolding is_stop_requested
  wait_for_stop_request [] w = (w, watching)
  wait_for_stop_request (read_raises e ∷ polls) w = (w, failed e)
  wait_for_stop_request (read others ∷ polls) w =
      let later = wait_for_stop_request polls (others w) in
      if is_stop_requested stream_id w then (w, stop_found) else later

  -- The watcher ends with a stop only where one is requested.
  pub wait_for_stop_request-found :
      (polls : List (Poll S f)) (w : World S)
      → (wait_for_stop_request polls w).1 ≡ stop_found
      → is_stop_requested stream_id (wait_for_stop_request polls w).0 ≡ true
  unfolding wait_for_stop_request
  wait_for_stop_request-found [] w e = absurd cc
  wait_for_stop_request-found (read_raises x ∷ polls) w e = absurd cc
  wait_for_stop_request-found (read others ∷ polls) w e =
      elim (Bool-cases (is_stop_requested stream_id w)) [
        | inl asked ↦ ground (arith, asked)
        | inr quiet ↦
            ground (
              arith,
              quiet,
              wait_for_stop_request-found polls (others w) (ground (arith, quiet, e)),
            )
      ]

  -- Where a stop is requested, the next read that is answered ends the watcher with it.
  pub wait_for_stop_request-ends :
      (others : Others S) (polls : List (Poll S f)) (w : World S)
      → is_stop_requested stream_id w ≡ true
      → wait_for_stop_request (read others ∷ polls) w ≡ (w, stop_found)
  unfolding wait_for_stop_request
  wait_for_stop_request-ends others polls w asked = rw asked refl
