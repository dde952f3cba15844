-- ===== src/Lock/Tests.antt =====
-- The leases of apps/reddit-kafka/src/stream/lock.py at concrete inputs.
use reddit_kafka.Base.{
  ◌≡◌, ◌<◌, ◌≤◌, List, str_differ, refl, true, false, none, some, [], ◌∷◌, if◌then◌else◌, arith,
}
use reddit_kafka.Redis.Keys.{key_eq, lock_key}
use reddit_kafka.World.{World}
use reddit_kafka.World.Memory.{memory, empty_world}
use reddit_kafka.Lock.{acquire_lock, refresh_lock, owns_lock, release_lock}
use reddit_kafka.Lock.Laws.{lease, wait}
use reddit_kafka.Lock.Leases.{
  Op, acquire, refresh, release, pass, run, grants, lease_exclusive, lease_failover,
}
use reddit_kafka.Lock.Refinement.{view, answers_of, spec_run, run_refines}

-- the worker "a" has 60 seconds left on "python"
abbrev held_world : World memory
held_world = record empty_world {
  strings = λ k. if key_eq k (lock_key "python") then some ("a", some 60) else none;
}

abbrev rivals : List Op
rivals =
    acquire "python" "b" 60
    ∷ pass 20
    ∷ release "python" "b"
    ∷ refresh "python" "a" 60
    ∷ acquire "rust" "b" 60
    ∷ pass 30
    ∷ []

lease_exclusive_example :
    (owns_lock "python" "a" (run rivals held_world) ≡ true)
    × (grants "python" rivals held_world ≡ 0)
lease_exclusive_example =
    lease_exclusive rivals held_world "python" "a" 60 refl (omega arith)
      (omega arith, (tt, ((λ _. str_differ refl), (omega arith, (omega arith, (tt, tt))))))

lease_failover_example :
    let later = wait 60 (acquire_lock {S = memory} "python" "a" 60 empty_world).0 in
    let taken = (acquire_lock "python" "b" 60 later).0 in
    (60 < 60 → acquire_lock "python" "b" 60 later ≡ (later, none))
    × (60 ≤ 60
        → (lease "python" taken ≡ some ("b", some 60))
          × (refresh_lock "python" "a" 60 taken ≡ (taken, false))
          × (release_lock "python" "a" taken ≡ (taken, false)))
lease_failover_example =
    lease_failover empty_world "python" "a" "b" 60 60 (str_differ refl) (omega arith) refl

run_refines_example :
    (view (run rivals held_world), answers_of rivals held_world) ≡ spec_run rivals (view held_world)
run_refines_example =
    run_refines rivals held_world (omega arith, (tt, (tt, (omega arith, (omega arith, (tt, tt))))))
