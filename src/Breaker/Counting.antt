-- ===== src/Breaker/Counting.antt =====
-- How many failures open a breaker, how many successes close it, and how its waits grow.
use reddit_kafka.Base.{
  ℕ, zero, suc, ◌+◌, ◌*◌, ◌≡◌, refl, ◌≤◌, ◌<◌, List, [], ◌∷◌, length, some, ◌∙◌, arith, min, max,
}
use reddit_kafka.Errors.{Foreign, Error, get_backoff_duration}
use reddit_kafka.Breaker.{
  Config, CircuitBreaker, closed, open_circuit, half_open, new_backoff, record_success,
  record_failure,
}

module _ (cfg : Config) where
  -- failures in a row, each with its time
  pub fail_all : {f : Foreign} → List (ℕ × Error f) → CircuitBreaker → CircuitBreaker
  fail_all [] b = b
  fail_all ((now, e) ∷ rest) b = fail_all rest (record_failure cfg now e b)

  pub succeed_all : ℕ → CircuitBreaker → CircuitBreaker
  succeed_all zero b = b
  succeed_all (suc n) b = succeed_all n (record_success cfg b)

  record_failure_tolerated :
      {f : Foreign} (now : ℕ) (e : Error f) (b : CircuitBreaker)
      → b.state ≡ closed
      → b.failure_count + 1 < cfg.failure_threshold
      → (record_failure cfg now e b).state ≡ closed
        × ((record_failure cfg now e b).backoff_seconds ≡ b.backoff_seconds)
        × ((record_failure cfg now e b).failure_count ≡ b.failure_count + 1)
  unfolding record_failure
  record_failure_tolerated now e b c h = ground arith

  -- Fewer failures in a row than are missing to the threshold leave a closed breaker closed, with
  -- the wait that it had and with each of them counted.
  pub fail_all_tolerated :
      {f : Foreign} (es : List (ℕ × Error f)) (b : CircuitBreaker)
      → b.state ≡ closed
      → b.failure_count + length es < cfg.failure_threshold
      → ((fail_all es b).state ≡ closed)
        × ((fail_all es b).backoff_seconds ≡ b.backoff_seconds)
        × ((fail_all es b).failure_count ≡ b.failure_count + length es)
  unfolding fail_all
  fail_all_tolerated [] b c h = (c, refl, omega arith)
  fail_all_tolerated ((now, e) ∷ rest) b c h =
      let step = record_failure_tolerated now e b c (omega arith) in
      ground (
        arith,
        fail_all_tolerated rest (record_failure cfg now e b) step.0 (omega (arith, step.2)),
        step,
      )

  record_failure_trips :
      {f : Foreign} (now : ℕ) (e : Error f) (b : CircuitBreaker)
      → b.state ≡ closed
      → cfg.failure_threshold ≤ b.failure_count + 1
      → (record_failure cfg now e b).state ≡ open_circuit
        × ((record_failure cfg now e b).last_failure_time ≡ some now)
        × ((record_failure cfg now e b).backoff_seconds
            ≡ new_backoff cfg (get_backoff_duration e) b)
  unfolding record_failure
  record_failure_trips now e b c h = ground arith

  -- The failure that reaches the threshold opens a closed breaker, counts the wait from its own
  -- time, and sets the wait to the capped larger one of the multiplied wait and the error's own.
  pub fail_all_trips :
      {f : Foreign} (es : List (ℕ × Error f)) (now : ℕ) (e : Error f) (b : CircuitBreaker)
      → b.state ≡ closed
      → b.failure_count + length es + 1 ≡ cfg.failure_threshold
      → let tripped = record_failure cfg now e (fail_all es b) in
        (tripped.state ≡ open_circuit)
        × (tripped.last_failure_time ≡ some now)
        × (tripped.backoff_seconds
            ≡ min
                (max (b.backoff_seconds * cfg.backoff_multiplier) (get_backoff_duration e))
                cfg.max_backoff)
  unfolding new_backoff
  fail_all_trips es now e b c h =
      let before = fail_all_tolerated es b c (omega arith) in
      let trip = record_failure_trips now e (fail_all es b) before.0 (omega (arith, before.2)) in
      (trip.0, trip.1, trip.2 ∙ rw before.1)

  record_success_counts :
      (b : CircuitBreaker)
      → b.state ≡ half_open
      → b.success_count + 1 < cfg.success_threshold
      → ((record_success cfg b).state ≡ half_open)
        × ((record_success cfg b).success_count ≡ b.success_count + 1)
        × ((record_success cfg b).backoff_seconds ≡ b.backoff_seconds)
  unfolding record_success
  record_success_counts b p h = ground arith

  -- A breaker that probes closes with the success that reaches its threshold: after the last of
  -- n + 1 successes, where that many were missing, it is closed with no failures counted and with
  -- the initial wait, and after the n before it it still probes with the wait that it had.
  pub succeed_all_recovers :
      (n : ℕ) (b : CircuitBreaker)
      → b.state ≡ half_open
      → b.success_count + n + 1 ≡ cfg.success_threshold
      → ((succeed_all n b).state ≡ half_open)
        × ((succeed_all n b).backoff_seconds ≡ b.backoff_seconds)
        × ((succeed_all (suc n) b).state ≡ closed)
        × ((succeed_all (suc n) b).failure_count ≡ 0)
        × ((succeed_all (suc n) b).backoff_seconds ≡ cfg.recovery_timeout)
  unfolding succeed_all record_success
  succeed_all_recovers zero b p h = ground arith
  succeed_all_recovers (suc n) b p h =
      let step = record_success_counts b p (omega arith) in
      ground
        (arith, succeed_all_recovers n (record_success cfg b) step.0 (omega (arith, step.1)), step)
