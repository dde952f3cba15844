-- ===== src/Breaker/Invariant.antt =====
-- What holds of a breaker between two operations.
use reddit_kafka.Base.{ℕ, ◌≡◌, ◌≢◌, ◌≤◌, ◌<◌, none, inl, inr, arith, Option-cases}
use reddit_kafka.Errors.{Foreign, Error}
use reddit_kafka.Breaker.{
  Config, default_config, CircuitBreaker, closed, open_circuit, half_open, new_breaker, admit,
  record_success, record_failure, reset, settle, call, Ending, returned, cancelled, raised,
}

-- The arguments that the breaker is meant for.
pub record IsUsable (cfg : Config) : Type 0 where
  pub some_failures : 0 < cfg.failure_threshold
  pub some_successes : 0 < cfg.success_threshold
  pub capped : cfg.recovery_timeout ≤ cfg.max_backoff
  pub growing : 0 < cfg.backoff_multiplier

pub record IsSane (cfg : Config) (b : CircuitBreaker) : Type 0 where
  pub at_least : cfg.recovery_timeout ≤ b.backoff_seconds
  pub at_most : b.backoff_seconds ≤ cfg.max_backoff
  pub calm : b.state ≡ closed → b.backoff_seconds ≡ cfg.recovery_timeout
  pub below_threshold : b.state ≡ closed → b.failure_count < cfg.failure_threshold
  pub still_probing : b.state ≡ half_open → b.success_count < cfg.success_threshold
  pub has_failed : b.state ≡ open_circuit → b.last_failure_time ≢ none

pub default_config-IsUsable : IsUsable default_config
default_config-IsUsable = record {
  some_failures = omega arith;
  some_successes = omega arith;
  capped = omega arith;
  growing = omega arith;
}

module _ (cfg : Config) (usable : IsUsable cfg) where
  pub new_breaker-IsSane : IsSane cfg (new_breaker cfg)
  unfolding new_breaker
  new_breaker-IsSane = ground arith

  pub admit-IsSane : (now : ℕ) (b : CircuitBreaker) → IsSane cfg b → IsSane cfg (admit now b).0
  unfolding admit
  admit-IsSane now b h = ground arith

  pub record_success-IsSane :
      (b : CircuitBreaker) → IsSane cfg b → IsSane cfg (record_success cfg b)
  unfolding record_success
  record_success-IsSane b h = ground arith

  pub record_failure-IsSane :
      {f : Foreign} (now : ℕ) (e : Error f) (b : CircuitBreaker)
      → IsSane cfg b
      → IsSane cfg (record_failure cfg now e b)
  unfolding record_failure
  record_failure-IsSane now e b h = grind arith

  pub reset-IsSane : (b : CircuitBreaker) → IsSane cfg (reset cfg b)
  unfolding reset
  reset-IsSane b = ground arith

  settle-IsSane :
      {f : Foreign} (now : ℕ) (ending : Ending f) (b : CircuitBreaker)
      → IsSane cfg b
      → IsSane cfg (settle cfg now ending b)
  unfolding settle
  settle-IsSane now returned b h = record_success-IsSane b h
  settle-IsSane now cancelled b h = h
  settle-IsSane now (raised e) b h = record_failure-IsSane now e b h

  -- For usable arguments (positive thresholds and multiplier, the initial wait at most the
  -- longest), a call keeps the invariant of the breaker if what the coroutine reports while it runs
  -- keeps it, whether the call is refused, returns, raises or is cancelled. The invariant: the wait
  -- lies between the initial and the longest one; a closed breaker has the initial wait and fewer
  -- failures than the threshold; a probing one has fewer successes than its threshold; an open one
  -- has a time of failure.
  pub call-IsSane :
      {f : Foreign} (now : ℕ) (coro : CircuitBreaker → CircuitBreaker × ℕ × Ending f)
      (b : CircuitBreaker)
      → ((c : CircuitBreaker) → IsSane cfg c → IsSane cfg (coro c).0)
      → IsSane cfg b
      → IsSane cfg (call cfg now coro b).0
  unfolding call
  call-IsSane now coro b keeps h = elim (Option-cases (admit now b).1) [
    | inr (n, e) ↦ rw (e, call) (admit-IsSane now b h)
    | inl e ↦
        rw (e, call)
          (settle-IsSane (coro (admit now b).0).1 (coro (admit now b).0).2 _
            (keeps _ (admit-IsSane now b h)))
  ]
