-- ===== src/Breaker/Tests.antt =====
-- The breaker of apps/reddit-kafka/src/stream/circuit_breaker.py at concrete inputs.
use reddit_kafka.Base.{ℕ, ◌≡◌, refl, none, some, List, [], ◌∷◌}
use reddit_kafka.Errors.{Error, foreign, runtime_error}
use reddit_kafka.World.Memory.{rate_limits}
use reddit_kafka.Breaker.{
  CircuitBreaker, closed, open_circuit, half_open, default_config, new_breaker, admit,
  time_until_retry, call, Ending, raised,
}
use reddit_kafka.Breaker.Invariant.{
  IsSane, default_config-IsUsable, new_breaker-IsSane, call-IsSane,
}

abbrev limited : Error rate_limits
limited = foreign tt

-- a fetch that is rate limited a second after it began
abbrev limited_fetch : CircuitBreaker → CircuitBreaker × ℕ × Ending rate_limits
limited_fetch b = (b, 1_000_000, raised limited)

call-IsSane_example :
    IsSane default_config (call default_config 0 limited_fetch (new_breaker default_config)).0
call-IsSane_example =
    call-IsSane default_config default_config-IsUsable 0 limited_fetch (new_breaker default_config)
      (λ c h. h) (new_breaker-IsSane default_config default_config-IsUsable)

-- open since the time 0, for 120 seconds
abbrev tripped : CircuitBreaker
tripped = record {
  state = open_circuit;
  failure_count = 5;
  success_count = 0;
  last_failure_time = some 0;
  backoff_seconds = 120;
}

abbrev probing : CircuitBreaker
probing = record tripped { state = half_open }

abbrev untouched : CircuitBreaker
untouched = record {
  state = closed;
  failure_count = 0;
  success_count = 0;
  last_failure_time = none;
  backoff_seconds = 60;
}

refuses : (admit 1_500_000 tripped).1 ≡ some 119
unfolding admit time_until_retry
refuses = refl

abbrev four : List (ℕ × Error rate_limits)
four = (1, limited) ∷ (2, runtime_error) ∷ (3, limited) ∷ (4, runtime_error) ∷ []
