-- ===== src/Breaker.antt =====
-- apps/reddit-kafka/src/stream/circuit_breaker.py: the breaker around one worker's fetches.
-- Times are whole microseconds, as `datetime` keeps them; thresholds and waits are whole seconds.
-- The multiplier of every breaker that the program builds is the whole number 2.0, so `int(...)`
-- cuts nothing off. Metrics and log lines are left out.
pub mod Invariant
pub mod Waiting
pub mod Counting
mod Tests
use reddit_kafka.Base.{
  ℕ, ◌+◌, ◌-◌, ◌*◌, ◌/◌, Bool, true, false, Option, none, some, leb, if◌then◌else◌, min, max,
}
use reddit_kafka.Errors.{Foreign, Error, circuit_open_error, get_backoff_duration}

pub data CircuitState : Type 0 where
  closed open_circuit half_open : CircuitState

-- The arguments of the constructor.
pub record Config : Type 0 where
  pub failure_threshold : ℕ
  pub recovery_timeout : ℕ
  pub success_threshold : ℕ
  pub backoff_multiplier : ℕ
  pub max_backoff : ℕ

pub record CircuitBreaker : Type 0 where
  pub state : CircuitState
  pub failure_count : ℕ
  pub success_count : ℕ
  pub last_failure_time : Option ℕ
  pub backoff_seconds : ℕ

-- the defaults of `__init__`
abbrev pub default_config : Config
default_config = record {
  failure_threshold = 5;
  recovery_timeout = 60;
  success_threshold = 2;
  backoff_multiplier = 2;
  max_backoff = 3600;
}

abbrev pub microseconds : ℕ
microseconds = 1_000_000

-- `elapsed >= self.backoff_seconds`, also where the clock was set back
unfoldable pub should_attempt_reset : ℕ → CircuitBreaker → Bool
should_attempt_reset now b = elim b.last_failure_time [
  | none ↦ true
  | some t ↦ leb (t + b.backoff_seconds * microseconds) now
]

-- `max(0, math.ceil(self.backoff_seconds - elapsed))`
unfoldable pub time_until_retry : ℕ → CircuitBreaker → ℕ
time_until_retry now b = elim b.last_failure_time [
  | none ↦ 0
  | some t ↦ (t + b.backoff_seconds * microseconds - now + (microseconds - 1)) / microseconds
]

-- The first part of `call`: `some n` is `CircuitOpenError(n)`.
unfoldable pub admit : ℕ → CircuitBreaker → CircuitBreaker × Option ℕ
unfolding should_attempt_reset
admit now b = elim b.state [
  | open_circuit ↦
      if should_attempt_reset now b
      then (record b { state = half_open; success_count = 0 }, none)
      else (b, some (time_until_retry now b))
  | _ ↦ (b, none)
]

unfoldable pub is_open : CircuitBreaker → Bool
is_open b = elim b.state [ open_circuit ↦ true | _ ↦ false ]

-- How the wrapped coroutine ends; `except Exception` lets a cancellation pass.
pub data Ending (f : Foreign) : Type 0 where
  returned cancelled : Ending f
  raised : Error f → Ending f

module _ (cfg : Config) where
  unfoldable pub new_breaker : CircuitBreaker
  new_breaker = record {
    state = closed;
    failure_count = 0;
    success_count = 0;
    last_failure_time = none;
    backoff_seconds = cfg.recovery_timeout;
  }

  unfoldable pub record_success : CircuitBreaker → CircuitBreaker
  record_success b = elim b.state [
    | half_open ↦
        if leb cfg.success_threshold (b.success_count + 1)
        then record b {
          failure_count = 0;
          success_count = b.success_count + 1;
          state = closed;
          backoff_seconds = cfg.recovery_timeout;
        }
        else record b { failure_count = 0; success_count = b.success_count + 1 }
    | _ ↦ record b { failure_count = 0 }
  ]

  -- the wait of a circuit that opens, or opens again
  unfoldable pub new_backoff : ℕ → CircuitBreaker → ℕ
  new_backoff suggested b =
      min (max (b.backoff_seconds * cfg.backoff_multiplier) suggested) cfg.max_backoff

  reopen : ℕ → CircuitBreaker → CircuitBreaker
  unfolding new_backoff
  reopen suggested b = record b { backoff_seconds = new_backoff suggested b; state = open_circuit }

  -- `failed` has the count, the time and the cleared successes of this failure already
  failure_branch : ℕ → CircuitBreaker → CircuitBreaker
  unfolding reopen
  failure_branch suggested failed = elim failed.state [
    | half_open ↦ reopen suggested failed
    | _ ↦ if leb cfg.failure_threshold failed.failure_count then reopen suggested failed else failed
  ]

  unfoldable pub record_failure : {f : Foreign} → ℕ → Error f → CircuitBreaker → CircuitBreaker
  unfolding failure_branch
  record_failure now e b = failure_branch (get_backoff_duration e) (record b {
    failure_count = b.failure_count + 1;
    last_failure_time = some now;
    success_count = 0;
  })

  unfoldable pub reset : CircuitBreaker → CircuitBreaker
  reset b = record {
    state = closed;
    failure_count = 0;
    success_count = 0;
    last_failure_time = none;
    backoff_seconds = cfg.recovery_timeout;
  }

  -- The last part of `call`, at the time at which the coroutine ends.
  settle : {f : Foreign} → ℕ → Ending f → CircuitBreaker → CircuitBreaker
  unfolding record_success record_failure
  settle now returned b = record_success b
  settle now cancelled b = b
  settle now (raised e) b = record_failure now e b

  -- The whole of `call`. The coroutine may report success to the breaker while it runs, so it is a
  -- function of the breaker, which it returns with its ending and the time.
  unfoldable pub call :
      {f : Foreign}
      → ℕ
      → (CircuitBreaker → CircuitBreaker × ℕ × Ending f)
      → CircuitBreaker
      → CircuitBreaker × Ending f
  unfolding admit settle
  call now coro b =
      let (admitted, refusal) = admit now b in
      elim refusal [
        | some n ↦ (admitted, raised (circuit_open_error n))
        | none ↦ let (ran, later, ending) = coro admitted in (settle later ending ran, ending)
      ]
