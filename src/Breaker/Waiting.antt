-- ===== src/Breaker/Waiting.antt =====
-- How long an open breaker refuses calls.
use reddit_kafka.Base.{ℕ, ◌+◌, ◌*◌, ◌≡◌, ◌<◌, some, none, arith}
use reddit_kafka.Breaker.{
  CircuitBreaker, open_circuit, half_open, microseconds, time_until_retry, admit,
}

-- An open breaker that refuses a call at `now` names a wait of n seconds: it is at least one, a
-- call n seconds later is let through as a probe, and one a whole second earlier is refused.
pub admit_refusal_exact :
    (now n : ℕ) (b : CircuitBreaker)
    → (admit now b).1 ≡ some n
    → (0 < n)
      × ((admit (now + n * microseconds) b).1 ≡ none)
      × ((admit (now + n * microseconds) b).0 ≡ record b { state = half_open; success_count = 0 })
      × ((m : ℕ) → m < n → ((admit (now + m * microseconds) b).1 ≡ none) → ⊥)
unfolding admit time_until_retry
admit_refusal_exact now n b h = (ground arith, ground arith, ground arith, λ m lt e. ground arith)

-- A breaker that is not open lets every call through and stays as it is.
pub admit_unopened :
    (now : ℕ) (b : CircuitBreaker) → (b.state ≡ open_circuit → ⊥) → admit now b ≡ (b, none)
unfolding admit
admit_unopened now b h = ground arith
