-- ===== src/Errors/Strategy.antt =====
-- What the classification of errors amounts to.
use reddit_kafka.Base.{true, false, ◌≡◌, ◌⊎◌, arith}
use reddit_kafka.Errors.{
  Foreign, Error, abandon, sleep, reraise, is_retryable, get_backoff_duration, choose_recovery,
}

-- For every error: if it is recorded as recoverable, the worker sleeps for the recommended time
-- and goes on; if it is recorded as not recoverable, the worker abandons the stream or raises.
pub is_retryable_decides :
    {f : Foreign} (e : Error f)
    → (is_retryable e ≡ true → choose_recovery e ≡ sleep (get_backoff_duration e))
      × (is_retryable e ≡ false → (choose_recovery e ≡ abandon) ⊎ (choose_recovery e ≡ reraise))
unfolding choose_recovery is_retryable
is_retryable_decides e = ground arith
