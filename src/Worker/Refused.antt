-- ===== src/Worker/Refused.antt =====
-- A pass of the worker's loop while its breaker is open.
use reddit_kafka.Base.{
  ◌≡◌, refl, ap, ◌∙◌, ℕ, ◌+◌, ◌*◌, Bool, false, Option, none, some, String, arith, if◌then◌else◌,
}
use reddit_kafka.Errors.{
  Foreign, Error, circuit_open_error, choose_recovery, get_backoff_duration, sleep,
}
use reddit_kafka.World.{Services, World}
use reddit_kafka.Breaker.{Config, CircuitBreaker, Ending, raised, admit, call, microseconds}
use reddit_kafka.Breaker.Waiting.{admit_refusal_exact}
use reddit_kafka.Worker.Session.{Fetch}
use reddit_kafka.Worker.Control.{Identity, LogEntry, Handled, raises, slept, handle_error, recover}
use reddit_kafka.Worker.Loop.{
  Pass, looping, loop_cancelled, coroutine, settle_fetch, guarded_fetch, after_error, recover_fetch,
  pass_once,
}

admit_refused :
    (now n : ℕ) (b : CircuitBreaker) → (admit now b).1 ≡ some n → admit now b ≡ (b, some n)
unfolding admit
admit_refused now n b e = ground arith

module _ {f : Foreign} (cfg : Config) where
  call_refused :
      (now n : ℕ) (coro : CircuitBreaker → CircuitBreaker × ℕ × Ending f) (b : CircuitBreaker)
      → (admit now b).1 ≡ some n
      → call cfg now coro b ≡ (b, raised (circuit_open_error n))
  unfolding call
  call_refused now n coro b e =
      rw (e, call)
        (ap {B = CircuitBreaker × Ending f}
          (λ (a : CircuitBreaker × Option ℕ). (a.0, raised (circuit_open_error n)))
          (admit_refused now n b e))

-- `CircuitOpenError(n)`
abbrev pub open_error : (f : Foreign) → ℕ → Error f
open_error f n = circuit_open_error n

open_sleeps : (f : Foreign) (n : ℕ) → choose_recovery (open_error f n) ≡ sleep n
unfolding choose_recovery get_backoff_duration
open_sleeps f n = refl

module _ {S : Services} (me : Identity) where
  handle_open :
      (f : Foreign) (n : ℕ) (log : LogEntry) (now : String) (w : World S)
      → (handle_error me (open_error f n) log now w).1 ≡ slept n
  unfolding handle_error recover
  handle_open f n log now w = rw (open_sleeps f n) refl

module _ {S : Services} {f : Foreign} (cfg : Config) (me : Identity) where
  guarded_fetch-refused :
      (p : Pass S f) (s : Fetch S) (n : ℕ)
      → (admit p.asked_at s.breaker).1 ≡ some n
      → guarded_fetch cfg me p s ≡ (s, raised (open_error f n))
  unfolding guarded_fetch
  guarded_fetch-refused p s n e =
      rw (e, settle_fetch, call_refused cfg p.asked_at n (coroutine cfg me p s) s.breaker e) refl

  after_sleep_lem :
      (asleep : Bool) (e : Error f) (s : Fetch S) (n : ℕ) (r : World S × Handled)
      → r.1 ≡ slept n
      → after_error cfg me asleep e s r
        ≡ (record s { world = r.0 }, if asleep then loop_cancelled else looping)
  unfolding after_error
  after_sleep_lem asleep e s n (w, slept m) q = refl
  after_sleep_lem asleep e s n (w, raises) q = absurd cc

  pass_lem :
      (p : Pass S f) (s : Fetch S) (n : ℕ)
      → p.stop_event ≡ false
      → (admit p.asked_at s.breaker).1 ≡ some n
      → let s0 = record s { world = p.others s.world } in
        pass_once cfg me p s
        ≡ after_error cfg me p.cancelled_asleep
            (open_error f n)
            s0
            (handle_error me (open_error f n) p.log p.error_now (p.others s.world))
  unfolding pass_once recover_fetch
  pass_lem p s n runs refused =
      rw (runs, guarded_fetch-refused p (record s { world = p.others s.world }) n refused) refl

  -- A pass whose fetch the breaker refuses with a wait of n seconds consumes and publishes nothing: the
  -- account of deliveries and the breaker are as they were. It records the error and sleeps for n
  -- seconds, and does not leave the loop unless it is cancelled; n seconds after the refusal the
  -- breaker lets a fetch through.
  pub pass_once-refused :
      (p : Pass S f) (s : Fetch S) (n : ℕ)
      → p.stop_event ≡ false
      → (admit p.asked_at s.breaker).1 ≡ some n
      → let (s', out) = pass_once cfg me p s in
        (s'.progress ≡ s.progress)
        × (s'.breaker ≡ s.breaker)
        × (out ≡ (if p.cancelled_asleep then loop_cancelled else looping))
        × ((handle_error me (open_error f n) p.log p.error_now (p.others s.world)).1 ≡ slept n)
        × ((admit (p.asked_at + n * microseconds) s'.breaker).1 ≡ none)
  pass_once-refused p s n runs refused =
      let s0 = record s { world = p.others s.world } in
      let handled = handle_error me (open_error f n) p.log p.error_now (p.others s.world) in
      let slept_n = handle_open me f n p.log p.error_now (p.others s.world) in
      let e =
        pass_lem p s n runs refused
        ∙ after_sleep_lem p.cancelled_asleep (open_error f n) s0 n handled slept_n in
      rw e (refl, refl, refl, slept_n, (admit_refusal_exact p.asked_at n s.breaker refused).1)
