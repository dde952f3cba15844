-- ===== src/Migrations/Waiting.antt =====
-- When the retries end, and how.
use reddit_kafka.Base.{
  ◌≡◌, ◌≢◌, refl, ℕ, zero, suc, ◌+◌, ◌*◌, ◌≤◌, ◌<◌, true, false, arith, Bool-cases, inl, inr, leb,
  leb→le,
}
use reddit_kafka.Migrations.Failures.{
  Exceptions, Answer, done, failed, is_retryable_migration_error,
}
use reddit_kafka.Migrations.Retrying.{
  max_migration_wait_seconds, migration_retry_delay_seconds, one_second, Retried, returned,
  reraised, timed_out, unfinished, Operation, conclude_attempt, after_sleep, retry, run_with_retry,
}

module _ {x : Exceptions} {A : Type 0} (operation : Operation x A) where
  retry_lem :
      (fuel deadline n now : ℕ) (a : A)
      → let now' = now + operation.took n in
        retry operation (suc fuel) deadline n now a
        ≡ conclude_attempt deadline now' (operation.call n a) (
            retry operation fuel deadline
              (n + 1)
              (after_sleep deadline now' (operation.overslept n))
              (operation.call n a).0)
  unfolding retry
  retry_lem fuel deadline n now a = refl

  conclude_attempt_ends :
      (deadline now : ℕ) (p : A × Answer x (Unit {0})) (rest : A × ℕ × Retried x)
      → (now < deadline → rest.2 ≢ unfinished)
      → (conclude_attempt deadline now p rest).2 ≢ unfinished
  unfolding conclude_attempt
  conclude_attempt_ends deadline now (a, done _) rest ends = λ e. cc
  conclude_attempt_ends deadline now (a, failed f) rest ends = λ e. ground arith

  retry_ends :
      (fuel deadline n now : ℕ) (a : A)
      → deadline ≤ now + fuel * (migration_retry_delay_seconds * one_second)
      → (retry operation (suc fuel) deadline n now a).2 ≢ unfinished
  unfolding after_sleep
  retry_ends zero deadline n now a enough = rw (retry_lem zero deadline n now a) (
      conclude_attempt_ends deadline (now + operation.took n) (operation.call n a) _
        (λ early. absurd (omega (arith, enough, early))))
  retry_ends (suc fuel) deadline n now a enough = rw (retry_lem (suc fuel) deadline n now a) (
      conclude_attempt_ends deadline (now + operation.took n) (operation.call n a) _
        (λ early. retry_ends fuel deadline (n + 1) _ _ (omega (arith, enough, early))))

  -- With fuel for 61 calls the retries end, however long the calls and the sleeps are, and whatever
  -- the operation does: the 600 seconds hold 60 pauses of 10 seconds at most, and a call that fails
  -- after them is the last.
  pub run_with_retry_ends :
      (fuel now : ℕ) (a : A) → 61 ≤ fuel → (run_with_retry fuel operation now a).2 ≢ unfinished
  unfolding run_with_retry
  run_with_retry_ends zero now a enough = absurd (omega (arith, enough))
  run_with_retry_ends (suc fuel) now a enough =
      retry_ends fuel (now + max_migration_wait_seconds * one_second) 0 now a
        (omega (arith, enough))

  -- What an ending says of the operation.
  abbrev pub Justified : ℕ → A × ℕ × Retried x → Type 0
  Justified deadline (a', now, returned) = (n : ℕ) × (a : A) × (operation.call n a ≡ (a', done tt))
  Justified deadline (a', now, reraised e) =
      (is_retryable_migration_error e ≡ false)
      × ((n : ℕ) × (a : A) × (operation.call n a ≡ (a', failed e)))
  Justified deadline (a', now, timed_out e) =
      (is_retryable_migration_error e ≡ true)
      × (deadline ≤ now)
      × ((n : ℕ) × (a : A) × (operation.call n a ≡ (a', failed e)))
  Justified deadline (a', now, unfinished) = Unit

  conclude_attempt-Justified :
      (deadline now n : ℕ) (a : A) (p : A × Answer x (Unit {0})) (rest : A × ℕ × Retried x)
      → operation.call n a ≡ p
      → Justified deadline rest
      → Justified deadline (conclude_attempt deadline now p rest)
  unfolding conclude_attempt
  conclude_attempt-Justified deadline now n a (a', done _) rest called later = (n, a, called)
  conclude_attempt-Justified deadline now n a (a', failed e) rest called later =
      elim (Bool-cases (is_retryable_migration_error e)) [
        | inl retryable ↦ elim (Bool-cases (leb deadline now)) [
          | inl late ↦ rw (retryable, late) (retryable, leb→le deadline now late, (n, a, called))
          | inr early ↦ rw (retryable, early) later
        ]
        | inr fatal ↦ rw fatal (fatal, (n, a, called))
      ]

  retry-Justified :
      (fuel deadline n now : ℕ) (a : A) → Justified deadline (retry operation fuel deadline n now a)
  retry-Justified zero deadline n now a = unfold retry in tt
  retry-Justified (suc fuel) deadline n now a = rw (retry_lem fuel deadline n now a) (
      conclude_attempt-Justified deadline (now + operation.took n) n a (operation.call n a) _ refl
        (retry-Justified fuel deadline (n + 1) _ _))

  -- The retries return only with the state that a successful call has left; they raise again only
  -- what a call has raised and is not retryable; and they time out only with a retryable failure,
  -- no earlier than 600 seconds after the start. In each case the state is the one that this call
  -- has left.
  pub run_with_retry-Justified :
      (fuel now : ℕ) (a : A)
      → Justified
          (now + max_migration_wait_seconds * one_second)
          (run_with_retry fuel operation now a)
  unfolding run_with_retry
  run_with_retry-Justified fuel now a = retry-Justified fuel _ 0 now a
