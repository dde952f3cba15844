-- ===== src/Migrations/Retrying.antt =====
-- `_run_with_retry` and `run_migrations`, at times in microseconds.
use reddit_kafka.Base.{ℕ, zero, suc, ◌+◌, ◌-◌, ◌*◌, min, List, if◌then◌else◌, leb}
use reddit_kafka.Migrations.Failures.{
  Exceptions, Failure, Answer, done, failed, is_retryable_migration_error,
}
use reddit_kafka.Migrations.Applying.{Database, Codec, MigrationFile, Trial, execute_migrations}

abbrev pub max_migration_wait_seconds : ℕ
max_migration_wait_seconds = 600

abbrev pub migration_retry_delay_seconds : ℕ
migration_retry_delay_seconds = 10

abbrev pub one_second : ℕ
one_second = 1_000_000

-- How the retries end: the operation has returned; what it raised is raised again, or a `TimeoutError`
-- from it; or the fuel is used up.
pub data Retried (x : Exceptions) : Type 0 where
  returned : Retried x
  reraised : Failure x → Retried x
  timed_out : Failure x → Retried x
  unfinished : Retried x

-- the time at which the sleep before a retry ends
unfoldable pub after_sleep : ℕ → ℕ → ℕ → ℕ
after_sleep deadline now overslept =
    now + min (migration_retry_delay_seconds * one_second) (deadline - now) + overslept

-- The operation, at its n-th call, on the state that it changes; how long that call takes, and how
-- much longer than asked the sleep after it is.
pub record Operation (x : Exceptions) (A : Type 0) : Type 0 where
  pub call : ℕ → A → A × Answer x (Unit {0})
  pub took : ℕ → ℕ
  pub overslept : ℕ → ℕ

module _ {x : Exceptions} {A : Type 0} where
  -- after a call: `now` is read from the clock, and `rest` is what a retry comes to
  unfoldable pub conclude_attempt :
      ℕ → ℕ → A × Answer x (Unit {0}) → A × ℕ × Retried x → A × ℕ × Retried x
  conclude_attempt deadline now (a, done _) rest = (a, now, returned)
  conclude_attempt deadline now (a, failed e) rest =
      if is_retryable_migration_error e
      then (if leb deadline now then (a, now, timed_out e) else rest)
      else (a, now, reraised e)

  -- the loop, from its n-th pass; the result is the state, the time and the ending
  unfoldable pub retry : Operation x A → ℕ → ℕ → ℕ → ℕ → A → A × ℕ × Retried x
  unfolding conclude_attempt after_sleep
  retry operation zero deadline n now a = (a, now, unfinished)
  retry operation (suc fuel) deadline n now a =
      let (a', outcome) = operation.call n a in
      let now' = now + operation.took n in
      let rest =
        retry operation fuel deadline (n + 1) (after_sleep deadline now' (operation.overslept n))
          a' in
      conclude_attempt deadline now' (a', outcome) rest

  unfoldable pub run_with_retry : ℕ → Operation x A → ℕ → A → A × ℕ × Retried x
  unfolding retry
  run_with_retry fuel operation now a =
      retry operation fuel (now + max_migration_wait_seconds * one_second) 0 now a

-- What the attempts of `run_migrations` meet: the n-th attempt, what others do to the database before
-- it, how long it takes, and how much longer the sleep after it is.
pub record Trials (x : Exceptions) (Db : Type 0) : Type 0 where
  pub attempt : ℕ → Trial x
  pub others : ℕ → Db → Db
  pub took : ℕ → ℕ
  pub overslept : ℕ → ℕ

module _ {x : Exceptions} (db : Database x) (codec : Codec x) where
  abbrev pub operation_of : Trials x db.Db → List (MigrationFile x) → Operation x db.Db
  operation_of env files = record {
    call = λ n d. execute_migrations db codec (env.attempt n) files (env.others n d);
    took = env.took;
    overslept = env.overslept;
  }

  unfoldable pub run_migrations :
      ℕ → Trials x db.Db → List (MigrationFile x) → ℕ → db.Db → db.Db × ℕ × Retried x
  unfolding run_with_retry
  run_migrations fuel env files now d = run_with_retry fuel (operation_of env files) now d
