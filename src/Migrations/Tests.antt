-- ===== src/Migrations/Tests.antt =====
-- Migrations of a database in memory, whose rows and scripts are lists.
use reddit_kafka.Base.{
  ◌≡◌, ◌≢◌, refl, ap, ℕ, zero, suc, true, List, [], ◌∷◌, ◌++◌, none, some, String, Dict, lookup,
  All, str_eq, if◌then◌else◌, arith, ◌+◌, ◌*◌,
}
use reddit_kafka.Migrations.Failures.{
  is_retryable_migration_error, Exceptions, Failure, Answer, done, failed,
}
use reddit_kafka.Migrations.Applying.{Database, Codec, MigrationFile, Trial, execute_migrations}
use reddit_kafka.Migrations.Retrying.{
  max_migration_wait_seconds, one_second, returned, unfinished, Operation, Trials, operation_of,
  run_with_retry, run_migrations,
}
use reddit_kafka.Migrations.Waiting.{Justified, run_with_retry_ends, run_with_retry-Justified}
use reddit_kafka.Migrations.Recorded.{IsRecorded, done_injective}
use reddit_kafka.Migrations.Running.{run_migrations_records}
use reddit_kafka.Migrations.Repeating.{execute_migrations-modified}

-- a connection error, the only exception
abbrev connections : Exceptions
connections = record {
  Exc = Unit {0};
  isinstance = λ _ _. true;
  str = λ _. "connection refused";
  lower = λ s. s;
}

abbrev MemoryTables : Type 0
MemoryTables = Dict String × List String

abbrev memory_create : MemoryTables → Answer connections MemoryTables
memory_create tables = done tables

abbrev memory_insert : String → String → MemoryTables → Answer connections MemoryTables
memory_insert version checksum tables = done ((version, checksum) ∷ tables.0, tables.1)

abbrev memory_execute : String → MemoryTables → Answer connections MemoryTables
memory_execute sql tables = done (tables.0, sql ∷ tables.1)

rows-memory_create :
    (before after : MemoryTables) → memory_create before ≡ done after → after.0 ≡ before.0
rows-memory_create before after e =
    ap (λ (t : MemoryTables). t.0) (done_injective after before (memory_create before) e refl)

lookup-memory_insert :
    (version checksum : String) (before after : MemoryTables) (v : String)
    → memory_insert version checksum before ≡ done after
    → lookup v after.0 ≡ (if str_eq version v then some checksum else lookup v before.0)
lookup-memory_insert version checksum before after v e =
    ap (λ (t : MemoryTables). lookup v t.0)
      (done_injective after ((version, checksum) ∷ before.0, before.1)
        (memory_insert version checksum before) e refl)

abbrev memory_tables : Database connections
memory_tables = record {
  Db = MemoryTables;
  rows = λ tables. tables.0;
  create_schema_migrations = memory_create;
  execute = memory_execute;
  insert = memory_insert;
  rows-create = rows-memory_create;
  lookup-insert = lookup-memory_insert;
}

-- one checksum for the empty file, another for all else
abbrev digest : List ℕ → String
digest [] = "e3"
digest (_ ∷ _) = "1f"

abbrev one_text : Codec connections
one_text = record { decode = λ _. done "CREATE TABLE streams ()"; sha256 = digest }

abbrev first : MigrationFile connections
first = record { name = "001_initial_schema.sql"; read_bytes = done (35 ∷ []) }

abbrev smooth : Trial connections
smooth = record {
  begin_raises = none;
  lock_raises = none;
  select_raises = none;
  commit_raises = none;
}

abbrev refused_once : ℕ → Trial connections
refused_once zero = record smooth { begin_raises = some tt }
refused_once (suc _) = smooth

-- the first attempt is refused
abbrev attempts : Trials connections MemoryTables
attempts = record {
  attempt = refused_once;
  others = λ _ tables. tables;
  took = λ _. 1000;
  overslept = λ _. 0;
}

run_migrations_records_example :
    All
      (IsRecorded memory_tables one_text
        (run_migrations memory_tables one_text 61 attempts (first ∷ []) 0 ([], [])).0)
      (first ∷ [])
unfolding run_migrations execute_migrations is_retryable_migration_error
run_migrations_records_example =
    run_migrations_records memory_tables one_text 61 attempts (first ∷ []) 0 ([], []) (refl, tt)
      (
        (λ bytes sql before after read decoded e.
            ap (λ (t : MemoryTables). t.0)
              (done_injective after (before.0, sql ∷ before.1) (memory_execute sql before) e refl)),
        tt,
      )
      refl

-- the second attempt succeeds, after a pause of ten seconds
second_attempt : run_migrations memory_tables one_text 61 attempts (first ∷ []) 0 ([], []) ≡ (
  (("001_initial_schema.sql", "1f") ∷ [], "CREATE TABLE streams ()" ∷ []),
  10_002_000,
  returned,
)
unfolding run_migrations execute_migrations is_retryable_migration_error
second_attempt = refl

abbrev operation : Operation connections MemoryTables
operation = operation_of memory_tables one_text attempts (first ∷ [])

run_with_retry_ends_example : (run_with_retry 61 operation 0 ([], [])).2 ≢ unfinished
run_with_retry_ends_example = run_with_retry_ends operation 61 0 ([], []) (omega arith)

run_with_retry-Justified_example :
    Justified operation
      (0 + max_migration_wait_seconds * one_second)
      (run_with_retry 61 operation 0 ([], []))
run_with_retry-Justified_example = run_with_retry-Justified operation 61 0 ([], [])

abbrev migrated : MemoryTables
migrated = (("001_initial_schema.sql", "1f") ∷ [], [])

-- the file is empty now
abbrev emptied : MigrationFile connections
emptied = record { name = "001_initial_schema.sql"; read_bytes = done [] }

execute_migrations-modified_example :
    (e : Failure connections) × (execute_migrations memory_tables one_text smooth
        ([] ++ emptied ∷ [])
        migrated
      ≡ (migrated, failed e))
execute_migrations-modified_example =
    execute_migrations-modified memory_tables one_text smooth [] [] emptied migrated
      ([], "1f", refl, refl, refl)
