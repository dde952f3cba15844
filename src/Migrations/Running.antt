-- ===== src/Migrations/Running.antt =====
-- What an attempt, and the attempts together, leave in the database.
use reddit_kafka.Base.{◌≡◌, refl, ap, ◌∙◌, ℕ, Bool, List, Option, none, some, All}
use reddit_kafka.Migrations.Failures.{Exceptions, raised, Answer, done, failed, unless}
use reddit_kafka.Migrations.Applying.{
  Database, Codec, MigrationFile, Trial, apply_files, apply_migration_files, end_transaction,
  execute_migrations,
}
use reddit_kafka.Migrations.Retrying.{
  Retried, returned, reraised, timed_out, unfinished, Operation, Trials, operation_of,
  run_migrations,
}
use reddit_kafka.Migrations.Waiting.{Justified, run_with_retry-Justified}
use reddit_kafka.Migrations.Recorded.{
  and_then_done, done_injective, refused_done, IsDistinct, IsTidy, IsRecorded, apply_files_lem,
}

module _ {x : Exceptions} where
  pub unless_done :
      {A : Type 0} (raises : Option x.Exc) (a b : A) → unless {x = x} raises a ≡ done b → b ≡ a
  unless_done none a b e = done_injective b a _ e refl
  unless_done (some r) a b e = absurd (refused_done (raised r) b _ refl e)

module _ {x : Exceptions} (db : Database x) (codec : Codec x) where
  end_transaction_done :
      (commit_raises : Option (x.Exc × Bool)) (d d' : db.Db) (o : Answer x db.Db)
      → end_transaction db codec commit_raises d o ≡ (d', done tt)
      → o ≡ done d'
  unfolding end_transaction
  end_transaction_done none d d' (done a) e =
      ap done (ap (λ (p : db.Db × Answer x (Unit {0})). p.0) e)
  end_transaction_done (some (r, landed)) d d' (done a) e =
      absurd (refused_done (raised r) tt _ refl (ap (λ (p : db.Db × Answer x (Unit {0})). p.1) e))
  end_transaction_done none d d' (failed f) e =
      absurd (refused_done f tt _ refl (ap (λ (p : db.Db × Answer x (Unit {0})). p.1) e))
  end_transaction_done (some (r, landed)) d d' (failed f) e =
      absurd (refused_done f tt _ refl (ap (λ (p : db.Db × Answer x (Unit {0})). p.1) e))

  -- the loop starts from the rows that there were
  pub apply_migration_files_done :
      (a : Trial x) (files : List (MigrationFile x)) (d d' : db.Db)
      → apply_migration_files db codec a files d ≡ done d'
      → (start : db.Db) × (db.rows start ≡ db.rows d)
        × (apply_files db codec (db.rows start) files start ≡ done d')
  unfolding apply_migration_files
  apply_migration_files_done a files d d' e =
      let (locked, lock, e1) = and_then_done (unless {x = x} a.lock_raises d) _ d' e in
      let (created, creation, e2) = and_then_done (db.create_schema_migrations locked) _ d' e1 in
      let (start, selection, e3) = and_then_done (unless {x = x} a.select_raises created) _ d' e2 in
      (
        start,
        ap db.rows (unless_done a.select_raises created start selection)
            ∙ db.rows-create locked created creation
            ∙ ap db.rows (unless_done a.lock_raises d locked lock),
        e3,
      )

  -- an attempt that succeeds has recorded each file
  execute_migrations_records :
      (a : Trial x) (files : List (MigrationFile x)) (d d' : db.Db)
      → IsDistinct files
      → All (IsTidy db codec) files
      → execute_migrations db codec a files d ≡ (d', done tt)
      → All (IsRecorded db codec d') files
  unfolding execute_migrations
  execute_migrations_records a files d d' distinct tidy e =
      let inner = end_transaction_done a.commit_raises d d' _ e in
      let (begun, begins, e1) = and_then_done (unless {x = x} a.begin_raises d) _ d' inner in
      let (start, same, e2) = apply_migration_files_done a files begun d' e1 in
      (apply_files_lem db codec (db.rows start) files start d' distinct tidy (λ v _. refl) e2).0

  ending_returned :
      {A : Type 0} (operation : Operation x A) (deadline : ℕ) (p : A × ℕ × Retried x)
      → p.2 ≡ returned
      → Justified operation deadline p
      → (n : ℕ) × (a : A) × (operation.call n a ≡ (p.0, done tt))
  ending_returned operation deadline (a, now, returned) e j = j
  ending_returned operation deadline (a, now, reraised f) e j = absurd cc
  ending_returned operation deadline (a, now, timed_out f) e j = absurd cc
  ending_returned operation deadline (a, now, unfinished) e j = absurd cc

  -- If no two files have one name and no script writes to `schema_migrations`: when the migrations
  -- return, whatever the attempts before met and whatever others did between them, the database has
  -- a row for each file, which can be read, with the checksum of what it holds.
  pub run_migrations_records :
      (fuel : ℕ) (env : Trials x db.Db) (files : List (MigrationFile x)) (now : ℕ) (d : db.Db)
      → IsDistinct files
      → All (IsTidy db codec) files
      → (run_migrations db codec fuel env files now d).2 ≡ returned
      → All (IsRecorded db codec (run_migrations db codec fuel env files now d).0) files
  unfolding run_migrations
  run_migrations_records fuel env files now d distinct tidy e =
      let operation = operation_of db codec env files in
      let (n, before, called) =
        ending_returned operation _ _ e (run_with_retry-Justified operation fuel now d) in
      execute_migrations_records (env.attempt n) files (env.others n before) _ distinct tidy called
