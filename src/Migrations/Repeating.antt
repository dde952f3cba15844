-- ===== src/Migrations/Repeating.antt =====
-- Migrations that have been applied: run again, and after a file has been modified.
use reddit_kafka.Base.{
  ◌≡◌, refl, ap, ◌∙◌, ℕ, Bool, false, List, [], ◌∷◌, ◌++◌, Option, none, some, String, Dict, lookup,
  All, str_eq, str_eq_refl,
}
use reddit_kafka.Migrations.Failures.{
  Exceptions, Failure, modified_migration, Answer, done, failed, and_then, unless,
}
use reddit_kafka.Migrations.Applying.{
  Database, Codec, MigrationFile, Trial, apply_version, apply_file, apply_files,
  apply_migration_files, end_transaction, execute_migrations,
}
use reddit_kafka.Migrations.Recorded.{and_then_done, done_injective, refused_done, IsRecorded}
use reddit_kafka.Migrations.Running.{unless_done, apply_migration_files_done}

module _ {x : Exceptions} (db : Database x) (codec : Codec x) where
  apply_file-recorded :
      (file : MigrationFile x) (applied : Dict String) (d : db.Db) (bytes : List ℕ) (sql : String)
      → file.read_bytes ≡ done bytes
      → codec.decode bytes ≡ done sql
      → lookup file.name applied ≡ some (codec.sha256 bytes)
      → apply_file db codec applied file d ≡ done d
  unfolding apply_file apply_version
  apply_file-recorded file applied d bytes sql read decoded row =
      rw (read, decoded, row, str_eq_refl (codec.sha256 bytes)) refl

  apply_files-recorded :
      (files : List (MigrationFile x)) (recorded start : db.Db)
      → All (IsRecorded db codec recorded) files
      → apply_files db codec (db.rows recorded) files start ≡ done start
  unfolding apply_files
  apply_files-recorded [] recorded start all = refl
  apply_files-recorded (file ∷ files) recorded start ((bytes, sql, read, decoded, row), all) =
      rw (apply_file-recorded file (db.rows recorded) start bytes sql read decoded row)
        (apply_files-recorded files recorded start all)

  -- Where every file has its row, and neither the lock nor the SELECT nor the CREATE raises, the
  -- migrations are applied again without running a script or inserting a row: the database is the one
  -- that CREATE TABLE IF NOT EXISTS leaves.
  pub apply_migration_files_again :
      (a : Trial x) (files : List (MigrationFile x)) (d d' : db.Db)
      → a.lock_raises ≡ none
      → a.select_raises ≡ none
      → db.create_schema_migrations d ≡ done d'
      → All (IsRecorded db codec d) files
      → apply_migration_files db codec a files d ≡ done d'
  unfolding apply_migration_files
  apply_migration_files_again a files d d' locks selects creates all =
      rw (locks, creates, selects)
        (ap (λ rows. apply_files db codec rows files d') (db.rows-create d d' creates)
          ∙ apply_files-recorded files d d' all)

  -- the file can be read, and its row has another checksum
  abbrev pub IsModified : db.Db → MigrationFile x → Type 0
  IsModified d file =
      (bytes : List ℕ) × (stored : String) × (file.read_bytes ≡ done bytes)
      × (lookup file.name (db.rows d) ≡ some stored)
      × (str_eq stored (codec.sha256 bytes) ≡ false)

  modified_refused :
      (file : MigrationFile x) (d start after : db.Db)
      → IsModified d file
      → apply_file db codec (db.rows d) file start ≡ done after
      → ⊥
  unfolding apply_file apply_version
  modified_refused file d start after (bytes, stored, read, row, differs) e =
      let (bytes', read', e1) = and_then_done file.read_bytes _ after e in
      let (sql, decoded, e2) = and_then_done (codec.decode bytes') _ after e1 in
      let same = done_injective bytes' bytes _ read' read in
      refused_done (modified_migration file.name) after _ (rw (row, same, differs) refl) e2

  modified_among :
      (earlier later : List (MigrationFile x)) (file : MigrationFile x) (d start after : db.Db)
      → IsModified d file
      → apply_files db codec (db.rows d) (earlier ++ file ∷ later) start ≡ done after
      → ⊥
  unfolding apply_files
  modified_among [] later file d start after modified e =
      let (mid, first, others) =
        and_then_done (apply_file db codec (db.rows d) file start)
          (apply_files db codec (db.rows d) later) after e in
      modified_refused file d start mid modified first
  modified_among (other ∷ earlier) later file d start after modified e =
      let (mid, first, others) =
        and_then_done (apply_file db codec (db.rows d) other start)
          (apply_files db codec (db.rows d) (earlier ++ file ∷ later)) after e in
      modified_among earlier later file d mid after modified others

  attempt_refused :
      (a : Trial x) (earlier later : List (MigrationFile x)) (file : MigrationFile x)
      (d after : db.Db)
      → IsModified d file
      → and_then
          (unless {x = x} a.begin_raises d)
          (apply_migration_files db codec a (earlier ++ file ∷ later))
        ≡ done after
      → ⊥
  attempt_refused a earlier later file d after (bytes, stored, read, row, differs) e =
      let files = earlier ++ file ∷ later in
      let (begun, begins, e1) = and_then_done (unless {x = x} a.begin_raises d) _ after e in
      let (start, same, e2) = apply_migration_files_done db codec a files begun after e1 in
      let rows = same ∙ ap db.rows (unless_done a.begin_raises d begun begins) in
      modified_among earlier later file start start after
        (bytes, stored, read, ap (lookup file.name) rows ∙ row, differs) e2

  end_transaction_rolls :
      (commit_raises : Option (x.Exc × Bool)) (d : db.Db) (o : Answer x db.Db)
      → ((after : db.Db) → o ≡ done after → ⊥)
      → (e : Failure x) × (end_transaction db codec commit_raises d o ≡ (d, failed e))
  unfolding end_transaction
  end_transaction_rolls commit_raises d (failed e) never = (e, refl)
  end_transaction_rolls commit_raises d (done after) never = absurd (never after refl)

  -- Where one file, wherever it stands, has been modified since it was applied, an attempt fails and
  -- leaves the database as it was, without the migrations that it has run before that file.
  pub execute_migrations-modified :
      (a : Trial x) (earlier later : List (MigrationFile x)) (file : MigrationFile x) (d : db.Db)
      → IsModified d file
      → (e : Failure x) × (execute_migrations db codec a (earlier ++ file ∷ later) d
          ≡ (d, failed e))
  unfolding execute_migrations
  execute_migrations-modified a earlier later file d modified =
      end_transaction_rolls a.commit_raises d _
        (λ after e. attempt_refused a earlier later file d after modified e)
