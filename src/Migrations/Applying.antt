-- ===== src/Migrations/Applying.antt =====
-- `_apply_migration_files`, `_execute_sql_script`, and the transaction around them.
use Prim.Native.Char.{code}
use reddit_kafka.Base.{
  ℕ, ◌≡◌, Bool, true, ◌||◌, ◌&&◌, List, [], ◌∷◌, String, Option, none, some, Dict, lookup, str_eq,
  ◌==◌, leb, if◌then◌else◌,
}
use reddit_kafka.Migrations.Failures.{
  Exceptions, modified_migration, raised, Answer, done, failed, and_then, unless,
}

-- The database: the statements of the code, and the rows of `schema_migrations`, version and checksum,
-- which are none where there is no such table. An INSERT that succeeds adds its row.
pub record Database (x : Exceptions) : Type 1 where
  pub Db : Type 0
  pub rows : Db → Dict String
  pub create_schema_migrations : Db → Answer x Db
  pub execute : String → Db → Answer x Db
  pub insert : String → String → Db → Answer x Db
  pub rows-create :
      (before after : Db) → create_schema_migrations before ≡ done after → rows after ≡ rows before
  pub lookup-insert :
      (version checksum : String) (before after : Db) (v : String)
      → insert version checksum before ≡ done after
      → lookup v (rows after) ≡ (if str_eq version v then some checksum else lookup v (rows before))

-- `bytes.decode("utf-8")` and `hashlib.sha256(...).hexdigest()`
pub record Codec (x : Exceptions) : Type 0 where
  pub decode : List ℕ → Answer x String
  pub sha256 : List ℕ → String

-- A path of the directory, with what `read_bytes` answers.
pub record MigrationFile (x : Exceptions) : Type 0 where
  pub name : String
  pub read_bytes : Answer x (List ℕ)

-- What one attempt meets: whether `init_db` or the start of the transaction raises, the lock, the
-- SELECT, and the COMMIT, which may have reached the server all the same.
pub record Trial (x : Exceptions) : Type 0 where
  pub begin_raises : Option x.Exc
  pub lock_raises : Option x.Exc
  pub select_raises : Option x.Exc
  pub commit_raises : Option (x.Exc × Bool)

-- the white space of `str.strip`
abbrev is_space : ℕ → Bool
is_space c =
    (leb 9 c && leb c 13)
    || (leb 28 c && leb c 32)
    || c == 133
    || c == 160
    || c == 5760
    || (leb 8192 c && leb c 8202)
    || c == 8232
    || c == 8233
    || c == 8239
    || c == 8287
    || c == 12288

-- `not raw_sql.strip()`
unfoldable pub is_blank : String → Bool
is_blank String.[] = true
is_blank (String.◌∷◌ c s) = is_space (code c) && is_blank s

module _ {x : Exceptions} (db : Database x) (codec : Codec x) where
  unfoldable pub execute_sql_script : String → db.Db → Answer x db.Db
  unfolding is_blank
  execute_sql_script raw_sql d = if is_blank raw_sql then done d else db.execute raw_sql d

  -- a file whose version is pending, or has been applied with a checksum
  unfoldable pub apply_version : Option String → String → String → List ℕ → db.Db → Answer x db.Db
  unfolding execute_sql_script
  apply_version (some applied) version raw_sql raw_bytes d =
      if str_eq applied (codec.sha256 raw_bytes)
      then done d
      else failed (modified_migration version)
  apply_version none version raw_sql raw_bytes d =
      and_then (execute_sql_script raw_sql d) (λ d'. db.insert version (codec.sha256 raw_bytes) d')

  -- one turn of the loop; `applied` is what was selected before the loop
  unfoldable pub apply_file : Dict String → MigrationFile x → db.Db → Answer x db.Db
  unfolding apply_version
  apply_file applied file d = and_then file.read_bytes (λ raw_bytes.
      and_then (codec.decode raw_bytes)
        (λ raw_sql. apply_version (lookup file.name applied) file.name raw_sql raw_bytes d))

  unfoldable pub apply_files : Dict String → List (MigrationFile x) → db.Db → Answer x db.Db
  unfolding apply_file
  apply_files applied [] d = done d
  apply_files applied (file ∷ files) d =
      and_then (apply_file applied file d) (apply_files applied files)

  unfoldable pub apply_migration_files : Trial x → List (MigrationFile x) → db.Db → Answer x db.Db
  unfolding apply_files
  apply_migration_files a files d = and_then (unless a.lock_raises d) (λ locked.
      and_then (db.create_schema_migrations locked) (λ created.
        and_then (unless a.select_raises created)
          (λ selected. apply_files (db.rows selected) files selected)))

  -- the end of the transaction: what has raised is rolled back
  unfoldable pub end_transaction :
      Option (x.Exc × Bool) → db.Db → Answer x db.Db → db.Db × Answer x (Unit {0})
  end_transaction commit_raises d (failed e) = (d, failed e)
  end_transaction none d (done d') = (d', done tt)
  end_transaction (some (e, landed)) d (done d') = (if landed then d' else d, failed (raised e))

  -- `execute_migrations` of `run_migrations`
  unfoldable pub execute_migrations :
      Trial x → List (MigrationFile x) → db.Db → db.Db × Answer x (Unit {0})
  unfolding apply_migration_files end_transaction
  execute_migrations a files d =
      end_transaction a.commit_raises d
        (and_then (unless a.begin_raises d) (apply_migration_files a files))
