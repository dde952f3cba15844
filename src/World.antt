-- ===== src/World.antt =====
-- The services that the program talks to, and their common state. Postgres is a parameter as Redis
-- is: a statement gives the next database, or raises.
pub mod Memory
use reddit_kafka.Base.{
  arith, ◌≡◌, ℕ, Bool, true, false, Option, none, some, String, List, [], ◌∷◌, str_eq,
  if◌then◌else◌,
}
use reddit_kafka.Redis.{Strings, Hashes, Sets, Lists}

-- `last_comment_id` and `last_processed_at` of a row of `stream_checkpoints`.
abbrev pub CheckpointRow : Type 0
CheckpointRow = Option String × Option String

-- What is stored for a stream after some rows have been upserted, one after the other.
abbrev pub updated_row :
    String → List (String × CheckpointRow) → Option CheckpointRow → Option CheckpointRow
updated_row i [] old = old
updated_row i ((j, row) ∷ rows) old = updated_row i rows (if str_eq j i then some row else old)

-- The statements of apps/reddit-kafka/src/repositories/stream_registry.py,
-- apps/reddit-kafka/src/tasks/checkpoint_flusher.py and apps/reddit-kafka/src/stream/error_handler.py, with
-- their parameters in the order of the source, and the rows of `stream_checkpoints`, by stream.
pub record Postgres : Type 1 where
  pub Db : Type 0
  pub insert_stream : String → String → String → Option String → String → Db → Option Db
  pub update_status : String → Option String → String → Db → Option Db
  pub update_status_if_owner : String → String → String → Db → Option Db
  pub finish_stop : String → Db → Option Db
  pub insert_error : String → String → String → String → ℕ → String → Db → Option Db
  pub checkpoint : Db → String → Option CheckpointRow
  pub upsert_checkpoints : List (String × CheckpointRow) → Db → Option Db
  pub checkpoint-upsert_checkpoints :
      (rows : List (String × CheckpointRow)) (before after : Db) (i : String)
      → upsert_checkpoints rows before ≡ some after
      → checkpoint after i ≡ updated_row i rows (checkpoint before i)

pub record Services : Type 1 where
  pub strings : Strings
  pub hashes : Hashes
  pub sets : Sets
  pub lists : Lists
  pub postgres : Postgres

pub record World (S : Services) : Type 0 where
  pub strings : S.strings.Store
  pub hashes : S.hashes.Store
  pub sets : S.sets.Store
  pub lists : S.lists.Store
  pub db : S.postgres.Db

module _ {S : Services} where
  -- A statement whose failure is logged and swallowed; with no session maker it is skipped.
  abbrev pub persist : Bool → World S → (S.postgres.Db → Option S.postgres.Db) → World S
  persist has_session_maker w statement =
      if has_session_maker
      then elim (statement w.db) [ none ↦ w | some db ↦ record w { db = db } ]
      else w

-- A statement changes the database only.
module _ {S : Services} (has : Bool) (w : World S)
    (statement : S.postgres.Db → Option S.postgres.Db) where
  pub strings-persist : (persist has w statement).strings ≡ w.strings
  strings-persist = ground arith

  pub hashes-persist : (persist has w statement).hashes ≡ w.hashes
  hashes-persist = ground arith

  pub sets-persist : (persist has w statement).sets ≡ w.sets
  sets-persist = ground arith
