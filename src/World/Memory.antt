-- ===== src/World/Memory.antt =====
-- Services in memory, for concrete inputs.
use reddit_kafka.Base.{
  ◌≡◌, refl, arith, Option, lookup, Bool, true, false, some, none, List, [], ◌∷◌, String, Dict,
  if◌then◌else◌,
}
use reddit_kafka.Errors.{Foreign, ForeignClass, too_many_requests}
use reddit_kafka.Redis.Keys.{key_eq, meta_key, subreddit_key, all_streams_key}
use reddit_kafka.Redis.Memory.{memory_strings, memory_hashes, memory_sets, memory_lists}
use reddit_kafka.World.{CheckpointRow, updated_row, Postgres, Services, World}

-- the streams that statements have named, and the checkpoints, both latest first
abbrev pub MemoryDb : Type 0
MemoryDb = List String × Dict CheckpointRow

abbrev pub named : String → MemoryDb → Option MemoryDb
named i (ids, rows) = some (i ∷ ids, rows)

abbrev pub push_all : Dict CheckpointRow → Dict CheckpointRow → Dict CheckpointRow
push_all [] rows = rows
push_all (r ∷ rs) rows = push_all rs (r ∷ rows)

lookup-push_all :
    (rs rows : Dict CheckpointRow) (i : String)
    → lookup i (push_all rs rows) ≡ updated_row i rs (lookup i rows)
lookup-push_all [] rows i = refl
lookup-push_all (r ∷ rs) rows i = lookup-push_all rs (r ∷ rows) i

pub memory_checkpoint-upsert_checkpoints :
    (rows : Dict CheckpointRow) (before after : MemoryDb) (i : String)
    → some (before.0, push_all rows before.1) ≡ some after
    → lookup i after.1 ≡ updated_row i rows (lookup i before.1)
memory_checkpoint-upsert_checkpoints rows before after i e =
    ground (arith, lookup-push_all rows before.1 i)

abbrev pub memory_postgres : Postgres
memory_postgres = record {
  Db = MemoryDb;
  insert_stream = λ i s st inst c db. named i db;
  update_status = λ st inst i db. named i db;
  update_status_if_owner = λ st i inst db. named i db;
  finish_stop = λ i db. named i db;
  insert_error = λ i s t m r ts db. named s db;
  checkpoint = λ db i. lookup i db.1;
  upsert_checkpoints = λ rows db. some (db.0, push_all rows db.1);
  checkpoint-upsert_checkpoints = memory_checkpoint-upsert_checkpoints;
}

abbrev pub memory : Services
memory = record {
  strings = memory_strings;
  hashes = memory_hashes;
  sets = memory_sets;
  lists = memory_lists;
  postgres = memory_postgres;
}

abbrev pub empty_world : World memory
empty_world = record {
  strings = λ _. none;
  hashes = λ _. [];
  sets = λ _. [];
  lists = λ _. [];
  db = ([], []);
}

-- exceptions of one kind, HTTP 429
abbrev pub is_too_many_requests : Unit {0} → ForeignClass → Bool
is_too_many_requests _ too_many_requests = true
is_too_many_requests _ _ = false

abbrev pub rate_limits : Foreign
rate_limits = record { Exc = Unit {0}; isinstance = is_too_many_requests }

-- one stream of the subreddit "python", owned by the instance "one"
abbrev pub python_meta : Dict String
python_meta =
    ("id", "s1")
    ∷ ("subreddit", "python")
    ∷ ("status", "stopping")
    ∷ ("instance_id", "one")
    ∷ ("updated_at", "t0")
    ∷ []

abbrev pub python_world : World memory
python_world = record empty_world {
  strings = λ k. if key_eq k (subreddit_key "python") then some ("s1", none) else none;
  hashes = λ k. if key_eq k (meta_key "s1") then python_meta else [];
  sets = λ k. if key_eq k all_streams_key then "s1" ∷ [] else [];
}
