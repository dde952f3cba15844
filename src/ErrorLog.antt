-- ===== src/ErrorLog.antt =====
-- apps/reddit-kafka/src/stream/error_handler.py: the errors of a stream, newest first, in a Redis
-- list and in Postgres. The JSON text and the UUID of an entry are arguments, and entries are read
-- back as texts, without `json.loads`.
pub mod Bounds
mod Tests
use reddit_kafka.Base.{
  ℕ, ◌-◌, ◌==◌, Bool, Option, none, some, List, [], ◌∷◌, String, if◌then◌else◌, truthy,
}
use reddit_kafka.Redis.Keys.{errors_key}
use reddit_kafka.World.{Services, World, persist}

abbrev pub error_ttl : ℕ
error_ttl = 86_400

-- the last index of the entries that are kept
abbrev pub last_kept : ℕ
last_kept = 99

-- `limit - 1` as an index from the front; -1 is the end of the list
abbrev pub last_index : ℕ → Option ℕ
last_index limit = if limit == 0 then none else some (limit - 1)

-- `for e in error_strings if e`
abbrev pub only_truthy : List String → List String
only_truthy [] = []
only_truthy (e ∷ es) = let rest = only_truthy es in if truthy e then e ∷ rest else rest

module _ {S : Services} where
  unfoldable pub record_error :
      Bool → String → String → String → String → String → Bool → String → World S → World S
  record_error has_session_maker stream_id entry_id entry error_type message recoverable timestamp
        w =
      let pushed = S.lists.lpush w.lists (errors_key stream_id) entry in
      let trimmed = S.lists.ltrim pushed (errors_key stream_id) last_kept in
      let kept = S.lists.expire trimmed (errors_key stream_id) error_ttl in
      persist has_session_maker (record w { lists = kept })
        (S.postgres.insert_error entry_id stream_id error_type message
          (if recoverable then 1 else 0) timestamp)

  unfoldable pub get_error_count : String → World S → ℕ
  get_error_count stream_id w = S.lists.llen w.lists (errors_key stream_id)

  unfoldable pub clear_errors : String → World S → World S
  clear_errors stream_id w = record w { lists = S.lists.del w.lists (errors_key stream_id) }

  unfoldable pub get_recent_errors : String → ℕ → World S → List String
  get_recent_errors stream_id limit w =
      only_truthy (S.lists.lrange w.lists (errors_key stream_id) (last_index limit))
