-- ===== src/Migrations/Failures.antt =====
-- What a migration raises, and `_is_retryable_migration_error`.
use Prim.Native.Char.{code}
use Prim.Native.String.{◌++◌ as str_append}
use reddit_kafka.Base.{
  Bool, true, false, ◌||◌, ◌&&◌, List, [], ◌∷◌, String, Option, none, some, ◌==◌,
}

-- The classes that the code names.
pub data MigrationClass : Type 0 where
  connection_error timeout_error os_error operational_error dbapi_error : MigrationClass

-- Exceptions of the libraries and of the language, with `isinstance`, `str(error)` and `str.lower`.
pub record Exceptions : Type 1 where
  pub Exc : Type 0
  pub isinstance : Exc → MigrationClass → Bool
  pub str : Exc → String
  pub lower : String → String

-- The `RuntimeError` for an applied migration that has been modified, or another exception.
pub data Failure (x : Exceptions) : Type 0 where
  modified_migration : String → Failure x
  raised : x.Exc → Failure x

pub data Answer (x : Exceptions) (A : Type 0) : Type 0 where
  done : A → Answer x A
  failed : Failure x → Answer x A

module _ {x : Exceptions} where
  abbrev pub and_then : {A B : Type 0} → Answer x A → (A → Answer x B) → Answer x B
  and_then (done a) next = next a
  and_then (failed e) next = failed e

  -- a call that raises, or goes on
  abbrev pub unless : {A : Type 0} → Option x.Exc → A → Answer x A
  unless none a = done a
  unless (some e) a = failed (raised e)

starts_with : String → String → Bool
starts_with String.[] s = true
starts_with (String.◌∷◌ c token) String.[] = false
starts_with (String.◌∷◌ c token) (String.◌∷◌ d s) = (code c == code d) && starts_with token s

-- `token in message`
unfoldable pub has_text : String → String → Bool
unfolding starts_with
has_text token String.[] = starts_with token ""
has_text token (String.◌∷◌ c message) =
    starts_with token (String.◌∷◌ c message) || has_text token message

any_in : List String → String → Bool
unfolding has_text
any_in [] message = false
any_in (token ∷ tokens) message = has_text token message || any_in tokens message

abbrev retryable_messages : List String
retryable_messages =
    "could not connect" ∷ "connection refused" ∷ "connection timed out"
    ∷ "server closed the connection" ∷ "too many connections" ∷ "the database system is starting up"
    ∷ []

module _ {x : Exceptions} where
  text_of : Failure x → String
  text_of (modified_migration version) =
      str_append (str_append "Applied migration " version)
        " has been modified; create a new migration instead"
  text_of (raised e) = x.str e

  is_listed : Failure x → Bool
  is_listed (modified_migration version) = false
  is_listed (raised e) =
      x.isinstance e connection_error
      || x.isinstance e timeout_error
      || x.isinstance e os_error
      || x.isinstance e operational_error
      || x.isinstance e dbapi_error

  unfoldable pub is_retryable_migration_error : Failure x → Bool
  unfolding is_listed text_of any_in
  is_retryable_migration_error e = is_listed e || any_in retryable_messages (x.lower (text_of e))
