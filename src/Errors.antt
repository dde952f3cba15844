-- ===== src/Errors.antt =====
-- apps/reddit-kafka/src/stream/exceptions.py, the exceptions of
-- apps/reddit-kafka/src/repositories/stream_registry.py, and the classification of errors in
-- apps/reddit-kafka/src/stream/error_handler.py. The exceptions of the program are constructors; an
-- exception of a library, or of the language, is a value of a parameter, of which the code only
-- asks `isinstance`.
pub mod Strategy
use reddit_kafka.Base.{ℕ, Bool, true, false, ◌&&◌, ◌||◌, not, if◌then◌else◌}

-- The classes of others that the program names.
pub data ForeignClass : Type 0 where
  bad_request forbidden invalid_token not_found oauth_exception value_error : ForeignClass
  too_many_requests connection_error timeout_error client_connection_error : ForeignClass
  request_exception response_exception : ForeignClass

pub record Foreign : Type 1 where
  pub Exc : Type 0
  pub isinstance : Exc → ForeignClass → Bool

-- `RuntimeError` stands for those that the program raises itself with no class of their own.
pub data Error (f : Foreign) : Type 0 where
  kafka_delivery_error lock_lost_error runtime_error : Error f
  stream_exists_error stream_not_found_error : Error f
  circuit_open_error : ℕ → Error f
  foreign : f.Exc → Error f

-- A call that returns or raises.
pub data Result (f : Foreign) (A : Type 0) : Type 0 where
  ok : A → Result f A
  err : Error f → Result f A

-- What `_handle_error` of the worker does after it has recorded the error.
pub data Recovery : Type 0 where
  abandon : Recovery
  sleep : ℕ → Recovery
  reraise : Recovery

is_fatal_foreign : (f : Foreign) → f.Exc → Bool
is_fatal_foreign f e =
    f.isinstance e bad_request
    || f.isinstance e forbidden
    || f.isinstance e invalid_token
    || f.isinstance e not_found
    || f.isinstance e oauth_exception
    || f.isinstance e value_error

module _ {f : Foreign} where
  -- `isinstance(error, _FATAL_EXCEPTIONS)`
  unfoldable pub is_fatal : Error f → Bool
  unfolding is_fatal_foreign
  is_fatal kafka_delivery_error = true
  is_fatal (foreign e) = is_fatal_foreign f e
  is_fatal _ = false

  -- `isinstance(error, _RETRYABLE_EXCEPTIONS)`
  unfoldable pub is_transient : Error f → Bool
  is_transient (foreign e) =
      f.isinstance e connection_error
      || f.isinstance e timeout_error
      || f.isinstance e client_connection_error
      || f.isinstance e request_exception
      || f.isinstance e response_exception
  is_transient _ = false

  -- `isinstance(error, _BACKOFF_EXCEPTIONS)`
  unfoldable pub should_backoff : Error f → Bool
  should_backoff (circuit_open_error _) = true
  should_backoff (foreign e) = f.isinstance e too_many_requests
  should_backoff _ = false

  unfoldable pub is_retryable : Error f → Bool
  unfolding is_fatal is_transient should_backoff
  is_retryable e = not (is_fatal e) && (is_transient e || should_backoff e)

  unfoldable pub get_backoff_duration : Error f → ℕ
  get_backoff_duration (circuit_open_error retry_after) = retry_after
  get_backoff_duration (foreign e) = if f.isinstance e too_many_requests then 60 else 5
  get_backoff_duration _ = 5

  unfoldable pub should_retry_transient : Error f → Bool
  unfolding is_retryable
  should_retry_transient e = is_retryable e && not (should_backoff e)

  unfoldable pub should_retry_with_backoff : Error f → Bool
  unfolding should_backoff
  should_retry_with_backoff e = should_backoff e

  unfoldable pub should_abandon_stream : Error f → Bool
  unfolding is_fatal
  should_abandon_stream e = is_fatal e

  -- the tests of `StreamWorker._handle_error`, in their order
  unfoldable pub choose_recovery : Error f → Recovery
  unfolding should_abandon_stream should_retry_with_backoff should_retry_transient
  choose_recovery e =
      if should_abandon_stream e
      then abandon
      else if should_retry_with_backoff e
      then sleep (get_backoff_duration e)
      else if should_retry_transient e
      then sleep (get_backoff_duration e)
      else reraise
