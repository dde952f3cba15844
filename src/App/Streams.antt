-- ===== src/App/Streams.antt =====
-- `create_stream`, `list_streams` and `stop_stream`, the handlers of requests. The text of a refusal
-- is left out.
use reddit_kafka.Base.{
  ℕ, Bool, true, false, ◌||◌, Option, none, some, List, String, Dict, lookup, str_eq, fits,
  if◌then◌else◌,
}
use reddit_kafka.Errors.{
  Foreign, Error, Result, ok, err, kafka_delivery_error, lock_lost_error, runtime_error,
  stream_exists_error, stream_not_found_error, circuit_open_error, foreign, not_found, forbidden,
}
use reddit_kafka.World.{Services}
use reddit_kafka.Registry.Fields.{or_blank}
use reddit_kafka.Registry.Reading.{get_stream, list_streams}
use reddit_kafka.Manager.State.{Instance, Manager, Others}
use reddit_kafka.Manager.Starting.{Start, start_stream}
use reddit_kafka.Manager.Ending.{Drain, stop_stream}

-- What a handler does: it returns, or raises `HTTPException` with a status, or another exception.
pub data Reply (f : Foreign) (A : Type 0) : Type 0 where
  answers : A → Reply f A
  refuses : ℕ → Reply f A
  passes_on : Error f → Reply f A

-- What a request to create a stream meets: whether there is a client of Reddit; what others do while
-- the subreddit is loaded, and what that raises; and what the start meets.
pub record Creation (S : Services) (f : Foreign) : Type 0 where
  pub has_client : Bool
  pub meanwhile : Others S
  pub load_raises : Option f.Exc
  pub start : Start S f

-- What a request to stop a stream meets: what others do after the stream has been read, and what the
-- stop meets, with its two times.
pub record Stopping (S : Services) (f : Foreign) : Type 0 where
  pub meanwhile : Others S
  pub drain : Drain S f
  pub now : String
  pub later : String

-- `meta.get("status") in {"stopped", "error", "inactive"}`
abbrev pub is_terminal : Option String → Bool
is_terminal none = false
is_terminal (some s) = str_eq s "stopped" || str_eq s "error" || str_eq s "inactive"

module _ (f : Foreign) where
  -- the clauses for what the load of the subreddit raises
  unfoldable pub load_status : f.Exc → ℕ
  load_status e =
      if f.isinstance e not_found then 404 else if f.isinstance e forbidden then 403 else 503

  -- the status that refuses a request before the start, if one does
  unfoldable pub prevalidate : Bool → Option f.Exc → Option ℕ
  unfolding load_status
  prevalidate false load_raises = some 503
  prevalidate true none = none
  prevalidate true (some e) = some (load_status e)

module _ {f : Foreign} where
  -- `isinstance(e, RuntimeError)`, where a parameter answers it for the exceptions of others
  unfoldable pub is_runtime_error : (f.Exc → Bool) → Error f → Bool
  is_runtime_error foreign_runtime kafka_delivery_error = true
  is_runtime_error foreign_runtime lock_lost_error = true
  is_runtime_error foreign_runtime runtime_error = true
  is_runtime_error foreign_runtime (circuit_open_error _) = true
  is_runtime_error foreign_runtime stream_exists_error = false
  is_runtime_error foreign_runtime stream_not_found_error = false
  is_runtime_error foreign_runtime (foreign e) = foreign_runtime e

  -- the clauses for what the start raises
  unfoldable pub start_refusal : {A : Type 0} → (f.Exc → Bool) → Error f → Reply f A
  unfolding is_runtime_error
  start_refusal foreign_runtime stream_exists_error = refuses 409
  start_refusal foreign_runtime e =
      if is_runtime_error foreign_runtime e then refuses 409 else passes_on e

  -- the clause for what the read and the stop raise
  unfoldable pub stop_refusal : {A : Type 0} → Error f → Reply f A
  stop_refusal stream_not_found_error = refuses 404
  stop_refusal e = passes_on e

module _ {S : Services} {f : Foreign} (me : Instance) (foreign_runtime : f.Exc → Bool) where
  unfoldable pub answer_start :
      Manager S × Result f (Dict String) → Manager S × Reply f (Dict String)
  unfolding start_refusal
  answer_start (m, ok meta) = (m, answers meta)
  answer_start (m, err e) = (m, start_refusal foreign_runtime e)

  -- the handler, where a status refuses the request or none does
  unfoldable pub start_validated :
      Creation S f → String → Manager S → Option ℕ → Manager S × Reply f (Dict String)
  unfolding start_stream answer_start
  start_validated c subreddit m (some status) = (m, refuses status)
  start_validated c subreddit m none = answer_start (start_stream me c.start subreddit m)

  -- the handler `create_stream`; `unprocessable` is the status with which FastAPI refuses a query
  -- that does not fit its declaration
  unfoldable pub create_stream_endpoint :
      ℕ → Creation S f → String → Manager S → Manager S × Reply f (Dict String)
  unfolding prevalidate start_validated
  create_stream_endpoint unprocessable c subreddit m =
      if fits subreddit
      then start_validated c subreddit
          (if c.has_client then record m { world = c.meanwhile m.world } else m)
          (prevalidate f c.has_client c.load_raises)
      else (m, refuses unprocessable)

module _ {S : Services} {f : Foreign} (me : Instance) where
  unfoldable pub answer_stop :
      String → Manager S × Result f (Unit {0}) → Manager S × Reply f (String × String)
  unfolding stop_refusal
  answer_stop stream_id (m, ok _) = (m, answers (stream_id, "stopping"))
  answer_stop stream_id (m, err e) = (m, stop_refusal e)

  -- the handler `stop_stream` after the stream has been read
  unfoldable pub stop_read :
      Stopping S f
      → String
      → Manager S
      → Result f (Dict String)
      → Manager S × Reply f (String × String)
  unfolding stop_stream answer_stop stop_refusal
  stop_read s stream_id m (err e) = (m, stop_refusal e)
  stop_read s stream_id m (ok meta) =
      if is_terminal (lookup "status" meta)
      then (m, answers (stream_id, or_blank (lookup "status" meta)))
      else answer_stop stream_id (stop_stream me s.drain stream_id s.now s.later m)

  -- the handler `stop_stream`
  unfoldable pub stop_stream_endpoint :
      Stopping S f → String → Manager S → Manager S × Reply f (String × String)
  unfolding get_stream stop_read
  stop_stream_endpoint s stream_id m =
      stop_read s stream_id (record m { world = s.meanwhile m.world })
        (get_stream stream_id m.world)

module _ {S : Services} where
  -- the handler `list_streams`
  unfoldable pub list_streams_endpoint : Manager S → Manager S × List (Dict String)
  unfolding list_streams
  list_streams_endpoint m = let (w, rows) = list_streams m.world in (record m { world = w }, rows)
