-- ===== src/Worker/Loop.antt =====
-- `_stream_loop` in apps/reddit-kafka/src/stream/worker.py: fetch after fetch through the breaker, and
-- the recovery from what they raise.
use reddit_kafka.Base.{ℕ, Bool, Option, none, some, List, [], ◌∷◌, String, if◌then◌else◌}
use reddit_kafka.Errors.{Foreign, Error, kafka_delivery_error}
use reddit_kafka.World.{Services, World}
use reddit_kafka.Breaker.{Config, CircuitBreaker, Ending, returned, cancelled, raised, admit, call}
use reddit_kafka.Worker.Session.{
  Turn, Session, streaming, stop_seen, delivery_failed, waiting, Fetch, fetch_and_process_comments,
}
use reddit_kafka.Worker.Control.{
  Identity, LogEntry, Handled, raises, slept, handle_fetch_exception, handle_error,
}

-- What follows the turns of a fetch that is still streaming: the Reddit stream ends or raises, or the
-- task is cancelled. A fetch that is not `ready` raises before it reads anything.
pub data Interruption (f : Foreign) : Type 0 where
  exhausted task_cancelled : Interruption f
  source_raises : Error f → Interruption f
  unready : Error f → Interruption f

-- What one pass of the loop meets: whether the stop event is set, what others have done to the world,
-- the time at which the breaker is asked, the turns and what follows them, the time at which the fetch
-- ends, the entry and the times for an error, and whether the task is cancelled in the sleep after it.
pub record Pass (S : Services) (f : Foreign) : Type 0 where
  pub stop_event : Bool
  pub others : World S → World S
  pub asked_at : ℕ
  pub turns : List Turn
  pub interruption : Interruption f
  pub ended_at : ℕ
  pub fetch_now : String
  pub log : LogEntry
  pub error_now : String
  pub cancelled_asleep : Bool

-- How the loop is left: not yet, or by the stop event, a cancellation, or an error.
pub data LoopEnd (f : Foreign) : Type 0 where
  looping stopped loop_cancelled : LoopEnd f
  loop_raised : Error f → LoopEnd f

module _ {S : Services} {f : Foreign} (cfg : Config) (me : Identity) where
  -- `except Exception` around the streaming
  fail_fetch : Error f → String → Fetch S → Fetch S × Ending f
  fail_fetch e now s = (record s { world = handle_fetch_exception me e now s.world }, raised e)

  -- the end of a session
  unfoldable pub end_fetch : Interruption f → String → Fetch S × Session → Fetch S × Ending f
  unfolding fail_fetch
  end_fetch interruption now (s, stop_seen) = (s, returned)
  end_fetch interruption now (s, delivery_failed) = fail_fetch kafka_delivery_error now s
  end_fetch interruption now (s, waiting) = (s, cancelled)
  end_fetch exhausted now (s, streaming) = (s, returned)
  end_fetch task_cancelled now (s, streaming) = (s, cancelled)
  end_fetch (source_raises e) now (s, streaming) = fail_fetch e now s
  end_fetch (unready e) now (s, streaming) = (s, raised e)

  -- `_fetch_and_process_comments` with its ending
  unfoldable pub run_fetch : List Turn → Interruption f → String → Fetch S → Fetch S × Ending f
  unfolding end_fetch
  run_fetch turns (unready e) now s = (s, raised e)
  run_fetch turns interruption now s =
      end_fetch interruption now
        (fetch_and_process_comments cfg me.has_session_maker me.stream_id turns s)

  -- the fetch as the coroutine that the breaker wraps
  unfoldable pub coroutine : Pass S f → Fetch S → CircuitBreaker → CircuitBreaker × ℕ × Ending f
  unfolding run_fetch
  coroutine p s b =
      let (s', ending) = run_fetch p.turns p.interruption p.fetch_now (record s { breaker = b }) in
      (s'.breaker, p.ended_at, ending)

  -- a refused call leaves all but the breaker as it was
  unfoldable pub settle_fetch :
      Option ℕ → Fetch S → Fetch S → CircuitBreaker × Ending f → Fetch S × Ending f
  settle_fetch (some n) s ran (b, ending) = (record s { breaker = b }, ending)
  settle_fetch none s ran (b, ending) = (record ran { breaker = b }, ending)

  -- `self.circuit_breaker.call(self._fetch_and_process_comments)`
  unfoldable pub guarded_fetch : Pass S f → Fetch S → Fetch S × Ending f
  unfolding coroutine settle_fetch
  guarded_fetch p s =
      let (admitted, refusal) = admit p.asked_at s.breaker in
      let ran =
        (run_fetch p.turns p.interruption p.fetch_now (record s { breaker = admitted })).0 in
      settle_fetch refusal s ran (call cfg p.asked_at (coroutine p s) s.breaker)

  -- after `_handle_error` of the error `e`
  unfoldable pub after_error : Bool → Error f → Fetch S → World S × Handled → Fetch S × LoopEnd f
  after_error cancelled_asleep e s (w, raises) = (record s { world = w }, loop_raised e)
  after_error cancelled_asleep e s (w, slept n) =
      (record s { world = w }, if cancelled_asleep then loop_cancelled else looping)

  -- the `except` clauses of the loop
  unfoldable pub recover_fetch : Pass S f → Fetch S × Ending f → Fetch S × LoopEnd f
  unfolding after_error
  recover_fetch p (s, returned) = (s, looping)
  recover_fetch p (s, cancelled) = (s, loop_cancelled)
  recover_fetch p (s, raised e) =
      after_error p.cancelled_asleep e s (handle_error me e p.log p.error_now s.world)

  -- one pass of the loop
  unfoldable pub pass_once : Pass S f → Fetch S → Fetch S × LoopEnd f
  unfolding guarded_fetch recover_fetch
  pass_once p s =
      if p.stop_event
      then (s, stopped)
      else recover_fetch p (guarded_fetch p (record s { world = p.others s.world }))

  -- go on with the rest, or leave the loop
  unfoldable pub follow : Fetch S × LoopEnd f → Fetch S × LoopEnd f → Fetch S × LoopEnd f
  follow (s, looping) rest = rest
  follow (s, stopped) rest = (s, stopped)
  follow (s, loop_cancelled) rest = (s, loop_cancelled)
  follow (s, loop_raised e) rest = (s, loop_raised e)

  unfoldable pub stream_loop : List (Pass S f) → Fetch S → Fetch S × LoopEnd f
  unfolding pass_once follow
  stream_loop [] s = (s, looping)
  stream_loop (p ∷ passes) s = let once = pass_once p s in follow once (stream_loop passes once.0)
