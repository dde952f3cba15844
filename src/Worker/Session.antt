-- ===== src/Worker/Session.antt =====
-- The fetch of comments in apps/reddit-kafka/src/stream/worker.py: the loop of
-- `_fetch_and_process_comments` over what the Reddit stream yields.
use reddit_kafka.Base.{Bool, Option, List, [], ◌∷◌, String}
use reddit_kafka.World.{Services, World}
use reddit_kafka.Breaker.{Config, CircuitBreaker, record_success}
use reddit_kafka.Registry.Checkpoints.{get_checkpoint}
use reddit_kafka.Worker.Comments.{
  Progress, Attempt, Outcome, replayed, queued, invalid, delivery_error, suspended, process_comment,
}

-- One turn of the loop: something is yielded while the stop event is set; or `None` is yielded, or
-- a comment, while it is not.
pub data Turn : Type 0 where
  stop_turn idle_turn : Turn
  comment_turn : Attempt → Turn

-- How the loop is left: it is still `streaming` after the turns that were given, or it has seen the
-- stop event, or a comment has raised `KafkaDeliveryError`, or is waiting for deliveries.
pub data Session : Type 0 where
  streaming stop_seen delivery_failed waiting : Session

-- A worker between two turns, with the breaker that its fetch reports to.
pub record Fetch (S : Services) : Type 0 where
  pub world : World S
  pub progress : Progress
  pub breaker : CircuitBreaker

module _ {S : Services} where
  -- after a comment: leave the loop, or go on with the rest
  unfoldable pub go_on : Outcome → Fetch S → Fetch S × Session → Fetch S × Session
  go_on delivery_error s rest = (s, delivery_failed)
  go_on suspended s rest = (s, waiting)
  go_on replayed s rest = rest
  go_on queued s rest = rest
  go_on invalid s rest = rest

module _ {S : Services} (cfg : Config) (persists : Bool) (stream_id : String)
    (last_comment_id : Option String) where
  -- the reported progress and the handling of a comment
  unfoldable pub take_comment : Attempt → Fetch S → Fetch S × Outcome
  take_comment a s =
      let (w, p, outcome) =
        process_comment persists stream_id last_comment_id a s.progress s.world in
      (record { world = w; progress = p; breaker = record_success cfg s.breaker }, outcome)

  unfoldable pub stream_comments : List Turn → Fetch S → Fetch S × Session
  unfolding take_comment go_on
  stream_comments [] s = (s, streaming)
  stream_comments (stop_turn ∷ turns) s = (s, stop_seen)
  stream_comments (idle_turn ∷ turns) s = stream_comments turns s
  stream_comments (comment_turn a ∷ turns) s =
      let (s', outcome) = take_comment a s in go_on outcome s' (stream_comments turns s')

module _ {S : Services} (cfg : Config) (persists : Bool) (stream_id : String) where
  -- `_fetch_and_process_comments`, which begins with the stored checkpoint. What the Reddit stream
  -- raises is not among the turns; `KafkaDeliveryError` passes `_handle_fetch_exception` as it is.
  unfoldable pub fetch_and_process_comments : List Turn → Fetch S → Fetch S × Session
  unfolding stream_comments
  fetch_and_process_comments turns s =
      stream_comments cfg persists stream_id (get_checkpoint stream_id s.world).0 turns s
