-- ===== src/Worker/Comments.antt =====
-- The handling of a comment in apps/reddit-kafka/src/stream/worker.py. What happens outside the
-- worker while it handles one comment is an argument. Spans, metrics and log lines are left out.
use reddit_kafka.Base.{
  ℕ, suc, ◌+◌, Bool, true, ◌&&◌, Option, none, some, List, [], ◌∷◌, ◌++◌, String, if◌then◌else◌,
  leb,
}
use reddit_kafka.Commands.{is_truthy, is_value}
use reddit_kafka.World.{Services, World}
use reddit_kafka.Registry.Checkpoints.{get_checkpoint, set_checkpoint}
use reddit_kafka.ErrorLog.{record_error}
use reddit_kafka.Worker.Deliveries.{
  Futures, Round, Batch, batch_delivered, batch_failed, batch_waiting, wait_for_delivery_batch,
}

abbrev pub checkpoint_interval : ℕ
checkpoint_interval = 100

-- The fields of `StreamWorker` that the handling of comments changes. `next_delivery` is the number
-- of the next future.
pub record Progress : Type 0 where
  pub comments_since_checkpoint : ℕ
  pub pending_deliveries : List ℕ
  pub futures : Futures
  pub next_delivery : ℕ

-- One comment with what its handling meets: whether the message is valid and serialized, whether
-- `produce` and `poll` raise, the rounds of a wait, whether the write of the checkpoint raises, and
-- the times and the error entry.
pub record Attempt : Type 0 where
  pub comment_id : String
  pub is_serialized : Bool
  pub produce_raises : Bool
  pub poll_raises : Bool
  pub rounds : List Round
  pub save_raises : Bool
  pub processed_at : String
  pub now : String
  pub entry_id : String
  pub entry : String
  pub message : String

-- How `_process_comment` ends. `queued` and `replayed` and `invalid` return, `delivery_error`
-- raises `KafkaDeliveryError`, and `suspended` waits for deliveries.
pub data Outcome : Type 0 where
  replayed queued invalid delivery_error suspended : Outcome

-- A future that Kafka has accepted.
abbrev pub enqueue : Progress → Progress
enqueue p = record p {
  pending_deliveries = p.pending_deliveries ++ p.next_delivery ∷ [];
  next_delivery = suc p.next_delivery;
}

module _ {S : Services} (stream_id : String) where
  -- `_save_checkpoint_for_comment_id`, which swallows what the write raises
  unfoldable pub save_checkpoint_for_comment_id :
      Bool → String → String → String → World S → World S
  save_checkpoint_for_comment_id save_raises comment_id processed_at now w =
      if save_raises
      then w
      else set_checkpoint stream_id (some comment_id) (some processed_at) now w

  -- `_save_checkpoint`
  unfoldable pub save_checkpoint : Bool → String → String → World S → World S
  unfolding save_checkpoint_for_comment_id
  save_checkpoint save_raises processed_at now w = elim ((get_checkpoint stream_id w).0) [
    | none ↦ w
    | some c ↦
        if is_truthy (some c)
        then save_checkpoint_for_comment_id save_raises c processed_at now w
        else w
  ]

  -- after the wait for the batch at the end of an interval
  unfoldable pub after_batch :
      Attempt → Progress → List ℕ × Futures × Batch → World S → World S × Progress × Outcome
  after_batch a p (pending, futures, batch_delivered) w = (
    save_checkpoint_for_comment_id a.save_raises a.comment_id a.processed_at a.now w,
    record p { comments_since_checkpoint = 0; pending_deliveries = pending; futures = futures },
    queued,
  )
  after_batch a p (pending, futures, batch_failed) w =
      (w, record p { pending_deliveries = pending; futures = futures }, delivery_error)
  after_batch a p (pending, futures, batch_waiting) w =
      (w, record p { pending_deliveries = pending; futures = futures }, suspended)

  -- the count, and the wait and the checkpoint at each interval
  unfoldable pub count_comment : Attempt → Progress → World S → World S × Progress × Outcome
  unfolding after_batch
  count_comment a p w =
      let counted = record p { comments_since_checkpoint = p.comments_since_checkpoint + 1 } in
      if leb checkpoint_interval counted.comments_since_checkpoint
      then after_batch a counted
          (wait_for_delivery_batch a.rounds counted.pending_deliveries counted.futures) w
      else (w, counted, queued)

  -- `produce`, the new pending delivery, and `poll`
  unfoldable pub publish : Attempt → Progress → World S → World S × Progress × Outcome
  unfolding count_comment
  publish a p w =
      if a.produce_raises
      then (w, p, delivery_error)
      else if a.poll_raises
      then (w, enqueue p, delivery_error)
      else count_comment a (enqueue p) w

module _ {S : Services} (persists : Bool) (stream_id : String) where
  -- `_process_comment`, with the `last_comment_id` that the session began with
  unfoldable pub process_comment :
      Option String → Attempt → Progress → World S → World S × Progress × Outcome
  unfolding publish
  process_comment last_comment_id a p w =
      if is_truthy last_comment_id && is_value last_comment_id a.comment_id
      then (w, p, replayed)
      else if a.is_serialized
      then publish stream_id a p w
      else (
        record_error persists stream_id a.entry_id a.entry "CommentProcessingError" a.message true
            a.now w,
        p,
        invalid,
      )
