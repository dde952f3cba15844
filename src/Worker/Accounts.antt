-- ===== src/Worker/Accounts.antt =====
-- The account of deliveries that the worker keeps from comment to comment.
use reddit_kafka.Base.{
  ℕ, ◌+◌, ◌≡◌, ◌≢◌, ◌<◌, refl, Bool, Option, some, List, [], ◌∷◌, String, arith, length,
  length-append, inl, inr, Bool-cases, leb, ◌&&◌,
}
use reddit_kafka.Commands.{is_truthy, is_value}
use reddit_kafka.World.{Services, World}
use reddit_kafka.Worker.Deliveries.{
  delivered, Futures, Batch, batch_delivered, batch_failed, batch_waiting, wait_for_delivery_batch,
}
use reddit_kafka.Worker.Comments.{
  Progress, Attempt, delivery_error, suspended, enqueue, checkpoint_interval, after_batch,
  count_comment, publish, process_comment,
}
use reddit_kafka.Worker.Boundary.{Settled, IsAccounted, enqueue-Settled, batch-AllDelivered}

module _ {S : Services} (stream_id : String) where
  after_batch-IsAccounted :
      (a : Attempt) (p : Progress) (ended : List ℕ × Futures × Batch) (w : World S)
      → (ended.2 ≡ batch_delivered
          → ((d : ℕ) → d < p.next_delivery → ended.1 d ≡ some delivered) × (ended.0 ≡ []))
      → (after_batch stream_id a p ended w).2 ≢ delivery_error
      → (after_batch stream_id a p ended w).2 ≢ suspended
      → IsAccounted (after_batch stream_id a p ended w).1
  unfolding after_batch
  after_batch-IsAccounted a p (left, fs, batch_delivered) w h ne ns = record {
    settled = λ d lt out. (h refl).0 d lt;
    counted = rw ((h refl).1);
    within = omega arith;
  }
  after_batch-IsAccounted a p (left, fs, batch_failed) w h ne ns = absurd (ne refl)
  after_batch-IsAccounted a p (left, fs, batch_waiting) w h ne ns = absurd (ns refl)

  count_comment-IsAccounted :
      (a : Attempt) (p : Progress) (w : World S)
      → Settled p
      → length p.pending_deliveries ≡ p.comments_since_checkpoint + 1
      → (count_comment stream_id a p w).2 ≢ delivery_error
      → (count_comment stream_id a p w).2 ≢ suspended
      → IsAccounted (count_comment stream_id a p w).1
  unfolding count_comment
  count_comment-IsAccounted a p w h l =
      let counted = record p { comments_since_checkpoint = p.comments_since_checkpoint + 1 } in
      let ended = wait_for_delivery_batch a.rounds p.pending_deliveries p.futures in
      elim (Bool-cases (leb checkpoint_interval (p.comments_since_checkpoint + 1))) [
        | inl e ↦
            rw (e, count_comment)
              (after_batch-IsAccounted a counted ended w (batch-AllDelivered counted a.rounds h))
        | inr e ↦
            rw (e, count_comment)
              (λ ne ns. record { settled = h; counted = l; within = ground arith })
      ]

  publish-IsAccounted :
      (a : Attempt) (p : Progress) (w : World S)
      → IsAccounted p
      → (publish stream_id a p w).2 ≢ delivery_error
      → (publish stream_id a p w).2 ≢ suspended
      → IsAccounted (publish stream_id a p w).1
  unfolding publish
  publish-IsAccounted a p w h = elim (Bool-cases a.produce_raises) [
    | inl e ↦ rw (e, publish) (λ ne ns. absurd (ne refl))
    | inr e ↦ elim (Bool-cases a.poll_raises) [
      | inl e' ↦ rw (e, e', publish) (λ ne ns. absurd (ne refl))
      | inr e' ↦
          rw (e, e', publish)
            (count_comment-IsAccounted a (enqueue p) w (enqueue-Settled p h.settled)
              (omega (arith, length-append p.pending_deliveries (p.next_delivery ∷ []), h.counted)))
    ]
  ]

module _ {S : Services} (persists : Bool) (stream_id : String) where
  -- Handling a comment keeps the account of deliveries, unless it raises a delivery error or is
  -- still waiting. The account: every delivery so far is pending or has reported success, and as
  -- many are pending as comments were counted since the checkpoint, fewer than an interval.
  pub process_comment-IsAccounted :
      (last : Option String) (a : Attempt) (p : Progress) (w : World S)
      → IsAccounted p
      → (process_comment persists stream_id last a p w).2 ≢ delivery_error
      → (process_comment persists stream_id last a p w).2 ≢ suspended
      → IsAccounted (process_comment persists stream_id last a p w).1
  unfolding process_comment
  process_comment-IsAccounted last a p w h =
      elim (Bool-cases (is_truthy last && is_value last a.comment_id)) [
        | inl e ↦ rw (e, process_comment) (λ ne ns. h)
        | inr e ↦ elim (Bool-cases a.is_serialized) [
          | inl e' ↦ rw (e, e', process_comment) (publish-IsAccounted stream_id a p w h)
          | inr e' ↦ rw (e, e', process_comment) (λ ne ns. h)
        ]
      ]
