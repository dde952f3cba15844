-- ===== src/Worker/Boundary.antt =====
-- The delivery boundary: a checkpoint is stored only when everything before it has been delivered.
use reddit_kafka.Base.{
  ℕ, ◌+◌, ◌==◌, ◌≡◌, ◌<◌, refl, Bool, true, false, ◌||◌, Option, some, List, [], ◌∷◌, ◌++◌, String,
  All, arith, length, ◌⊎◌, inl, inr, Bool-cases, leb, ◌&&◌,
}
use reddit_kafka.Commands.{is_truthy, is_value}
use reddit_kafka.ErrorLog.{record_error}
use reddit_kafka.World.{Services, World}
use reddit_kafka.Registry.Checkpoints.{get_checkpoint}
use reddit_kafka.Registry.Progress.{get_checkpoint-set_checkpoint}
use reddit_kafka.Worker.Deliveries.{
  delivered, Futures, Round, Batch, batch_delivered, batch_failed, batch_waiting,
  wait_for_delivery_batch,
}
use reddit_kafka.Worker.Awaiting.{wait_for_delivery_batch-delivered}
use reddit_kafka.Worker.Comments.{
  Progress, Attempt, Outcome, queued, enqueue, checkpoint_interval, after_batch, count_comment,
  publish, process_comment, save_checkpoint_for_comment_id,
}

abbrev pub contains : ℕ → List ℕ → Bool
contains d [] = false
contains d (e ∷ es) = (e == d) || contains d es

-- Every delivery so far is pending or has reported success.
abbrev pub Settled : Progress → Type 0
Settled p =
    (d : ℕ)
    → d < p.next_delivery
    → contains d p.pending_deliveries ≡ false
    → p.futures d ≡ some delivered

-- The account between two comments: besides, as many deliveries are pending as comments were
-- counted since the checkpoint, fewer than an interval.
pub record IsAccounted (p : Progress) : Type 0 where
  pub settled : Settled p
  pub counted : length p.pending_deliveries ≡ p.comments_since_checkpoint
  pub within : p.comments_since_checkpoint < checkpoint_interval

-- Every delivery so far has reported success.
abbrev pub AllDelivered : Progress → Type 0
AllDelivered p = (d : ℕ) → d < p.next_delivery → p.futures d ≡ some delivered

contains-append : (d e : ℕ) (ds : List ℕ) → contains d (ds ++ e ∷ []) ≡ (contains d ds || (e == d))
contains-append d e [] = ground arith
contains-append d e (x ∷ ds) = ground (arith, contains-append d e ds)

All-contains :
    (fs : Futures) (ds : List ℕ) (d : ℕ)
    → All (λ e. fs e ≡ some delivered) ds
    → contains d ds ≡ true
    → fs d ≡ some delivered
All-contains fs [] d h e = cc
All-contains fs (x ∷ ds) d h e = ground (arith, All-contains fs ds d h.1)

pub enqueue-Settled : (p : Progress) → Settled p → Settled (enqueue p)
enqueue-Settled p h d lt out =
    ground (arith, contains-append d p.next_delivery p.pending_deliveries, h d)

-- a batch that is delivered leaves nothing that is not
pub batch-AllDelivered :
    (p : Progress) (rounds : List Round)
    → Settled p
    → let (left, fs, outcome) = wait_for_delivery_batch rounds p.pending_deliveries p.futures in
      outcome ≡ batch_delivered
      → ((d : ℕ) → d < p.next_delivery → fs d ≡ some delivered) × (left ≡ [])
batch-AllDelivered p rounds h e =
    let law = wait_for_delivery_batch-delivered rounds p.pending_deliveries p.futures in
    let (all, nothing_left) = law.0 e in
    (
      λ d lt. elim (Bool-cases (contains d p.pending_deliveries)) [
        | inl i ↦ All-contains _ p.pending_deliveries d all i
        | inr o ↦ law.1 d delivered (h d lt o)
      ],
      nothing_left,
    )

module _ {S : Services} (stream_id : String) where
  -- What a step may do to the world and the progress: leave all mappings, or store the checkpoint
  -- of the comment with everything delivered.
  abbrev pub RespectsBoundary : Attempt → World S → World S × Progress × Outcome → Type 0
  RespectsBoundary a w (w', p', outcome) =
      (w'.hashes ≡ w.hashes)
      ⊎ ((outcome ≡ queued)
          × ((get_checkpoint stream_id w').0 ≡ some a.comment_id)
          × AllDelivered p'
          × (p'.pending_deliveries ≡ []))

  save_lem :
      (raises : Bool) (comment_id processed_at now : String) (w : World S)
      → let w' = save_checkpoint_for_comment_id stream_id raises comment_id processed_at now w in
        (w'.hashes ≡ w.hashes) ⊎ ((get_checkpoint stream_id w').0 ≡ some comment_id)
  unfolding save_checkpoint_for_comment_id
  save_lem true comment_id processed_at now w = inl refl
  save_lem false comment_id processed_at now w =
      inr (get_checkpoint-set_checkpoint stream_id w (some comment_id) (some processed_at) now).0

  after_batch-RespectsBoundary :
      (a : Attempt) (p : Progress) (ended : List ℕ × Futures × Batch) (w : World S)
      → (ended.2 ≡ batch_delivered
          → ((d : ℕ) → d < p.next_delivery → ended.1 d ≡ some delivered) × (ended.0 ≡ []))
      → RespectsBoundary a w (after_batch stream_id a p ended w)
  unfolding after_batch
  after_batch-RespectsBoundary a p (left, fs, batch_delivered) w h =
      elim (save_lem a.save_raises a.comment_id a.processed_at a.now w) [
        | inl e ↦ inl e
        | inr e ↦ inr (refl, e, (h refl).0, (h refl).1)
      ]
  after_batch-RespectsBoundary a p (left, fs, batch_failed) w h = inl refl
  after_batch-RespectsBoundary a p (left, fs, batch_waiting) w h = inl refl

  count_comment-RespectsBoundary :
      (a : Attempt) (p : Progress) (w : World S)
      → Settled p
      → RespectsBoundary a w (count_comment stream_id a p w)
  unfolding count_comment
  count_comment-RespectsBoundary a p w h =
      let counted = record p { comments_since_checkpoint = p.comments_since_checkpoint + 1 } in
      let ended = wait_for_delivery_batch a.rounds p.pending_deliveries p.futures in
      elim (Bool-cases (leb checkpoint_interval (p.comments_since_checkpoint + 1))) [
        | inl e ↦
            rw (e, count_comment)
              (after_batch-RespectsBoundary a counted ended w
                (batch-AllDelivered counted a.rounds h))
        | inr e ↦ rw (e, count_comment) (inl refl)
      ]

  publish-RespectsBoundary :
      (a : Attempt) (p : Progress) (w : World S)
      → Settled p
      → RespectsBoundary a w (publish stream_id a p w)
  unfolding publish
  publish-RespectsBoundary a p w h = elim (Bool-cases a.produce_raises) [
    | inl e ↦ rw (e, publish) (inl refl)
    | inr e ↦ elim (Bool-cases a.poll_raises) [
      | inl e' ↦ rw (e, e', publish) (inl refl)
      | inr e' ↦
          rw (e, e', publish) (count_comment-RespectsBoundary a (enqueue p) w (enqueue-Settled p h))
    ]
  ]

module _ {S : Services} (persists : Bool) (stream_id : String) where
  hashes-record_error :
      (a : Attempt) (w : World S)
      → (record_error persists stream_id a.entry_id a.entry "CommentProcessingError" a.message true
          a.now w).hashes
        ≡ w.hashes
  unfolding record_error
  hashes-record_error a w = ground arith

  -- Handling a comment leaves every mapping of Redis as it was, the checkpoint with the others; or
  -- it ends normally with that comment as the checkpoint, and then every delivery that this worker
  -- ever enqueued has reported success and none is pending.
  pub process_comment_boundary :
      (last : Option String) (a : Attempt) (p : Progress) (w : World S)
      → IsAccounted p
      → let (w', p', outcome) = process_comment persists stream_id last a p w in
        (w'.hashes ≡ w.hashes)
        ⊎ ((outcome ≡ queued)
            × ((get_checkpoint stream_id w').0 ≡ some a.comment_id)
            × AllDelivered p'
            × (p'.pending_deliveries ≡ []))
  unfolding process_comment
  process_comment_boundary last a p w h =
      elim (Bool-cases (is_truthy last && is_value last a.comment_id)) [
        | inl e ↦ rw (e, process_comment) (inl refl)
        | inr e ↦ elim (Bool-cases a.is_serialized) [
          | inl e' ↦
              rw (e, e', process_comment) (publish-RespectsBoundary stream_id a p w h.settled)
          | inr e' ↦ rw (e, e', process_comment) (inl (hashes-record_error a w))
        ]
      ]
