-- ===== src/Worker/Commits.antt =====
-- Over a whole session of comments, the stored checkpoint never runs ahead of what Kafka has
-- confirmed.
use reddit_kafka.Base.{
  ◌≡◌, ◌≢◌, refl, ap, lookup, ◌∙◌, Bool, Option, some, List, [], ◌∷◌, ◌++◌, String, ◌⊎◌, inl, inr,
}
use reddit_kafka.Redis.Keys.{checkpoint_key}
use reddit_kafka.World.{Services}
use reddit_kafka.Breaker.{Config}
use reddit_kafka.Registry.Checkpoints.{get_checkpoint}
use reddit_kafka.Worker.Comments.{
  Attempt, Outcome, replayed, queued, invalid, delivery_error, suspended,
}
use reddit_kafka.Worker.Boundary.{IsAccounted, AllDelivered, process_comment_boundary}
use reddit_kafka.Worker.Accounts.{process_comment-IsAccounted}
use reddit_kafka.Worker.Session.{
  Turn, stop_turn, idle_turn, comment_turn, Session, Fetch, take_comment, go_on, stream_comments,
  fetch_and_process_comments,
}

-- a comment lets the loop go on, or it ends it without having stored a checkpoint
go_on-cases :
    {S : Services} (o : Outcome) (s : Fetch S)
    → (((rest : Fetch S × Session) → go_on o s rest ≡ rest)
        × (o ≢ delivery_error)
        × (o ≢ suspended))
      ⊎ (((rest : Fetch S × Session) → (go_on o s rest).0 ≡ s) × (o ≢ queued))
unfolding go_on
go_on-cases delivery_error s = inr ((λ rest. refl), (λ e. cc))
go_on-cases suspended s = inr ((λ rest. refl), (λ e. cc))
go_on-cases replayed s = inl ((λ rest. refl), (λ e. cc), (λ e. cc))
go_on-cases queued s = inl ((λ rest. refl), (λ e. cc), (λ e. cc))
go_on-cases invalid s = inl ((λ rest. refl), (λ e. cc), (λ e. cc))

module _ {S : Services} (cfg : Config) (persists : Bool) (stream_id : String) where
  -- the checkpoint's comment
  abbrev pub committed : Fetch S → Option String
  committed s = (get_checkpoint stream_id s.world).0

  -- Some comment of the turns is the stored checkpoint, and when the worker had handled it, every
  -- delivery that it had enqueued until then had reported success.
  abbrev pub Committed : Option String → List Turn → Fetch S → Fetch S → Type 0
  Committed last turns s s' =
      (before : List Turn) × (a : Attempt) × (after : List Turn) × (turns
        ≡ before ++ comment_turn a ∷ after)
      × (committed s' ≡ some a.comment_id)
      × AllDelivered
          (stream_comments cfg persists stream_id last (before ++ comment_turn a ∷ []) s).0.progress

  module _ (last : Option String) where
    go : List Turn → Fetch S → Fetch S × Session
    go turns s = stream_comments cfg persists stream_id last turns s

    take : Attempt → Fetch S → Fetch S × Outcome
    take a s = take_comment cfg persists stream_id last a s

    committed-hashes :
        (s s' : Fetch S) → s'.world.hashes ≡ s.world.hashes → committed s' ≡ committed s
    unfolding get_checkpoint
    committed-hashes s s' e =
        ap
          (λ (h : S.hashes.Store).
            lookup "last_comment_id" (S.hashes.hgetall h (checkpoint_key stream_id)))
          e

    -- what a comment that lets the loop go on adds to what the other turns do
    go_on_lem :
        (a : Attempt) (turns : List Turn) (s : Fetch S)
        → ((rest : Fetch S × Session) → go_on (take a s).1 (take a s).0 rest ≡ rest)
        → ((take a s).0.world.hashes ≡ s.world.hashes)
          ⊎ ((committed (take a s).0 ≡ some a.comment_id) × AllDelivered (take a s).0.progress)
        → ((go turns (take a s).0).0.world.hashes ≡ (take a s).0.world.hashes)
          ⊎ Committed last turns (take a s).0 (go turns (take a s).0).0
        → ((go turns (take a s).0).0.world.hashes ≡ s.world.hashes)
          ⊎ Committed last (comment_turn a ∷ turns) s (go turns (take a s).0).0
    unfolding stream_comments go take
    go_on_lem a turns s passes step (inr (before, b, after, split, stored, all)) = inr (
      comment_turn a ∷ before,
      b,
      after,
      ap (◌∷◌ (comment_turn a)) split,
      stored,
      rw (passes (go (before ++ comment_turn b ∷ []) (take a s).0)) all,
    )
    go_on_lem a turns s passes (inl e) (inl same) = inl (same ∙ e)
    go_on_lem a turns s passes (inr (stored, all)) (inl same) = inr (
      [],
      a,
      turns,
      refl,
      committed-hashes (take a s).0 (go turns (take a s).0).0 same ∙ stored,
      rw (passes (go [] (take a s).0)) all,
    )

    take_boundary :
        (a : Attempt) (s : Fetch S)
        → IsAccounted s.progress
        → ((take a s).0.world.hashes ≡ s.world.hashes)
          ⊎ (((take a s).1 ≡ queued)
              × (committed (take a s).0 ≡ some a.comment_id)
              × AllDelivered (take a s).0.progress)
    unfolding take take_comment
    take_boundary a s h =
        elim (process_comment_boundary persists stream_id last a s.progress s.world h) [
          | inl e ↦ inl e
          | inr (q, stored, all, _) ↦ inr (q, stored, all)
        ]

    stored_lem :
        (a : Attempt) (s : Fetch S)
        → ((take a s).0.world.hashes ≡ s.world.hashes)
          ⊎ (((take a s).1 ≡ queued)
              × (committed (take a s).0 ≡ some a.comment_id)
              × AllDelivered (take a s).0.progress)
        → ((take a s).0.world.hashes ≡ s.world.hashes)
          ⊎ ((committed (take a s).0 ≡ some a.comment_id) × AllDelivered (take a s).0.progress)
    stored_lem a s (inl e) = inl e
    stored_lem a s (inr (q, stored, all)) = inr (stored, all)

    take-IsAccounted :
        (a : Attempt) (s : Fetch S)
        → IsAccounted s.progress
        → (take a s).1 ≢ delivery_error
        → (take a s).1 ≢ suspended
        → IsAccounted (take a s).0.progress
    unfolding take take_comment
    take-IsAccounted a s h =
        process_comment-IsAccounted persists stream_id last a s.progress s.world h

    go-comment_turn :
        (a : Attempt) (turns : List Turn) (s : Fetch S)
        → go (comment_turn a ∷ turns) s ≡ go_on (take a s).1 (take a s).0 (go turns (take a s).0)
    unfolding stream_comments go take
    go-comment_turn a turns s = refl

    comment_lem :
        (a : Attempt) (turns : List Turn) (s : Fetch S)
        → IsAccounted s.progress
        → (IsAccounted (take a s).0.progress
            → ((go turns (take a s).0).0.world.hashes ≡ (take a s).0.world.hashes)
              ⊎ Committed last turns (take a s).0 (go turns (take a s).0).0)
        → ((go (comment_turn a ∷ turns) s).0.world.hashes ≡ s.world.hashes)
          ⊎ Committed last (comment_turn a ∷ turns) s (go (comment_turn a ∷ turns) s).0
    comment_lem a turns s h rest =
        let s1 = (take a s).0 in
        let step = take_boundary a s h in
        elim (go_on-cases (take a s).1 s1) [
          | inl (passes, no_error, no_wait) ↦
              rw (go-comment_turn a turns s ∙ passes (go turns s1)) (
                go_on_lem a turns s passes (stored_lem a s step)
                  (rest (take-IsAccounted a s h no_error no_wait)))
          | inr (stays, not_queued) ↦ elim step [
            | inl e ↦ inl (
                ap (λ (r : Fetch S × Session). r.0.world.hashes) (go-comment_turn a turns s)
                ∙ ap (λ (f : Fetch S). f.world.hashes) (stays (go turns s1))
                ∙ e)
            | inr (q, _, _) ↦ absurd (not_queued q)
          ]
        ]

    stream_comments_lem :
        (turns : List Turn) (s : Fetch S)
        → IsAccounted s.progress
        → ((go turns s).0.world.hashes ≡ s.world.hashes) ⊎ Committed last turns s (go turns s).0
    unfolding stream_comments go
    stream_comments_lem [] s h = inl refl
    stream_comments_lem (stop_turn ∷ turns) s h = inl refl
    stream_comments_lem (idle_turn ∷ turns) s h = elim (stream_comments_lem turns s h) [
      | inl same ↦ inl same
      | inr (before, a, after, split, stored, all) ↦
          inr (idle_turn ∷ before, a, after, ap (◌∷◌ idle_turn) split, stored, all)
    ]
    stream_comments_lem (comment_turn a ∷ turns) s h =
        comment_lem a turns s h (stream_comments_lem turns (take a s).0)

  -- A session of comments, from a worker whose account of deliveries holds, leaves every mapping of
  -- Redis as it was, the checkpoint with the others; or the checkpoint is then that of some comment
  -- of the session, and when the session had handled that comment, every delivery that the worker
  -- had enqueued until then had reported success.
  pub fetch_and_process_comments_commits :
      (turns : List Turn) (s : Fetch S)
      → IsAccounted s.progress
      → let s' = (fetch_and_process_comments cfg persists stream_id turns s).0 in
        (s'.world.hashes ≡ s.world.hashes) ⊎ Committed (committed s) turns s s'
  unfolding fetch_and_process_comments go
  fetch_and_process_comments_commits turns s h = stream_comments_lem (committed s) turns s h
