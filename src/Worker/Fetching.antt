-- ===== src/Worker/Fetching.antt =====
-- What a fetch of a worker keeps, and when its errors are raised again.
use reddit_kafka.Base.{
  ◌≡◌, ◌≢◌, refl, sym, ap, ◌∙◌, ℕ, Bool, false, Option, none, some, List, [], ◌∷◌, String,
  Bool-cases, inl, inr,
}
use reddit_kafka.Errors.{
  Foreign, Error, kafka_delivery_error, is_retryable, choose_recovery, Recovery, abandon, sleep,
  reraise,
}
use reddit_kafka.World.{Services, World}
use reddit_kafka.Errors.Strategy.{is_retryable_decides}
use reddit_kafka.Breaker.{Config, CircuitBreaker, Ending, cancelled, raised, admit, call}
use reddit_kafka.Breaker.Invariant.{
  IsUsable, IsSane, admit-IsSane, record_success-IsSane, call-IsSane,
}
use reddit_kafka.Worker.Comments.{Outcome, replayed, queued, invalid, delivery_error, suspended}
use reddit_kafka.Worker.Boundary.{IsAccounted}
use reddit_kafka.Worker.Accounts.{process_comment-IsAccounted}
use reddit_kafka.Worker.Session.{
  Turn, stop_turn, idle_turn, comment_turn, Session, streaming, stop_seen, delivery_failed, waiting,
  Fetch, go_on, take_comment, stream_comments, fetch_and_process_comments,
}
use reddit_kafka.Worker.Control.{Identity, LogEntry, raises, slept, handle_error, recover}
use reddit_kafka.Worker.Loop.{
  Interruption, exhausted, task_cancelled, source_raises, unready, Pass, loop_raised, end_fetch,
  run_fetch, coroutine, settle_fetch, guarded_fetch,
}

not_retryable :
    {f : Foreign} (e : Error f) → ((n : ℕ) → choose_recovery e ≢ sleep n) → is_retryable e ≡ false
not_retryable e never = elim (Bool-cases (is_retryable e)) [
  | inl yes_retry ↦ absurd (never _ ((is_retryable_decides e).0 yes_retry))
  | inr no_retry ↦ no_retry
]

delivery_abandons : (f : Foreign) → choose_recovery {f = f} kafka_delivery_error ≡ abandon
unfolding choose_recovery
delivery_abandons f = refl

awake : {n : ℕ} → sleep n ≡ abandon → ⊥
awake q = absurd cc

module _ {S : Services} {f : Foreign} (me : Identity) where
  -- an error that is raised again is not retryable, and a delivery error is raised again
  recover-raises :
      (e : Error f) (r : Recovery) (now : String) (w : World S)
      → choose_recovery e ≡ r
      → ((recover me r now w).1 ≡ raises → is_retryable e ≡ false)
        × ((n : ℕ) → (recover me r now w).1 ≡ slept n → e ≢ kafka_delivery_error)
  unfolding recover
  recover-raises e abandon now w chosen = (λ _. not_retryable e (λ n q. cc), (λ n q. absurd cc))
  recover-raises e reraise now w chosen = (λ _. not_retryable e (λ n q. cc), (λ n q. absurd cc))
  recover-raises e (sleep n) now w chosen = (
    λ q. absurd cc,
    (λ m q same. awake (sym chosen ∙ ap choose_recovery same ∙ delivery_abandons f)),
  )

  pub handle_error_lem :
      (e : Error f) (log : LogEntry) (now : String) (w : World S)
      → ((handle_error me e log now w).1 ≡ raises → is_retryable e ≡ false)
        × ((n : ℕ) → (handle_error me e log now w).1 ≡ slept n → e ≢ kafka_delivery_error)
  unfolding handle_error
  handle_error_lem e log now w = recover-raises e (choose_recovery e) now _ refl

module _ {f : Foreign} where
  pub raised_same : (e e' : Error f) → loop_raised e ≡ loop_raised e' → e ≡ e'
  raised_same e e' q = cc

  pub error_same : (e e' : Error f) → raised e ≡ raised e' → e ≡ e'
  error_same e e' q = cc

module _ {f : Foreign} (cfg : Config) where
  call_admitted :
      (now : ℕ) (coro : CircuitBreaker → CircuitBreaker × ℕ × Ending f) (b : CircuitBreaker)
      → (admit now b).1 ≡ none
      → (call cfg now coro b).1 ≡ (coro (admit now b).0).2
  unfolding call
  call_admitted now coro b e = rw (e, call) refl

module _ {S : Services} (cfg : Config) (usable : IsUsable cfg) where
  -- what a session leaves
  abbrev SessionKeeps : Fetch S × Session → Type 0
  SessionKeeps (s, session) =
      IsSane cfg s.breaker
      × (session ≢ delivery_failed → session ≢ waiting → IsAccounted s.progress)

  go_on-Keeps :
      (o : Outcome) (s : Fetch S) (rest : Fetch S × Session)
      → IsSane cfg s.breaker
      → (o ≢ delivery_error → o ≢ suspended → SessionKeeps rest)
      → SessionKeeps (go_on o s rest)
  unfolding go_on
  go_on-Keeps delivery_error s rest sane later = (sane, (λ nd nw. absurd (nd refl)))
  go_on-Keeps suspended s rest sane later = (sane, (λ nd nw. absurd (nw refl)))
  go_on-Keeps replayed s rest sane later = later (λ e. cc) (λ e. cc)
  go_on-Keeps queued s rest sane later = later (λ e. cc) (λ e. cc)
  go_on-Keeps invalid s rest sane later = later (λ e. cc) (λ e. cc)

  stream_comments-Keeps :
      (persists : Bool) (i : String) (last : Option String) (turns : List Turn) (s : Fetch S)
      → IsSane cfg s.breaker
      → IsAccounted s.progress
      → SessionKeeps (stream_comments cfg persists i last turns s)
  unfolding stream_comments take_comment
  stream_comments-Keeps persists i last [] s sane acc = (sane, (λ nd nw. acc))
  stream_comments-Keeps persists i last (stop_turn ∷ turns) s sane acc = (sane, (λ nd nw. acc))
  stream_comments-Keeps persists i last (idle_turn ∷ turns) s sane acc =
      stream_comments-Keeps persists i last turns s sane acc
  stream_comments-Keeps persists i last (comment_turn a ∷ turns) s sane acc =
      let taken = take_comment cfg persists i last a s in
      let better = record_success-IsSane cfg usable s.breaker sane in
      go_on-Keeps taken.1 taken.0 (stream_comments cfg persists i last turns taken.0) better
        (λ nd nw.
          stream_comments-Keeps persists i last turns taken.0 better
            (process_comment-IsAccounted persists i last a s.progress s.world acc nd nw))

  module _ {f : Foreign} (me : Identity) where
    -- what a fetch leaves
    abbrev pub FetchKeeps : Fetch S × Ending f → Type 0
    FetchKeeps (s, ending) =
        IsSane cfg s.breaker
        × (ending ≢ cancelled → ending ≢ raised kafka_delivery_error → IsAccounted s.progress)

    end_fetch-Keeps :
        (interruption : Interruption f) (now : String) (r : Fetch S × Session)
        → SessionKeeps r
        → FetchKeeps (end_fetch cfg me interruption now r)
    unfolding end_fetch
    end_fetch-Keeps interruption now (s, stop_seen) (sane, acc) =
        (sane, (λ nc nk. acc (λ e. cc) (λ e. cc)))
    end_fetch-Keeps interruption now (s, delivery_failed) (sane, acc) =
        (sane, (λ nc nk. absurd (nk refl)))
    end_fetch-Keeps interruption now (s, waiting) (sane, acc) = (sane, (λ nc nk. absurd (nc refl)))
    end_fetch-Keeps exhausted now (s, streaming) (sane, acc) =
        (sane, (λ nc nk. acc (λ e. cc) (λ e. cc)))
    end_fetch-Keeps task_cancelled now (s, streaming) (sane, acc) =
        (sane, (λ nc nk. absurd (nc refl)))
    end_fetch-Keeps (source_raises e) now (s, streaming) (sane, acc) =
        (sane, (λ nc nk. acc (λ e. cc) (λ e. cc)))
    end_fetch-Keeps (unready e) now (s, streaming) (sane, acc) =
        (sane, (λ nc nk. acc (λ e. cc) (λ e. cc)))

    run_fetch-Keeps :
        (turns : List Turn) (interruption : Interruption f) (now : String) (s : Fetch S)
        → IsSane cfg s.breaker
        → IsAccounted s.progress
        → FetchKeeps (run_fetch cfg me turns interruption now s)
    unfolding run_fetch fetch_and_process_comments
    run_fetch-Keeps turns (unready e) now s sane acc = (sane, (λ nc nk. acc))
    run_fetch-Keeps turns exhausted now s sane acc =
        end_fetch-Keeps exhausted now _
          (stream_comments-Keeps me.has_session_maker me.stream_id _ turns s sane acc)
    run_fetch-Keeps turns task_cancelled now s sane acc =
        end_fetch-Keeps task_cancelled now _
          (stream_comments-Keeps me.has_session_maker me.stream_id _ turns s sane acc)
    run_fetch-Keeps turns (source_raises e) now s sane acc =
        end_fetch-Keeps (source_raises e) now _
          (stream_comments-Keeps me.has_session_maker me.stream_id _ turns s sane acc)

    settle_fetch-Keeps :
        (refusal : Option ℕ) (s ran : Fetch S) (called : CircuitBreaker × Ending f)
        → IsSane cfg called.0
        → IsAccounted s.progress
        → (refusal ≡ none
            → called.1 ≢ cancelled
            → called.1 ≢ raised kafka_delivery_error
            → IsAccounted ran.progress)
        → FetchKeeps (settle_fetch cfg me refusal s ran called)
    unfolding settle_fetch
    settle_fetch-Keeps (some n) s ran (b, ending) sane acc after = (sane, (λ nc nk. acc))
    settle_fetch-Keeps none s ran (b, ending) sane acc after = (sane, after refl)

    coroutine-IsSane :
        (p : Pass S f) (s : Fetch S)
        → IsAccounted s.progress
        → (c : CircuitBreaker) → IsSane cfg c
        → IsSane cfg (coroutine cfg me p s c).0
    unfolding coroutine
    coroutine-IsSane p s acc c sane =
        (run_fetch-Keeps p.turns p.interruption p.fetch_now (record s { breaker = c }) sane acc).0

    pub guarded_fetch-Keeps :
        (p : Pass S f) (s : Fetch S)
        → IsSane cfg s.breaker
        → IsAccounted s.progress
        → FetchKeeps (guarded_fetch cfg me p s)
    unfolding guarded_fetch
    guarded_fetch-Keeps p s sane acc =
        let b = (admit p.asked_at s.breaker).0 in
        let fetched =
          run_fetch-Keeps p.turns p.interruption p.fetch_now (record s { breaker = b })
            (admit-IsSane cfg usable p.asked_at s.breaker sane) acc in
        let ran = run_fetch cfg me p.turns p.interruption p.fetch_now (record s { breaker = b }) in
        settle_fetch-Keeps (admit p.asked_at s.breaker).1 s ran.0
          (call cfg p.asked_at (coroutine cfg me p s) s.breaker)
          (call-IsSane cfg usable p.asked_at (coroutine cfg me p s) s.breaker
            (coroutine-IsSane p s acc) sane)
          acc
          (λ admitted nc nk.
            let same = call_admitted cfg p.asked_at (coroutine cfg me p s) s.breaker admitted in
            fetched.1 (λ e. nc (same ∙ e)) (λ e. nk (same ∙ e)))
