-- ===== src/Worker/Looping.antt =====
-- What the loop of a worker keeps, from fetch to fetch.
use reddit_kafka.Base.{
  ◌≡◌, ◌≢◌, refl, sym, ℕ, Bool, true, false, List, [], ◌∷◌, Bool-cases, inl, inr,
}
use reddit_kafka.Errors.{Foreign, Error, kafka_delivery_error, is_retryable}
use reddit_kafka.World.{Services, World}
use reddit_kafka.Breaker.{Config, Ending, returned, cancelled, raised}
use reddit_kafka.Breaker.Invariant.{IsUsable, IsSane}
use reddit_kafka.Worker.Boundary.{IsAccounted}
use reddit_kafka.Worker.Session.{Fetch}
use reddit_kafka.Worker.Control.{Identity, Handled, raises, slept}
use reddit_kafka.Worker.Loop.{
  Pass, LoopEnd, looping, stopped, loop_cancelled, loop_raised, after_error, recover_fetch,
  pass_once, follow, stream_loop,
}
use reddit_kafka.Worker.Fetching.{
  handle_error_lem, raised_same, error_same, FetchKeeps, guarded_fetch-Keeps,
}

module _ {S : Services} {f : Foreign} (cfg : Config) (usable : IsUsable cfg) (me : Identity) where
  -- what the loop leaves
  abbrev LoopKeeps : Fetch S × LoopEnd f → Type 0
  LoopKeeps (s, out) =
      IsSane cfg s.breaker
      × ((out ≡ looping) → IsAccounted s.progress)
      × ((out ≡ stopped) → IsAccounted s.progress)
      × ((e : Error f) → out ≡ loop_raised e → is_retryable e ≡ false)

  after_error-Keeps :
      (asleep : Bool) (e : Error f) (s : Fetch S) (r : World S × Handled)
      → IsSane cfg s.breaker
      → (e ≢ kafka_delivery_error → IsAccounted s.progress)
      → (r.1 ≡ raises → is_retryable e ≡ false)
      → ((n : ℕ) → r.1 ≡ slept n → e ≢ kafka_delivery_error)
      → LoopKeeps (after_error cfg me asleep e s r)
  unfolding after_error
  after_error-Keeps asleep e s (w, raises) sane acc fatal other = (
    sane,
    (λ q. absurd cc),
    (λ q. absurd cc),
    (λ e' q. rw (sym (raised_same e e' q)) (fatal refl)),
  )
  after_error-Keeps true e s (w, slept n) sane acc fatal other =
      (sane, (λ q. absurd cc), (λ q. absurd cc), (λ e' q. absurd cc))
  after_error-Keeps false e s (w, slept n) sane acc fatal other =
      (sane, (λ q. acc (other n refl)), (λ q. absurd cc), (λ e' q. absurd cc))

  recover_fetch-Keeps :
      (p : Pass S f) (r : Fetch S × Ending f)
      → FetchKeeps cfg usable me r
      → LoopKeeps (recover_fetch cfg me p r)
  unfolding recover_fetch
  recover_fetch-Keeps p (s, returned) (sane, acc) =
      (sane, (λ q. acc (λ e. cc) (λ e. cc)), (λ q. absurd cc), (λ e q. absurd cc))
  recover_fetch-Keeps p (s, cancelled) (sane, acc) =
      (sane, (λ q. absurd cc), (λ q. absurd cc), (λ e q. absurd cc))
  recover_fetch-Keeps p (s, raised e) (sane, acc) =
      let handled = handle_error_lem me e p.log p.error_now s.world in
      after_error-Keeps p.cancelled_asleep e s _ sane
        (λ ne. acc (λ q. cc) (λ q. ne (error_same e kafka_delivery_error q))) handled.0 handled.1

  pass_once-Keeps :
      (p : Pass S f) (s : Fetch S)
      → IsSane cfg s.breaker
      → IsAccounted s.progress
      → LoopKeeps (pass_once cfg me p s)
  unfolding pass_once
  pass_once-Keeps p s sane acc = elim (Bool-cases p.stop_event) [
    | inl e ↦ rw (e, pass_once) (sane, (λ q. acc), (λ q. acc), (λ e q. absurd cc))
    | inr e ↦
        rw (e, pass_once)
          (recover_fetch-Keeps p _
            (guarded_fetch-Keeps cfg usable me p (record s { world = p.others s.world }) sane acc))
  ]

  follow-Keeps :
      (once rest : Fetch S × LoopEnd f)
      → LoopKeeps once
      → (IsAccounted once.0.progress → LoopKeeps rest)
      → LoopKeeps (follow cfg me once rest)
  unfolding follow
  follow-Keeps (s, looping) rest kept later = later (kept.1 refl)
  follow-Keeps (s, stopped) rest kept later = kept
  follow-Keeps (s, loop_cancelled) rest kept later = kept
  follow-Keeps (s, loop_raised e) rest kept later = kept

  -- For usable arguments of the breaker, and from a sane breaker and a worker whose account of
  -- deliveries holds: after any number of fetches, with what others do to the world before each, and
  -- however the loop is left, the breaker is sane; the account of deliveries holds where the loop
  -- goes on or has seen the stop event; and the loop raises only what is not retryable.
  pub stream_loop-Keeps :
      (passes : List (Pass S f)) (s : Fetch S)
      → IsSane cfg s.breaker
      → IsAccounted s.progress
      → let (s', out) = stream_loop cfg me passes s in
        IsSane cfg s'.breaker
        × (out ≡ looping → IsAccounted s'.progress)
        × (out ≡ stopped → IsAccounted s'.progress)
        × ((e : Error f) → out ≡ loop_raised e → is_retryable e ≡ false)
  unfolding stream_loop
  stream_loop-Keeps [] s sane acc = (sane, (λ q. acc), (λ q. absurd cc), (λ e q. absurd cc))
  stream_loop-Keeps (p ∷ passes) s sane acc =
      let once = pass_once cfg me p s in
      let kept = pass_once-Keeps p s sane acc in
      follow-Keeps once (stream_loop cfg me passes once.0) kept
        (λ still. stream_loop-Keeps passes once.0 kept.0 still)
