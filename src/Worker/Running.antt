-- ===== src/Worker/Running.antt =====
-- What every run of a worker leaves behind.
use reddit_kafka.Base.{◌≡◌, ◌≢◌, refl, ap, arith, sym, if◌then◌else◌, Bool, true, false, String}
use reddit_kafka.Errors.{Foreign, Error, lock_lost_error, is_retryable}
use reddit_kafka.World.{Services, World}
use reddit_kafka.Lock.{owns_lock}
use reddit_kafka.Lock.Owners.{owns_lock-release_lock}
use reddit_kafka.Breaker.{Config, Ending, returned, cancelled, raised}
use reddit_kafka.Breaker.Invariant.{IsUsable, IsSane}
use reddit_kafka.Worker.Boundary.{IsAccounted}
use reddit_kafka.Worker.Session.{Fetch}
use reddit_kafka.Worker.Control.{
  Identity, Refreshed, still_owned, lock_lost, was_cancelled, refresh_lock_or_raise, finish_run,
  FinalCall, completes, cut_off,
}
use reddit_kafka.Worker.Closing.{finish_run_completes, finish_run_cut_off}
use reddit_kafka.Worker.Loop.{LoopEnd, looping, stopped, loop_cancelled, loop_raised, stream_loop}
use reddit_kafka.Worker.Looping.{stream_loop-Keeps}
use reddit_kafka.Worker.Run.{
  First, stream_first, lock_first, run_cancelled, Run, conclude_wait, await_tasks, end_run_of,
  run_tasks, after_first_refresh, run_worker,
}

lost_is_final : (f : Foreign) (e : Error f) → e ≡ lock_lost_error → is_retryable e ≡ false
unfolding is_retryable
lost_is_final f e q = rw q refl

module _ {S : Services} (me : Identity) where
  pub finish_run-gives_up :
      (shutdown : Bool) (save release : FinalCall) (processed_at now : String) (w : World S)
      → ((done : Bool) → save ≢ cut_off done)
      → release ≡ completes
      → owns_lock me.subreddit me.lock_token
          (finish_run me shutdown save release processed_at now w).0
        ≡ false
  finish_run-gives_up shutdown save release processed_at now w uncut answers =
      rw (answers, finish_run_completes me shutdown save processed_at now w uncut)
        (owns_lock-release_lock me.subreddit me.lock_token _)

cancelled_raises :
    (f : Foreign) (e : Error f) → ◌≡◌ {A = Ending f} cancelled (raised e) → is_retryable e ≡ false
cancelled_raises f e q = absurd cc

owns_lock-strings :
    {S : Services} (me : Identity) (v w : World S)
    → v.strings ≡ w.strings
    → owns_lock me.subreddit me.lock_token v ≡ owns_lock me.subreddit me.lock_token w
unfolding owns_lock
owns_lock-strings me v w e = ground (arith, e)

module _ {f : Foreign} where
  raised_one : (e e' : Error f) → raised e ≡ raised e' → e' ≡ e
  raised_one e e' q = cc

  conclude_wait-raises :
      (first : First) (out : LoopEnd f)
      → ((e : Error f) → out ≡ loop_raised e → is_retryable e ≡ false)
      → (e : Error f) → (conclude_wait first out).1 ≡ raised e
      → is_retryable e ≡ false
  unfolding conclude_wait
  conclude_wait-raises run_cancelled out loop e q = absurd cc
  conclude_wait-raises lock_first out loop e q = lost_is_final f e (raised_one lock_lost_error e q)
  conclude_wait-raises stream_first looping loop e q = absurd cc
  conclude_wait-raises stream_first loop_cancelled loop e q = absurd cc
  conclude_wait-raises stream_first stopped loop e q = absurd cc
  conclude_wait-raises stream_first (loop_raised e') loop e q =
      loop e (ap loop_raised (sym (raised_one e' e q)))

  await_tasks-raises :
      (gather_cut_off : Bool) (waited : Bool × Ending f) (e : Error f)
      → (await_tasks gather_cut_off waited).1 ≡ raised e
      → waited.1 ≡ raised e
  unfolding await_tasks
  await_tasks-raises true (shutdown, ending) e q = absurd cc
  await_tasks-raises false (shutdown, ending) e q = q

  -- a cancellation that leaves the outer `finally` takes the place of what is passed on
  cut-raised :
      (cut : Bool) (ending : Ending f) (e : Error f)
      → (if cut then cancelled else ending) ≡ raised e
      → ending ≡ raised e
  cut-raised true ending e q = absurd cc
  cut-raised false ending e q = q

  cut-not_returned :
      (cut : Bool) (ending : Ending f)
      → ending ≢ returned
      → (if cut then cancelled else ending) ≢ returned
  cut-not_returned true ending ne = λ q. cc
  cut-not_returned false ending ne = ne

module _ {S : Services} {f : Foreign} (cfg : Config) (usable : IsUsable cfg) (me : Identity)
    (r : Run S f) (uncut : (done : Bool) → r.save ≢ cut_off done)
    (releases : r.release ≡ completes) where
  end_run_of-gives_up :
      (s : Fetch S) (e : Bool × Ending f)
      → owns_lock me.subreddit me.lock_token (end_run_of cfg me r s e).0.world ≡ false
  unfolding end_run_of
  end_run_of-gives_up s (shutdown, ending) =
      finish_run-gives_up me shutdown r.save r.release r.processed_at r.now s.world uncut releases

  end_run_of-raises :
      (s : Fetch S) (e : Bool × Ending f) (x : Error f)
      → (end_run_of cfg me r s e).1 ≡ raised x
      → e.1 ≡ raised x
  unfolding end_run_of
  end_run_of-raises s (shutdown, ending) x q =
      cut-raised (finish_run me shutdown r.save r.release r.processed_at r.now s.world).1 ending x q

  -- a run that consumes nothing
  end_run_of-idle :
      (s : Fetch S) (w : World S) (shutdown : Bool) (ending : Ending f)
      → ending ≢ returned
      → let (s', out) = end_run_of cfg me r (record s { world = w }) (shutdown, ending) in
        (s'.progress ≡ s.progress) × (s'.breaker ≡ s.breaker) × (out ≢ returned)
  unfolding end_run_of
  end_run_of-idle s w shutdown ending ne = (
    refl,
    refl,
    cut-not_returned (finish_run me shutdown r.save r.release r.processed_at r.now w).1 ending ne,
  )

  -- what every run does, whatever the first refresh has answered
  abbrev Leaves : Fetch S → World S × Bool × Refreshed → Fetch S × Ending f → Type 0
  Leaves s (w, stops, refreshed) (s', ending) =
      (owns_lock me.subreddit me.lock_token s'.world ≡ false)
      × (refreshed ≢ still_owned
          → (s'.progress ≡ s.progress) × (s'.breaker ≡ s.breaker) × (ending ≢ returned))
      × ((e : Error f) → ending ≡ raised e → is_retryable e ≡ false)

  after_first_refresh-Leaves :
      (s : Fetch S) (first : World S × Bool × Refreshed)
      → IsSane cfg s.breaker
      → IsAccounted s.progress
      → Leaves s first (after_first_refresh cfg me r s first)
  unfolding after_first_refresh
  after_first_refresh-Leaves s (w, stops, lock_lost) sane acc = (
    end_run_of-gives_up (record s { world = w }) (false, raised lock_lost_error),
    (λ ne. end_run_of-idle s w false (raised lock_lost_error) (λ q. cc)),
    (λ e q. lost_is_final f e (
        raised_one lock_lost_error e
          (end_run_of-raises (record s { world = w }) (false, raised lock_lost_error) e q))),
  )
  after_first_refresh-Leaves s (w, stops, was_cancelled) sane acc = (
    end_run_of-gives_up (record s { world = w }) (false, cancelled),
    (λ ne. end_run_of-idle s w false cancelled (λ q. cc)),
    (λ e q.
        cancelled_raises f e (end_run_of-raises (record s { world = w }) (false, cancelled) e q)),
  )
  after_first_refresh-Leaves s (w, stops, still_owned) sane acc =
      let looped = stream_loop cfg me r.passes (record s { world = w }) in
      let ended = record looped.0 { world = r.others looped.0.world } in
      let waited = conclude_wait r.first looped.1 in
      let gathered = await_tasks r.gather_cut_off waited in
      let kept = stream_loop-Keeps cfg usable me r.passes (record s { world = w }) sane acc in
      (
        end_run_of-gives_up ended gathered,
        (λ ne. absurd (ne refl)),
        (λ e q.
            conclude_wait-raises r.first looped.1 kept.3 e (
              await_tasks-raises r.gather_cut_off waited e (end_run_of-raises ended gathered e q))),
      )

  -- For usable arguments of the breaker, and from a sane breaker and a worker whose account of
  -- deliveries holds: however a run ends, if the release of the lease at its end is answered and no
  -- further cancellation cuts off the save before it, its token owns no lease at the end. If the
  -- first refresh does not answer that the lease is still owned, the run consumes and publishes
  -- nothing, and does not return. And a run raises only what is not retryable.
  pub run_worker_releases :
      (s : Fetch S)
      → IsSane cfg s.breaker
      → IsAccounted s.progress
      → let (s', ending) = run_worker cfg me r s in
        let refreshed =
          (refresh_lock_or_raise me r.reply r.heartbeat_raises r.refreshed_at s.world).2 in
        (owns_lock me.subreddit me.lock_token s'.world ≡ false)
        × (refreshed ≢ still_owned
            → (s'.progress ≡ s.progress) × (s'.breaker ≡ s.breaker) × (ending ≢ returned))
        × ((e : Error f) → ending ≡ raised e → is_retryable e ≡ false)
  unfolding run_worker
  run_worker_releases s sane acc =
      after_first_refresh-Leaves s
        (refresh_lock_or_raise me r.reply r.heartbeat_raises r.refreshed_at s.world) sane acc

module _ {S : Services} {f : Foreign} (cfg : Config) (me : Identity) (r : Run S f) where
  after_first_refresh-owned :
      (s : Fetch S) (first : World S × Bool × Refreshed)
      → first.2 ≡ still_owned
      → after_first_refresh cfg me r s first ≡ run_tasks cfg me r (record s { world = first.0 })
  unfolding after_first_refresh
  after_first_refresh-owned s (w, stops, still_owned) e = refl
  after_first_refresh-owned s (w, stops, lock_lost) e = absurd cc
  after_first_refresh-owned s (w, stops, was_cancelled) e = absurd cc

  finish_run-cut :
      (save : FinalCall) (done : Bool) (w : World S)
      → save ≡ cut_off done
      → let (w', cut) = finish_run me true save r.release r.processed_at r.now w in
        (cut ≡ true) × (w'.strings ≡ w.strings)
  finish_run-cut save done w e = rw e (finish_run_cut_off me done r.release r.processed_at r.now w)

  end_run_of-cut :
      (s : Fetch S) (e : Bool × Ending f) (done : Bool)
      → e.0 ≡ true
      → r.save ≡ cut_off done
      → let (s', ending) = end_run_of cfg me r s e in
        (ending ≡ cancelled) × (s'.world.strings ≡ s.world.strings)
  unfolding end_run_of
  end_run_of-cut s (false, ending) done shutdown save = absurd cc
  end_run_of-cut s (true, ending) done shutdown save =
      let law = finish_run-cut r.save done s.world save in
      (ap (λ (b : Bool). if b then cancelled else ending) law.0, law.1)

  -- A run that is cancelled while it has the lease, and cancelled again while it saves its checkpoint
  -- in the outer `finally`, passes the cancellation on and does not release: every text of Redis is
  -- as the loop and others have left it, and a token that owns its lease then owns it still.
  pub run_worker_cut_off :
      (s : Fetch S) (done : Bool)
      → r.first ≡ run_cancelled
      → r.save ≡ cut_off done
      → let (w, stops, refreshed) =
          refresh_lock_or_raise me r.reply r.heartbeat_raises r.refreshed_at s.world in
        refreshed ≡ still_owned
        → let left = r.others (stream_loop cfg me r.passes (record s { world = w })).0.world in
          let (s', ending) = run_worker cfg me r s in
          (ending ≡ cancelled)
          × (s'.world.strings ≡ left.strings)
          × (owns_lock me.subreddit me.lock_token s'.world
              ≡ owns_lock me.subreddit me.lock_token left)
  unfolding run_worker run_tasks conclude_wait await_tasks
  run_worker_cut_off s done first save owned =
      let refreshed = refresh_lock_or_raise me r.reply r.heartbeat_raises r.refreshed_at s.world in
      let looped = stream_loop cfg me r.passes (record s { world = refreshed.0 }) in
      let left = record looped.0 { world = r.others looped.0.world } in
      let cut =
        end_run_of-cut left (await_tasks r.gather_cut_off (conclude_wait r.first looped.1)) done
          (ap (λ (c : First). (conclude_wait c looped.1).0) first) save in
      rw (after_first_refresh-owned s refreshed owned)
        (cut.0, cut.1, owns_lock-strings me _ left.world cut.1)
