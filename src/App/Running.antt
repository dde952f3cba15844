-- ===== src/App/Running.antt =====
-- What a runner leaves behind.
use reddit_kafka.Base.{
  ◌≡◌, ◌≢◌, Bool, refl, false, Option, none, some, String, Dict, lookup, arith, ap, ◌∙◌, sym,
}
use reddit_kafka.Errors.{Foreign, Error, Result, ok, err, is_retryable}
use reddit_kafka.World.{Services, World}
use reddit_kafka.Lock.{owns_lock}
use reddit_kafka.Registry.Reading.{get_stream_by_subreddit}
use reddit_kafka.Breaker.{raised, default_config}
use reddit_kafka.Breaker.Invariant.{default_config-IsUsable, new_breaker-IsSane}
use reddit_kafka.Worker.Boundary.{IsAccounted}
use reddit_kafka.Worker.Control.{Identity, completes, cut_off}
use reddit_kafka.Worker.Running.{run_worker_releases}
use reddit_kafka.App.Runner.{
  Task, new_progress, new_worker, construct, check_stream, prepare, run_prepared, runner,
}

new_progress-IsAccounted : IsAccounted new_progress
unfolding new_progress
new_progress-IsAccounted = record {
  settled = λ d lt out. absurd (omega arith);
  counted = refl;
  within = omega arith;
}

ok_one : {f : Foreign} {A : Type 0} (a b : A) → ◌≡◌ {A = Result f A} (ok a) (ok b) → a ≡ b
ok_one a b e = cc

err_one : {f : Foreign} {A : Type 0} (a b : Error f) → ◌≡◌ {A = Result f A} (err a) (err b) → a ≡ b
err_one a b e = cc

module _ {S : Services} {f : Foreign} (task : Task S f) (subreddit : String) (w : World S) where
  -- What a runner that is ready knows: its token, and the stream that the registry names.
  abbrev pub Ready : Option String → Identity → Type 0
  Ready lock_token me =
      (me.subreddit ≡ subreddit)
      × (lock_token ≡ some me.lock_token)
      × ((meta : Dict String) × (get_stream_by_subreddit {f = f} subreddit w ≡ ok (some meta))
          × (lookup "id" meta ≡ some me.stream_id))

  construct-ok :
      (token : String) (stream_id : Option String) (raises : Option (Error f)) (me : Identity)
      → construct task subreddit token stream_id raises ≡ ok me
      → (me.subreddit ≡ subreddit) × (me.lock_token ≡ token) × (stream_id ≡ some me.stream_id)
  unfolding construct
  construct-ok token none raises me e = absurd cc
  construct-ok token (some i) (some x) me e = absurd cc
  construct-ok token (some i) none me e =
      let same = ok_one _ me e in
      (
        ap (λ (k : Identity). k.subreddit) (sym same),
        ap (λ (k : Identity). k.lock_token) (sym same),
        ap (λ (k : Identity). some k.stream_id) same,
      )

  check_stream-Ready :
      (token : String) (found : Result f (Option (Dict String))) (me : Identity)
      → get_stream_by_subreddit {f = f} subreddit w ≡ found
      → check_stream task subreddit token found ≡ ok me
      → Ready (some token) me
  unfolding check_stream
  check_stream-Ready token (err x) me looked e = absurd cc
  check_stream-Ready token (ok none) me looked e = absurd cc
  check_stream-Ready token (ok (some meta)) me looked e =
      let law = construct-ok token (lookup "id" meta) task.construction_raises me e in
      (law.0, ap some (sym law.1), (meta, looked, law.2))

  prepare-Ready :
      (lock_token : Option String) (me : Identity)
      → prepare task subreddit lock_token w ≡ ok me
      → Ready lock_token me
  unfolding prepare
  prepare-Ready none me e = absurd cc
  prepare-Ready (some token) me e =
      check_stream-Ready token (get_stream_by_subreddit subreddit w) me refl e

  run_prepared_lem :
      (uncut : (done : Bool) → task.run.save ≢ cut_off done)
      (releases : task.run.release ≡ completes) (prepared : Result f Identity)
      → let (w', ending) = run_prepared task w prepared in
        ((e : Error f) → prepared ≡ err e → (w' ≡ w) × (ending ≡ raised e))
        × ((me : Identity)
            → prepared ≡ ok me
            → (owns_lock me.subreddit me.lock_token w' ≡ false)
              × ((e : Error f) → ending ≡ raised e → is_retryable e ≡ false))
  unfolding run_prepared
  run_prepared_lem uncut releases (err x) =
      ((λ e q. (refl, ap raised (err_one x e q))), (λ me q. absurd cc))
  run_prepared_lem uncut releases (ok known) = (
    λ e q. absurd cc,
    λ me q.
        let law =
          run_worker_releases default_config default_config-IsUsable known task.run uncut releases
            (new_worker w)
            (unfold new_worker in new_breaker-IsSane default_config default_config-IsUsable)
            (unfold new_worker in new_progress-IsAccounted) in
        (
          ap
                (λ (k : Identity).
                  owns_lock k.subreddit k.lock_token (run_prepared task w (ok known)).0)
                (sym (ok_one known me q))
              ∙ law.0,
          law.2,
        ),
  )

  -- A runner that fails before the run (there is no token, the registry names no stream with an id
  -- for the subreddit, or the construction of the worker raises) raises that and leaves the world,
  -- the lease with it, as it was. Otherwise the worker has the subreddit, the token of the call and
  -- the stream that the registry names; if the release at the end of the run is answered and no
  -- further cancellation cuts off the save before it, then, however the run ends, its token owns no
  -- lease at the end, and the runner raises only what is not retryable.
  pub runner_releases :
      (lock_token : Option String)
      → ((done : Bool) → task.run.save ≢ cut_off done)
      → task.run.release ≡ completes
      → let prepared = prepare task subreddit lock_token w in
        let (w', ending) = runner task subreddit lock_token w in
        ((e : Error f) → prepared ≡ err e → (w' ≡ w) × (ending ≡ raised e))
        × ((me : Identity)
            → prepared ≡ ok me
            → Ready lock_token me
              × (owns_lock subreddit me.lock_token w' ≡ false)
              × ((e : Error f) → ending ≡ raised e → is_retryable e ≡ false))
  unfolding runner
  runner_releases lock_token uncut releases =
      let law = run_prepared_lem uncut releases (prepare task subreddit lock_token w) in
      (
        law.0,
        λ me q.
            let ready = prepare-Ready lock_token me q in
            let ran = law.1 me q in
            (
              ready,
              ap (λ (s : String). owns_lock s me.lock_token (runner task subreddit lock_token w).0)
                    (sym ready.0)
                  ∙ ran.0,
              ran.1,
            ),
      )
