-- ===== src/App/Stopping.antt =====
-- What a request to stop a stream is answered, and what it leaves behind.
use reddit_kafka.Base.{
  ◌≡◌, refl, ap, ◌∙◌, Bool, true, false, Option, none, some, [], ◌∷◌, String, lookup, arith,
  str_eq_refl, Option-cases, inl, inr,
}
use reddit_kafka.Errors.{Foreign, Error, Result, ok, err, stream_not_found_error}
use reddit_kafka.Redis.{is_empty}
use reddit_kafka.Redis.Keys.{meta_key, stop_request_key}
use reddit_kafka.Commands.{hgetall, hget, set}
use reddit_kafka.World.{Services, World}
use reddit_kafka.Registry.Fields.{or_none, or_blank}
use reddit_kafka.Registry.Reading.{get_stream}
use reddit_kafka.Registry.Status.{update_status, is_stop_requested, request_stop}
use reddit_kafka.Manager.State.{Instance, Manager, del_task}
use reddit_kafka.Manager.Ending.{
  Drain, drain_task, await_task, stop_local, stop_stream, task_cancelled,
  should_preserve_for_failover, write_status, Ended, cancels, returns, fails, finally_raises,
}
use reddit_kafka.Manager.Ended.{wanted_status, passed_on, write_if, end_run_lem, lookup-del_task}
use reddit_kafka.Manager.Drained.{update_status_if_owner-keeps}
use reddit_kafka.App.Streams.{
  answers, refuses, is_terminal, Stopping, answer_stop, stop_refusal, stop_read,
  stop_stream_endpoint,
}

module _ {S : Services} where
  -- `update_status` writes the status and no text
  status-update_status :
      (persists : Bool) (i status : String) (owner : Option String) (now : String) (w : World S)
      → let w' = update_status persists i status owner now w in
        (hget w' (meta_key i) "status" ≡ some status) × (w'.strings ≡ w.strings)
  unfolding update_status
  status-update_status persists i status none now w = (
    ground (
      arith,
      S.hashes.lookup-hset w.hashes (meta_key i) (meta_key i)
          (("status", status) ∷ ("updated_at", now) ∷ []) "status",
      str_eq_refl i,
    ),
    ground arith,
  )
  status-update_status persists i status (some me) now w = (
    ground (
      arith,
      S.hashes.lookup-hset w.hashes (meta_key i) (meta_key i)
          (("status", status) ∷ ("updated_at", now) ∷ ("instance_id", me) ∷ []) "status",
      str_eq_refl i,
    ),
    ground arith,
  )

  write_if-requests :
      (me : Instance) (i now : String) (m : Manager S) (wanted : Option String)
      → is_stop_requested i (write_if me wanted i now m).world ≡ is_stop_requested i m.world
  unfolding write_status
  write_if-requests me i now m none = refl
  write_if-requests me i now m (some status) =
      (update_status_if_owner-keeps me.has_session_maker i status me.instance_id now m.world i).1

module _ {S : Services} (f : Foreign) (i : String) (w : World S) where
  get_stream-there :
      is_empty (hgetall w (meta_key i)) ≡ false
      → get_stream {f = f} i w ≡ ok (hgetall w (meta_key i))
  unfolding get_stream
  get_stream-there there = ground (arith, there)

  get_stream-missing :
      is_empty (hgetall w (meta_key i)) ≡ true → get_stream {f = f} i w ≡ err stream_not_found_error
  unfolding get_stream
  get_stream-missing gone = ground (arith, gone)

module _ {S : Services} (f : Foreign) (persists : Bool) (i now later : String) (w : World S) where
  -- a request to stop a stream that has a mapping
  request_stop_lem :
      is_empty (hgetall w (meta_key i)) ≡ false
      → let (w', r) = request_stop {f = f} persists i now later w in
        (r ≡ ok tt)
        × (is_stop_requested i w' ≡ true)
        × (hget w' (meta_key i) "status" ≡ some "stopping")
  unfolding request_stop is_stop_requested
  request_stop_lem there =
      let owner = or_none (lookup "instance_id" (hgetall w (meta_key i))) in
      let marked = set (stop_request_key i) now w in
      let law = status-update_status persists i "stopping" owner later marked in
      rw (get_stream-there f i w there, request_stop)
        (
          refl,
          ground (
            arith,
            law.1,
            S.strings.entry-set w.strings (stop_request_key i) (stop_request_key i) now,
            str_eq_refl i,
          ),
          law.0,
        )

module _ {S : Services} {f : Foreign} (me : Instance) where
  answer_stop-ok :
      (i : String) (p : Manager S × Result f (Unit {0}))
      → p.1 ≡ ok tt
      → answer_stop me i p ≡ (p.0, answers (i, "stopping"))
  unfolding answer_stop
  answer_stop-ok i (m, ok tt) e = refl
  answer_stop-ok i (m, err x) e = absurd cc

  await-cancelled : (p : Manager S × Ended f) → p.1 ≡ cancels → await_task me p ≡ (p.0, ok tt)
  unfolding await_task
  await-cancelled (m, returns) e = refl
  await-cancelled (m, cancels) e = refl
  await-cancelled (m, fails x) e = absurd cc

module _ {S : Services} {f : Foreign} (me : Instance) (d : Drain S f) (i : String)
    (unhurt : d.watched ≡ none) (quiet : d.raised ≡ none) where
  -- a local task that is cancelled and ends as it should
  await_drained :
      (m : Manager S)
      → let m1 = record m { world = d.effect m.world } in
        let wanted =
          wanted_status
            (should_preserve_for_failover me d.inspect_raises i m1)
            (task_cancelled d.raised) in
        await_task me (drain_task me d i m) ≡ (
          record m { world = (write_if me wanted i d.now m1).world; tasks = del_task i m.tasks },
          ok tt,
        )
  unfolding drain_task finally_raises
  await_drained m =
      let m1 = record m { world = d.effect m.world } in
      let ended =
        end_run_lem me i d.now m1 d.inspect_raises d.watched (task_cancelled d.raised) unhurt in
      await-cancelled me (drain_task me d i m) (
        ap (λ (p : Manager S × Ended f). p.1) ended
        ∙ ap (λ (e : Option (Error f)). passed_on (task_cancelled e)) quiet)
      ∙ ap {B = Manager S × Result f (Unit {0})} (λ (p : Manager S × Ended f). (p.0, ok tt)) ended

  module _ (calm : (w : World S) → is_stop_requested i (d.effect w) ≡ is_stop_requested i w) where
    -- the local task of the stream, if there is one
    stop_local_lem :
        (m : Manager S)
        → let (m', r) = stop_local me d i m (ok tt) in
          (r ≡ ok tt)
          × (is_stop_requested i m'.world ≡ is_stop_requested i m.world)
          × (lookup i m'.tasks ≡ none)
          × (lookup i m.tasks ≡ none → m'.world ≡ m.world)
    unfolding stop_local
    stop_local_lem m = elim (Option-cases (lookup i m.tasks)) [
      | inl e ↦ rw (e, stop_local) (refl, refl, e, (λ gone. refl))
      | inr (t, e) ↦
          rw (e, stop_local, await_drained m)
            (
              refl,
              write_if-requests me i d.now (record m { world = d.effect m.world })
                    (wanted_status
                      (should_preserve_for_failover me d.inspect_raises i
                        (record m { world = d.effect m.world }))
                      (task_cancelled d.raised))
                  ∙ calm m.world,
              lookup-del_task i m.tasks,
              (λ gone. cc),
            )
    ]

module _ {S : Services} {f : Foreign} (me : Instance) (s : Stopping S f) (i : String)
    (unhurt : s.drain.watched ≡ none) (quiet : s.drain.raised ≡ none)
    (calm : (w : World S) → is_stop_requested i (s.drain.effect w) ≡ is_stop_requested i w) where
  -- the stop of a stream that has a mapping
  stop_stream_lem :
      (m : Manager S)
      → is_empty (hgetall m.world (meta_key i)) ≡ false
      → let (m', r) = stop_stream me s.drain i s.now s.later m in
        (r ≡ ok tt)
        × (is_stop_requested i m'.world ≡ true)
        × (lookup i m'.tasks ≡ none)
        × (lookup i m.tasks ≡ none → hget m'.world (meta_key i) "status" ≡ some "stopping")
  unfolding stop_stream
  stop_stream_lem m there =
      let asked = request_stop {f = f} me.has_session_maker i s.now s.later m.world in
      let law = request_stop_lem f me.has_session_maker i s.now s.later m.world there in
      let local = stop_local_lem me s.drain i unhurt quiet calm (record m { world = asked.0 }) in
      rw (law.0, stop_stream)
        (
          local.0,
          local.1 ∙ law.1,
          local.2,
          (λ gone. ap (λ (w : World S). hget w (meta_key i) "status") (local.3 gone) ∙ law.2),
        )

  -- Where the cancelled runner raises nothing, the watcher neither, and what is done before the
  -- runner has ended leaves the stop request alone: a request to stop a stream that has no mapping is
  -- refused with 404, and one for a stream that is stopped, in error or inactive is answered with
  -- that status; both change nothing. Any other request, if the stream still has a mapping when the
  -- stop begins, is answered "stopping": then the stop is requested, this instance has no local task
  -- for the stream, and if it had none before, the mapping says that the stream is stopping.
  pub stop_stream_endpoint_exact :
      (m : Manager S)
      → let stored = hgetall m.world (meta_key i) in
        let m1 = record m { world = s.meanwhile m.world } in
        let (m', r) = stop_stream_endpoint me s i m in
        (is_empty stored ≡ true → (m' ≡ m1) × (r ≡ refuses 404))
        × (is_empty stored ≡ false
            → is_terminal (lookup "status" stored) ≡ true
            → (m' ≡ m1) × (r ≡ answers (i, or_blank (lookup "status" stored))))
        × (is_empty stored ≡ false
            → is_terminal (lookup "status" stored) ≡ false
            → is_empty (hgetall m1.world (meta_key i)) ≡ false
            → (r ≡ answers (i, "stopping"))
              × (is_stop_requested i m'.world ≡ true)
              × (lookup i m'.tasks ≡ none)
              × (lookup i m.tasks ≡ none → hget m'.world (meta_key i) "status" ≡ some "stopping"))
  unfolding stop_stream_endpoint stop_read stop_refusal answer_stop
  stop_stream_endpoint_exact m =
      let m1 = record m { world = s.meanwhile m.world } in
      (
        λ gone. rw (get_stream-missing f i m.world gone) (refl, refl),
        λ there terminal. rw (get_stream-there f i m.world there, stop_read, terminal) (refl, refl),
        λ there runs still.
            let law = stop_stream_lem m1 still in
            rw (get_stream-there f i m.world there, stop_read, runs)
              (rw (answer_stop-ok me i (stop_stream me s.drain i s.now s.later m1) law.0)
                (refl, law.1, law.2, law.3)),
      )
