-- ===== src/Manager/Sweeping.antt =====
-- How the sweep, the end of a run and the stops change the map of local tasks.
use reddit_kafka.Base.{
  truthy, if◌then◌else◌, refl, ap, ℕ, ◌+◌, Bool, Option, List, [], ◌∷◌, String, Dict, lookup,
  Option-cases, inl, inr, ◌&&◌, not,
}
use reddit_kafka.Errors.{Foreign, Error, Result, ok, err}
use reddit_kafka.World.{Services}
use reddit_kafka.Registry.Fields.{field_or_blank}
use reddit_kafka.Registry.Reading.{list_streams}
use reddit_kafka.Registry.Status.{request_stop, finalize_stop_if_unowned}
use reddit_kafka.Commands.{is_value, is_truthy}
use reddit_kafka.Manager.State.{Instance, LocalTask, Manager}
use reddit_kafka.Manager.Adopting.{
  Sweep, resume_stream, needs_reconciliation, reconcile_stream, reconcile_streams, reconcile_once,
}
use reddit_kafka.Manager.Ending.{
  finally_raises, RunEnd, task_cancelled, Ended, returns, cancels, fails, Drain, await_task,
  end_run, drain_task, stop_local, stop_stream, drain_tasks, stop_all, begin_shutdown,
}
use reddit_kafka.Manager.Ended.{end_run_lem, end_run-raises}
use reddit_kafka.Manager.Evolving.{Evolves, Evolves-trans, Evolves-same, Evolves-removes}
use reddit_kafka.Manager.Evolution.{
  Evolves-world, Evolves-either, Evolves-option, resume_stream-Evolves,
}

module _ {S : Services} {f : Foreign} (me : Instance) (from_iso : String → Option ℕ) where
  reconcile_stream-Evolves :
      (s : Sweep S f) (meta : Dict String) (m : Manager S)
      → Evolves m (reconcile_stream me from_iso s meta m)
  unfolding reconcile_stream
  reconcile_stream-Evolves s meta m =
      let i = field_or_blank "id" meta in
      let subreddit = field_or_blank "subreddit" meta in
      let seen = field_or_blank "updated_at" meta in
      let ends =
        is_value (lookup "status" meta) "stopping" && is_truthy (lookup "updated_at" meta) in
      let needs = needs_reconciliation from_iso s.clock meta in
      let resumed = (resume_stream me s.resume meta m).0 in
      let w = (finalize_stop_if_unowned me.has_session_maker i subreddit seen s.now m.world).0 in
      let finished = record m { world = w } in
      let stays = Evolves-same m m refl refl in
      Evolves-either m (not (truthy i && truthy subreddit)) m
        (if needs then resumed else (if ends then finished else m)) stays
        (Evolves-either m needs resumed (if ends then finished else m)
          (resume_stream-Evolves me s.resume meta m)
          (Evolves-either m ends finished m (Evolves-world m w) stays))

  reconcile_streams-Evolves :
      (sweep : ℕ → Sweep S f) (n : ℕ) (streams : List (Dict String)) (m : Manager S)
      → Evolves m (reconcile_streams me from_iso sweep n streams m)
  unfolding reconcile_streams
  reconcile_streams-Evolves sweep n [] m = Evolves-same m m refl refl
  reconcile_streams-Evolves sweep n (meta ∷ streams) m =
      let once = reconcile_stream me from_iso (sweep n) meta m in
      let next = record once { world = (sweep n).afterwards once.world } in
      Evolves-trans m once (reconcile_streams me from_iso sweep (n + 1) streams next)
        (reconcile_stream-Evolves (sweep n) meta m)
        (reconcile_streams-Evolves sweep (n + 1) streams next)

  pub reconcile_once-Evolves :
      (sweep : ℕ → Sweep S f) (m : Manager S) → Evolves m (reconcile_once me from_iso sweep m)
  unfolding reconcile_once
  reconcile_once-Evolves sweep m =
      reconcile_streams-Evolves sweep 0 (list_streams m.world).1
        (record m { world = (list_streams m.world).0 })

module _ {S : Services} {f : Foreign} (me : Instance) where
  pub end_run-Evolves :
      (inspect_raises : Bool) (watched : Option (Error f)) (end : RunEnd f) (i now : String)
      (m : Manager S)
      → Evolves m (end_run me inspect_raises watched end i now m).0
  end_run-Evolves inspect_raises watched end i now m =
      let ended = (end_run me inspect_raises watched end i now m).0 in
      let down = λ (p : Manager S × Ended f). p.0.shutting_down in
      let tasks = λ (p : Manager S × Ended f). p.0.tasks in
      elim (Option-cases (finally_raises watched end)) [
        | inl clean ↦
            let e = end_run_lem me i now m inspect_raises watched end clean in
            Evolves-removes m ended i (ap down e) (ap tasks e)
        | inr (raised, raises) ↦
            let e = end_run-raises me i now m inspect_raises watched end raised raises in
            Evolves-same m ended (ap tasks e) (ap down e)
      ]

  drain_task-Evolves :
      (d : Drain S f) (i : String) (m : Manager S) → Evolves m (drain_task me d i m).0
  unfolding drain_task
  drain_task-Evolves d i m =
      end_run-Evolves d.inspect_raises d.watched (task_cancelled d.raised) i d.now
        (record m { world = d.effect m.world })

  await_task-Evolves :
      (m : Manager S) (p : Manager S × Ended f) → Evolves m p.0 → Evolves m (await_task me p).0
  unfolding await_task
  await_task-Evolves m (m', returns) e = e
  await_task-Evolves m (m', cancels) e = e
  await_task-Evolves m (m', fails x) e = e

  stop_local-Evolves :
      (d : Drain S f) (i : String) (m : Manager S) (requested : Result f (Unit {0}))
      → Evolves m (stop_local me d i m requested).0
  unfolding stop_local
  stop_local-Evolves d i m (err e) = Evolves-same m m refl refl
  stop_local-Evolves d i m (ok _) =
      Evolves-option m (lookup i m.tasks) (m, ok tt) (λ t. await_task me (drain_task me d i m))
        (Evolves-same m m refl refl)
        (λ t. await_task-Evolves m (drain_task me d i m) (drain_task-Evolves d i m))

  pub stop_stream-Evolves :
      (d : Drain S f) (i now later : String) (m : Manager S)
      → Evolves m (stop_stream me d i now later m).0
  unfolding stop_stream
  stop_stream-Evolves d i now later m =
      let (w, requested) = request_stop {f = f} me.has_session_maker i now later m.world in
      stop_local-Evolves d i (record m { world = w }) requested

  drain_tasks-Evolves :
      (drain : String → Drain S f) (tasks : Dict LocalTask) (m : Manager S)
      → Evolves m (drain_tasks me drain tasks m)
  unfolding drain_tasks
  drain_tasks-Evolves drain [] m = Evolves-same m m refl refl
  drain_tasks-Evolves drain ((i, t) ∷ tasks) m =
      let m' = (drain_task me (drain i) i m).0 in
      Evolves-trans m m' (drain_tasks me drain tasks m') (drain_task-Evolves (drain i) i m)
        (drain_tasks-Evolves drain tasks m')

  pub stop_all-Evolves :
      (drain : String → Drain S f) (m : Manager S) → Evolves m (stop_all me drain m)
  unfolding stop_all
  stop_all-Evolves drain m =
      let down = begin_shutdown m in
      let rest = drain_tasks-Evolves drain m.tasks down in (rest.0, (λ _. rest.1 refl))
