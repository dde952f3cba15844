-- ===== src/Manager/Final.antt =====
-- What holds of a manager whatever is called.
use reddit_kafka.Base.{◌≡◌, refl, true, none, ℕ, Option, List, [], ◌∷◌, String, lookup}
use reddit_kafka.Errors.{Foreign}
use reddit_kafka.World.{Services}
use reddit_kafka.Manager.State.{Instance, Manager}
use reddit_kafka.Manager.Ending.{Drain, stop_all}
use reddit_kafka.Manager.Calls.{
  Call, starts, resumes, reconciles, run_ends, stops, drains, others_act, step, run_calls,
}
use reddit_kafka.Manager.Drained.{stop_all-gone}
use reddit_kafka.Manager.Evolving.{IsUnique, Evolves, Evolves-trans, Evolves-same}
use reddit_kafka.Manager.Evolution.{Evolves-world, start_stream-Evolves, resume_stream-Evolves}
use reddit_kafka.Manager.Sweeping.{
  reconcile_once-Evolves, end_run-Evolves, stop_stream-Evolves, stop_all-Evolves,
}

module _ {S : Services} {f : Foreign} (me : Instance) (from_iso : String → Option ℕ) where
  step-Evolves : (c : Call S f) (m : Manager S) → Evolves m (step me from_iso c m)
  unfolding step
  step-Evolves (starts s subreddit) m = start_stream-Evolves me s subreddit m
  step-Evolves (resumes r meta) m = resume_stream-Evolves me r meta m
  step-Evolves (reconciles sweep) m = reconcile_once-Evolves me from_iso sweep m
  step-Evolves (run_ends inspect_raises watched end i now) m =
      end_run-Evolves me inspect_raises watched end i now m
  step-Evolves (stops d i now later) m = stop_stream-Evolves me d i now later m
  step-Evolves (drains drain) m = stop_all-Evolves me drain m
  step-Evolves (others_act others) m = Evolves-world m (others m.world)

  run_calls-Evolves :
      (calls : List (Call S f)) (m : Manager S) → Evolves m (run_calls me from_iso calls m)
  unfolding run_calls
  run_calls-Evolves [] m = Evolves-same m m refl refl
  run_calls-Evolves (c ∷ calls) m =
      let m' = step me from_iso c m in
      Evolves-trans m m' (run_calls me from_iso calls m') (step-Evolves c m)
        (run_calls-Evolves calls m')

  -- Whatever calls a manager gets, and however its runs end, in any order: if no stream has two
  -- local tasks before, none has two afterwards.
  pub run_calls-IsUnique :
      (calls : List (Call S f)) (m : Manager S)
      → IsUnique m.tasks
      → IsUnique (run_calls me from_iso calls m).tasks
  run_calls-IsUnique calls m = (run_calls-Evolves calls m).0

  -- After a `stop_all` in which no watcher of stop requests has raised, no call of any kind makes this
  -- instance run a stream again, in any order and whatever the cancelled runners raise: it is shutting
  -- down for good, and has no local task.
  pub stop_all_final :
      (drain : String → Drain S f)
      → ((i : String) → (drain i).watched ≡ none)
      → (calls : List (Call S f)) (m : Manager S)
      → let m' = run_calls me from_iso calls (stop_all me drain m) in
        (m'.shutting_down ≡ true) × ((i : String) → lookup i m'.tasks ≡ none)
  stop_all_final drain unhurt calls m =
      let drained = stop_all-gone me drain unhurt m in
      let law = (run_calls-Evolves calls (stop_all me drain m)).1 drained.0 in
      (law.0, (λ i. law.1 i (drained.1 i)))
