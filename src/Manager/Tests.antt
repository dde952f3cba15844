-- ===== src/Manager/Tests.antt =====
-- The methods of `StreamManager` at concrete states.
use reddit_kafka.Base.{
  ◌≡◌, ◌≢◌, refl, true, false, ℕ, Option, none, some, List, [], ◌∷◌, String, Dict, lookup,
  if◌then◌else◌, ◌&&◌, ◌||◌, not,
}
use reddit_kafka.Errors.{ok, runtime_error, kafka_delivery_error}
use reddit_kafka.Redis.Keys.{key_eq, meta_key}
use reddit_kafka.Commands.{hget, hgetall, is_value}
use reddit_kafka.World.{World}
use reddit_kafka.World.Memory.{memory, rate_limits, empty_world, python_world}
use reddit_kafka.Lock.{owns_lock}
use reddit_kafka.Lock.Laws.{lease}
use reddit_kafka.Registry.Reading.{get_stream}
use reddit_kafka.Registry.Status.{is_stop_requested}
use reddit_kafka.Background.{Background}
use reddit_kafka.Manager.State.{Instance, Manager, lease_ttl_seconds}
use reddit_kafka.Manager.Activation.{Activation}
use reddit_kafka.Manager.Starting.{Start, start_stream}
use reddit_kafka.Manager.Adopting.{Resume, resume_stream}
use reddit_kafka.Manager.Ending.{
  finally_raises, watcher_failed, Drain, RunEnd, runner_ended, end_run, stop_all,
}
use reddit_kafka.Manager.Calls.{Call, starts, resumes, run_ends, run_calls}
use reddit_kafka.Manager.Started.{Settles, start_stream-Settles}
use reddit_kafka.Manager.Adopted.{Adopts, resume_stream-Adopts}
use reddit_kafka.Manager.Adoption.{resume_stream_adopts}
use reddit_kafka.Manager.Ended.{wanted_status, passed_on, end_run_exact}
use reddit_kafka.Manager.Drained.{stop_all_drains}
use reddit_kafka.Manager.Evolving.{IsUnique}
use reddit_kafka.Manager.Final.{run_calls-IsUnique, stop_all_final}

abbrev one : Instance
one = record { instance_id = "one"; has_session_maker = true; has_lock_manager = true }

abbrev quiet_activation : Activation memory
quiet_activation = record { before = λ w. w; during = λ w. w; update_raises = false; now = "t3" }

abbrev start : Start memory rate_limits
start = record {
  config = "{}";
  candidate_id = "s1";
  created_at = "t1";
  updated_at = "t2";
  before_identity = λ w. w;
  before_claim = λ w. w;
  before_lease = λ w. w;
  token = "one:1";
  activation = quiet_activation;
  raised = runtime_error;
}

abbrev resume : Resume memory rate_limits
resume = record {
  before_lease = λ w. w;
  after_lease = λ w. w;
  token = "one:1";
  activation = quiet_activation;
  raised = runtime_error;
}

-- a stream that its owner has left, and the manager that meets it
abbrev orphan : Dict String
orphan =
    ("id", "s1")
    ∷ ("subreddit", "python")
    ∷ ("status", "active")
    ∷ ("instance_id", "two")
    ∷ ("updated_at", "t0")
    ∷ []

-- a reconciliation that runs
abbrev sweeping : Background
sweeping = record { is_running = false; task = some 0; live = 0 ∷ []; next = 1 }

abbrev idle : World memory → Manager memory
idle w = record { world = w; tasks = []; shutting_down = false; reconciler = sweeping }

abbrev orphaned : Manager memory
orphaned =
    idle (record python_world { hashes = λ k. if key_eq k (meta_key "s1") then orphan else [] })

-- a manager that runs the stream
abbrev busy : Manager memory
busy = record {
  world = python_world;
  tasks = ("s1", record { subreddit = "python"; lock_token = some "one:1" }) ∷ [];
  shutting_down = false;
  reconciler = sweeping;
}

abbrev drain : String → Drain memory rate_limits
drain i = record {
  effect = λ w. w;
  raised = none;
  watched = none;
  inspect_raises = false;
  now = "t5";
}

start_stream-Settles_example :
    Settles "python" "one:1" (idle empty_world) (start_stream one start "python" (idle empty_world))
unfolding owns_lock
start_stream-Settles_example =
    start_stream-Settles one "python" refl start refl (λ v out. out) (λ v out. out) (λ v out. out)
      (idle empty_world) refl

resume_stream-Adopts_example :
    Adopts "s1" "python" "one:1" orphaned (resume_stream one resume orphan orphaned)
unfolding owns_lock
resume_stream-Adopts_example =
    resume_stream-Adopts one "s1" "python" refl resume refl (λ v out. out) orphan orphaned refl refl
      refl

resume_stream_adopts_example :
    let (m', answered) = resume_stream one resume orphan orphaned in
    (answered ≡ ok true)
    × (m'.tasks ≡ busy.tasks)
    × (lease "python" m'.world ≡ some ("one:1", some lease_ttl_seconds))
    × (hget m'.world (meta_key "s1") "status" ≡ some "active")
    × (hget m'.world (meta_key "s1") "instance_id" ≡ some "one")
unfolding get_stream is_stop_requested
resume_stream_adopts_example =
    resume_stream_adopts one resume "s1" "python" (λ w. (refl, refl, refl, refl)) refl refl refl
      orphan orphan orphaned refl refl refl refl refl refl refl refl refl refl

-- the runner cannot deliver
abbrev crash : RunEnd rate_limits
crash = runner_ended (some kafka_delivery_error)

end_run_exact_example :
    let (m', ended) = end_run one false none crash "s1" "t5" busy in
    let leaves = busy.shutting_down && (false || not (is_stop_requested "s1" busy.world)) in
    (ended ≡ passed_on crash)
    × (lookup "s1" m'.tasks ≡ none)
    × ((j : String) → "s1" ≢ j → lookup j m'.tasks ≡ lookup j busy.tasks)
    × (wanted_status leaves crash ≡ none → m'.world ≡ busy.world)
    × (is_value (hget busy.world (meta_key "s1") "instance_id") "one" ≡ false
        → m'.world ≡ busy.world)
    × ((status : String)
        → hget busy.world (meta_key "s1") "instance_id" ≡ some "one"
        → wanted_status leaves crash ≡ some status
        → (hget m'.world (meta_key "s1") "status" ≡ some status)
          × (hget m'.world (meta_key "s1") "updated_at" ≡ some "t5")
          × (hget m'.world (meta_key "s1") "instance_id" ≡ some "one"))
unfolding finally_raises
end_run_exact_example = end_run_exact one "s1" "t5" busy false none crash refl

-- the watcher cannot read the stop request
abbrev blind : RunEnd rate_limits
blind = watcher_failed runtime_error none

stop_all_drains_example :
    let m' = stop_all one drain busy in
    (m'.shutting_down ≡ true)
    × ((i : String) → lookup i m'.tasks ≡ none)
    × ((i : String)
        → is_stop_requested i busy.world ≡ false
        → hgetall m'.world (meta_key i) ≡ hgetall busy.world (meta_key i))
unfolding is_stop_requested
stop_all_drains_example = stop_all_drains one drain (λ i. refl) (λ i j w. (refl, refl)) busy

abbrev no_times : String → Option ℕ
no_times _ = none

-- a stream that is adopted, started again in vain, and that crashes
abbrev calls : List (Call memory rate_limits)
calls = resumes resume orphan ∷ starts start "python" ∷ run_ends false none crash "s1" "t5" ∷ []

run_calls-IsUnique_example : IsUnique (run_calls one no_times calls orphaned).tasks
run_calls-IsUnique_example = run_calls-IsUnique one no_times calls orphaned tt

stop_all_final_example :
    let m' = run_calls one no_times calls (stop_all one drain busy) in
    (m'.shutting_down ≡ true) × ((i : String) → lookup i m'.tasks ≡ none)
stop_all_final_example = stop_all_final one no_times drain (λ i. refl) calls busy
