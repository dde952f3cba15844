-- ===== src/App/Tests.antt =====
-- The application at concrete states.
use reddit_kafka.Base.{
  suc, ◌≡◌, refl, Bool, true, false, Option, none, some, [], ◌∷◌, String, lookup,
}
use reddit_kafka.Errors.{Error, err, ok, runtime_error, is_retryable}
use reddit_kafka.Redis.{is_empty}
use reddit_kafka.Redis.Keys.{meta_key}
use reddit_kafka.Commands.{hget, hgetall}
use reddit_kafka.World.{World}
use reddit_kafka.World.Memory.{memory, rate_limits, empty_world, python_world}
use reddit_kafka.Lock.{owns_lock}
use reddit_kafka.Registry.Fields.{or_blank}
use reddit_kafka.Registry.Status.{is_stop_requested}
use reddit_kafka.Breaker.{raised}
use reddit_kafka.Worker.Control.{Identity, answered, completes}
use reddit_kafka.Worker.Run.{run_cancelled}
use reddit_kafka.Background.{Background}
use reddit_kafka.Manager.State.{Instance, Manager}
use reddit_kafka.Manager.Starting.{Start}
use reddit_kafka.App.Streams.{
  answers, refuses, is_terminal, Creation, Stopping, create_stream_endpoint, stop_stream_endpoint,
}
use reddit_kafka.App.Creating.{
  Answered, create_stream_endpoint-Answered, create_stream_endpoint_taken,
}
use reddit_kafka.App.Stopping.{stop_stream_endpoint_exact}
use reddit_kafka.App.Runner.{Task, prepare, runner}
use reddit_kafka.App.Running.{Ready, runner_releases}
use reddit_kafka.App.Lifespan.{Leaving, running, shut_down}
use reddit_kafka.App.Releasing.{shut_down_releases}
use reddit_kafka.App.Clients.{Clients, open_clients, close_clients}
use reddit_kafka.App.Readiness.{Probe, readiness}
use reddit_kafka.App.Restarts.{clients, restart_renews}

abbrev one : Instance
one = record { instance_id = "one"; has_session_maker = true; has_lock_manager = true }

abbrev start : Start memory rate_limits
start = record {
  config = "{}";
  candidate_id = "s1";
  created_at = "t1";
  updated_at = "t2";
  before_identity = λ w. w;
  before_claim = λ w. w;
  before_lease = λ w. w;
  token = "one:1";
  activation = record { before = λ w. w; during = λ w. w; update_raises = false; now = "t3" };
  raised = runtime_error;
}

abbrev creation : Creation memory rate_limits
creation = record { has_client = true; meanwhile = λ w. w; load_raises = none; start = start }

abbrev none_runtime : Unit {0} → Bool
none_runtime _ = false

-- a reconciliation that runs
abbrev sweeping : Background
sweeping = record { is_running = false; task = some 0; live = 0 ∷ []; next = 1 }

abbrev idle : World memory → Manager memory
idle w = record { world = w; tasks = []; shutting_down = false; reconciler = sweeping }

create_stream_endpoint-Answered_example :
    Answered creation "python"
      (idle empty_world)
      (create_stream_endpoint one none_runtime 422 creation "python" (idle empty_world))
unfolding owns_lock
create_stream_endpoint-Answered_example =
    create_stream_endpoint-Answered one none_runtime 422 creation "python" refl refl (λ v out. out)
      (λ v out. out) (λ v out. out) (λ v out. out) (idle empty_world) refl

create_stream_endpoint_taken_example :
    let m = idle python_world in
    let (m', r) = create_stream_endpoint one none_runtime 422 creation "python" m in
    (r ≡ refuses 409)
    × (m'.tasks ≡ m.tasks)
    × (m'.world.hashes ≡ m.world.hashes)
    × (m'.world.sets ≡ m.world.sets)
    × (m'.world.db ≡ m.world.db)
create_stream_endpoint_taken_example =
    create_stream_endpoint_taken one none_runtime 422 creation "python" (idle python_world) "s1"
      refl refl refl refl refl

-- a manager that runs the stream
abbrev busy : Manager memory
busy = record {
  world = python_world;
  tasks = ("s1", record { subreddit = "python"; lock_token = some "one:1" }) ∷ [];
  shutting_down = false;
  reconciler = sweeping;
}

abbrev stopping : Stopping memory rate_limits
stopping = record {
  meanwhile = λ w. w;
  drain = record {
    effect = λ w. w;
    raised = none;
    watched = none;
    inspect_raises = false;
    now = "t5";
  };
  now = "t3";
  later = "t4";
}

stop_stream_endpoint_exact_example :
    let stored = hgetall busy.world (meta_key "s1") in
    let (m', r) = stop_stream_endpoint one stopping "s1" busy in
    (is_empty stored ≡ true → (m' ≡ busy) × (r ≡ refuses 404))
    × (is_empty stored ≡ false
        → is_terminal (lookup "status" stored) ≡ true
        → (m' ≡ busy) × (r ≡ answers ("s1", or_blank (lookup "status" stored))))
    × (is_empty stored ≡ false
        → is_terminal (lookup "status" stored) ≡ false
        → is_empty stored ≡ false
        → (r ≡ answers ("s1", "stopping"))
          × (is_stop_requested "s1" m'.world ≡ true)
          × (lookup "s1" m'.tasks ≡ none)
          × (lookup "s1" busy.tasks ≡ none
              → hget m'.world (meta_key "s1") "status" ≡ some "stopping"))
stop_stream_endpoint_exact_example =
    stop_stream_endpoint_exact one stopping "s1" refl refl (λ w. refl) busy

abbrev task : Task memory rate_limits
task = record {
  instance_id = "one";
  has_session_maker = true;
  key_error = tt;
  construction_raises = none;
  run = record {
    reply = answered;
    heartbeat_raises = false;
    refreshed_at = "t3";
    passes = [];
    first = run_cancelled;
    others = λ w. w;
    gather_cut_off = false;
    save = completes;
    release = completes;
    processed_at = "t4";
    now = "t5";
  };
}

runner_releases_example :
    let prepared = prepare task "python" (some "one:1") python_world in
    let (w', ending) = runner task "python" (some "one:1") python_world in
    ((e : Error rate_limits) → prepared ≡ err e → (w' ≡ python_world) × (ending ≡ raised e))
    × ((me : Identity)
        → prepared ≡ ok me
        → Ready task "python" python_world (some "one:1") me
          × (owns_lock "python" me.lock_token w' ≡ false)
          × ((e : Error rate_limits) → ending ≡ raised e → is_retryable e ≡ false))
runner_releases_example =
    runner_releases task "python" python_world (some "one:1") (λ done e. cc) refl

abbrev leaving : String → Leaving
leaving i = record {
  phase = running;
  stream_id = i;
  save = completes;
  release = completes;
  inspect_raises = false;
  processed_at = "t4";
  saved_at = "t5";
  now = "t6";
}

abbrev same_iso : String → Option String
same_iso t = some t

shut_down_releases_example :
    owns_lock "python" "one:1" (shut_down rate_limits one same_iso leaving busy).0.world ≡ false
shut_down_releases_example =
    shut_down_releases rate_limits one leaving same_iso busy "s1" "one:1"
      (record { subreddit = "python"; lock_token = some "one:1" }) refl refl (λ e. cc)
      (λ done e. cc) refl

-- a process that has not started, and a probe for which everything answers
abbrev untouched : Clients
untouched = clients none none none none none 0

abbrev healthy : Probe
healthy = record {
  has_reddit_client = true;
  has_redis = true;
  ping = some true;
  select = some tt;
  list_topics = some true;
}

restart_renews_example :
    let (c1, reddit) = open_clients untouched in
    let closed = close_clients (λ x. x) reddit false c1 in
    let broken = close_clients (λ x. x) reddit true c1 in
    let n = c1.next in
    (closed ≡ clients none none none none c1.session_maker n)
    × (open_clients closed ≡ (
      clients
          (some (suc (suc n)))
          (some (suc (suc (suc n))))
          (some (suc n))
          (some n)
          (some n)
          (suc (suc (suc (suc n)))),
      suc (suc n),
    ))
    × (broken ≡ clients none none c1.redis c1.engine c1.session_maker n)
    × (open_clients broken ≡ (
      clients (some (suc n)) (some (suc (suc n))) c1.redis (some n) (some n) (suc (suc (suc n))),
      suc n,
    ))
    × ((readiness healthy closed).0 ≡ 503)
    × ((readiness healthy broken).0 ≡ 503)
restart_renews_example = restart_renews untouched healthy
