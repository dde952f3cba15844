-- ===== src/Worker/Tests.antt =====
-- The worker of apps/reddit-kafka/src/stream/worker.py at concrete inputs.
use reddit_kafka.Base.{
  ℕ, zero, suc, ◌≡◌, ◌≢◌, ◌⊎◌, refl, true, false, All, none, some, List, [], ◌∷◌, if◌then◌else◌,
  arith,
}
use reddit_kafka.Redis.Keys.{key_eq, lock_key}
use reddit_kafka.World.{World}
use reddit_kafka.World.Memory.{memory, python_world, rate_limits}
use reddit_kafka.Lock.{refresh_lock, owns_lock}
use reddit_kafka.Lock.Laws.{lease}
use reddit_kafka.Worker.Deliveries.{
  Report, delivered, Futures, Round, batch_delivered, wait_for_delivery_batch, wait_loop, conclude,
  undone, complete_all, complete_delivery, any_failed,
}
use reddit_kafka.Worker.Awaiting.{wait_for_delivery_batch-delivered}
use reddit_kafka.Worker.Comments.{
  Progress, Attempt, queued, process_comment, publish, count_comment, after_batch,
}
use reddit_kafka.Worker.Boundary.{IsAccounted}
use reddit_kafka.Worker.Success.{all_reports}
use reddit_kafka.Errors.{Error, foreign, is_retryable}
use reddit_kafka.Breaker.{Ending, returned, raised, default_config, closed, open_circuit}
use reddit_kafka.Breaker.Invariant.{IsUsable, IsSane}
use reddit_kafka.Worker.Loop.{Pass, source_raises, looping, stopped, loop_raised, stream_loop}
use reddit_kafka.Worker.Run.{Run, stream_first, run_cancelled, run_worker}
use reddit_kafka.Worker.Running.{run_worker_releases, run_worker_cut_off}
use reddit_kafka.Worker.Looping.{stream_loop-Keeps}
use reddit_kafka.Worker.Session.{Turn, idle_turn, comment_turn, Fetch, fetch_and_process_comments}
use reddit_kafka.Worker.Commits.{committed, Committed, fetch_and_process_comments_commits}
use reddit_kafka.Worker.Control.{
  LogEntry, Identity, answered, unanswered, cancelled, still_owned, lock_lost, lock_ttl,
  refresh_lock_or_raise, completes, fails, cut_off,
}
use reddit_kafka.Lock.Leases.{acquire, pass}
use reddit_kafka.Worker.Refreshing.{
  LeaseTurn, refresh_turns, lock_refresh_loop, lock_refresh_loop_keeps,
}
use reddit_kafka.Worker.Closing.{refresh_fails_closed}

abbrev none_done : Futures
none_done d = none

-- the report of 0 comes with the poll, and that of 1 in the wait
abbrev two_pass : Round
two_pass = record {
  poll_raises = false;
  polled = (0, delivered) ∷ [];
  remaining = 9;
  waited = (1, delivered) ∷ [];
}

abbrev two_reports : List Round
two_reports = two_pass ∷ []

two_delivered :
    All (λ d. complete_all (all_reports two_reports) none_done d ≡ some delivered) (0 ∷ 1 ∷ [])
unfolding complete_all
two_delivered = (refl, (refl, tt))

abbrev late : List Round
late = record { poll_raises = false; polled = []; remaining = 0; waited = [] } ∷ []

wait_for_delivery_batch-delivered_example :
    let (left, after, outcome) = wait_for_delivery_batch two_reports (0 ∷ 1 ∷ []) none_done in
    (outcome ≡ batch_delivered → All (λ d. after d ≡ some delivered) (0 ∷ 1 ∷ []) × (left ≡ []))
    × ((d : ℕ) (r : Report) → none_done d ≡ some r → after d ≡ some r)
wait_for_delivery_batch-delivered_example =
    wait_for_delivery_batch-delivered two_reports (0 ∷ 1 ∷ []) none_done

abbrev below : ℕ → List ℕ
below zero = []
below (suc n) = n ∷ below n

-- a worker that has published 99 comments, whose reports are in
abbrev busy : Progress
busy = record {
  comments_since_checkpoint = 99;
  pending_deliveries = below 99;
  futures = λ _. some delivered;
  next_delivery = 99;
}

abbrev hundredth : Attempt
hundredth = record {
  comment_id = "c100";
  is_serialized = true;
  produce_raises = false;
  poll_raises = false;
  rounds =
      record { poll_raises = false; polled = (99, delivered) ∷ []; remaining = 9; waited = [] }
      ∷ [];
  save_raises = false;
  processed_at = "t0";
  now = "t1";
  entry_id = "e1";
  entry = "{}";
  message = "";
}

busy-IsAccounted : IsAccounted busy
busy-IsAccounted = record { settled = λ d lt out. refl; counted = refl; within = omega arith }

hundredth_queued : (process_comment true "s1" (some "c0") hundredth busy python_world).2 ≡ queued
unfolding process_comment publish count_comment after_batch wait_for_delivery_batch wait_loop
    conclude undone complete_all complete_delivery any_failed
hundredth_queued = refl

abbrev one : Identity
one = record {
  subreddit = "python";
  instance_id = "one";
  stream_id = "s1";
  lock_token = "a";
  has_session_maker = true;
}

-- the lease of "python" is that of the token "a"
abbrev leased_world : World memory
leased_world = record python_world {
  strings = λ k. if key_eq k (lock_key "python") then some ("a", some 5) else none;
}

refresh_fails_closed_example :
    let (w', stops, ending) = refresh_lock_or_raise one (unanswered true) false "t1" python_world in
    (ending ≡ still_owned
      → (unanswered true ≡ answered)
        × (owns_lock "python" "a" python_world ≡ true)
        × (lease "python" w' ≡ some ("a", some lock_ttl)))
    × (owns_lock "python" "a" python_world ≡ false
        → unanswered true ≢ cancelled
        → (ending ≡ lock_lost) × (stops ≡ true) × (w' ≡ python_world))
refresh_fails_closed_example = refresh_fails_closed one (unanswered true) false "t1" python_world

abbrev two_turns : List Turn
two_turns = idle_turn ∷ comment_turn hundredth ∷ []

abbrev busy_fetch : Fetch memory
busy_fetch = record {
  world = python_world;
  progress = busy;
  breaker = record {
    state = closed;
    failure_count = 3;
    success_count = 0;
    last_failure_time = some 0;
    backoff_seconds = 60;
  };
}

fetch_and_process_comments_commits_example :
    let s' = (fetch_and_process_comments default_config true "s1" two_turns busy_fetch).0 in
    (s'.world.hashes ≡ python_world.hashes)
    ⊎ Committed default_config true "s1"
        (committed default_config true "s1" busy_fetch)
        two_turns
        busy_fetch
        s'
fetch_and_process_comments_commits_example =
    fetch_and_process_comments_commits default_config true "s1" two_turns busy_fetch
      busy-IsAccounted

abbrev entry : LogEntry
entry = record {
  entry_id = "e1";
  entry = "{}";
  error_type = "TooManyRequests";
  message = "429";
  timestamp = "t1";
}

-- a fetch that Reddit stops with HTTP 429 after two turns, and one that the stop event prevents
abbrev limited_pass : Pass memory rate_limits
limited_pass = record {
  stop_event = false;
  others = λ w. w;
  asked_at = 500;
  turns = two_turns;
  interruption = source_raises (foreign tt);
  ended_at = 1000;
  fetch_now = "t1";
  log = entry;
  error_now = "t1";
  cancelled_asleep = false;
}

abbrev last_pass : Pass memory rate_limits
last_pass = record limited_pass { stop_event = true }

busy_breaker-IsSane : IsSane default_config busy_fetch.breaker
busy_breaker-IsSane = ground arith

usable : IsUsable default_config
usable = record {
  some_failures = omega arith;
  some_successes = omega arith;
  capped = omega arith;
  growing = omega arith;
}

stream_loop-Keeps_example :
    let (s', out) = stream_loop default_config one (limited_pass ∷ last_pass ∷ []) busy_fetch in
    IsSane default_config s'.breaker
    × (out ≡ looping → IsAccounted s'.progress)
    × (out ≡ stopped → IsAccounted s'.progress)
    × ((e : Error rate_limits) → out ≡ loop_raised e → is_retryable e ≡ false)
stream_loop-Keeps_example =
    stream_loop-Keeps default_config usable one (limited_pass ∷ last_pass ∷ []) busy_fetch
      busy_breaker-IsSane busy-IsAccounted

-- a breaker that has been open for half a millisecond
abbrev tripped_fetch : Fetch memory
tripped_fetch = record busy_fetch {
  breaker = record {
    state = open_circuit;
    failure_count = 5;
    success_count = 0;
    last_failure_time = some 0;
    backoff_seconds = 120;
  };
}

-- the lease is refreshed, and the loop is limited, and then stopped
abbrev whole_run : Run memory rate_limits
whole_run = record {
  reply = answered;
  heartbeat_raises = false;
  refreshed_at = "t1";
  passes = limited_pass ∷ last_pass ∷ [];
  first = stream_first;
  others = λ w. w;
  gather_cut_off = false;
  save = fails true;
  release = completes;
  processed_at = "t2";
  now = "t2";
}

abbrev leased_fetch : Fetch memory
leased_fetch = record busy_fetch { world = leased_world }

run_worker_releases_example :
    let (s', ending) = run_worker default_config one whole_run leased_fetch in
    let refreshed = (refresh_lock_or_raise one answered false "t1" leased_world).2 in
    (owns_lock "python" "a" s'.world ≡ false)
    × (refreshed ≢ still_owned
        → (s'.progress ≡ busy) × (s'.breaker ≡ busy_fetch.breaker) × (ending ≢ returned))
    × ((e : Error rate_limits) → ending ≡ raised e → is_retryable e ≡ false)
run_worker_releases_example =
    run_worker_releases default_config usable one whole_run (λ done e. cc) refl leased_fetch
      busy_breaker-IsSane busy-IsAccounted

-- the same run, cancelled, and cancelled again during the save
abbrev cut_run : Run memory rate_limits
cut_run = record whole_run { first = run_cancelled; save = cut_off true }

run_worker_cut_off_example :
    let w = (refresh_lock_or_raise one answered false "t1" leased_world).0 in
    let passes = limited_pass ∷ last_pass ∷ [] in
    let looped =
      stream_loop {f = rate_limits} default_config one passes (record leased_fetch { world = w }) in
    let left = looped.0.world in
    let (s', ending) = run_worker default_config one cut_run leased_fetch in
    (ending ≡ Ending.cancelled)
    × (s'.world.strings ≡ left.strings)
    × (owns_lock "python" "a" s'.world ≡ owns_lock "python" "a" left)
unfolding refresh_lock_or_raise refresh_lock
run_worker_cut_off_example =
    run_worker_cut_off default_config one cut_run leased_fetch true refl refl refl

-- two turns in which a rival asks for the lease in vain
abbrev rivalry : LeaseTurn
rivalry = record {
  operations = pass 30 ∷ acquire "python" "two:1" 60 ∷ pass 20 ∷ [];
  heartbeat_raises = true;
  now = "t1";
}

abbrev full_world : World memory
full_world = record python_world {
  strings = λ k. if key_eq k (lock_key "python") then some ("a", some lock_ttl) else none;
}

lock_refresh_loop_keeps_example :
    let (w', stops, refreshed) =
      lock_refresh_loop one (refresh_turns (rivalry ∷ rivalry ∷ [])) full_world in
    (refreshed ≡ still_owned) × (stops ≡ false) × (lease "python" w' ≡ some ("a", some lock_ttl))
lock_refresh_loop_keeps_example =
    lock_refresh_loop_keeps one (rivalry ∷ rivalry ∷ []) full_world
      (
        (omega arith, (tt, (omega arith, (tt, tt)))),
        ((omega arith, (tt, (omega arith, (tt, tt)))), tt),
      )
      refl
