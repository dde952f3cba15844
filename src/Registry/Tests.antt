-- ===== src/Registry/Tests.antt =====
-- The methods of apps/reddit-kafka/src/repositories/stream_registry.py at concrete states.
use reddit_kafka.Base.{◌≡◌, ◌≢◌, ◌⊎◌, refl, true, false, Option, none, some, String, Dict}
use reddit_kafka.Errors.{Result, ok, err, stream_exists_error}
use reddit_kafka.Redis.{or_field}
use reddit_kafka.Redis.Keys.{meta_key, checkpoint_key}
use reddit_kafka.Commands.{is_value, hget, hgetall}
use reddit_kafka.World.{World}
use reddit_kafka.World.Memory.{memory, rate_limits, empty_world, python_world}
use reddit_kafka.Registry.Fields.{new_meta}
use reddit_kafka.Registry.Status.{update_status_if_owner}
use reddit_kafka.Registry.Creation.{create_stream}
use reddit_kafka.Registry.Removal.{delete_stream}
use reddit_kafka.Registry.Checkpoints.{set_checkpoint, get_checkpoint}
use reddit_kafka.Registry.Ownership.{update_status_if_owner_exact}
use reddit_kafka.Registry.Restarting.{create_stream_once, restart_resumes}
use reddit_kafka.Registry.Progress.{get_checkpoint-set_checkpoint}

-- a creation of "python" by the instance "one", and by "two"
abbrev by_one : World memory → World memory × Result rate_limits (Dict String)
by_one = create_stream true "python" (some "one") "{}" "s1" "t0" "t1"

abbrev by_two : World memory → World memory × Result rate_limits (Dict String)
by_two = create_stream true "python" (some "two") "{}" "s2" "t2" "t3"

create_stream_once_example :
    let (w1, r1) = by_one empty_world in
    let (w2, r2) = by_two w1 in
    (r1 ≡ ok (new_meta "s1" "python" (some "one") "{}" "t0" "t1"))
    × (r2 ≡ err stream_exists_error)
    × (w2.hashes ≡ w1.hashes)
    × (w2.sets ≡ w1.sets)
    × (w2.db ≡ w1.db)
create_stream_once_example =
    create_stream_once rate_limits true "python" empty_world (some "one") (some "two") "{}" "{}"
      "s1" "s2" "t0" "t1" "t2" "t3" refl refl

restart_resumes_example :
    let w1 = (delete_stream "s1" (some "stopping") (some "t0") false python_world).0 in
    let (w2, r) = by_two w1 in
    (r ≡ ok (new_meta "s1" "python" (some "two") "{}" "t2" "t3"))
    × (get_checkpoint "s1" w2 ≡ get_checkpoint "s1" python_world)
restart_resumes_example =
    restart_resumes rate_limits true "python" python_world "s1" "stopping" "t0" (some "two") "{}"
      "s2" "t2" "t3" refl refl refl refl refl refl

update_status_if_owner_exact_example :
    (hget python_world (meta_key "s1") "instance_id" ≡ some "one"
      → let (w', done) = update_status_if_owner true "s1" "error" "one" "t1" python_world in
        (done ≡ true)
        × (hget w' (meta_key "s1") "status" ≡ some "error")
        × (hget w' (meta_key "s1") "updated_at" ≡ some "t1")
        × ((f : String)
            → f ≢ "status"
            → f ≢ "updated_at"
            → hget w' (meta_key "s1") f ≡ hget python_world (meta_key "s1") f))
    × (is_value (hget python_world (meta_key "s1") "instance_id") "one" ≡ false
        → update_status_if_owner true "s1" "error" "one" "t1" python_world ≡ (python_world, false))
update_status_if_owner_exact_example =
    update_status_if_owner_exact true "s1" python_world "error" "one" "t1"

get_checkpoint-set_checkpoint_example :
    let w' = set_checkpoint "s1" (some "c7") none "t1" python_world in
    let (new_id, new_time, new_update) = get_checkpoint "s1" w' in
    (new_id ≡ some "c7")
    × (new_time ≡ or_field none (get_checkpoint "s1" python_world).1)
    × ((◌≢◌ {A = Option String} (some "c7") none) ⊎ (◌≢◌ {A = Option String} none none)
        → new_update ≡ some "t1")
    × ((other : String)
        → other ≢ "s1"
        → hgetall w' (checkpoint_key other) ≡ hgetall python_world (checkpoint_key other))
    × ((other : String) → hgetall w' (meta_key other) ≡ hgetall python_world (meta_key other))
get_checkpoint-set_checkpoint_example =
    get_checkpoint-set_checkpoint "s1" python_world (some "c7") none "t1"
