-- ===== src/Manager/Ended.antt =====
-- What `_run` leaves behind, and `stop_all`.
use reddit_kafka.Base.{
  ◌≡◌, ◌≢◌, refl, ap, ◌∙◌, Bool, true, false, not, ◌&&◌, Option, none, some, [], ◌∷◌, String, Dict,
  lookup, arith, str_eq_iff, if◌then◌else◌, ◌||◌,
}
use reddit_kafka.Errors.{
  ok, Foreign, Error, lock_lost_error, stream_not_found_error, kafka_delivery_error, runtime_error,
  stream_exists_error, circuit_open_error, foreign,
}
use reddit_kafka.Redis.Keys.{meta_key}
use reddit_kafka.Commands.{hget, is_value}
use reddit_kafka.World.{Services, World}
use reddit_kafka.Registry.Status.{is_stop_requested}
use reddit_kafka.Registry.Ownership.{update_status_if_owner-owner, update_status_if_owner-stranger}
use reddit_kafka.Manager.State.{Instance, LocalTask, Manager, has_task, del_task}
use reddit_kafka.Manager.Adopting.{Resume, resume_stream}
use reddit_kafka.Registry.Fields.{field_or_blank}
use reddit_kafka.Manager.Ending.{
  finally_raises, leave, RunEnd, runner_ended, stop_seen, watcher_failed, task_cancelled, Ended,
  returns, cancels, fails, write_status, should_preserve_for_failover, handle_runner_cancellation,
  record_end, conclude_run, end_run,
}

pub lookup-del_task : (i : String) (tasks : Dict LocalTask) → lookup i (del_task i tasks) ≡ none
lookup-del_task i [] = refl
lookup-del_task i ((j, t) ∷ tasks) = ground (arith, lookup-del_task i tasks)

pub lookup-del_task_ne :
    (i j : String) (tasks : Dict LocalTask) → i ≢ j → lookup j (del_task i tasks) ≡ lookup j tasks
lookup-del_task_ne i j [] ne = refl
lookup-del_task_ne i j ((k, t) ∷ tasks) ne =
    ground (arith, lookup-del_task_ne i j tasks ne, str_eq_iff k i, str_eq_iff k j)

-- The status that is wanted of a stream whose runner has raised, or not.
abbrev pub status_after : {f : Foreign} → Option (Error f) → Option String
status_after none = some "stopped"
status_after (some lock_lost_error) = none
status_after (some stream_not_found_error) = none
status_after (some e) = some "error"

-- The status that is wanted of a stream whose task has ended; `leaves` is whether a cancelled stream
-- is left to another instance.
abbrev pub wanted_status : {f : Foreign} → Bool → RunEnd f → Option String
wanted_status leaves (runner_ended raised) = status_after raised
wanted_status leaves (stop_seen raised) = status_after raised
wanted_status leaves (watcher_failed e raised) = status_after (some e)
wanted_status leaves (task_cancelled none) = if leaves then none else some "stopped"
wanted_status leaves (task_cancelled (some e)) = none

-- What `_run` passes on.
abbrev pub passed_on : {f : Foreign} → RunEnd f → Ended f
passed_on (task_cancelled none) = cancels
passed_on (task_cancelled (some e)) = fails e
passed_on _ = returns

abbrev pub write_if :
    {S : Services} → Instance → Option String → String → String → Manager S → Manager S
write_if me none i now m = m
write_if me (some status) i now m = write_status me status i now m

module _ {S : Services} {f : Foreign} (me : Instance) where
  -- a stream that has a local task is not adopted
  resume_stream-local :
      (r : Resume S f) (meta : Dict String) (m : Manager S)
      → has_task (field_or_blank "id" meta) m.tasks ≡ true
      → resume_stream me r meta m ≡ (m, ok false)
  unfolding resume_stream
  resume_stream-local r meta m runs = ground arith

module _ {S : Services} (me : Instance) (i now : String) (m : Manager S) where
  removed_lem :
      (wanted : Option String)
      → let marked = write_if me wanted i now m in
        record marked { tasks = del_task i marked.tasks }
        ≡ record m { world = marked.world; tasks = del_task i m.tasks }
  unfolding write_status
  removed_lem none = refl
  removed_lem (some status) = refl

  kept_lem :
      (wanted : Option String)
      → write_if me wanted i now m ≡ record m { world = (write_if me wanted i now m).world }
  unfolding write_status
  kept_lem none = refl
  kept_lem (some status) = refl

  write_if-stranger :
      (wanted : Option String)
      → is_value (hget m.world (meta_key i) "instance_id") me.instance_id ≡ false
      → (write_if me wanted i now m).world ≡ m.world
  unfolding write_status
  write_if-stranger none h = refl
  write_if-stranger (some status) h =
      ap (λ (p : World S × Bool). p.0)
        (update_status_if_owner-stranger me.has_session_maker i m.world status me.instance_id now h)

  write_if-owner :
      (status : String) (wanted : Option String)
      → hget m.world (meta_key i) "instance_id" ≡ some me.instance_id
      → wanted ≡ some status
      → let w' = (write_if me wanted i now m).world in
        (hget w' (meta_key i) "status" ≡ some status)
        × (hget w' (meta_key i) "updated_at" ≡ some now)
        × (hget w' (meta_key i) "instance_id" ≡ some me.instance_id)
  unfolding write_status
  write_if-owner status wanted h e =
      let done =
        update_status_if_owner-owner me.has_session_maker i m.world status me.instance_id now h in
      rw e (
        done.1,
        done.2,
        done.3 "instance_id" (ground (arith, str_eq_iff "instance_id" "status"))
              (ground (arith, str_eq_iff "instance_id" "updated_at"))
            ∙ h,
      )

module _ {S : Services} {f : Foreign} (me : Instance) (i now : String) (m : Manager S) where
  record_end_lem :
      (raised : Option (Error f))
      → record_end me raised i now m ≡ write_if me (status_after raised) i now m
  unfolding record_end
  record_end_lem none = refl
  record_end_lem (some lock_lost_error) = refl
  record_end_lem (some stream_not_found_error) = refl
  record_end_lem (some kafka_delivery_error) = refl
  record_end_lem (some runtime_error) = refl
  record_end_lem (some stream_exists_error) = refl
  record_end_lem (some (circuit_open_error _)) = refl
  record_end_lem (some (foreign _)) = refl

  conclude_run_lem :
      (inspect_raises : Bool) (end : RunEnd f)
      → conclude_run me inspect_raises end i now m ≡ (
        write_if me
            (wanted_status (should_preserve_for_failover me inspect_raises i m) end)
            i
            now
            m,
        passed_on end,
      )
  unfolding conclude_run handle_runner_cancellation
  conclude_run_lem inspect_raises (runner_ended raised) = rw (record_end_lem raised) refl
  conclude_run_lem inspect_raises (stop_seen raised) = rw (record_end_lem raised) refl
  conclude_run_lem inspect_raises (watcher_failed e raised) = rw (record_end_lem (some e)) refl
  conclude_run_lem inspect_raises (task_cancelled none) = ground arith
  conclude_run_lem inspect_raises (task_cancelled (some e)) = refl

  -- where the `finally` raises nothing
  pub end_run_lem :
      (inspect_raises : Bool) (watched : Option (Error f)) (end : RunEnd f)
      → finally_raises watched end ≡ none
      → let wanted = wanted_status (should_preserve_for_failover me inspect_raises i m) end in
        end_run me inspect_raises watched end i now m ≡ (
          record m { world = (write_if me wanted i now m).world; tasks = del_task i m.tasks },
          passed_on end,
        )
  unfolding end_run leave
  end_run_lem inspect_raises watched end clean =
      rw (conclude_run_lem inspect_raises end, clean)
        (ap {B = Manager S × Ended f} (λ (m' : Manager S). (m', passed_on end))
          (removed_lem me i now m
            (wanted_status (should_preserve_for_failover me inspect_raises i m) end)))

  -- where it raises
  pub end_run-raises :
      (inspect_raises : Bool) (watched : Option (Error f)) (end : RunEnd f) (e : Error f)
      → finally_raises watched end ≡ some e
      → let wanted = wanted_status (should_preserve_for_failover me inspect_raises i m) end in
        end_run me inspect_raises watched end i now m
        ≡ (record m { world = (write_if me wanted i now m).world }, fails e)
  unfolding end_run leave
  end_run-raises inspect_raises watched end e raises =
      rw (conclude_run_lem inspect_raises end, raises)
        (ap {B = Manager S × Ended f} (λ (m' : Manager S). (m', fails e))
          (kept_lem me i now m
            (wanted_status (should_preserve_for_failover me inspect_raises i m) end)))

  -- Where the `finally` of `_run` raises nothing: it removes the local task of its stream and no
  -- other, and passes on a cancellation, and what the runner raises while it is cancelled, and
  -- nothing else. The mapping is written only if it names this instance, and then the status is
  -- "stopped" where the runner returned, where a stop request was seen, and where the task was
  -- cancelled, unless the instance is shutting down and no stop is known to be requested; it is
  -- "error" where the runner or the watcher of stop requests raised, unless what was raised says that
  -- the lease or the stream is lost. In all other cases the world is as it was.
  pub end_run_exact :
      (inspect_raises : Bool) (watched : Option (Error f)) (end : RunEnd f)
      → finally_raises watched end ≡ none
      → let (m', ended) = end_run me inspect_raises watched end i now m in
        let leaves = m.shutting_down && (inspect_raises || not (is_stop_requested i m.world)) in
        (ended ≡ passed_on end)
        × (lookup i m'.tasks ≡ none)
        × ((j : String) → i ≢ j → lookup j m'.tasks ≡ lookup j m.tasks)
        × (wanted_status leaves end ≡ none → m'.world ≡ m.world)
        × (is_value (hget m.world (meta_key i) "instance_id") me.instance_id ≡ false
            → m'.world ≡ m.world)
        × ((status : String)
            → hget m.world (meta_key i) "instance_id" ≡ some me.instance_id
            → wanted_status leaves end ≡ some status
            → (hget m'.world (meta_key i) "status" ≡ some status)
              × (hget m'.world (meta_key i) "updated_at" ≡ some now)
              × (hget m'.world (meta_key i) "instance_id" ≡ some me.instance_id))
  unfolding should_preserve_for_failover
  end_run_exact inspect_raises watched end clean =
      let wanted = wanted_status (should_preserve_for_failover me inspect_raises i m) end in
      rw (end_run_lem inspect_raises watched end clean) (
        refl,
        lookup-del_task i m.tasks,
        (λ j ne. lookup-del_task_ne i j m.tasks ne),
        (λ none_wanted. ap (λ o. (write_if me o i now m).world) none_wanted),
        write_if-stranger me i now m wanted,
        (λ status. write_if-owner me i now m status wanted),
      )

  -- Where the `finally` of `_run` raises, as it does when the watcher of stop requests has raised, the
  -- ended run leaves its local task behind: the instance still takes the stream for one that it runs,
  -- and every later adoption of it by this instance answers no and changes nothing.
  pub end_run_leaks :
      (inspect_raises : Bool) (watched : Option (Error f)) (end : RunEnd f) (e : Error f)
      → finally_raises watched end ≡ some e
      → has_task i m.tasks ≡ true
      → let (m', ended) = end_run me inspect_raises watched end i now m in
        (ended ≡ fails e)
        × (has_task i m'.tasks ≡ true)
        × ((r : Resume S f) (meta : Dict String)
            → field_or_blank "id" meta ≡ i
            → resume_stream me r meta m' ≡ (m', ok false))
  end_run_leaks inspect_raises watched end e raises runs =
      rw (end_run-raises inspect_raises watched end e raises) (
        refl,
        runs,
        (λ r meta named.
            resume_stream-local me r meta _ (ap (λ j. has_task j m.tasks) named ∙ runs)),
      )
