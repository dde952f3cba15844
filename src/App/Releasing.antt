-- ===== src/App/Releasing.antt =====
-- The leases at the end of the application.
use reddit_kafka.Base.{
  ◌≡◌, ◌≢◌, refl, sym, if◌then◌else◌, ap, ◌∙◌, Bool, true, false, Option, none, some, [], ◌∷◌,
  String, Dict, lookup, arith, str_eq, str_eq_iff, Bool-cases, inl, inr,
}
use reddit_kafka.Errors.{Foreign}
use reddit_kafka.Redis.Keys.{lock_key}
use reddit_kafka.World.{Services, World}
use reddit_kafka.Lock.{owns_lock, release_lock}
use reddit_kafka.Registry.Status.{update_status_if_owner}
use reddit_kafka.Worker.Control.{
  Identity, FinalCall, completes, fails, cut_off, save_at_end, release_at_end, after_save,
  finish_run,
}
use reddit_kafka.Worker.Closing.{strings-save_at_end}
use reddit_kafka.Worker.Running.{finish_run-gives_up}
use reddit_kafka.Manager.State.{Instance, LocalTask, Manager}
use reddit_kafka.Manager.Ending.{
  Drain, write_status, drain_task, drain_tasks, stop_all, begin_shutdown, task_cancelled,
  should_preserve_for_failover,
}
use reddit_kafka.Manager.Ended.{wanted_status, write_if}
use reddit_kafka.Manager.Drained.{drain_task_lem}
use reddit_kafka.Flusher.Effects.{flush_exact}
use reddit_kafka.App.Lifespan.{
  Phase, before_run, refreshing, running, Leaving, cancel_run, cancel_runner, cancel_task,
  drain_worker, shut_down,
}
use reddit_kafka.App.Shutdown.{unhurt}

some_one : (a b : String) → some a ≡ some b → a ≡ b
some_one a b e = cc

module _ {S : Services} (s t : String) where
  -- a token that owns nothing owns nothing after the release of any lease
  out-release_lock :
      (s' t' : String) (w : World S)
      → owns_lock s t w ≡ false
      → owns_lock s t (release_lock s' t' w).0 ≡ false
  unfolding owns_lock release_lock
  out-release_lock s' t' w out =
      ground (arith, out, S.strings.entry-del w.strings (lock_key s') (lock_key s))

  out-same :
      (v w : World S) → v.strings ≡ w.strings → owns_lock s t w ≡ false → owns_lock s t v ≡ false
  unfolding owns_lock
  out-same v w e out = ground (arith, e, out)

  if-out :
      (b : Bool) (w w' : World S)
      → owns_lock s t w ≡ false
      → owns_lock s t w' ≡ false
      → owns_lock s t (if b then w' else w) ≡ false
  if-out true w w' out out' = out'
  if-out false w w' out out' = out

  out-release_at_end :
      (me : Identity) (release : FinalCall) (w : World S)
      → owns_lock s t w ≡ false
      → owns_lock s t (release_at_end me release w).0 ≡ false
  unfolding release_at_end
  out-release_at_end me completes w out = out-release_lock me.subreddit me.lock_token w out
  out-release_at_end me (fails done) w out =
      if-out done w _ out (out-release_lock me.subreddit me.lock_token w out)
  out-release_at_end me (cut_off done) w out =
      if-out done w _ out (out-release_lock me.subreddit me.lock_token w out)

  out-after_save :
      (me : Identity) (release : FinalCall) (saved : World S × Bool)
      → owns_lock s t saved.0 ≡ false
      → owns_lock s t (after_save me release saved).0 ≡ false
  unfolding after_save
  out-after_save me release (w, true) out = out
  out-after_save me release (w, false) out = out-release_at_end me release w out

  out-finish_run :
      (me : Identity) (shutdown : Bool) (save release : FinalCall) (processed_at now : String)
      (w : World S)
      → owns_lock s t w ≡ false
      → owns_lock s t (finish_run me shutdown save release processed_at now w).0 ≡ false
  unfolding finish_run
  out-finish_run me shutdown save release processed_at now w out =
      out-after_save me release (save_at_end me shutdown save processed_at now w)
        (out-same _ w (strings-save_at_end me shutdown save processed_at now w) out)

  out-cancel_run :
      (me : Instance) (l : Leaving) (phase : Phase) (worker : Identity) (w : World S)
      → owns_lock s t w ≡ false
      → owns_lock s t (cancel_run me l phase worker w) ≡ false
  unfolding cancel_run
  out-cancel_run me l before_run worker w out = out
  out-cancel_run me l refreshing worker w out =
      out-finish_run worker false l.save l.release l.processed_at l.saved_at w out
  out-cancel_run me l running worker w out =
      out-finish_run worker true l.save l.release l.processed_at l.saved_at w out

  out-cancel_runner :
      (me : Instance) (l : Leaving) (subreddit : String) (lock_token : Option String) (w : World S)
      → owns_lock s t w ≡ false
      → owns_lock s t (cancel_runner me l subreddit lock_token w) ≡ false
  unfolding cancel_runner
  out-cancel_runner me l subreddit none w out = out
  out-cancel_runner me l subreddit (some lock_token) w out = out-cancel_run me l l.phase _ w out

  out-cancel_task :
      (me : Instance) (l : Leaving) (task : Option LocalTask) (w : World S)
      → owns_lock s t w ≡ false
      → owns_lock s t (cancel_task me l task w) ≡ false
  unfolding cancel_task
  out-cancel_task me l none w out = out
  out-cancel_task me l (some u) w out = out-cancel_runner me l u.subreddit u.lock_token w out

  strings-update_status_if_owner :
      (persists : Bool) (i status me now : String) (w : World S)
      → (update_status_if_owner persists i status me now w).0.strings ≡ w.strings
  unfolding update_status_if_owner
  strings-update_status_if_owner persists i status me now w = ground arith

  out-write_if :
      (me : Instance) (wanted : Option String) (i now : String) (m : Manager S)
      → owns_lock s t m.world ≡ false
      → owns_lock s t (write_if me wanted i now m).world ≡ false
  unfolding write_status
  out-write_if me none i now m out = out
  out-write_if me (some status) i now m out =
      out-same _ m.world
        (strings-update_status_if_owner me.has_session_maker i status me.instance_id now m.world)
        out

module _ {S : Services} (me : Instance) (l : Leaving)
    (uncut : (done : Bool) → l.save ≢ cut_off done) (releases : l.release ≡ completes) where
  -- the run that is cancelled gives its own token up
  freed-cancel_run :
      (phase : Phase) (worker : Identity) (w : World S)
      → phase ≢ before_run
      → owns_lock worker.subreddit worker.lock_token (cancel_run me l phase worker w) ≡ false
  unfolding cancel_run
  freed-cancel_run before_run worker w begun = absurd (begun refl)
  freed-cancel_run refreshing worker w begun =
      finish_run-gives_up worker false l.save l.release l.processed_at l.saved_at w uncut releases
  freed-cancel_run running worker w begun =
      finish_run-gives_up worker true l.save l.release l.processed_at l.saved_at w uncut releases

  freed-cancel_runner :
      (subreddit token : String) (lock_token : Option String) (w : World S)
      → l.phase ≢ before_run
      → lock_token ≡ some token
      → owns_lock subreddit token (cancel_runner me l subreddit lock_token w) ≡ false
  unfolding cancel_runner
  freed-cancel_runner subreddit token none w begun e = absurd cc
  freed-cancel_runner subreddit token (some u) w begun e =
      ap (λ (k : String). owns_lock subreddit k (cancel_runner me l subreddit (some u) w))
        (sym (some_one u token e))
      ∙ freed-cancel_run l.phase _ w begun

  freed-cancel_task :
      (token : String) (task : Option LocalTask) (t : LocalTask) (w : World S)
      → l.phase ≢ before_run
      → task ≡ some t
      → t.lock_token ≡ some token
      → owns_lock t.subreddit token (cancel_task me l task w) ≡ false
  unfolding cancel_task
  freed-cancel_task token none t w begun there e = absurd cc
  freed-cancel_task token (some u) t w begun there e =
      ap (λ (v : Option LocalTask). owns_lock t.subreddit token (cancel_task me l v w)) there
      ∙ freed-cancel_runner t.subreddit token t.lock_token w begun e

module _ {S : Services} (f : Foreign) (me : Instance) (leaving : String → Leaving)
    (local : String → Option LocalTask) where
  abbrev drain : String → Drain S f
  drain i = drain_worker me (leaving i) (local i)

  out-drain_task :
      (s t i : String) (m : Manager S)
      → owns_lock s t ((drain i).effect m.world) ≡ false
      → owns_lock s t (drain_task me (drain i) i m).0.world ≡ false
  out-drain_task s t i m out =
      let m' = record m { world = (drain i).effect m.world } in
      ap (λ (n : Manager S). owns_lock s t n.world)
        (drain_task_lem me drain (unhurt S f me leaving local) i m)
      ∙ out-write_if s t me
          (wanted_status (should_preserve_for_failover me (drain i).inspect_raises i m')
            (task_cancelled (drain i).raised))
          i (drain i).now m' out

  -- a token that owns nothing, and the token of the local task that is drained
  kept-drain_task :
      (s t i : String) (m : Manager S)
      → owns_lock s t m.world ≡ false
      → owns_lock s t (drain_task me (drain i) i m).0.world ≡ false
  kept-drain_task s t i m out =
      out-drain_task s t i m
        (unfold drain_worker in out-cancel_task s t me (leaving i) (local i) m.world out)

  kept-drain_tasks :
      (s t : String) (tasks : Dict LocalTask) (m : Manager S)
      → owns_lock s t m.world ≡ false
      → owns_lock s t (drain_tasks me drain tasks m).world ≡ false
  unfolding drain_tasks
  kept-drain_tasks s t [] m out = out
  kept-drain_tasks s t ((i, task) ∷ tasks) m out =
      kept-drain_tasks s t tasks _ (kept-drain_task s t i m out)

  module _ (j token : String) (t : LocalTask) (there : local j ≡ some t)
      (owned : t.lock_token ≡ some token) (begun : (leaving j).phase ≢ before_run)
      (uncut : (done : Bool) → (leaving j).save ≢ cut_off done)
      (releases : (leaving j).release ≡ completes) where
    freed-drain_task :
        (m : Manager S) → owns_lock t.subreddit token (drain_task me (drain j) j m).0.world ≡ false
    freed-drain_task m = out-drain_task t.subreddit token j m (
        unfold drain_worker in
        freed-cancel_task me (leaving j) uncut releases token (local j) t m.world begun there owned)

    freed-drain_tasks :
        (tasks : Dict LocalTask) (m : Manager S)
        → lookup j tasks ≢ none
        → owns_lock t.subreddit token (drain_tasks me drain tasks m).world ≡ false
    unfolding drain_tasks
    freed-drain_tasks [] m listed = absurd (listed refl)
    freed-drain_tasks ((i, task) ∷ tasks) m listed = elim (Bool-cases (str_eq i j)) [
      | inl e ↦ kept-drain_tasks t.subreddit token tasks _ (
          ap (λ (k : String). owns_lock t.subreddit token (drain_task me (drain k) k m).0.world)
            ((str_eq_iff i j).0 e)
          ∙ freed-drain_task m)
      | inr e ↦ freed-drain_tasks tasks _ (ground (arith, e, listed))
    ]

module _ {S : Services} (f : Foreign) (me : Instance) (leaving : String → Leaving) where
  -- When the application ends, the lease token of a local task, whose run has begun, whose save of
  -- the checkpoint is not cut off by a second cancellation and whose release of the lease is
  -- answered, owns no lease of the subreddit of the task, whatever the other tasks meet and whether
  -- the flush succeeds.
  pub shut_down_releases :
      (from_iso : String → Option String) (m : Manager S) (i token : String) (t : LocalTask)
      → lookup i m.tasks ≡ some t
      → t.lock_token ≡ some token
      → (leaving i).phase ≢ before_run
      → ((done : Bool) → (leaving i).save ≢ cut_off done)
      → (leaving i).release ≡ completes
      → owns_lock t.subreddit token (shut_down f me from_iso leaving m).0.world ≡ false
  unfolding shut_down stop_all
  shut_down_releases from_iso m i token t there owned begun uncut releases =
      let local = λ (k : String). lookup k m.tasks in
      let down = begin_shutdown m in
      let drained = drain_tasks {f = f} me (drain f me leaving local) m.tasks down in
      out-same t.subreddit token _ drained.world
        (flush_exact from_iso me.instance_id drained.world).3
        (freed-drain_tasks f me leaving local i token t there owned begun uncut releases m.tasks
          down (λ gone. cc (sym there ∙ gone)))
