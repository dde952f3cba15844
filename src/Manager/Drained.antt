-- ===== src/Manager/Drained.antt =====
-- What `stop_all` leaves behind.
use reddit_kafka.Base.{
  ◌≡◌, ◌≢◌, refl, sym, ap, ◌∙◌, Bool, true, false, Option, none, some, [], ◌∷◌, String, Dict,
  lookup, arith, str_eq, str_eq_iff, Bool-cases, inl, inr, ◌⊎◌,
}
use reddit_kafka.Errors.{Foreign, Error}
use reddit_kafka.Redis.Keys.{meta_key}
use reddit_kafka.Commands.{hgetall}
use reddit_kafka.World.{Services, World}
use reddit_kafka.Registry.Status.{is_stop_requested, update_status_if_owner}
use reddit_kafka.Manager.State.{Instance, LocalTask, Manager, del_task}
use reddit_kafka.Manager.Ending.{
  finally_raises, Ended, task_cancelled, write_status, should_preserve_for_failover, Drain,
  drain_task, drain_tasks, stop_all, begin_shutdown,
}
use reddit_kafka.Manager.Ended.{
  lookup-del_task, lookup-del_task_ne, wanted_status, write_if, end_run_lem,
}

head_gone :
    (i : String) (t : LocalTask) (j : String) (tasks all : Dict LocalTask)
    → lookup j tasks ≡ none
    → (lookup j ((i, t) ∷ tasks) ≡ none → lookup j all ≡ none)
    → lookup j (del_task i all) ≡ none
head_gone i t j tasks all absent gone = elim (Bool-cases (str_eq i j)) [
  | inl e ↦
      ap (λ (k : String). lookup k (del_task i all)) (sym ((str_eq_iff i j).0 e))
      ∙ lookup-del_task i all
  | inr e ↦
      lookup-del_task_ne i j all (λ (same : i ≡ j). cc (sym e ∙ (str_eq_iff i j).1 same))
      ∙ gone (rw e absent)
]

-- What is done before a cancelled task has ended leaves the mappings and the stop requests alone.
abbrev pub Tidy : {S : Services} {f : Foreign} → (String → Drain S f) → Type 0
Tidy {S} {f} drain =
    (i j : String) (w : World S)
    → (hgetall ((drain i).effect w) (meta_key j) ≡ hgetall w (meta_key j))
      × (is_stop_requested j ((drain i).effect w) ≡ is_stop_requested j w)

module _ {S : Services} (persists : Bool) (i status me now : String) (w : World S) where
  pub update_status_if_owner-keeps :
      (j : String)
      → let w' = (update_status_if_owner persists i status me now w).0 in
        (i ≢ j → hgetall w' (meta_key j) ≡ hgetall w (meta_key j))
        × (is_stop_requested j w' ≡ is_stop_requested j w)
  unfolding update_status_if_owner is_stop_requested
  update_status_if_owner-keeps j = (
    λ ne. ground (
      arith,
      S.hashes.hgetall-hset_ne w.hashes (meta_key i) (meta_key j)
          (("status", status) ∷ ("updated_at", now) ∷ []),
      str_eq_iff i j,
    ),
    ground arith,
  )

module _ {S : Services} (me : Instance) (i now : String) (m : Manager S)
    (down : m.shutting_down ≡ true) where
  -- while shutting down, only a stream whose stop is requested gets a status
  wanted_lem :
      {f : Foreign} (inspect_raises : Bool) (raised : Option (Error f))
      → let wanted =
          wanted_status
            (should_preserve_for_failover me inspect_raises i m)
            (task_cancelled raised) in
        (wanted ≡ none) ⊎ ((wanted ≡ some "stopped") × (is_stop_requested i m.world ≡ true))
  unfolding should_preserve_for_failover
  wanted_lem inspect_raises none = ground (arith, down)
  wanted_lem inspect_raises (some e) = inl refl

  write_if-keeps :
      (wanted : Option String) (j : String)
      → (wanted ≡ none) ⊎ ((wanted ≡ some "stopped") × (is_stop_requested i m.world ≡ true))
      → let w' = (write_if me wanted i now m).world in
        (is_stop_requested j w' ≡ is_stop_requested j m.world)
        × (is_stop_requested j m.world ≡ false
            → hgetall w' (meta_key j) ≡ hgetall m.world (meta_key j))
  unfolding write_status
  write_if-keeps wanted j (inl e) = rw e (refl, (λ _. refl))
  write_if-keeps wanted j (inr (e, requested)) =
      let kept =
        update_status_if_owner-keeps me.has_session_maker i "stopped" me.instance_id now m.world
          j in
      rw e (
        kept.1,
        λ unrequested. kept.0 (λ (same : i ≡ j).
            cc (
              sym requested ∙ ap (λ (k : String). is_stop_requested k m.world) same ∙ unrequested)),
      )

module _ {S : Services} {f : Foreign} (me : Instance) (drain : String → Drain S f)
    (unhurt : (i : String) → (drain i).watched ≡ none) where
  -- the end of a cancelled task, where nobody reads what it passes on
  pub drain_task_lem :
      (i : String) (m : Manager S)
      → let d = drain i in
        let m' = record m { world = d.effect m.world } in
        let wanted =
          wanted_status
            (should_preserve_for_failover me d.inspect_raises i m')
            (task_cancelled d.raised) in
        (drain_task me d i m).0
        ≡ record m { world = (write_if me wanted i d.now m').world; tasks = del_task i m.tasks }
  unfolding drain_task finally_raises
  drain_task_lem i m =
      let d = drain i in
      ap (λ (p : Manager S × Ended f). p.0)
        (end_run_lem me i d.now (record m { world = d.effect m.world }) d.inspect_raises d.watched
          (task_cancelled d.raised) (unhurt i))

  drain_tasks-gone :
      (tasks : Dict LocalTask) (m : Manager S)
      → m.shutting_down ≡ true
      → let m' = drain_tasks me drain tasks m in
        (m'.shutting_down ≡ true)
        × ((j : String)
            → (lookup j tasks ≡ none → lookup j m.tasks ≡ none)
            → lookup j m'.tasks ≡ none)
  unfolding drain_tasks
  drain_tasks-gone [] m down = (down, (λ j gone. gone refl))
  drain_tasks-gone ((i, t) ∷ tasks) m down =
      let m' = (drain_task me (drain i) i m).0 in
      let same = drain_task_lem i m in
      let rest = drain_tasks-gone tasks m' (ap (λ (n : Manager S). n.shutting_down) same ∙ down) in
      (
        rest.0,
        λ j gone. rest.1 j (λ absent.
            ap (λ (n : Manager S). lookup j n.tasks) same
            ∙ head_gone i t j tasks m.tasks absent gone),
      )

  pub stop_all-gone :
      (m : Manager S)
      → let m' = stop_all me drain m in
        (m'.shutting_down ≡ true) × ((i : String) → lookup i m'.tasks ≡ none)
  unfolding stop_all
  stop_all-gone m =
      let gone = drain_tasks-gone m.tasks (begin_shutdown m) refl in
      (gone.0, (λ i. gone.1 i (λ absent. absent)))

  module _ (tidy : Tidy drain) where
    -- a drained stream for which no stop is requested is left as it is, and any other stream too
    drain_task-keeps :
        (i j : String) (m : Manager S)
        → m.shutting_down ≡ true
        → let w' = (drain_task me (drain i) i m).0.world in
          (is_stop_requested j w' ≡ is_stop_requested j m.world)
          × (is_stop_requested j m.world ≡ false
              → hgetall w' (meta_key j) ≡ hgetall m.world (meta_key j))
    drain_task-keeps i j m down =
        let m' = record m { world = (drain i).effect m.world } in
        let kept =
          write_if-keeps me i (drain i).now m' down
            (wanted_status (should_preserve_for_failover me (drain i).inspect_raises i m')
              (task_cancelled (drain i).raised))
            j (wanted_lem me i (drain i).now m' down (drain i).inspect_raises (drain i).raised) in
        let calm = tidy i j m.world in
        rw (drain_task_lem i m)
          (kept.0 ∙ calm.1, (λ unrequested. kept.1 (calm.1 ∙ unrequested) ∙ calm.0))

    drain_tasks-keeps :
        (tasks : Dict LocalTask) (m : Manager S)
        → m.shutting_down ≡ true
        → (j : String) → is_stop_requested j m.world ≡ false
        → hgetall (drain_tasks me drain tasks m).world (meta_key j) ≡ hgetall m.world (meta_key j)
    unfolding drain_tasks
    drain_tasks-keeps [] m down j unrequested = refl
    drain_tasks-keeps ((i, t) ∷ tasks) m down j unrequested =
        let m' = (drain_task me (drain i) i m).0 in
        let same = drain_task_lem i m in
        let once = drain_task-keeps i j m down in
        drain_tasks-keeps tasks m' (ap (λ (n : Manager S). n.shutting_down) same ∙ down) j
          (once.0 ∙ unrequested)
        ∙ once.1 unrequested

    -- If what is done before the cancelled tasks have ended leaves the mappings and the stop requests
    -- alone, and no watcher of stop requests has raised, then after `stop_all` the instance is shutting down, no local task is left, whatever the
    -- runners raise, and every stream for which no stop is requested has the mapping that it had: its
    -- status and its owner are as they were, for another instance to adopt.
    pub stop_all_drains :
        (m : Manager S)
        → let m' = stop_all me drain m in
          (m'.shutting_down ≡ true)
          × ((i : String) → lookup i m'.tasks ≡ none)
          × ((i : String)
              → is_stop_requested i m.world ≡ false
              → hgetall m'.world (meta_key i) ≡ hgetall m.world (meta_key i))
    unfolding stop_all
    stop_all_drains m = (
      (stop_all-gone m).0,
      (stop_all-gone m).1,
      drain_tasks-keeps m.tasks (begin_shutdown m) refl,
    )
