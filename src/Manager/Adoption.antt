-- ===== src/Manager/Adoption.antt =====
-- When an adoption succeeds.
use reddit_kafka.Base.{
  ◌≡◌, ap, ◌∙◌, ◌<◌, ℕ, refl, Bool, true, false, none, some, [], ◌∷◌, String, Dict, truthy, arith,
  str_eq_refl,
}
use reddit_kafka.Errors.{Foreign, ok}
use reddit_kafka.Redis.Keys.{meta_key, lock_key, stop_request_key}
use reddit_kafka.Commands.{hget}
use reddit_kafka.World.{Services, World}
use reddit_kafka.Lock.{acquire_lock, is_locked}
use reddit_kafka.Lock.Laws.{lease, acquire_lock-granted, owns_lock-lease}
use reddit_kafka.Registry.Fields.{field_or_blank}
use reddit_kafka.Registry.Reading.{get_stream}
use reddit_kafka.Registry.Status.{update_status, is_stop_requested}
use reddit_kafka.Manager.State.{Instance, Manager, lease_ttl_seconds, has_task, may_run}
use reddit_kafka.Manager.Started.{may_run_lem}
use reddit_kafka.Manager.Activation.{start_local_worker, started}
use reddit_kafka.Manager.Adopting.{
  Resume, is_runnable, answer, try_resume, settle_resume, leased_resume, resume_stream,
}

module _ {S : Services} where
  -- `update_status` by an instance writes the status and the instance, and no text
  update_status_lem :
      (persists : Bool) (i status me now : String) (w : World S)
      → let w' = update_status persists i status (some me) now w in
        (w'.hashes
          ≡ S.hashes.hset w.hashes
              (meta_key i)
              (("status", status) ∷ ("updated_at", now) ∷ ("instance_id", me) ∷ []))
        × (w'.strings ≡ w.strings)
  unfolding update_status
  update_status_lem persists i status me now w = ground arith

  owned-update_status :
      (persists : Bool) (i status me now : String) (w : World S)
      → let w' = update_status persists i status (some me) now w in
        (hget w' (meta_key i) "status" ≡ some status)
        × (hget w' (meta_key i) "instance_id" ≡ some me)
  owned-update_status persists i status me now w =
      let law =
        S.hashes.lookup-hset w.hashes (meta_key i) (meta_key i)
          (("status", status) ∷ ("updated_at", now) ∷ ("instance_id", me) ∷ []) in
      rw ((update_status_lem persists i status me now w).0)
        (rw (law "status", law "instance_id", str_eq_refl i) (refl, refl))

  -- an acquisition changes nothing that tells whether a stream may run
  reads-acquire_lock :
      (i s t : String) (ttl : ℕ) (w : World S)
      → 0 < ttl
      → let w' = (acquire_lock s t ttl w).0 in
        (w'.hashes ≡ w.hashes) × (is_stop_requested i w' ≡ is_stop_requested i w)
  unfolding acquire_lock is_stop_requested
  reads-acquire_lock i s t ttl w p = (
    ground arith,
    ground (arith, S.strings.entry-set_ex w.strings (lock_key s) (stop_request_key i) t ttl p),
  )

module _ {S : Services} {f : Foreign} (me : Instance) (r : Resume S f) (i subreddit : String)
    (alone : (w : World S)
      → (r.before_lease w ≡ w)
        × (r.after_lease w ≡ w)
        × (r.activation.before w ≡ w)
        × (r.activation.during w ≡ w))
    (written : r.activation.update_raises ≡ false) (leases : me.has_lock_manager ≡ true)
    (real : truthy r.token ≡ true) where
  held_may_run :
      (w : World S)
      → lease subreddit w ≡ some (r.token, some lease_ttl_seconds)
      → may_run me subreddit (some r.token) w ≡ true
  held_may_run w held =
      may_run_lem me subreddit r.token leases real w
      ∙ owns_lock-lease subreddit r.token r.token w held
      ∙ str_eq_refl r.token

  -- a worker that owns the lease is started
  start_owned :
      (m : Manager S)
      → m.shutting_down ≡ false
      → has_task i m.tasks ≡ false
      → lease subreddit m.world ≡ some (r.token, some lease_ttl_seconds)
      → start_local_worker me r.activation i subreddit (some r.token) m ≡ (
        record m {
          world =
              update_status me.has_session_maker i "active"
                (some me.instance_id)
                r.activation.now
                m.world;
          tasks = (i, record { subreddit = subreddit; lock_token = some r.token }) ∷ m.tasks;
        },
        started,
      )
  unfolding start_local_worker
  start_owned m running absent held =
      let active =
        update_status me.has_session_maker i "active" (some me.instance_id) r.activation.now
          m.world in
      ground (
        arith,
        held_may_run m.world held,
        held_may_run active (
            ap (λ s. S.strings.entry s (lock_key subreddit))
              (update_status_lem me.has_session_maker i "active" me.instance_id r.activation.now
                m.world).1
            ∙ held),
        (alone m.world).2,
        (alone active).3,
      )

  -- the guards of an adoption let it pass
  asked_lem :
      (meta : Dict String) (m : Manager S)
      → field_or_blank "id" meta ≡ i
      → field_or_blank "subreddit" meta ≡ subreddit
      → truthy i ≡ true
      → truthy subreddit ≡ true
      → m.shutting_down ≡ false
      → has_task i m.tasks ≡ false
      → lease subreddit m.world ≡ none
      → resume_stream me r meta m
        ≡ leased_resume me r i subreddit m
            ((acquire_lock subreddit r.token lease_ttl_seconds m.world).0, some r.token)
  unfolding resume_stream is_locked
  asked_lem meta m named placed id real_subreddit running absent free =
      let grant =
        acquire_lock-granted subreddit r.token lease_ttl_seconds m.world (omega arith) free in
      ground (arith, (alone m.world).0, grant.0)

  stored_same :
      (v w : World S) → v.hashes ≡ w.hashes → get_stream {f = f} i v ≡ get_stream {f = f} i w
  unfolding get_stream
  stored_same v w e = rw e refl

  -- With the lease in its hands, an adoption of a stream that may run succeeds.
  leased_resume-adopts :
      (m : Manager S) (w : World S) (current : Dict String)
      → m.shutting_down ≡ false
      → has_task i m.tasks ≡ false
      → lease subreddit w ≡ some (r.token, some lease_ttl_seconds)
      → get_stream {f = f} i w ≡ ok current
      → is_runnable current ≡ true
      → is_stop_requested i w ≡ false
      → leased_resume me r i subreddit m (w, some r.token) ≡ (
        record m {
          world =
              update_status me.has_session_maker i "active"
                (some me.instance_id)
                r.activation.now
                w;
          tasks = (i, record { subreddit = subreddit; lock_token = some r.token }) ∷ m.tasks;
        },
        ok true,
      )
  unfolding leased_resume try_resume answer settle_resume
  leased_resume-adopts m w current running absent held stored runnable wanted =
      rw
        (
          (alone w).1,
          stored,
          runnable,
          wanted,
          start_owned (record m { world = w }) running absent held,
          str_eq_refl i,
        )
        refl

  -- With a lock manager, a fresh token, others who leave the world as it is and a write of the
  -- status that does not raise: a stream that has no lease, that this instance, which is not shutting
  -- down, does not run, whose stored mapping is active or starting and for which no stop is requested
  -- is adopted. It has a local task then, the lease is this token's for `LEASE_TTL_SECONDS`, and the
  -- mapping says that the stream is active and whose it is.
  pub resume_stream_adopts :
      (meta current : Dict String) (m : Manager S)
      → field_or_blank "id" meta ≡ i
      → field_or_blank "subreddit" meta ≡ subreddit
      → truthy i ≡ true
      → truthy subreddit ≡ true
      → m.shutting_down ≡ false
      → has_task i m.tasks ≡ false
      → lease subreddit m.world ≡ none
      → get_stream {f = f} i m.world ≡ ok current
      → is_runnable current ≡ true
      → is_stop_requested i m.world ≡ false
      → let (m', answered) = resume_stream me r meta m in
        (answered ≡ ok true)
        × (m'.tasks ≡ (i, record { subreddit = subreddit; lock_token = some r.token }) ∷ m.tasks)
        × (lease subreddit m'.world ≡ some (r.token, some lease_ttl_seconds))
        × (hget m'.world (meta_key i) "status" ≡ some "active")
        × (hget m'.world (meta_key i) "instance_id" ≡ some me.instance_id)
  resume_stream_adopts meta current m named placed id real_subreddit running absent free stored
        runnable wanted =
      let grant =
        acquire_lock-granted subreddit r.token lease_ttl_seconds m.world (omega arith) free in
      let w = (acquire_lock subreddit r.token lease_ttl_seconds m.world).0 in
      let reads = reads-acquire_lock i subreddit r.token lease_ttl_seconds m.world (omega arith) in
      let written' =
        update_status_lem me.has_session_maker i "active" me.instance_id r.activation.now w in
      let owned =
        owned-update_status me.has_session_maker i "active" me.instance_id r.activation.now w in
      rw (asked_lem meta m named placed id real_subreddit running absent free) (
        rw
          (leased_resume-adopts m w current running absent grant.1
            (stored_same _ _ reads.0 ∙ stored) runnable (reads.1 ∙ wanted))
          (
            refl,
            refl,
            ap (λ s. S.strings.entry s (lock_key subreddit)) written'.1 ∙ grant.1,
            owned.0,
            owned.1,
          ))
