-- ===== src/Manager/Started.antt =====
-- What a start leaves behind, whether it succeeds or raises.
use reddit_kafka.Base.{
  if◌then◌else◌, ◌≡◌, ◌≢◌, refl, sym, ◌∙◌, Bool, true, false, Option, none, some, ◌∷◌, String, Dict,
  truthy, arith, inl, inr,
}
use reddit_kafka.Errors.{Foreign, Error, Result, ok, err}
use reddit_kafka.World.{Services, World}
use reddit_kafka.Lock.{owns_lock, acquire_lock}
use reddit_kafka.Lock.Owners.{owns_lock-same, owns_lock-release_lock, acquire_lock-either}
use reddit_kafka.Registry.Fields.{or_blank, field_or_blank}
use reddit_kafka.Redis.Keys.{subreddit_key, identity_key}
use reddit_kafka.Commands.{get, set_nx, is_truthy}
use reddit_kafka.Registry.Creation.{register_stream, claim_stream, create_stream_among}
use reddit_kafka.Registry.Frames.{delete_stream-keeps}
use reddit_kafka.Manager.State.{Instance, Manager, Others, lease_ttl_seconds, may_run, give_up}
use reddit_kafka.Manager.Activation.{
  Activation, Activated, started, refused, activation_raised, start_local_worker,
}
use reddit_kafka.Manager.Activated.{start_local_worker_exact}
use reddit_kafka.Manager.Starting.{
  Start, conclude_start, activate, leased_start, start_created, start_stream,
}

-- What others do never makes a token that owns nothing the owner of a lease.
abbrev pub NeverGrants : {S : Services} → String → String → Others S → Type 0
NeverGrants {S} subreddit token others =
    (v : World S)
    → owns_lock subreddit token v ≡ false
    → owns_lock subreddit token (others v) ≡ false

-- A call that answers has one more task, whose token owns the lease; one that raises has the tasks
-- that there were, and its token owns nothing.
abbrev pub Settles :
    {S : Services} {f : Foreign}
    → String
    → String
    → Manager S
    → Manager S × Result f (Dict String)
    → Type 0
Settles {S} {f} subreddit token m (m', r) =
    ((meta : Dict String)
      → r ≡ ok meta
      → (m'.tasks
          ≡ (field_or_blank "id" meta, record { subreddit = subreddit; lock_token = some token })
            ∷ m.tasks)
        × (owns_lock subreddit token m'.world ≡ true))
    × ((e : Error f)
        → r ≡ err e
        → (m'.tasks ≡ m.tasks) × (owns_lock subreddit token m'.world ≡ false))

module _ {S : Services} where
  strings-register_stream :
      (persists : Bool) (i subreddit : String) (instance_id : Option String) (config : String)
      (meta : Dict String) (w : World S)
      → (register_stream persists i subreddit instance_id config meta w).strings ≡ w.strings
  unfolding register_stream
  strings-register_stream persists i subreddit instance_id config meta w = ground arith

module _ {S : Services} (f : Foreign) (s t : String) where
  out-set_nx_identity :
      (subreddit i : String) (w : World S)
      → owns_lock s t w ≡ false
      → owns_lock s t (set_nx (identity_key subreddit) i w).0 ≡ false
  unfolding owns_lock
  out-set_nx_identity subreddit i w out = grind (arith, S.strings.entry-set, out)

  out-claim_stream :
      (persists : Bool) (i subreddit : String) (instance_id : Option String)
      (config created updated : String) (w : World S)
      → owns_lock s t w ≡ false
      → owns_lock s t
          (claim_stream {f = f} persists i subreddit instance_id config created updated w).0
        ≡ false
  unfolding claim_stream owns_lock
  out-claim_stream persists i subreddit instance_id config created updated w out =
      grind (arith, S.strings.entry-set, strings-register_stream, out)

  out-if :
      (b : Bool) (x y : World S × Result f (Dict String))
      → owns_lock s t x.0 ≡ false
      → owns_lock s t y.0 ≡ false
      → owns_lock s t (if b then x else y).0 ≡ false
  out-if true x y out out' = out
  out-if false x y out out' = out'

  -- a creation grants no lease, where others grant none
  out-create_stream_among :
      (before_identity before_claim : Others S)
      → NeverGrants s t before_identity
      → NeverGrants s t before_claim
      → (persists : Bool) (subreddit : String) (instance_id : Option String)
        (config candidate created updated : String) (w : World S)
      → owns_lock s t w ≡ false
      → owns_lock s t
          (create_stream_among {f = f} before_identity before_claim persists subreddit instance_id
            config candidate created updated w).0
        ≡ false
  unfolding create_stream_among
  out-create_stream_among before_identity before_claim quiet1 quiet2 persists subreddit instance_id
        config candidate created updated w out =
      let met = before_identity w in
      let met_out = quiet1 w out in
      let named = (set_nx (identity_key subreddit) candidate met).0 in
      let named_out = out-set_nx_identity subreddit candidate met met_out in
      out-if (is_truthy (get w (subreddit_key subreddit))) _ _
        (out-set_nx_identity subreddit (or_blank (get w (subreddit_key subreddit))) met met_out)
        (out-if _ _ _
          (out-claim_stream persists _ subreddit instance_id config created updated
            (before_claim named) (quiet2 named named_out))
          named_out)

module _ {S : Services} (me : Instance) (subreddit token : String)
    (leases : me.has_lock_manager ≡ true) (real : truthy token ≡ true) where
  pub may_run_lem :
      (w : World S) → may_run me subreddit (some token) w ≡ owns_lock subreddit token w
  unfolding may_run
  may_run_lem w = rw (real, leases, may_run) refl

  owns_lock-give_up :
      (w : World S) → owns_lock subreddit token (give_up me subreddit (some token) w) ≡ false
  unfolding give_up
  owns_lock-give_up w = rw (real, leases, give_up) (owns_lock-release_lock subreddit token w)

  -- what the second look at the lease tells of a worker that has been started
  pub launched :
      (a : Activation S) (i : String) (m : Manager S)
      → let (m', r) = start_local_worker me a i subreddit (some token) m in
        (r ≡ started
          → (m'.tasks ≡ (i, record { subreddit = subreddit; lock_token = some token }) ∷ m.tasks)
            × (owns_lock subreddit token m'.world ≡ true))
        × (r ≢ started → m'.tasks ≡ m.tasks)
  launched a i m =
      let law = start_local_worker_exact me a i subreddit (some token) m in
      (
        λ yes_started.
            let (_, _, tasks, _, owns) = law.0 yes_started in
            (
              tasks,
              sym (may_run_lem (start_local_worker me a i subreddit (some token) m).0.world) ∙ owns,
            ),
        law.1,
      )

  module _ {f : Foreign} where
    conclude_start-Settles :
        (e : Error f) (meta : Dict String) (m : Manager S) (a : Manager S × Activated)
        → (a.1 ≡ started
            → (a.0.tasks
                ≡ (
                  field_or_blank "id" meta,
                  record { subreddit = subreddit; lock_token = some token },
                )
                  ∷ m.tasks)
              × (owns_lock subreddit token a.0.world ≡ true))
          × (a.1 ≢ started → a.0.tasks ≡ m.tasks)
        → Settles subreddit token m (conclude_start me e subreddit (some token) meta a)
    unfolding conclude_start
    conclude_start-Settles e meta m (m', started) law =
        ((λ other r. (ground (arith, law.0 refl), (law.0 refl).1)), (λ x r. cc))
    conclude_start-Settles e meta m (m', refused) law =
        ((λ other r. cc), (λ x r. (law.1 (λ q. cc), owns_lock-give_up m'.world)))
    conclude_start-Settles e meta m (m', activation_raised) law =
        ((λ other r. cc), (λ x r. (law.1 (λ q. cc), owns_lock-give_up m'.world)))

    granted-Settles :
        (s : Start S f) (meta : Dict String) (m : Manager S) (w : World S)
        → Settles subreddit token m (leased_start me s subreddit meta m (w, some token))
    unfolding leased_start activate
    granted-Settles s meta m w =
        conclude_start-Settles s.raised meta m _
          (launched s.activation (field_or_blank "id" meta) (record m { world = w }))

    refused-Settles :
        (s : Start S f) (meta : Dict String) (m : Manager S) (w : World S)
        → owns_lock subreddit token w ≡ false
        → Settles subreddit token m (leased_start me s subreddit meta m (w, none))
    unfolding leased_start
    refused-Settles s meta m w out =
        let kept =
          delete_stream-keeps (field_or_blank "id" meta) (some "starting")
            (some (field_or_blank "updated_at" meta)) w in
        (
          (λ other r. cc),
          (λ x r. (refl, owns_lock-same subreddit token _ w (kept.2 subreddit) ∙ out)),
        )

module _ {S : Services} {f : Foreign} (me : Instance) (subreddit : String)
    (leases : me.has_lock_manager ≡ true) (s : Start S f) (real : truthy s.token ≡ true)
    (before_identity : NeverGrants subreddit s.token s.before_identity)
    (before_claim : NeverGrants subreddit s.token s.before_claim)
    (quiet : NeverGrants subreddit s.token s.before_lease) where
  start_created_lem :
      (meta : Dict String) (m : Manager S) (w : World S)
      → start_created me s subreddit m (w, ok meta)
        ≡ leased_start me s subreddit meta m
            (acquire_lock subreddit s.token lease_ttl_seconds (s.before_lease w))
  unfolding start_created
  start_created_lem meta m w = ground (arith, leases)

  start_created-Settles :
      (m : Manager S) (created : World S × Result f (Dict String))
      → owns_lock subreddit s.token created.0 ≡ false
      → Settles subreddit s.token m (start_created me s subreddit m created)
  start_created-Settles m (w, err e) out =
      unfold start_created in ((λ other r. cc), (λ x r. (refl, out)))
  start_created-Settles m (w, ok meta) out =
      let asked = s.before_lease w in
      elim (acquire_lock-either subreddit s.token lease_ttl_seconds asked (omega arith)) [
        | inl (granted, _) ↦
            rw (start_created_lem meta m w, granted)
              (granted-Settles me subreddit s.token leases real s meta m
                (acquire_lock subreddit s.token lease_ttl_seconds asked).0)
        | inr refusal ↦
            rw (start_created_lem meta m w, refusal)
              (refused-Settles me subreddit s.token leases real s meta m asked (quiet w out))
      ]

  -- With a lock manager and a fresh token, which owns no lease and which others do not grant one: a
  -- start that answers has created one local task for the stream that it answers, whose token owned
  -- the lease after the last await; a start that raises has left the local tasks as they were, and
  -- its token owns no lease.
  pub start_stream-Settles :
      (m : Manager S)
      → owns_lock subreddit s.token m.world ≡ false
      → Settles subreddit s.token m (start_stream me s subreddit m)
  unfolding start_stream
  start_stream-Settles m out = start_created-Settles m _ (
      out-create_stream_among f subreddit s.token s.before_identity s.before_claim before_identity
        before_claim me.has_session_maker subreddit (some me.instance_id) s.config s.candidate_id
        s.created_at s.updated_at m.world out)
