-- ===== src/Manager/Adopted.antt =====
-- What an adoption leaves behind, and when it succeeds.
use reddit_kafka.Base.{
  ◌≡◌, ◌≢◌, refl, sym, ap, ◌∙◌, Bool, true, false, not, ◌&&◌, none, some, ◌∷◌, String, Dict, truthy,
  arith, Bool-cases, inl, inr, ◌⊎◌, str_eq_refl,
}
use reddit_kafka.Errors.{Foreign, Error, Result, ok, err}
use reddit_kafka.World.{Services, World}
use reddit_kafka.Lock.{owns_lock, acquire_lock}
use reddit_kafka.Lock.Owners.{owns_lock-release_lock, acquire_lock-either}
use reddit_kafka.Registry.Fields.{field_or_blank}
use reddit_kafka.Registry.Reading.{get_stream}
use reddit_kafka.Registry.Status.{is_stop_requested}
use reddit_kafka.Manager.State.{Instance, LocalTask, Manager, lease_ttl_seconds, has_task}
use reddit_kafka.Manager.Activation.{Activated, started, refused, activation_raised}
use reddit_kafka.Manager.Started.{NeverGrants, launched}
use reddit_kafka.Manager.Adopting.{
  Resume, is_runnable, answer, try_resume, settle_resume, leased_resume, resume_stream,
}

-- An adoption that answers yes has one more task, whose token owns the lease; any other end has the
-- tasks that there were, and its token owns nothing.
abbrev pub Adopts :
    {S : Services} {f : Foreign}
    → String
    → String
    → String
    → Manager S
    → Manager S × Result f Bool
    → Type 0
Adopts i subreddit token m (m', r) =
    (r ≡ ok true
      → (m'.tasks ≡ (i, record { subreddit = subreddit; lock_token = some token }) ∷ m.tasks)
        × (owns_lock subreddit token m'.world ≡ true))
    × (r ≢ ok true → (m'.tasks ≡ m.tasks) × (owns_lock subreddit token m'.world ≡ false))

-- What the body of the `try` leaves to the `finally`.
abbrev Tries :
    {S : Services} {f : Foreign}
    → String
    → String
    → String
    → Manager S
    → Manager S × Result f Bool
    → Type 0
Tries i subreddit token m (m', r) =
    (r ≡ ok true
      → (m'.tasks ≡ (i, record { subreddit = subreddit; lock_token = some token }) ∷ m.tasks)
        × (owns_lock subreddit token m'.world ≡ true))
    × (r ≢ ok true → m'.tasks ≡ m.tasks)

present :
    (i : String) (t : LocalTask) (tasks grown : Dict LocalTask)
    → grown ≡ (i, t) ∷ tasks
    → has_task i grown ≡ true
present i t tasks grown e = ap (has_task i) e ∙ rw (str_eq_refl i) refl

module _ {S : Services} {f : Foreign} (me : Instance) (i subreddit token : String) where
  answer-Tries :
      (e : Error f) (m : Manager S) (a : Manager S × Activated)
      → (a.1 ≡ started
          → (a.0.tasks ≡ (i, record { subreddit = subreddit; lock_token = some token }) ∷ m.tasks)
            × (owns_lock subreddit token a.0.world ≡ true))
        × (a.1 ≢ started → a.0.tasks ≡ m.tasks)
      → Tries i subreddit token m (answer me e a)
  unfolding answer
  answer-Tries e m (m', started) law = ((λ r. law.0 refl), (λ r. absurd (r refl)))
  answer-Tries e m (m', refused) law = ((λ r. cc), (λ r. law.1 (λ q. cc)))
  answer-Tries e m (m', activation_raised) law = ((λ r. cc), (λ r. law.1 (λ q. cc)))

  -- the `finally` keeps the lease of a stream that runs here and gives back any other
  settle_resume-Adopts :
      (m : Manager S) (tried : Manager S × Result f Bool)
      → has_task i m.tasks ≡ false
      → Tries i subreddit token m tried
      → Adopts i subreddit token m (settle_resume me i subreddit token tried)
  unfolding settle_resume
  settle_resume-Adopts m (m', ok true) absent law =
      rw (present i _ m.tasks m'.tasks (law.0 refl).0) ((λ q. law.0 refl), (λ q. absurd (q refl)))
  settle_resume-Adopts m (m', ok false) absent law =
      rw (ap (has_task i) (law.1 (λ q. cc)) ∙ absent)
        ((λ q. cc), (λ q. (law.1 q, owns_lock-release_lock subreddit token m'.world)))
  settle_resume-Adopts m (m', err e) absent law =
      rw (ap (has_task i) (law.1 (λ q. cc)) ∙ absent)
        ((λ q. cc), (λ q. (law.1 q, owns_lock-release_lock subreddit token m'.world)))

module _ {S : Services} {f : Foreign} (me : Instance) (r : Resume S f) (meta : Dict String) where
  -- the guards of an adoption
  resume_stream_lem :
      (m : Manager S)
      → (resume_stream me r meta m ≡ (m, ok false))
        ⊎ (has_task (field_or_blank "id" meta) m.tasks ≡ false)
          × (resume_stream me r meta m
              ≡ leased_resume me r (field_or_blank "id" meta) (field_or_blank "subreddit" meta) m (
                  acquire_lock
                    (field_or_blank "subreddit" meta)
                    r.token
                    lease_ttl_seconds
                    (r.before_lease m.world)))
  unfolding resume_stream
  resume_stream_lem m = ground arith

module _ {S : Services} {f : Foreign} (me : Instance) (i subreddit : String)
    (leases : me.has_lock_manager ≡ true) (r : Resume S f) (real : truthy r.token ≡ true)
    (quiet : NeverGrants subreddit r.token r.before_lease) where
  try_resume-Tries :
      (m : Manager S) (read : Result f (Dict String))
      → Tries i subreddit r.token m (try_resume me r i subreddit m read)
  unfolding try_resume
  try_resume-Tries m (err e) = ((λ q. cc), (λ q. refl))
  try_resume-Tries m (ok current) =
      elim (Bool-cases (is_runnable current && not (is_stop_requested i m.world))) [
        | inl e ↦
            rw (e, try_resume)
              (answer-Tries me i subreddit r.token r.raised m _
                (launched me subreddit r.token leases real r.activation i m))
        | inr e ↦ rw (e, try_resume) ((λ q. cc), (λ q. refl))
      ]

  granted_lem :
      (m : Manager S) (w : World S)
      → has_task i m.tasks ≡ false
      → Adopts i subreddit r.token m (leased_resume me r i subreddit m (w, some r.token))
  unfolding leased_resume
  granted_lem m w absent =
      let m' = record m { world = r.after_lease w } in
      settle_resume-Adopts me i subreddit r.token m
        (try_resume me r i subreddit m' (get_stream i m'.world)) absent
        (try_resume-Tries m' (get_stream i m'.world))

  refused_lem :
      (m : Manager S) (w : World S)
      → owns_lock subreddit r.token w ≡ false
      → Adopts i subreddit r.token m (leased_resume me r i subreddit m (w, none))
  unfolding leased_resume
  refused_lem m w out = ((λ q. cc), (λ q. (refl, out)))

  leased_resume-Adopts :
      (m : Manager S) (w : World S)
      → has_task i m.tasks ≡ false
      → owns_lock subreddit r.token w ≡ false
      → Adopts i subreddit r.token m
          (leased_resume me r i subreddit m (acquire_lock subreddit r.token lease_ttl_seconds w))
  leased_resume-Adopts m w absent out =
      elim (acquire_lock-either subreddit r.token lease_ttl_seconds w (omega arith)) [
        | inl (granted, _) ↦
            rw granted (granted_lem m (acquire_lock subreddit r.token lease_ttl_seconds w).0 absent)
        | inr refusal ↦ rw refusal (refused_lem m w out)
      ]

  -- With a lock manager and a fresh token, which owns no lease and which others do not grant one: an
  -- adoption that answers yes has created one local task for the stream, whose token owned the lease
  -- after the last await; an adoption that answers no or raises has left the local tasks as they
  -- were, and its token owns no lease.
  pub resume_stream-Adopts :
      (meta : Dict String) (m : Manager S)
      → field_or_blank "id" meta ≡ i
      → field_or_blank "subreddit" meta ≡ subreddit
      → owns_lock subreddit r.token m.world ≡ false
      → Adopts i subreddit r.token m (resume_stream me r meta m)
  resume_stream-Adopts meta m named placed out = elim (resume_stream_lem me r meta m) [
    | inl declined ↦ rw declined ((λ q. cc), (λ q. (refl, out)))
    | inr (absent, leased) ↦
        rw (leased, named, placed)
          (leased_resume-Adopts m (r.before_lease m.world)
            (sym (ap (λ j. has_task j m.tasks) named) ∙ absent) (quiet m.world out))
  ]
