-- ===== src/Manager/Evolution.antt =====
-- How each operation changes the map of local tasks.
use reddit_kafka.Base.{
  if◌then◌else◌, ◌≡◌, ◌≢◌, refl, Bool, true, false, Option, none, some, String, Dict, inl, inr, ◌⊎◌,
  ◌&&◌, not,
}
use reddit_kafka.Errors.{Foreign, Error, Result, ok, err}
use reddit_kafka.World.{Services, World}
use reddit_kafka.Lock.{acquire_lock}
use reddit_kafka.Registry.Fields.{field_or_blank}
use reddit_kafka.Registry.Reading.{get_stream}
use reddit_kafka.Registry.Status.{is_stop_requested}
use reddit_kafka.Manager.State.{Instance, Manager, has_task, lease_ttl_seconds}
use reddit_kafka.Manager.Activation.{
  Activation, Activated, started, refused, activation_raised, start_local_worker,
}
use reddit_kafka.Manager.Activated.{start_local_worker_exact}
use reddit_kafka.Manager.Starting.{
  Start, conclude_start, activate, leased_start, start_created, start_stream,
}
use reddit_kafka.Manager.Adopting.{
  Resume, is_runnable, answer, try_resume, settle_resume, leased_resume, resume_stream,
}
use reddit_kafka.Manager.Evolving.{Evolves, Evolves-same, Evolves-adds}

started-cases : (a : Activated) → (a ≡ started) ⊎ (a ≢ started)
started-cases started = inl refl
started-cases refused = inr (λ e. cc)
started-cases activation_raised = inr (λ e. cc)

module _ {S : Services} where
  pub Evolves-world : (m : Manager S) (w : World S) → Evolves m (record m { world = w })
  Evolves-world m w = ((λ u. u), (λ down. (down, (λ i gone. gone))))

  Evolves-if :
      {A : Type 0} (m : Manager S) (b : Bool) (p q : Manager S × A)
      → Evolves m p.0
      → Evolves m q.0
      → Evolves m (if b then p else q).0
  Evolves-if m true p q l r = l
  Evolves-if m false p q l r = r

  pub Evolves-either :
      (m : Manager S) (b : Bool) (p q : Manager S)
      → Evolves m p
      → Evolves m q
      → Evolves m (if b then p else q)
  Evolves-either m true p q l r = l
  Evolves-either m false p q l r = r

  pub Evolves-option :
      {A B : Type 0} (m : Manager S) (o : Option B) (p : Manager S × A) (q : B → Manager S × A)
      → Evolves m p.0
      → ((b : B) → Evolves m (q b).0)
      → Evolves m (elim o as (λ _. Manager S × A) [ none ↦ p | some b ↦ q b ]).0
  Evolves-option m none p q l r = l
  Evolves-option m (some b) p q l r = r b

module _ {S : Services} (me : Instance) where
  start_local_worker-Evolves :
      (a : Activation S) (i subreddit : String) (token : Option String) (m : Manager S)
      → Evolves m (start_local_worker me a i subreddit token m).0
  start_local_worker-Evolves a i subreddit token m =
      let law = start_local_worker_exact me a i subreddit token m in
      let p = start_local_worker me a i subreddit token m in
      elim (started-cases p.1) [
        | inl e ↦
            let (running, fresh, added, _, _) = law.0 e in
            Evolves-adds m p.0 i (record { subreddit = subreddit; lock_token = token }) running
              law.2 fresh added
        | inr e ↦ Evolves-same m p.0 (law.1 e) law.2
      ]

module _ {S : Services} {f : Foreign} (me : Instance) where
  conclude_start-Evolves :
      (e : Error f) (subreddit : String) (token : Option String) (meta : Dict String)
      (m : Manager S) (a : Manager S × Activated)
      → Evolves m a.0
      → Evolves m (conclude_start me e subreddit token meta a).0
  unfolding conclude_start
  conclude_start-Evolves e subreddit token meta m (m', started) p = p
  conclude_start-Evolves e subreddit token meta m (m', refused) p = p
  conclude_start-Evolves e subreddit token meta m (m', activation_raised) p = p

  activate-Evolves :
      (s : Start S f) (subreddit : String) (token : Option String) (meta : Dict String)
      (m : Manager S)
      → Evolves m (activate me s subreddit token meta m).0
  unfolding activate
  activate-Evolves s subreddit token meta m =
      conclude_start-Evolves s.raised subreddit token meta m _
        (start_local_worker-Evolves me s.activation (field_or_blank "id" meta) subreddit token m)

  leased_start-Evolves :
      (s : Start S f) (subreddit : String) (meta : Dict String) (m : Manager S)
      (p : World S × Option String)
      → Evolves m (leased_start me s subreddit meta m p).0
  unfolding leased_start
  leased_start-Evolves s subreddit meta m (w, none) = Evolves-world m w
  leased_start-Evolves s subreddit meta m (w, some token) =
      activate-Evolves s subreddit (some token) meta (record m { world = w })

  start_created-Evolves :
      (s : Start S f) (subreddit : String) (m : Manager S) (p : World S × Result f (Dict String))
      → Evolves m (start_created me s subreddit m p).0
  unfolding start_created
  start_created-Evolves s subreddit m (w, err e) = Evolves-world m w
  start_created-Evolves s subreddit m (w, ok meta) =
      Evolves-if m me.has_lock_manager _ _
        (leased_start-Evolves s subreddit meta m
          (acquire_lock subreddit s.token lease_ttl_seconds (s.before_lease w)))
        (activate-Evolves s subreddit none meta (record m { world = w }))

  pub start_stream-Evolves :
      (s : Start S f) (subreddit : String) (m : Manager S)
      → Evolves m (start_stream me s subreddit m).0
  unfolding start_stream
  start_stream-Evolves s subreddit m = start_created-Evolves s subreddit m _

  answer-Evolves :
      (e : Error f) (m : Manager S) (a : Manager S × Activated)
      → Evolves m a.0
      → Evolves m (answer me e a).0
  unfolding answer
  answer-Evolves e m (m', started) p = p
  answer-Evolves e m (m', refused) p = p
  answer-Evolves e m (m', activation_raised) p = p

  try_resume-Evolves :
      (r : Resume S f) (i subreddit : String) (m : Manager S) (read : Result f (Dict String))
      → Evolves m (try_resume me r i subreddit m read).0
  unfolding try_resume
  try_resume-Evolves r i subreddit m (err e) = Evolves-same m m refl refl
  try_resume-Evolves r i subreddit m (ok current) =
      Evolves-if m (is_runnable current && not (is_stop_requested i m.world)) _ _
        (answer-Evolves r.raised m _
          (start_local_worker-Evolves me r.activation i subreddit (some r.token) m))
        (Evolves-same m m refl refl)

  settle_resume-Evolves :
      (i subreddit token : String) (m : Manager S) (p : Manager S × Result f Bool)
      → Evolves m p.0
      → Evolves m (settle_resume me i subreddit token p).0
  unfolding settle_resume
  settle_resume-Evolves i subreddit token m (m', r) p =
      Evolves-if m (has_task i m'.tasks) (m', r) _ p p

  leased_resume-Evolves :
      (r : Resume S f) (i subreddit : String) (m : Manager S) (p : World S × Option String)
      → Evolves m (leased_resume me r i subreddit m p).0
  unfolding leased_resume
  leased_resume-Evolves r i subreddit m (w, none) = Evolves-world m w
  leased_resume-Evolves r i subreddit m (w, some token) =
      settle_resume-Evolves i subreddit token m _ (
        try_resume-Evolves r i subreddit (record m { world = r.after_lease w })
          (get_stream i (r.after_lease w)))

  pub resume_stream-Evolves :
      (r : Resume S f) (meta : Dict String) (m : Manager S)
      → Evolves m (resume_stream me r meta m).0
  unfolding resume_stream
  resume_stream-Evolves r meta m =
      let i = field_or_blank "id" meta in
      let subreddit = field_or_blank "subreddit" meta in
      Evolves-if m _ _ _ (Evolves-same m m refl refl) (
        leased_resume-Evolves r i subreddit m
          (acquire_lock subreddit r.token lease_ttl_seconds (r.before_lease m.world)))
