-- ===== src/App/Creating.antt =====
-- What a request to create a stream is answered, and what it leaves behind.
use reddit_kafka.Base.{
  ◌≡◌, ◌≢◌, refl, ap, ℕ, Bool, true, false, Option, none, some, ◌∷◌, String, Dict, truthy, fits,
  if◌then◌else◌, sym, arith, Bool-cases, inl, inr,
}
use reddit_kafka.Errors.{Foreign, Error, Result, ok, err, stream_exists_error}
use reddit_kafka.Redis.Keys.{subreddit_key}
use reddit_kafka.Commands.{get}
use reddit_kafka.World.{Services, World}
use reddit_kafka.Lock.{owns_lock}
use reddit_kafka.Registry.Fields.{field_or_blank}
use reddit_kafka.Registry.Creation.{create_stream_among}
use reddit_kafka.Registry.Creating.{create_stream_among_taken}
use reddit_kafka.Manager.State.{Instance, Manager}
use reddit_kafka.Manager.Starting.{Start, start_created, start_stream}
use reddit_kafka.Manager.Started.{NeverGrants, Settles, start_stream-Settles}
use reddit_kafka.App.Streams.{
  Reply, answers, refuses, Creation, prevalidate, is_runtime_error, start_refusal, answer_start,
  start_validated, create_stream_endpoint,
}

-- A request that is answered was valid and has one more task, whose token owns the lease; any other
-- has the tasks that there were, and its token owns nothing.
abbrev pub Answered :
    {S : Services} {f : Foreign}
    → Creation S f
    → String
    → Manager S
    → Manager S × Reply f (Dict String)
    → Type 0
Answered {S} {f} c subreddit m (m', r) =
    ((meta : Dict String)
      → r ≡ answers meta
      → (fits subreddit ≡ true)
        × (c.has_client ≡ true)
        × (c.load_raises ≡ none)
        × (m'.tasks
            ≡ (
              field_or_blank "id" meta,
              record { subreddit = subreddit; lock_token = some c.start.token },
            )
              ∷ m.tasks)
        × (owns_lock subreddit c.start.token m'.world ≡ true))
    × (((meta : Dict String) → r ≢ answers meta)
        → (m'.tasks ≡ m.tasks) × (owns_lock subreddit c.start.token m'.world ≡ false))

answers_one :
    {f : Foreign} {A : Type 0} (a b : A) → ◌≡◌ {A = Reply f A} (answers a) (answers b) → a ≡ b
answers_one a b e = cc

refuses-refusal :
    {f : Foreign} {A : Type 0} (foreign_runtime : f.Exc → Bool) (e : Error f) (a : A)
    → start_refusal foreign_runtime e ≢ answers a
unfolding start_refusal
refuses-refusal foreign_runtime stream_exists_error a = λ q. cc
refuses-refusal foreign_runtime e a = elim (Bool-cases (is_runtime_error foreign_runtime e)) [
  | inl b ↦ λ q. ground (arith, b, q)
  | inr b ↦ λ q. ground (arith, b, q)
]

module _ {S : Services} {f : Foreign} (me : Instance) (foreign_runtime : f.Exc → Bool)
    (c : Creation S f) (subreddit : String) where
  answer_start-Answered :
      (m : Manager S) (a : Manager S × Result f (Dict String))
      → fits subreddit ≡ true
      → c.has_client ≡ true
      → c.load_raises ≡ none
      → Settles subreddit c.start.token m a
      → Answered c subreddit m (answer_start me foreign_runtime a)
  unfolding answer_start
  answer_start-Answered m (m', ok meta) valid client loads law = (
    λ other q.
        let settled = law.0 other (ap ok (answers_one meta other q)) in
        (valid, client, loads, settled.0, settled.1),
    λ no. absurd (no meta refl),
  )
  answer_start-Answered m (m', err e) valid client loads law =
      (λ other q. absurd (refuses-refusal foreign_runtime e other q), λ no. law.1 e refl)

  refused-Answered :
      (m m' : Manager S) (status : ℕ)
      → m'.tasks ≡ m.tasks
      → owns_lock subreddit c.start.token m'.world ≡ false
      → Answered c subreddit m (m', refuses status)
  refused-Answered m m' status same out = ((λ other q. cc), (λ no. (same, out)))

  Answered-if :
      (b : Bool) (m : Manager S) (x y : Manager S × Reply f (Dict String))
      → (b ≡ true → Answered c subreddit m x)
      → (b ≡ false → Answered c subreddit m y)
      → Answered c subreddit m (if b then x else y)
  Answered-if true m x y hx hy = hx refl
  Answered-if false m x y hx hy = hy refl

  prevalidate-none :
      (client : Bool) (load : Option f.Exc)
      → prevalidate f client load ≡ none
      → (client ≡ true) × (load ≡ none)
  unfolding prevalidate
  prevalidate-none false load e = absurd cc
  prevalidate-none true none e = (refl, refl)
  prevalidate-none true (some x) e = absurd cc

module _ {S : Services} {f : Foreign} (me : Instance) (foreign_runtime : f.Exc → Bool)
    (unprocessable : ℕ) (c : Creation S f) (subreddit : String)
    (leases : me.has_lock_manager ≡ true) (real : truthy c.start.token ≡ true)
    (before_load : NeverGrants subreddit c.start.token c.meanwhile)
    (before_identity : NeverGrants subreddit c.start.token c.start.before_identity)
    (before_claim : NeverGrants subreddit c.start.token c.start.before_claim)
    (before_lease : NeverGrants subreddit c.start.token c.start.before_lease) where
  validated-Answered :
      (m m' : Manager S) (v : Option ℕ)
      → fits subreddit ≡ true
      → (v ≡ none → (c.has_client ≡ true) × (c.load_raises ≡ none))
      → m'.tasks ≡ m.tasks
      → owns_lock subreddit c.start.token m'.world ≡ false
      → Answered c subreddit m (start_validated me foreign_runtime c subreddit m' v)
  unfolding start_validated
  validated-Answered m m' (some status) valid checked same out =
      refused-Answered me foreign_runtime c subreddit m m' status same out
  validated-Answered m m' none valid checked same out =
      answer_start-Answered me foreign_runtime c subreddit m (start_stream me c.start subreddit m')
        valid (checked refl).0 (checked refl).1
        (rw (sym same) (
          start_stream-Settles me subreddit leases c.start real before_identity before_claim
            before_lease m' out))

  loaded_lem :
      (client : Bool) (m : Manager S)
      → owns_lock subreddit c.start.token m.world ≡ false
      → let m' = if client then record m { world = c.meanwhile m.world } else m in
        (m'.tasks ≡ m.tasks) × (owns_lock subreddit c.start.token m'.world ≡ false)
  loaded_lem true m out = (refl, before_load m.world out)
  loaded_lem false m out = (refl, out)

  -- With a lock manager and a fresh token, which owns no lease and which others do not grant one: a
  -- request to create a stream that is answered names a subreddit of one to 255 characters that
  -- Reddit has loaded, and has created one local task for the stream that it answers, whose token
  -- owned the lease after the last await. A request that is refused, whatever the status, or that
  -- raises has left the local tasks as they were, and its token owns no lease.
  pub create_stream_endpoint-Answered :
      (m : Manager S)
      → owns_lock subreddit c.start.token m.world ≡ false
      → Answered c subreddit m
          (create_stream_endpoint me foreign_runtime unprocessable c subreddit m)
  unfolding create_stream_endpoint
  create_stream_endpoint-Answered m out =
      let loaded = loaded_lem c.has_client m out in
      Answered-if me foreign_runtime c subreddit (fits subreddit) m _ _
        (λ valid.
          validated-Answered m _ (prevalidate f c.has_client c.load_raises) valid
            (prevalidate-none me foreign_runtime c subreddit c.has_client c.load_raises) loaded.0
            loaded.1)
        (λ no. refused-Answered me foreign_runtime c subreddit m m unprocessable refl out)

module _ {S : Services} {f : Foreign} (me : Instance) where
  start_created_err :
      (s : Start S f) (subreddit : String) (m : Manager S) (p : World S × Result f (Dict String))
      (e : Error f)
      → p.1 ≡ err e
      → start_created me s subreddit m p ≡ (record m { world = p.0 }, err e)
  unfolding start_created
  start_created_err s subreddit m (w, err x) e q =
      ap (λ (r : Result f (Dict String)). (record m { world = w }, r)) q
  start_created_err s subreddit m (w, ok meta) e q = absurd cc

module _ {S : Services} {f : Foreign} (me : Instance) (foreign_runtime : f.Exc → Bool)
    (unprocessable : ℕ) (c : Creation S f) (subreddit : String) where
  -- A valid request for a subreddit that Reddit has loaded and that a stream claims by then is
  -- refused with 409. It leaves the local tasks, and every mapping and set of Redis, and Postgres,
  -- as others have left them.
  pub create_stream_endpoint_taken :
      (m : Manager S) (i : String)
      → fits subreddit ≡ true
      → c.has_client ≡ true
      → c.load_raises ≡ none
      → get (c.meanwhile m.world) (subreddit_key subreddit) ≡ some i
      → truthy i ≡ true
      → let (m', r) = create_stream_endpoint me foreign_runtime unprocessable c subreddit m in
        (r ≡ refuses 409)
        × (m'.tasks ≡ m.tasks)
        × (m'.world.hashes ≡ (c.start.before_identity (c.meanwhile m.world)).hashes)
        × (m'.world.sets ≡ (c.start.before_identity (c.meanwhile m.world)).sets)
        × (m'.world.db ≡ (c.start.before_identity (c.meanwhile m.world)).db)
  unfolding create_stream_endpoint prevalidate start_validated start_stream answer_start
      start_refusal
  create_stream_endpoint_taken m i valid client loads claimed named =
      let w = c.meanwhile m.world in
      let law =
        create_stream_among_taken f me.has_session_maker subreddit (some me.instance_id)
          c.start.config c.start.candidate_id c.start.created_at c.start.updated_at w
          c.start.before_identity c.start.before_claim claimed named in
      let same =
        start_created_err me c.start subreddit (record m { world = w })
          (create_stream_among {f = f} c.start.before_identity c.start.before_claim
            me.has_session_maker subreddit (some me.instance_id) c.start.config c.start.candidate_id
            c.start.created_at c.start.updated_at w)
          stream_exists_error law.0 in
      rw (valid, client, loads, same) (refl, refl, law.1, law.2, law.3)
