-- ===== src/Manager/Adopting.antt =====
-- `resume_stream`, `_needs_reconciliation` and `reconcile_once`.
use reddit_kafka.Base.{
  ℕ, ◌+◌, ◌*◌, Bool, true, false, not, ◌||◌, ◌&&◌, Option, none, some, List, [], ◌∷◌, String, Dict,
  lookup, leb, truthy, if◌then◌else◌,
}
use reddit_kafka.Errors.{Foreign, Error, Result, ok, err}
use reddit_kafka.World.{Services, World}
use reddit_kafka.Commands.{is_value, is_truthy}
use reddit_kafka.Lock.{acquire_lock, release_lock, is_locked}
use reddit_kafka.Registry.Fields.{field_or_blank}
use reddit_kafka.Registry.Reading.{get_stream, list_streams}
use reddit_kafka.Registry.Status.{is_stop_requested, finalize_stop_if_unowned}
use reddit_kafka.Manager.State.{Instance, Manager, Others, lease_ttl_seconds, has_task}
use reddit_kafka.Manager.Activation.{
  Activation, Activated, started, refused, activation_raised, start_local_worker,
}

-- What an adoption meets: what others do before the lease is asked for and after it has been
-- granted; the fresh token; the activation; and what that raises, if it raises.
pub record Resume (S : Services) (f : Foreign) : Type 0 where
  pub before_lease : Others S
  pub after_lease : Others S
  pub token : String
  pub activation : Activation S
  pub raised : Error f

-- `current.get("status") in {"active", "starting"}`
abbrev pub is_runnable : Dict String → Bool
is_runnable meta =
    is_value (lookup "status" meta) "active" || is_value (lookup "status" meta) "starting"

module _ {S : Services} {f : Foreign} (me : Instance) where
  -- what `started` says
  unfoldable pub answer : Error f → Manager S × Activated → Manager S × Result f Bool
  answer e (m, started) = (m, ok true)
  answer e (m, refused) = (m, ok false)
  answer e (m, activation_raised) = (m, err e)

  -- the body of the `try` in `resume_stream`, after the stream has been read again
  unfoldable pub try_resume :
      Resume S f → String → String → Manager S → Result f (Dict String) → Manager S × Result f Bool
  unfolding answer
  try_resume r stream_id subreddit m (err e) = (m, err e)
  try_resume r stream_id subreddit m (ok current) =
      if is_runnable current && not (is_stop_requested stream_id m.world)
      then answer r.raised (start_local_worker me r.activation stream_id subreddit (some r.token) m)
      else (m, ok false)

  -- the `finally`: the lease is given back unless the stream runs here
  unfoldable pub settle_resume :
      String → String → String → Manager S × Result f Bool → Manager S × Result f Bool
  settle_resume stream_id subreddit token (m, result) =
      if has_task stream_id m.tasks
      then (m, result)
      else (record m { world = (release_lock subreddit token m.world).0 }, result)

  -- the answer of `acquire_lock`
  unfoldable pub leased_resume :
      Resume S f → String → String → Manager S → World S × Option String → Manager S × Result f Bool
  unfolding try_resume settle_resume
  leased_resume r stream_id subreddit m (w, none) = (record m { world = w }, ok false)
  leased_resume r stream_id subreddit m (w, some token) =
      let m' = record m { world = r.after_lease w } in
      settle_resume stream_id subreddit token
        (try_resume r stream_id subreddit m' (get_stream stream_id m'.world))

  unfoldable pub resume_stream : Resume S f → Dict String → Manager S → Manager S × Result f Bool
  unfolding leased_resume
  resume_stream r meta m =
      let stream_id = field_or_blank "id" meta in
      let subreddit = field_or_blank "subreddit" meta in
      if not me.has_lock_manager
        || m.shutting_down
        || not (truthy stream_id && truthy subreddit)
        || has_task stream_id m.tasks
        || is_locked subreddit m.world
      then (m, ok false)
      else leased_resume r stream_id subreddit m
          (acquire_lock subreddit r.token lease_ttl_seconds (r.before_lease m.world))

-- `_needs_reconciliation`, at a time in microseconds. `from_iso` stands for
-- `datetime.fromisoformat` with a `Z` read as UTC and UTC where there is no zone, in microseconds;
-- it is `none` where that raises `ValueError`.
unfoldable pub needs_reconciliation : (String → Option ℕ) → ℕ → Dict String → Bool
needs_reconciliation from_iso now meta =
    if is_value (lookup "status" meta) "active"
    then true
    else if is_value (lookup "status" meta) "starting" && is_truthy (lookup "updated_at" meta)
    then elim (from_iso (field_or_blank "updated_at" meta)) [
      | none ↦ false
      | some t ↦ leb (t + lease_ttl_seconds * 1_000_000) now
    ]
    else false

-- What the handling of one listed stream meets: the time that `_needs_reconciliation` reads, the
-- adoption, the time that a finished stop gets, and what others do afterwards.
pub record Sweep (S : Services) (f : Foreign) : Type 0 where
  pub clock : ℕ
  pub resume : Resume S f
  pub now : String
  pub afterwards : Others S

module _ {S : Services} {f : Foreign} (me : Instance) (from_iso : String → Option ℕ) where
  -- one turn of the loop in `reconcile_once`; what it raises is logged
  unfoldable pub reconcile_stream : Sweep S f → Dict String → Manager S → Manager S
  unfolding resume_stream needs_reconciliation
  reconcile_stream s meta m =
      let stream_id = field_or_blank "id" meta in
      let subreddit = field_or_blank "subreddit" meta in
      if not (truthy stream_id && truthy subreddit)
      then m
      else if needs_reconciliation from_iso s.clock meta
      then (resume_stream me s.resume meta m).0
      else if is_value (lookup "status" meta) "stopping" && is_truthy (lookup "updated_at" meta)
      then record m {
        world =
            (finalize_stop_if_unowned me.has_session_maker stream_id subreddit
              (field_or_blank "updated_at" meta) s.now m.world).0;
      }
      else m

  -- the loop; each stream has its `Sweep`
  unfoldable pub reconcile_streams :
      (ℕ → Sweep S f) → ℕ → List (Dict String) → Manager S → Manager S
  unfolding reconcile_stream
  reconcile_streams sweep n [] m = m
  reconcile_streams sweep n (meta ∷ streams) m =
      let done = reconcile_stream (sweep n) meta m in
      reconcile_streams sweep (n + 1) streams
        (record done { world = (sweep n).afterwards done.world })

  unfoldable pub reconcile_once : (ℕ → Sweep S f) → Manager S → Manager S
  unfolding reconcile_streams
  reconcile_once sweep m =
      let (w, streams) = list_streams m.world in
      reconcile_streams sweep 0 streams (record m { world = w })
