-- ===== src/Manager/Starting.antt =====
-- `start_stream`.
use reddit_kafka.Base.{false, Option, none, some, String, Dict, if◌then◌else◌}
use reddit_kafka.Errors.{Foreign, Error, Result, ok, err, runtime_error}
use reddit_kafka.World.{Services, World}
use reddit_kafka.Lock.{acquire_lock}
use reddit_kafka.Registry.Fields.{field_or_blank}
use reddit_kafka.Registry.Creation.{create_stream_among}
use reddit_kafka.Registry.Removal.{delete_stream}
use reddit_kafka.Manager.State.{Instance, Manager, Others, lease_ttl_seconds, give_up}
use reddit_kafka.Manager.Activation.{
  Activation, Activated, started, refused, activation_raised, start_local_worker,
}

-- What a start meets: the JSON of the configuration, a new UUID and the two times of the creation;
-- what others do in the creation, after its first read and before its claim, and before the lease is
-- asked for; the fresh token; the activation; and what it raises, if it raises.
pub record Start (S : Services) (f : Foreign) : Type 0 where
  pub config : String
  pub candidate_id : String
  pub created_at : String
  pub updated_at : String
  pub before_identity : Others S
  pub before_claim : Others S
  pub before_lease : Others S
  pub token : String
  pub activation : Activation S
  pub raised : Error f

module _ {S : Services} {f : Foreign} (me : Instance) where
  -- after the activation
  unfoldable pub conclude_start :
      Error f
      → String
      → Option String
      → Dict String
      → Manager S × Activated
      → Manager S × Result f (Dict String)
  unfolding give_up
  conclude_start e subreddit lock_token meta (m, started) = (m, ok meta)
  conclude_start e subreddit lock_token meta (m, refused) =
      (record m { world = give_up me subreddit lock_token m.world }, err runtime_error)
  conclude_start e subreddit lock_token meta (m, activation_raised) =
      (record m { world = give_up me subreddit lock_token m.world }, err e)

  -- once there is a token, or no lock manager
  unfoldable pub activate :
      Start S f
      → String
      → Option String
      → Dict String
      → Manager S
      → Manager S × Result f (Dict String)
  unfolding conclude_start
  activate s subreddit lock_token meta m =
      conclude_start s.raised subreddit lock_token meta
        (start_local_worker me s.activation (field_or_blank "id" meta) subreddit lock_token m)

  -- the answer of `acquire_lock`
  unfoldable pub leased_start :
      Start S f
      → String
      → Dict String
      → Manager S
      → World S × Option String
      → Manager S × Result f (Dict String)
  unfolding activate
  leased_start s subreddit meta m (w, some token) =
      activate s subreddit (some token) meta (record m { world = w })
  leased_start s subreddit meta m (w, none) = (
    record m {
      world =
          (delete_stream (field_or_blank "id" meta) (some "starting")
            (some (field_or_blank "updated_at" meta)) false w).0;
    },
    err runtime_error,
  )

  -- the part of `start_stream` after the registry has answered
  unfoldable pub start_created :
      Start S f
      → String
      → Manager S
      → World S × Result f (Dict String)
      → Manager S × Result f (Dict String)
  unfolding leased_start
  start_created s subreddit m (w, err e) = (record m { world = w }, err e)
  start_created s subreddit m (w, ok meta) =
      if me.has_lock_manager
      then leased_start s subreddit meta m
          (acquire_lock subreddit s.token lease_ttl_seconds (s.before_lease w))
      else activate s subreddit none meta (record m { world = w })

  unfoldable pub start_stream : Start S f → String → Manager S → Manager S × Result f (Dict String)
  unfolding start_created
  start_stream s subreddit m = start_created s subreddit m (
      create_stream_among s.before_identity s.before_claim me.has_session_maker subreddit
        (some me.instance_id) s.config s.candidate_id s.created_at s.updated_at m.world)
