-- ===== src/Lock.antt =====
-- apps/reddit-kafka/src/stream/lock.py: token-owned leases in Redis. The owner token of an
-- acquisition, which the source builds from the instance and a fresh UUID, is an argument. A
-- connection that fails raises before the state changes; such calls are not made here.
pub mod Laws
pub mod Leases
pub mod Owners
pub mod Refinement
mod Tests
use reddit_kafka.Base.{ℕ, Bool, true, false, Option, none, some, String, if◌then◌else◌, truthy}
use reddit_kafka.Redis.Keys.{Key, lock_key}
use reddit_kafka.Commands.{get, is_value, exists, set_nx_ex, del}
use reddit_kafka.World.{Services, World}

module _ {S : Services} where
  unfoldable pub acquire_lock : String → String → ℕ → World S → World S × Option String
  acquire_lock subreddit owner_token ttl w =
      let (w', acquired) = set_nx_ex (lock_key subreddit) owner_token ttl w in
      if acquired then (w', some owner_token) else (w', none)

  -- `_REFRESH_IF_OWNER_SCRIPT`
  refresh_if_owner_script : Key → String → ℕ → World S → World S × Bool
  refresh_if_owner_script k token ttl w =
      if is_value (get w k) token
      then (record w { strings = S.strings.expire w.strings k ttl }, true)
      else (w, false)

  -- `_DELETE_IF_OWNER_SCRIPT`
  delete_if_owner_script : Key → String → World S → World S × Bool
  delete_if_owner_script k token w =
      if is_value (get w k) token then (del k w, true) else (w, false)

  unfoldable pub refresh_lock : String → String → ℕ → World S → World S × Bool
  unfolding refresh_if_owner_script
  refresh_lock subreddit owner_token ttl =
      refresh_if_owner_script (lock_key subreddit) owner_token ttl

  unfoldable pub owns_lock : String → String → World S → Bool
  owns_lock subreddit owner_token w = is_value (get w (lock_key subreddit)) owner_token

  unfoldable pub release_lock : String → String → World S → World S × Bool
  unfolding delete_if_owner_script
  release_lock subreddit owner_token = delete_if_owner_script (lock_key subreddit) owner_token

  unfoldable pub is_locked : String → World S → Bool
  is_locked subreddit w = exists w (lock_key subreddit)

  unfoldable pub get_lock_holder : String → World S → Option String
  get_lock_holder subreddit w = elim (get w (lock_key subreddit)) [
    | none ↦ none
    | some holder ↦ if truthy holder then some holder else none
  ]
