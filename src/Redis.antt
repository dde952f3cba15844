-- ===== src/Redis.antt =====
-- What the program relies on of the Redis server, which it does not implement: the commands that it
-- sends, one interface for each type of value, with the documented laws as fields. The keys are
-- those that the f-strings of the program build (apps/reddit-kafka/src/stream/lock.py,
-- apps/reddit-kafka/src/repositories/stream_registry.py, apps/reddit-kafka/src/stream/error_handler.py);
-- `Redis.Keys.render` writes them out. A TTL is a number of seconds that the server counts down.
pub mod Keys
pub mod Memory
use reddit_kafka.Base.{
  ℕ, ◌+◌, ◌-◌, ◌≤◌, ◌<◌, ◌≡◌, Bool, true, false, not, ◌&&◌, ◌||◌, Option, none, some, List, [], ◌∷◌,
  String, Dict, lookup, has, leb, if◌then◌else◌, str_eq, take, length,
}
use Keys.{Key, key_eq}

-- A text and the seconds that it has left, if it expires.
abbrev pub Entry : Type 0
Entry = String × Option ℕ

abbrev pub value_of : Option Entry → Option String
value_of none = none
value_of (some (v, _)) = some v

abbrev pub with_ttl : ℕ → Option Entry → Option Entry
with_ttl ttl none = none
with_ttl ttl (some (v, _)) = some (v, some ttl)

-- What is left of a text after some seconds.
abbrev pub age : ℕ → Option Entry → Option Entry
age n none = none
age n (some (v, none)) = some (v, none)
age n (some (v, some t)) = if leb t n then none else some (v, some (t - n))

-- What HSET leaves in a field: the value that it gives, or the one that was there.
abbrev pub or_field : Option String → Option String → Option String
or_field none old = old
or_field (some v) _ = some v

abbrev pub is_empty : Dict String → Bool
is_empty [] = true
is_empty (_ ∷ _) = false

-- GET with TTL, SET, SET EX, DEL, EXPIRE, and the passing of time.
pub record Strings : Type 1 where
  pub Store : Type 0
  pub entry : Store → Key → Option Entry
  pub set : Store → Key → String → Store
  pub set_ex : Store → Key → String → ℕ → Store
  pub del : Store → Key → Store
  pub expire : Store → Key → ℕ → Store
  pub wait : Store → ℕ → Store
  pub entry-set :
      (s : Store) (k j : Key) (v : String)
      → entry (set s k v) j ≡ (if key_eq k j then some (v, none) else entry s j)
  pub entry-set_ex :
      (s : Store) (k j : Key) (v : String) (t : ℕ)
      → 0 < t
      → entry (set_ex s k v t) j ≡ (if key_eq k j then some (v, some t) else entry s j)
  pub entry-del :
      (s : Store) (k j : Key) → entry (del s k) j ≡ (if key_eq k j then none else entry s j)
  pub entry-expire :
      (s : Store) (k j : Key) (t : ℕ)
      → 0 < t
      → entry (expire s k t) j ≡ (if key_eq k j then with_ttl t (entry s j) else entry s j)
  pub entry-wait : (s : Store) (n : ℕ) (j : Key) → entry (wait s n) j ≡ age n (entry s j)

-- HGETALL, HSET with a mapping, DEL. One field of HGETALL is what HGET returns, and a key with no
-- field does not exist.
pub record Hashes : Type 1 where
  pub Store : Type 0
  pub hgetall : Store → Key → Dict String
  pub hset : Store → Key → Dict String → Store
  pub del : Store → Key → Store
  pub lookup-hset :
      (s : Store) (k j : Key) (m : Dict String) (f : String)
      → lookup f (hgetall (hset s k m) j) ≡ (
          if key_eq k j
          then or_field (lookup f m) (lookup f (hgetall s j))
          else lookup f (hgetall s j))
  pub hgetall-hset_ne :
      (s : Store) (k j : Key) (m : Dict String)
      → key_eq k j ≡ false
      → hgetall (hset s k m) j ≡ hgetall s j
  pub hgetall-del :
      (s : Store) (k j : Key) → hgetall (del s k) j ≡ (if key_eq k j then [] else hgetall s j)

-- SMEMBERS, SADD, SREM.
pub record Sets : Type 1 where
  pub Store : Type 0
  pub smembers : Store → Key → List String
  pub sadd : Store → Key → String → Store
  pub srem : Store → Key → String → Store
  pub has-sadd :
      (s : Store) (k j : Key) (x y : String)
      → has y (smembers (sadd s k x) j)
        ≡ (if key_eq k j then str_eq x y || has y (smembers s j) else has y (smembers s j))
  pub has-srem :
      (s : Store) (k j : Key) (x y : String)
      → has y (smembers (srem s k x) j)
        ≡ (if key_eq k j then not (str_eq x y) && has y (smembers s j) else has y (smembers s j))

-- LRANGE from 0 to a last index (`none` is -1, the end), LPUSH, LTRIM from 0, DEL, EXPIRE.
pub record Lists : Type 1 where
  pub Store : Type 0
  pub lrange : Store → Key → Option ℕ → List String
  pub llen : Store → Key → ℕ
  pub lpush : Store → Key → String → Store
  pub ltrim : Store → Key → ℕ → Store
  pub del : Store → Key → Store
  pub expire : Store → Key → ℕ → Store
  pub lrange_lem :
      (s : Store) (k : Key) (last : ℕ) → lrange s k (some last) ≡ take (last + 1) (lrange s k none)
  pub llen_lem : (s : Store) (k : Key) → llen s k ≡ length (lrange s k none)
  pub lrange-lpush :
      (s : Store) (k j : Key) (x : String)
      → lrange (lpush s k x) j none ≡ (if key_eq k j then x ∷ lrange s j none else lrange s j none)
  pub lrange-ltrim :
      (s : Store) (k j : Key) (last : ℕ)
      → lrange (ltrim s k last) j none
        ≡ (if key_eq k j then take (last + 1) (lrange s j none) else lrange s j none)
  pub lrange-del :
      (s : Store) (k j : Key)
      → lrange (del s k) j none ≡ (if key_eq k j then [] else lrange s j none)
  pub lrange-expire :
      (s : Store) (k j : Key) (t : ℕ) → 0 < t → lrange (expire s k t) j none ≡ lrange s j none
