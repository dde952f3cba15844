-- ===== src/Redis/Memory.antt =====
-- Stores in memory that satisfy the laws of the four interfaces, so that theorems can be applied at
-- concrete inputs.
use reddit_kafka.Base.{
  ℕ, ◌+◌, ◌≡◌, refl, false, not, ◌&&◌, ◌||◌, Option, none, some, List, [], ◌∷◌, ◌++◌, String, Dict,
  lookup, has, if◌then◌else◌, str_eq, str_eq_iff, take, length, arith,
}
use reddit_kafka.Redis.{Entry, with_ttl, age, or_field, Strings, Hashes, Sets, Lists}
use reddit_kafka.Redis.Keys.{Key, key_eq, key_eq_iff}

-- a function with a new value at one key
abbrev update {ℓ} : {A : Type ℓ} → (Key → A) → Key → A → Key → A
update s k a j = if key_eq k j then a else s j

abbrev pub memory_strings : Strings
memory_strings = record {
  Store = Key → Option Entry;
  entry = λ s k. s k;
  set = λ s k v. update s k (some (v, none));
  set_ex = λ s k v t. update s k (some (v, some t));
  del = λ s k. update s k none;
  expire = λ s k t j. if key_eq k j then with_ttl t (s j) else s j;
  wait = λ s n j. age n (s j);
  entry-set = λ s k j v. refl;
  entry-set_ex = λ s k j v t p. refl;
  entry-del = λ s k j. refl;
  entry-expire = λ s k j t p. refl;
  entry-wait = λ s n j. refl;
}

lookup-append :
    (f : String) (m d : Dict String) → lookup f (m ++ d) ≡ or_field (lookup f m) (lookup f d)
lookup-append f [] d = refl
lookup-append f ((g, v) ∷ m) d = ground (arith, lookup-append f m d)

abbrev pub memory_hset : (Key → Dict String) → Key → Dict String → Key → Dict String
memory_hset s k m j = if key_eq k j then m ++ s j else s j

pub memory_lookup-hset :
    (s : Key → Dict String) (k j : Key) (m : Dict String) (f : String)
    → lookup f (memory_hset s k m j)
      ≡ (if key_eq k j then or_field (lookup f m) (lookup f (s j)) else lookup f (s j))
memory_lookup-hset s k j m f = ground (arith, lookup-append f m (s j))

pub memory_hgetall-hset_ne :
    (s : Key → Dict String) (k j : Key) (m : Dict String)
    → key_eq k j ≡ false
    → memory_hset s k m j ≡ s j
memory_hgetall-hset_ne s k j m ne = ground arith

abbrev pub memory_hashes : Hashes
memory_hashes = record {
  Store = Key → Dict String;
  hgetall = λ s k. s k;
  hset = memory_hset;
  del = λ s k. update s k [];
  lookup-hset = memory_lookup-hset;
  hgetall-hset_ne = memory_hgetall-hset_ne;
  hgetall-del = λ s k j. refl;
}

abbrev pub remove : String → List String → List String
remove x [] = []
remove x (y ∷ s) = let rest = remove x s in if str_eq x y then rest else y ∷ rest

has-remove : (x y : String) (s : List String) → has y (remove x s) ≡ (not (str_eq x y) && has y s)
has-remove x y [] = ground arith
has-remove x y (z ∷ s) =
    ground (arith, has-remove x y s, str_eq_iff x z, str_eq_iff z y, str_eq_iff x y)

pub memory_has-srem :
    (s : Key → List String) (k j : Key) (x y : String)
    → has y (update s k (remove x (s k)) j)
      ≡ (if key_eq k j then not (str_eq x y) && has y (s j) else has y (s j))
memory_has-srem s k j x y = ground (arith, has-remove x y (s j), key_eq_iff k j)

pub memory_has-sadd :
    (s : Key → List String) (k j : Key) (x y : String)
    → has y (update s k (x ∷ s k) j)
      ≡ (if key_eq k j then str_eq x y || has y (s j) else has y (s j))
memory_has-sadd s k j x y = ground (arith, key_eq_iff k j)

abbrev pub memory_sets : Sets
memory_sets = record {
  Store = Key → List String;
  smembers = λ s k. s k;
  sadd = λ s k x. update s k (x ∷ s k);
  srem = λ s k x. update s k (remove x (s k));
  has-sadd = memory_has-sadd;
  has-srem = memory_has-srem;
}

abbrev pub memory_lrange : (Key → List String) → Key → Option ℕ → List String
memory_lrange s k none = s k
memory_lrange s k (some last) = take (last + 1) (s k)

pub memory_lrange-lpush :
    (s : Key → List String) (k j : Key) (x : String)
    → update s k (x ∷ s k) j ≡ (if key_eq k j then x ∷ s j else s j)
memory_lrange-lpush s k j x = ground (arith, key_eq_iff k j)

pub memory_lrange-ltrim :
    (s : Key → List String) (k j : Key) (last : ℕ)
    → update s k (take (last + 1) (s k)) j ≡ (if key_eq k j then take (last + 1) (s j) else s j)
memory_lrange-ltrim s k j last = ground (arith, key_eq_iff k j)

abbrev pub memory_lists : Lists
memory_lists = record {
  Store = Key → List String;
  lrange = memory_lrange;
  llen = λ s k. length (s k);
  lpush = λ s k x. update s k (x ∷ s k);
  ltrim = λ s k last. update s k (take (last + 1) (s k));
  del = λ s k. update s k [];
  expire = λ s k t. s;
  lrange_lem = λ s k last. refl;
  llen_lem = λ s k. refl;
  lrange-lpush = memory_lrange-lpush;
  lrange-ltrim = memory_lrange-ltrim;
  lrange-del = λ s k j. refl;
  lrange-expire = λ s k j t p. refl;
}
