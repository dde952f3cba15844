-- ===== src/Commands.antt =====
-- The Redis commands as the program sends them, on the common state. A SET with NX sets a key that
-- does not exist and answers whether it did.
use reddit_kafka.Base.{
  ℕ, Bool, true, false, not, Option, none, some, List, String, Dict, lookup, str_eq, if◌then◌else◌,
  is_some, truthy,
}
use reddit_kafka.Redis.{value_of, is_empty}
use reddit_kafka.Redis.Keys.{Key}
use reddit_kafka.World.{Services, World}

-- the comparison of a reply with an argument, in a script or in Python: no reply equals no text
abbrev pub is_value : Option String → String → Bool
is_value none v = false
is_value (some u) v = str_eq u v

-- `if reply:`
abbrev pub is_truthy : Option String → Bool
is_truthy none = false
is_truthy (some v) = truthy v

module _ {S : Services} where
  -- GET
  abbrev pub get : World S → Key → Option String
  get w k = value_of (S.strings.entry w.strings k)

  -- EXISTS, of a text
  abbrev pub exists : World S → Key → Bool
  exists w k = is_some (get w k)

  -- SET
  abbrev pub set : Key → String → World S → World S
  set k v w = record w { strings = S.strings.set w.strings k v }

  -- SET with NX
  abbrev pub set_nx : Key → String → World S → World S × Bool
  set_nx k v w = if exists w k then (w, false) else (set k v w, true)

  -- SET with NX and EX
  abbrev pub set_nx_ex : Key → String → ℕ → World S → World S × Bool
  set_nx_ex k v ttl w =
      if exists w k
      then (w, false)
      else (record w { strings = S.strings.set_ex w.strings k v ttl }, true)

  -- DEL of a text, and of a hash
  abbrev pub del : Key → World S → World S
  del k w = record w { strings = S.strings.del w.strings k }

  abbrev pub del_hash : Key → World S → World S
  del_hash k w = record w { hashes = S.hashes.del w.hashes k }

  -- HGETALL, HGET, EXISTS of a hash, HSET
  abbrev pub hgetall : World S → Key → Dict String
  hgetall w k = S.hashes.hgetall w.hashes k

  abbrev pub hget : World S → Key → String → Option String
  hget w k field = lookup field (S.hashes.hgetall w.hashes k)

  abbrev pub exists_hash : World S → Key → Bool
  exists_hash w k = not (is_empty (S.hashes.hgetall w.hashes k))

  abbrev pub hset : Key → Dict String → World S → World S
  hset k mapping w = record w { hashes = S.hashes.hset w.hashes k mapping }

  -- SMEMBERS, SADD, SREM
  abbrev pub smembers : World S → Key → List String
  smembers w k = S.sets.smembers w.sets k

  abbrev pub sadd : Key → String → World S → World S
  sadd k x w = record w { sets = S.sets.sadd w.sets k x }

  abbrev pub srem : Key → String → World S → World S
  srem k x w = record w { sets = S.sets.srem w.sets k x }
