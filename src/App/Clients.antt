-- ===== src/App/Clients.antt =====
-- The clients that the process holds: the globals of apps/reddit-kafka/src/app.py,
-- apps/reddit-kafka/src/redis_client.py and apps/reddit-kafka/src/db.py, and the part of `lifespan`
-- that creates and closes them. A client is a number, in the order of creation.
use reddit_kafka.Base.{
  ℕ, suc, Bool, true, false, ◌==◌, Option, none, some, [], ◌∷◌, String, Dict, ◌++◌, str_eq, truthy,
  not, is_some, ◌&&◌, if◌then◌else◌,
}
use reddit_kafka.Registry.Fields.{or_blank}

-- `_reddit_client`, `_kafka_producer`, `_redis`, `_engine`, and the engine of `_async_session_maker`.
pub record Clients : Type 0 where
  pub reddit_client : Option ℕ
  pub kafka_producer : Option ℕ
  pub redis : Option ℕ
  pub engine : Option ℕ
  pub session_maker : Option ℕ
  pub next : ℕ

unfoldable pub get_reddit_client : Clients → Clients × ℕ
get_reddit_client c = elim c.reddit_client [
  | none ↦ (record c { reddit_client = some c.next; next = suc c.next }, c.next)
  | some client ↦ (c, client)
]

unfoldable pub get_kafka_producer : Clients → Clients × ℕ
get_kafka_producer c = elim c.kafka_producer [
  | none ↦ (record c { kafka_producer = some c.next; next = suc c.next }, c.next)
  | some client ↦ (c, client)
]

unfoldable pub get_redis : Clients → Clients × ℕ
get_redis c = elim c.redis [
  | none ↦ (record c { redis = some c.next; next = suc c.next }, c.next)
  | some client ↦ (c, client)
]

-- a new engine, and sessions on it
unfoldable pub init_db : Clients → Clients
init_db c = record c { engine = some c.next; session_maker = some c.next; next = suc c.next }

-- the engine of a session, or `none` where `RuntimeError` is raised
unfoldable pub get_session : Clients → Option ℕ
get_session c = c.session_maker

-- `close_db`, where the disposal does not raise
unfoldable pub close_db : Clients → Clients
close_db c = if is_some c.engine then record c { engine = none } else c

-- `close_redis`, which swallows what the client raises
unfoldable pub close_redis : Clients → Clients
close_redis c = if is_some c.redis then record c { redis = none } else c

-- `x is y`, of a client that may be `None`
abbrev pub is_client : Option ℕ → ℕ → Bool
is_client none client = false
is_client (some other) client = other == client

-- `_flush_kafka_producer`, which swallows what the flush raises; `meanwhile` is what happens to the
-- clients while it waits
unfoldable pub flush_kafka_producer : (Clients → Clients) → Clients → Clients
flush_kafka_producer meanwhile c = elim c.kafka_producer [
  | none ↦ c
  | some producer ↦
      let c' = meanwhile c in
      if is_client c'.kafka_producer producer then record c' { kafka_producer = none } else c'
]

-- the start of `lifespan`, with the application's client of Reddit
unfoldable pub open_clients : Clients → Clients × ℕ
unfolding init_db get_redis get_reddit_client get_kafka_producer
open_clients c =
    let (c', reddit_client) = get_reddit_client (get_redis (init_db c)).0 in
    ((get_kafka_producer (get_reddit_client c').0).0, reddit_client)

-- `_reddit_client` after the application's client has been closed
unfoldable pub drop_reddit_client : ℕ → Clients → Clients
drop_reddit_client reddit_client c =
    if is_client c.reddit_client reddit_client then record c { reddit_client = none } else c

-- the end of `lifespan`; where the close of the client of Reddit raises, it ends there
unfoldable pub close_clients : (Clients → Clients) → ℕ → Bool → Clients → Clients
unfolding flush_kafka_producer drop_reddit_client close_redis close_db
close_clients meanwhile reddit_client close_raises c =
    let dropped = drop_reddit_client reddit_client (flush_kafka_producer meanwhile c) in
    if close_raises then dropped else close_db (close_redis dropped)

-- What `_build_kafka_producer_config` reads.
pub record KafkaSettings : Type 0 where
  pub bootstrap_servers : String
  pub security_protocol : String
  pub sasl_mechanism : String
  pub sasl_username : Option String
  pub sasl_password : Option String
  pub ssl_ca_location : Option String

-- `if x:`, and the entry for it
abbrev pub entry_if : Bool → String → String → Dict String
entry_if true k v = (k, v) ∷ []
entry_if false k v = []

abbrev pub is_given : Option String → Bool
is_given x = truthy (or_blank x)

-- `_build_kafka_producer_config`
unfoldable pub build_kafka_producer_config : KafkaSettings → Dict String
build_kafka_producer_config k =
    let sasl = is_given k.sasl_username && is_some k.sasl_password in
    ("bootstrap.servers", k.bootstrap_servers)
      ∷ entry_if (not (str_eq k.security_protocol "PLAINTEXT")) "security.protocol"
          k.security_protocol
    ++ entry_if sasl "sasl.mechanisms" k.sasl_mechanism
    ++ entry_if sasl "sasl.username" (or_blank k.sasl_username)
    ++ entry_if sasl "sasl.password" (or_blank k.sasl_password)
    ++ entry_if (is_given k.ssl_ca_location) "ssl.ca.location" (or_blank k.ssl_ca_location)
