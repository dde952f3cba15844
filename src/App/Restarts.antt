-- ===== src/App/Restarts.antt =====
-- The clients of a process whose application ends and starts again.
use reddit_kafka.Base.{◌≡◌, ◌<◌, refl, ℕ, suc, true, false, Option, none, some, arith, ap, ◌∙◌}
use reddit_kafka.App.Clients.{
  Clients, open_clients, close_clients, get_reddit_client, get_kafka_producer, get_redis, init_db,
  close_db, close_redis, flush_kafka_producer, drop_reddit_client,
}
use reddit_kafka.App.Readiness.{Probe, checks, readiness}

-- the clients of an application that has been started: the one of Reddit, the producer and the one of
-- Redis, and the engine
abbrev pub Open : Clients → ℕ → ℕ → ℕ → ℕ → Type 0
Open c reddit producer redis engine =
    (c.reddit_client ≡ some reddit)
    × (c.kafka_producer ≡ some producer)
    × (c.redis ≡ some redis)
    × (c.engine ≡ some engine)
    × (c.session_maker ≡ some engine)

abbrev pub clients : Option ℕ → Option ℕ → Option ℕ → Option ℕ → Option ℕ → ℕ → Clients
clients reddit producer redis engine session n = record {
  reddit_client = reddit;
  kafka_producer = producer;
  redis = redis;
  engine = engine;
  session_maker = session;
  next = n;
}

-- A start creates an engine, and each other client that there is none of.
open_clients_lem :
    (r k d e s : Option ℕ) (n : ℕ)
    → let (c1, reddit) = open_clients (clients r k d e s n) in
      ((producer : ℕ) × (redis : ℕ) × Open c1 reddit producer redis n) × (n < c1.next)
unfolding open_clients get_redis get_reddit_client get_kafka_producer init_db
open_clients_lem none none none e s n =
    ((suc (suc (suc n)), suc n, (refl, refl, refl, refl, refl)), omega arith)
open_clients_lem none none (some d) e s n =
    ((suc (suc n), d, (refl, refl, refl, refl, refl)), omega arith)
open_clients_lem none (some k) none e s n =
    ((k, suc n, (refl, refl, refl, refl, refl)), omega arith)
open_clients_lem none (some k) (some d) e s n =
    ((k, d, (refl, refl, refl, refl, refl)), omega arith)
open_clients_lem (some r) none none e s n =
    ((suc (suc n), suc n, (refl, refl, refl, refl, refl)), omega arith)
open_clients_lem (some r) none (some d) e s n =
    ((suc n, d, (refl, refl, refl, refl, refl)), omega arith)
open_clients_lem (some r) (some k) none e s n =
    ((k, suc n, (refl, refl, refl, refl, refl)), omega arith)
open_clients_lem (some r) (some k) (some d) e s n =
    ((k, d, (refl, refl, refl, refl, refl)), omega arith)

close_clients-after :
    (c : Clients) (reddit producer redis engine : ℕ)
    → Open c reddit producer redis engine
    → (close_clients (λ x. x) reddit false c
        ≡ record c { reddit_client = none; kafka_producer = none; redis = none; engine = none })
      × (close_clients (λ x. x) reddit true c
          ≡ record c { reddit_client = none; kafka_producer = none })
unfolding close_clients flush_kafka_producer drop_reddit_client close_redis close_db
close_clients-after c reddit producer redis engine (r, k, d, e, s) =
    (ground (arith, r, k, d, e), ground (arith, r, k, d, e))

open_clients-redis :
    (d : ℕ) (x e s : Option ℕ) (n : ℕ)
    → x ≡ some d
    → open_clients (clients none none x e s n)
      ≡ (clients (some (suc n)) (some (suc (suc n))) x (some n) (some n) (suc (suc (suc n))), suc n)
unfolding open_clients get_redis get_reddit_client get_kafka_producer init_db
open_clients-redis d none e s n there = absurd cc
open_clients-redis d (some y) e s n there = refl

not_ready : (p : Probe) (c : Clients) → c.kafka_producer ≡ none → (readiness p c).0 ≡ 503
unfolding readiness checks
not_ready p c e = ground (arith, e)

-- After a start, an end and a second start, in which nothing else uses the clients: if the client of
-- Reddit is closed without raising, every client of the second start is a new one, created after
-- those of the first, and between the two no client is left but the maker of sessions, which is
-- still that of the old engine. If that close raises, the client of Redis is not closed and serves
-- the second start too, and the old engine is not disposed of; the client of Reddit and the producer
-- are new ones. Between the two, the probe answers 503.
pub restart_renews :
    (c : Clients) (p : Probe)
    → let (c1, reddit) = open_clients c in
      let closed = close_clients (λ x. x) reddit false c1 in
      let broken = close_clients (λ x. x) reddit true c1 in
      let n = c1.next in
      (closed ≡ clients none none none none c1.session_maker n)
      × (open_clients closed ≡ (
        clients
            (some (suc (suc n)))
            (some (suc (suc (suc n))))
            (some (suc n))
            (some n)
            (some n)
            (suc (suc (suc (suc n)))),
        suc (suc n),
      ))
      × (broken ≡ clients none none c1.redis c1.engine c1.session_maker n)
      × (open_clients broken ≡ (
        clients (some (suc n)) (some (suc (suc n))) c1.redis (some n) (some n) (suc (suc (suc n))),
        suc n,
      ))
      × ((readiness p closed).0 ≡ 503)
      × ((readiness p broken).0 ≡ 503)
unfolding open_clients get_redis get_reddit_client get_kafka_producer init_db
restart_renews c p =
    let opened =
      open_clients_lem c.reddit_client c.kafka_producer c.redis c.engine c.session_maker c.next in
    let (producer, redis, all) = opened.0 in
    let ended =
      close_clients-after (open_clients c).0 (open_clients c).1 producer redis c.next all in
    (
      ended.0,
      ap open_clients ended.0,
      ended.1,
      ap open_clients ended.1
          ∙ open_clients-redis redis (open_clients c).0.redis (open_clients c).0.engine
              (open_clients c).0.session_maker (open_clients c).0.next all.2,
      not_ready p _ (ap (λ (d : Clients). d.kafka_producer) ended.0),
      not_ready p _ (ap (λ (d : Clients). d.kafka_producer) ended.1),
    )
