-- ===== src/App/Readiness.antt =====
-- `readiness`, the handler of the probe.
use reddit_kafka.Base.{
  ℕ, Bool, true, false, ◌&&◌, Option, none, some, [], ◌∷◌, Dict, is_some, if◌then◌else◌,
}
use reddit_kafka.App.Clients.{Clients}

-- What the probe meets. A call that raises is `none`: the answer of Redis to a ping, the statement,
-- and whether Kafka has answered metadata.
pub record Probe : Type 0 where
  pub has_reddit_client : Bool
  pub has_redis : Bool
  pub ping : Option Bool
  pub select : Option (Unit {0})
  pub list_topics : Option Bool

-- a check that is left at `False` where its call raises
abbrev pub checked : Option Bool → Bool
checked none = false
checked (some b) = b

unfoldable pub checks : Probe → Clients → Dict Bool
checks p c =
    ("postgres", is_some c.session_maker && is_some p.select)
    ∷ ("redis", p.has_redis && checked p.ping)
    ∷ ("kafka", is_some c.kafka_producer && checked p.list_topics)
    ∷ ("reddit", p.has_reddit_client)
    ∷ []

-- `all(checks.values())`
abbrev pub all_true : Dict Bool → Bool
all_true [] = true
all_true ((k, b) ∷ d) = b && all_true d

-- the status, and the checks
unfoldable pub readiness : Probe → Clients → ℕ × Dict Bool
unfolding checks
readiness p c = (if all_true (checks p c) then 200 else 503, checks p c)
