-- ===== src/Registry/Fields.antt =====
-- Texts that may be missing, and the mapping of a new stream, in
-- apps/reddit-kafka/src/repositories/stream_registry.py.
use reddit_kafka.Base.{Option, none, some, [], ◌∷◌, String, Dict, lookup, if◌then◌else◌, truthy}

-- `x or ""`, and `x or None`
abbrev pub or_blank : Option String → String
or_blank none = ""
or_blank (some v) = v

abbrev pub or_none : Option String → Option String
or_none none = none
or_none (some v) = if truthy v then some v else none

-- the mapping of a new stream
abbrev pub new_meta : String → String → Option String → String → String → String → Dict String
new_meta stream_id subreddit instance_id config created_at updated_at =
    ("id", stream_id)
    ∷ ("subreddit", subreddit)
    ∷ ("status", "starting")
    ∷ ("instance_id", or_blank instance_id)
    ∷ ("config", config)
    ∷ ("created_at", created_at)
    ∷ ("updated_at", updated_at)
    ∷ []

-- `data.get("f") or ""` of a stored mapping
abbrev pub field_or_blank : String → Dict String → String
field_or_blank f d = or_blank (lookup f d)
