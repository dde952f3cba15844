-- ===== src/Telemetry.antt =====
-- apps/reddit-kafka/src/observability/telemetry.py: the middleware of requests, and the set-up of logs
-- and traces. Spans, durations and the text of log lines are left out.
pub mod Requests
pub mod Observing
pub mod Setup
pub mod Handlers
pub mod Tidying
mod Tests
use reddit_kafka.Base.{String}
