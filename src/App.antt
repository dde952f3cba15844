-- ===== src/App.antt =====
-- apps/reddit-kafka/src/app.py: the HTTP application around one manager. FastAPI and the clients of
-- Reddit and Kafka are not modelled: what a request or a client meets is an argument.
pub mod Streams
pub mod Creating
pub mod Stopping
pub mod Runner
pub mod Running
pub mod Lifespan
pub mod Shutdown
pub mod Releasing
pub mod Clients
pub mod Readiness
pub mod Restarts
mod Tests
