-- ===== src/Registry.antt =====
-- apps/reddit-kafka/src/repositories/stream_registry.py: `StreamRegistry`, which keeps the streams
-- of all instances in Redis and copies them to Postgres. UUIDs, the texts of `_now_iso()` and the
-- JSON of a configuration are arguments, in the order in which the source makes them. A method
-- returns the next state; commands reach a Redis that answers.
pub mod Fields
pub mod Scripts
pub mod Reading
pub mod Status
pub mod Creation
pub mod Removal
pub mod Checkpoints
pub mod Ownership
pub mod Deleting
pub mod Creating
pub mod Restarting
pub mod Progress
pub mod Frames
mod Tests
