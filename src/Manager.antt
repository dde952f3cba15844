-- ===== src/Manager.antt =====
-- apps/reddit-kafka/src/stream/manager.py: `StreamManager`, which starts, adopts and stops the
-- streams of one instance. The task of a stream is what `_run` was created with. At each await
-- others may act: what they do to the shared world is an argument, a function that is as one likes,
-- and the fresh token of an acquisition and the texts of times are arguments too. Calls of one
-- manager follow one another, as far as its own map of tasks is concerned.
pub mod State
pub mod Activation
pub mod Starting
pub mod Adopting
pub mod Ending
pub mod Activated
pub mod Started
pub mod Adopted
pub mod Adoption
pub mod Ended
pub mod Drained
pub mod Calls
pub mod Evolving
pub mod Evolution
pub mod Sweeping
pub mod Final
pub mod Looping
mod Tests
