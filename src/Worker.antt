-- ===== src/Worker.antt =====
-- apps/reddit-kafka/src/stream/worker.py: `StreamWorker`, which reads the comments of one subreddit
-- and publishes them.
pub mod Deliveries
pub mod Awaiting
pub mod Comments
pub mod Boundary
pub mod Success
pub mod Accounts
pub mod Session
pub mod Commits
pub mod Control
pub mod Closing
pub mod Refreshing
pub mod Loop
pub mod Fetching
pub mod Looping
pub mod Refused
pub mod Run
pub mod Running
mod Tests
