-- ===== src/Migrations.antt =====
-- apps/reddit-kafka/src/migrations.py: the migrations of the database, each run once, and the wait
-- for a database that is not there yet. Exceptions of the libraries, the database and the functions
-- that read a file are parameters. The creation of tables from ORM models, which nothing calls, is
-- not modelled.
pub mod Failures
pub mod Applying
pub mod Retrying
pub mod Recorded
pub mod Waiting
pub mod Running
pub mod Repeating
mod Tests
