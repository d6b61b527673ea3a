-- ===== src/Writer.antt =====
-- pkg/wal/processor/postgres: the processor that writes events to a Postgres database in batches.
pub mod Query
pub mod Message
pub mod Exec
pub mod Runs
pub mod Bulk
pub mod Dml
pub mod Observer
pub mod Adapter
pub mod Ingest
mod Tests
