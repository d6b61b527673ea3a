-- ===== src/Checkpointer.antt =====
-- pkg/wal/checkpointer: confirming the commit positions of a batch that has been written.
pub mod Postgres
pub mod Kafka
mod Tests
