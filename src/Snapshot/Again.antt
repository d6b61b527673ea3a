-- ===== src/Snapshot/Again.antt =====
-- pkg/snapshot/generator/snapshot_generator_recorder.go: which tables are snapshotted again.
