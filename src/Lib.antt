-- ===== src/Lib.antt =====
-- pgstream replicates a Postgres database: a listener turns the write-ahead log into events, and
-- a chain of processors filters and changes them and writes them to a target in batches, whose
-- commit positions the checkpointer confirms once they are written. This library models the
-- parts of that chain that decide what is written, in which order, and what is confirmed.
--
-- - Prelude: native numbers, lists, byte strings, integers, and association lists for Go maps. A
--   string is the list of its bytes, and a Go error that callers only pass on is `none` or a
--   string.
-- - Math: internal/math/math.go, over a record of float64 operations that the Go runtime
--   provides.
-- - TableMap: internal/postgres/schema_table_map.go. A query of the map writes to it, so it
--   returns the map that it leaves behind.
-- - Wal: pkg/wal/wal_data.go, with Wal.Ddl for pkg/wal/wal_ddl.go. The JSON decoder of a DDL
--   event is an argument.
-- - Filter: pkg/wal/processor/filter/wal_filter.go. ProcessWALEvent is `skips`, and
--   `process_all` a stream of its calls.
-- - Batch: pkg/wal/processor/batch. Batch itself is wal_batch.go and wal_message.go; Config,
--   Setting, Tuner and Sender are the files wal_batch_sender_config.go,
--   wal_batch_bytes_setting.go, wal_batch_bytes_tuner.go and wal_batch_sender.go. The interface
--   Message is a record of operations with the one law that the loop relies on. A round of
--   batchMsgLoop is `step`, and the case that is ready in its select is an input, with the tuner
--   as the round finds it. System puts SendMessage, the loop and the writer goroutine together
--   as a step relation around the queue semaphore, a parameter with the documented behaviour of
--   golang.org/x/sync.
-- - Postgres: internal/postgres/errors.go, whose MapError sorts the errors of the driver, and
--   the transaction of pg_conn_pool.go, over a connection with the behaviour that Postgres
--   documents of transactions; Identifier is the quoting of pg_utils.go.
-- - Writer: pkg/wal/processor/postgres. Query and Message are postgres_query_msg.go and
--   postgres_wal_message.go. Exec is execQueries and flushQueries of postgres_batch_writer.go on
--   the pool without the retrier that the writer puts around it unless retries are disabled, so
--   that the callback of a transaction runs once; and Runs its sendBatch, over an interface for
--   the builders of the SQL text. Dml is postgres_wal_dml_adapter.go, with Columns, Where and
--   Queries for the queries of one event and Dml.Bulk, with the older module Bulk for composite
--   keys, for postgres_wal_dml_adapter_bulk.go; the types of pgtype and the JSON library are
--   arguments. Observer is postgres_schema_observer.go, whose caches are its state and whose
--   catalog queries are an argument. Adapter is postgres_wal_adapter.go and
--   postgres_wal_ddl_adapter.go, with the observer as state, and its `builders` fill the
--   interface of Runs. Ingest is postgres_bulk_ingest_writer.go.
-- - Listener: pkg/wal/listener/postgres/wal_pg_listener.go with
--   pkg/wal/replication/postgres/pg_replication_handler.go. What the connection returns is the
--   input of the loop `listen`, and the calls that start a stream are recorded in a list.
-- - Injector: pkg/wal/processor/injector/wal_injector.go. The table cache is the state, and the
--   event that an operation has changed in place is its result. The sort of a table's columns,
--   which the cached object keeps, is an insertion sort: no two columns have the same number.
-- - Transformer: pkg/wal/processor/transformer. Map is wal_transformer_map.go, Parser the two
--   parsers of rules, Columns, Processor and Ddl the parts of wal_transformer.go, and Events its
--   ProcessWALEvent. A transformer is a value of an abstract type with a state for its random
--   numbers or its connection. Maps of rules are read in the order of their list.
-- - Search: pkg/wal/processor/search. Search itself is search_adapter.go, and Search.Indexer is
--   search_batch_indexer.go over the interface Store. Wal.Diff is pkg/wal/wal_schema_diff.go.
-- - Snapshot: pkg/snapshot/errors.go and snapshot.go, and filterOutExistingSchemaTables of
--   pkg/snapshot/generator/snapshot_generator_recorder.go, over the requests that the store
--   returns. Snapshot.Pages is the page ranges of
--   generator/postgres/data/pg_snapshot_generator.go there, whose loop runs on fuel for the
--   number of pages.
-- - Sanitizer: pkg/wal/processor/sanitizer/wal_sanitizer.go. ProcessWALEvent is `sanitize`, the
--   event that the inner processor gets.
-- - Kafka: pkg/kafka/kafka_offset_parser.go, over the decimal numbers of Prelude.Decimal, which
--   are strconv.Atoi and %d on 64 bits.
-- - Checkpointer: pkg/wal/checkpointer, with SyncLSN in Postgres and CommitOffsets in Kafka up
--   to the call of the syncer or the committer.
--
-- Numbers that the code keeps as int64 and that stay positive are natural numbers. Every loop is
-- a recursion on the list that it goes through, but that of flushQueries, which runs on fuel for
-- its rounds: one more than there are queries is enough, since a round that does not end it
-- drops a query; and those over the chunks of a bulk delete or insert, with a round for each
-- event; that over the required tables, with a round for each name and one more for each schema
-- where a name is *.*; and that over the page ranges of a table, with a round for each page,
-- which is enough since every range holds a page at least.
--
-- Not modelled: the command line and the configuration files, the assembly of a stream and its
-- status, the column transformers, the webhook notifier, the Kafka writer and reader, the
-- retriers, the dump and restore of a schema, and the migrations; logging, tracing and metrics,
-- the goroutines' shutdown, and what the third-party clients of Postgres, Kafka and the search
-- stores do.
pub mod Prelude
pub mod Math
pub mod TableMap
pub mod Wal
pub mod Listener
pub mod Injector
pub mod Transformer
pub mod Filter
pub mod Batch
pub mod Postgres
pub mod Writer
pub mod Sanitizer
pub mod Search
pub mod Snapshot
pub mod Kafka
pub mod Checkpointer
