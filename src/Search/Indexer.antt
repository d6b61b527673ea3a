-- ===== src/Search/Indexer.antt =====
-- pkg/wal/processor/search/search_batch_indexer.go: a batch of messages is applied to the store. The store is an
-- argument.
pub mod Plan
pub mod Calls
use pgstream.Prelude.{
  Bool, true, false, not, Option, none, some, List, [], ◌∷◌, ◌++◌, Str, is_empty, if◌then◌else◌,
}
use pgstream.Wal.{Event}
use pgstream.Wal.Diff.{SchemaDiff}
use pgstream.Search.{
  Document, Msg, keep_alive, write, truncate, schema_diff, SearchError, metadata_missing,
  nil_id_value, Result, done, failed,
}

-- Errors of the store: context.Canceled, ErrInvalidQuery, and others.
pub data StoreError : Type 0 where
  canceled invalid_query : StoreError
  store_error : Str → StoreError

-- search.Store. Documents that it fails to store are only logged.
pub record Store : Type 1 where
  pub State : Type 0
  pub send_documents : State → List Document → State × Option StoreError
  pub apply_schema_diff : State → SchemaDiff → State × Option StoreError
  pub delete_schema : State → Str → State × Option StoreError
  pub delete_table_documents : State → Str → Str → State × Option StoreError

-- Where a batch stops: with an error of the store, at a message that is empty, or, without an error, at a schema
-- change that has failed.
pub data Stop : Type 0 where
  store_failed : StoreError → Stop
  empty_message : Stop
  diff_failed : Stop

module _ (store : Store) (skip_schema : Str → Bool) where
  open store use {State, send_documents, apply_schema_diff, delete_schema, delete_table_documents}

  pub sent : State × Option StoreError → State × Option Stop
  sent (s, none) = (s, none)
  sent (s, some invalid_query) = (s, none)
  sent (s, some canceled) = (s, some (store_failed canceled))
  sent (s, some (store_error e)) = (s, some (store_failed (store_error e)))

  -- flushWrites
  unfoldable pub flush_writes : List Document → State → State × Option Stop
  unfolding sent
  flush_writes [] s = (s, none)
  flush_writes (doc ∷ docs) s = sent (send_documents s (doc ∷ docs))

  -- applySchemaDiff
  unfoldable pub apply_diff : SchemaDiff → State → State × Option StoreError
  apply_diff diff s =
      if skip_schema diff.schema_name
      then (s, none)
      else if diff.schema_dropped
      then delete_schema s diff.schema_name
      else apply_schema_diff s diff

  unfoldable pub diffed : State × Option StoreError → State × Option Stop
  diffed (s, none) = (s, none)
  diffed (s, some canceled) = (s, some (store_failed canceled))
  diffed (s, some invalid_query) = (s, some diff_failed)
  diffed (s, some (store_error e)) = (s, some diff_failed)

  unfoldable pub truncated : State × Option StoreError → State × Option Stop
  truncated (s, none) = (s, none)
  truncated (s, some e) = (s, some (store_failed e))

  unfoldable pub next : State × Option Stop → (State → State × Option Stop) → State × Option Stop
  next (s, none) f = f s
  next (s, some e) f = (s, some e)

  -- The loop of sendBatch, with the documents that wait to be sent.
  unfoldable pub send_messages : List Document → List Msg → State → State × Option Stop
  unfolding diffed truncated
  send_messages writes [] s = flush_writes writes s
  send_messages writes (write doc size ∷ ms) s = send_messages (writes ++ doc ∷ []) ms s
  send_messages writes (schema_diff diff ∷ ms) s =
      next (flush_writes writes s) (λ s'. next (diffed (apply_diff diff s')) (send_messages [] ms))
  send_messages writes (truncate schema table ∷ ms) s =
      next (flush_writes writes s)
        (λ s'. next (truncated (delete_table_documents s' schema table)) (send_messages [] ms))
  send_messages writes (keep_alive ∷ ms) s = (s, some empty_message)

  -- How a batch ends: with a checkpoint of its positions, or without, and with an error of the batch or of the
  -- checkpoint.
  pub data BatchEnd : Type 0 where
    checkpointed : List Str → BatchEnd
    not_checkpointed : BatchEnd
    stopped : Stop → BatchEnd
    checkpoint_failed : Str → BatchEnd

  checkpoint : Option (List Str → Option Str) → List Str → BatchEnd
  checkpoint none positions = not_checkpointed
  checkpoint (some c) positions = elim (c positions) [
    | none ↦ checkpointed positions
    | some e ↦ checkpoint_failed e
  ]

  pub ended : Option (List Str → Option Str) → List Str → State × Option Stop → State × BatchEnd
  unfolding checkpoint
  ended c positions (s, none) = (s, checkpoint c positions)
  ended c positions (s, some diff_failed) = (s, not_checkpointed)
  ended c positions (s, some (store_failed e)) = (s, stopped (store_failed e))
  ended c positions (s, some empty_message) = (s, stopped empty_message)

  -- sendBatch, with its checkpointer. After a schema change that fails it returns no error.
  unfoldable pub send_batch :
      Option (List Str → Option Str) → List Msg → List Str → State → State × BatchEnd
  unfolding ended
  send_batch c ms positions s = ended c positions (send_messages [] ms s)

-- What ProcessWALEvent does with an event: it drops it, queues a message, or returns an error.
pub data Queued : Type 0 where
  dropped : Queued
  queued : Msg → Queued
  refused : SearchError → Queued

-- ProcessWALEvent, up to the call of the batch sender.
unfoldable pub process_wal_event : Result (Option Msg) → Queued
process_wal_event (done none) = dropped
process_wal_event (done (some m)) = queued m
process_wal_event (failed metadata_missing) = dropped
process_wal_event (failed nil_id_value) = dropped
process_wal_event (failed e) = refused e
