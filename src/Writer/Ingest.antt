-- ===== src/Writer/Ingest.antt =====
-- pkg/wal/processor/postgres/postgres_bulk_ingest_writer.go: inserts are queued per table, and a batch of them is
-- copied to its table. Building a batch sender may fail, and the driver counts the rows that it copies.
pub mod Copy
pub mod Tables
mod Tests
use pgstream.Prelude.{
  ℕ, Bool, true, false, Option, none, some, List, [], ◌∷◌, ◌++◌, Str, bytes, length, map, ◌==◌,
  if◌then◌else◌,
}
use pgstream.Prelude.Maps.{lookup, insert}
use pgstream.Postgres.Errors.{RawError, Error, other_error, unmapped, map_error}
use pgstream.Postgres.Pool.{Connection, Ended, exec_in_tx}
use pgstream.Postgres.Identifier.{quote_qualified_identifier}
use pgstream.Wal.{Data, Event, is_insert}
use pgstream.Writer.Query.{Query, Arg}
use pgstream.Writer.Exec.{Statement, role_replica, role_default, copy_rows, mapped, set_role}
use pgstream.Writer.Adapter.{Result, done, failed, AdapterError}

-- errUnexpectedCopiedRows, without the counts that its text has.
abbrev pub err_unexpected_copied_rows : Error
err_unexpected_copied_rows =
    unmapped (other_error (bytes "number of rows copied doesn't match the source rows"))

ended : {S : Type 0} → S × Option Error → Ended S Unit
ended (s, e) = record { after = s; assigned = tt; error = e }

module _ (pq_quote : Str → Str) where
  -- The COPY of the inserts: table, columns and format are those of the first.
  unfoldable pub copy_statement : Query → List Query → Statement
  copy_statement q qs =
      copy_rows q.needs_text_copy (quote_qualified_identifier pq_quote q.schema q.table)
        q.column_names (map (λ i. i.args) (q ∷ qs))

  module _ (conn : Connection Statement) (disable_triggers : Bool)
      (rows_copied : conn.State → Statement → ℕ) where
    open conn use {State, exec}

    counted : ℕ → ℕ → State × Option RawError → Ended State Unit
    unfolding ended mapped
    counted expected copied (s, some e) = ended (s, mapped (some e))
    counted expected copied (s, none) =
        if copied == expected
        then ended (set_role conn disable_triggers role_default s)
        else ended (s, some err_unexpected_copied_rows)

    with_replica : Query → List Query → State × Option Error → Ended State Unit
    unfolding counted
    with_replica q qs (s, some e) = ended (s, some e)
    with_replica q qs (s, none) =
        counted (length (q ∷ qs)) (rows_copied s (copy_statement q qs))
          (exec s (copy_statement q qs))

    -- The callback of copyFromInsertQueries.
    unfoldable pub copy_in_tx : Query → List Query → State → Ended State Unit
    unfolding with_replica
    copy_in_tx q qs s = with_replica q qs (set_role conn disable_triggers role_replica s)

    -- copyFromInsertQueries
    unfoldable pub copy_from_insert_queries : List Query → State → State × Option Error
    copy_from_insert_queries [] s = (s, none)
    copy_from_insert_queries (q ∷ qs) s =
        let r = exec_in_tx conn tt (copy_in_tx q qs) s in (r.after, r.error)

  -- A query with the event's commit position.
  abbrev pub Queued : Type 0
  Queued = Query × Str

  -- batchSenderMap: what each sender has been sent, oldest first.
  abbrev pub Senders : Type 0
  Senders = List (Str × List Queued)

  -- Why an event is not done: the adapter, the builder of a sender, or the sender.
  pub data IngestError : Type 0 where
    adapter_error : AdapterError → IngestError
    no_sender : IngestError
    not_sent : IngestError

  -- Building a sender for a key, and sending to it a further message, may fail.
  module _ (builds : Str → Bool) (accepts : Str → List Queued → Bool) where
    or_build : Str → Senders → Option (List Queued) → Senders × Option (List Queued)
    or_build key senders (some sent) = (senders, some sent)
    or_build key senders none =
        if builds key then (insert key [] senders, some []) else (senders, none)

    -- getBatchSender
    unfoldable pub get_batch_sender : Str → Senders → Senders × Option (List Queued)
    unfolding or_build
    get_batch_sender key senders = or_build key senders (lookup key senders)

    send_message : Str → Queued → Senders × Option (List Queued) → Senders × Option IngestError
    send_message key m (senders, none) = (senders, some no_sender)
    send_message key m (senders, some sent) =
        if accepts key sent
        then (insert key (sent ++ m ∷ []) senders, none)
        else (senders, some not_sent)

    unfoldable pub next_query :
        Senders × Option IngestError
        → (Senders → Senders × Option IngestError)
        → Senders × Option IngestError
    next_query (senders, some e) next = (senders, some e)
    next_query (senders, none) next = next senders

    abbrev pub key_of : Query → Str
    key_of q = quote_qualified_identifier pq_quote q.schema q.table

    -- The loop over the queries of an event.
    unfoldable pub send_queries : Str → List Query → Senders → Senders × Option IngestError
    unfolding send_message next_query
    send_queries position [] senders = (senders, none)
    send_queries position (q ∷ qs) senders =
        next_query (send_message (key_of q) (q, position) (get_batch_sender (key_of q) senders))
          (send_queries position qs)

    unfoldable pub skips_data : Option Data → Bool
    skips_data none = false
    skips_data (some d) = if is_insert d then false else true

    send_result : Str → Senders → Result (List Query) → Senders × Option IngestError
    send_result position senders (failed e) = (senders, some (adapter_error e))
    send_result position senders (done qs) = send_queries position qs senders

    -- ProcessWALEvent, with the queries that the adapter makes of the event.
    unfoldable pub process_wal_event :
        (Event → Result (List Query)) → Event → Senders → Senders × Option IngestError
    unfolding skips_data send_result
    process_wal_event queries_of e senders =
        if skips_data e.body
        then (senders, none)
        else send_result e.commit_position senders (queries_of e)
