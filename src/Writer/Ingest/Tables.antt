-- ===== src/Writer/Ingest/Tables.antt =====
-- pkg/wal/processor/postgres/postgres_bulk_ingest_writer.go: the queries of a table reach its sender in order.
use pgstream.Prelude.{
  ◌≡◌, Bool, Option, none, some, List, [], ◌∷◌, ◌++◌, Str, str_eq, keep, map, if◌then◌else◌,
}
use pgstream.Prelude.Maps.{lookup}
use pgstream.Wal.{Event}
use pgstream.Writer.Query.{Query}
use pgstream.Writer.Adapter.{Result, done, failed}
use pgstream.Writer.Ingest.{Senders, IngestError, next_query, key_of, skips_data, process_wal_event}

module _ (pq_quote : Str → Str) (builds : Str → Bool)
    (accepts : Str → List (Query × Str) → Bool) where
  all_sent : Option (List (Query × Str)) → List (Query × Str)
  all_sent none = []
  all_sent (some sent) = sent

  -- What the sender of a table has been sent, nothing if there is none yet.
  pub sent_to : Str → Senders pq_quote → List (Query × Str)
  unfolding all_sent
  sent_to key senders = all_sent (lookup key senders)

  -- The queries of a table.
  abbrev pub of_table : Str → List (Query × Str) → List (Query × Str)
  of_table key ms = keep (λ m. str_eq (key_of pq_quote builds accepts m.0) key) ms

  -- A sender that is found or built has been sent what is recorded, and the others stay as they are.
  record Opened (key : Str) (senders : Senders pq_quote)
      (r : Senders pq_quote × Option (List (Query × Str))) : Type 0 where
    same : (other : Str) → sent_to other r.0 ≡ sent_to other senders
    found : (sent : List (Query × Str)) → r.1 ≡ some sent → sent ≡ sent_to key senders

  -- One message has gone to the sender with this key, and the others stay as they are.
  abbrev Grown : Str → (Query × Str) → Senders pq_quote → Senders pq_quote → Type 0
  Grown key m before after =
      (other : Str)
      → sent_to other after ≡ sent_to other before ++ (if str_eq key other then m ∷ [] else [])

  with_position : Str → List Query → List (Query × Str)
  with_position position qs = map (λ q. (q, position)) qs

  module _ (queries_of : Event → Result (List Query)) where
    -- ProcessWALEvent for one event after the other, until an error.
    unfoldable pub process_all :
        List Event → Senders pq_quote → Senders pq_quote × Option (IngestError pq_quote)
    process_all [] senders = (senders, none)
    process_all (e ∷ es) senders =
        next_query pq_quote builds accepts
          (process_wal_event pq_quote builds accepts queries_of e senders) (process_all es)

    built_queries : Str → Result (List Query) → List (Query × Str)
    unfolding with_position
    built_queries position (failed e) = []
    built_queries position (done qs) = with_position position qs

    -- The queries of an event, with its position; none of an event that is no insert.
    unfoldable pub queue_of : Event → List (Query × Str)
    unfolding built_queries
    queue_of e =
        if skips_data pq_quote builds accepts e.body
        then []
        else built_queries e.commit_position (queries_of e)

    abbrev pub queue_all : List Event → List (Query × Str)
    queue_all [] = []
    queue_all (e ∷ es) = queue_of e ++ queue_all es
