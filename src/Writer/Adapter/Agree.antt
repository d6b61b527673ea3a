-- ===== src/Writer/Adapter/Agree.antt =====
-- pkg/wal/processor/postgres/postgres_wal_adapter.go: the queries of an event are those of its message.
use pgstream.Prelude.{
  ◌≡◌, refl, inl, inr, Bool, true, false, Option, none, some, List, [], ◌∷◌, Str, Bool-cases,
}
use pgstream.Wal.{Data, Event}
use pgstream.Wal.Ddl.{DdlEvent, DdlResult, ok, err, is_ddl_event, wal_data_to_ddl_event}
use pgstream.Writer.Query.{Query}
use pgstream.Writer.Message.{SchemaInfo, WalMessage}
use pgstream.Writer.Bulk.{Json}
use pgstream.Writer.Dml.{DmlAdapter, Pgtype}
use pgstream.Writer.Dml.Queries.{no_query, wal_data_to_queries}
use pgstream.Writer.Observer.{Catalog, Observer, is_materialized_view, update}
use pgstream.Writer.Adapter.{
  Result, done, failed, built, no_message, ddl_queries, schema_info_for, dml_message, updated,
  after_event, message_unless, message_of, wal_event_to_message, dml_queries, queries_unless,
  queries_of, wal_event_to_queries,
}

module _ (pq_quote : Str → Str) (catalog : Catalog) (unmarshal : Str → Option DdlEvent)
    (no_ddl : Bool) (json : Json) (pgtype : Pgtype) (a : DmlAdapter) where
  data_queries : Bool → SchemaInfo → Option Data → Result (List Query)
  data_queries is_ddl info none = done (no_query ∷ [])
  data_queries true info (some d) = ddl_queries unmarshal d
  data_queries false info (some d) = built (wal_data_to_queries pq_quote json pgtype a d info)

  -- The queries of a message: those of its DDL event or its row, or the empty query.
  unfoldable pub queries_of_message : WalMessage → Result (List Query)
  unfolding data_queries
  queries_of_message m = data_queries m.is_ddl m.schema_info m.data_of

  abbrev pub then_queries : Observer × Result WalMessage → Observer × Result (List Query)
  then_queries (o, done m) = (o, queries_of_message m)
  then_queries (o, failed e) = (o, failed e)

  dml-agree :
      (d : Data) (r : Observer × Option SchemaInfo)
      → dml_queries pq_quote catalog unmarshal no_ddl json pgtype a d r
        ≡ then_queries (dml_message pq_quote catalog d r)
  unfolding dml_queries dml_message queries_of_message data_queries
  dml-agree d (o, none) = refl
  dml-agree d (o, some info) = refl

  abbrev ddl_message : Data → WalMessage
  ddl_message d = record no_message { data_of = some d; is_ddl = true }

  updated-agree :
      (d : Data) (o : Observer) (r : Option Observer)
      → updated pq_quote catalog no_ddl o (no_query ∷ []) (ddl_queries unmarshal d) r
        ≡ then_queries (updated pq_quote catalog no_ddl o no_message (done (ddl_message d)) r)
  unfolding updated queries_of_message data_queries
  updated-agree d o none = refl
  updated-agree d o (some o') = elim (Bool-cases no_ddl) [ inl e ↦ rw e refl | inr e ↦ rw e refl ]

  after_event-agree :
      (d : Data) (o : Observer) (r : DdlResult)
      → after_event pq_quote catalog no_ddl (no_query ∷ []) (ddl_queries unmarshal d) o r
        ≡ then_queries (after_event pq_quote catalog no_ddl no_message (done (ddl_message d)) o r)
  unfolding after_event
  after_event-agree d o (err e) = refl
  after_event-agree d o (ok e) = updated-agree d o (update pq_quote e o)

  unless-agree :
      (d : Data) (r : Observer × Bool)
      → queries_unless pq_quote catalog unmarshal no_ddl json pgtype a d r
        ≡ then_queries (message_unless pq_quote catalog unmarshal no_ddl d r)
  unfolding queries_unless message_unless queries_of_message data_queries
  unless-agree d (o, true) = refl
  unless-agree d (o, false) = elim (Bool-cases (is_ddl_event d)) [
    | inl e ↦
        rw (e, queries_unless, message_unless)
          (after_event-agree d o (wal_data_to_ddl_event unmarshal d))
    | inr e ↦
        rw (e, queries_unless, message_unless) (dml-agree d (schema_info_for pq_quote catalog d o))
  ]

  -- The queries of an event are the queries of the message that the event becomes, with the same effect on the
  -- schema observer, and an event that becomes no message fails with the same error.
  pub wal_event_to_queries-message :
      (e : Event) (o : Observer)
      → wal_event_to_queries pq_quote catalog unmarshal no_ddl json pgtype a e o
        ≡ then_queries (wal_event_to_message pq_quote catalog unmarshal no_ddl e o)
  unfolding wal_event_to_queries wal_event_to_message
  wal_event_to_queries-message e o = body_agrees e.body
    where
      body_agrees :
          (b : Option Data)
          → queries_of pq_quote catalog unmarshal no_ddl json pgtype a b o
            ≡ then_queries (message_of pq_quote catalog unmarshal no_ddl b o)
      body_agrees none = unfold queries_of message_of queries_of_message data_queries in refl
      body_agrees (some d) =
          unfold queries_of message_of in
          unless-agree d (is_materialized_view pq_quote catalog d.schema d.table o)
