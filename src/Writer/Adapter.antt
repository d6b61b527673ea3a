-- ===== src/Writer/Adapter.antt =====
-- pkg/wal/processor/postgres/postgres_wal_adapter.go and postgres_wal_ddl_adapter.go: from events to messages
-- and to queries. The JSON decoder of DDL events is an argument.
pub mod Agree
pub mod Learned
mod Tests
use pgstream.Prelude.{
  Bool, true, false, Option, none, some, List, [], ◌∷◌, Str, bytes, if◌then◌else◌,
}
use pgstream.Wal.{Data, Event}
use pgstream.Wal.Ddl.{
  DdlEvent, DdlObject, DdlError, DdlResult, ok, err, is_ddl_event, wal_data_to_ddl_event,
  get_table_objects, get_table,
}
use pgstream.Writer.Query.{Query}
use pgstream.Writer.Message.{SchemaInfo, WalMessage}
use pgstream.Writer.Bulk.{Json}
use pgstream.Writer.Dml.{DmlAdapter, Pgtype}
use pgstream.Writer.Dml.Queries.{no_query, wal_data_to_queries}
use pgstream.Writer.Dml.Bulk.{build_bulk_delete_query, build_bulk_insert_queries}
use pgstream.Writer.Runs.{Adapter}
use pgstream.Writer.Observer.{
  Catalog, Observer, get_generated_column_names, get_always_identity_column_names,
  get_sequence_columns, is_materialized_view, update,
}

pub data AdapterError : Type 0 where
  ddl_error : DdlError → AdapterError
  catalog_query unable_to_build_query panicked : AdapterError

pub data Result (A : Type 0) : Type 0 where
  done : A → Result A
  failed : AdapterError → Result A

abbrev pub no_schema_info : SchemaInfo
no_schema_info = record {
  generated_columns = [];
  always_identity_columns = [];
  sequence_columns = [];
}

-- &walMessage{}
abbrev pub no_message : WalMessage
no_message = record { data_of = none; schema_info = no_schema_info; is_ddl = false }

first_table : List DdlObject → Str
first_table [] = []
first_table (obj ∷ objs) = get_table obj

-- newDDLQuery
abbrev pub new_ddl_query : Str → Str → Str → Query
new_ddl_query schema table sql = record no_query {
  schema = schema;
  table = table;
  sql = sql;
  is_ddl = true;
}

ddl_queries_of : DdlResult → Result (List Query)
unfolding first_table
ddl_queries_of (err e) = failed (ddl_error e)
ddl_queries_of (ok e) =
    done (new_ddl_query e.schema_name (first_table (get_table_objects e)) e.ddl ∷ [])

-- (*ddlAdapter).walDataToQueries
unfoldable pub ddl_queries : (Str → Option DdlEvent) → Data → Result (List Query)
unfolding ddl_queries_of
ddl_queries unmarshal d = ddl_queries_of (wal_data_to_ddl_event unmarshal d)

unfoldable pub built : Option (List Query) → Result (List Query)
built none = failed unable_to_build_query
built (some qs) = done qs

abbrev or_none : {A : Type 0} → Result A → Option A
or_none (done x) = some x
or_none (failed e) = none

module _ (pq_quote : Str → Str) (catalog : Catalog) where
  with_info :
      List Str → List Str → Observer × Option (List (Str × Str)) → Observer × Option SchemaInfo
  with_info generated always (o, none) = (o, none)
  with_info generated always (o, some m) = (
    o,
    some (record {
      generated_columns = generated;
      always_identity_columns = always;
      sequence_columns = m;
    }),
  )

  with_always : Data → List Str → Observer × Option (List Str) → Observer × Option SchemaInfo
  unfolding with_info
  with_always d generated (o, none) = (o, none)
  with_always d generated (o, some always) =
      with_info generated always (get_sequence_columns pq_quote catalog d.schema d.table o)

  with_generated : Data → Observer × Option (List Str) → Observer × Option SchemaInfo
  unfolding with_always
  with_generated d (o, none) = (o, none)
  with_generated d (o, some generated) =
      with_always d generated (get_always_identity_column_names pq_quote catalog d.schema d.table o)

  -- The three calls of the schema observer for an event of a table; `none` is an error of one.
  unfoldable pub schema_info_for : Data → Observer → Observer × Option SchemaInfo
  unfolding with_generated
  schema_info_for d o =
      with_generated d (get_generated_column_names pq_quote catalog d.schema d.table o)

  dml_message : Data → Observer × Option SchemaInfo → Observer × Result WalMessage
  dml_message d (o, none) = (o, failed catalog_query)
  dml_message d (o, some info) =
      (o, done (record { data_of = some d; schema_info = info; is_ddl = false }))

  -- `no_ddl`: there is no DDL adapter. A panic stops the stream, and the observer is not used again.
  updated : {A : Type 0} → Bool → Observer → A → Result A → Option Observer → Observer × Result A
  updated no_ddl o skip next none = (o, failed panicked)
  updated no_ddl o skip next (some o') = if no_ddl then (o', done skip) else (o', next)

  after_event : {A : Type 0} → Bool → A → Result A → Observer → DdlResult → Observer × Result A
  unfolding updated
  after_event no_ddl skip next o (err e) = (o, failed (ddl_error e))
  after_event no_ddl skip next o (ok e) = updated no_ddl o skip next (update pq_quote e o)

  module _ (unmarshal : Str → Option DdlEvent) (no_ddl : Bool) where
    message_unless : Data → Observer × Bool → Observer × Result WalMessage
    unfolding dml_message after_event
    message_unless d (o, true) = (o, done no_message)
    message_unless d (o, false) = elim (is_ddl_event d) [
      | true ↦
          after_event no_ddl no_message
            (done (record no_message { data_of = some d; is_ddl = true })) o
            (wal_data_to_ddl_event unmarshal d)
      | false ↦ dml_message d (schema_info_for d o)
    ]

    message_of : Option Data → Observer → Observer × Result WalMessage
    unfolding message_unless
    message_of none o = (o, done no_message)
    message_of (some d) o =
        message_unless d (is_materialized_view pq_quote catalog d.schema d.table o)

    -- walEventToMessage
    unfoldable pub wal_event_to_message : Event → Observer → Observer × Result WalMessage
    unfolding message_of
    wal_event_to_message e o = message_of e.body o

    module _ (json : Json) (pgtype : Pgtype) (a : DmlAdapter) where
      dml_queries : Data → Observer × Option SchemaInfo → Observer × Result (List Query)
      unfolding built
      dml_queries d (o, none) = (o, failed catalog_query)
      dml_queries d (o, some info) = (o, built (wal_data_to_queries pq_quote json pgtype a d info))

      queries_unless : Data → Observer × Bool → Observer × Result (List Query)
      unfolding dml_queries after_event
      queries_unless d (o, true) = (o, done (no_query ∷ []))
      queries_unless d (o, false) = elim (is_ddl_event d) [
        | true ↦
            after_event no_ddl (no_query ∷ []) (ddl_queries unmarshal d) o
              (wal_data_to_ddl_event unmarshal d)
        | false ↦ dml_queries d (schema_info_for d o)
      ]

      queries_of : Option Data → Observer → Observer × Result (List Query)
      unfolding queries_unless
      queries_of none o = (o, done (no_query ∷ []))
      queries_of (some d) o =
          queries_unless d (is_materialized_view pq_quote catalog d.schema d.table o)

      -- walEventToQueries
      unfoldable pub wal_event_to_queries : Event → Observer → Observer × Result (List Query)
      unfolding queries_of
      wal_event_to_queries e o = queries_of e.body o

-- The builders that the batch writer calls.
abbrev pub builders : (Str → Str) → (Str → Option DdlEvent) → Json → Pgtype → DmlAdapter → Adapter
builders pq_quote unmarshal json pgtype a = record {
  build_bulk_delete_query = build_bulk_delete_query pq_quote json pgtype a;
  build_bulk_insert_queries = build_bulk_insert_queries pq_quote json pgtype a;
  wal_data_to_queries = wal_data_to_queries pq_quote json pgtype a;
  ddl_queries = λ d. or_none (ddl_queries unmarshal d);
}
