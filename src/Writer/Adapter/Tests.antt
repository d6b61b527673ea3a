-- ===== src/Writer/Adapter/Tests.antt =====
-- A DDL event that declares a table with an identity column, and a row of the table.
use pgstream.Prelude.{
  inl, inr, ◌==◌, ==_iff, Bool-cases, ◌≡◌, refl, Bool, true, false, not, ◌&&◌, ◌||◌, Option, none,
  some, List, [], ◌∷◌, ◌++◌, Str, bytes, contains, if◌then◌else◌,
}
use pgstream.Prelude.Int.{pos}
use pgstream.Prelude.Maps.{lookup}
use pgstream.Postgres.Identifier.{quote_identifier, quote_qualified_identifier}
use pgstream.Wal.{integer, other, Column, Data, Event, no_metadata}
use pgstream.Wal.Ddl.{
  DdlColumn, DdlObject, DdlEvent, is_ddl_event, is_drop_event, get_table_objects,
  get_table_column_objects,
}
use pgstream.Writer.Bulk.{Json}
use pgstream.Writer.Message.{WalMessage}
use pgstream.Writer.Dml.{DmlAdapter, Pgtype, on_conflict_error}
use pgstream.Writer.Observer.{
  Catalog, Observer, update, update_materialized_views, is_materialized_view,
}
use pgstream.Writer.Observer.Views.{named, update_materialized_views-Answers}
use pgstream.Writer.Adapter.{Result, done, wal_event_to_message, wal_event_to_queries}
use pgstream.Prelude.Strings.{Without}
use pgstream.Writer.Adapter.Learned.{NamesColumns, wal_event_to_message-NamesColumns}
use pgstream.Writer.Adapter.Agree.{then_queries, wal_event_to_queries-message}

abbrev no_json : Json
no_json = record { marshal = λ v. none; valid = λ s. true; is_document = λ n. false }

abbrev no_pgtype : Pgtype
no_pgtype = record {
  infinity_of = λ v. none;
  date = λ n. other n;
  timestamp = λ n. other n;
  timestamptz = λ n. other n;
  range_of = λ v. none;
  time_of = λ v. none;
  zero_time = 0;
  time_range = λ l u lt ut b. other l;
  scan_array = λ s. none;
  truncate = λ n. pos n;
}

abbrev in_quotes : Str → Str
in_quotes s = b'"' ∷ (s ++ b'"' ∷ [])

abbrev adapter : DmlAdapter
adapter = record { on_conflict = on_conflict_error; for_copy = false }

abbrev empty_catalog : Catalog
empty_catalog = record {
  generated_rows = λ s t. some [];
  always_identity_rows = λ s t. some [];
  materialized_view_rows = λ s. some [];
  sequence_rows = λ s t. some [];
}

abbrev no_caches : Observer
no_caches = record {
  generated_table_columns = [];
  always_identity_table_columns = [];
  materialized_views = [];
  column_table_sequences = [];
}

abbrev id_column : DdlColumn
id_column = record {
  attnum = 1;
  name = bytes "id";
  type = bytes "int4";
  nullable = false;
  default = none;
  generated = false;
  identity = some (bytes "ALWAYS");
  unique = true;
}

abbrev users : DdlObject
users = record {
  type = bytes "table";
  identity = bytes "public.users";
  schema = bytes "public";
  oid = bytes "1";
  pgstream_id = bytes "t1";
  columns = id_column ∷ [];
  primary_key_columns = bytes "id" ∷ [];
}

abbrev create_users : DdlEvent
create_users = record {
  ddl = bytes "CREATE TABLE users";
  schema_name = bytes "public";
  command_tag = bytes "CREATE TABLE";
  objects = users ∷ [];
}

abbrev row : Data
row = record {
  action = bytes "U";
  timestamp = [];
  lsn = [];
  schema = bytes "public";
  table = bytes "users";
  columns =
      record { id = bytes "1"; name = bytes "id"; type = bytes "int4"; value = integer (pos 1) }
      ∷ [];
  identity = [];
  xid = pos 0;
  prefix = [];
  content = [];
  metadata = no_metadata;
}

abbrev row_event : Event
row_event = record { body = some row; commit_position = [] }

abbrev undecodable : Str → Option DdlEvent
undecodable s = none

abbrev after_create : Observer
after_create = record {
  generated_table_columns = (bytes "\"public\".\"users\"", bytes "\"id\"" ∷ []) ∷ [];
  always_identity_table_columns = (bytes "\"public\".\"users\"", bytes "\"id\"" ∷ []) ∷ [];
  materialized_views = [];
  column_table_sequences = (bytes "\"public\".\"users\"", []) ∷ [];
}

created : update in_quotes create_users no_caches ≡ some after_create
unfolding update pgstream.Writer.Observer.update_column_sequences get_table_objects
    pgstream.Prelude.str_eq pgstream.Writer.Observer.sequences_of pgstream.Wal.Ddl.get_sequence_name
    get_table_column_objects pgstream.Wal.Ddl.get_materialized_view_objects
    pgstream.Writer.Observer.update_generated_column_names pgstream.Prelude.Maps.insert
    quote_qualified_identifier pgstream.Writer.Observer.columns_with quote_identifier
    pgstream.Wal.Ddl.is_generated pgstream.Wal.Ddl.is_always_identity
    pgstream.Postgres.Identifier.is_quoted_identifier pgstream.Prelude.Maps.set_insert
    pgstream.Prelude.Strings.has_prefix contains pgstream.Wal.Ddl.get_name
    pgstream.Prelude.Strings.after_last
created = refl

abbrev dotless : Str → Bool
dotless [] = true
dotless (c ∷ s) = not (c == b'.') && dotless s

dotless-Without : (s : Str) → dotless s ≡ true → Without b'.' s
dotless-Without [] h = tt
dotless-Without (c ∷ s) h = elim (Bool-cases (c == b'.')) [
  | inl e ↦ let bad : false ≡ true = (rw e at h) in absurd (cc)
  | inr e ↦ ((λ q. let same = (==_iff c b'.').1 q in absurd (cc)), dotless-Without s (rw e at h))
]

abbrev row_message : WalMessage
row_message = record {
  data_of = some row;
  schema_info = record {
    generated_columns = bytes "\"id\"" ∷ [];
    always_identity_columns = bytes "\"id\"" ∷ [];
    sequence_columns = [];
  };
  is_ddl = false;
}

row_is_dml : is_ddl_event row ≡ false
unfolding is_ddl_event pgstream.Prelude.str_eq
row_is_dml = refl

row_converted :
    (wal_event_to_message in_quotes empty_catalog undecodable false row_event after_create).1
    ≡ done row_message
unfolding wal_event_to_message is_materialized_view pgstream.Writer.Observer.get_cached lookup
    pgstream.Writer.Observer.query_materialized_views contains is_ddl_event pgstream.Prelude.str_eq
    pgstream.Writer.Adapter.schema_info_for pgstream.Writer.Observer.get_generated_column_names
    quote_qualified_identifier quote_identifier pgstream.Postgres.Identifier.is_quoted_identifier
    pgstream.Prelude.Strings.has_prefix pgstream.Writer.Observer.get_always_identity_column_names
    pgstream.Writer.Observer.get_sequence_columns
row_converted = refl

wal_event_to_message-NamesColumns_example :
    NamesColumns in_quotes empty_catalog undecodable false users row_message.schema_info
wal_event_to_message-NamesColumns_example =
    wal_event_to_message-NamesColumns in_quotes empty_catalog undecodable false create_users
      no_caches after_create row_event row users row_message created refl refl refl refl
      (dotless-Without row.schema refl) (dotless-Without row.table refl) refl row_is_dml
      row_converted refl

wal_event_to_queries-message_example :
    wal_event_to_queries in_quotes empty_catalog undecodable false no_json no_pgtype adapter
      row_event after_create
    ≡ then_queries in_quotes empty_catalog undecodable false no_json no_pgtype adapter
        (wal_event_to_message in_quotes empty_catalog undecodable false row_event after_create)
wal_event_to_queries-message_example =
    wal_event_to_queries-message in_quotes empty_catalog undecodable false no_json no_pgtype adapter
      row_event after_create

abbrev totals : DdlObject
totals = record users { type = bytes "materialized_view"; identity = bytes "public.totals" }

abbrev drop_totals : DdlEvent
drop_totals = record create_users {
  command_tag = bytes "DROP MATERIALIZED VIEW";
  objects = totals ∷ [];
}

abbrev with_totals : Observer
with_totals = record no_caches {
  materialized_views = (bytes "\"public\"", bytes "\"totals\"" ∷ []) ∷ [];
}

totals_cached :
    lookup (quote_identifier in_quotes drop_totals.schema_name) with_totals.materialized_views
    ≡ some (bytes "\"totals\"" ∷ [])
unfolding lookup pgstream.Prelude.str_eq quote_identifier
    pgstream.Postgres.Identifier.is_quoted_identifier pgstream.Prelude.Strings.has_prefix
totals_cached = refl

update_materialized_views-Answers_example :
    (is_materialized_view in_quotes empty_catalog drop_totals.schema_name
      (bytes "totals")
      (update_materialized_views in_quotes drop_totals (totals ∷ []) with_totals)).1
    ≡ (if is_drop_event drop_totals
        then contains (bytes "\"totals\"" ∷ []) (quote_identifier in_quotes (bytes "totals"))
          && not (named in_quotes (totals ∷ []) (quote_identifier in_quotes (bytes "totals")))
        else contains (bytes "\"totals\"" ∷ []) (quote_identifier in_quotes (bytes "totals"))
          || named in_quotes (totals ∷ []) (quote_identifier in_quotes (bytes "totals")))
update_materialized_views-Answers_example =
    update_materialized_views-Answers in_quotes empty_catalog drop_totals (totals ∷ []) with_totals
      (bytes "\"totals\"" ∷ []) (bytes "totals") totals_cached
