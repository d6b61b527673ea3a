-- ===== src/Writer/Dml/Tests.antt =====
-- Queries of a table with an identity column and a generated column.
use Prim.Native.String.{String}
use pgstream.Prelude.{
  ℕ, suc, ◌≡◌, ◌≤◌, refl, Bool, true, false, not, ◌&&◌, Option, none, some, List, [], ◌∷◌, ◌++◌,
  Str, bytes, is_empty, length, map, All, arith, if◌then◌else◌,
}
use pgstream.Prelude.Int.{pos}
use pgstream.Prelude.Maps.{lookup}
use pgstream.Postgres.Identifier.{quote_qualified_identifier}
use pgstream.Wal.{Value, null, string, integer, other, Column, Data, no_metadata}
use pgstream.Writer.Query.{Query, scalar}
use pgstream.Writer.Message.{SchemaInfo}
use pgstream.Writer.Bulk.{Json, max_params_per_query, arg_of, join}
use pgstream.Writer.Dml.{DmlAdapter, Pgtype, on_conflict_error, on_conflict_update}
use pgstream.Writer.Dml.Columns.{row_value, Settable, writable, skipped}
use pgstream.Writer.Dml.Where.{where_columns, conditions, assignments, not_null, is_none}
use pgstream.Writer.Dml.Queries.{
  query_with, setval, build_insert_queries, build_update_query, wal_data_to_queries,
}
use pgstream.Writer.Dml.Queries.Laws.{
  names_of, build_update_query-Numbered, unidentified, changes_row, wal_data_to_queries-Fails,
  SetsSequences, Inserts, build_insert_queries-Inserts,
}
use pgstream.Writer.Dml.Bulk.Deletes
use pgstream.Writer.Dml.Bulk.{
  build_bulk_delete_query, track_events, build_bulk_insert_queries, build_bulk_delete_query,
}
use pgstream.Writer.Dml.Bulk.Sequences.{SetsMaxes, build_bulk_insert_queries-SetsMaxes}
use pgstream.Writer.Dml.Bulk.Inserts.{Writes, build_bulk_insert_queries-Writes}
use pgstream.Writer.Dml.Bulk.Rows.{columns_of, Alike}

abbrev no_json : Json
no_json = record { marshal = λ v. none; valid = λ s. true; is_document = λ n. false }

abbrev no_pgtype : Pgtype
no_pgtype = record {
  infinity_of = λ v. none;
  date = λ n. other n;
  timestamp = λ n. other n;
  timestamptz = λ n. other n;
  range_of = λ v. none;
  time_of = λ v. none;
  zero_time = 0;
  time_range = λ l u lt ut b. other l;
  scan_array = λ s. none;
  truncate = λ n. pos n;
}

abbrev in_quotes : Str → Str
in_quotes s = b'"' ∷ (s ++ b'"' ∷ [])

abbrev adapter : DmlAdapter
adapter = record { on_conflict = on_conflict_error; for_copy = false }

abbrev column_of : String → Value → Column
column_of name v = record { id = bytes name; name = bytes name; type = bytes "text"; value = v }

abbrev row_of_user : String → ℕ → List Column
row_of_user name n =
    column_of "id" (integer (pos n))
    ∷ column_of "name" (string (bytes name))
    ∷ column_of "total" (integer (pos 7))
    ∷ []

abbrev event_of : String → List Column → List Column → Data
event_of action columns identity = record {
  action = bytes action;
  timestamp = [];
  lsn = [];
  schema = bytes "public";
  table = bytes "users";
  columns = columns;
  identity = identity;
  xid = pos 0;
  prefix = [];
  content = [];
  metadata = no_metadata;
}

abbrev info : SchemaInfo
info = record {
  generated_columns = bytes "\"total\"" ∷ [];
  always_identity_columns = bytes "\"id\"" ∷ [];
  sequence_columns = (bytes "\"id\"", bytes "users_seq") ∷ [];
}

abbrev updated_user : Data
updated_user = event_of "U" (row_of_user "ann" 1) (column_of "id" (integer (pos 1)) ∷ [])

abbrev inserted : String → ℕ → Data
inserted name n = event_of "I" (row_of_user name n) []

abbrev deleted : Value → Data
deleted v = event_of "D" [] (column_of "id" v ∷ [])

writable_update :
    writable in_quotes no_json no_pgtype adapter updated_user.columns info true
    ≡ column_of "name" (string (bytes "ann")) ∷ []
unfolding skipped pgstream.Prelude.contains pgstream.Prelude.str_eq
    pgstream.Postgres.Identifier.quote_identifier pgstream.Postgres.Identifier.is_quoted_identifier
    pgstream.Prelude.Strings.has_prefix
writable_update = refl

build_update_query-Numbered_example :
    (build_update_query in_quotes no_json no_pgtype adapter updated_user info
      ≡ some (
          query_with updated_user
            (bytes "UPDATE "
              ++ quote_qualified_identifier in_quotes updated_user.schema updated_user.table
              ++ bytes " "
              ++ (bytes "SET "
                  ++ join (bytes ", ") (
                      assignments in_quotes no_json 0 (
                        names_of in_quotes no_json no_pgtype adapter
                          (column_of "name" (string (bytes "ann")) ∷ []))))
              ++ bytes " "
              ++ (bytes "WHERE "
                  ++ join (bytes " AND ") (
                      conditions in_quotes no_json
                        (suc (length (names_of in_quotes no_json no_pgtype adapter [])))
                        updated_user.identity)))
            (map scalar (
                map
                  (row_value in_quotes no_json no_pgtype adapter)
                  (column_of "name" (string (bytes "ann")) ∷ []))
              ++ map
                  (arg_of in_quotes no_json)
                  (not_null in_quotes no_json updated_user.identity))))
    × All (Settable in_quotes no_json no_pgtype adapter info true) (
        names_of in_quotes no_json no_pgtype adapter (column_of "name" (string (bytes "ann")) ∷ []))
build_update_query-Numbered_example =
    build_update_query-Numbered in_quotes no_json no_pgtype adapter updated_user info
      (column_of "name" (string (bytes "ann"))) (column_of "id" (integer (pos 1))) [] []
      writable_update identified_by_id
  where
    identified_by_id : where_columns updated_user ≡ some (column_of "id" (integer (pos 1)) ∷ [])
    identified_by_id = unfold where_columns in refl

wal_data_to_queries-Fails_example :
    is_none (wal_data_to_queries in_quotes no_json no_pgtype adapter (event_of "D" [] []) info) ≡ (
      changes_row in_quotes no_json no_pgtype adapter (event_of "D" [] []) info
      && unidentified in_quotes no_json no_pgtype adapter (event_of "D" [] []))
wal_data_to_queries-Fails_example =
    wal_data_to_queries-Fails in_quotes no_json no_pgtype adapter (event_of "D" [] []) info

writable_insert :
    writable in_quotes no_json no_pgtype adapter (inserted "ann" 1).columns info false
    ≡ column_of "id" (integer (pos 1)) ∷ column_of "name" (string (bytes "ann")) ∷ []
unfolding skipped pgstream.Prelude.contains pgstream.Prelude.str_eq
    pgstream.Postgres.Identifier.quote_identifier pgstream.Postgres.Identifier.is_quoted_identifier
    pgstream.Prelude.Strings.has_prefix
writable_insert = refl

build_insert_queries-Inserts_example :
    (q : Query) × (qs : List Query) × (build_insert_queries in_quotes no_json no_pgtype adapter
        (inserted "ann" 1)
        info
      ≡ q ∷ qs)
    × Inserts in_quotes no_json no_pgtype adapter (inserted "ann" 1) info q
    × (adapter.for_copy ≡ true → qs ≡ [])
    × (adapter.for_copy ≡ false
        → SetsSequences in_quotes no_json no_pgtype adapter
            (inserted "ann" 1)
            info
            (inserted "ann" 1).columns
            qs)
build_insert_queries-Inserts_example =
    build_insert_queries-Inserts in_quotes no_json no_pgtype adapter (inserted "ann" 1) info
      (column_of "id" (integer (pos 1))) (column_of "name" (string (bytes "ann")) ∷ [])
      writable_insert

abbrev two_inserts : List Data
two_inserts = inserted "ann" 5 ∷ inserted "bob" 3 ∷ []

-- The larger of the two ids.
tracked :
    lookup
      (bytes "users_seq")
      (track_events in_quotes no_json no_pgtype adapter info [] two_inserts)
    ≡ some (pos 5)
unfolding track_events lookup pgstream.Writer.Dml.Bulk.track_columns
    pgstream.Writer.Dml.Bulk.assigned pgstream.Writer.Dml.to_int64 pgstream.Prelude.str_eq
    pgstream.Postgres.Identifier.quote_identifier pgstream.Postgres.Identifier.is_quoted_identifier
    pgstream.Prelude.Strings.has_prefix pgstream.Writer.Dml.Bulk.note_max
    pgstream.Prelude.Maps.insert
tracked = refl

abbrev insert_names : List Str
insert_names = columns_of in_quotes no_json no_pgtype adapter info (inserted "ann" 5)

few_names : (1 ≤ length insert_names) × (length insert_names ≤ max_params_per_query)
unfolding skipped pgstream.Prelude.contains pgstream.Prelude.str_eq
    pgstream.Postgres.Identifier.quote_identifier pgstream.Postgres.Identifier.is_quoted_identifier
    pgstream.Prelude.Strings.has_prefix
few_names = (omega arith, omega arith)

alike : All (Alike in_quotes no_json no_pgtype adapter info insert_names) (inserted "bob" 3 ∷ [])
unfolding skipped pgstream.Prelude.contains pgstream.Prelude.str_eq
    pgstream.Postgres.Identifier.quote_identifier pgstream.Postgres.Identifier.is_quoted_identifier
    pgstream.Prelude.Strings.has_prefix
alike = (refl, tt)

build_bulk_insert_queries-Writes_example :
    (qs : List Query) × (sets : List Query) × (build_bulk_insert_queries in_quotes no_json no_pgtype
        adapter two_inserts info
      ≡ some (qs ++ sets))
    × Writes in_quotes no_json no_pgtype adapter info max_params_per_query
        (inserted "ann" 5)
        insert_names
        two_inserts
        qs
    × All (λ q. q.sql ≡ setval) sets
build_bulk_insert_queries-Writes_example =
    build_bulk_insert_queries-Writes in_quotes no_json no_pgtype adapter info (inserted "ann" 5)
      (inserted "bob" 3 ∷ []) few_names.0 few_names.1 alike

build_bulk_insert_queries-SetsMaxes_example :
    (qs : List Query) × (sets : List Query) × (build_bulk_insert_queries in_quotes no_json no_pgtype
        adapter two_inserts info
      ≡ some (qs ++ sets))
    × Writes in_quotes no_json no_pgtype adapter info max_params_per_query
        (inserted "ann" 5)
        insert_names
        two_inserts
        qs
    × (adapter.for_copy ≡ true → sets ≡ [])
    × (adapter.for_copy ≡ false
        → SetsMaxes in_quotes no_json no_pgtype adapter info (inserted "ann" 5) two_inserts sets)
build_bulk_insert_queries-SetsMaxes_example =
    build_bulk_insert_queries-SetsMaxes in_quotes no_json no_pgtype adapter info (inserted "ann" 5)
      (inserted "bob" 3 ∷ []) few_names.0 few_names.1 alike

abbrev deletes : List Data
deletes = deleted (integer (pos 1)) ∷ deleted null ∷ deleted (integer (pos 2)) ∷ []

abbrev first_key : List Column
first_key = column_of "id" (integer (pos 1)) ∷ []
