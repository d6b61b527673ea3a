-- ===== src/Snapshot/Tests.antt =====
-- pkg/snapshot/generator/snapshot_generator_recorder.go: runs on small requests.
use pgstream.Prelude.{◌≡◌, refl, Option, some, none, [], ◌∷◌, Str, bytes}
use pgstream.Snapshot.{
  Request, SchemaErrors, SnapshotError, of_schema, new_schema_errors, requested, is_table_error,
  mark_completed, filter_out_existing_schema_tables,
}

abbrev users : Str
users = bytes "users"

abbrev orders : Str
orders = bytes "orders"

abbrev asked : Request
asked = record {
  schema = bytes "public";
  tables = users ∷ orders ∷ [];
  status = requested;
  errors = none;
}

abbrev users_failed : SchemaErrors
users_failed = record {
  schema = bytes "public";
  global_errors = [];
  table_errors = (users, bytes "timeout") ∷ [];
}

abbrev failure : Option SnapshotError
failure = some (of_schema (some users_failed))

-- Only the table that failed is left.
left_again :
    filter_out_existing_schema_tables
      (asked ∷ mark_completed (bytes "public") failure asked ∷ [])
      (users ∷ orders ∷ [])
    ≡ users ∷ []
unfolding filter_out_existing_schema_tables mark_completed pgstream.Snapshot.filter_tables
    pgstream.Prelude.str_eq pgstream.Prelude.Maps.lookup pgstream.Snapshot.existing_requests
    pgstream.Snapshot.add_request pgstream.Prelude.Maps.insert
    pgstream.Snapshot.has_failed_for_table is_table_error new_schema_errors
left_again = refl
