-- ===== src/Snapshot.antt =====
-- pkg/snapshot: requests of snapshots with their errors, and which tables the recorder of
-- generator/snapshot_generator_recorder.go leaves to snapshot. What the store holds is an argument.
pub mod Again
pub mod Pages
mod Tests
use pgstream.Prelude.{
  Bool, true, false, not, ◌&&◌, ◌||◌, Option, none, some, List, [], ◌∷◌, ◌++◌, Str, bytes, str_eq,
  is_empty, map, if◌then◌else◌,
}
use pgstream.Prelude.Maps.{lookup, insert}

pub record SchemaErrors : Type 0 where
  pub schema : Str
  pub global_errors : List Str
  pub table_errors : List (Str × Str)

pub data Status : Type 0 where
  requested in_progress completed : Status

-- No errors are a nil pointer.
pub record Request : Type 0 where
  pub schema : Str
  pub tables : List Str
  pub status : Status
  pub errors : Option SchemaErrors

-- An error that holds a *SchemaErrors, which may be nil, and any other with its text.
pub data SnapshotError : Type 0 where
  of_schema : Option SchemaErrors → SnapshotError
  plain : Str → SnapshotError

unfoldable pub new_schema_errors : Str → Option SnapshotError → Option SchemaErrors
new_schema_errors schema none = none
new_schema_errors schema (some (of_schema errors)) = errors
new_schema_errors schema (some (plain error)) =
    some (record { schema = schema; global_errors = error ∷ []; table_errors = [] })

unfoldable pub add_global_error : Str → Option SchemaErrors → Option SchemaErrors
add_global_error error none = none
add_global_error error (some e) = some (record e { global_errors = e.global_errors ++ error ∷ [] })

unfoldable pub add_table_error : Str → Str → Option SchemaErrors → Option SchemaErrors
add_table_error table error none = none
add_table_error table error (some e) =
    some (record e { table_errors = insert table error e.table_errors })

unfoldable pub is_global_error : Option SchemaErrors → Bool
is_global_error none = false
is_global_error (some e) = not (is_empty e.global_errors)

has_error : Option Str → Bool
has_error none = false
has_error (some e) = true

unfoldable pub is_table_error : Str → Option SchemaErrors → Bool
unfolding has_error
is_table_error table none = false
is_table_error table (some e) =
    not (is_empty e.global_errors)
    || (str_eq table (bytes "*") && not (is_empty e.table_errors)
        || has_error (lookup table e.table_errors))

first_of : Str × Str → Str
first_of (table, error) = table

-- GetFailedTables, in the order of the list; a Go map may give another.
unfoldable pub get_failed_tables : Option SchemaErrors → List Str
unfolding first_of
get_failed_tables none = []
get_failed_tables (some e) = map first_of e.table_errors

is_completed : Status → Bool
is_completed requested = false
is_completed in_progress = false
is_completed completed = true

unfoldable pub mark_in_progress : Request → Request
mark_in_progress r = record r { status = in_progress }

unfoldable pub mark_completed : Str → Option SnapshotError → Request → Request
mark_completed schema error r = record r {
  status = completed;
  errors = new_schema_errors schema error;
}

unfoldable pub has_failed_for_table : Str → Request → Bool
unfolding is_completed
has_failed_for_table table r = is_completed r.status && is_table_error table r.errors

unfoldable pub add_request : List Str → Request → List (Str × Request) → List (Str × Request)
add_request [] r m = m
add_request (t ∷ ts) r m = add_request ts r (insert t r m)

-- existingRequests: the last request of each table.
unfoldable pub existing_requests : List Request → List (Str × Request) → List (Str × Request)
existing_requests [] m = m
existing_requests (r ∷ rs) m = existing_requests rs (add_request r.tables r m)

failed_in : Str → Option Request → Bool
failed_in table none = false
failed_in table (some r) = has_failed_for_table table r

is_missing : Option Request → Bool
is_missing none = true
is_missing (some r) = false

-- What the wildcard stands for.
wildcard_tables : Option Request → List Str
wildcard_tables none = bytes "*" ∷ []
wildcard_tables (some r) =
    if is_global_error r.errors then bytes "*" ∷ [] else get_failed_tables r.errors

unfoldable pub filter_tables : List (Str × Request) → List Str → List Str
unfolding failed_in is_missing wildcard_tables
filter_tables m [] = []
filter_tables m (t ∷ ts) =
    let rest = filter_tables m ts in
    let all = lookup (bytes "*") m in
    let one = lookup t m in
    if str_eq t (bytes "*")
    then wildcard_tables all ++ rest
    else if failed_in t one || (failed_in t all || (is_missing one && is_missing all))
    then t ∷ rest
    else rest

-- filterOutExistingSchemaTables, with the requests of the schema in the store.
unfoldable pub filter_out_existing_schema_tables : List Request → List Str → List Str
filter_out_existing_schema_tables requests tables =
    if is_empty requests then tables else filter_tables (existing_requests requests []) tables
