-- ===== src/Injector.antt =====
-- pkg/wal/processor/injector/wal_injector.go: the ids of tables and columns are added to events. The answer
-- of the query for a table is an argument, and logging is left out.
pub mod Ids
pub mod Keys
pub mod Passes
mod Tests
use pgstream.Prelude.{
  Bool, true, false, not, ◌&&◌, Option, none, some, List, [], ◌∷◌, ◌++◌, Str, bytes, str_eq,
  contains, is_empty, keep, map, leb, if◌then◌else◌,
}
use pgstream.Prelude.Decimal.{print_ℕ}
use pgstream.Prelude.Maps.{lookup, insert, delete}
use pgstream.Wal.{Column, Data, Event}
use pgstream.Wal.Ddl.{
  DdlColumn, DdlObject, DdlEvent, DdlError, DdlResult, ok, err, get_table, get_table_objects,
  get_table_column_objects, get_column_by_name, is_ddl_event, wal_data_to_ddl_event,
}

-- What the query for a table returns; a row is `none` if its JSON cannot be parsed.
pub data Answer : Type 0 where
  no_rows query_error : Answer
  object : Option DdlObject → Answer

-- ErrTableNotFound, ErrIDNotFound, ErrColumnNotFound, and the errors of the query and of the JSON parser.
pub data InjectError : Type 0 where
  table_not_found query_failed parse_failed id_not_found column_not_found : InjectError

-- tableCache
abbrev pub Cache : Type 0
Cache = List (Str × DdlObject)

-- schema + "." + table
abbrev pub qualified_name : Str → Str → Str
qualified_name schema table = schema ++ bytes "." ++ table

abbrev pub object_name : DdlObject → Str
object_name obj = qualified_name obj.schema (get_table obj)

unfoldable pub remove_tables : List DdlObject → Cache → Cache
remove_tables [] cache = cache
remove_tables (obj ∷ objs) cache = remove_tables objs (delete (object_name obj) cache)

unfoldable pub set_tables : List DdlObject → Cache → Cache
set_tables [] cache = cache
set_tables (obj ∷ objs) cache = set_tables objs (insert (object_name obj) obj cache)

-- updateTableCache
unfoldable pub update_table_cache : DdlEvent → Cache → Cache
update_table_cache e cache =
    if str_eq e.command_tag (bytes "DROP TABLE")
    then remove_tables (get_table_objects e) cache
    else set_tables (get_table_objects e ++ get_table_column_objects e) cache

by_attnum : DdlColumn → List DdlColumn → List DdlColumn
by_attnum c [] = c ∷ []
by_attnum c (d ∷ cols) =
    let rest = by_attnum c cols in if leb c.attnum d.attnum then c ∷ d ∷ cols else d ∷ rest

-- sort.Slice by attnum; no two columns of a table have the same.
unfoldable pub sort_columns : List DdlColumn → List DdlColumn
unfolding by_attnum
sort_columns [] = []
sort_columns (c ∷ cols) = by_attnum c (sort_columns cols)

first_unique : List DdlColumn → List DdlColumn
first_unique [] = []
first_unique (c ∷ cols) = if c.unique && not c.nullable then c ∷ [] else first_unique cols

-- getIdentityColumns of a table whose columns have been sorted.
unfoldable pub identity_columns : List Str → List DdlColumn → List DdlColumn
unfolding first_unique
identity_columns primary_keys cols =
    if not (is_empty primary_keys)
    then keep (λ c. contains primary_keys c.name) cols
    else first_unique cols

-- GetColumnPgstreamID
unfoldable pub get_column_pgstream_id : Str → DdlColumn → Str
get_column_pgstream_id table_id c = table_id ++ bytes "-" ++ print_ℕ c.attnum

with_ids : Data → Str → List Str → Data
with_ids d table_id [] = record d { metadata = record d.metadata { table_pgstream_id = table_id } }
with_ids d table_id (id ∷ ids) = record d {
  metadata = record d.metadata { table_pgstream_id = table_id; internal_col_ids = id ∷ ids };
}

-- fillEventMetadata: the event, and whether it has found identity columns.
unfoldable pub fill_event_metadata : Data → DdlObject → Data × Bool
unfolding with_ids
fill_event_metadata d tbl =
    let cols = identity_columns tbl.primary_key_columns tbl.columns in
    (
      with_ids d tbl.pgstream_id (map (get_column_pgstream_id tbl.pgstream_id) cols),
      not (is_empty cols),
    )

with_id : DdlObject → Column → Option DdlColumn → Column
with_id tbl col none = col
with_id tbl col (some c) = record col { id = get_column_pgstream_id tbl.pgstream_id c }

is_found : Option DdlColumn → Bool
is_found none = false
is_found (some c) = true

-- A loop of injectColumnIDs: the columns, and whether the table has all of them.
unfoldable pub inject_ids : DdlObject → List Column → List Column × Bool
unfolding with_id is_found
inject_ids tbl [] = ([], true)
inject_ids tbl (col ∷ cols) =
    let (rest, all) = inject_ids tbl cols in
    let c = get_column_by_name tbl col.name in (with_id tbl col c ∷ rest, is_found c && all)

-- injectColumnIDs
unfoldable pub inject_column_ids : Data → DdlObject → Data × Bool
inject_column_ids d tbl =
    let (columns, found) = inject_ids tbl d.columns in
    let (identity, found') = inject_ids tbl d.identity in
    (record d { columns = columns; identity = identity }, found && found')

-- What a search for a table returns.
pub data Found : Type 0 where
  table : DdlObject → Found
  missing : InjectError → Found

answered : Str → Cache → Answer → Cache × Found
answered name cache no_rows = (cache, missing table_not_found)
answered name cache query_error = (cache, missing query_failed)
answered name cache (object none) = (cache, missing parse_failed)
answered name cache (object (some tbl)) = (insert name tbl cache, table tbl)

or_answer : Str → Cache → Option DdlObject → Answer → Cache × Found
unfolding answered
or_answer name cache none answer = answered name cache answer
or_answer name cache (some tbl) answer = (cache, table tbl)

-- getTableObject
unfoldable pub get_table_object : (Str → Str → Answer) → Cache → Data → Cache × Found
unfolding or_answer
get_table_object query cache d =
    let name = qualified_name d.schema d.table in
    or_answer name cache (lookup name cache) (query d.schema d.table)

-- The object that the cache shares has its columns sorted.
unfoldable pub sorted : DdlObject → DdlObject
sorted tbl = record tbl { columns = sort_columns tbl.columns }

column_error : Bool → Option InjectError
column_error true = none
column_error false = some column_not_found

filled : DdlObject → Data × Bool → Data × Option InjectError
unfolding column_error
filled tbl (d, false) = (d, some id_not_found)
filled tbl (d, true) = let (d', found) = inject_column_ids d tbl in (d', column_error found)

injected : Data → Cache × Found → Cache × (Data × Option InjectError)
unfolding filled
injected d (cache, missing e) = (cache, (d, some e))
injected d (cache, table tbl) = (
  insert (qualified_name d.schema d.table) (sorted tbl) cache,
  filled (sorted tbl) (fill_event_metadata d (sorted tbl)),
)

-- inject: the event as it is left, and the error.
unfoldable pub inject : (Str → Str → Answer) → Cache → Data → Cache × (Data × Option InjectError)
unfolding injected
inject query cache d = injected d (get_table_object query cache d)

-- What ProcessWALEvent does with an event: it passes on the one that it has changed, or returns an error.
pub data Processed : Type 0 where
  passed : Event → Processed
  refused : DdlError → Processed

-- An event without identity columns becomes a keep alive.
after_inject : Event → Cache × (Data × Option InjectError) → Cache × Processed
after_inject e (cache, (d, some id_not_found)) = (cache, passed (record e { body = none }))
after_inject e (cache, (d, some table_not_found)) = (cache, passed (record e { body = some d }))
after_inject e (cache, (d, some query_failed)) = (cache, passed (record e { body = some d }))
after_inject e (cache, (d, some parse_failed)) = (cache, passed (record e { body = some d }))
after_inject e (cache, (d, some column_not_found)) = (cache, passed (record e { body = some d }))
after_inject e (cache, (d, none)) = (cache, passed (record e { body = some d }))

after_decode : Event → Cache → DdlResult → Cache × Processed
after_decode e cache (err x) = (cache, refused x)
after_decode e cache (ok ddl) = (update_table_cache ddl cache, passed e)

module _ (unmarshal : Str → Option DdlEvent) (query : Str → Str → Answer) where
  process_data : Event → Cache → Option Data → Cache × Processed
  unfolding after_inject after_decode
  process_data e cache none = (cache, passed e)
  process_data e cache (some d) =
      if is_ddl_event d
      then after_decode e cache (wal_data_to_ddl_event unmarshal d)
      else after_inject e (inject query cache d)

  -- ProcessWALEvent
  unfoldable pub process_wal_event : Event → Cache → Cache × Processed
  unfolding process_data
  process_wal_event e cache = process_data e cache e.body
