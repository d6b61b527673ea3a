-- ===== src/Filter/Tests.antt =====
-- A filter with an include list on a data event of each kind and a keep alive.
use pgstream.Prelude.{◌≡◌, refl, not, Option, none, some, List, [], ◌∷◌, Str, bytes, keep}
use pgstream.Prelude.Int.{pos}
use pgstream.Wal.{Data, Event, no_metadata}
use pgstream.Wal.Ddl.{DdlEvent}
use pgstream.Filter.{Filter, made, new, process_all}
use pgstream.Filter.Config.{drops_data, process_all_by_config}

abbrev row_of : Str → Str → Option Data
row_of schema table = some (record {
  action = bytes "I";
  timestamp = [];
  lsn = bytes "0/10";
  schema = schema;
  table = table;
  columns = [];
  identity = [];
  xid = pos 0;
  prefix = [];
  content = [];
  metadata = no_metadata;
})

abbrev events : List Event
events =
    record { body = row_of (bytes "public") (bytes "users"); commit_position = bytes "0/1" }
    ∷ record { body = row_of (bytes "public") (bytes "orders"); commit_position = bytes "0/2" }
    ∷ record { body = none; commit_position = bytes "0/3" }
    ∷ []

abbrev users_only : Filter
users_only = record { include = (bytes "public", bytes "users" ∷ []) ∷ []; exclude = [] }

users_only_made : new (bytes "users" ∷ []) [] ≡ made users_only
unfolding new pgstream.TableMap.new_schema_table_map pgstream.TableMap.add
    pgstream.TableMap.parse_table_name pgstream.Prelude.Strings.split pgstream.Prelude.Maps.insert
    pgstream.Prelude.Maps.set_insert pgstream.Prelude.contains pgstream.TableMap.tables_of
    pgstream.Prelude.Maps.lookup
users_only_made = refl

abbrev no_ddl : Str → Option DdlEvent
no_ddl content = none

process_all_by_config_example :
    process_all no_ddl users_only events
    ≡ keep (λ e. not (drops_data no_ddl (bytes "users" ∷ []) [] e.body)) events
process_all_by_config_example =
    process_all_by_config no_ddl (bytes "users" ∷ []) [] users_only events users_only_made
