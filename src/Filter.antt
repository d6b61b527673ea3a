-- ===== src/Filter.antt =====
-- pkg/wal/processor/filter/wal_filter.go. A filter's table maps are written by its queries, so every
-- method returns the filter that it leaves behind. The JSON decoder of DDL events is a parameter.
pub mod Config
mod Tests
use pgstream.Prelude.{
  Bool, true, false, not, ◌&&◌, ◌||◌, Option, none, some, List, [], ◌∷◌, ◌++◌, Str, is_empty,
  if◌then◌else◌,
}
use pgstream.TableMap.{TableMap, add, new_schema_table_map, contains_schema_table}
use pgstream.Wal.{Data, Event}
use pgstream.Wal.Ddl.{
  DdlEvent, DdlObject, DdlResult, ok, err, is_ddl_event, wal_data_to_ddl_event, get_table_objects,
  get_table_column_objects, get_table,
}

pub record Filter : Type 0 where
  pub include : TableMap
  pub exclude : TableMap

pub data Made : Type 0 where
  made : Filter → Made
  include_exclude_list missing_filtering_config invalid_table_name : Made

with_maps : Option TableMap → Option TableMap → Made
with_maps none exclude = invalid_table_name
with_maps (some include) none = invalid_table_name
with_maps (some include) (some exclude) = made (record { include = include; exclude = exclude })

-- New, before its options.
unfoldable pub new : List Str → List Str → Made
unfolding with_maps
new include exclude =
    if not (is_empty exclude) && not (is_empty include)
    then include_exclude_list
    else if is_empty exclude && is_empty include
    then missing_filtering_config
    else with_maps (new_schema_table_map include) (new_schema_table_map exclude)

add_tables : Option TableMap → List Str → Option TableMap
add_tables none tables = none
add_tables (some t) [] = some t
add_tables (some t) (name ∷ names) = add_tables (add t name) names

with_include : Filter → Option TableMap → Option Filter
with_include f none = none
with_include f (some t) = some (record f { include = t })

-- WithDefaultIncludeTables; `none` is its panic on an invalid name.
unfoldable pub with_default_include_tables : List Str → Filter → Option Filter
unfolding add_tables with_include
with_default_include_tables tables f =
    if is_empty f.exclude then with_include f (add_tables (some f.include) tables) else some f

-- skipEvent, which reads only the schema and the table of the event.
unfoldable pub skip_event : Filter → Str → Str → Bool × Filter
skip_event f schema table =
    if not (is_empty f.include)
    then (let (found, t) = contains_schema_table f.include schema table in
        (not found, record f { include = t }))
    else if not (is_empty f.exclude)
    then (let (found, t) = contains_schema_table f.exclude schema table in
        (found, record f { exclude = t }))
    else (false, f)

-- The loop of skipDDLEvent stops at the first object that is skipped.
unfoldable pub skip_objects : Filter → List DdlObject → Bool × Filter
skip_objects f [] = (false, f)
skip_objects f (obj ∷ objs) =
    let (skip, f') = skip_event f obj.schema (get_table obj) in
    let rest = skip_objects f' objs in if skip then (true, f') else rest

skip_decoded : Filter → DdlResult → Bool × Filter
skip_decoded f (err e) = (false, f)
skip_decoded f (ok e) = skip_objects f (get_table_objects e ++ get_table_column_objects e)

skip_data : (Str → Option DdlEvent) → Filter → Option Data → Bool × Filter
unfolding skip_decoded
skip_data unmarshal f none = (false, f)
skip_data unmarshal f (some d) =
    if is_ddl_event d
    then skip_decoded f (wal_data_to_ddl_event unmarshal d)
    else skip_event f d.schema d.table

-- ProcessWALEvent: whether the event is skipped, or goes on to the wrapped processor.
unfoldable pub skips : (Str → Option DdlEvent) → Filter → Event → Bool × Filter
unfolding skip_data
skips unmarshal f e = skip_data unmarshal f e.body

-- The events that reach the wrapped processor.
unfoldable pub process_all : (Str → Option DdlEvent) → Filter → List Event → List Event
process_all unmarshal f [] = []
process_all unmarshal f (e ∷ es) =
    let (skip, f') = skips unmarshal f e in
    let rest = process_all unmarshal f' es in if skip then rest else e ∷ rest
