-- ===== src/TableMap.antt =====
-- internal/postgres/schema_table_map.go. A query writes to the map that it reads, so it returns the
-- map that it leaves behind.
pub mod Laws
mod Tests
use pgstream.Prelude.{
  Bool, true, false, ◌||◌, Option, none, some, List, [], ◌∷◌, Str, bytes, contains, is_empty,
  if◌then◌else◌,
}
use pgstream.Prelude.Strings.{split}
use pgstream.Prelude.Maps.{lookup, insert, set_insert, set_union}

abbrev pub TableMap : Type 0
TableMap = List (Str × List Str)

abbrev pub public_schema : Str
public_schema = bytes "public"

abbrev pub wildcard : Str
wildcard = bytes "*"

of_parts : List Str → Option (Str × Str)
of_parts (table ∷ []) = some (public_schema, table)
of_parts (schema ∷ table ∷ []) = some (schema, table)
of_parts _ = none

-- parseTableName; `none` is ErrInvalidTableName.
unfoldable pub parse_table_name : Str → Option (Str × Str)
unfolding of_parts
parse_table_name name = of_parts (split b'.' name)

or_empty : Option (List Str) → List Str
or_empty none = []
or_empty (some tables) = tables

-- t[schema], where a missing schema reads as an empty set.
unfoldable pub tables_of : TableMap → Str → List Str
unfolding or_empty
tables_of t schema = or_empty (lookup schema t)

add_parsed : TableMap → Option (Str × Str) → Option TableMap
add_parsed t none = none
add_parsed t (some (schema, table)) = some (insert schema (set_insert table (tables_of t schema)) t)

-- (SchemaTableMap).Add
unfoldable pub add : TableMap → Str → Option TableMap
unfolding add_parsed
add t name = add_parsed t (parse_table_name name)

then_add : Option TableMap → (TableMap → Option TableMap) → Option TableMap
then_add none f = none
then_add (some t) f = f t

add_all : TableMap → List Str → Option TableMap
unfolding then_add
add_all t [] = some t
add_all t (name ∷ names) = then_add (add t name) (λ u. add_all u names)

-- NewSchemaTableMap
unfoldable pub new_schema_table_map : List Str → Option TableMap
unfolding add_all
new_schema_table_map names = add_all [] names

merged : TableMap → Str → Option (List Str) → List Str × TableMap
merged t schema none = (tables_of t wildcard, t)
merged t schema (some tables) =
    let all = set_union (tables_of t wildcard) tables in (all, insert schema all t)

-- GetSchemaTables merges the wildcard schema's tables into the schema's own, in place.
unfoldable pub get_schema_tables : TableMap → Str → List Str × TableMap
unfolding merged
get_schema_tables t schema = merged t schema (lookup schema t)

-- ContainsSchemaTable
unfoldable pub contains_schema_table : TableMap → Str → Str → Bool × TableMap
contains_schema_table t schema table =
    if is_empty t
    then (false, t)
    else (let (tables, t') = get_schema_tables t schema in
        if is_empty tables
        then (false, t')
        else (contains tables table || contains tables wildcard, t'))
