-- ===== src/TableMap/Tests.antt =====
-- A table map with a schema, a whole schema, and a table of every schema.
use pgstream.Prelude.{◌≡◌, refl, Option, none, some, List, [], ◌∷◌, Str, bytes}
use pgstream.TableMap.{TableMap, add, new_schema_table_map, contains_schema_table}
use pgstream.TableMap.Laws.{any_names, new_schema_table_map-names}

abbrev configured : List Str
configured = bytes "users" ∷ bytes "sales.*" ∷ bytes "*.logs" ∷ []

abbrev configured_map : TableMap
configured_map =
    (bytes "public", bytes "users" ∷ [])
    ∷ (bytes "sales", bytes "*" ∷ [])
    ∷ (bytes "*", bytes "logs" ∷ [])
    ∷ []

configured_map_made : new_schema_table_map configured ≡ some configured_map
unfolding new_schema_table_map add pgstream.TableMap.parse_table_name pgstream.Prelude.Strings.split
    pgstream.Prelude.Maps.insert pgstream.Prelude.str_eq pgstream.Prelude.Maps.set_insert
    pgstream.Prelude.contains pgstream.TableMap.tables_of pgstream.Prelude.Maps.lookup
configured_map_made = refl

new_schema_table_map-names_example :
    (contains_schema_table configured_map (bytes "public") (bytes "logs")).0
    ≡ any_names configured (bytes "public") (bytes "logs")
new_schema_table_map-names_example =
    new_schema_table_map-names configured configured_map (bytes "public") (bytes "logs")
      configured_map_made
