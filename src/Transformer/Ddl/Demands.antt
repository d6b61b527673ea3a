-- ===== src/Transformer/Ddl/Demands.antt =====
-- pkg/wal/processor/transformer/wal_transformer.go: what a DDL event demands of the rules.
use pgstream.Prelude.{Option, none, some, List, [], ◌∷◌, ◌++◌, Str, is_empty, if◌then◌else◌}
use pgstream.Wal.Ddl.{DdlObject, DdlEvent, get_table, get_table_object_by_name}
use pgstream.Wal.Diff.{ColumnDiff, TableDiff, SchemaDiff}
use pgstream.Transformer.Ddl.{names_of, object_columns}

-- A table of the event's schema, with the columns that must have rules.
pub record Demand : Type 0 where
  pub table : Str
  pub columns : List Str

unfoldable pub table_demands : List DdlObject → List Demand
table_demands [] = []
table_demands (obj ∷ objs) =
    (record { table = get_table obj; columns = names_of obj.columns }) ∷ table_demands objs

unfoldable pub rename_demand : Str → DdlEvent → TableDiff → Option (Str × Str) → List Demand
unfolding object_columns
rename_demand schema e d none = []
rename_demand schema e d (some (old, new)) =
    (record {
      table = new;
      columns = names_of (object_columns (get_table_object_by_name e schema d.table_name));
    })
    ∷ []

unfoldable pub column_demand : Str → Option (Str × Str) → List Demand
column_demand table none = []
column_demand table (some (old, new)) = (record { table = table; columns = new ∷ [] }) ∷ []

unfoldable pub column_demands : Str → List ColumnDiff → List Demand
unfolding column_demand
column_demands table [] = []
column_demands table (c ∷ cs) = column_demand table c.name_change ++ column_demands table cs

unfoldable pub added_demand : TableDiff → List Demand
added_demand d =
    if is_empty d.columns_added
    then []
    else (record { table = d.table_name; columns = names_of d.columns_added }) ∷ []

unfoldable pub change_demands : Str → DdlEvent → List TableDiff → List Demand
unfolding rename_demand added_demand column_demands
change_demands schema e [] = []
change_demands schema e (d ∷ ds) =
    rename_demand schema e d d.table_name_change
    ++ (added_demand d
        ++ (column_demands d.table_name d.columns_changed ++ change_demands schema e ds))

-- What a change of a schema demands: its new tables with their columns, the new names of tables with the columns of
-- the renamed one, if the event has it, and the new columns and the new names of columns of its old tables.
unfoldable pub demands : DdlEvent → SchemaDiff → List Demand
unfolding table_demands change_demands object_columns
demands e diff =
    table_demands diff.tables_added ++ change_demands diff.schema_name e diff.tables_changed
