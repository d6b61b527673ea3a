-- ===== src/Transformer/Ddl.antt =====
-- pkg/wal/processor/transformer/wal_transformer.go: the validation of DDL events against the rules.
pub mod Demands
pub mod Covered
pub mod Strict
use pgstream.Prelude.{
  Bool, true, false, not, ◌&&◌, ◌||◌, Option, none, some, List, [], ◌∷◌, Str, str_eq, is_empty,
  if◌then◌else◌,
}
use pgstream.Prelude.Maps.{lookup}
use pgstream.Wal.{Data}
use pgstream.Wal.Ddl.{
  DdlColumn, DdlObject, DdlEvent, DdlError, DdlResult, ok, err, is_ddl_event, get_table,
  get_table_object_by_name,
}
use pgstream.Wal.Diff.{ColumnDiff, TableDiff, SchemaDiff, schema_diff_is_empty}
use pgstream.Transformer.{relaxed}
use pgstream.Transformer.Map.{ColumnTransformers, get_all_column_transformers}
use pgstream.Transformer.Processor.{Transformer, get_table_validation_mode}

pub data TransformError : Type 0 where
  ddl_not_supported_in_strict_mode : TransformError
  ddl_error : DdlError → TransformError

-- The next check is made if the one before it has no error.
abbrev pub then_check : Option TransformError → Option TransformError → Option TransformError
then_check none next = next
then_check (some e) next = some e

all_found : {T : Type 0} → ColumnTransformers T → List Str → Option TransformError
all_found m [] = none
all_found m (c ∷ cs) = elim (lookup c m) [
  | none ↦ some ddl_not_supported_in_strict_mode
  | some t ↦ all_found m cs
]

columns_found : {T : Type 0} → Option (ColumnTransformers T) → List Str → Option TransformError
unfolding all_found
columns_found none cols = some ddl_not_supported_in_strict_mode
columns_found (some m) cols = all_found m cols

unfoldable pub names_of : List DdlColumn → List Str
names_of [] = []
names_of (c ∷ cs) = c.name ∷ names_of cs

has_rename : {A : Type 0} → Option A → Bool
has_rename none = false
has_rename (some r) = true

object_columns : Option DdlObject → List DdlColumn
object_columns none = []
object_columns (some obj) = obj.columns

module _ (pq_quote : Str → Str) {T : Type 0} (t : Transformer T) where
  -- validateTableDDL, of columns by their names.
  unfoldable pub validate_table_ddl : Str → Str → List Str → Option TransformError
  unfolding columns_found
  validate_table_ddl schema table cols =
      if str_eq (get_table_validation_mode pq_quote t schema table) relaxed
      then none
      else columns_found (get_all_column_transformers pq_quote t.transformer_map schema table) cols

  added_tables : Str → List DdlObject → Option TransformError
  added_tables schema [] = none
  added_tables schema (obj ∷ objs) =
      then_check (validate_table_ddl schema (get_table obj) (names_of obj.columns))
        (added_tables schema objs)

  renamed_table : Str → DdlEvent → TableDiff → Option (Str × Str) → Option TransformError
  unfolding object_columns
  renamed_table schema e d none = none
  renamed_table schema e d (some (old, new)) =
      validate_table_ddl schema new
        (names_of (object_columns (get_table_object_by_name e schema d.table_name)))

  added_columns : Str → TableDiff → Option TransformError
  added_columns schema d =
      if is_empty d.columns_added
      then none
      else validate_table_ddl schema d.table_name (names_of d.columns_added)

  renamed_column : Str → Str → Option (Str × Str) → Option TransformError
  renamed_column schema table none = none
  renamed_column schema table (some (old, new)) = validate_table_ddl schema table (new ∷ [])

  renamed_columns : Str → Str → List ColumnDiff → Option TransformError
  unfolding renamed_column
  renamed_columns schema table [] = none
  renamed_columns schema table (c ∷ cs) =
      then_check (renamed_column schema table c.name_change) (renamed_columns schema table cs)

  changed_tables : Str → DdlEvent → List TableDiff → Option TransformError
  unfolding renamed_table added_columns renamed_columns has_rename
  changed_tables schema e [] = none
  changed_tables schema e (d ∷ ds) =
      let rest = changed_tables schema e ds in
      if is_empty d.columns_added
        && (not (has_rename d.table_name_change) && is_empty d.columns_changed)
      then rest
      else then_check (renamed_table schema e d d.table_name_change) (
          then_check (added_columns schema d)
            (then_check (renamed_columns schema d.table_name d.columns_changed) rest))

  validate_diff : DdlEvent → SchemaDiff → Option TransformError
  unfolding added_tables changed_tables
  validate_diff e diff =
      if schema_diff_is_empty diff
      then none
      else then_check (added_tables diff.schema_name diff.tables_added)
          (changed_tables diff.schema_name e diff.tables_changed)

  validate_decoded : (DdlEvent → SchemaDiff) → DdlResult → Option TransformError
  unfolding validate_diff
  validate_decoded to_diff (err e) = some (ddl_error e)
  validate_decoded to_diff (ok e) = validate_diff e (to_diff e)

  -- processDDLEvent. DDLEventToSchemaDiff has no error for an event that is not nil.
  unfoldable pub process_ddl_event :
      (Data → DdlResult) → (DdlEvent → SchemaDiff) → Data → Option TransformError
  unfolding validate_decoded
  process_ddl_event to_ddl to_diff d =
      if not (is_ddl_event d) || str_eq t.validation_mode relaxed
      then none
      else validate_decoded to_diff (to_ddl d)
