-- ===== src/Wal/Diff.antt =====
-- pkg/wal/wal_schema_diff.go: what a DDL event changes in a schema. The names that the regular expressions find
-- in its text, strings.ToLower and strings.Contains are arguments.
use pgstream.Prelude.{
  ℕ, Bool, true, false, not, ◌&&◌, ◌||◌, Option, none, some, List, [], ◌∷◌, ◌++◌, Str, bytes,
  str_eq, is_empty, contains, if◌then◌else◌,
}
use pgstream.Wal.Ddl.{
  DdlColumn, DdlObject, DdlEvent, get_table, get_table_objects, get_table_column_objects,
  get_column_by_name,
}

-- A ColumnDiff with the changes that are ever set: the old and new name, and the new type.
pub record ColumnDiff : Type 0 where
  pub column_name : Str
  pub column_attnum : Option ℕ
  pub name_change : Option (Str × Str)
  pub type_change : Option Str

pub record TableDiff : Type 0 where
  pub table_name : Str
  pub table_pgstream_id : Str
  pub table_name_change : Option (Str × Str)
  pub table_primary_key_change : Option (List Str)
  pub columns_added : List DdlColumn
  pub columns_removed : List Str
  pub columns_changed : List ColumnDiff

pub record SchemaDiff : Type 0 where
  pub schema_name : Str
  pub schema_dropped : Bool
  pub tables_added : List DdlObject
  pub tables_removed : List DdlObject
  pub tables_changed : List TableDiff

is_none : {A : Type 0} → Option A → Bool
is_none none = true
is_none (some x) = false

-- (*SchemaDiff).IsEmpty
unfoldable pub schema_diff_is_empty : SchemaDiff → Bool
schema_diff_is_empty d =
    not d.schema_dropped
    && (is_empty d.tables_added && (is_empty d.tables_changed && is_empty d.tables_removed))

-- (*TableDiff).IsEmpty
unfoldable pub table_diff_is_empty : TableDiff → Bool
unfolding is_none
table_diff_is_empty d =
    is_empty d.columns_added
    && (is_empty d.columns_removed
        && (is_empty d.columns_changed
            && (is_none d.table_name_change && is_none d.table_primary_key_change)))

-- `mentions ddl part`: the lower case text contains the part. The extractors return the empty text where their
-- expression does not match.
pub record DdlText : Type 0 where
  pub mentions : Str → Str → Bool
  pub extract_old_table_name : Str → Str
  pub extract_added_column_name : Str → Str
  pub extract_altered_column_name : Str → Str
  pub extract_dropped_column_name : Str → Str
  pub extract_renamed_column_names : Str → Str × Str

no_change : DdlObject → TableDiff
no_change obj = record {
  table_name = get_table obj;
  table_pgstream_id = obj.pgstream_id;
  table_name_change = none;
  table_primary_key_change = none;
  columns_added = [];
  columns_removed = [];
  columns_changed = [];
}

added : TableDiff → Option DdlColumn → TableDiff
added d none = d
added d (some col) = record d { columns_added = col ∷ [] }

altered : TableDiff → Option DdlColumn → TableDiff
altered d none = d
altered d (some col) = record d {
  columns_changed =
      record {
        column_name = col.name;
        column_attnum = none;
        name_change = none;
        type_change = some col.type;
      }
      ∷ [];
}

renamed : TableDiff → Str → Str → Option DdlColumn → TableDiff
renamed d old new none = d
renamed d old new (some col) = record d {
  columns_changed =
      record {
        column_name = col.name;
        column_attnum = some col.attnum;
        name_change = some (old, new);
        type_change = none;
      }
      ∷ [];
}

module _ (text : DdlText) where
  open text use {
    mentions, extract_old_table_name, extract_added_column_name, extract_altered_column_name,
    extract_dropped_column_name, extract_renamed_column_names,
  }

  -- The switch on the text of an ALTER TABLE, for one of its objects.
  unfoldable pub table_diff_of : Str → DdlObject → TableDiff
  unfolding no_change added altered renamed
  table_diff_of ddl obj =
      let d = no_change obj in
      if mentions ddl (bytes "add constraint") && mentions ddl (bytes "primary key")
      then (if is_empty obj.primary_key_columns
          then d
          else record d { table_primary_key_change = some obj.primary_key_columns })
      else if mentions ddl (bytes "rename to")
      then (if is_empty (extract_old_table_name ddl)
          then d
          else record d { table_name_change = some (extract_old_table_name ddl, get_table obj) })
      else if mentions ddl (bytes "add column")
      then (if is_empty (extract_added_column_name ddl)
          then d
          else added d (get_column_by_name obj (extract_added_column_name ddl)))
      else if mentions ddl (bytes "alter column")
      then (if is_empty (extract_altered_column_name ddl)
          then d
          else altered d (get_column_by_name obj (extract_altered_column_name ddl)))
      else if mentions ddl (bytes "drop column")
      then (if is_empty (extract_dropped_column_name ddl)
          then d
          else record d { columns_removed = extract_dropped_column_name ddl ∷ [] })
      else if mentions ddl (bytes "rename column")
      then (let (old, new) = extract_renamed_column_names ddl in
          if is_empty old || is_empty new
          then d
          else renamed d old new (get_column_by_name obj new))
      else d

  table_diffs : Str → List DdlObject → List TableDiff
  table_diffs ddl [] = []
  table_diffs ddl (obj ∷ objs) =
      let rest = table_diffs ddl objs in
      let d = table_diff_of ddl obj in if table_diff_is_empty d then rest else d ∷ rest

  -- ddlEventToTableDiff
  unfoldable pub ddl_event_to_table_diff : DdlEvent → List TableDiff
  unfolding table_diffs
  ddl_event_to_table_diff e = table_diffs e.ddl (get_table_objects e ++ get_table_column_objects e)

  -- DDLEventToSchemaDiff of an event that is not nil.
  unfoldable pub ddl_event_to_schema_diff : DdlEvent → SchemaDiff
  ddl_event_to_schema_diff e =
      let diff : SchemaDiff = record {
        schema_name = e.schema_name;
        schema_dropped = false;
        tables_added = [];
        tables_removed = [];
        tables_changed = [];
      } in
      if str_eq e.command_tag (bytes "DROP SCHEMA")
      then record diff { schema_dropped = true }
      else if str_eq e.command_tag (bytes "DROP TABLE")
      then record diff { tables_removed = get_table_objects e }
      else if contains (bytes "CREATE TABLE" ∷ bytes "CREATE TABLE AS" ∷ bytes "SELECT INTO" ∷ [])
          e.command_tag
      then record diff { tables_added = get_table_objects e }
      else if str_eq e.command_tag (bytes "ALTER TABLE")
      then record diff { tables_changed = ddl_event_to_table_diff e }
      else diff
