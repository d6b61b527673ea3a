-- ===== src/Wal/Ddl.antt =====
-- pkg/wal/wal_ddl.go: DDL events, their objects and columns. The JSON decoder of an event's content
-- is a parameter of `wal_data_to_ddl_event`.
pub mod Identity
use pgstream.Prelude.{
  ℕ, ◌-◌, Bool, true, false, ◌&&◌, ◌||◌, List, [], ◌∷◌, ◌++◌, Str, bytes, str_eq, ltb, Option, none,
  some, keep, length, take, drop, if◌then◌else◌,
}
use pgstream.Prelude.Int.{ℤ}
use pgstream.Prelude.Strings.{split, after_last, has_prefix, has_suffix}
use pgstream.Wal.{Data}

pub record DdlColumn : Type 0 where
  pub attnum : ℕ
  pub name : Str
  pub type : Str
  pub nullable : Bool
  pub default : Option Str
  pub generated : Bool
  pub identity : Option Str
  pub unique : Bool

pub record DdlObject : Type 0 where
  pub type : Str
  pub identity : Str
  pub schema : Str
  pub oid : Str
  pub pgstream_id : Str
  pub columns : List DdlColumn
  pub primary_key_columns : List Str

pub record DdlEvent : Type 0 where
  pub ddl : Str
  pub schema_name : Str
  pub command_tag : Str
  pub objects : List DdlObject

pub data DdlError : Type 0 where
  not_ddl_event invalid_ddl_event_content : DdlError

pub data DdlResult : Type 0 where
  ok : DdlEvent → DdlResult
  err : DdlError → DdlResult

-- (*Data).IsDDLEvent
unfoldable pub is_ddl_event : Data → Bool
is_ddl_event d = str_eq d.action (bytes "M") && str_eq d.prefix (bytes "pgstream.ddl")

decoded : Option DdlEvent → DdlResult
decoded none = err invalid_ddl_event_content
decoded (some e) = ok e

-- WalDataToDDLEvent, with the JSON decoder.
unfoldable pub wal_data_to_ddl_event : (Str → Option DdlEvent) → Data → DdlResult
unfolding decoded is_ddl_event
wal_data_to_ddl_event unmarshal d =
    if is_ddl_event d then decoded (unmarshal d.content) else err not_ddl_event

unfoldable pub get_objects_by_type : DdlEvent → Str → List DdlObject
get_objects_by_type e object_type = keep (λ obj. str_eq obj.type object_type) e.objects

unfoldable pub get_table_objects : DdlEvent → List DdlObject
unfolding get_objects_by_type
get_table_objects e = get_objects_by_type e (bytes "table")

unfoldable pub get_table_column_objects : DdlEvent → List DdlObject
unfolding get_objects_by_type
get_table_column_objects e = get_objects_by_type e (bytes "table column")

unfoldable pub get_materialized_view_objects : DdlEvent → List DdlObject
unfolding get_objects_by_type
get_materialized_view_objects e = get_objects_by_type e (bytes "materialized_view")

unfoldable pub is_drop_event : DdlEvent → Bool
is_drop_event e = has_prefix e.command_tag (bytes "DROP")

-- (*DDLObject).GetName
unfoldable pub get_name : DdlObject → Str
get_name e = after_last b'.' e.identity e.identity

middle_or : Str → List Str → Str
middle_or fallback (schema ∷ table ∷ []) = table
middle_or fallback (schema ∷ table ∷ column ∷ []) = table
middle_or fallback _ = fallback

-- (*DDLObject).GetTable
unfoldable pub get_table : DdlObject → Str
unfolding middle_or get_name
get_table e = middle_or (get_name e) (split b'.' e.identity)

first_part : List Str → Str
first_part [] = []
first_part (p ∷ ps) = p

-- (*DDLObject).GetSchema: SplitN of two has the first part of Split.
unfoldable pub get_schema : DdlObject → Str
unfolding first_part
get_schema e = first_part (split b'.' e.identity)

find_table : Str → Str → List DdlObject → Option DdlObject
find_table schema table [] = none
find_table schema table (obj ∷ objs) =
    if str_eq obj.schema schema && str_eq (get_table obj) table
    then some obj
    else find_table schema table objs

unfoldable pub get_table_object_by_name : DdlEvent → Str → Str → Option DdlObject
unfolding find_table
get_table_object_by_name e schema table = find_table schema table (get_table_objects e)

unfoldable pub find_column : Str → List DdlColumn → Option DdlColumn
find_column name [] = none
find_column name (col ∷ cols) = if str_eq col.name name then some col else find_column name cols

unfoldable pub get_column_by_name : DdlObject → Str → Option DdlColumn
unfolding find_column
get_column_by_name e name = find_column name e.columns

-- def[9 : len(def)-12] between the prefix and the suffix. `none` is the panic of a slice whose bounds
-- cross.
cut_sequence : Str → Option Str
cut_sequence def =
    if has_prefix def (bytes "nextval('") && has_suffix def (bytes "'::regclass)")
    then (if ltb (length def) 21 then none else some (take (length def - 21) (drop 9 def)))
    else some []

sequence_of : Option Str → Option Str
unfolding cut_sequence
sequence_of none = some []
sequence_of (some def) = cut_sequence def

-- GetSequenceName; HasSequence tests that it is not empty.
unfoldable pub get_sequence_name : DdlColumn → Option Str
unfolding sequence_of
get_sequence_name c = sequence_of c.default

has_value : Option Str → Bool
has_value none = false
has_value (some s) = true

unfoldable pub is_generated : DdlColumn → Bool
unfolding has_value
is_generated c = c.generated || has_value c.identity

always : Option Str → Bool
always none = false
always (some s) = str_eq s (bytes "ALWAYS")

unfoldable pub is_always_identity : DdlColumn → Bool
unfolding always
is_always_identity c = always c.identity
