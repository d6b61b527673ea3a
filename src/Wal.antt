-- ===== src/Wal.antt =====
-- pkg/wal/wal_data.go: the WAL event that the processors pass along.
pub mod Ddl
pub mod Diff
mod Tests
use pgstream.Prelude.{ℕ, Bool, ◌&&◌, List, [], Str, bytes, str_eq, is_empty, contains, Option}
use pgstream.Prelude.Int.{ℤ}

-- A column's `any`. A float or a value of another dynamic type is known by a number only.
pub data Value : Type 0 where
  null : Value
  string : Str → Value
  byte_slice : Str → Value
  integer : ℤ → Value
  float : ℕ → Value
  boolean : Bool → Value
  other : ℕ → Value

pub record Column : Type 0 where
  pub id : Str
  pub name : Str
  pub type : Str
  pub value : Value

pub record Metadata : Type 0 where
  pub schema_id : Str
  pub table_pgstream_id : Str
  pub internal_col_ids : List Str

pub record Data : Type 0 where
  pub action : Str
  pub timestamp : Str
  pub lsn : Str
  pub schema : Str
  pub table : Str
  pub columns : List Column
  pub identity : List Column
  pub xid : ℤ
  pub prefix : Str
  pub content : Str
  pub metadata : Metadata

-- An event with no data is a keep alive.
pub record Event : Type 0 where
  pub body : Option Data
  pub commit_position : Str

abbrev pub zero_lsn : Str
zero_lsn = bytes "0/0"

unfoldable pub is_update : Data → Bool
is_update d = str_eq d.action (bytes "U")

unfoldable pub is_insert : Data → Bool
is_insert d = str_eq d.action (bytes "I")

unfoldable pub metadata_is_empty : Metadata → Bool
metadata_is_empty m = is_empty m.table_pgstream_id && is_empty m.internal_col_ids

unfoldable pub is_id_column : Metadata → Str → Bool
is_id_column m col_id = contains m.internal_col_ids col_id

abbrev pub no_metadata : Metadata
no_metadata = record { schema_id = []; table_pgstream_id = []; internal_col_ids = [] }
