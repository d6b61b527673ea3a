-- ===== src/Writer/Query.antt =====
-- pkg/wal/processor/postgres/postgres_query_msg.go: a query with its arguments, and its size.
use pgstream.Prelude.{
  ℕ, ◌+◌, ◌*◌, ◌≡◌, Bool, true, List, [], ◌∷◌, Str, is_empty, length, if◌then◌else◌,
}
use pgstream.Wal.{Value, null, string, byte_slice, integer, float, boolean, other}
use pgstream.Batch.{Message}

-- An argument is a value or, of a bulk delete, a slice of values.
pub data Arg : Type 0 where
  scalar : Value → Arg
  slice : List Value → Arg

-- A nil query answers as the query with no SQL does.
pub record Query : Type 0 where
  pub schema : Str
  pub table : Str
  pub sql : Str
  pub column_names : List Str
  pub args : List Arg
  pub is_ddl : Bool
  pub needs_text_copy : Bool

abbrev pub interface_overhead : ℕ
interface_overhead = 16

abbrev string_overhead : ℕ
string_overhead = 16

abbrev slice_overhead : ℕ
slice_overhead = 24

abbrev query_struct_overhead : ℕ
query_struct_overhead = 104

-- estimateArgSize of a value.
unfoldable pub estimate_value_size : Value → ℕ
estimate_value_size null = 0
estimate_value_size (string s) = length s
estimate_value_size (byte_slice s) = length s + slice_overhead
estimate_value_size (integer n) = 0
estimate_value_size (float n) = 0
estimate_value_size (boolean b) = 0
estimate_value_size (other n) = 64

unfoldable pub estimate_arg_size : Arg → ℕ
estimate_arg_size (scalar v) = estimate_value_size v
estimate_arg_size (slice vs) = 64

total_length : List Str → ℕ
total_length [] = 0
total_length (name ∷ names) = length name + total_length names

total_arg_size : List Arg → ℕ
total_arg_size [] = 0
total_arg_size (arg ∷ args) = estimate_arg_size arg + total_arg_size args

-- (*query).IsEmpty
unfoldable pub query_is_empty : Query → Bool
query_is_empty q = is_empty q.sql

-- (*query).Size
unfoldable pub query_size : Query → ℕ
unfolding total_length total_arg_size
query_size q =
    if query_is_empty q
    then 0
    else query_struct_overhead
      + (length q.sql + length q.schema + length q.table)
      + length q.column_names * string_overhead
      + total_length q.column_names
      + length q.args * interface_overhead
      + total_arg_size q.args

pub query_size_of_empty : (q : Query) → query_is_empty q ≡ true → query_size q ≡ 0
unfolding query_size
query_size_of_empty q e = rw e

-- *query as a batch.Message.
abbrev pub query_message : Message Query
query_message = record {
  size = query_size;
  empty = query_is_empty;
  size_of_empty = query_size_of_empty;
}
