-- ===== src/Writer/Message.antt =====
-- pkg/wal/processor/postgres/postgres_wal_message.go: an event with the schema information that its
-- queries need, and its size.
use pgstream.Prelude.{
  ℕ, ◌+◌, ◌≡◌, refl, Bool, true, false, Option, none, some, List, [], ◌∷◌, Str, length,
}
use pgstream.Wal.{Data, Column}
use pgstream.Batch.{Message}
use pgstream.Writer.Query.{interface_overhead, estimate_value_size}

-- schemaInfo of postgres_wal_adapter.go: sets of quoted column names, and the sequences of columns.
pub record SchemaInfo : Type 0 where
  pub generated_columns : List Str
  pub always_identity_columns : List Str
  pub sequence_columns : List (Str × Str)

-- A nil message answers as a message with no data does.
pub record WalMessage : Type 0 where
  pub data_of : Option Data
  pub schema_info : SchemaInfo
  pub is_ddl : Bool

abbrev wal_message_overhead : ℕ
wal_message_overhead = 64

columns_size : List Column → ℕ
columns_size [] = 0
columns_size (col ∷ cols) =
    length col.name
    + length col.type
    + length col.id
    + (interface_overhead + estimate_value_size col.value)
    + columns_size cols

data_size : Option Data → ℕ
unfolding columns_size
data_size none = 0
data_size (some d) =
    wal_message_overhead
    + (length d.schema + length d.table + length d.action)
    + (length d.lsn + length d.timestamp)
    + columns_size d.columns
    + columns_size d.identity

no_data : Option Data → Bool
no_data none = true
no_data (some d) = false

-- (*walMessage).IsEmpty
unfoldable pub message_is_empty : WalMessage → Bool
unfolding no_data
message_is_empty m = no_data m.data_of

-- (*walMessage).Size
unfoldable pub message_size : WalMessage → ℕ
unfolding data_size
message_size m = data_size m.data_of

pub message_size_of_empty : (m : WalMessage) → message_is_empty m ≡ true → message_size m ≡ 0
unfolding message_is_empty message_size
message_size_of_empty m e = zero_size m.data_of e
  where
    zero_size : (d : Option Data) → no_data d ≡ true → data_size d ≡ 0
    zero_size none e = refl
    zero_size (some d) e = absurd (cc)

-- *walMessage as a batch.Message.
abbrev pub wal_message : Message WalMessage
wal_message = record {
  size = message_size;
  empty = message_is_empty;
  size_of_empty = message_size_of_empty;
}

pub message_is_empty-none : (m : WalMessage) → m.data_of ≡ none → message_is_empty m ≡ true
unfolding message_is_empty
message_is_empty-none m e = rw (e, no_data)

pub message_is_empty-some :
    (m : WalMessage) (d : Data) → m.data_of ≡ some d → message_is_empty m ≡ false
unfolding message_is_empty
message_is_empty-some m d e = rw (e, no_data)
