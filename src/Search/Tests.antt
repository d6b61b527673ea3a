-- ===== src/Search/Tests.antt =====
-- A store that keeps a log of its calls, with a batch of documents and a truncation.
use Prim.Native.String.{String}
use pgstream.Prelude.{
  ℕ, ◌+◌, ◌≡◌, ◌<◌, refl, Bool, true, false, Option, none, some, List, [], ◌∷◌, ◌++◌, Str, bytes,
  map, arith,
}
use pgstream.Prelude.Int.{pos}
use pgstream.Wal.{string, integer, Column, Data}
use pgstream.Search.{Document, Msg, write, truncate, Tools, mapped, done, wal_data_to_document}
use pgstream.Search.Documents.{wal_data_to_document-Later}
use pgstream.Search.Indexer.{Store, BatchEnd, checkpointed, send_batch}
use pgstream.Search.Indexer.Plan.{Op, sends, applies, clears, effects, effect}
use pgstream.Search.Indexer.Calls.{Calls, send_batch-Calls}

abbrev logging : Store
logging = record {
  State = List Op;
  send_documents = λ s docs. (s ++ sends docs ∷ [], none);
  apply_schema_diff = λ s diff. (s ++ applies diff ∷ [], none);
  delete_schema = λ s schema. (s, none);
  delete_table_documents = λ s schema table. (s ++ clears schema table ∷ [], none);
}

abbrev document : String → Document
document id = record {
  id = bytes id;
  schema = bytes "public";
  doc_data = [];
  version = 1;
  delete = false;
}

abbrev messages : List Msg
messages =
    write (document "a") 1
    ∷ write (document "b") 1
    ∷ truncate (bytes "public") (bytes "t1")
    ∷ write (document "c") 1
    ∷ []

abbrev accept_all : Option (List Str → Option Str)
accept_all = some (λ positions. none)

abbrev keep_schema : Str → Bool
keep_schema schema = false

batch_checkpointed :
    (send_batch logging keep_schema accept_all messages (bytes "0/9" ∷ []) []).1
    ≡ checkpointed (bytes "0/9" ∷ [])
unfolding send_batch pgstream.Search.Indexer.send_messages pgstream.Search.Indexer.next
    pgstream.Search.Indexer.flush_writes
batch_checkpointed = refl

send_batch-Calls_example :
    ((bytes "0/9" ∷ []) ≡ (bytes "0/9" ∷ []))
    × (ops : List Op) × Calls logging keep_schema ops []
        (send_batch logging keep_schema accept_all messages (bytes "0/9" ∷ []) []).0
    × (effects ops ≡ map effect messages)
send_batch-Calls_example =
    send_batch-Calls logging keep_schema accept_all messages (bytes "0/9" ∷ []) (bytes "0/9" ∷ [])
      [] batch_checkpointed

abbrev tools : Tools
tools = record {
  map_column_value = λ col. mapped col.value;
  parse_lsn = λ text. elim text [ [] ↦ none | c ∷ rest ↦ some c ];
  id_hasher = none;
  format_float = λ n. [];
  uuid_of = λ n. none;
  marshal_size = λ d. some 0;
}

abbrev row : String → ℕ → Data
row action lsn = record {
  action = bytes action;
  timestamp = [];
  lsn = lsn ∷ [];
  schema = bytes "public";
  table = bytes "users";
  columns =
      record { id = bytes "t1-1"; name = bytes "id"; type = bytes "int4"; value = integer (pos 7) }
      ∷ [];
  identity = [];
  xid = pos 0;
  prefix = [];
  content = [];
  metadata = record {
    schema_id = [];
    table_pgstream_id = bytes "t1";
    internal_col_ids = bytes "t1-1" ∷ [];
  };
}

abbrev user_document : ℕ → Document
user_document version = record {
  id = bytes "t1_7";
  schema = bytes "public";
  doc_data = (bytes "_table", string (bytes "t1")) ∷ [];
  version = version;
  delete = false;
}

inserted_document : wal_data_to_document tools (row "I" 5) ≡ done (user_document 5)
unfolding wal_data_to_document pgstream.Prelude.str_eq pgstream.Search.parse_columns
    pgstream.Search.map_columns pgstream.Wal.is_id_column pgstream.Prelude.contains
    pgstream.Search.parse_id_columns pgstream.Search.add_previous pgstream.Prelude.Decimal.print_int
    pgstream.Prelude.Maps.insert pgstream.Wal.is_update pgstream.Prelude.Decimal.print_ℕ
inserted_document = refl

updated_document : wal_data_to_document tools (row "U" 8) ≡ done (user_document 9)
unfolding wal_data_to_document pgstream.Prelude.str_eq pgstream.Search.parse_columns
    pgstream.Search.map_columns pgstream.Wal.is_id_column pgstream.Prelude.contains
    pgstream.Search.parse_id_columns pgstream.Search.add_previous pgstream.Prelude.Decimal.print_int
    pgstream.Prelude.Maps.insert pgstream.Wal.is_update pgstream.Prelude.Decimal.print_ℕ
updated_document = refl

wal_data_to_document-Later_example : (user_document 5).version < (user_document 9).version
wal_data_to_document-Later_example =
    wal_data_to_document-Later tools (row "I" 5) (row "U" 8) (user_document 5) (user_document 9) 5 8
      inserted_document updated_document refl refl (omega arith)
