-- ===== src/Search.antt =====
-- pkg/wal/processor/search/search_adapter.go: from events to documents. The mapper of the store, the parser of LSNs,
-- the hasher, the formatting of floats and UUIDs and the JSON encoder are arguments. An LSN is below 2^63.
pub mod Indexer
pub mod Documents
mod Tests
use pgstream.Prelude.{
  ℕ, suc, ◌+◌, Bool, true, false, not, Option, none, some, List, [], ◌∷◌, ◌++◌, Str, bytes, str_eq,
  is_empty, contains, length, ltb, keep, if◌then◌else◌,
}
use pgstream.Prelude.Decimal.{print_int}
use pgstream.Prelude.Maps.{lookup, insert}
use pgstream.Wal.{
  Value, null, string, byte_slice, integer, float, boolean, other, Column, Metadata, Data, Event,
  is_update, is_id_column, metadata_is_empty,
}
use pgstream.Wal.Ddl.{DdlEvent, DdlError, DdlResult, ok, err, is_ddl_event, wal_data_to_ddl_event}
use pgstream.Wal.Diff.{SchemaDiff, DdlText, ddl_event_to_schema_diff}

pub record Document : Type 0 where
  pub id : Str
  pub schema : Str
  pub doc_data : List (Str × Value)
  pub version : ℕ
  pub delete : Bool

-- Of the fields of a msg one is set at most; with none it is a keep alive.
pub data Msg : Type 0 where
  keep_alive : Msg
  write : Document → ℕ → Msg
  truncate : Str → Str → Msg
  schema_diff : SchemaDiff → Msg

pub data SearchError : Type 0 where
  metadata_missing id_not_found nil_id_value unsupported_type incompatible_lsn : SearchError
  mapping_failed size_failed : SearchError
  bad_ddl : DdlError → SearchError

pub data Result (A : Type 0) : Type 0 where
  done : A → Result A
  failed : SearchError → Result A

-- MapColumnValue: a value, ErrTypeInvalid, or another error.
pub data Mapped : Type 0 where
  mapped : Value → Mapped
  type_invalid : Mapped
  map_error : Mapped

-- What the adapter is given.
pub record Tools : Type 0 where
  pub map_column_value : Column → Mapped
  pub parse_lsn : Str → Option ℕ
  pub id_hasher : Option (Str → Str)
  pub format_float : ℕ → Str
  pub uuid_of : ℕ → Option Str
  pub marshal_size : List (Str × Value) → Option ℕ

and_then : {A B : Type 0} → Result A → (A → Result B) → Result B
and_then (done x) f = f x
and_then (failed e) f = failed e

-- The text of an identity value.
id_text : Tools → Value → Result Str
id_text t (string s) = done s
id_text t (integer n) = done (print_int n)
id_text t (float n) = done (t.format_float n)
id_text t (other n) = elim (t.uuid_of n) [ none ↦ failed unsupported_type | some s ↦ done s ]
id_text t null = failed nil_id_value
id_text t (byte_slice s) = failed unsupported_type
id_text t (boolean b) = failed unsupported_type

add_to_id : Str → Str → Str
add_to_id id s = if is_empty id then s else id ++ bytes "-" ++ s

hashed : Option (Str → Str) → Str → Str
hashed none id = id
hashed (some h) id = h id

module _ (t : Tools) where
  open t use {map_column_value, parse_lsn, id_hasher, marshal_size}

  set_mapped : Str → List (Str × Value) → Mapped → Result (List (Str × Value))
  set_mapped id d (mapped v) = done (insert id v d)
  set_mapped id d type_invalid = done d
  set_mapped id d map_error = failed mapping_failed

  -- The columns of a document that are not of its identity; a type that is not supported is left out.
  unfoldable pub map_columns :
      Metadata → List Column → List (Str × Value) → Result (List (Str × Value))
  unfolding set_mapped and_then
  map_columns m [] d = done d
  map_columns m (col ∷ cols) d =
      if is_id_column m col.id
      then map_columns m cols d
      else and_then (set_mapped col.id d (map_column_value col)) (map_columns m cols)

  -- A column of a composite identity is part of the document too, with a supported type.
  set_id_column : Bool → Column → List (Str × Value) → Result (List (Str × Value))
  set_id_column false col d = done d
  set_id_column true col d = elim (map_column_value col) [
    | mapped v ↦ done (insert col.id v d)
    | type_invalid ↦ failed mapping_failed
    | map_error ↦ failed mapping_failed
  ]

  id_loop : Bool → List Column → Str → List (Str × Value) → Result (Str × List (Str × Value))
  unfolding id_text add_to_id set_id_column and_then
  id_loop composite [] id d = done (id, d)
  id_loop composite (col ∷ cols) id d =
      and_then (id_text t col.value)
        (λ s. and_then (set_id_column composite col d) (id_loop composite cols (add_to_id id s)))

  -- parseIDColumns: the id of the document, and its data.
  unfoldable pub parse_id_columns :
      Str → List Column → List (Str × Value) → Result (Str × List (Str × Value))
  unfolding id_loop hashed and_then
  parse_id_columns table cols d =
      if is_empty cols
      then failed id_not_found
      else and_then (id_loop (ltb 1 (length cols)) cols [] d)
          (λ r. done (table ++ bytes "_" ++ hashed id_hasher r.0, r.1))

  lsn_of : Option ℕ → Result ℕ
  lsn_of none = failed incompatible_lsn
  lsn_of (some n) = done n

  -- parseColumns
  unfoldable pub parse_columns : List Column → Metadata → Str → Result Document
  unfolding lsn_of and_then
  parse_columns cols m lsn = and_then (map_columns m cols []) (λ d.
      and_then (parse_id_columns m.table_pgstream_id (keep (λ col. is_id_column m col.id) cols) d)
        (λ r. and_then (lsn_of (parse_lsn lsn)) (λ version. done (record {
          id = r.0;
          schema = [];
          doc_data = insert (bytes "_table") (string m.table_pgstream_id) r.1;
          version = version;
          delete = false;
        }))))

  is_set : Option Value → Bool
  is_set none = false
  is_set (some v) = true

  -- The loop over the previous values: those that the event does not have are added.
  unfoldable pub add_previous :
      Metadata → List Column → List (Str × Value) → Result (List (Str × Value))
  unfolding is_set set_mapped and_then
  add_previous m [] d = done d
  add_previous m (col ∷ cols) d =
      if is_id_column m col.id
      then add_previous m cols d
      else if is_set (lookup col.id d)
      then add_previous m cols d
      else and_then (set_mapped col.id d (map_column_value col)) (add_previous m cols)

  -- walDataToDocument
  unfoldable pub wal_data_to_document : Data → Result Document
  unfolding and_then
  wal_data_to_document d =
      if str_eq d.action (bytes "D")
      then and_then (parse_columns d.identity d.metadata d.lsn)
          (λ doc. done (record doc { schema = d.schema; version = doc.version + 1; delete = true }))
      else and_then (parse_columns d.columns d.metadata d.lsn) (λ doc.
        and_then (add_previous d.metadata d.identity doc.doc_data) (λ values. done (record doc {
          schema = d.schema;
          doc_data = values;
          version = if is_update d then doc.version + 1 else doc.version;
        })))

  sized : Document → Option ℕ → Result (Option Msg)
  sized doc none = failed size_failed
  sized doc (some n) = done (some (write doc n))

  diff_message : DdlText → DdlResult → Result (Option Msg)
  diff_message text (err e) = failed (bad_ddl e)
  diff_message text (ok e) = done (some (schema_diff (ddl_event_to_schema_diff text e)))

  module _ (text : DdlText) (unmarshal : Str → Option DdlEvent) where
    data_to_msg : Option Data → Result (Option Msg)
    unfolding sized diff_message and_then
    data_to_msg none = done (some keep_alive)
    data_to_msg (some d) =
        if is_ddl_event d
        then diff_message text (wal_data_to_ddl_event unmarshal d)
        else if metadata_is_empty d.metadata
        then failed metadata_missing
        else if contains (bytes "I" ∷ bytes "U" ∷ bytes "D" ∷ []) d.action
        then and_then (wal_data_to_document d) (λ doc. sized doc (marshal_size doc.doc_data))
        else if str_eq d.action (bytes "T")
        then done (some (truncate d.schema d.metadata.table_pgstream_id))
        else done none

    -- walEventToMsg; `none` is a nil message, of an action that is not processed.
    unfoldable pub wal_event_to_msg : Event → Result (Option Msg)
    unfolding data_to_msg
    wal_event_to_msg e = data_to_msg e.body
