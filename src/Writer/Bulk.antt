-- ===== src/Writer/Bulk.antt =====
-- pkg/wal/processor/postgres/postgres_wal_dml_adapter_bulk.go and postgres_wal_dml_adapter.go: the queries
-- that delete rows, one by one or in bulk. lib/pq's quoting and the JSON library are arguments.
pub mod Chunks
pub mod Keys
pub mod Total
mod Tests
use pgstream.Prelude.{
  ℕ, zero, suc, ◌+◌, ◌/◌, Bool, true, false, not, ◌&&◌, ◌||◌, Option, none, some, List, [], ◌∷◌,
  ◌++◌, Str, bytes, str_eq, is_empty, contains, keep, length, take, drop, ltb, replicate,
  if◌then◌else◌,
}
use pgstream.Prelude.Decimal.{print_ℕ}
use pgstream.Postgres.Identifier.{quote_identifier, quote_qualified_identifier}
use pgstream.Wal.{Value, null, string, byte_slice, integer, float, boolean, other, Column, Data}
use pgstream.Writer.Query.{Query, Arg, scalar, slice}

-- json.Marshal and json.Valid, and which other values are maps or slices.
pub record Json : Type 0 where
  pub marshal : Value → Option Str
  pub valid : Str → Bool
  pub is_document : ℕ → Bool

abbrev pub max_params_per_query : ℕ
max_params_per_query = 60000

-- max(maxParamsPerQuery/numPKCols, 1)
abbrev pub events_per_chunk : ℕ → ℕ
events_per_chunk n = let per = max_params_per_query / n in if ltb per 1 then 1 else per

-- pgArrayType
unfoldable pub pg_array_type : Str → Str
pg_array_type t =
    if contains (bytes "integer" ∷ bytes "int4" ∷ []) t
    then bytes "int4[]"
    else if contains (bytes "bigint" ∷ bytes "int8" ∷ []) t
    then bytes "int8[]"
    else if contains (bytes "smallint" ∷ bytes "int2" ∷ []) t
    then bytes "int2[]"
    else if contains (bytes "text" ∷ bytes "character varying" ∷ bytes "varchar" ∷ []) t
    then bytes "text[]"
    else if str_eq t (bytes "uuid")
    then bytes "uuid[]"
    else t ++ bytes "[]"

-- extractPrimaryKeyColumns
unfoldable pub extract_primary_key_columns : List Str → List Column → List Column
extract_primary_key_columns ids cols = keep (λ col. contains ids col.id) cols

not_none_empty : List Column → Option (List Column)
not_none_empty [] = none
not_none_empty (col ∷ cols) = some (col ∷ cols)

-- getIdentityColumns; `none` is errUnableToBuildQuery.
unfoldable pub get_identity_columns : Data → Option (List Column)
unfolding not_none_empty
get_identity_columns d =
    if not (is_empty d.identity)
    then some d.identity
    else if not (is_empty d.metadata.internal_col_ids)
    then not_none_empty (extract_primary_key_columns d.metadata.internal_col_ids d.columns)
    else none

-- strings.Join
unfoldable pub join : Str → List Str → Str
join sep [] = []
join sep (p ∷ []) = p
join sep (p ∷ q ∷ ps) = p ++ (sep ++ join sep (q ∷ ps))

unfoldable pub placeholder : ℕ → Str
placeholder n = bytes "$" ++ print_ℕ n

unfoldable pub is_null : Value → Bool
is_null null = true
is_null _ = false

module _ (pq_quote : Str → Str) (json : Json) where
  open json use {marshal, valid, is_document}

  marshalled : Value → Option Str → Value
  marshalled v none = v
  marshalled v (some b) = byte_slice b

  as_json : Value → Value
  unfolding marshalled
  as_json (string s) = if valid s then string s else marshalled (string s) (marshal (string s))
  as_json (other n) = if is_document n then marshalled (other n) (marshal (other n)) else other n
  as_json null = null
  as_json (byte_slice s) = byte_slice s
  as_json (integer n) = integer n
  as_json (float n) = float n
  as_json (boolean b) = boolean b

  -- serializeJSONBValue
  unfoldable pub serialize_jsonb_value : Str → Value → Value
  unfolding as_json
  serialize_jsonb_value t v =
      if str_eq t (bytes "jsonb") || str_eq t (bytes "json") then as_json v else v

  abbrev pub arg_of : Column → Arg
  arg_of col = scalar (serialize_jsonb_value col.type col.value)

  -- The placeholders of a row, and the index after them. `none` is the panic of a row with more columns
  -- than the first; of a row with fewer, the rest stay empty.
  row_placeholders : ℕ → ℕ → List Column → Option (List Str × ℕ)
  row_placeholders room idx [] = some (replicate room [], idx)
  row_placeholders zero idx (col ∷ cols) = none
  row_placeholders (suc room) idx (col ∷ cols) = elim (row_placeholders room (suc idx) cols) [
    | none ↦ none
    | some (ps, end) ↦ some (placeholder (suc idx) ∷ ps, end)
  ]

  abbrev pub args_of : List Column → List Arg
  args_of [] = []
  args_of (col ∷ cols) = arg_of col ∷ args_of cols

  one_row :
      Option (List Str × ℕ)
      → List Column
      → (ℕ → Option (List Str × List Arg))
      → Option (List Str × List Arg)
  one_row none cols rest = none
  one_row (some (ps, end)) cols rest = elim (rest end) [
    | none ↦ none
    | some (tuples, args) ↦
        some ((bytes "(" ++ (join (bytes ",") ps ++ bytes ")")) ∷ tuples, args_of cols ++ args)
  ]

  -- The loop over a chunk: its tuples and arguments.
  chunk_rows : ℕ → ℕ → List Data → Option (List Str × List Arg)
  unfolding row_placeholders one_row
  chunk_rows n idx [] = some ([], [])
  chunk_rows n idx (e ∷ es) = elim (get_identity_columns e) [
    | none ↦ none
    | some cols ↦ one_row (row_placeholders n idx cols) cols (λ end. chunk_rows n end es)
  ]

  -- The quoted names of a chunk's first identity columns; `none` as for a row.
  column_names : ℕ → List Column → Option (List Str)
  column_names room [] = some (replicate room [])
  column_names zero (col ∷ cols) = none
  column_names (suc room) (col ∷ cols) = elim (column_names room cols) [
    | none ↦ none
    | some names ↦ some (quote_identifier pq_quote col.name ∷ names)
  ]

  chunk_query : Str → Data → Option (List Str) → Option (List Str × List Arg) → Option Query
  chunk_query table e none rows = none
  chunk_query table e (some names) none = none
  chunk_query table e (some names) (some (tuples, args)) = some (record {
    schema = e.schema;
    table = e.table;
    sql =
        bytes "DELETE FROM "
        ++ (table
            ++ (bytes " WHERE ("
                ++ (join (bytes ",") names
                    ++ (bytes ") IN (" ++ (join (bytes ",") tuples ++ bytes ")")))));
    column_names = [];
    args = args;
    is_ddl = false;
    needs_text_copy = false;
  })

  names_of_first : ℕ → Data → Option (List Str)
  unfolding column_names
  names_of_first n e = elim (get_identity_columns e) [
    | none ↦ none
    | some cols ↦ column_names n cols
  ]

  and_rest : Option Query → Option (List Query) → Option (List Query)
  and_rest none rest = none
  and_rest (some q) none = none
  and_rest (some q) (some qs) = some (q ∷ qs)

  -- The loop of buildBulkDeleteCompositePK over chunks of `per` events, on fuel for its rounds.
  delete_chunks : ℕ → ℕ → ℕ → Str → List Data → Option (List Query)
  unfolding chunk_rows chunk_query names_of_first and_rest
  delete_chunks zero per n table es = some []
  delete_chunks (suc fuel) per n table [] = some []
  delete_chunks (suc fuel) per n table (e ∷ es) =
      let chunk = take per (e ∷ es) in
      let rest = delete_chunks fuel per n table (drop per (e ∷ es)) in
      and_rest (chunk_query table e (names_of_first n e) (chunk_rows n 0 chunk)) rest

  -- buildBulkDeleteCompositePK, with a round for every event at most.
  unfoldable pub build_bulk_delete_composite_pk : List Data → ℕ → Str → Option (List Query)
  unfolding delete_chunks
  build_bulk_delete_composite_pk events n table =
      delete_chunks (length events) (events_per_chunk n) n table events
