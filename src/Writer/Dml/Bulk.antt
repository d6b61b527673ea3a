-- ===== src/Writer/Dml/Bulk.antt =====
-- pkg/wal/processor/postgres/postgres_wal_dml_adapter_bulk.go: the queries of a run of deletes or inserts.
pub mod Max
pub mod Given
pub mod Rows
pub mod Inserts
pub mod Deletes
pub mod Sequences
use pgstream.Prelude.{
  ℕ, zero, suc, ◌/◌, Bool, true, false, not, Option, none, some, List, [], ◌∷◌, ◌++◌, Str, bytes,
  is_empty, keep, length, take, drop, ltb, ◌==◌, replicate, map, if◌then◌else◌,
}
use pgstream.Prelude.Int.{ℤ, ltb_ℤ}
use pgstream.Prelude.Maps.{lookup, insert}
use pgstream.Postgres.Identifier.{quote_identifier, quote_qualified_identifier}
use pgstream.Wal.{Value, string, integer, Column, Data}
use pgstream.Writer.Query.{Query, Arg, scalar, slice}
use pgstream.Writer.Message.{SchemaInfo}
use pgstream.Writer.Bulk.{
  Json, is_null, join, placeholder, pg_array_type, get_identity_columns, serialize_jsonb_value,
  events_per_chunk, build_bulk_delete_composite_pk,
}
use pgstream.Writer.Dml.{DmlAdapter, Pgtype, needs_text_copy, to_int64}
use pgstream.Writer.Dml.Columns.{Row, filter_row_columns_for_action}
use pgstream.Writer.Dml.Queries.{query_with, setval, build_delete_query, build_on_conflict_query}

unfoldable pub has_null : List Column → Bool
has_null [] = false
has_null (c ∷ cols) = if is_null c.value then true else has_null cols

-- normalEvents and nullEvents.
abbrev pub Separated : Type 0
Separated = List Data × List Data

put : Bool → Data → Option Separated → Option Separated
put null e none = none
put true e (some (normal, nulls)) = some (normal, e ∷ nulls)
put false e (some (normal, nulls)) = some (e ∷ normal, nulls)

-- The loop that separates the events with a NULL identity value; `none` is errUnableToBuildQuery.
unfoldable pub separate : List Data → Option Separated
unfolding has_null put
separate [] = some ([], [])
separate (e ∷ es) = elim (get_identity_columns e) [
  | none ↦ none
  | some cols ↦ put (has_null cols) e (separate es)
]

join_queries : Option (List Query) → Option (List Query) → Option (List Query)
join_queries none rest = none
join_queries (some qs) none = none
join_queries (some qs) (some rest) = some (qs ++ rest)

then_query : Option Query → Option (List Query) → Option (List Query)
then_query none rest = none
then_query (some q) none = none
then_query (some q) (some qs) = some (q ∷ qs)

module _ (pq_quote : Str → Str) (json : Json) (pgtype : Pgtype) (a : DmlAdapter) where
  then_value : Option (List Column) → Option (List Value) → Option (List Value)
  then_value none rest = none
  then_value (some []) rest = none
  then_value (some (c ∷ cols)) none = none
  then_value (some (c ∷ cols)) (some vs) =
      some (serialize_jsonb_value pq_quote json c.type c.value ∷ vs)

  -- The values of the first identity column of every event.
  unfoldable pub key_values : List Data → Option (List Value)
  unfolding then_value
  key_values [] = some []
  key_values (e ∷ es) = then_value (get_identity_columns e) (key_values es)

  single_query : List Data → Column → Str → Option (List Value) → Option (List Query)
  single_query events col table none = none
  single_query [] col table (some vs) = none
  single_query (e ∷ es) col table (some vs) = some (
      query_with e
        (bytes "DELETE FROM "
          ++ table
          ++ bytes " WHERE "
          ++ quote_identifier pq_quote col.name
          ++ bytes " = ANY($1::"
          ++ pg_array_type col.type
          ++ bytes ")")
        (slice vs ∷ [])
      ∷ [])

  -- buildBulkDeleteSinglePK
  unfoldable pub build_bulk_delete_single_pk : List Data → Column → Str → Option (List Query)
  unfolding single_query
  build_bulk_delete_single_pk events col table = single_query events col table (key_values events)

  -- The loop over the events with a NULL identity value.
  unfoldable pub null_deletes : List Data → Option (List Query)
  unfolding then_query
  null_deletes [] = some []
  null_deletes (e ∷ es) = then_query (build_delete_query pq_quote json pgtype a e) (null_deletes es)

  keyed_deletes : Data → List Column → List Data → Option (List Query)
  keyed_deletes first [] normal =
      build_bulk_delete_composite_pk pq_quote json normal 0
        (quote_qualified_identifier pq_quote first.schema first.table)
  keyed_deletes first (c ∷ []) normal =
      build_bulk_delete_single_pk normal c
        (quote_qualified_identifier pq_quote first.schema first.table)
  keyed_deletes first (c ∷ d ∷ cols) normal =
      build_bulk_delete_composite_pk pq_quote json normal (length (c ∷ d ∷ cols))
        (quote_qualified_identifier pq_quote first.schema first.table)

  normal_deletes : Data → List Column → List Data → Option (List Query)
  unfolding keyed_deletes
  normal_deletes first cols normal =
      if is_empty normal then some [] else keyed_deletes first cols normal

  deletes_of : Data → List Column → Option Separated → Option (List Query)
  unfolding join_queries normal_deletes
  deletes_of first cols none = none
  deletes_of first cols (some (normal, nulls)) =
      join_queries (null_deletes nulls) (normal_deletes first cols normal)

  -- buildBulkDeleteQuery; `none` is its error, or a panic.
  unfoldable pub build_bulk_delete_query : List Data → Option (List Query)
  unfolding deletes_of
  build_bulk_delete_query [] = some []
  build_bulk_delete_query (e ∷ es) = elim (get_identity_columns e) [
    | none ↦ none
    | some cols ↦ deletes_of e cols (separate (e ∷ es))
  ]

  with_sequence : Option ℤ → Option Str → Option (Str × ℤ)
  with_sequence none seq = none
  with_sequence (some v) none = none
  with_sequence (some v) (some seq) = some (seq, v)

  -- The sequence of a column and the integer it has been given.
  unfoldable pub assigned : SchemaInfo → Column → Option (Str × ℤ)
  unfolding with_sequence
  assigned info col =
      with_sequence (to_int64 pgtype col.value)
        (lookup (quote_identifier pq_quote col.name) info.sequence_columns)

  larger : Option ℤ → ℤ → Bool
  larger none v = true
  larger (some current) v = ltb_ℤ current v

  unfoldable pub note_max : List (Str × ℤ) → Str → ℤ → List (Str × ℤ)
  unfolding larger
  note_max maxes seq v = if larger (lookup seq maxes) v then insert seq v maxes else maxes

  -- The loop that tracks seqMaxValues over the columns of an event.
  unfoldable pub track_columns : SchemaInfo → List (Str × ℤ) → List Column → List (Str × ℤ)
  track_columns info maxes [] = maxes
  track_columns info maxes (col ∷ cols) = elim (assigned info col) [
    | none ↦ track_columns info maxes cols
    | some (seq, v) ↦ track_columns info (note_max maxes seq v) cols
  ]

  unfoldable pub track_events : SchemaInfo → List (Str × ℤ) → List Data → List (Str × ℤ)
  track_events info maxes [] = maxes
  track_events info maxes (e ∷ es) = track_events info (track_columns info maxes e.columns) es

  -- The placeholders of a row, and the index after them; `none` is the panic of a row with more values than
  -- the first has names.
  row_of_values : ℕ → ℕ → List Value → Option (List Str × ℕ)
  row_of_values room idx [] = some (replicate room [], idx)
  row_of_values zero idx (v ∷ vs) = none
  row_of_values (suc room) idx (v ∷ vs) = elim (row_of_values room (suc idx) vs) [
    | none ↦ none
    | some (ps, end) ↦ some (placeholder (suc idx) ∷ ps, end)
  ]

  then_row :
      Option (List Str × ℕ)
      → List Value
      → (ℕ → Option (List Str × List Arg))
      → Option (List Str × List Arg)
  then_row none vs rest = none
  then_row (some (ps, end)) vs rest = elim (rest end) [
    | none ↦ none
    | some (tuples, args) ↦
        some ((bytes "(" ++ join (bytes ", ") ps ++ bytes ")") ∷ tuples, map scalar vs ++ args)
  ]

  -- filterRowColumns
  unfoldable pub filter_row_columns : SchemaInfo → Data → List Value
  filter_row_columns info e =
      (filter_row_columns_for_action pq_quote json pgtype a e.columns info false).values

  -- The loop over a chunk: its tuples and arguments.
  pub insert_rows : SchemaInfo → ℕ → ℕ → List Data → Option (List Str × List Arg)
  unfolding row_of_values then_row
  insert_rows info n idx [] = some ([], [])
  insert_rows info n idx (e ∷ es) =
      let vs = filter_row_columns info e in
      then_row (row_of_values n idx vs) vs (λ end. insert_rows info n end es)

  pub rows_query : Data → Row → Option (List Str × List Arg) → Option Query
  rows_query first row none = none
  rows_query first row (some (tuples, args)) =
      some
        (record (query_with first
          (bytes "INSERT INTO "
            ++ quote_qualified_identifier pq_quote first.schema first.table
            ++ bytes "("
            ++ join (bytes ", ") row.names
            ++ bytes ") OVERRIDING SYSTEM VALUE VALUES"
            ++ join (bytes ",") tuples
            ++ build_on_conflict_query pq_quote json pgtype a first row.names)
          args) { column_names = row.names; needs_text_copy = needs_text_copy row.types })

  -- The loop over chunks of `per` events, on fuel for its rounds.
  insert_chunks : SchemaInfo → Data → Row → ℕ → ℕ → List Data → Option (List Query)
  unfolding insert_rows rows_query then_query
  insert_chunks info first row zero per es = some []
  insert_chunks info first row (suc fuel) per [] = some []
  insert_chunks info first row (suc fuel) per (e ∷ es) =
      let rest = insert_chunks info first row fuel per (drop per (e ∷ es)) in
      then_query (rows_query first row (insert_rows info (length row.names) 0 (take per (e ∷ es))))
        rest

  pub setvals : Data → List (Str × ℤ) → List Query
  setvals first [] = []
  setvals first ((seq, v) ∷ maxes) =
      query_with first setval (scalar (string seq) ∷ scalar (integer v) ∷ []) ∷ setvals first maxes

  pub sequence_maxes : SchemaInfo → List Data → List (Str × ℤ)
  sequence_maxes info events = if a.for_copy then [] else track_events info [] events

  inserts_of : SchemaInfo → Data → List Data → Row → Option (List Query)
  unfolding join_queries insert_chunks setvals sequence_maxes
  inserts_of info first es row =
      if is_empty row.names
      then some []
      else join_queries
          (insert_chunks info first row (suc (length es)) (events_per_chunk (length row.names))
            (first ∷ es))
          (some (setvals first (sequence_maxes info (first ∷ es))))

  -- buildBulkInsertQueries; `none` is a panic. seqMaxValues is computed after the chunks, on which it does
  -- not depend, and a Go map may give its entries in another order.
  unfoldable pub build_bulk_insert_queries : List Data → SchemaInfo → Option (List Query)
  unfolding inserts_of
  build_bulk_insert_queries [] info = some []
  build_bulk_insert_queries (e ∷ es) info =
      inserts_of info e es
        (filter_row_columns_for_action pq_quote json pgtype a e.columns info false)
