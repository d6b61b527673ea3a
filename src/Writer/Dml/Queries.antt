-- ===== src/Writer/Dml/Queries.antt =====
-- pkg/wal/processor/postgres/postgres_wal_dml_adapter.go: the queries of one event.
pub mod Laws
use pgstream.Prelude.{
  ℕ, suc, ◌+◌, Bool, true, false, not, ◌||◌, Option, none, some, List, [], ◌∷◌, ◌++◌, Str, bytes,
  str_eq, is_empty, length, map, if◌then◌else◌,
}
use pgstream.Prelude.Int.{ℤ}
use pgstream.Prelude.Maps.{lookup}
use pgstream.Postgres.Identifier.{quote_identifier, quote_qualified_identifier}
use pgstream.Wal.{Value, string, integer, Column, Data}
use pgstream.Writer.Query.{Query, Arg, scalar}
use pgstream.Writer.Message.{SchemaInfo}
use pgstream.Writer.Bulk.{Json, join, placeholder, extract_primary_key_columns}
use pgstream.Writer.Dml.{
  OnConflictAction, on_conflict_error, on_conflict_update, on_conflict_do_nothing, DmlAdapter,
  Pgtype, needs_text_copy, to_int64,
}
use pgstream.Writer.Dml.Columns.{Row, filter_row_columns_for_action}
use pgstream.Writer.Dml.Where.{build_where_query, build_set_query}

-- &query{}
abbrev pub no_query : Query
no_query = record {
  schema = [];
  table = [];
  sql = [];
  column_names = [];
  args = [];
  is_ddl = false;
  needs_text_copy = false;
}

abbrev pub query_with : Data → Str → List Arg → Query
query_with d sql args = record no_query {
  schema = d.schema;
  table = d.table;
  sql = sql;
  args = args;
}

-- The placeholders of a row, from $(i + 1) on.
abbrev pub placeholders : {A : Type 0} → ℕ → List A → List Str
placeholders i [] = []
placeholders i (x ∷ xs) = placeholder (suc i) ∷ placeholders (suc i) xs

abbrev pub setval : Str
setval = bytes "SELECT setval($1::regclass, $2::bigint, true)"

module _ (pq_quote : Str → Str) (json : Json) (pgtype : Pgtype) (a : DmlAdapter) where
  -- quotedTableName of the event's table.
  abbrev pub quoted_table_name : Data → Str
  quoted_table_name d = quote_qualified_identifier pq_quote d.schema d.table

  -- buildTruncateQuery
  unfoldable pub build_truncate_query : Data → Query
  build_truncate_query d = query_with d (bytes "TRUNCATE " ++ quoted_table_name d) []

  delete_with : Data → Option (Str × List Arg) → Option Query
  delete_with d none = none
  delete_with d (some (clause, args)) =
      some (query_with d (bytes "DELETE FROM " ++ quoted_table_name d ++ bytes " " ++ clause) args)

  -- buildDeleteQuery
  unfoldable pub build_delete_query : Data → Option Query
  unfolding delete_with
  build_delete_query d = delete_with d (build_where_query pq_quote json d 0)

  excluded : List Str → List Str
  excluded names = map (λ name. name ++ bytes " = EXCLUDED." ++ name) names

  conflict_update : List Str → List Str → Str
  unfolding excluded
  conflict_update keys names =
      if is_empty keys
      then []
      else bytes " ON CONFLICT ("
        ++ join (bytes ",") keys
        ++ bytes ") DO UPDATE SET "
        ++ join (bytes ", ") (excluded names)

  conflict_clause : OnConflictAction → List Str → List Str → Str
  unfolding conflict_update
  conflict_clause on_conflict_update keys names = conflict_update keys names
  conflict_clause on_conflict_do_nothing keys names = bytes " ON CONFLICT DO NOTHING"
  conflict_clause on_conflict_error keys names = []

  -- extractPrimaryKeyColumnNames
  unfoldable pub extract_primary_key_column_names : List Str → List Column → List Str
  extract_primary_key_column_names ids cols =
      map (λ col. quote_identifier pq_quote col.name) (extract_primary_key_columns ids cols)

  -- buildOnConflictQuery
  unfoldable pub build_on_conflict_query : Data → List Str → Str
  unfolding conflict_clause
  build_on_conflict_query d names =
      conflict_clause a.on_conflict
        (extract_primary_key_column_names d.metadata.internal_col_ids d.columns) names

  setval_of : Data → Str → Option ℤ → List Query
  setval_of d seq none = []
  setval_of d seq (some n) =
      query_with d setval (scalar (string seq) ∷ scalar (integer n) ∷ []) ∷ []

  -- The loop over the columns with sequences.
  unfoldable pub sequence_queries : Data → SchemaInfo → List Column → List Query
  unfolding setval_of
  sequence_queries d info [] = []
  sequence_queries d info (col ∷ cols) =
      let rest = sequence_queries d info cols in
      elim (lookup (quote_identifier pq_quote col.name) info.sequence_columns) [
        | none ↦ rest
        | some seq ↦ setval_of d seq (to_int64 pgtype col.value) ++ rest
      ]

  insert_query : Data → Row → Query
  insert_query d row =
      record (query_with d
        (bytes "INSERT INTO "
          ++ quoted_table_name d
          ++ bytes "("
          ++ join (bytes ", ") row.names
          ++ bytes ") OVERRIDING SYSTEM VALUE VALUES("
          ++ join (bytes ", ") (placeholders 0 row.names)
          ++ bytes ")"
          ++ build_on_conflict_query d row.names)
        (map scalar row.values)) {
          column_names = row.names;
          needs_text_copy = needs_text_copy row.types;
        }

  insert_row : Data → SchemaInfo → Row → List Query
  unfolding insert_query
  insert_row d info row =
      if is_empty row.names
      then []
      else if a.for_copy
      then insert_query d row ∷ []
      else insert_query d row ∷ sequence_queries d info d.columns

  -- buildInsertQueries
  unfoldable pub build_insert_queries : Data → SchemaInfo → List Query
  unfolding insert_row
  build_insert_queries d info =
      insert_row d info (filter_row_columns_for_action pq_quote json pgtype a d.columns info false)

  update_with : Data → Option (Str × List Arg) → Option (Str × List Arg) → Option Query
  update_with d none clause = none
  update_with d (some (set, set_args)) none = none
  update_with d (some (set, set_args)) (some (clause, args)) = some (
      query_with d
        (bytes "UPDATE " ++ quoted_table_name d ++ bytes " " ++ set ++ bytes " " ++ clause)
        (set_args ++ args))

  update_row : Data → Row → Option Query
  unfolding update_with
  update_row d row =
      if is_empty row.names
      then some no_query
      else update_with d (build_set_query pq_quote json row.names row.values)
          (build_where_query pq_quote json d (length row.names))

  -- buildUpdateQuery; `none` is its error. The set clause is never empty.
  unfoldable pub build_update_query : Data → SchemaInfo → Option Query
  unfolding update_row
  build_update_query d info =
      update_row d (filter_row_columns_for_action pq_quote json pgtype a d.columns info true)

  one_query : Option Query → Option (List Query)
  one_query none = none
  one_query (some q) = some (q ∷ [])

  -- (*dmlAdapter).walDataToQueries; `none` is its error.
  unfoldable pub wal_data_to_queries : Data → SchemaInfo → Option (List Query)
  unfolding one_query
  wal_data_to_queries d info =
      if str_eq d.action (bytes "T")
      then some (build_truncate_query d ∷ [])
      else if str_eq d.action (bytes "D")
      then one_query (build_delete_query d)
      else if str_eq d.action (bytes "I")
      then some (build_insert_queries d info)
      else if str_eq d.action (bytes "U")
      then one_query (build_update_query d info)
      else some []
