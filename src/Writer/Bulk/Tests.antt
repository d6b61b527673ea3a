-- ===== src/Writer/Bulk/Tests.antt =====
-- A bulk delete of two rows with a key of two columns.
use pgstream.Prelude.{ℕ, ◌≡◌, refl, true, false, none, some, List, [], ◌∷◌, ◌++◌, Str, bytes, arith}
use pgstream.Prelude.Int.{pos}
use pgstream.Wal.{integer, Column, Data, no_metadata}
use pgstream.Writer.Query.{Query, scalar}
use pgstream.Writer.Bulk.{Json, max_params_per_query, build_bulk_delete_composite_pk}
use pgstream.Writer.Bulk.Chunks.{Covers}
use pgstream.Writer.Bulk.Total.{Keyed, build_bulk_delete_composite_pk-total}

abbrev no_json : Json
no_json = record { marshal = λ v. none; valid = λ s. true; is_document = λ n. false }

abbrev in_quotes : Str → Str
in_quotes s = b'"' ∷ (s ++ b'"' ∷ [])

abbrev key_column : Str → ℕ → Column
key_column name n = record { id = []; name = name; type = bytes "int4"; value = integer (pos n) }

abbrev deleted_row : ℕ → ℕ → Data
deleted_row a b = record {
  action = bytes "D";
  timestamp = [];
  lsn = [];
  schema = bytes "public";
  table = bytes "pairs";
  columns = [];
  identity = key_column (bytes "a") a ∷ key_column (bytes "b") b ∷ [];
  xid = pos 0;
  prefix = [];
  content = [];
  metadata = no_metadata;
}

abbrev deleted_rows : List Data
deleted_rows = deleted_row 1 2 ∷ deleted_row 3 4 ∷ []

abbrev bulk_query : Query
bulk_query = record {
  schema = bytes "public";
  table = bytes "pairs";
  sql = bytes "DELETE FROM pairs WHERE (\"a\",\"b\") IN (($1,$2),($3,$4))";
  column_names = [];
  args =
      scalar (integer (pos 1))
      ∷ scalar (integer (pos 2))
      ∷ scalar (integer (pos 3))
      ∷ scalar (integer (pos 4))
      ∷ [];
  is_ddl = false;
  needs_text_copy = false;
}

bulk_query_built :
    build_bulk_delete_composite_pk in_quotes no_json deleted_rows 2 (bytes "pairs")
    ≡ some (bulk_query ∷ [])
unfolding build_bulk_delete_composite_pk pgstream.Writer.Bulk.get_identity_columns
    pgstream.Writer.Bulk.join pgstream.Writer.Bulk.serialize_jsonb_value
    pgstream.Postgres.Identifier.quote_identifier pgstream.Prelude.str_eq
    pgstream.Postgres.Identifier.is_quoted_identifier pgstream.Writer.Bulk.placeholder
    pgstream.Prelude.Decimal.print_ℕ
bulk_query_built = refl

deleted_row-Keyed : (a b : ℕ) → Keyed 2 (deleted_row a b)
unfolding pgstream.Writer.Bulk.get_identity_columns
deleted_row-Keyed a b = record {
  cols = (deleted_row a b).identity;
  identity = refl;
  few = omega arith;
}

build_bulk_delete_composite_pk-total_example :
    (qs : List Query) × (build_bulk_delete_composite_pk in_quotes no_json deleted_rows 2
        (bytes "pairs")
      ≡ some qs)
    × Covers in_quotes no_json max_params_per_query deleted_rows qs
build_bulk_delete_composite_pk-total_example =
    build_bulk_delete_composite_pk-total in_quotes no_json deleted_rows 2 (bytes "pairs")
      (omega arith) (omega arith) (deleted_row-Keyed 1 2, (deleted_row-Keyed 3 4, tt))
