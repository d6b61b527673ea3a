-- ===== src/Writer/Dml/Bulk/Deletes.antt =====
-- pkg/wal/processor/postgres/postgres_wal_dml_adapter_bulk.go: a bulk delete deletes the row of every event.
use pgstream.Prelude.{
  ◌≡◌, Bool, false, not, Option, none, some, List, [], ◌∷◌, ◌++◌, Str, bytes, keep,
}
use pgstream.Postgres.Identifier.{quote_identifier, quote_qualified_identifier}
use pgstream.Wal.{Value, Column, Data}
use pgstream.Writer.Query.{Query, slice}
use pgstream.Writer.Bulk.{
  Json, pg_array_type, get_identity_columns, serialize_jsonb_value, max_params_per_query,
}
use pgstream.Writer.Bulk.Keys.{quoted_names, Identified, Deletes}
use pgstream.Writer.Dml.{DmlAdapter, Pgtype}
use pgstream.Writer.Dml.Queries.{build_delete_query}
use pgstream.Writer.Dml.Bulk.{has_null}

null_columns : Option (List Column) → Bool
null_columns none = false
null_columns (some cols) = has_null cols

-- Some identity value of the event is NULL.
unfoldable pub null_key : Data → Bool
unfolding null_columns
null_key e = null_columns (get_identity_columns e)

abbrev pub null_events : List Data → List Data
null_events es = keep null_key es

abbrev pub normal_events : List Data → List Data
normal_events es = keep (λ e. not (null_key e)) es

module _ (pq_quote : Str → Str) (json : Json) (pgtype : Pgtype) (a : DmlAdapter) where
  -- The query of each event, in order.
  abbrev pub DeletesEach : List Data → List Query → Type 0
  DeletesEach [] [] = Unit
  DeletesEach [] (q ∷ qs) = ⊥
  DeletesEach (e ∷ es) [] = ⊥
  DeletesEach (e ∷ es) (q ∷ qs) =
      (build_delete_query pq_quote json pgtype a e ≡ some q) × DeletesEach es qs

  -- The value of the one column that identifies each event's row, in order.
  abbrev pub KeyValues : List Data → List Value → Type 0
  KeyValues [] [] = Unit
  KeyValues [] (v ∷ vs) = ⊥
  KeyValues (e ∷ es) [] = ⊥
  KeyValues (e ∷ es) (v ∷ vs) =
      ((col : Column) × (get_identity_columns e ≡ some (col ∷ []))
        × (v ≡ serialize_jsonb_value pq_quote json col.type col.value))
      × KeyValues es vs

  -- Queries that delete the rows of these events, none with a NULL identity value: where the key is one column, one
  -- query with all the keys as an array, and none if there are no events, else queries with a tuple for each event.
  abbrev pub DeletesKeys : Str → List Column → List Data → List Query → Type 0
  DeletesKeys table [] es qs = ⊥
  DeletesKeys table (c ∷ []) [] qs = qs ≡ []
  DeletesKeys table (c ∷ []) (e ∷ es) qs =
      (q : Query) × (vs : List Value) × (qs ≡ q ∷ [])
      × KeyValues (e ∷ es) vs
      × (q.args ≡ slice vs ∷ [])
      × (q.sql
          ≡ bytes "DELETE FROM "
            ++ table
            ++ bytes " WHERE "
            ++ quote_identifier pq_quote c.name
            ++ bytes " = ANY($1::"
            ++ pg_array_type c.type
            ++ bytes ")")
  DeletesKeys table (c ∷ d ∷ cols) es qs =
      Deletes pq_quote json max_params_per_query table (quoted_names pq_quote json (c ∷ d ∷ cols))
        es qs

  abbrev pub Alike : List Column → Data → Type 0
  Alike cols e = Identified pq_quote json (quoted_names pq_quote json cols) e

  abbrev pub table_of : Data → Str
  table_of e = quote_qualified_identifier pq_quote e.schema e.table
