-- ===== src/Writer/Dml/Columns.antt =====
-- pkg/wal/processor/postgres/postgres_wal_dml_adapter.go: the columns of a row that a query may write.
use pgstream.Prelude.{
  suc, ◌≡◌, refl, ap, inl, inr, Bool, false, not, ◌&&◌, ◌||◌, List, [], ◌∷◌, Str, contains, length,
  keep, map, All, Bool-cases, if◌then◌else◌,
}
use pgstream.Postgres.Identifier.{quote_identifier}
use pgstream.Wal.{Value, Column}
use pgstream.Writer.Message.{SchemaInfo}
use pgstream.Writer.Bulk.{Json, serialize_jsonb_value}
use pgstream.Writer.Dml.{DmlAdapter, Pgtype, update_value_for_copy}

-- rowColumns, rowTypes and rowValues.
pub record Row : Type 0 where
  pub names : List Str
  pub types : List Str
  pub values : List Value

module _ (pq_quote : Str → Str) (json : Json) (pgtype : Pgtype) (a : DmlAdapter) where
  unfoldable pub row_value : Column → Value
  row_value c =
      let val = serialize_jsonb_value pq_quote json c.type c.value in
      if a.for_copy then update_value_for_copy pgtype val c.type else val

  -- The two tests that pass over a column.
  unfoldable pub skipped : SchemaInfo → Bool → Column → Bool
  skipped info for_update c =
      let quoted = quote_identifier pq_quote c.name in
      contains info.generated_columns quoted
      || (for_update && contains info.always_identity_columns quoted)

  with_column : Column → Row → Row
  unfolding row_value
  with_column c row = record {
    names = quote_identifier pq_quote c.name ∷ row.names;
    types = c.type ∷ row.types;
    values = row_value c ∷ row.values;
  }

  -- filterRowColumnsForAction
  unfoldable pub filter_row_columns_for_action : List Column → SchemaInfo → Bool → Row
  unfolding with_column skipped
  filter_row_columns_for_action [] info for_update = record { names = []; types = []; values = [] }
  filter_row_columns_for_action (c ∷ cols) info for_update =
      let rest = filter_row_columns_for_action cols info for_update in
      if skipped info for_update c then rest else with_column c rest

  -- A name that a query may set.
  abbrev pub Settable : SchemaInfo → Bool → Str → Type 0
  Settable info for_update name =
      (contains info.generated_columns name
        || (for_update && contains info.always_identity_columns name))
      ≡ false

  -- The kept columns as one list.
  abbrev pub writable : List Column → SchemaInfo → Bool → List Column
  writable cols info for_update = keep (λ c. not (skipped info for_update c)) cols

  abbrev pub row_of : List Column → Row
  row_of cols = record {
    names = map (λ c. quote_identifier pq_quote c.name) cols;
    types = map (λ c. c.type) cols;
    values = map row_value cols;
  }

  pub filter-row_of :
      (cols : List Column) (info : SchemaInfo) (for_update : Bool)
      → filter_row_columns_for_action cols info for_update ≡ row_of (writable cols info for_update)
  unfolding filter_row_columns_for_action with_column
  filter-row_of [] info for_update = refl
  filter-row_of (c ∷ cols) info for_update =
      let rest = filter-row_of cols info for_update in
      elim (Bool-cases (skipped info for_update c)) [
        | inl e ↦ simp (e, rest)
        | inr e ↦ simp (e, rest)
      ]

  not_skipped :
      (info : SchemaInfo) (for_update : Bool) (c : Column)
      → skipped info for_update c ≡ false
      → Settable info for_update (quote_identifier pq_quote c.name)
  unfolding skipped
  not_skipped info for_update c e = e

  pub filter-Settable :
      (cols : List Column) (info : SchemaInfo) (for_update : Bool)
      → All (Settable info for_update) (filter_row_columns_for_action cols info for_update).names
  unfolding filter_row_columns_for_action with_column
  filter-Settable [] info for_update = tt
  filter-Settable (c ∷ cols) info for_update =
      let rest = filter-Settable cols info for_update in
      elim (Bool-cases (skipped info for_update c)) [
        | inl e ↦ rw e rest
        | inr e ↦ rw e (not_skipped info for_update c e, rest)
      ]

  pub length-filter :
      (cols : List Column) (info : SchemaInfo) (for_update : Bool)
      → let row = filter_row_columns_for_action cols info for_update in
        (length row.values ≡ length row.names) × (length row.types ≡ length row.names)
  unfolding filter_row_columns_for_action with_column
  length-filter [] info for_update = (refl, refl)
  length-filter (c ∷ cols) info for_update =
      let rest = length-filter cols info for_update in
      elim (Bool-cases (skipped info for_update c)) [
        | inl e ↦ rw e rest
        | inr e ↦ rw e (ap suc rest.0, ap suc rest.1)
      ]
