-- ===== src/Writer/Observer.antt =====
-- pkg/wal/processor/postgres/postgres_schema_observer.go: the caches of the tables' columns, sequences and
-- materialized views. What the catalog queries of Postgres return is an argument.
pub mod Cache
pub mod Update
pub mod Views
use pgstream.Prelude.{
  Bool, true, false, Option, none, some, List, [], ◌∷◌, ◌++◌, Str, is_empty, contains, map,
  if◌then◌else◌,
}
use pgstream.Prelude.Maps.{lookup, insert, set_insert}
use pgstream.Postgres.Identifier.{quote_identifier, quote_qualified_identifier}
use pgstream.Wal.Ddl.{
  DdlColumn, DdlObject, DdlEvent, get_name, is_always_identity, is_generated, get_sequence_name,
  get_table_objects, get_table_column_objects, get_materialized_view_objects, is_drop_event,
}

-- The rows of the four queries for a schema and table; `none` is an error.
pub record Catalog : Type 0 where
  pub generated_rows : Str → Str → Option (List Str)
  pub always_identity_rows : Str → Str → Option (List Str)
  pub materialized_view_rows : Str → Option (List Str)
  pub sequence_rows : Str → Str → Option (List (Str × Str))

pub record Observer : Type 0 where
  pub generated_table_columns : List (Str × List Str)
  pub always_identity_table_columns : List (Str × List Str)
  pub materialized_views : List (Str × List Str)
  pub column_table_sequences : List (Str × List (Str × Str))

-- A cache, and the answer; `none` is the error of the query.
or_query : {V : Type 0} → Str → List (Str × V) → Option V → Option V → List (Str × V) × Option V
or_query key cache (some v) queried = (cache, some v)
or_query key cache none none = (cache, none)
or_query key cache none (some v) = (insert key v cache, some v)

-- Get, and on a miss the query and Set.
unfoldable pub get_cached :
    {V : Type 0} → Str → List (Str × V) → Option V → List (Str × V) × Option V
unfolding or_query
get_cached key cache queried = or_query key cache (lookup key cache) queried

in_set : Str → Option (List Str) → Bool
in_set name none = false
in_set name (some names) = contains names name

without : Str → List Str → List Str
without name [] = []
without name (n ∷ names) =
    let rest = without name names in if contains (n ∷ []) name then rest else n ∷ rest

with_sequence : Str → Str → List (Str × Str) → List (Str × Str)
with_sequence name seq m = if is_empty seq then m else insert name seq m

module _ (pq_quote : Str → Str) where
  quote_set : List Str → List Str
  quote_set [] = []
  quote_set (name ∷ names) = set_insert (quote_identifier pq_quote name) (quote_set names)

  quoted_rows : Option (List Str) → Option (List Str)
  unfolding quote_set
  quoted_rows none = none
  quoted_rows (some rows) = some (quote_set rows)

  quote_sequences : Str → List (Str × Str) → List (Str × Str) → List (Str × Str)
  quote_sequences schema [] m = m
  quote_sequences schema ((column, seq) ∷ rows) m =
      quote_sequences schema rows (
        insert (quote_identifier pq_quote column) (quote_qualified_identifier pq_quote schema seq)
          m)

  quoted_sequences : Str → Option (List (Str × Str)) → Option (List (Str × Str))
  unfolding quote_sequences
  quoted_sequences schema none = none
  quoted_sequences schema (some rows) = some (quote_sequences schema rows [])

  -- queryGeneratedColumnNames, queryAlwaysIdentityColumnNames, queryMaterializedViews and
  -- queryTableSequences.
  unfoldable pub query_generated_column_names : Catalog → Str → Str → Option (List Str)
  unfolding quoted_rows
  query_generated_column_names catalog schema table =
      quoted_rows (catalog.generated_rows schema table)

  unfoldable pub query_always_identity_column_names : Catalog → Str → Str → Option (List Str)
  unfolding quoted_rows
  query_always_identity_column_names catalog schema table =
      quoted_rows (catalog.always_identity_rows schema table)

  unfoldable pub query_materialized_views : Catalog → Str → Option (List Str)
  unfolding quoted_rows
  query_materialized_views catalog schema = quoted_rows (catalog.materialized_view_rows schema)

  unfoldable pub query_table_sequences : Catalog → Str → Str → Option (List (Str × Str))
  unfolding quoted_sequences
  query_table_sequences catalog schema table =
      quoted_sequences schema (catalog.sequence_rows schema table)

  abbrev key_of : Str → Str → Str
  key_of schema table = quote_qualified_identifier pq_quote schema table

  -- getGeneratedColumnNames
  unfoldable pub get_generated_column_names :
      Catalog → Str → Str → Observer → Observer × Option (List Str)
  get_generated_column_names catalog schema table o =
      let (cache, names) =
        get_cached (key_of schema table) o.generated_table_columns
          (query_generated_column_names catalog schema table) in
      (record o { generated_table_columns = cache }, names)

  -- getAlwaysIdentityColumnNames
  unfoldable pub get_always_identity_column_names :
      Catalog → Str → Str → Observer → Observer × Option (List Str)
  get_always_identity_column_names catalog schema table o =
      let (cache, names) =
        get_cached (key_of schema table) o.always_identity_table_columns
          (query_always_identity_column_names catalog schema table) in
      (record o { always_identity_table_columns = cache }, names)

  -- getSequenceColumns
  unfoldable pub get_sequence_columns :
      Catalog → Str → Str → Observer → Observer × Option (List (Str × Str))
  get_sequence_columns catalog schema table o =
      let (cache, m) =
        get_cached (key_of schema table) o.column_table_sequences
          (query_table_sequences catalog schema table) in
      (record o { column_table_sequences = cache }, m)

  -- isMaterializedView: after an error of the query it answers no.
  unfoldable pub is_materialized_view : Catalog → Str → Str → Observer → Observer × Bool
  unfolding in_set
  is_materialized_view catalog schema table o =
      let (cache, names) =
        get_cached (quote_identifier pq_quote schema) o.materialized_views
          (query_materialized_views catalog schema) in
      (record o { materialized_views = cache }, in_set (quote_identifier pq_quote table) names)

  -- The quoted names of the columns that pass the test.
  unfoldable pub columns_with : (DdlColumn → Bool) → List DdlColumn → List Str
  columns_with p [] = []
  columns_with p (c ∷ cols) =
      let rest = columns_with p cols in
      if p c then set_insert (quote_identifier pq_quote c.name) rest else rest

  abbrev pub object_key : DdlObject → Str
  object_key obj = quote_qualified_identifier pq_quote obj.schema (get_name obj)

  -- updateGeneratedColumnNames
  unfoldable pub update_generated_column_names : List DdlObject → Observer → Observer
  update_generated_column_names [] o = o
  update_generated_column_names (obj ∷ objs) o = update_generated_column_names objs (record o {
    generated_table_columns =
        insert (object_key obj) (columns_with is_generated obj.columns) o.generated_table_columns;
    always_identity_table_columns =
        insert (object_key obj) (columns_with is_always_identity obj.columns)
          o.always_identity_table_columns;
  })

  -- The sequences of the columns, added to a map; `none` is the panic of GetSequenceName.
  unfoldable pub sequences_of : List (Str × Str) → List DdlColumn → Option (List (Str × Str))
  unfolding with_sequence
  sequences_of m [] = some m
  sequences_of m (c ∷ cols) = elim (get_sequence_name c) [
    | none ↦ none
    | some seq ↦ sequences_of (with_sequence (quote_identifier pq_quote c.name) seq m) cols
  ]

  -- updateColumnSequences
  unfoldable pub update_column_sequences : List DdlObject → Observer → Option Observer
  update_column_sequences [] o = some o
  update_column_sequences (obj ∷ objs) o = elim (sequences_of [] obj.columns) [
    | none ↦ none
    | some m ↦
        update_column_sequences objs
          (record o { column_table_sequences = insert (object_key obj) m o.column_table_sequences })
  ]

  remove_views : List DdlObject → List Str → List Str
  unfolding without
  remove_views [] names = names
  remove_views (mv ∷ mvs) names =
      remove_views mvs (without (quote_identifier pq_quote (get_name mv)) names)

  add_views : List DdlObject → List Str → List Str
  add_views [] names = names
  add_views (mv ∷ mvs) names =
      add_views mvs (set_insert (quote_identifier pq_quote (get_name mv)) names)

  views_after : Bool → List DdlObject → Option (List Str) → Option (List Str)
  unfolding remove_views add_views
  views_after true mvs none = none
  views_after true mvs (some existing) = some (remove_views mvs existing)
  views_after false mvs none = some (add_views mvs [])
  views_after false mvs (some existing) = some (add_views mvs existing)

  set_views : Str → Option (List Str) → Observer → Observer
  set_views key none o = o
  set_views key (some names) o = record o {
    materialized_views = insert key names o.materialized_views;
  }

  -- updateMaterializedViews
  unfoldable pub update_materialized_views : DdlEvent → List DdlObject → Observer → Observer
  unfolding views_after set_views
  update_materialized_views e mvs o =
      let key = quote_identifier pq_quote e.schema_name in
      set_views key (views_after (is_drop_event e) mvs (lookup key o.materialized_views)) o

  then_views : DdlEvent → Option Observer → Option Observer
  then_views e none = none
  then_views e (some o) =
      let mvs = get_materialized_view_objects e in
      if is_empty mvs then some o else some (update_materialized_views e mvs o)

  -- update of an event that is not nil; `none` is a panic.
  unfoldable pub update : DdlEvent → Observer → Option Observer
  unfolding then_views
  update e o =
      let objs = get_table_objects e ++ get_table_column_objects e in
      then_views e (update_column_sequences objs (update_generated_column_names objs o))
