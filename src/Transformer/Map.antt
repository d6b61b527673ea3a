-- ===== src/Transformer/Map.antt =====
-- pkg/wal/processor/transformer/wal_transformer_map.go: the transformers of each table's columns. A column without
-- a transformer stands in the noop map with nil, which is `none`.
pub mod Laws
use pgstream.Prelude.{Option, none, some, List, [], ◌∷◌, ◌++◌, Str}
use pgstream.Prelude.Maps.{lookup, insert}
use pgstream.Postgres.Identifier.{quote_qualified_identifier}

abbrev pub ColumnTransformers : Type 0 → Type 0
ColumnTransformers T = List (Str × Option T)

pub record TransformerMap (T : Type 0) : Type 0 where
  pub active : List (Str × ColumnTransformers T)
  pub noop : List (Str × ColumnTransformers T)

-- maps.Copy
unfoldable pub copy :
    {T : Type 0} → ColumnTransformers T → ColumnTransformers T → ColumnTransformers T
copy to [] = to
copy to ((k, v) ∷ from) = copy (insert k v to) from

-- The columns of a table, or a new map of them.
columns_of : {T : Type 0} → Option (ColumnTransformers T) → ColumnTransformers T
columns_of none = []
columns_of (some m) = m

-- The entry of a column of the table with a key.
put :
    {T : Type 0}
    → Str
    → Str
    → Option T
    → List (Str × ColumnTransformers T)
    → List (Str × ColumnTransformers T)
unfolding columns_of
put key column t m = insert key (insert column t (columns_of (lookup key m))) m

all_columns :
    {T : Type 0}
    → Option (ColumnTransformers T)
    → Option (ColumnTransformers T)
    → Option (ColumnTransformers T)
all_columns none none = none
all_columns none (some noop) = some (copy [] noop)
all_columns (some active) none = some (copy [] active)
all_columns (some active) (some noop) = some (copy (copy [] active) noop)

error_list : Option Str → List Str
error_list none = []
error_list (some e) = e ∷ []

module _ {T S : Type 0} (close : T → S → S × Option Str) where
  close_one : Option T → S → S × Option Str
  close_one none s = (s, none)
  close_one (some x) s = close x s

  close_columns : ColumnTransformers T → S → S × List Str
  unfolding close_one error_list
  close_columns [] s = (s, [])
  close_columns ((col, x) ∷ cs) s =
      let (s', error) = close_one x s in
      let (s'', errors) = close_columns cs s' in (s'', error_list error ++ errors)

  close_tables : List (Str × ColumnTransformers T) → S → S × List Str
  close_tables [] s = (s, [])
  close_tables ((key, cs) ∷ tables) s =
      let (s', errors) = close_columns cs s in
      let (s'', more) = close_tables tables s' in (s'', errors ++ more)

  -- Close, with the errors that it joins; it calls Close of every active transformer.
  unfoldable pub close_map : TransformerMap T → S → S × List Str
  unfolding close_tables close_columns
  close_map m s = close_tables m.active s

module _ (pq_quote : Str → Str) where
  -- schemaTableKey
  unfoldable pub schema_table_key : Str → Str → Str
  schema_table_key schema table = quote_qualified_identifier pq_quote schema table

module _ (pq_quote : Str → Str) {T : Type 0} where
  unfoldable pub add_active_transformer : Str → Str → Str → T → TransformerMap T → TransformerMap T
  unfolding put
  add_active_transformer schema table column t m =
      let key = schema_table_key pq_quote schema table in
      record m { active = put key column (some t) m.active }

  unfoldable pub add_noop_transformer : Str → Str → Str → TransformerMap T → TransformerMap T
  unfolding put
  add_noop_transformer schema table column m =
      let key = schema_table_key pq_quote schema table in
      record m { noop = put key column none m.noop }

  unfoldable pub get_active_column_transformers :
      TransformerMap T → Str → Str → Option (ColumnTransformers T)
  get_active_column_transformers m schema table =
      lookup (schema_table_key pq_quote schema table) m.active

  unfoldable pub get_all_column_transformers :
      TransformerMap T → Str → Str → Option (ColumnTransformers T)
  unfolding all_columns
  get_all_column_transformers m schema table =
      let key = schema_table_key pq_quote schema table in
      all_columns (lookup key m.active) (lookup key m.noop)
