-- ===== src/Transformer/Columns.antt =====
-- pkg/wal/processor/transformer/wal_transformer.go: the transformation of an event's columns. Transform may draw
-- random values or query a database, so it has the state S; `none` is its error. The columns are changed in place,
-- so the loop reads those before the current one with their new values. Logging is left out.
pub mod Safe
use pgstream.Prelude.{
  Bool, true, false, Option, none, some, List, [], ◌∷◌, ◌++◌, Str, str_eq, is_empty, if◌then◌else◌,
}
use pgstream.Prelude.Maps.{lookup, insert}
use pgstream.Wal.{Value, null, Column, Data}
use pgstream.Transformer.Map.{ColumnTransformers, TransformerMap, get_active_column_transformers}

-- The interface of a column transformer. No dynamic values are a nil map.
pub record Transforms (T S : Type 0) : Type 0 where
  pub is_dynamic : T → Bool
  pub transform : T → Value → Str → Option (List (Str × Value)) → S → S × Option Value

unfoldable pub get_dynamic_column_values :
    Str → List Column → List (Str × Value) → List (Str × Value)
get_dynamic_column_values exclude [] values = values
get_dynamic_column_values exclude (c ∷ cs) values =
    get_dynamic_column_values exclude cs
      (if str_eq c.name exclude then values else insert c.name c.value values)

-- v == nil
unfoldable pub is_null : Value → Bool
is_null null = true
is_null v = false

unfoldable pub value_or_null : Option Value → Value
value_or_null none = null
value_or_null (some v) = v

with_value : Column → Value → Column
with_value c v = record c { value = v }

module _ {T S : Type 0} (tr : Transforms T S) where
  dynamic_values : T → Str → List Column → Option (List (Str × Value))
  dynamic_values x name cols =
      if tr.is_dynamic x then some (get_dynamic_column_values name cols []) else none

  transformed : Column → S × Option Value → S × Column
  unfolding value_or_null with_value
  transformed c (s, v) = (s, with_value c (value_or_null v))

  run_transformer : Column → List Column → Option (Option T) → S → S × Column
  unfolding dynamic_values transformed
  run_transformer c cols none s = (s, c)
  run_transformer c cols (some none) s = (s, c)
  run_transformer c cols (some (some x)) s =
      transformed c (tr.transform x c.value c.type (dynamic_values x c.name cols) s)

  -- One column, with its transformer and all columns of the event.
  unfoldable pub transform_column : Column → List Column → Option (Option T) → S → S × Column
  unfolding run_transformer
  transform_column c cols t s = if is_null c.value then (s, c) else run_transformer c cols t s

  -- The loop, with the columns that it has passed.
  unfoldable pub transform_columns :
      ColumnTransformers T → List Column → List Column → S → S × List Column
  transform_columns m done [] s = (s, done)
  transform_columns m done (c ∷ cs) s =
      let (s', c') = transform_column c (done ++ c ∷ cs) (lookup c.name m) s in
      transform_columns m (done ++ c' ∷ []) cs s'

  with_columns : Data → S × List Column → S × Data
  with_columns d (s, cols) = (s, record d { columns = cols })

  transformed_by : Option (ColumnTransformers T) → Data → S → S × Data
  unfolding with_columns
  transformed_by none d s = (s, d)
  transformed_by (some m) d s =
      if is_empty m then (s, d) else with_columns d (transform_columns m [] d.columns s)

  -- applyTransformations of data that is not a DDL event.
  unfoldable pub transform_data : (Str → Str) → TransformerMap T → Data → S → S × Data
  unfolding transformed_by
  transform_data pq_quote m d s =
      transformed_by (get_active_column_transformers pq_quote m d.schema d.table) d s
