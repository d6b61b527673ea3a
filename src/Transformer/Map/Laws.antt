-- ===== src/Transformer/Map/Laws.antt =====
-- pkg/wal/processor/transformer/wal_transformer_map.go: which columns a map holds.
use pgstream.Prelude.{
  ◌≡◌, refl, ◌∙◌, inl, inr, Bool, true, false, ◌&&◌, ◌||◌, Option, none, some, List, [], ◌∷◌, Str,
  str_eq, str_eq_iff, Bool-cases, arith,
}
use pgstream.Prelude.Maps.{lookup, insert, lookup-insert}
use pgstream.Transformer.Map.{
  ColumnTransformers, TransformerMap, copy, columns_of, put, all_columns, schema_table_key,
  add_active_transformer, add_noop_transformer, get_all_column_transformers,
}

abbrev pub is_some {ℓ} : {A : Type ℓ} → Option A → Bool
is_some none = false
is_some (some a) = true

-- A table's map has a column, if there is a map.
abbrev pub column_found : {T : Type 0} → Option (ColumnTransformers T) → Str → Bool
column_found none c = false
column_found (some m) c = is_some (lookup c m)

is_some-insert :
    {T : Type 0} (k c : Str) (v : T) (m : List (Str × T))
    → is_some (lookup c (insert k v m)) ≡ (str_eq k c || is_some (lookup c m))
is_some-insert k c v m = ground (arith, lookup-insert k c v m)

is_some-copy :
    {T : Type 0} (to from : ColumnTransformers T) (c : Str)
    → is_some (lookup c (copy to from)) ≡ (is_some (lookup c from) || is_some (lookup c to))
unfolding copy lookup
is_some-copy to [] c = refl
is_some-copy to ((k, v) ∷ from) c =
    ground (arith, is_some-copy (insert k v to) from c, is_some-insert k c v to)

column_found-of :
    {T : Type 0} (o : Option (ColumnTransformers T)) (c : Str)
    → is_some (lookup c (columns_of o)) ≡ column_found o c
unfolding columns_of lookup
column_found-of none c = refl
column_found-of (some m) c = refl

column_found-put :
    {T : Type 0} (key column : Str) (t : Option T) (m : List (Str × ColumnTransformers T))
    (key' c : Str)
    → column_found (lookup key' (put key column t m)) c
      ≡ (str_eq key key' && str_eq column c || column_found (lookup key' m) c)
unfolding put
column_found-put key column t m key' c = elim (Bool-cases (str_eq key key')) [
  | inl e ↦
      let same : key ≡ key' = (str_eq_iff key key').0 e in
      rw (lookup-insert key key' (insert column t (columns_of (lookup key m))) m, e)
        (is_some-insert column c t (columns_of (lookup key m))
          ∙ rw (column_found-of (lookup key m) c, same) refl)
  | inr e ↦ rw (lookup-insert key key' (insert column t (columns_of (lookup key m))) m, e) refl
]

column_found-all :
    {T : Type 0} (active noop : Option (ColumnTransformers T)) (c : Str)
    → column_found (all_columns active noop) c ≡ (column_found active c || column_found noop c)
unfolding all_columns lookup
column_found-all none none c = refl
column_found-all none (some b) c = ground (arith, is_some-copy [] b c)
column_found-all (some a) none c = ground (arith, is_some-copy [] a c)
column_found-all (some a) (some b) c =
    ground (arith, is_some-copy (copy [] a) b c, is_some-copy [] a c)

is_some-all :
    {T : Type 0} (active noop : Option (ColumnTransformers T))
    → is_some (all_columns active noop) ≡ (is_some active || is_some noop)
unfolding all_columns
is_some-all none none = refl
is_some-all none (some b) = refl
is_some-all (some a) none = refl
is_some-all (some a) (some b) = refl

module _ (pq_quote : Str → Str) {T : Type 0} where
  -- Whether a map has a table, and a column of a table, whatever its transformer.
  unfoldable pub has_table : TransformerMap T → Str → Str → Bool
  has_table m schema table = is_some (get_all_column_transformers pq_quote m schema table)

  unfoldable pub has_column : TransformerMap T → Str → Str → Str → Bool
  has_column m schema table c = column_found (get_all_column_transformers pq_quote m schema table) c

  pub has_column-add_active :
      (s t col : Str) (x : T) (m : TransformerMap T) (s' t' c : Str)
      → has_column (add_active_transformer pq_quote s t col x m) s' t' c ≡ (
          str_eq (schema_table_key pq_quote s t) (schema_table_key pq_quote s' t') && str_eq col c
          || has_column m s' t' c)
  unfolding has_column get_all_column_transformers add_active_transformer
  has_column-add_active s t col x m s' t' c =
      let key = schema_table_key pq_quote s t in
      let key' = schema_table_key pq_quote s' t' in
      ground (
        arith,
        column_found-all (lookup key' (put key col (some x) m.active)) (lookup key' m.noop) c,
        column_found-all (lookup key' m.active) (lookup key' m.noop) c,
        column_found-put key col (some x) m.active key' c,
      )

  pub has_column-add_noop :
      (s t col : Str) (m : TransformerMap T) (s' t' c : Str)
      → has_column (add_noop_transformer pq_quote s t col m) s' t' c ≡ (
          str_eq (schema_table_key pq_quote s t) (schema_table_key pq_quote s' t') && str_eq col c
          || has_column m s' t' c)
  unfolding has_column get_all_column_transformers add_noop_transformer
  has_column-add_noop s t col m s' t' c =
      let key = schema_table_key pq_quote s t in
      let key' = schema_table_key pq_quote s' t' in
      ground (
        arith,
        column_found-all (lookup key' m.active) (lookup key' (put key col none m.noop)) c,
        column_found-all (lookup key' m.active) (lookup key' m.noop) c,
        column_found-put key col none m.noop key' c,
      )

  pub has_table-add_active :
      (s t col : Str) (x : T) (m : TransformerMap T) (s' t' : Str)
      → has_table (add_active_transformer pq_quote s t col x m) s' t' ≡ (
          str_eq (schema_table_key pq_quote s t) (schema_table_key pq_quote s' t')
          || has_table m s' t')
  unfolding has_table get_all_column_transformers add_active_transformer put
  has_table-add_active s t col x m s' t' =
      let key = schema_table_key pq_quote s t in
      let key' = schema_table_key pq_quote s' t' in
      let cols = insert col (some x) (columns_of (lookup key m.active)) in
      ground (
        arith,
        is_some-all (lookup key' (insert key cols m.active)) (lookup key' m.noop),
        is_some-all (lookup key' m.active) (lookup key' m.noop),
        is_some-insert key key' cols m.active,
      )

  pub has_table-add_noop :
      (s t col : Str) (m : TransformerMap T) (s' t' : Str)
      → has_table (add_noop_transformer pq_quote s t col m) s' t' ≡ (
          str_eq (schema_table_key pq_quote s t) (schema_table_key pq_quote s' t')
          || has_table m s' t')
  unfolding has_table get_all_column_transformers add_noop_transformer put
  has_table-add_noop s t col m s' t' =
      let key = schema_table_key pq_quote s t in
      let key' = schema_table_key pq_quote s' t' in
      let cols : ColumnTransformers T = insert col none (columns_of (lookup key m.noop)) in
      ground (
        arith,
        is_some-all (lookup key' m.active) (lookup key' (insert key cols m.noop)),
        is_some-all (lookup key' m.active) (lookup key' m.noop),
        is_some-insert key key' cols m.noop,
      )
