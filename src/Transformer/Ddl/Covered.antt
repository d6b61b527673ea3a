-- ===== src/Transformer/Ddl/Covered.antt =====
-- pkg/wal/processor/transformer/wal_transformer.go: which DDL events pass the validation.
use pgstream.Prelude.{
  ◌≡◌, refl, ◌⊎◌, ◌↔◌, inl, inr, true, false, Option, none, some, List, [], ◌∷◌, ◌++◌, Str, str_eq,
  is_empty, All, Bool-cases, Option-cases, arith,
}
use pgstream.Prelude.Maps.{lookup}
use pgstream.Wal.{Data}
use pgstream.Wal.Ddl.{
  DdlObject, DdlEvent, DdlResult, ok, get_table, get_table_object_by_name, is_ddl_event,
}
use pgstream.Wal.Diff.{ColumnDiff, TableDiff, SchemaDiff, schema_diff_is_empty}
use pgstream.Transformer.{relaxed}
use pgstream.Transformer.Map.{ColumnTransformers, get_all_column_transformers}
use pgstream.Transformer.Map.Laws.{is_some, has_table, has_column}
use pgstream.Transformer.Processor.{Transformer, get_table_validation_mode}
use pgstream.Transformer.Ddl.Demands.{
  Demand, table_demands, rename_demand, column_demand, column_demands, added_demand, change_demands,
  demands,
}
use pgstream.Transformer.Ddl.{
  TransformError, then_check, all_found, columns_found, names_of, has_rename, object_columns,
  validate_table_ddl, added_tables, renamed_table, added_columns, renamed_column, renamed_columns,
  changed_tables, validate_diff, validate_decoded, process_ddl_event,
}

module _ (P : Demand → Type 0) where
  All-append_iff : (xs ys : List Demand) → (All P xs × All P ys) ↔ All P (xs ++ ys)
  All-append_iff [] ys = (λ h. h.1, λ h. (tt, h))
  All-append_iff (x ∷ xs) ys =
      let rest = All-append_iff xs ys in
      (λ h. (h.0.0, rest.0 (h.0.1, h.1)), λ h. ((h.0, (rest.1 h.1).0), (rest.1 h.1).1))

  then_check_iff :
      (a b : Option TransformError) (xs ys : List Demand)
      → ((a ≡ none) ↔ All P xs)
      → ((b ≡ none) ↔ All P ys)
      → (then_check a b ≡ none) ↔ All P (xs ++ ys)
  then_check_iff none b xs ys p q =
      (λ h. (All-append_iff xs ys).0 (p.0 refl, q.0 h), λ h. q.1 ((All-append_iff xs ys).1 h).1)
  then_check_iff (some e) b xs ys p q =
      (λ h. cc, λ h. let bad = p.1 ((All-append_iff xs ys).1 h).0 in cc)

all_found_iff :
    {T : Type 0} (m : ColumnTransformers T) (cols : List Str)
    → (all_found m cols ≡ none) ↔ All (λ c. is_some (lookup c m) ≡ true) cols
unfolding all_found
all_found_iff m [] = (λ h. tt, λ h. refl)
all_found_iff m (c ∷ cs) =
    let rest = all_found_iff m cs in
    elim (Option-cases (lookup c m)) [
      | inl e ↦ rw (e, all_found) (λ h. cc, λ h. cc)
      | inr (t, e) ↦ rw (e, all_found) (λ h. (refl, rest.0 h), λ h. rest.1 h.1)
    ]

module _ (pq_quote : Str → Str) {T : Type 0} (t : Transformer T) (schema : Str) where
  -- The table is not validated, or has rules, each of its columns one.
  abbrev pub IsCovered : Demand → Type 0
  IsCovered d =
      (str_eq (get_table_validation_mode pq_quote t schema d.table) relaxed ≡ true)
      ⊎ (has_table pq_quote t.transformer_map schema d.table ≡ true)
        × All (λ c. has_column pq_quote t.transformer_map schema d.table c ≡ true) d.columns

  validate_table_ddl_iff :
      (table : Str) (cols : List Str)
      → (validate_table_ddl pq_quote t schema table cols ≡ none)
        ↔ IsCovered (record { table = table; columns = cols })
  unfolding validate_table_ddl columns_found has_table has_column
  validate_table_ddl_iff table cols =
      elim (Bool-cases (str_eq (get_table_validation_mode pq_quote t schema table) relaxed)) [
        | inl e ↦ rw e (λ h. inl refl, λ h. refl)
        | inr e ↦
            elim (Option-cases
              (get_all_column_transformers pq_quote t.transformer_map schema table)) [
                | inl n ↦ rw (e, n) (λ h. cc, λ h. elim h [ inl a ↦ cc | inr b ↦ cc ])
                | inr (m, f) ↦
                    rw (e, f)
                      (
                        λ h. inr (refl, (all_found_iff m cols).0 h),
                        λ h. elim h [ inl a ↦ cc | inr b ↦ (all_found_iff m cols).1 b.1 ],
                      )
              ]
      ]

  added_tables_iff :
      (objs : List DdlObject)
      → (added_tables pq_quote t schema objs ≡ none) ↔ All IsCovered (table_demands objs)
  unfolding added_tables table_demands
  added_tables_iff [] = (λ h. tt, λ h. refl)
  added_tables_iff (obj ∷ objs) =
      let one = validate_table_ddl_iff (get_table obj) (names_of obj.columns) in
      then_check_iff IsCovered _ _ (_ ∷ []) (table_demands objs)
        (λ h. (one.0 h, tt), λ h. one.1 h.0) (added_tables_iff objs)

  renamed_table_iff :
      (e : DdlEvent) (d : TableDiff) (r : Option (Str × Str))
      → (renamed_table pq_quote t schema e d r ≡ none) ↔ All IsCovered (rename_demand schema e d r)
  unfolding renamed_table rename_demand
  renamed_table_iff e d none = (λ h. tt, λ h. refl)
  renamed_table_iff e d (some (old, new)) =
      let one =
        validate_table_ddl_iff new
          (names_of (object_columns (get_table_object_by_name e schema d.table_name))) in
      (λ h. (one.0 h, tt), λ h. one.1 h.0)

  added_columns_iff :
      (d : TableDiff) → (added_columns pq_quote t schema d ≡ none) ↔ All IsCovered (added_demand d)
  unfolding added_columns added_demand
  added_columns_iff d = elim (Bool-cases (is_empty d.columns_added)) [
    | inl e ↦ rw e (λ h. tt, λ h. refl)
    | inr e ↦
        let one = validate_table_ddl_iff d.table_name (names_of d.columns_added) in
        rw e (λ h. (one.0 h, tt), λ h. one.1 h.0)
  ]

  renamed_column_iff :
      (table : Str) (r : Option (Str × Str))
      → (renamed_column pq_quote t schema table r ≡ none) ↔ All IsCovered (column_demand table r)
  unfolding renamed_column column_demand
  renamed_column_iff table none = (λ h. tt, λ h. refl)
  renamed_column_iff table (some (old, new)) =
      let one = validate_table_ddl_iff table (new ∷ []) in (λ h. (one.0 h, tt), λ h. one.1 h.0)

  renamed_columns_iff :
      (table : Str) (cs : List ColumnDiff)
      → (renamed_columns pq_quote t schema table cs ≡ none)
        ↔ All IsCovered (column_demands table cs)
  unfolding renamed_columns column_demands
  renamed_columns_iff table [] = (λ h. tt, λ h. refl)
  renamed_columns_iff table (c ∷ cs) =
      then_check_iff IsCovered _ _ (column_demand table c.name_change) (column_demands table cs)
        (renamed_column_iff table c.name_change) (renamed_columns_iff table cs)

  -- The checks of a changed table, without the test that passes over a table.
  change_checks : DdlEvent → TableDiff → Option TransformError → Option TransformError
  change_checks e d rest = then_check (renamed_table pq_quote t schema e d d.table_name_change) (
      then_check (added_columns pq_quote t schema d)
        (then_check (renamed_columns pq_quote t schema d.table_name d.columns_changed) rest))

  renamed_table-none :
      (e : DdlEvent) (d : TableDiff) (r : Option (Str × Str))
      → has_rename r ≡ false
      → renamed_table pq_quote t schema e d r ≡ none
  unfolding renamed_table has_rename
  renamed_table-none e d none h = refl
  renamed_table-none e d (some r) h = cc

  renamed_columns-none :
      (table : Str) (cs : List ColumnDiff)
      → is_empty cs ≡ true
      → renamed_columns pq_quote t schema table cs ≡ none
  unfolding renamed_columns
  renamed_columns-none table [] h = refl
  renamed_columns-none table (c ∷ cs) h = cc

  changed_tables-checks :
      (e : DdlEvent) (d : TableDiff) (ds : List TableDiff)
      → changed_tables pq_quote t schema e (d ∷ ds)
        ≡ change_checks e d (changed_tables pq_quote t schema e ds)
  unfolding changed_tables change_checks added_columns
  changed_tables-checks e d ds = ground (
    arith,
    renamed_table-none e d d.table_name_change,
    renamed_columns-none d.table_name d.columns_changed,
  )

  changed_tables_iff :
      (e : DdlEvent) (ds : List TableDiff)
      → (changed_tables pq_quote t schema e ds ≡ none) ↔ All IsCovered (change_demands schema e ds)
  unfolding change_demands changed_tables change_checks
  changed_tables_iff e [] = (λ h. tt, λ h. refl)
  changed_tables_iff e (d ∷ ds) = rw (changed_tables-checks e d ds) (
      then_check_iff IsCovered _ _ (rename_demand schema e d d.table_name_change) _
        (renamed_table_iff e d d.table_name_change)
        (then_check_iff IsCovered _ _ (added_demand d) _ (added_columns_iff d) (
          then_check_iff IsCovered _ _ (column_demands d.table_name d.columns_changed) _
            (renamed_columns_iff d.table_name d.columns_changed) (changed_tables_iff e ds))))

no_table_demands : (objs : List DdlObject) → is_empty objs ≡ true → table_demands objs ≡ []
unfolding table_demands
no_table_demands [] h = refl
no_table_demands (obj ∷ objs) h = cc

no_change_demands :
    (schema : Str) (e : DdlEvent) (ds : List TableDiff)
    → is_empty ds ≡ true
    → change_demands schema e ds ≡ []
unfolding change_demands
no_change_demands schema e [] h = refl
no_change_demands schema e (d ∷ ds) h = cc

empty-demands :
    (e : DdlEvent) (diff : SchemaDiff) → schema_diff_is_empty diff ≡ true → demands e diff ≡ []
unfolding demands schema_diff_is_empty
empty-demands e diff h = ground (
  arith,
  no_table_demands diff.tables_added,
  no_change_demands diff.schema_name e diff.tables_changed,
)

module _ (pq_quote : Str → Str) {T : Type 0} (t : Transformer T) where
  validate_diff_iff :
      (e : DdlEvent) (diff : SchemaDiff)
      → (validate_diff pq_quote t e diff ≡ none)
        ↔ All (IsCovered pq_quote t diff.schema_name) (demands e diff)
  unfolding validate_diff demands table_demands
  validate_diff_iff e diff = elim (Bool-cases (schema_diff_is_empty diff)) [
    | inl empty ↦ rw (empty, empty-demands e diff empty) (λ h. tt, λ h. refl)
    | inr some_diff ↦ rw some_diff (
        then_check_iff (IsCovered pq_quote t diff.schema_name) _ _ (table_demands diff.tables_added)
          (change_demands diff.schema_name e diff.tables_changed)
          (added_tables_iff pq_quote t diff.schema_name diff.tables_added)
          (changed_tables_iff pq_quote t diff.schema_name e diff.tables_changed))
  ]

  -- Whether a DDL event passes a transformer that validates.
  pub process_ddl_event_iff :
      (to_ddl : Data → DdlResult) (to_diff : DdlEvent → SchemaDiff) (d : Data) (e : DdlEvent)
      → is_ddl_event d ≡ true
      → str_eq t.validation_mode relaxed ≡ false
      → to_ddl d ≡ ok e
      → (process_ddl_event pq_quote t to_ddl to_diff d ≡ none)
        ↔ All (IsCovered pq_quote t (to_diff e).schema_name) (demands e (to_diff e))
  unfolding process_ddl_event validate_decoded
  process_ddl_event_iff to_ddl to_diff d e is mode decoded =
      rw (is, mode, decoded) (validate_diff_iff e (to_diff e))
