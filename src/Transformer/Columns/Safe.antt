-- ===== src/Transformer/Columns/Safe.antt =====
-- pkg/wal/processor/transformer/wal_transformer.go: what becomes of each column of an event.
use pgstream.Prelude.{
  ◌≡◌, refl, sym, ap, ◌∙◌, ◌⊎◌, inl, inr, true, false, Option, none, some, List, [], ◌∷◌, ◌++◌, Str,
  str_eq, append_assoc, append-nil, Bool-cases,
}
use mathlib.Core.Path.{subst}
use pgstream.Prelude.Maps.{lookup, insert, lookup-insert}
use pgstream.Wal.{Value, Column, Data}
use pgstream.Transformer.Map.{ColumnTransformers, TransformerMap, get_active_column_transformers}
use pgstream.Transformer.Columns.{
  Transforms, get_dynamic_column_values, is_null, value_or_null, with_value, dynamic_values,
  transformed, run_transformer, transform_column, transform_columns, with_columns, transformed_by,
  transform_data,
}

-- Two lists of one length, related place by place.
abbrev pub Pairs : {A B : Type 0} → (A → B → Type 0) → List A → List B → Type 0
Pairs R [] [] = Unit
Pairs R [] (b ∷ bs) = ⊥
Pairs R (a ∷ as') [] = ⊥
Pairs R (a ∷ as') (b ∷ bs) = R a b × Pairs R as' bs

own_column-none :
    (name : Str) (cols : List Column) (values : List (Str × Value))
    → lookup name values ≡ none
    → lookup name (get_dynamic_column_values name cols values) ≡ none
unfolding get_dynamic_column_values
own_column-none name [] values h = h
own_column-none name (c ∷ cs) values h = elim (Bool-cases (str_eq c.name name)) [
  | inl e ↦ rw e (own_column-none name cs values h)
  | inr e ↦ rw e (
      own_column-none name cs (insert c.name c.value values)
        (lookup-insert c.name name c.value values ∙ rw e h))
]

module _ {T S : Type 0} (tr : Transforms T S) where
  -- The value that a transformer gives for a column, in some state and with some dynamic values, which only a
  -- dynamic one gets and of which its own column is none.
  pub record Given (x : T) (c : Column) (v : Value) : Type 0 where
    pub state : S
    pub dynamic : Option (List (Str × Value))
    pub result : v ≡ value_or_null (tr.transform x c.value c.type dynamic state).1
    pub static : tr.is_dynamic x ≡ false → dynamic ≡ none
    pub other_columns :
        (values : List (Str × Value)) → dynamic ≡ some values → lookup c.name values ≡ none

  -- A column before and after.
  pub record Transformed (m : ColumnTransformers T) (c c' : Column) : Type 0 where
    pub only_value : c' ≡ record c { value = c'.value }
    pub kept :
        is_null c.value ≡ true ⊎ (lookup c.name m ≡ none ⊎ lookup c.name m ≡ some none) → c' ≡ c
    pub given :
        (x : T) → is_null c.value ≡ false → lookup c.name m ≡ some (some x) → Given x c c'.value

  -- A column that stays as it is, since it is null or has no transformer.
  Transformed-kept :
      (m : ColumnTransformers T) (c : Column)
      → ((x : T) → is_null c.value ≡ false → lookup c.name m ≡ some (some x) → ⊥)
      → Transformed m c c
  unfolding with_value
  Transformed-kept m c h = record {
    only_value = refl;
    kept = λ r. refl;
    given = λ x v e. absurd (h x v e);
  }

  dynamic-own :
      (c : Column) (cols : List Column) (x : T) (values : List (Str × Value))
      → dynamic_values tr x c.name cols ≡ some values
      → lookup c.name values ≡ none
  unfolding dynamic_values lookup
  dynamic-own c cols x values e = elim (Bool-cases (tr.is_dynamic x)) [
    | inl d ↦
        let same : get_dynamic_column_values c.name cols [] ≡ values = cc (rw d at e) in
        rw (← same) (own_column-none c.name cols [] refl)
    | inr d ↦ let bad : none ≡ some values = (rw d at e) in absurd (cc)
  ]

  Given-run :
      (c : Column) (cols : List Column) (x : T) (s : S)
      → Given x c
          (transformed tr c
            (tr.transform x c.value c.type (dynamic_values tr x c.name cols) s)).1.value
  unfolding dynamic_values transformed with_value
  Given-run c cols x s = record {
    state = s;
    dynamic = dynamic_values tr x c.name cols;
    result = refl;
    static = λ e. rw e refl;
    other_columns = λ values e. dynamic-own c cols x values e;
  }

  transform_column-Transformed :
      (m : ColumnTransformers T) (c : Column) (cols : List Column) (s : S) (o : Option (Option T))
      → lookup c.name m ≡ o
      → Transformed m c (transform_column tr c cols o s).1
  unfolding transform_column run_transformer
  transform_column-Transformed m c cols s o e = elim (Bool-cases (is_null c.value)) [
    | inl null ↦ rw null (Transformed-kept m c (λ x v f. cc))
    | inr v ↦ rw v (
        elim o as (λ o. lookup c.name m ≡ o → Transformed m c (run_transformer tr c cols o s).1) [
          | none ↦ λ e. Transformed-kept m c (λ x v f. cc)
          | some t ↦
              elim t
                as (λ t.
                  lookup c.name m ≡ some t
                  → Transformed m c (run_transformer tr c cols (some t) s).1) [
                    | none ↦ λ e. Transformed-kept m c (λ x v f. cc)
                    | some x ↦ λ e. record {
                      only_value = refl;
                      kept = λ h. absurd (elim h [
                        | inl n ↦ cc
                        | inr none_found ↦ elim none_found [ inl n ↦ cc | inr n ↦ cc ]
                      ]);
                      given = λ y n f.
                          let same : x ≡ y = cc in
                          subst
                            (λ z.
                              Given z c
                                (transformed tr c (
                                  tr.transform x c.value c.type (dynamic_values tr x c.name cols)
                                    s)).1.value)
                            same (Given-run c cols x s);
                    }
                  ]
        ]
          e)
  ]

  transform_columns-Pairs :
      (m : ColumnTransformers T) (done cols : List Column) (s : S)
      → (out : List Column) × ((transform_columns tr m done cols s).1 ≡ done ++ out)
        × Pairs (Transformed m) cols out
  unfolding transform_columns
  transform_columns-Pairs m done [] s = ([], sym (append-nil done), tt)
  transform_columns-Pairs m done (c ∷ cs) s =
      let next = transform_column tr c (done ++ c ∷ cs) (lookup c.name m) s in
      let (out, e, ps) = transform_columns-Pairs m (done ++ next.1 ∷ []) cs next.0 in
      (
        next.1 ∷ out,
        e ∙ append_assoc done (next.1 ∷ []) out,
        (transform_column-Transformed m c (done ++ c ∷ cs) s (lookup c.name m) refl, ps),
      )

  all_kept : (cols : List Column) → Pairs (Transformed []) cols cols
  unfolding lookup
  all_kept [] = tt
  all_kept (c ∷ cs) = (Transformed-kept [] c (λ x v f. cc), all_kept cs)

  -- The data of an event of a table that has transformers.
  pub transform_data-Safe :
      (pq_quote : Str → Str) (tm : TransformerMap T) (m : ColumnTransformers T) (d : Data) (s : S)
      → get_active_column_transformers pq_quote tm d.schema d.table ≡ some m
      → (out : List Column) × ((transform_data tr pq_quote tm d s).1 ≡ record d { columns = out })
        × Pairs (Transformed m) d.columns out
  unfolding transform_data transformed_by with_columns
  transform_data-Safe pq_quote tm [] d s e = (d.columns, rw e refl, all_kept d.columns)
  transform_data-Safe pq_quote tm (k ∷ m) d s e =
      let (out, h, ps) = transform_columns-Pairs (k ∷ m) [] d.columns s in
      (out, rw e (ap (λ (cols : List Column). record d { columns = cols }) h), ps)
