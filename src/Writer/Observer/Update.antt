-- ===== src/Writer/Observer/Update.antt =====
-- pkg/wal/processor/postgres/postgres_schema_observer.go: after a DDL event the observer answers for its tables
-- from the event.
use pgstream.Prelude.{
  ◌≡◌, refl, ap, ◌∙◌, inl, inr, Bool, true, false, Option, none, some, List, [], ◌∷◌, ◌++◌, Str,
  str_eq, is_empty, Bool-cases, Option-cases,
}
use pgstream.Prelude.Maps.{lookup, insert, lookup-insert}
use pgstream.Postgres.Identifier.{quote_identifier, quote_qualified_identifier}
use pgstream.Wal.Ddl.{
  DdlObject, DdlEvent, is_always_identity, is_generated, get_table_objects,
  get_table_column_objects, get_materialized_view_objects, is_drop_event,
}
use pgstream.Writer.Observer.{
  Catalog, Observer, get_generated_column_names, get_always_identity_column_names, columns_with,
  object_key, update_generated_column_names, sequences_of, update_column_sequences, views_after,
  set_views, update_materialized_views, then_views, update, query_generated_column_names,
  query_always_identity_column_names,
}
use pgstream.Writer.Observer.Cache.{get_cached-hit}

module _ (pq_quote : Str → Str) where
  or_later : Bool → DdlObject → Option DdlObject → Option DdlObject
  or_later here obj (some later) = some later
  or_later true obj none = some obj
  or_later false obj none = none

  -- The last of the objects with this key.
  unfoldable pub latest : Str → List DdlObject → Option DdlObject
  unfolding or_later
  latest key [] = none
  latest key (obj ∷ objs) = or_later (str_eq (object_key pq_quote obj) key) obj (latest key objs)

  from_latest : {V : Type 0} → (DdlObject → V) → Option V → Option DdlObject → Option V
  from_latest f before none = before
  from_latest f before (some obj) = some (f obj)

  from_latest-step :
      {V : Type 0} (f : DdlObject → V) (key : Str) (obj : DdlObject) (cache : List (Str × V))
      (later : Option DdlObject)
      → from_latest f (lookup key (insert (object_key pq_quote obj) (f obj) cache)) later
        ≡ from_latest f
            (lookup key cache)
            (or_later (str_eq (object_key pq_quote obj) key) obj later)
  unfolding from_latest or_later
  from_latest-step f key obj cache (some later) = refl
  from_latest-step f key obj cache none =
      let found = lookup-insert (object_key pq_quote obj) key (f obj) cache in
      elim (Bool-cases (str_eq (object_key pq_quote obj) key)) [
        | inl e ↦ rw (e, or_later) (found ∙ rw e refl)
        | inr e ↦ rw (e, or_later) (found ∙ rw e refl)
      ]

  generated-latest :
      (key : Str) (objs : List DdlObject) (o : Observer)
      → lookup key (update_generated_column_names pq_quote objs o).generated_table_columns
        ≡ from_latest
            (λ obj. columns_with pq_quote is_generated obj.columns)
            (lookup key o.generated_table_columns)
            (latest key objs)
  unfolding update_generated_column_names latest from_latest
  generated-latest key [] o = refl
  generated-latest key (obj ∷ objs) o =
      generated-latest key objs (record o {
        generated_table_columns =
            insert (object_key pq_quote obj) (columns_with pq_quote is_generated obj.columns)
              o.generated_table_columns;
        always_identity_table_columns =
            insert (object_key pq_quote obj) (columns_with pq_quote is_always_identity obj.columns)
              o.always_identity_table_columns;
      })
      ∙ from_latest-step (λ x. columns_with pq_quote is_generated x.columns) key obj
          o.generated_table_columns (latest key objs)

  always-latest :
      (key : Str) (objs : List DdlObject) (o : Observer)
      → lookup key (update_generated_column_names pq_quote objs o).always_identity_table_columns
        ≡ from_latest
            (λ obj. columns_with pq_quote is_always_identity obj.columns)
            (lookup key o.always_identity_table_columns)
            (latest key objs)
  unfolding update_generated_column_names latest from_latest
  always-latest key [] o = refl
  always-latest key (obj ∷ objs) o =
      always-latest key objs (record o {
        generated_table_columns =
            insert (object_key pq_quote obj) (columns_with pq_quote is_generated obj.columns)
              o.generated_table_columns;
        always_identity_table_columns =
            insert (object_key pq_quote obj) (columns_with pq_quote is_always_identity obj.columns)
              o.always_identity_table_columns;
      })
      ∙ from_latest-step (λ x. columns_with pq_quote is_always_identity x.columns) key obj
          o.always_identity_table_columns (latest key objs)

  -- What an update of the sequences leaves alone.
  record SameColumns (o o' : Observer) : Type 0 where
    generated : o'.generated_table_columns ≡ o.generated_table_columns
    always : o'.always_identity_table_columns ≡ o.always_identity_table_columns

  sequences-SameColumns :
      (objs : List DdlObject) (o o' : Observer)
      → update_column_sequences pq_quote objs o ≡ some o'
      → SameColumns o o'
  unfolding update_column_sequences
  sequences-SameColumns [] o o' e =
      let same : o' ≡ o = cc in rw same (record { generated = refl; always = refl })
  sequences-SameColumns (obj ∷ objs) o o' e =
      elim (Option-cases (sequences_of pq_quote [] obj.columns)) [
        | inl q ↦
            let bad : ◌≡◌ {A = Option Observer} none (some o') =
              (rw (q, update_column_sequences) at e) in
            absurd (cc)
        | inr (m, q) ↦
            let next = record o {
              column_table_sequences = insert (object_key pq_quote obj) m o.column_table_sequences;
            } in
            let r = sequences-SameColumns objs next o' (rw (q, update_column_sequences) at e) in
            record { generated = r.generated; always = r.always }
      ]

  set_views-SameColumns :
      (key : Str) (names : Option (List Str)) (o : Observer)
      → SameColumns o (set_views pq_quote key names o)
  unfolding set_views
  set_views-SameColumns key none o = record { generated = refl; always = refl }
  set_views-SameColumns key (some names) o = record { generated = refl; always = refl }

  then_views-SameColumns :
      (e : DdlEvent) (before : Option Observer) (o' : Observer)
      → then_views pq_quote e before ≡ some o'
      → (o : Observer) × (before ≡ some o) × SameColumns o o'
  unfolding then_views update_materialized_views
  then_views-SameColumns e none o' h = absurd (cc)
  then_views-SameColumns e (some o) o' h =
      elim (Bool-cases (is_empty (get_materialized_view_objects e))) [
        | inl q ↦
            let same : ◌≡◌ {A = Option Observer} (some o) (some o') = (rw (q, then_views) at h) in
            let eq : o' ≡ o = cc in (o, refl, rw eq (record { generated = refl; always = refl }))
        | inr q ↦
            let key = quote_identifier pq_quote e.schema_name in
            let names =
              views_after pq_quote (is_drop_event e) (get_materialized_view_objects e)
                (lookup key o.materialized_views) in
            let same : ◌≡◌ {A = Option Observer} (some (set_views pq_quote key names o)) (some o') =
              (rw (q, then_views) at h) in
            let eq : o' ≡ set_views pq_quote key names o = cc in
            (o, refl, rw eq (set_views-SameColumns key names o))
      ]

  -- The caches hold the columns of the last object of each table.
  pub record Held (o : Observer) (key : Str) (obj : DdlObject) : Type 0 where
    pub generated :
        lookup key o.generated_table_columns ≡ some (columns_with pq_quote is_generated obj.columns)
    pub always :
        lookup key o.always_identity_table_columns
        ≡ some (columns_with pq_quote is_always_identity obj.columns)

  found :
      (f : DdlObject → List Str) (before : Option (List Str)) (obj : DdlObject)
      (later : Option DdlObject)
      → later ≡ some obj
      → from_latest f before later ≡ some (f obj)
  unfolding from_latest
  found f before obj none e = absurd (cc)
  found f before obj (some x) e = let same : x ≡ obj = cc in ap (λ y. some (f y)) same

  pub update-Held :
      (e : DdlEvent) (o o' : Observer) (key : Str) (obj : DdlObject)
      → update pq_quote e o ≡ some o'
      → latest key (get_table_objects e ++ get_table_column_objects e) ≡ some obj
      → Held o' key obj
  unfolding update
  update-Held e o o' key obj h l =
      let objs = get_table_objects e ++ get_table_column_objects e in
      let first = update_generated_column_names pq_quote objs o in
      let (second, sequences, same) =
        then_views-SameColumns e (update_column_sequences pq_quote objs first) o' h in
      let kept = sequences-SameColumns objs first second sequences in
      record {
        generated =
            ap (lookup key) (same.generated ∙ kept.generated)
            ∙ generated-latest key objs o
            ∙ found (λ x. columns_with pq_quote is_generated x.columns)
                (lookup key o.generated_table_columns) obj (latest key objs) l;
        always =
            ap (lookup key) (same.always ∙ kept.always)
            ∙ always-latest key objs o
            ∙ found (λ x. columns_with pq_quote is_always_identity x.columns)
                (lookup key o.always_identity_table_columns) obj (latest key objs) l;
      }

  pub generated-hit :
      (catalog : Catalog) (o : Observer) (schema table : Str) (obj : DdlObject)
      → Held o (quote_qualified_identifier pq_quote schema table) obj
      → get_generated_column_names pq_quote catalog schema table o
        ≡ (o, some (columns_with pq_quote is_generated obj.columns))
  unfolding get_generated_column_names
  generated-hit catalog o schema table obj held =
      ap (λ r. (record o { generated_table_columns = r.0 }, r.1))
        (get_cached-hit (quote_qualified_identifier pq_quote schema table) o.generated_table_columns
          (query_generated_column_names pq_quote catalog schema table)
          (columns_with pq_quote is_generated obj.columns) held.generated)

  pub always-hit :
      (catalog : Catalog) (o : Observer) (schema table : Str) (obj : DdlObject)
      → Held o (quote_qualified_identifier pq_quote schema table) obj
      → get_always_identity_column_names pq_quote catalog schema table o
        ≡ (o, some (columns_with pq_quote is_always_identity obj.columns))
  unfolding get_always_identity_column_names
  always-hit catalog o schema table obj held =
      ap (λ r. (record o { always_identity_table_columns = r.0 }, r.1))
        (get_cached-hit (quote_qualified_identifier pq_quote schema table)
          o.always_identity_table_columns
          (query_always_identity_column_names pq_quote catalog schema table)
          (columns_with pq_quote is_always_identity obj.columns) held.always)

  -- A DDL event after whose update the observer has not panicked: for every table of the event's objects, the
  -- observer answers without a query, by the columns of the last object of that table.
  pub update-Answers :
      (catalog : Catalog) (e : DdlEvent) (o o' : Observer) (schema table : Str) (obj : DdlObject)
      → update pq_quote e o ≡ some o'
      → latest
          (quote_qualified_identifier pq_quote schema table)
          (get_table_objects e ++ get_table_column_objects e)
        ≡ some obj
      → (get_generated_column_names pq_quote catalog schema table o'
          ≡ (o', some (columns_with pq_quote is_generated obj.columns)))
        × (get_always_identity_column_names pq_quote catalog schema table o'
            ≡ (o', some (columns_with pq_quote is_always_identity obj.columns)))
  update-Answers catalog e o o' schema table obj h l =
      let held = update-Held e o o' (quote_qualified_identifier pq_quote schema table) obj h l in
      (generated-hit catalog o' schema table obj held, always-hit catalog o' schema table obj held)
