-- ===== src/Writer/Observer/Views.antt =====
-- pkg/wal/processor/postgres/postgres_schema_observer.go: the materialized views after a DDL event.
use pgstream.Prelude.{
  ◌≡◌, refl, ap, ◌∙◌, inl, inr, Bool, false, not, ◌&&◌, ◌||◌, some, List, [], ◌∷◌, Str, str_eq,
  str_eq_iff, str_eq_refl, contains, Bool-cases, arith, if◌then◌else◌,
}
use pgstream.Prelude.Maps.{lookup, insert, set_insert, lookup-insert, contains-set_insert}
use pgstream.Postgres.Identifier.{quote_identifier}
use pgstream.Wal.Ddl.{DdlObject, DdlEvent, get_name, is_drop_event}
use pgstream.Writer.Observer.{
  Catalog, Observer, in_set, without, remove_views, add_views, views_after, set_views,
  update_materialized_views, is_materialized_view, query_materialized_views,
}
use pgstream.Writer.Observer.Cache.{get_cached-hit}

contains-without :
    (name : Str) (names : List Str) (other : Str)
    → contains (without name names) other ≡ (contains names other && not (str_eq name other))
unfolding contains without
contains-without name [] other = refl
contains-without name (n ∷ names) other = ground (
  arith,
  contains-without name names other,
  str_eq_iff n name,
  str_eq_iff n other,
  str_eq_iff name other,
)

module _ (pq_quote : Str → Str) where
  -- One of the objects has the quoted name.
  unfoldable pub named : List DdlObject → Str → Bool
  named [] name = false
  named (mv ∷ mvs) name = str_eq (quote_identifier pq_quote (get_name mv)) name || named mvs name

  contains-add_views :
      (mvs : List DdlObject) (names : List Str) (name : Str)
      → contains (add_views pq_quote mvs names) name ≡ (contains names name || named mvs name)
  unfolding add_views named
  contains-add_views [] names name = ground arith
  contains-add_views (mv ∷ mvs) names name =
      let mv_name = quote_identifier pq_quote (get_name mv) in
      ground (
        arith,
        contains-add_views mvs (set_insert mv_name names) name,
        contains-set_insert mv_name name names,
      )

  contains-remove_views :
      (mvs : List DdlObject) (names : List Str) (name : Str)
      → contains (remove_views pq_quote mvs names) name
        ≡ (contains names name && not (named mvs name))
  unfolding remove_views named
  contains-remove_views [] names name = ground arith
  contains-remove_views (mv ∷ mvs) names name =
      let mv_name = quote_identifier pq_quote (get_name mv) in
      ground (
        arith,
        contains-remove_views mvs (without mv_name names) name,
        contains-without mv_name names name,
      )

  answers :
      (catalog : Catalog) (schema table : Str) (names : List Str) (o : Observer)
      → lookup (quote_identifier pq_quote schema) o.materialized_views ≡ some names
      → (is_materialized_view pq_quote catalog schema table o).1
        ≡ contains names (quote_identifier pq_quote table)
  unfolding is_materialized_view in_set
  answers catalog schema table names o e =
      ap (λ r. in_set (quote_identifier pq_quote table) r.1)
        (get_cached-hit (quote_identifier pq_quote schema) o.materialized_views
          (query_materialized_views pq_quote catalog schema) names e)

  -- With the views of a schema in the cache: after the event, a table is a materialized view if it was one and
  -- the event does not drop it, or if the event, no drop, names it.
  pub update_materialized_views-Answers :
      (catalog : Catalog) (e : DdlEvent) (mvs : List DdlObject) (o : Observer) (existing : List Str)
      (table : Str)
      → lookup (quote_identifier pq_quote e.schema_name) o.materialized_views ≡ some existing
      → let name = quote_identifier pq_quote table in
        (is_materialized_view pq_quote catalog e.schema_name table
          (update_materialized_views pq_quote e mvs o)).1
        ≡ (if is_drop_event e
            then contains existing name && not (named mvs name)
            else contains existing name || named mvs name)
  unfolding update_materialized_views views_after set_views
  update_materialized_views-Answers catalog e mvs o existing table h =
      let key = quote_identifier pq_quote e.schema_name in
      let name = quote_identifier pq_quote table in
      elim (Bool-cases (is_drop_event e)) [
        | inl d ↦
            let names = remove_views pq_quote mvs existing in
            let held =
              lookup-insert key key names o.materialized_views ∙ rw (str_eq_refl key) refl in
            let o' = record o { materialized_views = insert key names o.materialized_views } in
            rw (d, h, views_after, set_views)
              (answers catalog e.schema_name table names o' held
                ∙ contains-remove_views mvs existing name)
        | inr d ↦
            let names = add_views pq_quote mvs existing in
            let held =
              lookup-insert key key names o.materialized_views ∙ rw (str_eq_refl key) refl in
            let o' = record o { materialized_views = insert key names o.materialized_views } in
            rw (d, h, views_after, set_views)
              (answers catalog e.schema_name table names o' held
                ∙ contains-add_views mvs existing name)
      ]
