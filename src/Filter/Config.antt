-- ===== src/Filter/Config.antt =====
-- pkg/wal/processor/filter/wal_filter.go: the filter forwards what its configuration asks for.
use pgstream.Prelude.{
  ◌≡◌, refl, ap, ◌∙◌, inl, inr, Bool, true, false, not, ◌||◌, Option, none, some, List, [], ◌∷◌,
  ◌++◌, Str, is_empty, keep, arith, Bool-cases, if◌then◌else◌,
}
use pgstream.TableMap.{TableMap, new_schema_table_map, contains_schema_table}
use pgstream.TableMap.Laws.{
  covers, any_names, contains_schema_table-covers, covers-contains_schema_table,
  is_empty-contains_schema_table, new_schema_table_map-covers, is_empty-new_schema_table_map,
}
use pgstream.Wal.{Data, Event}
use pgstream.Wal.Ddl.{
  DdlEvent, DdlObject, DdlResult, ok, err, is_ddl_event, wal_data_to_ddl_event, get_table_objects,
  get_table_column_objects, get_table,
}
use pgstream.Filter.{
  Filter, made, new, with_maps, skip_event, skip_objects, skip_decoded, skip_data, skips,
  process_all,
}

-- Whether the configured lists leave a table out.
abbrev pub left_out : List Str → List Str → Str → Str → Bool
left_out include exclude schema table =
    if not (is_empty include)
    then not (any_names include schema table)
    else any_names exclude schema table

abbrev pub any_left_out : List Str → List Str → List DdlObject → Bool
any_left_out include exclude [] = false
any_left_out include exclude (obj ∷ objs) =
    left_out include exclude obj.schema (get_table obj) || any_left_out include exclude objs

-- A keep alive and a DDL event that cannot be read are forwarded, a DDL event unless one of its
-- tables is left out, and a data event unless its table is.
abbrev pub drops_decoded : List Str → List Str → DdlResult → Bool
drops_decoded include exclude (err e) = false
drops_decoded include exclude (ok e) =
    any_left_out include exclude (get_table_objects e ++ get_table_column_objects e)

abbrev pub drops_data : (Str → Option DdlEvent) → List Str → List Str → Option Data → Bool
drops_data unmarshal include exclude none = false
drops_data unmarshal include exclude (some d) =
    if is_ddl_event d
    then drops_decoded include exclude (wal_data_to_ddl_event unmarshal d)
    else left_out include exclude d.schema d.table

module _ (include exclude : List Str) where
  -- The maps answer as the lists do.
  record Implements (f : Filter) : Type 0 where
    include_names : (s x : Str) → covers f.include s x ≡ any_names include s x
    exclude_names : (s x : Str) → covers f.exclude s x ≡ any_names exclude s x
    include_empty : is_empty f.include ≡ is_empty include
    exclude_empty : is_empty f.exclude ≡ is_empty exclude

  record Skips (r : Bool × Filter) (b : Bool) : Type 0 where
    answer : r.0 ≡ b
    after : Implements r.1

  any_names_empty : (ns : List Str) (s x : Str) → is_empty ns ≡ true → any_names ns s x ≡ false
  any_names_empty [] s x e = refl
  any_names_empty (n ∷ ns) s x e = absurd (cc)

  query_include :
      (f : Filter) (s x : Str)
      → Implements f
      → Implements (record f { include = (contains_schema_table f.include s x).1 })
  query_include f s x h = record {
    include_names =
        λ s' x'. covers-contains_schema_table f.include s x s' x' ∙ h.include_names s' x';
    exclude_names = h.exclude_names;
    include_empty = is_empty-contains_schema_table f.include s x ∙ h.include_empty;
    exclude_empty = h.exclude_empty;
  }

  query_exclude :
      (f : Filter) (s x : Str)
      → Implements f
      → Implements (record f { exclude = (contains_schema_table f.exclude s x).1 })
  query_exclude f s x h = record {
    include_names = h.include_names;
    exclude_names =
        λ s' x'. covers-contains_schema_table f.exclude s x s' x' ∙ h.exclude_names s' x';
    include_empty = h.include_empty;
    exclude_empty = is_empty-contains_schema_table f.exclude s x ∙ h.exclude_empty;
  }

  skip_event-Skips :
      (f : Filter) (s x : Str)
      → Implements f
      → Skips (skip_event f s x) (left_out include exclude s x)
  unfolding skip_event
  skip_event-Skips f s x h =
      let he = h.include_empty in
      let hx = h.exclude_empty in
      elim (Bool-cases (is_empty f.include)) [
        | inl e ↦ elim (Bool-cases (is_empty f.exclude)) [
          | inl e' ↦
              simp (e, e')
                (record { answer = ground (arith, any_names_empty exclude s x); after = h })
          | inr e' ↦
              simp (e, e')
                (record {
                  answer =
                      ground
                        (arith, contains_schema_table-covers f.exclude s x, h.exclude_names s x);
                  after = query_exclude f s x h;
                })
        ]
        | inr e ↦ simp e (record {
          answer = ground (arith, contains_schema_table-covers f.include s x, h.include_names s x);
          after = query_include f s x h;
        })
      ]

  skip_objects-Skips :
      (f : Filter) (objs : List DdlObject)
      → Implements f
      → Skips (skip_objects f objs) (any_left_out include exclude objs)
  unfolding skip_objects
  skip_objects-Skips f [] h = record { answer = refl; after = h }
  skip_objects-Skips f (obj ∷ objs) h =
      let first = skip_event-Skips f obj.schema (get_table obj) h in
      let rest = skip_objects-Skips (skip_event f obj.schema (get_table obj)).1 objs first.after in
      elim (Bool-cases (left_out include exclude obj.schema (get_table obj))) [
        | inl e ↦ simp (first.answer, e) (record { answer = refl; after = first.after })
        | inr e ↦ simp (first.answer, e) rest
      ]

  skip_decoded-Skips :
      (f : Filter) (r : DdlResult)
      → Implements f
      → Skips (skip_decoded f r) (drops_decoded include exclude r)
  unfolding skip_decoded
  skip_decoded-Skips f (err e) h = record { answer = refl; after = h }
  skip_decoded-Skips f (ok e) h =
      skip_objects-Skips f (get_table_objects e ++ get_table_column_objects e) h

  module _ (unmarshal : Str → Option DdlEvent) where
    skip_data-Skips :
        (f : Filter) (o : Option Data)
        → Implements f
        → Skips (skip_data unmarshal f o) (drops_data unmarshal include exclude o)
    unfolding skip_data
    skip_data-Skips f none h = record { answer = refl; after = h }
    skip_data-Skips f (some d) h = elim (Bool-cases (is_ddl_event d)) [
      | inl e ↦ rw e (skip_decoded-Skips f (wal_data_to_ddl_event unmarshal d) h)
      | inr e ↦ rw e (skip_event-Skips f d.schema d.table h)
    ]

    process_from :
        (f : Filter) (es : List Event)
        → Implements f
        → process_all unmarshal f es
          ≡ keep (λ e. not (drops_data unmarshal include exclude e.body)) es
    unfolding process_all skips
    process_from f [] h = refl
    process_from f (e ∷ es) h =
        let first = skip_data-Skips f e.body h in
        let rest = process_from (skip_data unmarshal f e.body).1 es first.after in
        elim (Bool-cases (drops_data unmarshal include exclude e.body)) [
          | inl q ↦ simp (first.answer, q) rest
          | inr q ↦ simp (first.answer, q) (ap (λ r. e ∷ r) rest)
        ]

with_maps-Implements :
    (include exclude : List Str) (f : Filter) (o o' : Option TableMap)
    → new_schema_table_map include ≡ o
    → new_schema_table_map exclude ≡ o'
    → with_maps o o' ≡ made f
    → Implements include exclude f
unfolding with_maps
with_maps-Implements include exclude f none o' a b e = absurd (cc)
with_maps-Implements include exclude f (some t) none a b e = absurd (cc)
with_maps-Implements include exclude f (some t) (some u) a b e =
    let same_include : f.include ≡ t = cc in
    let same_exclude : f.exclude ≡ u = cc in
    record {
      include_names = λ s x. rw same_include (new_schema_table_map-covers include t s x a);
      exclude_names = λ s x. rw same_exclude (new_schema_table_map-covers exclude u s x b);
      include_empty = rw same_include (is_empty-new_schema_table_map include t a);
      exclude_empty = rw same_exclude (is_empty-new_schema_table_map exclude u b);
    }

new-Implements :
    (include exclude : List Str) (f : Filter)
    → new include exclude ≡ made f
    → Implements include exclude f
unfolding new
new-Implements include exclude f e =
    with_maps-Implements include exclude f (new_schema_table_map include)
      (new_schema_table_map exclude) refl refl (ground arith)

-- A filter made from the configured lists forwards, of any stream of events, exactly those that the
-- lists do not drop, in order, whatever its maps have gone through on the way.
pub process_all_by_config :
    (unmarshal : Str → Option DdlEvent) (include exclude : List Str) (f : Filter) (es : List Event)
    → new include exclude ≡ made f
    → process_all unmarshal f es ≡ keep (λ e. not (drops_data unmarshal include exclude e.body)) es
process_all_by_config unmarshal include exclude f es e =
    process_from include exclude unmarshal f es (new-Implements include exclude f e)
