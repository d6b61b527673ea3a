-- ===== src/TableMap/Laws.antt =====
-- What the table map of internal/postgres/schema_table_map.go answers.
use pgstream.Prelude.{
  ◌≡◌, refl, sym, ◌∙◌, ap, inl, inr, Bool, true, false, ◌&&◌, ◌||◌, Option, none, some, List, [],
  ◌∷◌, Str, str_eq, str_eq_iff, contains, is_empty, arith, Option-cases, if◌then◌else◌,
}
use pgstream.Prelude.Maps.{
  lookup, insert, set_insert, set_union, lookup-insert, contains-set_insert, contains-set_union,
}
use pgstream.TableMap.{
  TableMap, wildcard, parse_table_name, tables_of, or_empty, add, add_parsed, add_all, then_add,
  new_schema_table_map, merged, get_schema_tables, contains_schema_table,
}

-- The map holds this table under this schema.
abbrev pub holds : TableMap → Str → Str → Bool
holds t schema table = contains (tables_of t schema) table

-- The table is held under its schema or the wildcard schema, by name or by the wildcard.
abbrev pub covers : TableMap → Str → Str → Bool
covers t schema table =
    holds t schema table
    || holds t schema wildcard
    || holds t wildcard table
    || holds t wildcard wildcard

holds-insert :
    (t : TableMap) (k s x : Str) (tables : List Str)
    → holds (insert k tables t) s x ≡ (if str_eq k s then contains tables x else holds t s x)
unfolding tables_of
holds-insert t k s x tables = ground (arith, lookup-insert k s tables t)

contains_nonempty :
    (tables : List Str) (x : Str)
    → (if is_empty tables then false else contains tables x || contains tables wildcard)
      ≡ (contains tables x || contains tables wildcard)
unfolding contains
contains_nonempty [] x = refl
contains_nonempty (t ∷ ts) x = refl

contains-get_schema_tables :
    (t : TableMap) (s x : Str)
    → contains (get_schema_tables t s).0 x ≡ (holds t s x || holds t wildcard x)
unfolding get_schema_tables merged tables_of or_empty contains
contains-get_schema_tables t s x = elim (Option-cases (lookup s t)) [
  | inl e ↦ simp e
  | inr (tables, e) ↦ simp (e, contains-set_union (tables_of t wildcard) tables x) (ground arith)
]

-- The answer of a query is whether the map covers the table.
pub contains_schema_table-covers :
    (t : TableMap) (schema table : Str)
    → (contains_schema_table t schema table).0 ≡ covers t schema table
unfolding contains_schema_table
contains_schema_table-covers [] s x = unfold tables_of or_empty lookup contains in refl
contains_schema_table-covers (e ∷ es) s x =
    let t = e ∷ es in
    ground (
      arith,
      contains_nonempty (get_schema_tables t s).0 x,
      contains-get_schema_tables t s x,
      contains-get_schema_tables t s wildcard,
    )

covers_merged :
    (t : TableMap) (s s' x : Str) (tables : List Str)
    → lookup s t ≡ some tables
    → covers (insert s (set_union (tables_of t wildcard) tables) t) s' x ≡ covers t s' x
unfolding tables_of
covers_merged t s s' x tables e =
    let all = set_union (tables_of t wildcard) tables in
    let own = contains-set_union (tables_of t wildcard) tables in
    ground (
      arith,
      holds-insert t s s' x all,
      holds-insert t s s' wildcard all,
      holds-insert t s wildcard x all,
      holds-insert t s wildcard wildcard all,
      own x,
      own wildcard,
      str_eq_iff s s',
      str_eq_iff s wildcard,
    )

covers-get_schema_tables :
    (t : TableMap) (s s' x : Str) → covers (get_schema_tables t s).1 s' x ≡ covers t s' x
unfolding get_schema_tables merged
covers-get_schema_tables t s s' x = elim (Option-cases (lookup s t)) [
  | inl e ↦ simp (e, merged)
  | inr (tables, e) ↦ simp (e, merged) (covers_merged t s s' x tables e)
]

map-contains_schema_table :
    (t : TableMap) (s x : Str)
    → (contains_schema_table t s x).1 ≡ (if is_empty t then t else (get_schema_tables t s).1)
unfolding contains_schema_table
map-contains_schema_table t s x = ground arith

pub covers-contains_schema_table :
    (t : TableMap) (s x s' x' : Str) → covers (contains_schema_table t s x).1 s' x' ≡ covers t s' x'
covers-contains_schema_table t s x s' x' =
    ap (λ u. covers u s' x') (map-contains_schema_table t s x) ∙ unmoved (is_empty t)
  where
    unmoved :
        (b : Bool) → covers (if b then t else (get_schema_tables t s).1) s' x' ≡ covers t s' x'
    unmoved true = refl
    unmoved false = covers-get_schema_tables t s s' x'

is_empty-insert : (k : Str) (v : List Str) (t : TableMap) → is_empty (insert k v t) ≡ false
unfolding insert
is_empty-insert k v [] = refl
is_empty-insert k v ((j, w) ∷ t) = ground arith

is_empty-get_schema_tables :
    (t : TableMap) (s : Str) → is_empty t ≡ false → is_empty (get_schema_tables t s).1 ≡ false
unfolding get_schema_tables merged
is_empty-get_schema_tables t s h = elim (Option-cases (lookup s t)) [
  | inl e ↦ simp (e, merged) h
  | inr (tables, e) ↦
      simp (e, merged) (is_empty-insert s (set_union (tables_of t wildcard) tables) t)
]

pub is_empty-contains_schema_table :
    (t : TableMap) (s x : Str) → is_empty (contains_schema_table t s x).1 ≡ is_empty t
is_empty-contains_schema_table [] s x = ap is_empty (map-contains_schema_table [] s x)
is_empty-contains_schema_table (e ∷ es) s x =
    ap is_empty (map-contains_schema_table (e ∷ es) s x)
    ∙ is_empty-get_schema_tables (e ∷ es) s refl

-- A query writes to the map, and no later query can tell.
pub query_is_pure :
    (t : TableMap) (s x s' x' : Str)
    → (contains_schema_table (contains_schema_table t s x).1 s' x').0
      ≡ (contains_schema_table t s' x').0
query_is_pure t s x s' x' =
    contains_schema_table-covers (contains_schema_table t s x).1 s' x'
    ∙ covers-contains_schema_table t s x s' x'
    ∙ sym (contains_schema_table-covers t s' x')

-- A configured name, as written or with the schema left out, stands for this table.
abbrev pub stands_for : Option (Str × Str) → Str → Str → Bool
stands_for none schema table = false
stands_for (some (s, x)) schema table =
    (str_eq s schema || str_eq s wildcard) && (str_eq x table || str_eq x wildcard)

abbrev pub any_names : List Str → Str → Str → Bool
any_names [] schema table = false
any_names (n ∷ ns) schema table =
    stands_for (parse_table_name n) schema table || any_names ns schema table

covers-insert :
    (t : TableMap) (ns nx s x : Str)
    → covers (insert ns (set_insert nx (tables_of t ns)) t) s x
      ≡ (stands_for (some (ns, nx)) s x || covers t s x)
covers-insert t ns nx s x =
    let tables = set_insert nx (tables_of t ns) in
    ground (
      arith,
      holds-insert t ns s x tables,
      holds-insert t ns s wildcard tables,
      holds-insert t ns wildcard x tables,
      holds-insert t ns wildcard wildcard tables,
      contains-set_insert nx x (tables_of t ns),
      contains-set_insert nx wildcard (tables_of t ns),
      str_eq_iff ns s,
      str_eq_iff ns wildcard,
    )

covers-add_parsed :
    (t u : TableMap) (o : Option (Str × Str)) (s x : Str)
    → add_parsed t o ≡ some u
    → covers u s x ≡ (stands_for o s x || covers t s x)
unfolding add_parsed
covers-add_parsed t u none s x e = absurd (cc)
covers-add_parsed t u (some (ns, nx)) s x e =
    let same : u ≡ insert ns (set_insert nx (tables_of t ns)) t = cc in
    ap (λ v. covers v s x) same ∙ covers-insert t ns nx s x

covers-add_all :
    (t u : TableMap) (ns : List Str) (s x : Str)
    → add_all t ns ≡ some u
    → covers u s x ≡ (any_names ns s x || covers t s x)
unfolding add_all then_add add
covers-add_all t u [] s x e = let same : u ≡ t = cc in ap (λ v. covers v s x) same
covers-add_all t u (n ∷ ns) s x e = go (λ v. covers-add_all v u ns s x) (add t n) refl e
  where
    go :
        ((v : TableMap) → add_all v ns ≡ some u → covers u s x ≡ (any_names ns s x || covers v s x))
        → (o : Option TableMap) → add t n ≡ o
        → then_add o (λ v. add_all v ns) ≡ some u
        → covers u s x ≡ (stands_for (parse_table_name n) s x || any_names ns s x || covers t s x)
    go rest none a h = absurd (cc)
    go rest (some v) a h =
        ground (arith, rest v h, covers-add_parsed t v (parse_table_name n) s x a)

-- A map made from configured names answers a query by whether one of them stands for the table.
pub new_schema_table_map-names :
    (ns : List Str) (t : TableMap) (schema table : Str)
    → new_schema_table_map ns ≡ some t
    → (contains_schema_table t schema table).0 ≡ any_names ns schema table
unfolding new_schema_table_map
new_schema_table_map-names ns t s x e =
    contains_schema_table-covers t s x ∙ covers-add_all [] t ns s x e ∙ nothing
  where
    nothing : (any_names ns s x || covers [] s x) ≡ any_names ns s x
    nothing = unfold tables_of or_empty lookup contains in ground arith

pub new_schema_table_map-covers :
    (ns : List Str) (t : TableMap) (schema table : Str)
    → new_schema_table_map ns ≡ some t
    → covers t schema table ≡ any_names ns schema table
new_schema_table_map-covers ns t s x e =
    sym (contains_schema_table-covers t s x) ∙ new_schema_table_map-names ns t s x e

is_empty-add :
    (t u : TableMap) (o : Option (Str × Str)) → add_parsed t o ≡ some u → is_empty u ≡ false
unfolding add_parsed
is_empty-add t u none e = absurd (cc)
is_empty-add t u (some (s, x)) e =
    let same : u ≡ insert s (set_insert x (tables_of t s)) t = cc in
    rw same (is_empty-insert s (set_insert x (tables_of t s)) t)

is_empty-add_all :
    (t u : TableMap) (ns : List Str)
    → is_empty t ≡ false
    → add_all t ns ≡ some u
    → is_empty u ≡ false
unfolding add_all then_add add
is_empty-add_all t u [] h e = let same : u ≡ t = cc in rw same h
is_empty-add_all t u (n ∷ ns) h e = elim (Option-cases (add_parsed t (parse_table_name n))) [
  | inl q ↦ let bad : none ≡ some u = (rw q at e) in absurd (cc)
  | inr (v, q) ↦ is_empty-add_all v u ns (is_empty-add t v (parse_table_name n) q) (rw q at e)
]

pub is_empty-new_schema_table_map :
    (ns : List Str) (t : TableMap) → new_schema_table_map ns ≡ some t → is_empty t ≡ is_empty ns
unfolding new_schema_table_map add_all then_add add
is_empty-new_schema_table_map [] t e = let same : t ≡ [] = cc in rw same
is_empty-new_schema_table_map (n ∷ ns) t e =
    elim (Option-cases (add_parsed [] (parse_table_name n))) [
      | inl q ↦ let bad : none ≡ some t = (rw q at e) in absurd (cc)
      | inr (v, q) ↦ is_empty-add_all v t ns (is_empty-add [] v (parse_table_name n) q) (rw q at e)
    ]
