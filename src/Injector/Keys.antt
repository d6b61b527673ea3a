-- ===== src/Injector/Keys.antt =====
-- pkg/wal/processor/injector/wal_injector.go: after the injection the columns of the primary key, and no others,
-- are recognised by their ids.
use pgstream.Prelude.{
  ◌≡◌, refl, sym, ap, ◌∙◌, inl, inr, Bool, true, false, not, ◌&&◌, none, some, List, [], ◌∷◌, Str,
  str_eq, str_eq_iff, contains, is_empty, keep, map, All, All-map, Bool-cases, Option-cases,
}
use pgstream.Wal.{Column, Data, is_id_column}
use pgstream.Wal.Ddl.{DdlColumn, DdlObject, find_column, get_column_by_name}
use pgstream.Injector.{
  Answer, Cache, table, sort_columns, sorted, identity_columns, get_column_pgstream_id, with_ids,
  fill_event_metadata, with_id, is_found, inject_ids, inject_column_ids, get_table_object,
  column_error, filled, injected, inject,
}
use pgstream.Injector.Ids.{In, get_column_pgstream_id-injective, sort_columns-In, find_column-found}

-- The number of a column tells its name.
abbrev pub Distinct : List DdlColumn → Type 0
Distinct cols = (x y : DdlColumn) → In x cols → In y cols → x.attnum ≡ y.attnum → x.name ≡ y.name

abbrev key_ids : Str → List Str → List DdlColumn → List Str
key_ids table_id keys cols =
    map (get_column_pgstream_id table_id) (keep (λ c. contains keys c.name) cols)

same_truth : (a b : Bool) → (a ≡ true → b ≡ true) → (b ≡ true → a ≡ true) → a ≡ b
same_truth true b f g = sym (f refl)
same_truth false true f g = g refl
same_truth false false f g = refl

key_ids_sound :
    (table_id : Str) (keys : List Str) (c : DdlColumn) (cols : List DdlColumn)
    → ((x : DdlColumn) → In x cols → x.attnum ≡ c.attnum → x.name ≡ c.name)
    → contains (key_ids table_id keys cols) (get_column_pgstream_id table_id c) ≡ true
    → contains keys c.name ≡ true
unfolding contains
key_ids_sound table_id keys c [] d h = absurd (cc)
key_ids_sound table_id keys c (x ∷ cols) d h =
    let rest = key_ids_sound table_id keys c cols (λ y i. d y (inr i)) in
    elim (Bool-cases (contains keys x.name)) [
      | inr e ↦ rest (rw e at h)
      | inl e ↦
          elim (Bool-cases
            (str_eq (get_column_pgstream_id table_id x) (get_column_pgstream_id table_id c))) [
              | inl s ↦
                  let ids =
                    (str_eq_iff (get_column_pgstream_id table_id x)
                        (get_column_pgstream_id table_id c)).0
                      s in
                  let name = d x (inl refl) (get_column_pgstream_id-injective table_id x c ids) in
                  ap (contains keys) (sym name) ∙ e
              | inr s ↦ rest (rw (e, contains, s) at h)
            ]
    ]

key_ids_complete :
    (table_id : Str) (keys : List Str) (c : DdlColumn) (cols : List DdlColumn)
    → In c cols
    → contains keys c.name ≡ true
    → contains (key_ids table_id keys cols) (get_column_pgstream_id table_id c) ≡ true
unfolding contains
key_ids_complete table_id keys c [] i h = absurd i
key_ids_complete table_id keys c (x ∷ cols) (inl p) h =
    let named : contains keys x.name ≡ true = ap (λ y. contains keys y.name) p ∙ h in
    let same : str_eq (get_column_pgstream_id table_id x) (get_column_pgstream_id table_id c)
        ≡ true =
      (str_eq_iff (get_column_pgstream_id table_id x) (get_column_pgstream_id table_id c)).1
        (ap (get_column_pgstream_id table_id) p) in
    simp (named, same)
key_ids_complete table_id keys c (x ∷ cols) (inr p) h =
    let rest = key_ids_complete table_id keys c cols p h in
    elim (Bool-cases (contains keys x.name)) [
      | inl e ↦
          elim (Bool-cases
            (str_eq (get_column_pgstream_id table_id x) (get_column_pgstream_id table_id c))) [
              | inl s ↦ simp (e, s)
              | inr s ↦ simp (e, s, rest)
            ]
      | inr e ↦ simp (e, rest)
    ]

-- The column has the id of the table's column of its name.
pub record HasId (tbl : DdlObject) (col : Column) : Type 0 where
  pub column : DdlColumn
  pub by_name : find_column col.name tbl.columns ≡ some column
  pub id : col.id ≡ get_column_pgstream_id tbl.pgstream_id column

inject_ids-HasId :
    (tbl : DdlObject) (cols : List Column)
    → (inject_ids tbl cols).1 ≡ true
    → All (HasId tbl) (inject_ids tbl cols).0
unfolding inject_ids get_column_by_name with_id is_found
inject_ids-HasId tbl [] h = tt
inject_ids-HasId tbl (col ∷ cols) h = elim (Option-cases (find_column col.name tbl.columns)) [
  | inl e ↦ let bad : false ≡ true = (rw (e, is_found) at h) in absurd (cc)
  | inr (c, e) ↦
      let all : (inject_ids tbl cols).1 ≡ true = (rw (e, is_found) at h) in
      rw (e, with_id) (record { column = c; by_name = e; id = refl }, inject_ids-HasId tbl cols all)
]

-- Every column is an id column exactly if its name is in the primary key.
abbrev pub KeysMarked : List Str → Data → Type 0
KeysMarked keys d =
    All (λ col. is_id_column d.metadata col.id ≡ contains keys col.name) d.columns
    × All (λ col. is_id_column d.metadata col.id ≡ contains keys col.name) d.identity

HasId-marked :
    (tbl : DdlObject) (col : Column)
    → Distinct tbl.columns
    → HasId tbl col
    → contains (key_ids tbl.pgstream_id tbl.primary_key_columns tbl.columns) col.id
      ≡ contains tbl.primary_key_columns col.name
HasId-marked tbl col d h =
    let c = h.column in
    let (here, name) = find_column-found col.name tbl.columns c h.by_name in
    let keys = tbl.primary_key_columns in
    let marked =
      same_truth
        (contains (key_ids tbl.pgstream_id keys tbl.columns)
          (get_column_pgstream_id tbl.pgstream_id c))
        (contains keys c.name)
        (key_ids_sound tbl.pgstream_id keys c tbl.columns (λ x i e. d x c i here e))
        (key_ids_complete tbl.pgstream_id keys c tbl.columns here) in
    ap (contains (key_ids tbl.pgstream_id keys tbl.columns)) h.id ∙ marked ∙ ap (contains keys) name

-- The metadata of an event of a table with a primary key.
record Filled (tbl : DdlObject) (d d' : Data) : Type 0 where
  columns : d'.columns ≡ d.columns
  identity : d'.identity ≡ d.identity
  ids : d'.metadata.internal_col_ids ≡ key_ids tbl.pgstream_id tbl.primary_key_columns tbl.columns

with_ids-Filled :
    (tbl : DdlObject) (d : Data) (cols : List DdlColumn)
    → cols ≡ keep (λ c. contains tbl.primary_key_columns c.name) tbl.columns
    → not (is_empty cols) ≡ true
    → Filled tbl d (with_ids d tbl.pgstream_id (map (get_column_pgstream_id tbl.pgstream_id) cols))
unfolding with_ids
with_ids-Filled tbl d [] e n = absurd (cc)
with_ids-Filled tbl d (c ∷ cols) e n = record {
  columns = refl;
  identity = refl;
  ids = ap (map (get_column_pgstream_id tbl.pgstream_id)) e;
}

fill-Filled :
    (tbl : DdlObject) (d : Data)
    → is_empty tbl.primary_key_columns ≡ false
    → (fill_event_metadata d tbl).1 ≡ true
    → Filled tbl d (fill_event_metadata d tbl).0
unfolding fill_event_metadata identity_columns
fill-Filled tbl d k h =
    with_ids-Filled tbl d (identity_columns tbl.primary_key_columns tbl.columns) (rw k refl) h

both_true : (a b : Bool) → (a && b) ≡ true → (a ≡ true) × (b ≡ true)
both_true true true h = (refl, refl)
both_true true false h = absurd (cc)
both_true false b h = absurd (cc)

error_none : (b : Bool) → column_error b ≡ none → b ≡ true
unfolding column_error
error_none true h = refl
error_none false h = absurd (cc)

inject_column_ids-KeysMarked :
    (tbl : DdlObject) (d d' : Data)
    → Distinct tbl.columns
    → Filled tbl d d'
    → (inject_column_ids d' tbl).1 ≡ true
    → KeysMarked tbl.primary_key_columns (inject_column_ids d' tbl).0
unfolding inject_column_ids is_id_column
inject_column_ids-KeysMarked tbl d d' distinct f h =
    let (columns, identity) =
      both_true (inject_ids tbl d'.columns).1 (inject_ids tbl d'.identity).1 h in
    let mark : (col : Column)
        → HasId tbl col
        → contains d'.metadata.internal_col_ids col.id ≡ contains tbl.primary_key_columns col.name =
      λ col has. ap (λ ids. contains ids col.id) f.ids ∙ HasId-marked tbl col distinct has in
    (
      All-map (inject_ids tbl d'.columns).0 mark (inject_ids-HasId tbl d'.columns columns),
      All-map (inject_ids tbl d'.identity).0 mark (inject_ids-HasId tbl d'.identity identity),
    )

filled_without_error :
    (tbl : DdlObject) (d d' : Data) (r : Data × Bool)
    → filled tbl r ≡ (d', none)
    → (r.1 ≡ true) × ((inject_column_ids r.0 tbl).1 ≡ true) × (d' ≡ (inject_column_ids r.0 tbl).0)
unfolding filled
filled_without_error tbl d d' (e, false) h = absurd (cc)
filled_without_error tbl d d' (e, true) h =
    let error : column_error (inject_column_ids e tbl).1 ≡ none = ap (λ p. p.1) h in
    (refl, error_none (inject_column_ids e tbl).1 error, sym (ap (λ p. p.0) h))

Distinct-sort : (cols : List DdlColumn) → Distinct cols → Distinct (sort_columns cols)
Distinct-sort cols h = λ x y i j. h x y (sort_columns-In x cols i) (sort_columns-In y cols j)

-- For a table with a primary key, whose columns' numbers tell their names: an event into which the injector
-- has put the ids without an error has, among its columns and its previous values, as id columns exactly
-- those whose names are in the primary key.
pub inject-KeysMarked :
    (query : Str → Str → Answer) (cache cache' : Cache) (d d' : Data) (tbl : DdlObject)
    → get_table_object query cache d ≡ (cache', table tbl)
    → is_empty tbl.primary_key_columns ≡ false
    → Distinct tbl.columns
    → (inject query cache d).1 ≡ (d', none)
    → KeysMarked tbl.primary_key_columns d'
unfolding inject injected sorted
inject-KeysMarked query cache cache' d d' tbl g k distinct h =
    let tbl' = record tbl { columns = sort_columns tbl.columns } in
    let done : filled tbl' (fill_event_metadata d tbl') ≡ (d', none) = (rw (g, injected) at h) in
    let (full, found, same) = filled_without_error tbl' d d' (fill_event_metadata d tbl') done in
    let f = fill-Filled tbl' d k full in
    rw same (
      inject_column_ids-KeysMarked tbl' d (fill_event_metadata d tbl').0
        (Distinct-sort tbl.columns distinct) f found)
