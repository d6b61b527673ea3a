-- ===== src/Injector/Ids.antt =====
-- pkg/wal/processor/injector/wal_injector.go: the ids of a table's columns, and the sorting of its columns.
use pgstream.Prelude.{
  ◌≡◌, sym, ap, ◌∙◌, inl, inr, Option, some, List, [], ◌∷◌, ◌++◌, Str, bytes, str_eq, str_eq_iff,
  leb, Any, Bool-cases,
}
use pgstream.Prelude.Decimal.{print_ℕ, print_ℕ-injective}
use pgstream.Wal.Ddl.{DdlColumn, find_column}
use pgstream.Injector.{by_attnum, sort_columns, get_column_pgstream_id}

-- The column is one of these.
abbrev pub In : DdlColumn → List DdlColumn → Type 0
In c cols = Any (λ d. d ≡ c) cols

append-cancel : (s t u : Str) → s ++ t ≡ s ++ u → t ≡ u
append-cancel [] t u e = e
append-cancel (c ∷ s) t u e = let same : s ++ t ≡ s ++ u = cc in append-cancel s t u same

-- The ids of two columns of a table are the same only if their numbers are.
pub get_column_pgstream_id-injective :
    (table_id : Str) (c d : DdlColumn)
    → get_column_pgstream_id table_id c ≡ get_column_pgstream_id table_id d
    → c.attnum ≡ d.attnum
unfolding get_column_pgstream_id
get_column_pgstream_id-injective table_id c d e =
    print_ℕ-injective c.attnum d.attnum
      (append-cancel (table_id ++ bytes "-") (print_ℕ c.attnum) (print_ℕ d.attnum) e)

by_attnum-In : (c x : DdlColumn) (cols : List DdlColumn) → In x (c ∷ cols) → In x (by_attnum c cols)
unfolding by_attnum
by_attnum-In c x [] h = h
by_attnum-In c x (d ∷ cols) h = elim (Bool-cases (leb c.attnum d.attnum)) [
  | inl e ↦ rw e h
  | inr e ↦ rw e (elim h [
    | inl p ↦ inr (by_attnum-In c x cols (inl p))
    | inr t ↦ elim t [ inl p ↦ inl p | inr p ↦ inr (by_attnum-In c x cols (inr p)) ]
  ])
]

pub In-sort_columns : (x : DdlColumn) (cols : List DdlColumn) → In x cols → In x (sort_columns cols)
unfolding sort_columns
In-sort_columns x [] h = h
In-sort_columns x (c ∷ cols) (inl p) = by_attnum-In c x (sort_columns cols) (inl p)
In-sort_columns x (c ∷ cols) (inr p) =
    by_attnum-In c x (sort_columns cols) (inr (In-sort_columns x cols p))

In-by_attnum : (c x : DdlColumn) (cols : List DdlColumn) → In x (by_attnum c cols) → In x (c ∷ cols)
unfolding by_attnum
In-by_attnum c x [] h = h
In-by_attnum c x (d ∷ cols) h = elim (Bool-cases (leb c.attnum d.attnum)) [
  | inl e ↦ (rw (e, by_attnum) at h)
  | inr e ↦
      let earlier : In x (d ∷ by_attnum c cols) = (rw (e, by_attnum) at h) in
      elim earlier [
        | inl p ↦ inr (inl p)
        | inr p ↦ elim (In-by_attnum c x cols p) [ inl q ↦ inl q | inr q ↦ inr (inr q) ]
      ]
]

pub sort_columns-In : (x : DdlColumn) (cols : List DdlColumn) → In x (sort_columns cols) → In x cols
unfolding sort_columns
sort_columns-In x [] h = h
sort_columns-In x (c ∷ cols) h = elim (In-by_attnum c x (sort_columns cols) h) [
  | inl p ↦ inl p
  | inr p ↦ inr (sort_columns-In x cols p)
]

-- What a search by name finds.
pub find_column-found :
    (name : Str) (cols : List DdlColumn) (c : DdlColumn)
    → find_column name cols ≡ some c
    → In c cols × (c.name ≡ name)
unfolding find_column
find_column-found name [] c e = absurd (cc)
find_column-found name (d ∷ cols) c e = elim (Bool-cases (str_eq d.name name)) [
  | inl q ↦
      let same : ◌≡◌ {A = Option DdlColumn} (some d) (some c) = (rw (q, find_column) at e) in
      let eq : d ≡ c = cc in (inl eq, ap (λ x. x.name) (sym eq) ∙ (str_eq_iff d.name name).0 q)
  | inr q ↦
      let rest = find_column-found name cols c (rw (q, find_column) at e) in (inr rest.0, rest.1)
]
