-- ===== src/Writer/Dml/Where.antt =====
-- pkg/wal/processor/postgres/postgres_wal_dml_adapter.go: the WHERE and SET clauses, and their description as
-- conditions and assignments that are joined.
use pgstream.Prelude.{
  ℕ, suc, ◌≡◌, refl, sym, ap, ◌∙◌, inl, inr, Bool, true, false, not, ◌&&◌, Option, none, some, List,
  [], ◌∷◌, ◌++◌, Str, bytes, is_empty, length, keep, map, append_assoc, append-nil, Bool-cases,
  arith, if◌then◌else◌,
}
use pgstream.Postgres.Identifier.{quote_identifier}
use pgstream.Wal.{Value, Column, Data}
use pgstream.Writer.Query.{Arg, scalar}
use pgstream.Writer.Bulk.{Json, arg_of, is_null, join, placeholder, extract_primary_key_columns}

-- The columns of buildWhereQuery; `none` is errUnableToBuildQuery.
unfoldable pub where_columns : Data → Option (List Column)
where_columns d =
    if not (is_empty d.identity)
    then some d.identity
    else if not (is_empty d.metadata.internal_col_ids)
    then some (extract_primary_key_columns d.metadata.internal_col_ids d.columns)
    else none

abbrev pub is_none : {A : Type 0} → Option A → Bool
is_none none = true
is_none (some a) = false

is_none-where_columns :
    (d : Data)
    → is_none (where_columns d) ≡ (is_empty d.identity && is_empty d.metadata.internal_col_ids)
unfolding where_columns
is_none-where_columns d = elim (Bool-cases (is_empty d.identity)) [
  | inl e ↦ elim (Bool-cases (is_empty d.metadata.internal_col_ids)) [
    | inl i ↦ rw (e, i) refl
    | inr i ↦ rw (e, i) refl
  ]
  | inr e ↦ rw e refl
]

and_ : Bool → Str → Str
and_ true q = q
and_ false q = q ++ bytes " AND"

module _ (pq_quote : Str → Str) (json : Json) where
  -- The loop of buildWhereQuery, with whereQuery, whereValues and placeholderIdx.
  unfoldable pub where_loop : Bool → ℕ → Str → List Arg → List Column → Str × List Arg
  unfolding and_
  where_loop first idx q values [] = (q, values)
  where_loop first idx q values (c ∷ cols) = elim (is_null c.value) [
    | true ↦
        where_loop false idx
          (and_ first q ++ bytes " " ++ quote_identifier pq_quote c.name ++ bytes " IS NULL") values
          cols
    | false ↦
        where_loop false (suc idx)
          (and_ first q
            ++ bytes " "
            ++ quote_identifier pq_quote c.name
            ++ bytes " = "
            ++ placeholder (suc idx))
          (values ++ arg_of pq_quote json c ∷ []) cols
  ]

  where_of : ℕ → Option (List Column) → Option (Str × List Arg)
  where_of offset none = none
  where_of offset (some cols) = some (where_loop true offset (bytes "WHERE") [] cols)

  -- buildWhereQuery
  unfoldable pub build_where_query : Data → ℕ → Option (Str × List Arg)
  unfolding where_of
  build_where_query d offset = where_of offset (where_columns d)

  -- The loop of buildSetQuery, with setQuery and setValues. rowValues is as long as rowColumns; a value
  -- that is missing would be a panic, `none`.
  unfoldable pub set_loop :
      Bool → ℕ → Str → List Arg → List Str → List Value → Option (Str × List Arg)
  set_loop first i q values [] vs = some (q, values)
  set_loop first i q values (column ∷ columns) [] = none
  set_loop first i q values (column ∷ columns) (v ∷ vs) =
      let q' = if first then q else q ++ bytes "," in
      set_loop false (suc i) (q' ++ bytes " " ++ column ++ bytes " = " ++ placeholder (suc i))
        (values ++ scalar v ∷ []) columns vs

  -- buildSetQuery
  unfoldable pub build_set_query : List Str → List Value → Option (Str × List Arg)
  build_set_query columns vs = set_loop true 0 (bytes "SET") [] columns vs

  -- The conditions on the columns, numbered from the offset on.
  abbrev pub conditions : ℕ → List Column → List Str
  conditions idx [] = []
  conditions idx (c ∷ cols) =
      if is_null c.value
      then (quote_identifier pq_quote c.name ++ bytes " IS NULL") ∷ conditions idx cols
      else (quote_identifier pq_quote c.name ++ bytes " = " ++ placeholder (suc idx))
        ∷ conditions (suc idx) cols

  abbrev pub not_null : List Column → List Column
  not_null cols = keep (λ c. not (is_null c.value)) cols

  abbrev pub assignments : ℕ → List Str → List Str
  assignments i [] = []
  assignments i (column ∷ columns) =
      (column ++ bytes " = " ++ placeholder (suc i)) ∷ assignments (suc i) columns

  -- What follows the first of the joined parts.
  abbrev after : Str → List Str → Str
  after sep [] = []
  after sep (p ∷ ps) = sep ++ p ++ after sep ps

  join-after : (sep p : Str) (ps : List Str) → join sep (p ∷ ps) ≡ p ++ after sep ps
  unfolding join
  join-after sep p [] = sym (append-nil p)
  join-after sep p (r ∷ ps) = rw (join-after sep r ps) (simp append_assoc)

  where_loop-after :
      (idx : ℕ) (q : Str) (values : List Arg) (cols : List Column)
      → where_loop false idx q values cols ≡ (
        q ++ after (bytes " AND ") (conditions idx cols),
        values ++ map (arg_of pq_quote json) (not_null cols),
      )
  unfolding where_loop and_
  where_loop-after idx q values [] = simp append-nil
  where_loop-after idx q values (c ∷ cols) = elim (Bool-cases (is_null c.value)) [
    | inl e ↦
        let rest : (r : Str) → _ = λ r. where_loop-after idx r values cols in
        simp (e, where_loop, rest, append_assoc)
    | inr e ↦
        let rest : (r : Str) (vs : List Arg) → _ = λ r vs. where_loop-after (suc idx) r vs cols in
        simp (e, where_loop, rest, append_assoc)
  ]

  -- The clause of a list of columns that is not empty.
  pub where_loop-conditions :
      (idx : ℕ) (c : Column) (cols : List Column)
      → where_loop true idx (bytes "WHERE") [] (c ∷ cols) ≡ (
        bytes "WHERE " ++ join (bytes " AND ") (conditions idx (c ∷ cols)),
        map (arg_of pq_quote json) (not_null (c ∷ cols)),
      )
  unfolding where_loop and_
  where_loop-conditions idx c cols =
      let joined = join-after (bytes " AND ") in
      elim (Bool-cases (is_null c.value)) [
        | inl e ↦ simp (e, where_loop, where_loop-after, joined, append_assoc)
        | inr e ↦ simp (e, where_loop, where_loop-after, joined, append_assoc)
      ]

  pub build_where_query-conditions :
      (d : Data) (offset : ℕ) (c : Column) (cols : List Column)
      → where_columns d ≡ some (c ∷ cols)
      → build_where_query d offset
        ≡ some (
          bytes "WHERE " ++ join (bytes " AND ") (conditions offset (c ∷ cols)),
          map (arg_of pq_quote json) (not_null (c ∷ cols)),
        )
  unfolding build_where_query where_of
  build_where_query-conditions d offset c cols e =
      rw (e, where_of) (ap some (where_loop-conditions offset c cols))

  set_loop-after :
      (i : ℕ) (q : Str) (values : List Arg) (columns : List Str) (vs : List Value)
      → length vs ≡ length columns
      → set_loop false i q values columns vs
        ≡ some (q ++ after (bytes ", ") (assignments i columns), values ++ map scalar vs)
  unfolding set_loop
  set_loop-after i q values [] [] h = simp append-nil
  set_loop-after i q values [] (v ∷ vs) h = absurd (omega arith)
  set_loop-after i q values (column ∷ columns) [] h = absurd (omega arith)
  set_loop-after i q values (column ∷ columns) (v ∷ vs) h =
      let rest : (r : Str) (ws : List Arg) → _ =
        λ r ws. set_loop-after (suc i) r ws columns vs (omega arith) in
      simp (rest, append_assoc)

  -- buildSetQuery of columns that are not none, each with its value.
  pub build_set_query-assignments :
      (column : Str) (columns : List Str) (vs : List Value)
      → length vs ≡ suc (length columns)
      → build_set_query (column ∷ columns) vs
        ≡ some (bytes "SET " ++ join (bytes ", ") (assignments 0 (column ∷ columns)), map scalar vs)
  unfolding build_set_query set_loop
  build_set_query-assignments column columns [] h = absurd (omega arith)
  build_set_query-assignments column columns (v ∷ vs) h =
      let joined = join-after (bytes ", ") in
      simp (set_loop-after 1 _ _ columns vs (omega arith), joined, append_assoc)

  is_none-where_of :
      (offset : ℕ) (cols : Option (List Column)) → is_none (where_of offset cols) ≡ is_none cols
  unfolding where_of
  is_none-where_of offset none = refl
  is_none-where_of offset (some cols) = refl

  pub is_none-build_where_query :
      (d : Data) (offset : ℕ)
      → is_none (build_where_query d offset)
        ≡ (is_empty d.identity && is_empty d.metadata.internal_col_ids)
  unfolding build_where_query
  is_none-build_where_query d offset =
      is_none-where_of offset (where_columns d) ∙ is_none-where_columns d

  pub build_set_query-some :
      (columns : List Str) (vs : List Value)
      → length vs ≡ length columns
      → is_none (build_set_query columns vs) ≡ false
  unfolding build_set_query set_loop
  build_set_query-some [] vs h = refl
  build_set_query-some (column ∷ columns) [] h = absurd (omega arith)
  build_set_query-some (column ∷ columns) (v ∷ vs) h =
      rw (set_loop-after 1 _ _ columns vs (omega arith)) refl
