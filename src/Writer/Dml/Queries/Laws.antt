-- ===== src/Writer/Dml/Queries/Laws.antt =====
-- pkg/wal/processor/postgres/postgres_wal_dml_adapter.go: what the queries of one event write, and when there
-- are none.
use pgstream.Prelude.{
  ℕ, suc, ◌≡◌, refl, sym, ap, ◌∙◌, inl, inr, Bool, true, false, not, ◌&&◌, ◌||◌, Option, none, some,
  List, [], ◌∷◌, ◌++◌, Str, bytes, str_eq, str_eq_iff, is_empty, length, map, All, All-map, Any,
  Bool-cases, Option-cases, arith,
}
use pgstream.Prelude.Int.{ℤ}
use pgstream.Prelude.Maps.{lookup}
use pgstream.Postgres.Identifier.{quote_identifier, quote_qualified_identifier}
use pgstream.Wal.{string, integer, Column, Data}
use pgstream.Writer.Query.{Query, Arg, scalar}
use pgstream.Writer.Message.{SchemaInfo}
use pgstream.Writer.Bulk.{Json, arg_of, join, placeholder}
use pgstream.Writer.Dml.{DmlAdapter, Pgtype, to_int64}
use pgstream.Writer.Dml.Columns.{
  Row, filter_row_columns_for_action, row_of, row_value, writable, Settable, filter-row_of,
  filter-Settable, length-filter,
}
use pgstream.Writer.Dml.Where.{
  where_columns, build_where_query, build_set_query, conditions, assignments, not_null,
  build_where_query-conditions, build_set_query-assignments, is_none, is_none-build_where_query,
  build_set_query-some,
}
use pgstream.Writer.Dml.Queries.{
  query_with, setval, sequence_queries, setval_of, insert_query, insert_row, build_insert_queries,
  update_with, update_row, build_update_query, delete_with, build_delete_query, one_query,
  placeholders, build_on_conflict_query, wal_data_to_queries,
}

length-map : {A B : Type 0} (f : A → B) (xs : List A) → length (map f xs) ≡ length xs
length-map f [] = refl
length-map f (x ∷ xs) = ap suc (length-map f xs)

module _ (pq_quote : Str → Str) (json : Json) (pgtype : Pgtype) (a : DmlAdapter) where
  abbrev pub names_of : List Column → List Str
  names_of cols = map (λ c. quote_identifier pq_quote c.name) cols

  -- An update of an event with columns to set and columns that identify the row assigns to every column that
  -- is neither generated nor always an identity its value, in order, numbers the conditions on the row
  -- after the assignments, and passes the values in the order of their numbers.
  pub build_update_query-Numbered :
      (d : Data) (info : SchemaInfo) (w c : Column) (ws cols : List Column)
      → writable pq_quote json pgtype a d.columns info true ≡ w ∷ ws
      → where_columns d ≡ some (c ∷ cols)
      → (build_update_query pq_quote json pgtype a d info
          ≡ some (
              query_with d
                (bytes "UPDATE "
                  ++ quote_qualified_identifier pq_quote d.schema d.table
                  ++ bytes " "
                  ++ (bytes "SET "
                      ++ join (bytes ", ") (assignments pq_quote json 0 (names_of (w ∷ ws))))
                  ++ bytes " "
                  ++ (bytes "WHERE "
                      ++ join
                          (bytes " AND ")
                          (conditions pq_quote json (suc (length (names_of ws))) (c ∷ cols))))
                (map scalar (map (row_value pq_quote json pgtype a) (w ∷ ws))
                  ++ map (arg_of pq_quote json) (not_null pq_quote json (c ∷ cols)))))
        × All (Settable pq_quote json pgtype a info true) (names_of (w ∷ ws))
  unfolding build_update_query update_row
  build_update_query-Numbered d info w c ws cols e i =
      let row : filter_row_columns_for_action pq_quote json pgtype a d.columns info true
          ≡ row_of pq_quote json pgtype a (w ∷ ws) =
        filter-row_of pq_quote json pgtype a d.columns info true
        ∙ ap (row_of pq_quote json pgtype a) e in
      let value = row_value pq_quote json pgtype a in
      let same : length (map value (w ∷ ws)) ≡ suc (length (names_of ws)) =
        ap suc
          (length-map value ws ∙ sym (length-map (λ x. quote_identifier pq_quote x.name) ws)) in
      let set =
        build_set_query-assignments pq_quote json (quote_identifier pq_quote w.name) (names_of ws)
          (map value (w ∷ ws)) same in
      let clause =
        build_where_query-conditions pq_quote json d (suc (length (names_of ws))) c cols i in
      let settable = filter-Settable pq_quote json pgtype a d.columns info true in
      (rw (row, set, clause, update_with) refl, (rw row at settable))

  -- The event has neither previous values nor the ids of identity columns.
  unfoldable pub unidentified : Data → Bool
  unidentified d = is_empty d.identity && is_empty d.metadata.internal_col_ids

  build_where_query-none :
      (d : Data) (offset : ℕ) → is_none (build_where_query pq_quote json d offset) ≡ unidentified d
  unfolding unidentified
  build_where_query-none d offset = is_none-build_where_query pq_quote json d offset

  is_none-update_with :
      (d : Data) (set clause : Option (Str × List Arg))
      → is_none set ≡ false
      → is_none (update_with pq_quote json pgtype a d set clause) ≡ is_none clause
  unfolding update_with
  is_none-update_with d none clause h = absurd (cc)
  is_none-update_with d (some s) none h = refl
  is_none-update_with d (some s) (some c) h = refl

  is_none-update_row :
      (d : Data) (row : Row)
      → length row.values ≡ length row.names
      → is_none (update_row pq_quote json pgtype a d row)
        ≡ (not (is_empty row.names) && unidentified d)
  unfolding update_row
  is_none-update_row d row h = elim (Bool-cases (is_empty row.names)) [
    | inl e ↦ rw e refl
    | inr e ↦
        let set = build_set_query pq_quote json row.names row.values in
        let clause = build_where_query pq_quote json d (length row.names) in
        let built = build_set_query-some pq_quote json row.names row.values h in
        simp (e, is_none-update_with d set clause built, build_where_query-none)
  ]

  is_none-delete_with :
      (d : Data) (clause : Option (Str × List Arg))
      → is_none (delete_with pq_quote json pgtype a d clause) ≡ is_none clause
  unfolding delete_with
  is_none-delete_with d none = refl
  is_none-delete_with d (some c) = refl

  pub is_none-build_delete_query :
      (d : Data)
      → is_none (build_delete_query pq_quote json pgtype a d)
        ≡ (is_empty d.identity && is_empty d.metadata.internal_col_ids)
  unfolding build_delete_query
  is_none-build_delete_query d =
      is_none-delete_with d (build_where_query pq_quote json d 0)
      ∙ is_none-build_where_query pq_quote json d 0

  is_none-one_query : (q : Option Query) → is_none (one_query pq_quote json pgtype a q) ≡ is_none q
  unfolding one_query
  is_none-one_query none = refl
  is_none-one_query (some q) = refl

  -- The event deletes a row, or updates some column of one.
  unfoldable pub changes_row : Data → SchemaInfo → Bool
  changes_row d info =
      let row = filter_row_columns_for_action pq_quote json pgtype a d.columns info true in
      str_eq d.action (bytes "D") || (str_eq d.action (bytes "U") && not (is_empty row.names))

  -- An event fails to build queries exactly if it deletes a row, or updates a column of one that may be set,
  -- and has neither previous values nor ids of identity columns.
  pub wal_data_to_queries-Fails :
      (d : Data) (info : SchemaInfo)
      → is_none (wal_data_to_queries pq_quote json pgtype a d info)
        ≡ (changes_row d info && unidentified d)
  unfolding wal_data_to_queries changes_row build_delete_query build_update_query str_eq
  wal_data_to_queries-Fails d info = elim (Bool-cases (str_eq d.action (bytes "T"))) [
    | inl t ↦
        let same : d.action ≡ bytes "T" = (str_eq_iff d.action (bytes "T")).0 t in
        simp (same, str_eq)
    | inr t ↦ elim (Bool-cases (str_eq d.action (bytes "D"))) [
      | inl e ↦ simp (t, e, is_none-one_query, is_none-delete_with, build_where_query-none)
      | inr e ↦ elim (Bool-cases (str_eq d.action (bytes "I"))) [
        | inl i ↦
            let same : d.action ≡ bytes "I" = (str_eq_iff d.action (bytes "I")).0 i in
            simp (same, str_eq)
        | inr i ↦ elim (Bool-cases (str_eq d.action (bytes "U"))) [
          | inl u ↦
              let row = filter_row_columns_for_action pq_quote json pgtype a d.columns info true in
              let same = length-filter pq_quote json pgtype a d.columns info true in
              simp (t, e, i, u, is_none-one_query, is_none-update_row d row same.0)
          | inr u ↦ simp (t, e, i, u)
        ]
      ]
    ]
  ]

  -- The column has a sequence and an integer, to which the query sets the sequence.
  abbrev pub Sets : Data → SchemaInfo → Query → Column → Type 0
  Sets d info q col =
      (seq : Str) × (n : ℤ) × (lookup (quote_identifier pq_quote col.name) info.sequence_columns
        ≡ some seq)
      × (to_int64 pgtype col.value ≡ some n)
      × (q ≡ query_with d setval (scalar (string seq) ∷ scalar (integer n) ∷ []))

  -- Every query sets the sequence of one of the columns, and the sequence of every column that has one and an integer
  -- is set by one of the queries.
  pub record SetsSequences (d : Data) (info : SchemaInfo) (cols : List Column) (qs : List Query)
      : Type 0 where
    pub only : All (λ q. Any (Sets d info q) cols) qs
    pub each :
        All
          (λ col.
            (seq : Str) (n : ℤ)
            → lookup (quote_identifier pq_quote col.name) info.sequence_columns ≡ some seq
            → to_int64 pgtype col.value ≡ some n
            → Any (λ q. Sets d info q col) qs)
          cols

  SetsSequences-skip :
      (d : Data) (info : SchemaInfo) (col : Column) (cols : List Column) (qs : List Query)
      → ((seq : Str) (n : ℤ)
          → lookup (quote_identifier pq_quote col.name) info.sequence_columns ≡ some seq
          → to_int64 pgtype col.value ≡ some n
          → ⊥)
      → SetsSequences d info cols qs
      → SetsSequences d info (col ∷ cols) qs
  SetsSequences-skip d info col cols qs absent rest = record {
    only = All-map qs (λ q h. inr h) rest.only;
    each = (λ seq n l t. absurd (absent seq n l t), rest.each);
  }

  SetsSequences-add :
      (d : Data) (info : SchemaInfo) (q : Query) (col : Column) (cols : List Column)
      (qs : List Query)
      → Sets d info q col
      → SetsSequences d info cols qs
      → SetsSequences d info (col ∷ cols) (q ∷ qs)
  SetsSequences-add d info q col cols qs s rest = record {
    only = (inl s, All-map qs (λ q h. inr h) rest.only);
    each = (λ seq n l t. inl s, All-map cols (λ c h seq n l t. inr (h seq n l t)) rest.each);
  }

  sequence_queries-SetsSequences :
      (d : Data) (info : SchemaInfo) (cols : List Column)
      → SetsSequences d info cols (sequence_queries pq_quote json pgtype a d info cols)
  unfolding sequence_queries setval_of
  sequence_queries-SetsSequences d info [] = record { only = tt; each = tt }
  sequence_queries-SetsSequences d info (col ∷ cols) =
      let qs = sequence_queries pq_quote json pgtype a d info cols in
      let rest = sequence_queries-SetsSequences d info cols in
      elim (Option-cases (lookup (quote_identifier pq_quote col.name) info.sequence_columns)) [
        | inl e ↦
            simp (e, sequence_queries)
              (SetsSequences-skip d info col cols qs (λ seq n l t. absurd (cc)) rest)
        | inr (seq, e) ↦ elim (Option-cases (to_int64 pgtype col.value)) [
          | inl v ↦
              simp (e, v, sequence_queries, setval_of)
                (SetsSequences-skip d info col cols qs (λ seq n l t. absurd (cc)) rest)
          | inr (n, v) ↦
              simp (e, v, sequence_queries, setval_of)
                (SetsSequences-add d info _ col cols qs (seq, n, e, v, refl) rest)
        ]
      ]

  -- An insert into the columns that may be written, none of them generated, with a placeholder for each and the
  -- value of each, in order.
  pub record Inserts (d : Data) (info : SchemaInfo) (q : Query) : Type 0 where
    pub columns : q.column_names ≡ names_of (writable pq_quote json pgtype a d.columns info false)
    pub settable : All (Settable pq_quote json pgtype a info false) q.column_names
    pub values :
        q.args
        ≡ map scalar (
            map
              (row_value pq_quote json pgtype a)
              (writable pq_quote json pgtype a d.columns info false))
    pub text :
        q.sql
        ≡ bytes "INSERT INTO "
          ++ quote_qualified_identifier pq_quote d.schema d.table
          ++ bytes "("
          ++ join (bytes ", ") q.column_names
          ++ bytes ") OVERRIDING SYSTEM VALUE VALUES("
          ++ join (bytes ", ") (placeholders 0 q.args)
          ++ bytes ")"
          ++ build_on_conflict_query pq_quote json pgtype a d q.column_names

  placeholders-same :
      {A B : Type 0} (i : ℕ) (xs : List A) (ys : List B)
      → length xs ≡ length ys
      → placeholders i xs ≡ placeholders i ys
  placeholders-same i [] [] h = refl
  placeholders-same i [] (y ∷ ys) h = absurd (omega arith)
  placeholders-same i (x ∷ xs) [] h = absurd (omega arith)
  placeholders-same i (x ∷ xs) (y ∷ ys) h =
      ap (λ ps. placeholder (suc i) ∷ ps) (placeholders-same (suc i) xs ys (omega arith))

  insert_query-Inserts :
      (d : Data) (info : SchemaInfo)
      → Inserts d info (
          insert_query pq_quote json pgtype a d
            (filter_row_columns_for_action pq_quote json pgtype a d.columns info false))
  unfolding insert_query
  insert_query-Inserts d info =
      let row = filter_row_columns_for_action pq_quote json pgtype a d.columns info false in
      let same : length (map scalar row.values) ≡ length row.names =
        length-map scalar row.values
        ∙ (length-filter pq_quote json pgtype a d.columns info false).0 in
      record {
        columns = ap (λ r. r.names) (filter-row_of pq_quote json pgtype a d.columns info false);
        settable = filter-Settable pq_quote json pgtype a d.columns info false;
        values =
            ap (λ r. map scalar r.values)
              (filter-row_of pq_quote json pgtype a d.columns info false);
        text = rw (placeholders-same 0 (map scalar row.values) row.names same) refl;
      }

  -- An insert with a column that may be written builds a query that names the columns that are not generated,
  -- each with a placeholder, and whose arguments are the values of these columns, in order. For a COPY it is the only
  -- query. Otherwise the queries after it set the sequences of the event's columns to the integers that these have:
  -- every one of them does, and every column with a sequence and an integer has one.
  pub build_insert_queries-Inserts :
      (d : Data) (info : SchemaInfo) (w : Column) (ws : List Column)
      → writable pq_quote json pgtype a d.columns info false ≡ w ∷ ws
      → (q : Query) × (qs : List Query) × (build_insert_queries pq_quote json pgtype a d info
          ≡ q ∷ qs)
        × Inserts d info q
        × (a.for_copy ≡ true → qs ≡ [])
        × (a.for_copy ≡ false → SetsSequences d info d.columns qs)
  unfolding build_insert_queries insert_row
  build_insert_queries-Inserts d info w ws e =
      let row = filter_row_columns_for_action pq_quote json pgtype a d.columns info false in
      let full : is_empty row.names ≡ false =
        ap (λ r. is_empty r.names) (filter-row_of pq_quote json pgtype a d.columns info false)
        ∙ ap (λ cols. is_empty (names_of cols)) e in
      let q = insert_query pq_quote json pgtype a d row in
      let sets = sequence_queries pq_quote json pgtype a d info d.columns in
      let inserts = insert_query-Inserts d info in
      elim (Bool-cases a.for_copy) [
        | inl c ↦ (q, [], rw (full, c) refl, inserts, (λ x. refl), (λ x. absurd (cc)))
        | inr c ↦ (
          q,
          sets,
          rw (full, c) refl,
          inserts,
          (λ x. absurd (cc)),
          (λ x. sequence_queries-SetsSequences d info d.columns),
        )
      ]
