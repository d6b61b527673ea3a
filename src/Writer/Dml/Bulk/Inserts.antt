-- ===== src/Writer/Dml/Bulk/Inserts.antt =====
-- pkg/wal/processor/postgres/postgres_wal_dml_adapter_bulk.go: a bulk insert writes the values of all its
-- events, within the limit of parameters.
use pgstream.Prelude.{
  ℕ, zero, suc, ◌*◌, ◌/◌, ◌≤◌, ◌≡◌, refl, sym, ap, ◌∙◌, false, some, List, [], ◌∷◌, ◌++◌, Str,
  is_empty, length, length-take, take, drop, take-append-drop, length-drop, All, All-take, All-drop,
  arith,
}
use native.Mathlib.Nat.{mul-div-le, le-div_iff_mul-le}
use pgstream.Prelude.Int.{ℤ}
use pgstream.Wal.{Data}
use pgstream.Writer.Query.{Query}
use pgstream.Writer.Message.{SchemaInfo}
use pgstream.Writer.Bulk.{Json, events_per_chunk, max_params_per_query}
use pgstream.Writer.Dml.{DmlAdapter, Pgtype}
use pgstream.Writer.Dml.Columns.{Row, row_of, writable, filter-row_of}
use pgstream.Writer.Dml.Queries.{setval}
use pgstream.Writer.Dml.Bulk.{
  then_query, join_queries, insert_chunks, setvals, sequence_maxes, inserts_of,
  build_bulk_insert_queries,
}
use pgstream.Writer.Dml.Bulk.Rows.{columns_of, Alike, written_fits, InsertsRows, rows_query_built}

length_product : (n a b : ℕ) → a ≤ b → n * a ≤ n * b
length_product n a b h = grind arith

module _ (pq_quote : Str → Str) (json : Json) (pgtype : Pgtype) (a : DmlAdapter)
    (info : SchemaInfo) where
  -- The events, cut into chunks with a query for each, of so many parameters at most.
  pub data Writes (limit : ℕ) (first : Data) (names : List Str)
      : List Data → List Query → Type 0 where
    no_rows : Writes limit first names [] []
    then_chunk :
        {es rest : List Data} {qs : List Query} (chunk : List Data) (q : Query)
        → es ≡ chunk ++ rest
        → InsertsRows pq_quote json pgtype a info first names chunk q
        → length q.args ≤ limit
        → Writes limit first names rest qs
        → Writes limit first names es (q ∷ qs)

  insert_chunks_built :
      (first : Data) (row : Row) (limit fuel per : ℕ) (es : List Data)
      → 1 ≤ per
      → length row.names * per ≤ limit
      → length es ≤ fuel
      → All (Alike pq_quote json pgtype a info row.names) es
      → (qs : List Query) × (insert_chunks pq_quote json pgtype a info first row fuel per es
          ≡ some qs)
        × Writes limit first row.names es qs
  unfolding insert_chunks then_query
  insert_chunks_built first row limit zero per [] p m l h = ([], refl, no_rows)
  insert_chunks_built first row limit zero per (e ∷ es) p m l h = absurd (omega arith)
  insert_chunks_built first row limit (suc fuel) per [] p m l h = ([], refl, no_rows)
  insert_chunks_built first row limit (suc fuel) per (e ∷ es) p m l h =
      let n = length row.names in
      let chunk = take per (e ∷ es) in
      let others = drop per (e ∷ es) in
      let fewer : length others ≤ fuel = omega (arith, length-drop per (e ∷ es)) in
      let short : length chunk ≤ per = omega (arith, length-take per (e ∷ es)) in
      let wide = length_product n (length chunk) per short in
      let alike = All-take (Alike pq_quote json pgtype a info row.names) per (e ∷ es) h in
      let (q, built, inserts) =
        rows_query_built pq_quote json pgtype a info first row chunk alike in
      let fits = written_fits pq_quote json pgtype a info row.names chunk alike in
      let (qs, rest, writes) =
        insert_chunks_built first row limit fuel per others p m fewer
          (All-drop (Alike pq_quote json pgtype a info row.names) per (e ∷ es) h) in
      let count : length q.args ≤ limit = rw (inserts.values) (omega arith) in
      (
        q ∷ qs,
        simp (built, rest, then_query),
        then_chunk chunk q (sym (take-append-drop per (e ∷ es))) inserts count writes,
      )

  setvals_only :
      (first : Data) (maxes : List (Str × ℤ))
      → All (λ q. q.sql ≡ setval) (setvals pq_quote json pgtype a first maxes)
  unfolding setvals
  setvals_only first [] = tt
  setvals_only first ((seq, v) ∷ maxes) = (refl, setvals_only first maxes)

  limit_of_chunks :
      (n : ℕ) → 1 ≤ n → n ≤ max_params_per_query → n * events_per_chunk n ≤ max_params_per_query
  limit_of_chunks n h1 h2 =
      let positive : 1 ≤ max_params_per_query / n =
        (le-div_iff_mul-le {k = n} {x = 1} (omega arith)).1 (omega arith) in
      let per : events_per_chunk n ≡ max_params_per_query / n = ground arith in
      rw per (mul-div-le max_params_per_query n)

  not_empty : (names : List Str) → 1 ≤ length names → is_empty names ≡ false
  not_empty [] h = absurd (omega arith)
  not_empty (x ∷ xs) h = refl

  pub inserts_built :
      (e : Data) (es : List Data)
      → let names = columns_of pq_quote json pgtype a info e in
        1 ≤ length names
        → length names ≤ max_params_per_query
        → All (Alike pq_quote json pgtype a info names) es
        → (qs : List Query) × (build_bulk_insert_queries pq_quote json pgtype a (e ∷ es) info
            ≡ some (
                qs
                ++ setvals pq_quote json pgtype a e
                    (sequence_maxes pq_quote json pgtype a info (e ∷ es))))
          × Writes max_params_per_query e names (e ∷ es) qs
  unfolding build_bulk_insert_queries inserts_of join_queries
  inserts_built e es h1 h2 h =
      let row =
        row_of pq_quote json pgtype a (writable pq_quote json pgtype a e.columns info false) in
      let per : 1 ≤ events_per_chunk (length (columns_of pq_quote json pgtype a info e)) =
        ground arith in
      let (qs, built, writes) =
        insert_chunks_built e row max_params_per_query (suc (length es))
          (events_per_chunk (length (columns_of pq_quote json pgtype a info e))) (e ∷ es) per
          (limit_of_chunks (length (columns_of pq_quote json pgtype a info e)) h1 h2) (omega arith)
          (refl, h) in
      let sets =
        setvals pq_quote json pgtype a e (sequence_maxes pq_quote json pgtype a info (e ∷ es)) in
      let joined : inserts_of pq_quote json pgtype a info e es row ≡ some (qs ++ sets) =
        rw (not_empty (columns_of pq_quote json pgtype a info e) h1, built, join_queries) refl in
      (
        qs,
        ap (inserts_of pq_quote json pgtype a info e es)
              (filter-row_of pq_quote json pgtype a e.columns info false)
            ∙ joined,
        writes,
      )

  -- A bulk insert of events that all write the same columns, between 1 and 60000 of them, does not panic. Its queries
  -- insert a row for each event, in order, with a tuple of placeholders for each and the values of the event's columns as
  -- their arguments, at most 60000 in a query; the queries after them only call setval.
  pub build_bulk_insert_queries-Writes :
      (e : Data) (es : List Data)
      → let names = columns_of pq_quote json pgtype a info e in
        1 ≤ length names
        → length names ≤ max_params_per_query
        → All (Alike pq_quote json pgtype a info names) es
        → (qs : List Query) × (sets : List Query) × (build_bulk_insert_queries pq_quote json pgtype
              a
              (e ∷ es)
              info
            ≡ some (qs ++ sets))
          × Writes max_params_per_query e names (e ∷ es) qs
          × All (λ q. q.sql ≡ setval) sets
  build_bulk_insert_queries-Writes e es h1 h2 h =
      let (qs, built, writes) = inserts_built e es h1 h2 h in
      (
        qs,
        setvals pq_quote json pgtype a e (sequence_maxes pq_quote json pgtype a info (e ∷ es)),
        built,
        writes,
        setvals_only e (sequence_maxes pq_quote json pgtype a info (e ∷ es)),
      )
