-- ===== src/Writer/Bulk/Keys.antt =====
-- pkg/wal/processor/postgres/postgres_wal_dml_adapter_bulk.go: the text and the arguments of a bulk delete of rows
-- with a composite key.
use pgstream.Prelude.{
  ℕ, zero, suc, ◌+◌, ◌*◌, ◌/◌, ◌≤◌, ◌≡◌, refl, sym, ap, ◌∙◌, Option, none, some, List, [], ◌∷◌,
  ◌++◌, Str, bytes, length, length-append, length-take, take, drop, take-append-drop, length-drop,
  map, All, All-take, All-drop, arith,
}
use native.Mathlib.Nat.{mul-div-le, le-div_iff_mul-le}
use pgstream.Postgres.Identifier.{quote_identifier}
use pgstream.Wal.{Column, Data}
use pgstream.Writer.Query.{Query, Arg}
use pgstream.Writer.Bulk.{
  Json, join, args_of, get_identity_columns, row_placeholders, one_row, chunk_rows, chunk_query,
  column_names, names_of_first, and_rest, delete_chunks, events_per_chunk, max_params_per_query,
  build_bulk_delete_composite_pk,
}
use pgstream.Writer.Dml.Queries.{placeholders}

length_product : (n a b : ℕ) → a ≤ b → n * a ≤ n * b
length_product n a b h = grind arith

module _ (pq_quote : Str → Str) (json : Json) where
  abbrev pub quoted_names : List Column → List Str
  quoted_names cols = map (λ c. quote_identifier pq_quote c.name) cols

  -- The event identifies its row by just these columns.
  pub record Identified (names : List Str) (e : Data) : Type 0 where
    pub cols : List Column
    pub identity : get_identity_columns e ≡ some cols
    pub same : quoted_names cols ≡ names

  abbrev pub identity_values : Option (List Column) → List Arg
  identity_values none = []
  identity_values (some cols) = args_of pq_quote json cols

  -- The identity values of these events, in order.
  abbrev pub keys_of : List Data → List Arg
  keys_of [] = []
  keys_of (e ∷ es) = identity_values (get_identity_columns e) ++ keys_of es

  -- The tuple of each event, with a placeholder for each column, numbered on from one event to the next.
  abbrev pub tuples : List Str → ℕ → List Data → List Str
  tuples names idx [] = []
  tuples names idx (e ∷ es) =
      (bytes "(" ++ (join (bytes ",") (placeholders idx names) ++ bytes ")"))
      ∷ tuples names (idx + length names) es

  row_exact :
      (cols : List Column) (idx : ℕ)
      → row_placeholders pq_quote json (length (quoted_names cols)) idx cols
        ≡ some (placeholders idx (quoted_names cols), idx + length (quoted_names cols))
  unfolding row_placeholders
  row_exact [] idx =
      let same : idx ≡ idx + 0 = omega arith in
      ap {B = Option (List Str × ℕ)} (λ i. some ([], i)) same
  row_exact (c ∷ cols) idx =
      let rest = row_exact cols (suc idx) in
      let n = length (quoted_names cols) in
      let same : suc idx + n ≡ idx + suc n = omega arith in simp (rest, row_placeholders, same)

  column_names_exact :
      (cols : List Column)
      → column_names pq_quote json (length (quoted_names cols)) cols ≡ some (quoted_names cols)
  unfolding column_names
  column_names_exact [] = refl
  column_names_exact (c ∷ cols) = simp (column_names_exact cols, column_names)

  chunk_rows_exact :
      (names : List Str) (idx : ℕ) (es : List Data)
      → All (Identified names) es
      → chunk_rows pq_quote json (length names) idx es ≡ some (tuples names idx es, keys_of es)
  unfolding chunk_rows one_row
  chunk_rows_exact names idx [] h = refl
  chunk_rows_exact names idx (e ∷ es) h =
      let cols = h.0.cols in
      let row : row_placeholders pq_quote json (length names) idx cols
          ≡ some (placeholders idx names, idx + length names) =
        (rw h.0.same at (row_exact cols idx)) in
      let rest = chunk_rows_exact names (idx + length names) es h.1 in
      let found = h.0.identity in simp (found, row, rest, chunk_rows, one_row)

  names_exact :
      (names : List Str) (e : Data)
      → Identified names e
      → names_of_first pq_quote json (length names) e ≡ some names
  unfolding names_of_first
  names_exact names e h =
      let first : column_names pq_quote json (length names) h.cols ≡ some names =
        (rw h.same at (column_names_exact h.cols)) in
      let found = h.identity in simp (found, first, names_of_first)

  length-quoted :
      (cols : List Column) → length (args_of pq_quote json cols) ≡ length (quoted_names cols)
  length-quoted [] = refl
  length-quoted (c ∷ cols) = ap suc (length-quoted cols)

  keys_fit :
      (names : List Str) (es : List Data)
      → All (Identified names) es
      → length (keys_of es) ≤ length names * length es
  keys_fit names [] h = omega arith
  keys_fit names (e ∷ es) h =
      let rest = keys_fit names es h.1 in
      let sum = length-append (identity_values (get_identity_columns e)) (keys_of es) in
      let one : length (identity_values (get_identity_columns e)) ≡ length names =
        ap (λ o. length (identity_values o)) h.0.identity
        ∙ length-quoted h.0.cols
        ∙ ap length h.0.same in
      let n = length names in grind arith

  -- The query deletes the rows of these events from the table: the columns that identify them, a tuple for each event,
  -- and the identity values of the events in the order of the numbers.
  pub record DeletesRows (table : Str) (names : List Str) (es : List Data) (q : Query)
      : Type 0 where
    pub values : q.args ≡ keys_of es
    pub text :
        q.sql
        ≡ bytes "DELETE FROM "
          ++ (table
              ++ (bytes " WHERE ("
                  ++ (join (bytes ",") names
                      ++ (bytes ") IN (" ++ (join (bytes ",") (tuples names 0 es) ++ bytes ")")))))

  -- The events, cut into chunks with a query for each, of so many parameters at most.
  pub data Deletes (limit : ℕ) (table : Str) (names : List Str)
      : List Data → List Query → Type 0 where
    no_rows : Deletes limit table names [] []
    then_chunk :
        {es rest : List Data} {qs : List Query} (chunk : List Data) (q : Query)
        → es ≡ chunk ++ rest
        → DeletesRows table names chunk q
        → length q.args ≤ limit
        → Deletes limit table names rest qs
        → Deletes limit table names es (q ∷ qs)

  chunk_query_built :
      (table : Str) (names : List Str) (e : Data) (es : List Data)
      → Identified names e
      → All (Identified names) es
      → (q : Query) × (chunk_query pq_quote json table e
            (names_of_first pq_quote json (length names) e)
            (chunk_rows pq_quote json (length names) 0 es)
          ≡ some q)
        × DeletesRows table names es q
  unfolding chunk_query
  chunk_query_built table names e es first h =
      let (q, built, deletes) = of_rows (tuples names 0 es, keys_of es) refl refl in
      (
        q,
        ap (λ o. chunk_query pq_quote json table e o (chunk_rows pq_quote json (length names) 0 es))
              (names_exact names e first)
            ∙ ap (chunk_query pq_quote json table e (some names)) (chunk_rows_exact names 0 es h)
            ∙ built,
        deletes,
      )
    where
      of_rows :
          (rows : List Str × List Arg)
          → rows.0 ≡ tuples names 0 es
          → rows.1 ≡ keys_of es
          → (q : Query) × (chunk_query pq_quote json table e (some names) (some rows) ≡ some q)
            × DeletesRows table names es q
      of_rows (ts, args) t w =
          unfold chunk_query in (_, refl, record { values = w; text = rw t refl })

  delete_chunks_built :
      (table : Str) (names : List Str) (limit fuel per : ℕ) (es : List Data)
      → 1 ≤ per
      → length names * per ≤ limit
      → length es ≤ fuel
      → All (Identified names) es
      → (qs : List Query) × (delete_chunks pq_quote json fuel per (length names) table es ≡ some qs)
        × Deletes limit table names es qs
  unfolding delete_chunks and_rest
  delete_chunks_built table names limit zero per [] p m l h = ([], refl, no_rows)
  delete_chunks_built table names limit zero per (e ∷ es) p m l h = absurd (omega arith)
  delete_chunks_built table names limit (suc fuel) per [] p m l h = ([], refl, no_rows)
  delete_chunks_built table names limit (suc fuel) per (e ∷ es) p m l h =
      let n = length names in
      let chunk = take per (e ∷ es) in
      let others = drop per (e ∷ es) in
      let fewer : length others ≤ fuel = omega (arith, length-drop per (e ∷ es)) in
      let short : length chunk ≤ per = omega (arith, length-take per (e ∷ es)) in
      let wide = length_product n (length chunk) per short in
      let alike = All-take (Identified names) per (e ∷ es) h in
      let (q, built, deletes) = chunk_query_built table names e chunk h.0 alike in
      let fits = keys_fit names chunk alike in
      let (qs, rest, more) =
        delete_chunks_built table names limit fuel per others p m fewer
          (All-drop (Identified names) per (e ∷ es) h) in
      let count : length q.args ≤ limit = rw deletes.values (omega arith) in
      (
        q ∷ qs,
        simp (built, rest, and_rest),
        then_chunk chunk q (sym (take-append-drop per (e ∷ es))) deletes count more,
      )

  -- A bulk delete of events that all identify their rows by the same columns, between 1 and 60000 of them, does not
  -- panic, and its queries delete the rows of all of them, in order.
  pub build_bulk_delete_composite_pk-Deletes :
      (table : Str) (names : List Str) (es : List Data)
      → 1 ≤ length names
      → length names ≤ max_params_per_query
      → All (Identified names) es
      → (qs : List Query) × (build_bulk_delete_composite_pk pq_quote json es (length names) table
          ≡ some qs)
        × Deletes max_params_per_query table names es qs
  unfolding build_bulk_delete_composite_pk
  build_bulk_delete_composite_pk-Deletes table names es h1 h2 h =
      let n = length names in
      let positive : 1 ≤ max_params_per_query / n =
        (le-div_iff_mul-le {k = n} {x = 1} (omega arith)).1 (omega arith) in
      let per : events_per_chunk n ≡ max_params_per_query / n = ground arith in
      let limit : n * events_per_chunk n ≤ max_params_per_query =
        rw per (mul-div-le max_params_per_query n) in
      delete_chunks_built table names max_params_per_query (length es) (events_per_chunk n) es
        (omega arith) limit (omega arith) h
