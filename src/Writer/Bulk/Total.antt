-- ===== src/Writer/Bulk/Total.antt =====
-- pkg/wal/processor/postgres/postgres_wal_dml_adapter_bulk.go: a bulk delete of rows with a composite key
-- neither fails nor panics where every row has its key.
use pgstream.Prelude.{
  ℕ, zero, suc, ◌≤◌, ◌≡◌, refl, inl, inr, false, ◌&&◌, is_empty, Bool-cases, Option, none, some,
  List, [], ◌∷◌, ◌++◌, bytes, Str, length, take, drop, All, All-take, All-drop, arith,
}
use pgstream.Postgres.Identifier.{quote_identifier}
use pgstream.Wal.{Column, Data}
use pgstream.Writer.Query.{Query, Arg}
use pgstream.Writer.Bulk.{
  Json, not_none_empty, extract_primary_key_columns, get_identity_columns, row_placeholders,
  one_row, chunk_rows, column_names, chunk_query, names_of_first, and_rest, delete_chunks,
  placeholder, join, args_of, events_per_chunk, max_params_per_query,
  build_bulk_delete_composite_pk,
}
use pgstream.Writer.Bulk.Chunks.{Covers, build_bulk_delete_composite_pk-Covers}

-- The event identifies its row by at most n columns.
pub record Keyed (n : ℕ) (e : Data) : Type 0 where
  pub cols : List Column
  pub identity : get_identity_columns e ≡ some cols
  pub few : length cols ≤ n

keys_not_empty : (keys cols : List Column) → not_none_empty keys ≡ some cols → is_empty cols ≡ false
unfolding not_none_empty
keys_not_empty [] cols e = absurd (cc)
keys_not_empty (k ∷ ks) cols e = let same : cols ≡ k ∷ ks = cc in rw same refl

-- Identity columns are never none.
pub identity_not_empty :
    (d : Data) (cols : List Column) → get_identity_columns d ≡ some cols → is_empty cols ≡ false
unfolding get_identity_columns not_none_empty
identity_not_empty d cols e = elim (Bool-cases (is_empty d.identity)) [
  | inr i ↦
      let same : ◌≡◌ {A = Option (List Column)} (some d.identity) (some cols) =
        (rw (i, get_identity_columns) at e) in
      let cols_same : cols ≡ d.identity = cc in rw cols_same i
  | inl i ↦ elim (Bool-cases (is_empty d.metadata.internal_col_ids)) [
    | inl j ↦
        let bad : ◌≡◌ {A = Option (List Column)} none (some cols) =
          (rw (i, j, get_identity_columns) at e) in
        absurd (cc)
    | inr j ↦
        keys_not_empty (extract_primary_key_columns d.metadata.internal_col_ids d.columns) cols
          (rw (i, j, get_identity_columns) at e)
  ]
]

-- An event with identity columns has previous values, or ids of identity columns.
pub identified :
    (d : Data) (cols : List Column)
    → get_identity_columns d ≡ some cols
    → (is_empty d.identity && is_empty d.metadata.internal_col_ids) ≡ false
unfolding get_identity_columns
identified d cols e = elim (Bool-cases (is_empty d.identity)) [
  | inr i ↦ rw i refl
  | inl i ↦ elim (Bool-cases (is_empty d.metadata.internal_col_ids)) [
    | inl j ↦
        let bad : ◌≡◌ {A = Option (List Column)} none (some cols) =
          (rw (i, j, get_identity_columns) at e) in
        absurd (cc)
    | inr j ↦ rw (i, j) refl
  ]
]

module _ (pq_quote : Str → Str) (json : Json) where
  row_total :
      (room idx : ℕ) (cols : List Column)
      → length cols ≤ room
      → (r : List Str × ℕ) × (row_placeholders pq_quote json room idx cols ≡ some r)
  unfolding row_placeholders
  row_total room idx [] h = (_, refl)
  row_total zero idx (col ∷ cols) h = absurd (omega arith)
  row_total (suc room) idx (col ∷ cols) h =
      let (r, e) = row_total room (suc idx) cols (omega arith) in
      ((placeholder (suc idx) ∷ r.0, r.1), simp (e, row_placeholders))

  names_total :
      (room : ℕ) (cols : List Column)
      → length cols ≤ room
      → (r : List Str) × (column_names pq_quote json room cols ≡ some r)
  unfolding column_names
  names_total room [] h = (_, refl)
  names_total zero (col ∷ cols) h = absurd (omega arith)
  names_total (suc room) (col ∷ cols) h =
      let (r, e) = names_total room cols (omega arith) in
      (quote_identifier pq_quote col.name ∷ r, simp (e, column_names))

  one_row_total :
      (row : List Str × ℕ) (rest : List Str × List Arg) (more : ℕ → Option (List Str × List Arg))
      (cols : List Column)
      → more row.1 ≡ some rest
      → (r : List Str × List Arg) × (one_row pq_quote json (some row) cols more ≡ some r)
  unfolding one_row
  one_row_total (ps, end) (tuples, args) more cols e = (
    (
      (bytes "(" ++ (join (bytes ",") ps ++ bytes ")")) ∷ tuples,
      args_of pq_quote json cols ++ args,
    ),
    rw (e, one_row) refl,
  )

  chunk_rows_total :
      (n idx : ℕ) (es : List Data)
      → All (Keyed n) es
      → (r : List Str × List Arg) × (chunk_rows pq_quote json n idx es ≡ some r)
  unfolding chunk_rows
  chunk_rows_total n idx [] h = (_, refl)
  chunk_rows_total n idx (e ∷ es) h =
      let k = h.0 in
      let (row, q) = row_total n idx k.cols k.few in
      let (rest, p) = chunk_rows_total n row.1 es h.1 in
      let (r, o) = one_row_total row rest (λ end. chunk_rows pq_quote json n end es) k.cols p in
      (r, simp (k.identity, q, chunk_rows) o)

  names_of_first_total :
      (n : ℕ) (e : Data) → Keyed n e → (r : List Str) × (names_of_first pq_quote json n e ≡ some r)
  unfolding names_of_first
  names_of_first_total n e k =
      let (r, q) = names_total n k.cols k.few in (r, simp (k.identity, q, names_of_first))

  chunk_query_total :
      (table : Str) (e : Data) (names : List Str) (rows : List Str × List Arg)
      → (q : Query) × (chunk_query pq_quote json table e (some names) (some rows) ≡ some q)
  unfolding chunk_query
  chunk_query_total table e names (tuples, args) = (_, refl)

  and_rest-some :
      (o : Option Query) (q : Query) (qs : List Query)
      → o ≡ some q
      → and_rest pq_quote json o (some qs) ≡ some (q ∷ qs)
  unfolding and_rest
  and_rest-some o q qs e = rw (e, and_rest) refl

  delete_chunks_total :
      (fuel per n : ℕ) (table : Str) (es : List Data)
      → All (Keyed n) es
      → (qs : List Query) × (delete_chunks pq_quote json fuel per n table es ≡ some qs)
  unfolding delete_chunks
  delete_chunks_total zero per n table es h = ([], refl)
  delete_chunks_total (suc fuel) per n table [] h = ([], refl)
  delete_chunks_total (suc fuel) per n table (e ∷ es) h =
      let (names, q) = names_of_first_total n e h.0 in
      let (rows, p) =
        chunk_rows_total n 0 (take per (e ∷ es)) (All-take (Keyed n) per (e ∷ es) h) in
      let (rest, o) =
        delete_chunks_total fuel per n table (drop per (e ∷ es))
          (All-drop (Keyed n) per (e ∷ es) h) in
      let (query, c) = chunk_query_total table e names rows in
      (query ∷ rest, simp (q, p, o) (and_rest-some _ query rest c))

  -- A bulk delete of events that each identify their row by at most n columns, n between 1 and 60000, builds
  -- queries that hold the identity values of all the events, in order, and none has more than 60000
  -- parameters.
  pub build_bulk_delete_composite_pk-total :
      (events : List Data) (n : ℕ) (table : Str)
      → 1 ≤ n
      → n ≤ max_params_per_query
      → All (Keyed n) events
      → (qs : List Query) × (build_bulk_delete_composite_pk pq_quote json events n table ≡ some qs)
        × Covers pq_quote json max_params_per_query events qs
  build_bulk_delete_composite_pk-total events n table h1 h2 h =
      let (qs, e) = built in
      (qs, e, build_bulk_delete_composite_pk-Covers pq_quote json events n table qs h1 h2 e)
    where
      built :
          (qs : List Query) × (build_bulk_delete_composite_pk pq_quote json events n table
            ≡ some qs)
      built =
          unfold build_bulk_delete_composite_pk in
          delete_chunks_total (length events) (events_per_chunk n) n table events h
