-- ===== src/Writer/Dml/Bulk/Rows.antt =====
-- pkg/wal/processor/postgres/postgres_wal_dml_adapter_bulk.go: the tuples and the arguments of a chunk of inserts.
use pgstream.Prelude.{
  ℕ, suc, ◌+◌, ◌*◌, ◌≤◌, ◌≡◌, refl, sym, ap, ◌∙◌, false, Option, some, List, [], ◌∷◌, ◌++◌, Str,
  bytes, append_assoc, length, length-append, map, All, arith,
}
use pgstream.Wal.{Value, Data}
use pgstream.Postgres.Identifier.{quote_identifier, quote_qualified_identifier}
use pgstream.Writer.Query.{Query, Arg, scalar}
use pgstream.Writer.Message.{SchemaInfo}
use pgstream.Writer.Bulk.{Json, join}
use pgstream.Writer.Dml.{DmlAdapter, Pgtype}
use pgstream.Writer.Dml.Columns.{Row, row_value, writable, filter-row_of, length-filter}
use pgstream.Writer.Dml.Queries.{placeholders, build_on_conflict_query}
use pgstream.Writer.Dml.Bulk.{row_of_values, then_row, filter_row_columns, insert_rows, rows_query}

length-scalars : (vs : List Value) → length (map scalar vs) ≡ length vs
length-scalars [] = refl
length-scalars (v ∷ vs) = ap suc (length-scalars vs)

module _ (pq_quote : Str → Str) (json : Json) (pgtype : Pgtype) (a : DmlAdapter)
    (info : SchemaInfo) where
  -- The columns that an event writes, and their values.
  abbrev pub columns_of : Data → List Str
  columns_of e =
      map (λ c. quote_identifier pq_quote c.name)
        (writable pq_quote json pgtype a e.columns info false)

  abbrev pub values_of : Data → List Arg
  values_of e = map scalar (
      map (row_value pq_quote json pgtype a) (writable pq_quote json pgtype a e.columns info false))

  -- The values that these events write, in order.
  abbrev pub written : List Data → List Arg
  written [] = []
  written (e ∷ es) = values_of e ++ written es

  -- The event writes just these columns, in this order.
  abbrev pub Alike : List Str → Data → Type 0
  Alike names e = columns_of e ≡ names

  -- The tuple of each event, with a placeholder for each column, numbered on from one event to the next.
  abbrev pub tuples : List Str → ℕ → List Data → List Str
  tuples names idx [] = []
  tuples names idx (e ∷ es) =
      (bytes "(" ++ join (bytes ", ") (placeholders idx names) ++ bytes ")")
      ∷ tuples names (idx + length names) es

  pub written-append : (xs ys : List Data) → written (xs ++ ys) ≡ written xs ++ written ys
  written-append [] ys = refl
  written-append (x ∷ xs) ys =
      ap (λ u. values_of x ++ u) (written-append xs ys)
      ∙ sym (append_assoc (values_of x) (written xs) (written ys))

  row_exact :
      (names : List Str) (idx : ℕ) (vs : List Value)
      → length vs ≡ length names
      → row_of_values pq_quote json pgtype a (length names) idx vs
        ≡ some (placeholders idx names, idx + length names)
  unfolding row_of_values
  row_exact [] idx [] h =
      let same : idx ≡ idx + 0 = omega arith in
      ap {B = Option (List Str × ℕ)} (λ i. some ([], i)) same
  row_exact [] idx (v ∷ vs) h = absurd (omega arith)
  row_exact (n ∷ names) idx [] h = absurd (omega arith)
  row_exact (n ∷ names) idx (v ∷ vs) h =
      let rest = row_exact names (suc idx) vs (omega arith) in
      let same : suc idx + length names ≡ idx + suc (length names) = omega arith in
      simp (rest, row_of_values, same)

  then_row_exact :
      (ps : List Str) (end : ℕ) (vs : List Value) (ts : List Str) (args : List Arg)
      (rest : ℕ → Option (List Str × List Arg))
      → rest end ≡ some (ts, args)
      → then_row pq_quote json pgtype a (some (ps, end)) vs rest
        ≡ some ((bytes "(" ++ join (bytes ", ") ps ++ bytes ")") ∷ ts, map scalar vs ++ args)
  unfolding then_row
  then_row_exact ps end vs ts args rest e = rw (e, then_row) refl

  row_values :
      (e : Data)
      → filter_row_columns pq_quote json pgtype a info e
        ≡ map
            (row_value pq_quote json pgtype a)
            (writable pq_quote json pgtype a e.columns info false)
  unfolding filter_row_columns
  row_values e = ap (λ r. r.values) (filter-row_of pq_quote json pgtype a e.columns info false)

  length-row :
      (names : List Str) (e : Data)
      → Alike names e
      → length (filter_row_columns pq_quote json pgtype a info e) ≡ length names
  unfolding filter_row_columns
  length-row names e h =
      (length-filter pq_quote json pgtype a e.columns info false).0
      ∙ ap (λ r. length r.names) (filter-row_of pq_quote json pgtype a e.columns info false)
      ∙ ap length h

  insert_rows_exact :
      (names : List Str) (idx : ℕ) (es : List Data)
      → All (Alike names) es
      → insert_rows pq_quote json pgtype a info (length names) idx es
        ≡ some (tuples names idx es, written es)
  unfolding insert_rows
  insert_rows_exact names idx [] h = refl
  insert_rows_exact names idx (e ∷ es) h =
      let vs = filter_row_columns pq_quote json pgtype a info e in
      let n = length names in
      let more = λ (end : ℕ). insert_rows pq_quote json pgtype a info n end es in
      ap (λ row. then_row pq_quote json pgtype a row vs more)
        (row_exact names idx vs (length-row names e h.0))
      ∙ then_row_exact (placeholders idx names) (idx + n) vs (tuples names (idx + n) es)
          (written es) more (insert_rows_exact names (idx + n) es h.1)
      ∙ ap (λ us. some (tuples names idx (e ∷ es), map scalar us ++ written es)) (row_values e)

  pub written_fits :
      (names : List Str) (es : List Data)
      → All (Alike names) es
      → length (written es) ≤ length names * length es
  written_fits names [] h = omega arith
  written_fits names (e ∷ es) h =
      let rest = written_fits names es h.1 in
      let sum = length-append (values_of e) (written es) in
      let one : length (values_of e) ≡ length names =
        ap (λ us. length (map scalar us)) (sym (row_values e))
        ∙ length-scalars (filter_row_columns pq_quote json pgtype a info e)
        ∙ length-row names e h.0 in
      let n = length names in grind arith

  -- The query inserts a row for each of these events into the table of the first: its columns, a tuple for each event,
  -- and the values of the events in the order of the numbers.
  pub record InsertsRows (first : Data) (names : List Str) (es : List Data) (q : Query)
      : Type 0 where
    pub columns : q.column_names ≡ names
    pub values : q.args ≡ written es
    pub text :
        q.sql
        ≡ bytes "INSERT INTO "
          ++ quote_qualified_identifier pq_quote first.schema first.table
          ++ bytes "("
          ++ join (bytes ", ") names
          ++ bytes ") OVERRIDING SYSTEM VALUE VALUES"
          ++ join (bytes ",") (tuples names 0 es)
          ++ build_on_conflict_query pq_quote json pgtype a first names

  pub rows_query_built :
      (first : Data) (row : Row) (es : List Data)
      → All (Alike row.names) es
      → (q : Query) × (rows_query pq_quote json pgtype a first row
            (insert_rows pq_quote json pgtype a info (length row.names) 0 es)
          ≡ some q)
        × InsertsRows first row.names es q
  unfolding rows_query
  rows_query_built first row es h =
      let (q, built, inserts) = of_rows (tuples row.names 0 es, written es) refl refl in
      (
        q,
        ap (rows_query pq_quote json pgtype a first row) (insert_rows_exact row.names 0 es h)
            ∙ built,
        inserts,
      )
    where
      of_rows :
          (rows : List Str × List Arg)
          → rows.0 ≡ tuples row.names 0 es
          → rows.1 ≡ written es
          → (q : Query) × (rows_query pq_quote json pgtype a first row (some rows) ≡ some q)
            × InsertsRows first row.names es q
      of_rows (ts, args) t w =
          unfold rows_query in (_, refl, record { columns = refl; values = w; text = rw t refl })
