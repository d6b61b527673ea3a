-- ===== src/Writer/Bulk/Chunks.antt =====
-- pkg/wal/processor/postgres/postgres_wal_dml_adapter_bulk.go: a bulk delete of rows with a composite key
-- covers all of them, within the limit of parameters.
use pgstream.Prelude.{
  ℕ, zero, suc, ◌*◌, ◌/◌, ◌≤◌, ◌≡◌, refl, sym, ap, ◌∙◌, inl, inr, Option, none, some, List, [], ◌∷◌,
  ◌++◌, Str, append_assoc, length, length-append, length-take, take, drop, take-append-drop,
  length-drop, All, All-map, arith, Option-cases,
}
use native.Mathlib.Nat.{mul-div-le, le-div_iff_mul-le}
use pgstream.Wal.{Column, Data}
use pgstream.Writer.Query.{Query, Arg}
use pgstream.Writer.Bulk.{
  Json, args_of, get_identity_columns, row_placeholders, one_row, chunk_rows, chunk_query,
  names_of_first, and_rest, delete_chunks, events_per_chunk, max_params_per_query,
  build_bulk_delete_composite_pk,
}

module _ (pq_quote : Str → Str) (json : Json) where
  identity_args : Option (List Column) → List Arg
  identity_args none = []
  identity_args (some cols) = args_of pq_quote json cols

  -- The identity values of these events, in order.
  unfoldable pub values_of : List Data → List Arg
  unfolding identity_args
  values_of [] = []
  values_of (e ∷ es) = identity_args (get_identity_columns e) ++ values_of es

  abbrev pub all_args : List Query → List Arg
  all_args [] = []
  all_args (q ∷ qs) = q.args ++ all_args qs

  length-args_of : (cols : List Column) → length (args_of pq_quote json cols) ≡ length cols
  length-args_of [] = refl
  length-args_of (col ∷ cols) = ap suc (length-args_of cols)

  row_fits :
      (room idx : ℕ) (cols : List Column) (ps : List Str) (end : ℕ)
      → row_placeholders pq_quote json room idx cols ≡ some (ps, end)
      → length cols ≤ room
  unfolding row_placeholders
  row_fits room idx [] ps end e = omega arith
  row_fits zero idx (col ∷ cols) ps end e = absurd (cc)
  row_fits (suc room) idx (col ∷ cols) ps end e =
      elim (Option-cases (row_placeholders pq_quote json room (suc idx) cols)) [
        | inl q ↦
            let bad : ◌≡◌ {A = Option (List Str × ℕ)} none (some (ps, end)) =
              (rw (q, row_placeholders) at e) in
            absurd (cc)
        | inr ((ps', end'), q) ↦ let fits = row_fits room (suc idx) cols ps' end' q in omega arith
      ]

  record Rows (n : ℕ) (es : List Data) (args : List Arg) : Type 0 where
    values : args ≡ values_of es
    fits : length args ≤ n * length es

  record OneRow (o : Option (List Str × ℕ)) (cols : List Column)
      (rest : ℕ → Option (List Str × List Arg)) (args : List Arg) : Type 0 where
    ps : List Str
    end : ℕ
    tuples : List Str
    more : List Arg
    row : o ≡ some (ps, end)
    others : rest end ≡ some (tuples, more)
    joined : args ≡ args_of pq_quote json cols ++ more

  one_row-OneRow :
      (o : Option (List Str × ℕ)) (cols : List Column) (rest : ℕ → Option (List Str × List Arg))
      (tuples : List Str) (args : List Arg)
      → one_row pq_quote json o cols rest ≡ some (tuples, args)
      → OneRow o cols rest args
  unfolding one_row
  one_row-OneRow none cols rest tuples args e = absurd (cc)
  one_row-OneRow (some (ps, end)) cols rest tuples args e = elim (Option-cases (rest end)) [
    | inl q ↦
        let bad : ◌≡◌ {A = Option (List Str × List Arg)} none (some (tuples, args)) =
          (rw (q, one_row) at e) in
        absurd (cc)
    | inr ((ts, more), q) ↦ record {
      ps = ps;
      end = end;
      tuples = ts;
      more = more;
      row = refl;
      others = q;
      joined = some_args {ts = _} {us = tuples} {xs = _} {ys = args} (rw (q, one_row) at e);
    }
  ]
    where
      some_args :
          {ts us : List Str} {xs ys : List Arg}
          → ◌≡◌ {A = Option (List Str × List Arg)} (some (ts, xs)) (some (us, ys))
          → ys ≡ xs
      some_args h = cc

  chunk_rows-Rows :
      (n idx : ℕ) (es : List Data) (tuples : List Str) (args : List Arg)
      → chunk_rows pq_quote json n idx es ≡ some (tuples, args)
      → Rows n es args
  unfolding chunk_rows values_of identity_args
  chunk_rows-Rows n idx [] tuples args e =
      let same : args ≡ [] = cc in record { values = same; fits = rw same (omega arith) }
  chunk_rows-Rows n idx (ev ∷ es) tuples args e = elim (Option-cases (get_identity_columns ev)) [
    | inl q ↦
        let bad : ◌≡◌ {A = Option (List Str × List Arg)} none (some (tuples, args)) =
          (rw (q, chunk_rows) at e) in
        absurd (cc)
    | inr (cols, q) ↦
        let r =
          one_row-OneRow (row_placeholders pq_quote json n idx cols) cols
            (λ end. chunk_rows pq_quote json n end es) tuples args (rw (q, chunk_rows) at e) in
        let rest = chunk_rows-Rows n r.end es r.tuples r.more r.others in
        let one = row_fits n idx cols r.ps r.end r.row in
        let more = rest.fits in
        let sum = length-append (args_of pq_quote json cols) r.more in
        let len = length-args_of cols in
        record {
          values =
              r.joined
              ∙ rw (q, identity_args) (ap (λ u. args_of pq_quote json cols ++ u) rest.values);
          fits = rw r.joined (grind arith);
        }
  ]

  values_of-append : (xs ys : List Data) → values_of (xs ++ ys) ≡ values_of xs ++ values_of ys
  unfolding values_of
  values_of-append [] ys = refl
  values_of-append (x ∷ xs) ys =
      ap (λ u. identity_args (get_identity_columns x) ++ u) (values_of-append xs ys)
      ∙ sym (append_assoc (identity_args (get_identity_columns x)) (values_of xs) (values_of ys))

  chunk_query-Rows :
      (table : Str) (e : Data) (names : Option (List Str)) (n : ℕ) (chunk : List Data) (q : Query)
      → chunk_query pq_quote json table e names (chunk_rows pq_quote json n 0 chunk) ≡ some q
      → Rows n chunk q.args
  unfolding chunk_query
  chunk_query-Rows table e names n chunk q h =
      by_rows names (chunk_rows pq_quote json n 0 chunk) refl h
    where
      by_rows :
          (names : Option (List Str)) (rows : Option (List Str × List Arg))
          → chunk_rows pq_quote json n 0 chunk ≡ rows
          → chunk_query pq_quote json table e names rows ≡ some q
          → Rows n chunk q.args
      by_rows none rows r h = absurd (cc)
      by_rows (some names) none r h = absurd (cc)
      by_rows (some names) (some (tuples, args)) r h =
          let same : q.args ≡ args = cc in rw same (chunk_rows-Rows n 0 chunk tuples args r)

  -- Queries that hold the values of these events, each with so many parameters at most.
  pub record Covers (limit : ℕ) (es : List Data) (qs : List Query) : Type 0 where
    pub all_values : all_args qs ≡ values_of es
    pub within : All (λ q. length q.args ≤ limit) qs

  and_rest-Covers :
      (o : Option Query) (rest : Option (List Query)) (limit : ℕ) (chunk others : List Data)
      (qs : List Query)
      → and_rest pq_quote json o rest ≡ some qs
      → ((q : Query) → o ≡ some q → (q.args ≡ values_of chunk) × (length q.args ≤ limit))
      → ((qs : List Query) → rest ≡ some qs → Covers limit others qs)
      → Covers limit (chunk ++ others) qs
  unfolding and_rest
  and_rest-Covers none rest limit chunk others qs e h k = absurd (cc)
  and_rest-Covers (some q) none limit chunk others qs e h k = absurd (cc)
  and_rest-Covers (some q) (some rest) limit chunk others qs e h k =
      let same : qs ≡ q ∷ rest = cc in
      let (values, fits) = h q refl in
      let r = k rest refl in
      rw same (record {
        all_values =
            ap (λ u. u ++ all_args rest) values
            ∙ ap (λ u. values_of chunk ++ u) r.all_values
            ∙ sym (values_of-append chunk others);
        within = (fits, r.within);
      })

  length_product : (n a b : ℕ) → a ≤ b → n * a ≤ n * b
  length_product n a b h = grind arith

  delete_chunks-Covers :
      (fuel per n : ℕ) (table : Str) (es : List Data) (qs : List Query)
      → 1 ≤ per
      → length es ≤ fuel
      → delete_chunks pq_quote json fuel per n table es ≡ some qs
      → Covers (n * per) es qs
  unfolding delete_chunks values_of
  delete_chunks-Covers zero per n table [] qs p l e =
      let same : qs ≡ [] = cc in rw same (record { all_values = refl; within = tt })
  delete_chunks-Covers zero per n table (d ∷ es) qs p l e = absurd (omega arith)
  delete_chunks-Covers (suc fuel) per n table [] qs p l e =
      let same : qs ≡ [] = cc in rw same (record { all_values = refl; within = tt })
  delete_chunks-Covers (suc fuel) per n table (d ∷ es) qs p l e =
      let chunk = take per (d ∷ es) in
      let others = drop per (d ∷ es) in
      let fewer : length others ≤ fuel = omega (arith, length-drop per (d ∷ es)) in
      let short : length chunk ≤ per = omega (arith, length-take per (d ∷ es)) in
      let covers : Covers (n * per) (chunk ++ others) qs =
        and_rest-Covers
          (chunk_query pq_quote json table d (names_of_first pq_quote json n d)
            (chunk_rows pq_quote json n 0 chunk))
          (delete_chunks pq_quote json fuel per n table others) (n * per) chunk others qs e
          (λ q h.
            let r = chunk_query-Rows table d (names_of_first pq_quote json n d) n chunk q h in
            let fits = r.fits in
            let wide = length_product n (length chunk) per short in (r.values, omega arith))
          (λ rest h. delete_chunks-Covers fuel per n table others rest p fewer h) in
      rw (take-append-drop per (d ∷ es)) at covers

  -- The queries of a bulk delete of rows with a composite key of up to 60000 columns hold the identity
  -- values of all the events, in order, and none has more than 60000 parameters.
  pub build_bulk_delete_composite_pk-Covers :
      (events : List Data) (n : ℕ) (table : Str) (qs : List Query)
      → 1 ≤ n
      → n ≤ max_params_per_query
      → build_bulk_delete_composite_pk pq_quote json events n table ≡ some qs
      → Covers max_params_per_query events qs
  unfolding build_bulk_delete_composite_pk
  build_bulk_delete_composite_pk-Covers events n table qs h1 h2 e =
      let positive : 1 ≤ max_params_per_query / n =
        (le-div_iff_mul-le {k = n} {x = 1} (omega arith)).1 (omega arith) in
      let per : events_per_chunk n ≡ max_params_per_query / n = ground arith in
      let limit : n * events_per_chunk n ≤ max_params_per_query =
        rw per (mul-div-le max_params_per_query n) in
      let c =
        delete_chunks-Covers (length events) (events_per_chunk n) n table events qs (omega arith)
          (omega arith) e in
      record { all_values = c.all_values; within = All-map qs (λ q h. omega arith) c.within }
