-- ===== src/Writer/Dml/Bulk/Sequences.antt =====
-- pkg/wal/processor/postgres/postgres_wal_dml_adapter_bulk.go: the queries that set sequences after a bulk insert.
use pgstream.Prelude.{
  ◌≤◌, ◌≡◌, refl, inl, inr, Bool, true, false, Option, none, some, List, [], ◌∷◌, ◌++◌, Str, str_eq,
  str_eq_iff, length, All, All-map, Any, Bool-cases, if◌then◌else◌,
}
use pgstream.Prelude.Int.{ℤ, ◌≤ℤ◌}
use pgstream.Prelude.Maps.{lookup}
use pgstream.Wal.{string, integer, Data}
use pgstream.Writer.Query.{Query, scalar}
use pgstream.Writer.Message.{SchemaInfo}
use pgstream.Writer.Bulk.{Json, max_params_per_query}
use pgstream.Writer.Dml.{DmlAdapter, Pgtype}
use pgstream.Writer.Dml.Queries.{query_with, setval}
use pgstream.Writer.Dml.Bulk.{track_events, setvals, sequence_maxes, build_bulk_insert_queries}
use pgstream.Writer.Dml.Bulk.Max.{IsMax, given, track_events-IsMax}
use pgstream.Writer.Dml.Bulk.Inserts.{Writes, inserts_built}
use pgstream.Writer.Dml.Bulk.Rows.{columns_of, Alike}
use pgstream.Writer.Dml.Bulk.Given.{
  All-found, track_events-Distinct, Gives, AllGiven, given-Any, given-All,
}

module _ (pq_quote : Str → Str) (json : Json) (pgtype : Pgtype) (a : DmlAdapter)
    (info : SchemaInfo) where
  -- The query that sets a sequence to an integer.
  abbrev pub SetTo : Data → Str → ℤ → Query → Type 0
  SetTo first seq v q = q ≡ query_with first setval (scalar (string seq) ∷ scalar (integer v) ∷ [])

  -- Every query sets a sequence to an integer that a column of the sequence has in one of the events, and that none
  -- exceeds; and every sequence of a column that has an integer is set.
  pub record SetsMaxes (first : Data) (es : List Data) (qs : List Query) : Type 0 where
    pub only :
        All
          (λ q.
            (seq : Str) × (v : ℤ) × SetTo first seq v q
            × Any (λ e. Any (Gives pq_quote json pgtype a info seq v) e.columns) es
            × AllGiven pq_quote json pgtype a info (λ w. w ≤ℤ v) seq es)
          qs
    pub each :
        (seq : Str)
        → AllGiven pq_quote json pgtype a info
            (λ w. Any (λ q. (v : ℤ) × SetTo first seq v q) qs)
            seq
            es

  setvals-All :
      (first : Data) (P : Query → Type 0) (m : List (Str × ℤ))
      → All (λ x. P (query_with first setval (scalar (string x.0) ∷ scalar (integer x.1) ∷ []))) m
      → All P (setvals pq_quote json pgtype a first m)
  unfolding setvals
  setvals-All first P [] h = tt
  setvals-All first P ((seq, v) ∷ m) h = (h.0, setvals-All first P m h.1)

  setvals-Any :
      (first : Data) (seq : Str) (v : ℤ) (m : List (Str × ℤ))
      → lookup seq m ≡ some v
      → Any (λ q. (u : ℤ) × SetTo first seq u q) (setvals pq_quote json pgtype a first m)
  unfolding setvals lookup
  setvals-Any first seq v [] h = absurd (cc)
  setvals-Any first seq v ((s, u) ∷ m) h = elim (Bool-cases (str_eq s seq)) [
    | inl e ↦ let same : s ≡ seq = (str_eq_iff s seq).0 e in inl (u, rw same refl)
    | inr e ↦ inr (setvals-Any first seq v m (rw e at h))
  ]

  maxes-SetsMaxes :
      (first : Data) (es : List Data)
      → SetsMaxes first es
          (setvals pq_quote json pgtype a first (track_events pq_quote json pgtype a info [] es))
  maxes-SetsMaxes first es = record {
    only = setvals-All first _ m (
        All-map m entry (All-found m (track_events-Distinct pq_quote json pgtype a info [] es tt)));
    each =
        λ seq. given-All pq_quote json pgtype a info _ seq es (by_lookup seq (lookup seq m) refl);
  }
    where
      m : List (Str × ℤ)
      m = track_events pq_quote json pgtype a info [] es

      entry :
          (x : Str × ℤ)
          → lookup x.0 m ≡ some x.1
          → (seq : Str) × (v : ℤ) × SetTo first seq v
              (query_with first setval (scalar (string x.0) ∷ scalar (integer x.1) ∷ []))
            × Any (λ e. Any (Gives pq_quote json pgtype a info seq v) e.columns) es
            × AllGiven pq_quote json pgtype a info (λ w. w ≤ℤ v) seq es
      entry (seq, v) f =
          let max : IsMax (given pq_quote json pgtype a info seq es) (some v) =
            (rw f at (track_events-IsMax pq_quote json pgtype a info seq es)) in
          (
            seq,
            v,
            refl,
            given-Any pq_quote json pgtype a info seq v es max.0,
            given-All pq_quote json pgtype a info (λ w. w ≤ℤ v) seq es max.1,
          )

      by_lookup :
          (seq : Str) (o : Option ℤ)
          → lookup seq m ≡ o
          → All
              (λ w.
                Any (λ q. (v : ℤ) × SetTo first seq v q) (setvals pq_quote json pgtype a first m))
              (given pq_quote json pgtype a info seq es)
      by_lookup seq none f =
          let empty : given pq_quote json pgtype a info seq es ≡ [] =
            (rw f at (track_events-IsMax pq_quote json pgtype a info seq es)) in
          rw empty tt
      by_lookup seq (some v) f =
          let max : IsMax (given pq_quote json pgtype a info seq es) (some v) =
            (rw f at (track_events-IsMax pq_quote json pgtype a info seq es)) in
          All-map (given pq_quote json pgtype a info seq es) (λ w le. setvals-Any first seq v m f)
            max.1

  sequence_maxes-copy :
      (es : List Data) → a.for_copy ≡ true → sequence_maxes pq_quote json pgtype a info es ≡ []
  unfolding sequence_maxes
  sequence_maxes-copy es c = if_true a.for_copy _ _ c
    where
      if_true : (b : Bool) (x y : List (Str × ℤ)) → b ≡ true → (if b then x else y) ≡ x
      if_true true x y h = refl
      if_true false x y h = absurd (cc)

  sequence_maxes-track_events :
      (es : List Data)
      → a.for_copy ≡ false
      → sequence_maxes pq_quote json pgtype a info es
        ≡ track_events pq_quote json pgtype a info [] es
  unfolding sequence_maxes
  sequence_maxes-track_events es c = if_false a.for_copy _ _ c
    where
      if_false : (b : Bool) (x y : List (Str × ℤ)) → b ≡ false → (if b then x else y) ≡ y
      if_false true x y h = absurd (cc)
      if_false false x y h = refl

  -- After the queries that insert the rows, a bulk insert of events that all write the same columns, between 1 and 60000
  -- of them, sets sequences, unless it is for a COPY, which sets none. Each query sets a sequence to the largest of the
  -- integers that the events have in columns of the sequence, whatever their order, and every sequence for which they
  -- have one is set.
  pub build_bulk_insert_queries-SetsMaxes :
      (e : Data) (es : List Data)
      → let names = columns_of pq_quote json pgtype a info e in
        1 ≤ length names
        → length names ≤ max_params_per_query
        → All (Alike pq_quote json pgtype a info names) es
        → (qs : List Query) × (sets : List Query) × (build_bulk_insert_queries pq_quote json pgtype
              a
              (e ∷ es)
              info
            ≡ some (qs ++ sets))
          × Writes pq_quote json pgtype a info max_params_per_query e names (e ∷ es) qs
          × (a.for_copy ≡ true → sets ≡ [])
          × (a.for_copy ≡ false → SetsMaxes e (e ∷ es) sets)
  unfolding setvals
  build_bulk_insert_queries-SetsMaxes e es h1 h2 h =
      let (qs, built, writes) = inserts_built pq_quote json pgtype a info e es h1 h2 h in
      (
        qs,
        setvals pq_quote json pgtype a e (sequence_maxes pq_quote json pgtype a info (e ∷ es)),
        built,
        writes,
        (λ c. rw (sequence_maxes-copy (e ∷ es) c) refl),
        (λ c. rw (sequence_maxes-track_events (e ∷ es) c) (maxes-SetsMaxes e (e ∷ es))),
      )
