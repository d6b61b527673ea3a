-- ===== src/Writer/Dml/Bulk/Given.antt =====
-- pkg/wal/processor/postgres/postgres_wal_dml_adapter_bulk.go: the integers that a bulk insert gives to sequences.
use pgstream.Prelude.{
  ◌≡◌, ◌⊎◌, refl, sym, ap, ◌∙◌, inl, inr, false, Option, none, some, List, [], ◌∷◌, ◌++◌, Str,
  str_eq, str_eq_iff, str_eq_refl, All, All-map, Any, Bool-cases, Option-cases, arith,
}
use pgstream.Prelude.Int.{ℤ}
use pgstream.Prelude.Maps.{lookup, insert, lookup-insert}
use pgstream.Postgres.Identifier.{quote_identifier}
use pgstream.Wal.{Column, Data}
use pgstream.Writer.Message.{SchemaInfo}
use pgstream.Writer.Bulk.{Json}
use pgstream.Writer.Dml.{DmlAdapter, Pgtype, to_int64}
use pgstream.Writer.Dml.Bulk.{
  with_sequence, assigned, larger, note_max, track_columns, track_events,
}
use pgstream.Writer.Dml.Bulk.Max.{given_by, given}

-- No key is twice in the map.
abbrev pub Distinct : List (Str × ℤ) → Type 0
Distinct [] = Unit
Distinct ((j, w) ∷ m) = (lookup j m ≡ none) × Distinct m

insert-Distinct : (k : Str) (v : ℤ) (m : List (Str × ℤ)) → Distinct m → Distinct (insert k v m)
unfolding insert lookup
insert-Distinct k v [] d = (refl, tt)
insert-Distinct k v ((j, w) ∷ m) d = elim (Bool-cases (str_eq j k)) [
  | inl e ↦ let same : j ≡ k = (str_eq_iff j k).0 e in rw (e, insert) (rw same at d.0, d.1)
  | inr e ↦
      let other : str_eq k j ≡ false = ground (arith, str_eq_iff j k, str_eq_iff k j) in
      let absent : lookup j (insert k v m) ≡ none = rw (lookup-insert k j v m, other) d.0 in
      rw (e, insert) (absent, insert-Distinct k v m d.1)
]

found_below :
    (j : Str) (w : ℤ) (m : List (Str × ℤ)) (e : Str × ℤ)
    → lookup j m ≡ none
    → lookup e.0 m ≡ some e.1
    → lookup e.0 ((j, w) ∷ m) ≡ some e.1
unfolding lookup
found_below j w m e n f = elim (Bool-cases (str_eq j e.0)) [
  | inl s ↦
      let same : j ≡ e.0 = (str_eq_iff j e.0).0 s in
      let bad : lookup e.0 m ≡ none = (rw same at n) in absurd (cc)
  | inr s ↦ rw s f
]

pub All-found : (m : List (Str × ℤ)) → Distinct m → All (λ e. lookup e.0 m ≡ some e.1) m
unfolding lookup
All-found [] d = tt
All-found ((j, w) ∷ m) d =
    (rw (str_eq_refl j) refl, All-map m (λ e f. found_below j w m e d.0 f) (All-found m d.1))

module _ (pq_quote : Str → Str) (json : Json) (pgtype : Pgtype) (a : DmlAdapter)
    (info : SchemaInfo) where
  note_max-Distinct :
      (maxes : List (Str × ℤ)) (seq : Str) (v : ℤ)
      → Distinct maxes
      → Distinct (note_max pq_quote json pgtype a maxes seq v)
  unfolding note_max
  note_max-Distinct maxes seq v d =
      elim (Bool-cases (larger pq_quote json pgtype a (lookup seq maxes) v)) [
        | inl e ↦ rw e (insert-Distinct seq v maxes d)
        | inr e ↦ rw e d
      ]

  track_columns-Distinct :
      (maxes : List (Str × ℤ)) (cols : List Column)
      → Distinct maxes
      → Distinct (track_columns pq_quote json pgtype a info maxes cols)
  unfolding track_columns
  track_columns-Distinct maxes [] d = d
  track_columns-Distinct maxes (col ∷ cols) d =
      elim (Option-cases (assigned pq_quote json pgtype a info col)) [
        | inl e ↦ rw (e, track_columns) (track_columns-Distinct maxes cols d)
        | inr ((s, v), e) ↦
            rw (e, track_columns)
              (track_columns-Distinct (note_max pq_quote json pgtype a maxes s v) cols
                (note_max-Distinct maxes s v d))
      ]

  pub track_events-Distinct :
      (maxes : List (Str × ℤ)) (es : List Data)
      → Distinct maxes
      → Distinct (track_events pq_quote json pgtype a info maxes es)
  unfolding track_events
  track_events-Distinct maxes [] d = d
  track_events-Distinct maxes (e ∷ es) d =
      track_events-Distinct (track_columns pq_quote json pgtype a info maxes e.columns) es
        (track_columns-Distinct maxes e.columns d)

  -- The column belongs to the sequence and has this integer.
  abbrev pub Gives : Str → ℤ → Column → Type 0
  Gives seq v col =
      (to_int64 pgtype col.value ≡ some v)
      × (lookup (quote_identifier pq_quote col.name) info.sequence_columns ≡ some seq)

  assigned-Gives :
      (col : Column)
      → ((assigned pq_quote json pgtype a info col ≡ none)
          × ((s : Str) (w : ℤ) → Gives s w col → ⊥))
        ⊎ ((s : Str) × (w : ℤ) × (assigned pq_quote json pgtype a info col ≡ some (s, w))
            × Gives s w col)
  unfolding assigned
  assigned-Gives col =
      let key = lookup (quote_identifier pq_quote col.name) info.sequence_columns in
      elim (Option-cases (to_int64 pgtype col.value)) [
        | inl n ↦ inl (simp (n, with_sequence), λ s w g. absurd (cc))
        | inr (w, q) ↦ elim (Option-cases key) [
          | inl n ↦ inl (simp (q, n, with_sequence), λ s u g. absurd (cc))
          | inr (s, k) ↦ inr (s, w, simp (q, k, with_sequence), (q, k))
        ]
      ]

  same_pair :
      (s t : Str) (v w : ℤ)
      → ◌≡◌ {A = Option ℤ} (some v) (some w)
      → ◌≡◌ {A = Option Str} (some s) (some t)
      → (v ≡ w) × (s ≡ t)
  same_pair s t v w h k = (cc, cc)

  given_by-Any :
      (seq : Str) (v : ℤ) (cols : List Column)
      → Any (λ u. u ≡ v) (given_by pq_quote json pgtype a info seq cols)
      → Any (Gives seq v) cols
  given_by-Any seq v [] h = absurd h
  given_by-Any seq v (col ∷ cols) h = elim (assigned-Gives col) [
    | inl (n, absent) ↦ inr (given_by-Any seq v cols (rw (n, given_by) at h))
    | inr (s, w, q, g) ↦ elim (Bool-cases (str_eq s seq)) [
      | inl e ↦
          let same : s ≡ seq = (str_eq_iff s seq).0 e in
          let first : (w ≡ v) ⊎ Any (λ u. u ≡ v) (given_by pq_quote json pgtype a info seq cols) =
            rw (q, e, given_by) at h in
          elim first [
            | inl x ↦ inl (g.0 ∙ ap some x, g.1 ∙ ap some same)
            | inr x ↦ inr (given_by-Any seq v cols x)
          ]
      | inr e ↦ inr (given_by-Any seq v cols (rw (q, e, given_by) at h))
    ]
  ]

  given_by-All :
      (P : ℤ → Type 0) (seq : Str) (cols : List Column)
      → All P (given_by pq_quote json pgtype a info seq cols)
      → All (λ col. (w : ℤ) → Gives seq w col → P w) cols
  given_by-All P seq [] h = tt
  given_by-All P seq (col ∷ cols) h = elim (assigned-Gives col) [
    | inl (n, absent) ↦
        (λ w g. absurd (absent seq w g), given_by-All P seq cols (rw (n, given_by) at h))
    | inr (s, v, q, g) ↦ elim (Bool-cases (str_eq s seq)) [
      | inl e ↦
          let both : P v × All P (given_by pq_quote json pgtype a info seq cols) =
            rw (q, e, given_by) at h in
          (
            λ w k.
                let same = (same_pair s seq v w (sym g.0 ∙ k.0) (sym g.1 ∙ k.1)).0 in
                rw (← same) both.0,
            given_by-All P seq cols both.1,
          )
      | inr e ↦ (
        λ w k.
            let same = (same_pair s seq v w (sym g.0 ∙ k.0) (sym g.1 ∙ k.1)).1 in
            let equal = (str_eq_iff s seq).1 same in absurd (cc),
        given_by-All P seq cols (rw (q, e, given_by) at h),
      )
    ]
  ]

  Any-split : (P : ℤ → Type 0) (xs ys : List ℤ) → Any P (xs ++ ys) → Any P xs ⊎ Any P ys
  Any-split P [] ys h = inr h
  Any-split P (x ∷ xs) ys (inl h) = inl (inl h)
  Any-split P (x ∷ xs) ys (inr h) = elim (Any-split P xs ys h) [
    | inl k ↦ inl (inr k)
    | inr k ↦ inr k
  ]

  All-split : (P : ℤ → Type 0) (xs ys : List ℤ) → All P (xs ++ ys) → All P xs × All P ys
  All-split P [] ys h = (tt, h)
  All-split P (x ∷ xs) ys h = let (l, r) = All-split P xs ys h.1 in ((h.0, l), r)

  pub given-Any :
      (seq : Str) (v : ℤ) (es : List Data)
      → Any (λ u. u ≡ v) (given pq_quote json pgtype a info seq es)
      → Any (λ e. Any (Gives seq v) e.columns) es
  given-Any seq v [] h = absurd h
  given-Any seq v (e ∷ es) h =
      elim (Any-split (λ u. u ≡ v) (given_by pq_quote json pgtype a info seq e.columns)
        (given pq_quote json pgtype a info seq es) h) [
          | inl k ↦ inl (given_by-Any seq v e.columns k)
          | inr k ↦ inr (given-Any seq v es k)
        ]

  -- What holds of every integer that the events give the sequence.
  abbrev pub AllGiven : (ℤ → Type 0) → Str → List Data → Type 0
  AllGiven P seq es = All (λ e. All (λ col. (w : ℤ) → Gives seq w col → P w) e.columns) es

  pub given-All :
      (P : ℤ → Type 0) (seq : Str) (es : List Data)
      → All P (given pq_quote json pgtype a info seq es)
      → AllGiven P seq es
  given-All P seq [] h = tt
  given-All P seq (e ∷ es) h =
      let (l, r) =
        All-split P (given_by pq_quote json pgtype a info seq e.columns)
          (given pq_quote json pgtype a info seq es) h in
      (given_by-All P seq e.columns l, given-All P seq es r)
