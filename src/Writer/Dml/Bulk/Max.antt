-- ===== src/Writer/Dml/Bulk/Max.antt =====
-- pkg/wal/processor/postgres/postgres_wal_dml_adapter_bulk.go: the value that a bulk insert sets a sequence to.
use pgstream.Prelude.{
  ◌≡◌, refl, inl, inr, Bool, true, false, Option, none, some, List, [], ◌∷◌, ◌++◌, Str, str_eq,
  str_eq_iff, str_eq_refl, append_assoc, append-nil, All, All-append, All-map, Any, Bool-cases,
  Option-cases, arith, if◌then◌else◌,
}
use pgstream.Prelude.Int.{ℤ, pos, negsuc, ltb_ℤ, ◌≤ℤ◌}
use pgstream.Prelude.Maps.{lookup, lookup-insert}
use pgstream.Wal.{Column, Data}
use pgstream.Writer.Message.{SchemaInfo}
use pgstream.Writer.Bulk.{Json}
use pgstream.Writer.Dml.{DmlAdapter, Pgtype}
use pgstream.Writer.Dml.Bulk.{assigned, larger, note_max, track_columns, track_events}

-- The largest of these, if there are any.
abbrev pub IsMax : List ℤ → Option ℤ → Type 0
IsMax vs none = vs ≡ []
IsMax vs (some m) = Any (λ v. v ≡ m) vs × All (λ v. v ≤ℤ m) vs

Any-left : (P : ℤ → Type 0) (xs ys : List ℤ) → Any P xs → Any P (xs ++ ys)
Any-left P [] ys h = absurd h
Any-left P (x ∷ xs) ys (inl h) = inl h
Any-left P (x ∷ xs) ys (inr h) = inr (Any-left P xs ys h)

Any-right : (P : ℤ → Type 0) (xs ys : List ℤ) → Any P ys → Any P (xs ++ ys)
Any-right P [] ys h = h
Any-right P (x ∷ xs) ys h = inr (Any-right P xs ys h)

≤ℤ-refl : (a : ℤ) → a ≤ℤ a
≤ℤ-refl (pos n) = omega arith
≤ℤ-refl (negsuc n) = omega arith

≤ℤ-larger : (a b : ℤ) → ltb_ℤ a b ≡ true → (c : ℤ) → c ≤ℤ a → c ≤ℤ b
≤ℤ-larger a b e c h = ground arith

≤ℤ-not_larger : (a b : ℤ) → ltb_ℤ a b ≡ false → b ≤ℤ a
≤ℤ-not_larger a b e = ground arith

module _ (pq_quote : Str → Str) (json : Json) (pgtype : Pgtype) (a : DmlAdapter) where
  -- The integers that these columns give to the sequence.
  abbrev pub given_by : SchemaInfo → Str → List Column → List ℤ
  given_by info seq [] = []
  given_by info seq (col ∷ cols) = elim (assigned pq_quote json pgtype a info col) [
    | none ↦ given_by info seq cols
    | some (s, v) ↦ if str_eq s seq then v ∷ given_by info seq cols else given_by info seq cols
  ]

  abbrev pub given : SchemaInfo → Str → List Data → List ℤ
  given info seq [] = []
  given info seq (e ∷ es) = given_by info seq e.columns ++ given info seq es

  note_max-IsMax :
      (maxes : List (Str × ℤ)) (seq : Str) (v : ℤ) (vs : List ℤ)
      → IsMax vs (lookup seq maxes)
      → IsMax (vs ++ v ∷ []) (lookup seq (note_max pq_quote json pgtype a maxes seq v))
  unfolding note_max larger
  note_max-IsMax maxes seq v vs h =
      let found = lookup-insert seq seq v maxes in
      let same = str_eq_refl seq in
      elim (Option-cases (lookup seq maxes)) [
        | inl e ↦
            let none_yet : vs ≡ [] = (rw e at h) in
            simp (e, found, same, none_yet, larger) (inl refl, (≤ℤ-refl v, tt))
        | inr (m, e) ↦
            let so_far : IsMax vs (some m) = (rw e at h) in
            elim (Bool-cases (ltb_ℤ m v)) [
              | inl l ↦
                  simp (e, l, found, same, larger)
                    (
                      Any-right (λ u. u ≡ v) vs (v ∷ []) (inl refl),
                      All-append (λ u. u ≤ℤ v) vs (v ∷ []) (All-map vs (≤ℤ-larger m v l) so_far.1)
                          (≤ℤ-refl v, tt),
                    )
              | inr l ↦
                  simp (e, l, larger)
                    (
                      Any-left (λ u. u ≡ m) vs (v ∷ []) so_far.0,
                      All-append (λ u. u ≤ℤ m) vs (v ∷ []) so_far.1 (≤ℤ-not_larger m v l, tt),
                    )
            ]
      ]

  note_max-other :
      (maxes : List (Str × ℤ)) (seq other : Str) (v : ℤ)
      → str_eq seq other ≡ false
      → lookup other (note_max pq_quote json pgtype a maxes seq v) ≡ lookup other maxes
  unfolding note_max
  note_max-other maxes seq other v e =
      let found = lookup-insert seq other v maxes in
      elim (Bool-cases (larger pq_quote json pgtype a (lookup seq maxes) v)) [
        | inl l ↦ simp (l, found, e)
        | inr l ↦ simp l
      ]

  noted-IsMax :
      (maxes : List (Str × ℤ)) (s seq : Str) (v : ℤ) (vs : List ℤ)
      → IsMax vs (lookup seq maxes)
      → IsMax
          (vs ++ (if str_eq s seq then v ∷ [] else []))
          (lookup seq (note_max pq_quote json pgtype a maxes s v))
  noted-IsMax maxes s seq v vs h = elim (Bool-cases (str_eq s seq)) [
    | inl e ↦
        let same : s ≡ seq = (str_eq_iff s seq).0 e in
        rw (e, same) (note_max-IsMax maxes seq v vs h)
    | inr e ↦ rw (e, append-nil vs, note_max-other maxes s seq v e) h
  ]

  track_columns-IsMax :
      (info : SchemaInfo) (seq : Str) (cols : List Column) (maxes : List (Str × ℤ)) (vs : List ℤ)
      → IsMax vs (lookup seq maxes)
      → IsMax
          (vs ++ given_by info seq cols)
          (lookup seq (track_columns pq_quote json pgtype a info maxes cols))
  unfolding track_columns
  track_columns-IsMax info seq [] maxes vs h = rw (append-nil vs) h
  track_columns-IsMax info seq (col ∷ cols) maxes vs h =
      elim (Option-cases (assigned pq_quote json pgtype a info col)) [
        | inl e ↦ rw (e, track_columns, given_by) (track_columns-IsMax info seq cols maxes vs h)
        | inr ((s, v), e) ↦
            let rest =
              track_columns-IsMax info seq cols (note_max pq_quote json pgtype a maxes s v)
                (vs ++ (if str_eq s seq then v ∷ [] else [])) (noted-IsMax maxes s seq v vs h) in
            let split : vs ++ (if str_eq s seq then v ∷ [] else []) ++ given_by info seq cols
                ≡ vs
                  ++ (if str_eq s seq then v ∷ given_by info seq cols else given_by info seq cols) =
              append_if (str_eq s seq) v vs (given_by info seq cols) in
            rw (e, track_columns, given_by) (rw split at rest)
      ]
    where
      append_if :
          (b : Bool) (v : ℤ) (xs ys : List ℤ)
          → xs ++ (if b then v ∷ [] else []) ++ ys ≡ xs ++ (if b then v ∷ ys else ys)
      append_if true v xs ys = append_assoc xs (v ∷ []) ys
      append_if false v xs ys = rw (append-nil xs) refl

  track-IsMax :
      (info : SchemaInfo) (seq : Str) (events : List Data) (maxes : List (Str × ℤ)) (vs : List ℤ)
      → IsMax vs (lookup seq maxes)
      → IsMax
          (vs ++ given info seq events)
          (lookup seq (track_events pq_quote json pgtype a info maxes events))
  unfolding track_events
  track-IsMax info seq [] maxes vs h = rw (append-nil vs) h
  track-IsMax info seq (e ∷ es) maxes vs h =
      let columns = track_columns-IsMax info seq e.columns maxes vs h in
      let rest =
        track-IsMax info seq es (track_columns pq_quote json pgtype a info maxes e.columns)
          (vs ++ given_by info seq e.columns) columns in
      rw (append_assoc vs (given_by info seq e.columns) (given info seq es)) at rest

  -- The map that is tracked has, for a sequence, the largest of the integers that the events give it, if there are any.
  pub track_events-IsMax :
      (info : SchemaInfo) (seq : Str) (events : List Data)
      → IsMax
          (given info seq events)
          (lookup seq (track_events pq_quote json pgtype a info [] events))
  track_events-IsMax info seq events = track-IsMax info seq events [] [] no_value
    where
      no_value : IsMax [] (lookup seq [])
      no_value = unfold lookup in refl
