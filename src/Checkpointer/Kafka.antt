-- ===== src/Checkpointer/Kafka.antt =====
-- pkg/wal/checkpointer/kafka/wal_kafka_checkpointer.go: of every partition the largest offset of a batch is
-- committed. The committer and its retries are left out: what it is called with is the result.
use pgstream.Prelude.{
  ◌≡◌, ◌⊎◌, inl, inr, refl, sym, ap, ◌∙◌, true, Option, none, some, List, [], ◌∷◌, ◌++◌, Str,
  str_eq, str_eq_iff, All, All-map, ℕ, suc, ◌+◌, length, length-append, Any, arith, Bool-cases,
  Option-cases, if◌then◌else◌,
}
use pgstream.Prelude.Int.{ℤ, pos, ltb_ℤ, ◌≤ℤ◌}
use pgstream.Prelude.Maps.{lookup, insert, lookup-insert}
use pgstream.Prelude.Decimal.{print_ℕ, print_int, print_ℕ-injective, print_ℕ-Without}
use pgstream.Prelude.Strings.{after_last, after_last-append}
use pgstream.Kafka.{Offset, from_string}

-- The key "%s-%d" of an offset.
unfoldable pub topic_partition : Offset → Str
topic_partition o = o.topic ++ b'-' ∷ print_int o.partition

abbrev pub OffsetMap : Type 0
OffsetMap = List (Str × Offset)

-- A first or a larger offset replaces what the map has.
keep_largest : OffsetMap → Offset → Option Offset → OffsetMap
keep_largest m o none = insert (topic_partition o) o m
keep_largest m o (some last) =
    if ltb_ℤ last.offset o.offset then insert (topic_partition o) o m else m

-- The loop over the positions; `none` is an error of the parser.
last_offsets : OffsetMap → List Str → Option OffsetMap
unfolding keep_largest
last_offsets m [] = some m
last_offsets m (position ∷ positions) = elim (from_string position) [
  | none ↦ none
  | some o ↦ last_offsets (keep_largest m o (lookup (topic_partition o) m)) positions
]

-- CommitOffsets: the map whose offsets are committed.
unfoldable pub commit_offsets : List Str → Option OffsetMap
unfolding last_offsets
commit_offsets positions = last_offsets [] positions

-- The map has an offset under the key of `o` that is at least as large.
abbrev Covered : OffsetMap → Offset → Type 0
Covered m o =
    (last : Offset) × (lookup (topic_partition o) m ≡ some last) × (o.offset ≤ℤ last.offset)

KeyCovered : OffsetMap → Str → Type 0
KeyCovered m p = (o : Offset) × (from_string p ≡ some o) × Covered m o

Covered-insert :
    (m : OffsetMap) (o o' : Offset)
    → ((last : Offset) → lookup (topic_partition o) m ≡ some last → last.offset ≤ℤ o.offset)
    → Covered m o' ⊎ (o' ≡ o)
    → Covered (insert (topic_partition o) o m) o'
Covered-insert m o o' larger h =
    let found = lookup-insert (topic_partition o) (topic_partition o') o m in
    elim (Bool-cases (str_eq (topic_partition o) (topic_partition o'))) [
      | inl e ↦
          let same : topic_partition o ≡ topic_partition o' =
            (str_eq_iff (topic_partition o) (topic_partition o')).0 e in
          (
            o,
            found ∙ rw e,
            elim h [
              | inl (last, q, le) ↦
                  let le' = larger last (ap (λ k. lookup k m) same ∙ q) in omega arith
              | inr x ↦
                  let y = ap (λ (v : Offset). v.offset) x in
                  let up : o'.offset ≤ℤ o.offset = rw y (omega arith) in up
            ],
          )
      | inr e ↦ elim h [
        | inl (last, q, le) ↦ (last, found ∙ rw e q, le)
        | inr x ↦
            let same : str_eq (topic_partition o) (topic_partition o') ≡ true =
              (str_eq_iff (topic_partition o) (topic_partition o')).1
                (ap topic_partition (sym x)) in
            absurd (cc)
      ]
    ]

Covered-keep_largest :
    (m : OffsetMap) (o o' : Offset)
    → Covered m o' ⊎ (o' ≡ o)
    → Covered (keep_largest m o (lookup (topic_partition o) m)) o'
unfolding keep_largest
Covered-keep_largest m o o' h = elim (Option-cases (lookup (topic_partition o) m)) [
  | inl e ↦ rw (e, keep_largest) (Covered-insert m o o' (λ last q. absurd (cc)) h)
  | inr (last, e) ↦
      rw (e, keep_largest)
        (elim (Bool-cases (ltb_ℤ last.offset o.offset)) [
          | inl b ↦ rw b (
              Covered-insert m o o'
                (λ l q.
                  let same : l ≡ last = cc in
                  let le : last.offset ≤ℤ o.offset = ground arith in rw same le)
                h)
          | inr b ↦ rw b (elim h [
            | inl c ↦ c
            | inr x ↦
                let le : o.offset ≤ℤ last.offset = ground arith in
                let covered : Covered m o = (last, e, le) in rw x covered
          ])
        ])
]

Covered-last_offsets :
    (m : OffsetMap) (positions : List Str) (last : OffsetMap) (o : Offset)
    → last_offsets m positions ≡ some last
    → Covered m o
    → Covered last o
unfolding last_offsets
Covered-last_offsets m [] last o e c = let same : m ≡ last = cc in rw (← same) c
Covered-last_offsets m (p ∷ ps) last o e c = elim (Option-cases (from_string p)) [
  | inl q ↦ let bad : none ≡ some last = (rw (q, last_offsets) at e) in absurd (cc)
  | inr (o', q) ↦
      Covered-last_offsets (keep_largest m o' (lookup (topic_partition o') m)) ps last o
        (rw (q, last_offsets) at e) (Covered-keep_largest m o' o (inl c))
]

last_offsets-Covered :
    (m : OffsetMap) (positions : List Str) (last : OffsetMap)
    → last_offsets m positions ≡ some last
    → All (KeyCovered last) positions
unfolding last_offsets KeyCovered
last_offsets-Covered m [] last e = tt
last_offsets-Covered m (p ∷ ps) last e = elim (Option-cases (from_string p)) [
  | inl q ↦ let bad : none ≡ some last = (rw (q, last_offsets) at e) in absurd (cc)
  | inr (o, q) ↦
      let m' = keep_largest m o (lookup (topic_partition o) m) in
      let rest : last_offsets m' ps ≡ some last = (rw (q, last_offsets) at e) in
      (
        (o, q, Covered-last_offsets m' ps last o rest (Covered-keep_largest m o o (inr refl))),
        last_offsets-Covered m' ps last rest,
      )
]

-- An offset in the map is that of one of these positions.
abbrev pub OneOf : List Str → Str × Offset → Type 0
OneOf positions entry = Any (λ p. from_string p ≡ some entry.1) positions

module _ (R : Offset → Type 0) where
  abbrev Entry : Str × Offset → Type 0
  Entry e = (topic_partition e.1 ≡ e.0) × R e.1

  insert-Entry :
      (k : Str) (o : Offset) (m : OffsetMap) → Entry (k, o) → All Entry m → All Entry (insert k o m)
  unfolding insert
  insert-Entry k o [] r h = (r, tt)
  insert-Entry k o ((j, w) ∷ m) r h = elim (Bool-cases (str_eq j k)) [
    | inl e ↦ rw (e, insert) (r, h.1)
    | inr e ↦ rw (e, insert) (h.0, insert-Entry k o m r h.1)
  ]

  Entry-lookup :
      (k : Str) (m : OffsetMap) (last : Offset)
      → All Entry m
      → lookup k m ≡ some last
      → Entry (k, last)
  unfolding lookup
  Entry-lookup k [] last h e = absurd (cc)
  Entry-lookup k ((j, w) ∷ m) last h e = elim (Bool-cases (str_eq j k)) [
    | inl b ↦
        let found : some w ≡ some last = (rw b at e) in
        let same : w ≡ last = cc in rw (← same, ← (str_eq_iff j k).0 b) h.0
    | inr b ↦ Entry-lookup k m last h.1 (rw b at e)
  ]

  keep_largest-Entry :
      (m : OffsetMap) (o : Offset) (last : Option Offset)
      → R o
      → All Entry m
      → All Entry (keep_largest m o last)
  unfolding keep_largest
  keep_largest-Entry m o none r h = insert-Entry (topic_partition o) o m (refl, r) h
  keep_largest-Entry m o (some last) r h = elim (Bool-cases (ltb_ℤ last.offset o.offset)) [
    | inl e ↦ rw e (insert-Entry (topic_partition o) o m (refl, r) h)
    | inr e ↦ rw e h
  ]

  last_offsets-Entry :
      (m : OffsetMap) (positions : List Str) (last : OffsetMap)
      → All Entry m
      → ((o : Offset) → Any (λ p. from_string p ≡ some o) positions → R o)
      → last_offsets m positions ≡ some last
      → All Entry last
  unfolding last_offsets
  last_offsets-Entry m [] last h r e = let same : m ≡ last = cc in rw (← same) h
  last_offsets-Entry m (p ∷ ps) last h r e = elim (Option-cases (from_string p)) [
    | inl q ↦ let bad : none ≡ some last = (rw (q, last_offsets) at e) in absurd (cc)
    | inr (o, q) ↦
        last_offsets-Entry (keep_largest m o (lookup (topic_partition o) m)) ps last
          (keep_largest-Entry m o (lookup (topic_partition o) m) (r o (inl q)) h)
          (λ x a. r x (inr a)) (rw (q, last_offsets) at e)
  ]

append-cancel : (s t u : Str) → s ++ u ≡ t ++ u → s ≡ t
append-cancel [] [] u e = refl
append-cancel [] (c ∷ t) u e =
    let l : length u ≡ suc (length t + length u) = ap length e ∙ ap suc (length-append t u) in
    absurd (omega arith)
append-cancel (c ∷ s) [] u e =
    let l : length u ≡ suc (length s + length u) = ap length (sym e) ∙ ap suc (length-append s u) in
    absurd (omega arith)
append-cancel (c ∷ s) (d ∷ t) u e =
    let head : c ≡ d = cc in
    let tail : s ++ u ≡ t ++ u = cc in let rest = append-cancel s t u tail in cc

-- No partition of Kafka is negative.
abbrev pub IsPartition : ℤ → Type 0
IsPartition z = (n : ℕ) × (z ≡ pos n)

topic_partition-injective :
    (o o' : Offset)
    → IsPartition o.partition
    → IsPartition o'.partition
    → topic_partition o ≡ topic_partition o'
    → (o.topic ≡ o'.topic) × (o.partition ≡ o'.partition)
unfolding topic_partition print_int
topic_partition-injective o o' (m, p) (n, p') e =
    let key : o.topic ++ b'-' ∷ print_ℕ m ≡ o'.topic ++ b'-' ∷ print_ℕ n =
      ap (λ z. o.topic ++ b'-' ∷ print_int z) (sym p)
      ∙ e
      ∙ ap (λ z. o'.topic ++ b'-' ∷ print_int z) p' in
    let digits : print_ℕ m ≡ print_ℕ n =
      sym (after_last-append b'-' [] o.topic (print_ℕ m) (print_ℕ-Without b'-' m (omega arith)))
      ∙ ap (after_last b'-' []) key
      ∙ after_last-append b'-' [] o'.topic (print_ℕ n) (print_ℕ-Without b'-' n (omega arith)) in
    (
      append-cancel o.topic o'.topic (b'-' ∷ print_ℕ n)
          (ap (λ t. o.topic ++ b'-' ∷ t) (sym digits) ∙ key),
      p ∙ ap pos (print_ℕ-injective m n digits) ∙ sym p',
    )

-- The position is one of a topic and a partition for which the map has an offset that is at least as large.
abbrev pub PositionCovered : OffsetMap → Str → Type 0
PositionCovered m p =
    (o : Offset) × (last : Offset) × (from_string p ≡ some o)
    × (lookup (topic_partition o) m ≡ some last)
    × (last.topic ≡ o.topic)
    × (last.partition ≡ o.partition)
    × (o.offset ≤ℤ last.offset)

-- The position is not one of a negative partition.
abbrev pub IsSound : Str → Type 0
IsSound p = (o : Offset) → from_string p ≡ some o → IsPartition o.partition

parsed_partition :
    (positions : List Str) (o : Offset)
    → All IsSound positions
    → Any (λ p. from_string p ≡ some o) positions
    → IsPartition o.partition
parsed_partition [] o h a = absurd a
parsed_partition (p ∷ ps) o h (inl e) = h.0 o e
parsed_partition (p ∷ ps) o h (inr a) = parsed_partition ps o h.1 a

covered_all :
    (positions : List Str) (m : OffsetMap)
    → All IsSound positions
    → All (Entry (λ o. IsPartition o.partition)) m
    → All (KeyCovered m) positions
    → All (PositionCovered m) positions
unfolding KeyCovered
covered_all [] m sound entries c = tt
covered_all (p ∷ ps) m sound entries ((o, parsed, (last, found, le)), c) =
    let (key, partition) =
      Entry-lookup (λ x. IsPartition x.partition) (topic_partition o) m last entries found in
    let (topics, same) = topic_partition-injective last o partition (sound.0 o parsed) key in
    ((o, last, parsed, found, topics, same, le), covered_all ps m sound.1 entries c)

-- If all positions can be parsed, to partitions that are not negative, the offsets that are committed are of positions
-- of the batch, and for every position one of its topic and partition is committed that is at least as large.
pub commit_offsets-last :
    (positions : List Str) (committed : OffsetMap)
    → All IsSound positions
    → commit_offsets positions ≡ some committed
    → All (PositionCovered committed) positions × All (OneOf positions) committed
unfolding commit_offsets
commit_offsets-last positions committed sound e =
    let entries =
      last_offsets-Entry (λ o. IsPartition o.partition) [] positions committed tt
        (λ o a. parsed_partition positions o sound a) e in
    let parsed =
      last_offsets-Entry (λ o. Any (λ p. from_string p ≡ some o) positions) [] positions committed
        tt (λ o a. a) e in
    (
      covered_all positions committed sound entries (last_offsets-Covered [] positions committed e),
      All-map committed (λ x h. h.1) parsed,
    )
