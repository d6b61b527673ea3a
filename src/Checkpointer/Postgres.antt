-- ===== src/Checkpointer/Postgres.antt =====
-- pkg/wal/checkpointer/postgres/wal_pg_checkpointer.go: the largest position of a batch is synced. The
-- parser of positions (pglogrepl) and the syncer are arguments.
use pgstream.Prelude.{
  ℕ, ◌≤◌, ◌≡◌, ◌⊎◌, inl, inr, ◌∙◌, ap, Option, none, some, List, [], ◌∷◌, Str, ltb, All, Any, arith,
  Bool-cases, Option-cases, if◌then◌else◌,
}

-- What SyncLSN does: nothing, an error of the parser, or a call of the syncer.
pub data Synced : Type 0 where
  nothing_to_sync invalid_position : Synced
  synced_to : ℕ → Synced

module _ (from_string : Str → Option ℕ) where
  -- The loop, from the maximum so far; `none` is an error of the parser.
  max_from : ℕ → List Str → Option ℕ
  max_from max [] = some max
  max_from max (position ∷ positions) = elim (from_string position) [
    | none ↦ none
    | some lsn ↦ max_from (if ltb max lsn then lsn else max) positions
  ]

  synced : Option ℕ → Synced
  synced none = invalid_position
  synced (some max) = synced_to max

  -- (*Checkpointer).SyncLSN
  unfoldable pub sync_lsn : List Str → Synced
  unfolding max_from synced
  sync_lsn [] = nothing_to_sync
  sync_lsn (p ∷ ps) = synced (max_from 0 (p ∷ ps))

  -- A position at or below the limit.
  abbrev pub AtMost : ℕ → Str → Type 0
  AtMost limit position = (lsn : ℕ) × (from_string position ≡ some lsn) × (lsn ≤ limit)

  max_from-AtMost :
      (max : ℕ) (positions : List Str) (n : ℕ)
      → max_from max positions ≡ some n
      → (max ≤ n)
        × All (AtMost n) positions
        × ((n ≡ max) ⊎ Any (λ p. from_string p ≡ some n) positions)
  unfolding max_from
  max_from-AtMost max [] n e = let same : max ≡ n = cc in (omega arith, tt, inl (omega arith))
  max_from-AtMost max (p ∷ ps) n e = elim (Option-cases (from_string p)) [
    | inl q ↦ let bad : none ≡ some n = (rw (q, max_from) at e) in absurd (cc)
    | inr (lsn, q) ↦
        let (le, all, attained) =
          max_from-AtMost (if ltb max lsn then lsn else max) ps n (rw (q, max_from) at e) in
        let below : lsn ≤ n = ground arith in
        let kept : max ≤ n = ground arith in
        (
          kept,
          ((lsn, q, below), all),
          elim (Bool-cases (ltb max lsn)) [
            | inl b ↦ elim attained [
              | inl x ↦ let same : n ≡ lsn = x ∙ rw b in inr (inl (rw same q))
              | inr y ↦ inr (inr y)
            ]
            | inr b ↦ elim attained [ inl x ↦ inl (x ∙ rw b) | inr y ↦ inr (inr y) ]
          ],
        )
  ]

  synced-known : (o : Option ℕ) (n : ℕ) → synced o ≡ synced_to n → o ≡ some n
  unfolding synced
  synced-known none n e = absurd (cc)
  synced-known (some max) n e = let same : max ≡ n = cc in ap some same

  -- If SyncLSN reaches the syncer, all positions are valid, and what it syncs is at least every one of
  -- them, and is one of them or zero.
  pub sync_lsn-max :
      (positions : List Str) (n : ℕ)
      → sync_lsn positions ≡ synced_to n
      → All (AtMost n) positions × ((n ≡ 0) ⊎ Any (λ p. from_string p ≡ some n) positions)
  unfolding sync_lsn
  sync_lsn-max [] n e = absurd (cc)
  sync_lsn-max (p ∷ ps) n e =
      let (le, all, attained) =
        max_from-AtMost 0 (p ∷ ps) n (synced-known (max_from 0 (p ∷ ps)) n e) in
      (all, attained)
