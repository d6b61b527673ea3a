-- ===== src/Writer/Exec/Flush.antt =====
-- pkg/wal/processor/postgres/postgres_batch_writer.go: what a flush of queries leaves in the database.
use pgstream.Prelude.{
  ℕ, zero, suc, ◌<◌, ◌≡◌, inl, inr, refl, ap, ◌∙◌, Bool, true, Option, none, some, List, [], ◌∷◌,
  ◌++◌, length, length-append, is_empty, arith, Bool-cases,
}
use pgstream.Postgres.Errors.{RawError, Error, unmapped}
use pgstream.Postgres.Pool.{Connection}
use pgstream.Writer.Query.{Query}
use pgstream.Writer.Exec.{Statement, exec_queries, next_round, flush_loop, flush_queries}
use pgstream.Writer.Exec.Rounds.{
  Kept, nothing, transaction, Steady, Kept-all, Kept-insert, Drops, Round, written, dropped, ended,
  in_doubt, CommitFails, exec_queries-Round,
}

module _ (conn : Connection Statement) (disable_triggers : Bool)
    (steady : Steady conn disable_triggers) where
  open conn use {State, committed}

  insert :
      {queries left kept : List Query}
      → Drops conn disable_triggers queries left
      → Kept conn disable_triggers left kept
      → Kept conn disable_triggers queries kept
  insert {kept = kept} d k = rw d.whole (
      Kept-insert conn disable_triggers d.before d.query d.after kept d.refusal (rw d.without at k))

  -- How a flush ends: a part of the queries written in one transaction, an error and nothing written, or an
  -- error of Commit after the server has written such a transaction.
  pub data Flushed (queries : List Query) (s : State) : State × Option Error → Type 0 where
    kept_written :
        {t : State} (kept : List Query)
        → Kept conn disable_triggers queries kept
        → committed t ≡ committed s ++ transaction conn disable_triggers kept
        → Flushed queries s (t, none)
    all_refused :
        {t : State}
        → Kept conn disable_triggers queries []
        → committed t ≡ committed s
        → Flushed queries s (t, none)
    stopped : {t : State} (e : Error) → committed t ≡ committed s → Flushed queries s (t, some e)
    commit_failed :
        {t : State} (e : RawError) (kept : List Query)
        → CommitFails conn disable_triggers steady e
        → Kept conn disable_triggers queries kept
        → committed t ≡ committed s ++ transaction conn disable_triggers kept
        → Flushed queries s (t, some (unmapped e))

  Flushed-Drops :
      (queries left : List Query) (s s' : State) (o : State × Option Error)
      → Drops conn disable_triggers queries left
      → committed s' ≡ committed s
      → Flushed left s' o
      → Flushed queries s o
  Flushed-Drops queries left s s' o d h (kept_written kept k w) =
      kept_written kept (insert d k) (w ∙ ap (λ u. u ++ transaction conn disable_triggers kept) h)
  Flushed-Drops queries left s s' o d h (all_refused k w) = all_refused (insert d k) (w ∙ h)
  Flushed-Drops queries left s s' o d h (stopped e w) = stopped e (w ∙ h)
  Flushed-Drops queries left s s' o d h (commit_failed e kept c k w) =
      commit_failed e kept c (insert d k)
        (w ∙ ap (λ u. u ++ transaction conn disable_triggers kept) h)

  fewer :
      {queries left : List Query}
      → Drops conn disable_triggers queries left
      → length queries ≡ suc (length left)
  fewer d =
      let a = length-append d.before (d.query ∷ d.after) in
      let b = length-append d.before d.after in rw (d.whole, d.without) (omega arith)

  none_kept :
      (queries : List Query) → is_empty queries ≡ true → Kept conn disable_triggers queries []
  none_kept [] e = nothing
  none_kept (q ∷ queries) e = absurd (cc)

  abbrev Ends : ℕ → State → List Query → Type 0
  Ends fuel s queries =
      (o : State × Option Error) × (flush_loop conn disable_triggers fuel s queries ≡ some o)
      × Flushed queries s o

  Round-Ends :
      (fuel : ℕ) (s : State) (queries : List Query)
      → let r = exec_queries conn disable_triggers s queries in
        Round conn disable_triggers steady queries s r
        → (length r.assigned < length queries → Ends fuel r.after r.assigned)
        → Ends (suc fuel) s queries
  unfolding flush_loop
  Round-Ends fuel s queries (written e left w) rest =
      let r = exec_queries conn disable_triggers s queries in
      (
        (r.after, none),
        simp (e, left, next_round),
        kept_written queries (Kept-all conn disable_triggers queries) w,
      )
  Round-Ends fuel s queries (ended x e w) rest =
      let r = exec_queries conn disable_triggers s queries in
      ((r.after, some x), simp (e, next_round), stopped x w)
  Round-Ends fuel s queries (in_doubt x c e w) rest =
      let r = exec_queries conn disable_triggers s queries in
      (
        (r.after, some (unmapped x)),
        simp (e, next_round),
        commit_failed x queries c (Kept-all conn disable_triggers queries) w,
      )
  Round-Ends fuel s queries (dropped e d w) rest =
      let r = exec_queries conn disable_triggers s queries in
      elim (Bool-cases (is_empty r.assigned)) [
        | inl b ↦ (
          (r.after, none),
          simp (e, b, next_round),
          all_refused (insert d (none_kept r.assigned b)) w,
        )
        | inr b ↦
            let (o, q, f) = rest (omega (arith, fewer d)) in
            (o, simp (e, b, q, next_round), Flushed-Drops queries r.assigned s r.after o d w f)
      ]

  flush_loop-Flushed :
      (fuel : ℕ) (s : State) (queries : List Query) → length queries < fuel → Ends fuel s queries
  flush_loop-Flushed zero s queries h = absurd (omega arith)
  flush_loop-Flushed (suc fuel) s queries h =
      let r = exec_queries conn disable_triggers s queries in
      Round-Ends fuel s queries (exec_queries-Round conn disable_triggers steady queries s)
        (λ l. flush_loop-Flushed fuel r.after r.assigned (omega arith))

  -- On a pool without the retrier, which runs the callback of a transaction once, a flush with more fuel than queries
  -- comes to an end, provided that the errors of starting a transaction and of setting the replication role are
  -- internal. Without an error it has written, in one transaction and in order, the queries that the database has not
  -- refused, or nothing if it has refused them all. With an error it has written nothing, unless the error is one of
  -- Commit, when the server may have written such a transaction all the same.
  pub flush_queries-Flushed :
      (s : State) (queries : List Query) (fuel : ℕ)
      → length queries < fuel
      → (o : State × Option Error) × (flush_queries conn disable_triggers fuel s queries ≡ some o)
        × Flushed queries s o
  unfolding flush_queries
  flush_queries-Flushed s [] fuel h = ((s, none), refl, all_refused nothing refl)
  flush_queries-Flushed s (q ∷ queries) fuel h = flush_loop-Flushed fuel s (q ∷ queries) h
