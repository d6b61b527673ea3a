-- ===== src/Postgres/Atomic.antt =====
-- internal/postgres/pg_conn_pool.go: a transaction writes all that its callback has executed, or nothing; after a
-- failed Commit it is not known which.
use pgstream.Prelude.{◌≡◌, ◌⊎◌, inl, inr, refl, ap, ◌∙◌, Option, none, some, [], ◌++◌}
use pgstream.Postgres.Errors.{RawError, Error}
use pgstream.Postgres.Pool.{Connection, Ended, exec_in_tx, begun, finish, committing}

module _ {Q A : Type 0} (conn : Connection Q) where
  open conn use {State, begin, commit, rollback, committed, pending}

  -- The callback has ended without an error, and Commit has returned one though everything is written.
  pub record InDoubt (s : State) (fn : State → Ended State A) (r : Ended State A) : Type 0 where
    pub start : State
    pub empty : pending start ≡ []
    pub accepted : (fn start).error ≡ none
    pub commit_error : RawError
    pub refused : (commit (fn start).after).1 ≡ some commit_error
    pub written : committed r.after ≡ committed s ++ pending (fn start).after

  -- How a transaction around a callback has ended. The callback ran in a transaction that was empty.
  pub record Atomic (s : State) (fn : State → Ended State A) (r : Ended State A) : Type 0 where
    pub fails : (e : Error) → r.error ≡ some e → (committed r.after ≡ committed s) ⊎ InDoubt s fn r
    pub succeeds :
        r.error ≡ none
        → (s' : State) × (pending s' ≡ [])
          × ((fn s').error ≡ none)
          × (committed r.after ≡ committed s ++ pending (fn s').after)

  committing-Atomic :
      (s s' : State) (fn : State → Ended State A)
      → pending s' ≡ []
      → (fn s').error ≡ none
      → committed (fn s').after ≡ committed s
      → Atomic s fn (committing conn (fn s').assigned (commit (fn s').after))
  unfolding committing
  committing-Atomic s s' fn p e k = by_commit (commit (fn s').after).1 refl
    where
      by_commit :
          (o : Option RawError)
          → (commit (fn s').after).1 ≡ o
          → Atomic s fn (committing conn (fn s').assigned ((commit (fn s').after).0, o))
      by_commit none c =
          unfold committing in
          record {
            fails = λ x h. absurd (cc);
            succeeds = λ h. (
              s',
              p,
              e,
              conn.committed-commit (fn s').after c ∙ ap (λ l. l ++ pending (fn s').after) k,
            );
          }
      by_commit (some x) c =
          unfold committing in
          record {
            fails = λ y h. elim (conn.committed-commit_failed (fn s').after x c) [
              | inl n ↦ inl (n ∙ k)
              | inr w ↦ inr (record {
                start = s';
                empty = p;
                accepted = e;
                commit_error = x;
                refused = c;
                written = w ∙ ap (λ l. l ++ pending (fn s').after) k;
              })
            ];
            succeeds = λ h. absurd (cc);
          }

  finish-Atomic :
      (s s' : State) (fn : State → Ended State A)
      → pending s' ≡ []
      → committed (fn s').after ≡ committed s
      → Atomic s fn (finish conn (fn s').after (fn s').assigned (fn s').error)
  unfolding finish
  finish-Atomic s s' fn p k = by_error (fn s').error refl
    where
      by_error :
          (o : Option Error)
          → (fn s').error ≡ o
          → Atomic s fn (finish conn (fn s').after (fn s').assigned o)
      by_error none e = unfold finish in committing-Atomic s s' fn p e k
      by_error (some x) e =
          unfold finish in
          record {
            fails = λ y h. inl (conn.committed-rollback (fn s').after ∙ k);
            succeeds = λ h. absurd (cc);
          }

  pub exec_in_tx-Atomic :
      (a : A) (fn : State → Ended State A) (s : State)
      → ((s : State) → committed (fn s).after ≡ committed s)
      → Atomic s fn (exec_in_tx conn a fn s)
  unfolding exec_in_tx begun
  exec_in_tx-Atomic a fn s k = by_begin (begin s).1 refl
    where
      by_begin :
          (o : Option RawError) → (begin s).1 ≡ o → Atomic s fn (begun conn a fn ((begin s).0, o))
      by_begin none b =
          unfold begun in
          finish-Atomic s (begin s).0 fn (conn.pending-begin s b)
            (k (begin s).0 ∙ conn.committed-begin s)
      by_begin (some x) b =
          unfold begun in
          record { fails = λ y h. inl (conn.committed-begin s); succeeds = λ h. absurd (cc) }
