-- ===== src/Postgres/Pool.antt =====
-- internal/postgres/pg_conn_pool.go: a transaction around a callback. The driver's connection is a
-- parameter, and so is what runs a transaction again after an error: this is the pool without the retrier of
-- internal/postgres/retrier, which runs the callback once.
use pgstream.Prelude.{◌≡◌, ◌⊎◌, Option, none, some, List, [], ◌∷◌, ◌++◌}
use pgstream.Postgres.Errors.{RawError, Error, unmapped, map_error}

-- A connection of pgx that runs statements `Q`. What Postgres documents of a transaction: the
-- statements that it has executed are written when it commits, and otherwise not at all.
pub record Connection (Q : Type 0) : Type 1 where
  pub State : Type 0
  pub begin : State → State × Option RawError
  pub exec : State → Q → State × Option RawError
  pub commit : State → State × Option RawError
  pub rollback : State → State
  -- A statement outside of a transaction.
  pub exec_alone : State → Q → State × Option RawError
  -- What other sessions can see, and what the open transaction has executed.
  pub committed : State → List Q
  pub pending : State → List Q
  pub committed-begin : (s : State) → committed (begin s).0 ≡ committed s
  pub pending-begin : (s : State) → (begin s).1 ≡ none → pending (begin s).0 ≡ []
  pub committed-exec : (s : State) (q : Q) → committed (exec s q).0 ≡ committed s
  pub pending-exec :
      (s : State) (q : Q) → (exec s q).1 ≡ none → pending (exec s q).0 ≡ pending s ++ q ∷ []
  pub committed-commit :
      (s : State) → (commit s).1 ≡ none → committed (commit s).0 ≡ committed s ++ pending s
  -- When Commit returns an error, the server may have committed the transaction or not: the connection can be lost
  -- before or after.
  pub committed-commit_failed :
      (s : State) (e : RawError)
      → (commit s).1 ≡ some e
      → (committed (commit s).0 ≡ committed s) ⊎ (committed (commit s).0 ≡ committed s ++ pending s)
  pub committed-rollback : (s : State) → committed (rollback s) ≡ committed s

-- How a call ends: the connection, what the callback has assigned to its variable, and its error.
pub record Ended (S A : Type 0) : Type 0 where
  pub after : S
  pub assigned : A
  pub error : Option Error

module _ {Q A : Type 0} (conn : Connection Q) where
  open conn use {State, begin, commit, rollback}

  unfoldable pub committing : A → State × Option RawError → Ended State A
  committing a (s, none) = record { after = s; assigned = a; error = none }
  -- The error of Commit is not mapped.
  committing a (s, some e) = record { after = s; assigned = a; error = some (unmapped e) }

  unfoldable pub finish : State → A → Option Error → Ended State A
  unfolding committing
  finish s a none = committing a (commit s)
  finish s a (some e) = record { after = rollback s; assigned = a; error = some e }

  unfoldable pub begun : A → (State → Ended State A) → State × Option RawError → Ended State A
  unfolding finish
  begun a fn (s, none) = let r = fn s in finish r.after r.assigned r.error
  begun a fn (s, some e) = record { after = s; assigned = a; error = some (map_error e) }

  -- (*Pool).ExecInTx, which runs the callback once. The callback's variable starts as `a`; its error is mapped already, which mapping again
  -- leaves as it is.
  unfoldable pub exec_in_tx : A → (State → Ended State A) → State → Ended State A
  unfolding begun
  exec_in_tx a fn s = begun a fn (begin s)
