-- ===== src/Writer/Exec.antt =====
-- pkg/wal/processor/postgres/postgres_batch_writer.go: executing queries in a transaction, and dropping
-- the query that fails before the rest is tried again. Logging is left out.
pub mod Rounds
pub mod Flush
use pgstream.Prelude.{
  ℕ, zero, suc, ◌++◌, Bool, true, false, Option, none, some, List, [], ◌∷◌, Str, take, drop,
  is_empty, if◌then◌else◌,
}
use pgstream.Postgres.Errors.{
  RawError, Error, conn_timeout, no_rows, relation_does_not_exist, constraint_violation,
  permission_denied, syntax_error, data_exception, relation_already_exists, rule_violation,
  precondition_failed, cache_lookup_failed, program_limit_exceeded, feature_not_supported, unmapped,
  map_error,
}
use pgstream.Postgres.Pool.{Connection, Ended, exec_in_tx}
use pgstream.Writer.Query.{Query, Arg}

-- What is sent to the database: a query's text and arguments, the setting of the replication role, or a COPY
-- of rows, in text format or not, to the columns of a table.
pub data Statement : Type 0 where
  role_replica role_default : Statement
  statement : Str → List Arg → Statement
  copy_rows : Bool → Str → List Str → List (List Arg) → Statement

abbrev pub statement_of : Query → Statement
statement_of q = statement q.sql q.args

-- isInternalError. An error that the client has not mapped is internal.
unfoldable pub is_internal_error : Error → Bool
is_internal_error conn_timeout = true
is_internal_error no_rows = true
is_internal_error (relation_does_not_exist m) = false
is_internal_error (constraint_violation m) = false
is_internal_error (permission_denied m) = true
is_internal_error (syntax_error m) = false
is_internal_error (data_exception m) = false
is_internal_error (relation_already_exists m) = false
is_internal_error (rule_violation m) = true
is_internal_error (precondition_failed m) = false
is_internal_error (cache_lookup_failed m) = true
is_internal_error (program_limit_exceeded m) = true
is_internal_error (feature_not_supported m) = false
is_internal_error (unmapped e) = true

unfoldable pub remove_index {ℓ} : {A : Type ℓ} → List A → ℕ → List A
remove_index s index = take index s ++ drop (suc index) s

unfoldable pub mapped : Option RawError → Option Error
mapped none = none
mapped (some e) = some (map_error e)

module _ (conn : Connection Statement) (disable_triggers : Bool) where
  open conn use {State, exec}

  -- setReplicationRoleToReplica and resetReplicationRole
  unfoldable pub set_role : Statement → State → State × Option Error
  unfolding mapped
  set_role role s =
      let (s', e) = exec s role in if disable_triggers then (s', mapped e) else (s, none)

  reset : State → Ended State (List Query)
  unfolding set_role
  reset s = let (s', e) = set_role role_default s in record { after = s'; assigned = []; error = e }

  refused : List Query → ℕ → State → RawError → Ended State (List Query)
  refused queries i s e = record {
    after = s;
    assigned = remove_index queries i;
    error = some (map_error e);
  }

  -- The loop over the queries from index `i` on.
  exec_each : List Query → ℕ → List Query → State → Ended State (List Query)
  unfolding reset refused
  exec_each queries i [] s = reset s
  exec_each queries i (q ∷ rest) s = elim (exec s (statement_of q)).1 [
    | none ↦ exec_each queries (suc i) rest (exec s (statement_of q)).0
    | some e ↦ refused queries i (exec s (statement_of q)).0 e
  ]

  with_role : List Query → State × Option Error → Ended State (List Query)
  unfolding exec_each
  with_role queries (s, none) = exec_each queries 0 queries s
  with_role queries (s, some e) = record { after = s; assigned = []; error = some e }

  -- The callback that execQueries runs in a transaction; it assigns retryQueries.
  run_queries : List Query → State → Ended State (List Query)
  unfolding with_role
  run_queries queries s = with_role queries (set_role role_replica s)

  settled : Ended State (List Query) → Option Error → Ended State (List Query)
  settled r none = r
  settled r (some e) =
      if is_internal_error e
      then record r { assigned = []; error = some e }
      else record r { error = none }

  -- execQueries, on a pool without retries.
  unfoldable pub exec_queries : State → List Query → Ended State (List Query)
  unfolding run_queries settled
  exec_queries s queries = let r = exec_in_tx conn [] (run_queries queries) s in settled r r.error

  next_round :
      Ended State (List Query)
      → Option (State × Option Error)
      → Option Error
      → Option (State × Option Error)
  next_round r rest none = if is_empty r.assigned then some (r.after, none) else rest
  next_round r rest (some e) = some (r.after, some e)

  -- The loop of flushQueries, on fuel for its rounds; `none` is out of fuel.
  flush_loop : ℕ → State → List Query → Option (State × Option Error)
  unfolding next_round
  flush_loop zero s queries = none
  flush_loop (suc fuel) s queries =
      let r = exec_queries s queries in
      let rest = flush_loop fuel r.after r.assigned in next_round r rest r.error

  -- flushQueries
  unfoldable pub flush_queries : ℕ → State → List Query → Option (State × Option Error)
  unfolding flush_loop
  flush_queries fuel s [] = some (s, none)
  flush_queries fuel s (q ∷ queries) = flush_loop fuel s (q ∷ queries)
