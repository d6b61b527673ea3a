-- ===== src/Writer/Tests.antt =====
-- A database that refuses some queries, with a flush and a batch sent to it.
use Prim.Native.String.{String}
use pgstream.Prelude.{
  ℕ, ◌≡◌, ◌≢◌, refl, Bool, true, false, Option, none, some, List, [], ◌∷◌, ◌++◌, Str, bytes, str_eq,
  length, arith, if◌then◌else◌,
}
use pgstream.Prelude.Int.{pos}
use pgstream.Postgres.Errors.{RawError, Error, pg_error, map_error}
use pgstream.Postgres.Pool.{Connection}
use pgstream.Wal.{Data, no_metadata}
use pgstream.Batch.{Batch}
use pgstream.Writer.Query.{Query}
use pgstream.Writer.Message.{WalMessage}
use pgstream.Writer.Exec.{
  Statement, role_replica, role_default, statement, copy_rows, is_internal_error, flush_queries,
}
use pgstream.Writer.Exec.Rounds.{Steady}
use pgstream.Writer.Exec.Flush.{Flushed, flush_queries-Flushed}
use pgstream.Writer.Runs.{Adapter, Failure, World, flush, ddl, no_run, send_batch}
use pgstream.Writer.Runs.Plan.{Carries, execute, send_messages-Carries}
use pgstream.Writer.Runs.Confirm.{send_batch-Confirmed}

abbrev Db : Type 0
Db = List Statement × List Statement

-- A query "bad" violates a constraint.
abbrev refuses : Statement → Option RawError
refuses role_replica = none
refuses role_default = none
refuses (copy_rows text target columns rows) = none
refuses (statement sql args) =
    if str_eq sql (bytes "bad") then some (pg_error (bytes "23505") []) else none

abbrev execute_on : Db → Statement → Option RawError → Db × Option RawError
execute_on s q none = ((s.0, s.1 ++ q ∷ []), none)
execute_on s q (some e) = (s, some e)

committed-execute_on : (s : Db) (q : Statement) (o : Option RawError) → (execute_on s q o).0.0 ≡ s.0
committed-execute_on s q none = refl
committed-execute_on s q (some e) = refl

pending-execute_on :
    (s : Db) (q : Statement) (o : Option RawError)
    → (execute_on s q o).1 ≡ none
    → (execute_on s q o).0.1 ≡ s.1 ++ q ∷ []
pending-execute_on s q none e = refl
pending-execute_on s q (some x) e = absurd (cc)

no_error : {A : Type 0} (s : Db) (e : RawError) → none ≡ some e → A
no_error s e h = absurd (cc)

abbrev database_of : Connection Statement
database_of = record {
  State = Db;
  begin = λ s. ((s.0, []), none);
  exec = λ s q. execute_on s q (refuses q);
  commit = λ s. ((s.0 ++ s.1, []), none);
  rollback = λ s. (s.0, []);
  exec_alone = λ s q. ((s.0 ++ q ∷ [], s.1), none);
  committed = λ s. s.0;
  pending = λ s. s.1;
  committed-begin = λ s. refl;
  pending-begin = λ s e. refl;
  committed-exec = λ s q. committed-execute_on s q (refuses q);
  pending-exec = λ s q e. pending-execute_on s q (refuses q) e;
  committed-commit = λ s e. refl;
  committed-commit_failed = λ s e h. no_error s e h;
  committed-rollback = λ s. refl;
}

abbrev empty_db : Db
empty_db = ([], [])

abbrev query_of : String → Query
query_of sql = record {
  schema = [];
  table = [];
  sql = bytes sql;
  column_names = [];
  args = [];
  is_ddl = false;
  needs_text_copy = false;
}

abbrev three_queries : List Query
three_queries = query_of "a" ∷ query_of "bad" ∷ query_of "b" ∷ []

database_of-Steady : Steady database_of true
database_of-Steady = record {
  begin_internal = λ s e h. no_error s e h;
  replica_internal = λ s e h. no_error s e h;
  default_internal = λ s e h. no_error s e h;
}

flush_queries-Flushed_example :
    (o : Db × Option Error) × (flush_queries database_of true 4 empty_db three_queries ≡ some o)
    × Flushed database_of true database_of-Steady three_queries empty_db o
flush_queries-Flushed_example =
    flush_queries-Flushed database_of true database_of-Steady empty_db three_queries 4 (omega arith)

-- The bad query is dropped and the others are written in a second transaction.
flush_of_three :
    flush_queries database_of true 4 empty_db three_queries
    ≡ some (
      (role_replica ∷ statement (bytes "a") [] ∷ statement (bytes "b") [] ∷ role_default ∷ [], []),
      none,
    )
unfolding flush_queries pgstream.Writer.Exec.exec_queries pgstream.Postgres.Pool.exec_in_tx str_eq
    is_internal_error map_error pgstream.Prelude.contains pgstream.Prelude.Strings.has_prefix
    pgstream.Writer.Exec.remove_index
flush_of_three = refl

abbrev row_in : String → String → Data
row_in table action = record {
  action = bytes action;
  timestamp = [];
  lsn = bytes "0/10";
  schema = bytes "public";
  table = bytes table;
  columns = [];
  identity = [];
  xid = pos 0;
  prefix = [];
  content = [];
  metadata = no_metadata;
}

abbrev message_for : String → String → Bool → WalMessage
message_for table action is_ddl = record {
  data_of = some (row_in table action);
  schema_info = record {
    generated_columns = [];
    always_identity_columns = [];
    sequence_columns = [];
  };
  is_ddl = is_ddl;
}

abbrev sample_batch : Batch WalMessage
sample_batch = record {
  messages =
      message_for "users" "I" false
      ∷ message_for "users" "I" false
      ∷ message_for "orders" "I" false
      ∷ message_for "users" "M" true
      ∷ message_for "users" "D" false
      ∷ [];
  positions = bytes "0/20" ∷ bytes "0/30" ∷ [];
  total_bytes = 0;
}

abbrev builders : Adapter
builders = record {
  build_bulk_delete_query = λ ds. some (query_of "delete" ∷ []);
  build_bulk_insert_queries = λ ds info. some (query_of "insert" ∷ []);
  wal_data_to_queries = λ d info. some [];
  ddl_queries = λ d. some (query_of "ddl" ∷ []);
}

abbrev confirms : Option (List Str → Option Str)
confirms = some (λ positions. none)

abbrev empty_world : World database_of true builders
empty_world = record { db = empty_db; checkpointed = [] }

abbrev flush_to : List WalMessage → Db → Db × Option Failure
flush_to = flush database_of true builders

abbrev ddl_to : Data → Db → Db × Option Failure
ddl_to = ddl database_of true builders

send_messages-Carries_example : Carries flush_to ddl_to no_run sample_batch.messages
send_messages-Carries_example = send_messages-Carries flush_to ddl_to sample_batch.messages

sample_batch_confirmed :
    (send_batch database_of true builders confirms sample_batch empty_world).0.checkpointed
    ≡ sample_batch.positions ∷ []
unfolding send_batch pgstream.Writer.Runs.send_messages str_eq flush
    pgstream.Writer.Runs.build_coalesced_queries flush_queries pgstream.Writer.Exec.exec_queries
    pgstream.Postgres.Pool.exec_in_tx ddl pgstream.Writer.Query.query_is_empty
sample_batch_confirmed = refl

sample_batch-confirms :
    (send_batch database_of true builders confirms sample_batch empty_world).0.checkpointed ≢ []
sample_batch-confirms h = absurd (cc sample_batch_confirmed)

send_batch-Confirmed_example :
    ((execute flush_to ddl_to
        (send_messages-Carries flush_to ddl_to sample_batch.messages).actions
        empty_db).1
      ≡ none)
    × ((send_batch database_of true builders confirms sample_batch empty_world).0.checkpointed
        ≡ [] ++ sample_batch.positions ∷ [])
send_batch-Confirmed_example =
    send_batch-Confirmed database_of true builders confirms sample_batch empty_world
      sample_batch-confirms
