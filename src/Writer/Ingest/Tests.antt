-- ===== src/Writer/Ingest/Tests.antt =====
-- Two inserts of a table, queued and copied.
use Prim.Native.String.{String}
use pgstream.Prelude.{
  ℕ, ◌≡◌, refl, false, Option, none, some, List, [], ◌∷◌, ◌++◌, Str, bytes, length,
}
use pgstream.Prelude.Int.{pos}
use pgstream.Postgres.Errors.{RawError}
use pgstream.Postgres.Pool.{Connection}
use pgstream.Wal.{integer, Data, Event, no_metadata}
use pgstream.Writer.Query.{Query, scalar}
use pgstream.Writer.Exec.{Statement, copy_rows}
use pgstream.Writer.Adapter.{Result, done}

abbrev Db : Type 0
Db = List Statement × List Statement

no_error : {A : Type 0} (s : Db) (e : RawError) → none ≡ some e → A
no_error s e h = absurd (cc)

-- A database that refuses nothing.
abbrev accepting : Connection Statement
accepting = record {
  State = Db;
  begin = λ s. ((s.0, []), none);
  exec = λ s q. ((s.0, s.1 ++ q ∷ []), none);
  commit = λ s. ((s.0 ++ s.1, []), none);
  rollback = λ s. (s.0, []);
  exec_alone = λ s q. ((s.0 ++ q ∷ [], s.1), none);
  committed = λ s. s.0;
  pending = λ s. s.1;
  committed-begin = λ s. refl;
  pending-begin = λ s e. refl;
  committed-exec = λ s q. refl;
  pending-exec = λ s q e. refl;
  committed-commit = λ s e. refl;
  committed-commit_failed = λ s e h. no_error s e h;
  committed-rollback = λ s. refl;
}

-- A COPY copies all its rows.
abbrev all_rows : Db → Statement → ℕ
all_rows s (copy_rows text target columns rows) = length rows
all_rows s _ = 0

abbrev in_quotes : Str → Str
in_quotes s = b'"' ∷ (s ++ b'"' ∷ [])

abbrev insert_of : String → ℕ → Query
insert_of table n = record {
  schema = bytes "public";
  table = bytes table;
  sql = bytes "INSERT";
  column_names = bytes "id" ∷ [];
  args = scalar (integer (pos n)) ∷ [];
  is_ddl = false;
  needs_text_copy = false;
}

abbrev inserted : String → Event
inserted position = record {
  body = some (record {
    action = bytes "I";
    timestamp = [];
    lsn = [];
    schema = bytes "public";
    table = bytes "users";
    columns = [];
    identity = [];
    xid = pos 0;
    prefix = [];
    content = [];
    metadata = no_metadata;
  });
  commit_position = bytes position;
}

abbrev one_insert : Event → Result (List Query)
one_insert e = done (insert_of "users" 1 ∷ insert_of "totals" 2 ∷ [])

abbrev two_events : List Event
two_events = inserted "0/1" ∷ inserted "0/2" ∷ []
