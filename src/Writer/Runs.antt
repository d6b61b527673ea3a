-- ===== src/Writer/Runs.antt =====
-- pkg/wal/processor/postgres/postgres_batch_writer.go: sendBatch cuts a batch into runs of DML events for
-- the same table and action. The adapter that builds the queries is an argument.
pub mod Plan
pub mod Confirm
use pgstream.Prelude.{
  suc, Bool, true, false, not, ◌&&◌, ◌||◌, Option, none, some, List, [], ◌∷◌, ◌++◌, Str, bytes,
  str_eq, is_empty, length, if◌then◌else◌,
}
use pgstream.Postgres.Errors.{RawError, Error, map_error}
use pgstream.Postgres.Pool.{Connection}
use pgstream.Wal.{Data}
use pgstream.Batch.{Batch}
use pgstream.Writer.Query.{Query, query_is_empty}
use pgstream.Writer.Message.{SchemaInfo, WalMessage}
use pgstream.Writer.Exec.{Statement, statement_of, is_internal_error, flush_queries}

-- The builders of the DML adapter, and the queries of a DDL event; `none` is their error, or a panic.
pub record Adapter : Type 0 where
  pub build_bulk_delete_query : List Data → Option (List Query)
  pub build_bulk_insert_queries : List Data → SchemaInfo → Option (List Query)
  pub wal_data_to_queries : Data → SchemaInfo → Option (List Query)
  pub ddl_queries : Data → Option (List Query)

pub data Failure : Type 0 where
  unable_to_build : Failure
  database : Error → Failure
  checkpoint : Str → Failure
  out_of_fuel : Failure

-- currentRun with runSchema, runTable and runAction, which are those of its first message.
pub record Run : Type 0 where
  pub current : List WalMessage
  pub schema : Str
  pub table : Str
  pub action : Str

abbrev pub no_run : Run
no_run = record { current = []; schema = []; table = []; action = [] }

then_ : {S : Type 0} → S × Option Failure → (S → S × Option Failure) → S × Option Failure
then_ (s, none) next = next s
then_ (s, some e) next = (s, some e)

starts_run : Run → Data → Bool
starts_run run d =
    not (is_empty run.current)
    && (not (str_eq d.schema run.schema)
        || not (str_eq d.table run.table)
        || not (str_eq d.action run.action))

append_to_run : Run → WalMessage → Data → Run
append_to_run run m d =
    if is_empty run.current
    then record { current = m ∷ []; schema = d.schema; table = d.table; action = d.action }
    else record run { current = run.current ++ m ∷ [] }

clear : Run → Run
clear run = record run { current = [] }

-- The loop of sendBatch, around what it does with a run and with a DDL event.
module _ {S : Type 0} (flush : List WalMessage → S → S × Option Failure)
    (ddl : Data → S → S × Option Failure) where
  flush_run : List WalMessage → S → S × Option Failure
  flush_run [] s = (s, none)
  flush_run (m ∷ ms) s = flush (m ∷ ms) s

  unfoldable pub send_messages : Run → List WalMessage → S → S × Option Failure
  unfolding flush_run then_ starts_run append_to_run clear
  send_messages run [] s = flush_run run.current s
  send_messages run (m ∷ ms) s = elim m.data_of [
    | none ↦ send_messages run ms s
    | some d ↦
        if m.is_ddl
        then then_ (flush_run run.current s) (λ s'. then_ (ddl d s') (send_messages (clear run) ms))
        else if starts_run run d
        then then_ (flush_run run.current s) (send_messages (append_to_run (clear run) m d) ms)
        else send_messages (append_to_run run m d) ms s
  ]

datas : List WalMessage → List Data
datas [] = []
datas (m ∷ ms) = elim m.data_of [ none ↦ datas ms | some d ↦ d ∷ datas ms ]

and_then : {A B : Type 0} → Option A → (A → Option B) → Option B
and_then none f = none
and_then (some a) f = f a

each_query : Adapter → List WalMessage → Option (List Query)
unfolding and_then
each_query a [] = some []
each_query a (m ∷ ms) = elim m.data_of [
  | none ↦ each_query a ms
  | some d ↦
      and_then (a.wal_data_to_queries d m.schema_info)
        (λ qs. and_then (each_query a ms) (λ rest. some (qs ++ rest)))
]

-- buildCoalescedQueries. The messages of a run have data.
unfoldable pub build_coalesced_queries : Adapter → List WalMessage → Option (List Query)
unfolding datas each_query
build_coalesced_queries a [] = some []
build_coalesced_queries a (m ∷ ms) = elim m.data_of [
  | none ↦ some []
  | some d ↦
      if str_eq d.action (bytes "D")
      then a.build_bulk_delete_query (datas (m ∷ ms))
      else if str_eq d.action (bytes "I")
      then a.build_bulk_insert_queries (datas (m ∷ ms)) m.schema_info
      else each_query a (m ∷ ms)
]

module _ (conn : Connection Statement) (disable_triggers : Bool) (a : Adapter) where
  open conn use {State, exec_alone}

  database_error : State → Option Error → State × Option Failure
  database_error s none = (s, none)
  database_error s (some e) = (s, some (database e))

  flushed : State → Option (State × Option Error) → State × Option Failure
  unfolding database_error
  flushed s none = (s, some out_of_fuel)
  flushed s (some (s', e)) = database_error s' e

  flush_built : State → Option (List Query) → State × Option Failure
  unfolding flushed
  flush_built s none = (s, some unable_to_build)
  flush_built s (some queries) =
      flushed s (flush_queries conn disable_triggers (suc (length queries)) s queries)

  unfoldable pub flush : List WalMessage → State → State × Option Failure
  unfolding flush_built
  flush run s = flush_built s (build_coalesced_queries a run)

  -- A DDL query whose error is not internal is passed over.
  after_ddl : State × Option RawError → State × Option Failure
  after_ddl (s, none) = (s, none)
  after_ddl (s, some e) =
      if is_internal_error (map_error e) then (s, some (database (map_error e))) else (s, none)

  exec_ddl : List Query → State → State × Option Failure
  unfolding then_ after_ddl
  exec_ddl [] s = (s, none)
  exec_ddl (q ∷ qs) s =
      if query_is_empty q
      then exec_ddl qs s
      else then_ (after_ddl (exec_alone s (statement_of q))) (exec_ddl qs)

  ddl_built : Option (List Query) → State → State × Option Failure
  unfolding exec_ddl
  ddl_built none s = (s, some unable_to_build)
  ddl_built (some qs) s = exec_ddl qs s

  unfoldable pub ddl : Data → State → State × Option Failure
  unfolding ddl_built
  ddl d s = ddl_built (a.ddl_queries d) s

  -- The database, and the commit positions that the checkpointer has confirmed.
  pub record World : Type 0 where
    pub db : State
    pub checkpointed : List (List Str)

  confirm : (List Str → Option Str) → List Str → World → World × Option Failure
  confirm checkpointer positions w = elim (checkpointer positions) [
    | none ↦ (record w { checkpointed = w.checkpointed ++ positions ∷ [] }, none)
    | some e ↦ (w, some (checkpoint e))
  ]

  -- The end of sendBatch: the checkpoint, unless the messages have failed. A nil checkpointer is `none`.
  checkpoint_batch :
      Option (List Str → Option Str)
      → List Str
      → World
      → State × Option Failure
      → World × Option Failure
  unfolding confirm
  checkpoint_batch c positions w (s, some e) = (record w { db = s }, some e)
  checkpoint_batch none positions w (s, none) = (record w { db = s }, none)
  checkpoint_batch (some c) positions w (s, none) =
      if is_empty positions
      then (record w { db = s }, none)
      else confirm c positions (record w { db = s })

  -- (*BatchWriter).sendBatch
  unfoldable pub send_batch :
      Option (List Str → Option Str) → Batch WalMessage → World → World × Option Failure
  unfolding checkpoint_batch
  send_batch c b w =
      checkpoint_batch c b.positions w (send_messages flush ddl no_run b.messages w.db)
