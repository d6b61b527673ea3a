-- ===== src/Listener.antt =====
-- pkg/wal/listener/postgres/wal_pg_listener.go and pkg/wal/replication/postgres/pg_replication_handler.go: receiving
-- messages of the replication stream and passing on the events. What the connection returns is an input;
-- the LSN parser, the JSON decoder and the regular expression are arguments.
pub mod Delivers
pub mod Starts
mod Tests
use pgstream.Prelude.{
  ℕ, zero, suc, Bool, true, false, not, ◌&&◌, ◌||◌, Option, none, some, List, [], ◌∷◌, ◌++◌, Str,
  bytes, str_eq, is_empty, if◌then◌else◌,
}
use pgstream.TableMap.{TableMap, contains_schema_table}
use pgstream.Wal.{Data, Event}

-- replication.Message; a keep alive has no data.
pub record ReplicationMessage : Type 0 where
  pub lsn : ℕ
  pub wal_data : Option Str
  pub reply_requested : Bool

-- What the connection returns: a *pglib.Error has a severity and a message.
pub data Received : Type 0 where
  message : ReplicationMessage → Received
  server_error : Str → Str → Received
  conn_timeout : Received
  other_error : Str → Received

-- What ReceiveMessage returns; `nothing` is a nil message without an error.
pub data Handled : Type 0 where
  got : ReplicationMessage → Handled
  nothing : Handled
  timed_out : Handled
  receive_failed : Str → Handled

-- excludedTables and includedTables; `none` is a map that is nil. A query of a map changes none of its later
-- answers, so the maps that it leaves are not kept.
pub record Tables : Type 0 where
  pub excluded : Option TableMap
  pub included : Option TableMap

in_map : Bool → Option TableMap → Str → Str → Bool
in_map negated none schema table = false
in_map true (some m) schema table =
    if is_empty m then false else not (contains_schema_table m schema table).0
in_map false (some m) schema table =
    if is_empty m then false else (contains_schema_table m schema table).0

excluded_table : Tables → Option (Str × Str) → Bool
unfolding in_map
excluded_table t none = false
excluded_table t (some (schema, table)) =
    in_map false t.excluded schema table || in_map true t.included schema table

module _ (no_tuple : Str → Option (Str × Str)) (tables : Tables) where
  -- isExcludedTableError, with the match of noTupleRegex.
  unfoldable pub is_excluded_table_error : Str → Str → Bool
  unfolding excluded_table
  is_excluded_table_error severity msg =
      str_eq severity (bytes "WARNING") && excluded_table tables (no_tuple msg)

  -- ReceiveMessage with mapPostgresError: other warnings are logged and passed over too.
  unfoldable pub receive_message : Received → Handled
  receive_message (message m) = got m
  receive_message (server_error severity msg) =
      if is_excluded_table_error severity msg || str_eq severity (bytes "WARNING")
      then nothing
      else receive_failed msg
  receive_message conn_timeout = timed_out
  receive_message (other_error e) = receive_failed e

-- How the loop ends: it is cancelled, or an error of the connection, of the decoder or of the processor.
pub data Ended : Type 0 where
  cancelled : Ended
  receiving : Str → Ended
  unmarshaling : Ended
  processing : Str → Ended

no_data : Option Str → Bool
no_data none = true
no_data (some text) = false

-- A keep alive that asks for no reply.
unfoldable pub silent : ReplicationMessage → Bool
unfolding no_data
silent m = no_data m.wal_data && not m.reply_requested

module _ (unmarshal : Str → Option Data) (lsn_text : ℕ → Str) where
  event_of : ReplicationMessage → Option Data → Option Event
  event_of m none = none
  event_of m (some d) = some (record { body = some d; commit_position = lsn_text m.lsn })

  -- The event of a message; `none` if its data cannot be decoded.
  unfoldable pub decoded : ReplicationMessage → Option Str → Option Event
  unfolding event_of
  decoded m none = some (record { body = none; commit_position = lsn_text m.lsn })
  decoded m (some text) = event_of m (unmarshal text)

  module _ {S : Type 0} (process : S → Event → S × Option Str) where
    processed : S × Option Str → S × Option Ended
    processed (s, none) = (s, none)
    processed (s, some e) = (s, some (processing e))

    process_decoded : S → Option Event → S × Option Ended
    unfolding processed
    process_decoded s none = (s, some unmarshaling)
    process_decoded s (some e) = processed (process s e)

    -- processWALEvent
    unfoldable pub process_wal_event : S → ReplicationMessage → S × Option Ended
    unfolding process_decoded
    process_wal_event s m = if silent m then (s, none) else process_decoded s (decoded m m.wal_data)

    next_round : S × Option Ended → (S → S × Option Ended) → S × Option Ended
    next_round (s, none) next = next s
    next_round (s, some e) next = (s, some e)

    -- listen, until the context is cancelled after these messages.
    unfoldable pub listen : (Received → Handled) → List Received → S → S × Option Ended
    unfolding next_round
    listen handle [] s = (s, some cancelled)
    listen handle (r ∷ rs) s = elim (handle r) [
      | got m ↦ next_round (process_wal_event s m) (listen handle rs)
      | nothing ↦ listen handle rs s
      | timed_out ↦ listen handle rs s
      | receive_failed e ↦ (s, some (receiving e))
    ]

-- The calls that start a stream, in order.
pub data Call : Type 0 where
  create_snapshot : Call
  start_stream : ℕ → Call
  send_status : ℕ → Call
  listening : Call

pub data StartError : Type 0 where
  no_connection no_position : StartError
  snapshot_failed start_failed status_failed : Str → StartError
  listen_ended : Ended → StartError

abbrev pub Calls : Type 0
Calls = List Call × Option StartError

-- What the server answers: a new connection, the confirmed and the restart position of the slot, the start of
-- the stream, a status update, and the snapshot generator. `none` is an error of a query, `some` of a call.
pub record Server : Type 0 where
  pub connects : Bool
  pub confirmed_flush_lsn : Option Str
  pub restart_lsn : Option Str
  pub starts : ℕ → Option Str
  pub updates : ℕ → Option Str
  pub snapshots : Option Str

module _ (parse_lsn : Str → Option ℕ) (server : Server) where
  parsed : Option Str → Option ℕ
  parsed none = none
  parsed (some text) = parse_lsn text

  -- getLastSyncedLSN, and GetCurrentLSN on a connection.
  unfoldable pub get_last_synced_lsn : Option ℕ
  unfolding parsed
  get_last_synced_lsn = parsed server.confirmed_flush_lsn

  -- getRestartLSN
  unfoldable pub get_restart_lsn : Option ℕ
  unfolding parsed
  get_restart_lsn = parsed server.restart_lsn

  or_restart : Option ℕ → Option ℕ
  or_restart none = none
  or_restart (some zero) = get_restart_lsn
  or_restart (some (suc n)) = some (suc n)

  -- The position that StartReplication starts from.
  unfoldable pub start_position : Option ℕ
  unfolding or_restart
  start_position = or_restart get_last_synced_lsn

  after_status : ℕ → Option Str → Calls
  after_status n none = (start_stream n ∷ send_status n ∷ [], none)
  after_status n (some e) = (start_stream n ∷ send_status n ∷ [], some (status_failed e))

  after_start : ℕ → Option Str → Calls
  unfolding after_status
  after_start n none = after_status n (server.updates n)
  after_start n (some e) = (start_stream n ∷ [], some (start_failed e))

  -- StartReplicationFromLSN
  unfoldable pub start_replication_from_lsn : ℕ → Calls
  unfolding after_start
  start_replication_from_lsn n = after_start n (server.starts n)

  from_position : Option ℕ → Calls
  from_position none = ([], some no_position)
  from_position (some n) = start_replication_from_lsn n

  -- StartReplication
  unfoldable pub start_replication : Calls
  unfolding from_position
  start_replication =
      if server.connects then from_position start_position else ([], some no_connection)

  -- The loop ends with an error always.
  then_listen : Ended → Calls → Calls
  then_listen end (calls, none) = (calls ++ listening ∷ [], some (listen_ended end))
  then_listen end (calls, some e) = (calls, some e)

  from_snapshot : Ended → ℕ → Option Str → Calls
  unfolding then_listen
  from_snapshot end n (some e) = (create_snapshot ∷ [], some (snapshot_failed e))
  from_snapshot end n none =
      let (calls, e) = then_listen end (start_replication_from_lsn n) in
      (create_snapshot ∷ calls, e)

  after_position : Ended → Option ℕ → Calls
  unfolding from_snapshot
  after_position end none = ([], some no_position)
  after_position end (some n) = from_snapshot end n server.snapshots

  -- snapshotAndListen
  unfoldable pub snapshot_and_listen : Ended → Calls
  unfolding after_position
  snapshot_and_listen end =
      if server.connects then after_position end get_last_synced_lsn else ([], some no_connection)

  -- Listen, with or without a snapshot generator, whose loop ends as given.
  unfoldable pub listen_from : Bool → Ended → Calls
  unfolding then_listen
  listen_from with_snapshot end =
      if with_snapshot then snapshot_and_listen end else then_listen end start_replication
