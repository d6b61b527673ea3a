-- ===== src/Listener/Tests.antt =====
-- A stream with a timeout, a warning and two messages, and a server whose slot has confirmed a position.
use Prim.Native.String.{String}
use pgstream.Prelude.{
  ℕ, ◌≡◌, refl, inl, inr, Bool, true, false, Option, none, some, List, [], ◌∷◌, ◌++◌, Str, bytes,
  is_empty, All, if◌then◌else◌,
}
use pgstream.Prelude.Int.{pos}
use pgstream.Wal.{Data, Event, no_metadata}
use pgstream.Listener.{
  ReplicationMessage, Received, message, server_error, conn_timeout, Tables, receive_message,
  cancelled, listen, Server, listen_from, get_last_synced_lsn,
}
use pgstream.Listener.Delivers.{events, IsSound, deliver, listen-delivers}
use pgstream.Listener.Starts.{position, steps, run_steps, listen_from-run_steps}

abbrev data_of : Str → Data
data_of text = record {
  action = text;
  timestamp = [];
  lsn = [];
  schema = [];
  table = [];
  columns = [];
  identity = [];
  xid = pos 0;
  prefix = [];
  content = [];
  metadata = no_metadata;
}

abbrev decode : Str → Option Data
decode text = if is_empty text then none else some (data_of text)

abbrev as_text : ℕ → Str
as_text n = n ∷ []

abbrev log : List Event → Event → List Event × Option Str
log done e = (done ++ e ∷ [], none)

accepts : (s : List Event) (e : Event) → (log s e).1 ≡ none
accepts s e = refl

abbrev no_tables : Tables
no_tables = record { excluded = none; included = none }

abbrev no_match : Str → Option (Str × Str)
no_match text = none

abbrev wal_message : String → ℕ → ReplicationMessage
wal_message text n = record { lsn = n; wal_data = some (bytes text); reply_requested = false }

abbrev keep_alive : ReplicationMessage
keep_alive = record { lsn = 4; wal_data = none; reply_requested = false }

abbrev stream : List Received
stream =
    message (wal_message "I" 1)
    ∷ conn_timeout
    ∷ server_error (bytes "WARNING") (bytes "odd")
    ∷ message keep_alive
    ∷ message (wal_message "U" 2)
    ∷ []

stream-IsSound : All (IsSound decode as_text) stream
unfolding pgstream.Prelude.str_eq
stream-IsSound = ((_, refl), (tt, (refl, (tt, ((_, refl), tt)))))

listen-delivers_example :
    listen decode as_text log (receive_message no_match no_tables) stream []
    ≡ (deliver decode as_text log (events decode as_text stream) [], some cancelled)
listen-delivers_example =
    listen-delivers decode as_text log no_match no_tables stream [] accepts stream-IsSound

abbrev server : Server
server = record {
  connects = true;
  confirmed_flush_lsn = some (bytes "0/7");
  restart_lsn = some (bytes "0/1");
  starts = λ n. none;
  updates = λ n. none;
  snapshots = none;
}

abbrev seven : Str → Option ℕ
seven text = some 7

confirmed : position seven server true ≡ some 7
unfolding get_last_synced_lsn
confirmed = refl

listen_from-run_steps_example :
    listen_from seven server true cancelled ≡ run_steps (steps seven server true 7) cancelled
listen_from-run_steps_example = listen_from-run_steps seven server true 7 cancelled refl confirmed
