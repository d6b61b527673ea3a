-- ===== src/Listener/Starts.antt =====
-- pkg/wal/listener/postgres/wal_pg_listener.go and pkg/wal/replication/postgres/pg_replication_handler.go: where the
-- stream starts.
use pgstream.Prelude.{
  ℕ, ◌≡◌, refl, Bool, true, false, Option, none, some, List, [], ◌∷◌, Str, ap, ◌∙◌, if◌then◌else◌,
}
use pgstream.Listener.{
  Ended, Call, create_snapshot, start_stream, send_status, listening, StartError, no_connection,
  listen_ended, snapshot_failed, start_failed, status_failed, Calls, Server, get_last_synced_lsn,
  start_position, after_status, after_start, start_replication_from_lsn, from_position,
  start_replication, then_listen, from_snapshot, after_position, snapshot_and_listen, listen_from,
}

if_true : {A : Type 0} (b : Bool) (x y : A) → b ≡ true → (if b then x else y) ≡ x
if_true true x y e = refl
if_true false x y e = absurd (cc)

unfoldable pub add_call : Call → Calls → Calls
add_call call (calls, e) = (call ∷ calls, e)

-- The calls are made in order up to the first that fails, whose error is the result; after the last the loop runs.
unfoldable pub run_steps : List (Call × Option StartError) → Ended → Calls
run_steps [] end = (listening ∷ [], some (listen_ended end))
run_steps ((call, some e) ∷ rest) end = (call ∷ [], some e)
run_steps ((call, none) ∷ rest) end = add_call call (run_steps rest end)

module _ (parse_lsn : Str → Option ℕ) (server : Server) where
  failed_with : (Str → StartError) → Option Str → Option StartError
  failed_with f none = none
  failed_with f (some e) = some (f e)

  -- What has to succeed before the loop, each with its own error.
  unfoldable stream_steps : ℕ → List (Call × Option StartError)
  unfolding failed_with
  stream_steps n =
      (start_stream n, failed_with start_failed (server.starts n))
      ∷ (send_status n, failed_with status_failed (server.updates n))
      ∷ []

  unfoldable pub steps : Bool → ℕ → List (Call × Option StartError)
  unfolding stream_steps failed_with
  steps false n = stream_steps n
  steps true n = (create_snapshot, failed_with snapshot_failed server.snapshots) ∷ stream_steps n

  -- The position that the stream starts from: with a snapshot, what the slot has confirmed; without one, the
  -- restart position if nothing has been confirmed.
  abbrev pub position : Bool → Option ℕ
  position true = get_last_synced_lsn parse_lsn server
  position false = start_position parse_lsn server

  from_lsn-run_steps :
      (n : ℕ) (end : Ended)
      → then_listen parse_lsn server end (start_replication_from_lsn parse_lsn server n)
        ≡ run_steps (stream_steps n) end
  unfolding start_replication_from_lsn stream_steps run_steps add_call then_listen after_status
      after_start failed_with
  from_lsn-run_steps n end = by_start (server.starts n)
    where
      by_status :
          (u : Option Str)
          → then_listen parse_lsn server end (after_status parse_lsn server n u)
            ≡ run_steps
                ((start_stream n, none) ∷ (send_status n, failed_with status_failed u) ∷ [])
                end
      by_status none = refl
      by_status (some e) = refl

      by_start :
          (o : Option Str)
          → then_listen parse_lsn server end (after_start parse_lsn server n o)
            ≡ run_steps
                ((start_stream n, failed_with start_failed o)
                  ∷ (send_status n, failed_with status_failed (server.updates n))
                  ∷ [])
                end
      by_start none = by_status (server.updates n)
      by_start (some e) = refl

  from_snapshot-run_steps :
      (n : ℕ) (end : Ended)
      → from_snapshot parse_lsn server end n server.snapshots ≡ run_steps (steps true n) end
  unfolding steps from_snapshot failed_with run_steps add_call
  from_snapshot-run_steps n end = by_snapshot server.snapshots
    where
      by_snapshot :
          (o : Option Str)
          → from_snapshot parse_lsn server end n o
            ≡ run_steps ((create_snapshot, failed_with snapshot_failed o) ∷ stream_steps n) end
      by_snapshot (some e) = refl
      by_snapshot none = ap (add_call create_snapshot) (from_lsn-run_steps n end)

  started :
      (n : ℕ)
      → server.connects ≡ true
      → start_position parse_lsn server ≡ some n
      → start_replication parse_lsn server ≡ start_replication_from_lsn parse_lsn server n
  unfolding start_replication from_position
  started n c p =
      if_true server.connects (from_position parse_lsn server (start_position parse_lsn server))
        ([], some no_connection) c
      ∙ ap (from_position parse_lsn server) p

  snapshot_started :
      (n : ℕ) (end : Ended)
      → server.connects ≡ true
      → get_last_synced_lsn parse_lsn server ≡ some n
      → snapshot_and_listen parse_lsn server end
        ≡ from_snapshot parse_lsn server end n server.snapshots
  unfolding snapshot_and_listen after_position
  snapshot_started n end c p =
      if_true server.connects
        (after_position parse_lsn server end (get_last_synced_lsn parse_lsn server))
        ([], some no_connection) c
      ∙ ap (after_position parse_lsn server end) p

  -- With a connection and a readable position, the listener takes the snapshot if it has a generator, starts the
  -- stream at the position, and sends the position as status, in this order. The first of these calls that fails is
  -- the last and its error the result; the loop runs exactly if none fails.
  pub listen_from-run_steps :
      (with_snapshot : Bool) (n : ℕ) (end : Ended)
      → server.connects ≡ true
      → position with_snapshot ≡ some n
      → listen_from parse_lsn server with_snapshot end ≡ run_steps (steps with_snapshot n) end
  unfolding listen_from steps
  listen_from-run_steps true n end c p = snapshot_started n end c p ∙ from_snapshot-run_steps n end
  listen_from-run_steps false n end c p =
      ap (then_listen parse_lsn server end) (started n c p) ∙ from_lsn-run_steps n end
