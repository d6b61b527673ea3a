-- ===== src/Writer/Ingest/Copy.antt =====
-- pkg/wal/processor/postgres/postgres_bulk_ingest_writer.go: a batch of inserts is copied whole or not at all.
use pgstream.Prelude.{ℕ, ◌≡◌, ◌⊎◌, Bool, Option, none, some, List, [], ◌∷◌, ◌++◌, Str, length}
use pgstream.Postgres.Errors.{RawError, Error}
use pgstream.Postgres.Pool.{Connection, Ended}
use pgstream.Writer.Query.{Query}
use pgstream.Writer.Exec.{Statement, role_replica, role_default}
use pgstream.Writer.Exec.Rounds.{role_part}
use pgstream.Writer.Ingest.{copy_statement}

module _ (pq_quote : Str → Str) (conn : Connection Statement) (disable_triggers : Bool)
    (rows_copied : conn.State → Statement → ℕ) where
  open conn use {State, exec, committed, pending}

  -- What the callback leaves: nothing is committed, and without an error every insert has been copied.
  record Copied (q : Query) (qs : List Query) (s : State) (r : Ended State Unit) : Type 0 where
    untouched : committed r.after ≡ committed s
    all :
        r.error ≡ none
        → (t : State) × (rows_copied t (copy_statement pq_quote q qs) ≡ length (q ∷ qs))
          × (pending r.after
              ≡ pending s
                ++ role_part conn disable_triggers role_replica
                ++ copy_statement pq_quote q qs ∷ []
                ++ role_part conn disable_triggers role_default)

  -- The transaction of a COPY of all rows, and as many rows as inserts were copied.
  abbrev pub WritesAll : Query → List Query → State → State → Type 0
  WritesAll q qs s s' =
      (t : State) × (rows_copied t (copy_statement pq_quote q qs) ≡ length (q ∷ qs))
      × (committed s'
          ≡ committed s
            ++ (role_part conn disable_triggers role_replica
                ++ copy_statement pq_quote q qs ∷ []
                ++ role_part conn disable_triggers role_default))

  -- What a batch of inserts does to the database: nothing, with an error, or all of its rows, without an error or
  -- with one of Commit.
  abbrev pub AllOrNothing : Query → List Query → State → State × Option Error → Type 0
  AllOrNothing q qs s r =
      ((e : Error) × (r.1 ≡ some e)
        × ((committed r.0 ≡ committed s)
            ⊎ ((t : State) × (x : RawError) × ((conn.commit t).1 ≡ some x) × WritesAll q qs s r.0)))
      ⊎ ((r.1 ≡ none) × WritesAll q qs s r.0)
