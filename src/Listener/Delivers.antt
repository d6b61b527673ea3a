-- ===== src/Listener/Delivers.antt =====
-- pkg/wal/listener/postgres/wal_pg_listener.go: the loop passes on every event until something fails.
use pgstream.Prelude.{
  ℕ, ◌≡◌, ◌⊎◌, refl, sym, ap, ◌∙◌, inl, inr, Bool, true, false, str_eq, bytes, arith, Option, none,
  some, List, [], ◌∷◌, ◌++◌, Str, All,
}
use pgstream.Wal.{Data, Event}
use pgstream.Listener.{
  ReplicationMessage, Received, message, server_error, conn_timeout, other_error, nothing, Tables,
  cancelled, silent, event_of, decoded, process_decoded, processed, process_wal_event, next_round,
  receive_message, listen,
}

list_of : Option Event → List Event
list_of none = []
list_of (some e) = e ∷ []

module _ (unmarshal : Str → Option Data) (lsn_text : ℕ → Str) where
  -- The events of a message at a position: its data, if they can be decoded, or a keep alive where it asks
  -- for a reply.
  event_at : ℕ → Option Data → List Event
  event_at lsn none = []
  event_at lsn (some d) = (record { body = some d; commit_position = lsn_text lsn }) ∷ []

  events_with : ℕ → Bool → Option Str → List Event
  unfolding event_at
  events_with lsn reply (some text) = event_at lsn (unmarshal text)
  events_with lsn true none = (record { body = none; commit_position = lsn_text lsn }) ∷ []
  events_with lsn false none = []

  events_of : Received → List Event
  unfolding events_with
  events_of (message m) = events_with m.lsn m.reply_requested m.wal_data
  events_of (server_error severity msg) = []
  events_of conn_timeout = []
  events_of (other_error e) = []

  -- The events of what has been received, in order.
  unfoldable pub events : List Received → List Event
  unfolding events_of
  events [] = []
  events (r ∷ rs) = events_of r ++ events rs

  abbrev pub CanDecode : Option Str → Type 0
  CanDecode none = Unit
  CanDecode (some text) = (d : Data) × (unmarshal text ≡ some d)

  -- A message whose data can be decoded, a warning of the server, or a timeout.
  abbrev pub IsSound : Received → Type 0
  IsSound (message m) = CanDecode m.wal_data
  IsSound (server_error severity msg) = str_eq severity (bytes "WARNING") ≡ true
  IsSound conn_timeout = Unit
  IsSound (other_error e) = ⊥

  decoded-events :
      (m : ReplicationMessage) (text : Option Str) (reply : Bool)
      → m.wal_data ≡ text
      → m.reply_requested ≡ reply
      → CanDecode text
      → (silent m ≡ true) × (events_of (message m) ≡ [])
        ⊎ (silent m ≡ false)
          × ((e : Event) × (decoded unmarshal lsn_text m m.wal_data ≡ some e)
              × (events_of (message m) ≡ e ∷ []))
  unfolding silent decoded events_of
  decoded-events m none true t r h = inr (
    simp (t, r, silent),
    (
      record { body = none; commit_position = lsn_text m.lsn },
      simp (t, decoded),
      simp (t, r, events_with),
    ),
  )
  decoded-events m none false t r h = inl (simp (t, r, silent), simp (t, r, events_with))
  decoded-events m (some text) reply t r (d, e) = inr (
    simp (t, silent),
    (
      record { body = some d; commit_position = lsn_text m.lsn },
      simp (t, e, decoded, event_of),
      simp (t, e, events_with, event_at),
    ),
  )

  module _ {S : Type 0} (process : S → Event → S × Option Str) where
    -- The processor gets these events, one after the other.
    abbrev pub deliver : List Event → S → S
    deliver [] s = s
    deliver (e ∷ es) s = deliver es (process s e).0

    deliver-append : (xs ys : List Event) (s : S) → deliver (xs ++ ys) s ≡ deliver ys (deliver xs s)
    deliver-append [] ys s = refl
    deliver-append (x ∷ xs) ys s = deliver-append xs ys (process s x).0

    message-delivers :
        (m : ReplicationMessage) (s : S)
        → ((s : S) (e : Event) → (process s e).1 ≡ none)
        → IsSound (message m)
        → process_wal_event unmarshal lsn_text process s m
          ≡ (deliver (events_of (message m)) s, none)
    unfolding process_wal_event process_decoded
    message-delivers m s p h = elim (decoded-events m m.wal_data m.reply_requested refl refl h) [
      | inl (q, none_of) ↦ rw (q, none_of) refl
      | inr (q, (e, d, one)) ↦ rw (q, d, one) (accepted (process s e) (p s e))
    ]
      where
        accepted :
            (r : S × Option Str) → r.1 ≡ none → processed unmarshal lsn_text process r ≡ (r.0, none)
        accepted (t, none) h = unfold processed in refl
        accepted (t, some x) h = absurd (cc)

    module _ (no_tuple : Str → Option (Str × Str)) (tables : Tables) where
      -- A loop that receives messages whose data can be decoded, warnings and timeouts, with a processor that
      -- accepts every event, goes on until it is cancelled, and has passed on, in order, the data of every
      -- message at its position, and a keep alive for each message without data that asks for a reply.
      pub listen-delivers :
          (rs : List Received) (s : S)
          → ((s : S) (e : Event) → (process s e).1 ≡ none)
          → All IsSound rs
          → listen unmarshal lsn_text process (receive_message no_tuple tables) rs s
            ≡ (deliver (events rs) s, some cancelled)
      unfolding listen events next_round receive_message events_of
      listen-delivers [] s p h = refl
      listen-delivers (message m ∷ rs) s p h =
          let next = listen unmarshal lsn_text process (receive_message no_tuple tables) rs in
          ap (λ q. next_round unmarshal lsn_text process q next) (message-delivers m s p h.0)
          ∙ listen-delivers rs (deliver (events_of (message m)) s) p h.1
          ∙ ap (λ t. (t, some cancelled))
              (sym (deliver-append (events_of (message m)) (events rs) s))
      listen-delivers (server_error severity msg ∷ rs) s p h =
          let passed_over : receive_message no_tuple tables (server_error severity msg) ≡ nothing =
            ground arith in
          rw (passed_over, listen) (listen-delivers rs s p h.1)
      listen-delivers (conn_timeout ∷ rs) s p h = listen-delivers rs s p h.1
      listen-delivers (other_error e ∷ rs) s p h = absurd h.0
