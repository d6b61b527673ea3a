-- ===== src/Batch/Sender.antt =====
-- pkg/wal/processor/batch/wal_batch_sender.go: the loop that gathers messages into batches. What the
-- runtime chooses in a `select` is an input: which case is ready, and what a blocked hand over meets.
pub mod Order
pub mod Bounds
pub mod Bytes
use pgstream.Prelude.{
  ℕ, ◌≡◌, refl, Bool, true, false, not, ◌&&◌, ◌||◌, Option, none, some, List, [], ◌∷◌, ◌++◌, Str,
  length, leb, if◌then◌else◌,
}
use pgstream.Math.{Float64}
use pgstream.Batch.{
  Message, WalMessage, Batch, empty_batch, batch_is_empty, drain, add, is_keep_alive,
  max_batch_bytes_reached,
}
use pgstream.Batch.Setting.{Setting}
use pgstream.Batch.Tuner.{Tuner, has_converged}

-- What `select { batchChan <- batch.drain() | <-sendErrChan }` meets.
pub data Handover : Type 0 where
  taken : Handover
  send_failed : Str → Handover

-- Sender's limits: maxBatchBytes and maxBatchSize.
pub record Limits : Type 0 where
  pub max_batch_bytes : ℕ
  pub max_batch_size : ℕ

-- `handed` are the batches passed to the writer goroutine, oldest first, and `stopped` is what
-- batchMsgLoop returned.
pub record Loop (T : Type 0) : Type 0 where
  pub msg_batch : Batch T
  pub handed : List (Batch T)
  pub stopped : Option Str

abbrev pub start : {T : Type 0} → Loop T
start = record { msg_batch = empty_batch; handed = []; stopped = none }

module _ {T : Type 0} where
  hand_over : Handover → Loop T → Loop T
  unfolding drain
  hand_over taken s =
      let (batch, rest) = drain s.msg_batch in
      record s { msg_batch = rest; handed = s.handed ++ batch ∷ [] }
  hand_over (send_failed e) s = record s { msg_batch = (drain s.msg_batch).1; stopped = some e }

  -- drainBatch; an error stops the loop.
  unfoldable pub drain_batch : Handover → Loop T → Loop T
  unfolding hand_over
  drain_batch o s = if batch_is_empty s.msg_batch then s else hand_over o s

  unless_stopped : Option Str → (Loop T → Loop T) → Loop T → Loop T
  unless_stopped none f s = f s
  unless_stopped (some e) f s = s

  unless_stopped_cases {ℓ} :
      (P : Loop T → Type ℓ) (f : Loop T → Loop T) (s : Loop T)
      → (s.stopped ≡ none → P (f s))
      → ((e : Str) → s.stopped ≡ some e → P s)
      → P (unless_stopped s.stopped f s)
  unfolding unless_stopped
  unless_stopped_cases P f s runs stopped = go s.stopped refl
    where
      go : (o : Option Str) → s.stopped ≡ o → P (unless_stopped o f s)
      go none e = runs e
      go (some x) e = stopped x e

  stop : Str → Loop T → Loop T
  stop e s = record s { stopped = some e }

module _ (fl : Float64) where
  value_of : Option (Setting fl) → ℕ → ℕ
  value_of none default = default
  value_of (some s) default = s.value

  -- getMaxBatchBytes
  unfoldable pub get_max_batch_bytes : Limits → Option (Tuner fl) → ℕ
  unfolding value_of
  get_max_batch_bytes l none = l.max_batch_bytes
  get_max_batch_bytes l (some t) =
      if t.failed
      then l.max_batch_bytes
      else if has_converged fl t
      then value_of t.candidate (value_of t.measurement l.max_batch_bytes)
      else value_of t.measurement l.max_batch_bytes

  unfoldable pub max_batch_size_reached : Limits → Option (Tuner fl) → ℕ → Bool
  max_batch_size_reached l none n = leb l.max_batch_size n
  max_batch_size_reached l (some t) n = false

  -- One ready case of the loop's `select`, with the tuner as a message finds it.
  pub data Input (T : Type 0) : Type 0 where
    cancelled : Handover → Str → Input T
    send_error : Str → Input T
    tick : Handover → Input T
    message : Option (Tuner fl) → WalMessage T → Handover → Handover → Input T

  module _ {T : Type 0} (i : Message T) (l : Limits) where
    -- The message joins the batch, and a full batch or a keep alive goes out at once.
    append_message : Option (Tuner fl) → WalMessage T → Handover → Loop T → Loop T
    append_message t m o s =
        let s' = record s { msg_batch = add i s.msg_batch m } in
        if max_batch_size_reached l t (length s'.msg_batch.messages) || is_keep_alive i m
        then drain_batch o s'
        else s'

    -- A batch that the message would fill goes out first.
    make_room : Option (Tuner fl) → WalMessage T → Handover → Loop T → Loop T
    make_room t m o s =
        if not (i.empty m.message)
          && max_batch_bytes_reached i s.msg_batch (get_max_batch_bytes l t) m.message
        then drain_batch o s
        else s

    handle : Input T → Loop T → Loop T
    unfolding append_message make_room unless_stopped stop
    handle (cancelled o e) s = let s' = drain_batch o s in unless_stopped s'.stopped (stop e) s'
    handle (send_error e) s = stop e s
    handle (tick o) s = if not (batch_is_empty s.msg_batch) then drain_batch o s else s
    handle (message t m o o') s =
        let s' = make_room t m o s in unless_stopped s'.stopped (append_message t m o') s'

    -- A round of batchMsgLoop; a loop that has returned takes nothing.
    unfoldable pub step : Loop T → Input T → Loop T
    unfolding handle
    step s input = unless_stopped s.stopped (handle input) s

    unfoldable pub run : Loop T → List (Input T) → Loop T
    unfolding step
    run s [] = s
    run s (input ∷ rest) = run (step s input) rest

    unfoldable pub taken_from : Option Str → Input T → List (WalMessage T)
    taken_from none (message t m o o') = m ∷ []
    taken_from none _ = []
    taken_from (some e) _ = []

    -- The messages that the loop received from msgChan.
    unfoldable pub received : Loop T → List (Input T) → List (WalMessage T)
    unfolding taken_from
    received s [] = []
    received s (input ∷ rest) = taken_from s.stopped input ++ received (step s input) rest
