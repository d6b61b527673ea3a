-- ===== src/Batch/System.antt =====
-- pkg/wal/processor/batch/wal_batch_sender.go: SendMessage, the loop and the writer goroutine around the
-- queue semaphore. The weighted semaphore (internal/sync/semaphore.go, golang.org/x/sync) is a
-- parameter. `batchChan` is a queue of batches, which admits more interleavings than the
-- unbuffered channel of the source.
pub mod Memory
use pgstream.Prelude.{ℕ, ◌+◌, ◌≤◌, ◌≡◌, ◌≢◌, Option, none, some, List, [], ◌∷◌, ◌++◌, Str}
use pgstream.Math.{Float64}
use pgstream.Batch.{Message, WalMessage, Batch}
use pgstream.Batch.Sender.{Handover, Loop, start, Limits, Input, message, step}
use pgstream.Batch.Tuner.{Tuner}

-- semaphore.Weighted: an acquisition succeeds only within the size, and releasing what is held
-- succeeds. `none` is a blocked acquisition, or the panic of a release of more than is held.
pub record Semaphore : Type 1 where
  pub State : Type 0
  pub size : ℕ
  pub held : State → ℕ
  pub new : State
  pub acquire : State → ℕ → Option State
  pub release : State → ℕ → Option State
  pub held-new : held new ≡ 0
  pub held-acquire :
      (s t : State) (n : ℕ) → acquire s n ≡ some t → (held t ≡ held s + n) × (held t ≤ size)
  pub release_total : (s : State) (n : ℕ) → n ≤ held s → (t : State) × (release s n ≡ some t)
  pub held-release : (s t : State) (n : ℕ) → release s n ≡ some t → held t + n ≡ held s

module _ (fl : Float64) (sem : Semaphore) {T : Type 0} (i : Message T) (l : Limits) where
  open sem use {State, new, acquire, release}

  -- `blocked` are the messages whose SendMessage has acquired their bytes and waits for the loop,
  -- `queue` are the batches that the writer has not sent yet, and `sent` those that it has.
  pub record System : Type 0 where
    pub loop : Loop T
    pub queue_bytes : State
    pub blocked : List (WalMessage T)
    pub queue : List (Batch T)
    pub sent : List (Batch T)

  abbrev pub init : System
  init = record { loop = start; queue_bytes = new; blocked = []; queue = []; sent = [] }

  abbrev pub NotMessage : Input fl T → Type 0
  NotMessage (message t m o o') = ⊥
  NotMessage _ = Unit

  pub data Step (s : System) : System → Type 0 where
    -- SendMessage acquires the bytes of its message.
    send :
        (m : WalMessage T) (q : State)
        → acquire s.queue_bytes (i.size m.message) ≡ some q
        → Step s (record s { queue_bytes = q; blocked = s.blocked ++ m ∷ [] })
    -- SendMessage returns an error once the loop has stopped; its bytes stay acquired.
    refuse :
        (before after : List (WalMessage T)) (m : WalMessage T)
        → s.blocked ≡ before ++ m ∷ after
        → s.loop.stopped ≢ none
        → Step s (record s { blocked = before ++ after })
    -- The loop receives the message of any blocked SendMessage, and hands over batches.
    receive :
        (before after : List (WalMessage T)) (m : WalMessage T) (t : Option (Tuner fl))
        (o o' : Handover) (handed : List (Batch T))
        → s.blocked ≡ before ++ m ∷ after
        → s.loop.stopped ≡ none
        → (step fl i l s.loop (message t m o o')).handed ≡ s.loop.handed ++ handed
        → Step s (record s {
          loop = step fl i l s.loop (message t m o o');
          blocked = before ++ after;
          queue = s.queue ++ handed;
        })
    -- A tick, a cancellation, or an error of the writer.
    turn :
        (input : Input fl T) (handed : List (Batch T))
        → NotMessage input
        → (step fl i l s.loop input).handed ≡ s.loop.handed ++ handed
        → Step s (record s { loop = step fl i l s.loop input; queue = s.queue ++ handed })
    -- The writer sends the next batch, successfully or not, and releases its bytes. A writer that has
    -- returned on an error takes no more of these steps.
    write :
        (b : Batch T) (rest : List (Batch T)) (q : State)
        → s.queue ≡ b ∷ rest
        → release s.queue_bytes b.total_bytes ≡ some q
        → Step s (record s { queue_bytes = q; queue = rest; sent = s.sent ++ b ∷ [] })

  pub data Reach : System → Type 0 where
    here : Reach init
    then_step : {s t : System} → Reach s → Step s t → Reach t
