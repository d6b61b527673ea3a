-- ===== src/Batch.antt =====
-- pkg/wal/processor/batch/wal_batch.go and wal_message.go: a batch of messages under construction.
pub mod Config
pub mod Setting
pub mod Tuner
pub mod Sender
pub mod System
mod Tests
use pgstream.Prelude.{
  ℕ, ◌+◌, ◌≡◌, Bool, true, not, ◌&&◌, List, [], ◌∷◌, ◌++◌, Str, str_eq, is_empty, ltb, leb,
  if◌then◌else◌,
}
use pgstream.Wal.{zero_lsn}

-- The interface Message. Its implementations report size 0 for an empty message.
pub record Message (T : Type 0) : Type 0 where
  pub size : T → ℕ
  pub empty : T → Bool
  pub size_of_empty : (m : T) → empty m ≡ true → size m ≡ 0

pub record WalMessage (T : Type 0) : Type 0 where
  pub message : T
  pub position : Str

pub record Batch (T : Type 0) : Type 0 where
  pub messages : List T
  pub positions : List Str
  pub total_bytes : ℕ

abbrev pub empty_batch : {T : Type 0} → Batch T
empty_batch = record { messages = []; positions = []; total_bytes = 0 }

-- m.position != "" && m.position != wal.ZeroLSN
unfoldable pub is_position : Str → Bool
is_position p = not (is_empty p) && not (str_eq p zero_lsn)

module _ {T : Type 0} where
  unfoldable pub batch_is_empty : Batch T → Bool
  batch_is_empty b = is_empty b.messages && is_empty b.positions

  -- (*Batch).drain: what it returns, and the batch that it leaves behind.
  unfoldable pub drain : Batch T → Batch T × Batch T
  drain b = (b, empty_batch)

  module _ (i : Message T) where
    unfoldable pub is_keep_alive : WalMessage T → Bool
    is_keep_alive m = i.empty m.message && not (is_empty m.position)

    -- (*Batch).add
    unfoldable pub add : Batch T → WalMessage T → Batch T
    add b m =
        let b' : Batch T = if i.empty m.message then b else record b {
          messages = b.messages ++ m.message ∷ [];
          total_bytes = b.total_bytes + i.size m.message;
        } in
        if is_position m.position
        then record b' { positions = b'.positions ++ m.position ∷ [] }
        else b'

    -- (*Batch).maxBatchBytesReached
    unfoldable pub max_batch_bytes_reached : Batch T → ℕ → T → Bool
    max_batch_bytes_reached b max msg = ltb 0 max && leb max (b.total_bytes + i.size msg)
