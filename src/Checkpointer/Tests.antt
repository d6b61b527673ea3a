-- ===== src/Checkpointer/Tests.antt =====
-- Positions of one byte each, as numbers.
use pgstream.Prelude.{
  bytes, ℕ, ◌≡◌, ◌⊎◌, refl, sym, ap, ◌∙◌, Option, none, some, List, [], ◌∷◌, Str, All, Any,
}
use pgstream.Prelude.Int.{pos}
use pgstream.Kafka.{Offset, from_string}
use pgstream.Checkpointer.Kafka.{
  OffsetMap, commit_offsets, PositionCovered, OneOf, IsSound, commit_offsets-last,
}
use pgstream.Checkpointer.Postgres.{synced_to, sync_lsn, AtMost, sync_lsn-max}

abbrev first_byte : Str → Option ℕ
first_byte [] = none
first_byte (c ∷ s) = some c

abbrev positions : List Str
positions = (3 ∷ []) ∷ (7 ∷ []) ∷ (5 ∷ []) ∷ []

abbrev largest : ℕ
largest = 7

positions_synced : sync_lsn first_byte positions ≡ synced_to largest
unfolding sync_lsn
positions_synced = refl

sync_lsn-max_example :
    All (AtMost first_byte largest) positions
    × ((largest ≡ 0) ⊎ Any (λ p. first_byte p ≡ some largest) positions)
sync_lsn-max_example = sync_lsn-max first_byte positions largest positions_synced

abbrev kafka_positions : List Str
kafka_positions = bytes "wal/0/7" ∷ bytes "wal/1/2" ∷ bytes "wal/0/5" ∷ []

abbrev committed_offsets : OffsetMap
committed_offsets =
    (bytes "wal-0", record { topic = bytes "wal"; partition = pos 0; offset = pos 7 })
    ∷ (bytes "wal-1", record { topic = bytes "wal"; partition = pos 1; offset = pos 2 })
    ∷ []

kafka_positions_committed : commit_offsets kafka_positions ≡ some committed_offsets
unfolding commit_offsets pgstream.Kafka.from_string pgstream.Prelude.Strings.split
    pgstream.Prelude.Decimal.atoi pgstream.Prelude.Maps.lookup pgstream.Prelude.Maps.insert
    pgstream.Prelude.str_eq pgstream.Checkpointer.Kafka.topic_partition
    pgstream.Prelude.Decimal.print_int pgstream.Prelude.Decimal.print_ℕ
kafka_positions_committed = refl

abbrev offset_of : ℕ → ℕ → Offset
offset_of partition n = record { topic = bytes "wal"; partition = pos partition; offset = pos n }

sound : (p : Str) (n k : ℕ) → from_string p ≡ some (offset_of n k) → IsSound p
sound p n k q o e =
    let same : ◌≡◌ {A = Option Offset} (some o) (some (offset_of n k)) = sym e ∙ q in
    let same' : o ≡ offset_of n k = cc in (n, ap (λ (x : Offset). x.partition) same')

kafka_positions-IsSound : All IsSound kafka_positions
unfolding from_string pgstream.Prelude.Strings.split pgstream.Prelude.Decimal.atoi
kafka_positions-IsSound = (
  sound (bytes "wal/0/7") 0 7 refl,
  (sound (bytes "wal/1/2") 1 2 refl, (sound (bytes "wal/0/5") 0 5 refl, tt)),
)

commit_offsets-last_example :
    All (PositionCovered committed_offsets) kafka_positions
    × All (OneOf kafka_positions) committed_offsets
commit_offsets-last_example =
    commit_offsets-last kafka_positions committed_offsets kafka_positions-IsSound
      kafka_positions_committed
