-- ===== src/Kafka/Tests.antt =====
-- The offset 42 of partition 3 of a topic.
use pgstream.Prelude.{◌≡◌, some, bytes, arith}
use pgstream.Prelude.Int.{pos}
use pgstream.Prelude.Strings.{Without}
use pgstream.Kafka.{Offset, to_string, from_string, from_string-to_string}

abbrev sample_offset : Offset
sample_offset = record { topic = bytes "wal"; partition = pos 3; offset = pos 42 }

Without-wal : Without b'/' (bytes "wal")
Without-wal = ground arith

from_string-to_string_example : from_string (to_string sample_offset) ≡ some sample_offset
from_string-to_string_example =
    from_string-to_string sample_offset Without-wal (omega arith) (omega arith)
