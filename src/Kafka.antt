-- ===== src/Kafka.antt =====
-- pkg/kafka/kafka_offset_parser.go: an offset of a topic's partition as a commit position. A partition
-- and an offset are Go ints of 64 bits.
mod Tests
use pgstream.Prelude.{◌≡◌, refl, ◌∙◌, Option, none, some, List, [], ◌∷◌, ◌++◌, Str, arith}
use pgstream.Prelude.Int.{ℤ}
use pgstream.Prelude.Strings.{split, Without, split_first, split_whole}
use pgstream.Prelude.Decimal.{print_int, atoi, InInt64, atoi-print_int, print_int-Without}

pub record Offset : Type 0 where
  pub topic : Str
  pub partition : ℤ
  pub offset : ℤ

-- (*Parser).ToString
unfoldable pub to_string : Offset → Str
to_string o = o.topic ++ b'/' ∷ (print_int o.partition ++ b'/' ∷ print_int o.offset)

of_numbers : Str → Option ℤ → Option ℤ → Option Offset
of_numbers topic none offset = none
of_numbers topic (some partition) none = none
of_numbers topic (some partition) (some offset) =
    some (record { topic = topic; partition = partition; offset = offset })

of_parts : List Str → Option Offset
unfolding of_numbers
of_parts (topic ∷ partition ∷ offset ∷ []) = of_numbers topic (atoi partition) (atoi offset)
of_parts _ = none

-- (*Parser).FromString; `none` is ErrInvalidOffsetFormat.
unfoldable pub from_string : Str → Option Offset
unfolding of_parts
from_string s = of_parts (split b'/' s)

-- The offset of a topic with no slash in its name, printed and parsed, is what it was.
pub from_string-to_string :
    (o : Offset)
    → Without b'/' o.topic
    → InInt64 o.partition
    → InInt64 o.offset
    → from_string (to_string o) ≡ some o
unfolding from_string to_string
from_string-to_string o h hp ho =
    let partition = print_int-Without b'/' o.partition (omega arith) (λ e. absurd (omega arith)) in
    let offset = print_int-Without b'/' o.offset (omega arith) (λ e. absurd (omega arith)) in
    rw (
      split_first b'/' o.topic (print_int o.partition ++ b'/' ∷ print_int o.offset) h,
      split_first b'/' (print_int o.partition) (print_int o.offset) partition,
      split_whole b'/' (print_int o.offset) offset,
      of_parts,
      atoi-print_int o.partition hp,
      atoi-print_int o.offset ho,
      of_numbers,
    )
