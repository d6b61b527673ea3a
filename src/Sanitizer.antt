-- ===== src/Sanitizer.antt =====
-- pkg/wal/processor/sanitizer/wal_sanitizer.go: null bytes are stripped from string values. The event is
-- changed in place before the inner processor gets it, so the model returns it. Logging is left out.
pub mod Clean
mod Tests
use pgstream.Prelude.{
  Bool, true, false, not, Option, none, some, List, [], ◌∷◌, Str, ◌==◌, keep, if◌then◌else◌,
}
use pgstream.Wal.{
  Value, null, string, byte_slice, integer, float, boolean, other, Column, Data, Event,
}

-- strings.ContainsRune(str, 0)
unfoldable pub contains_null : Str → Bool
contains_null [] = false
contains_null (c ∷ s) = if c == 0 then true else contains_null s

-- strings.ReplaceAll(str, "\x00", "")
abbrev pub strip_nulls : Str → Str
strip_nulls s = keep (λ c. not (c == 0)) s

unfoldable pub sanitize_value : Value → Value
sanitize_value (string s) = if contains_null s then string (strip_nulls s) else string s
sanitize_value null = null
sanitize_value (byte_slice s) = byte_slice s
sanitize_value (integer n) = integer n
sanitize_value (float n) = float n
sanitize_value (boolean b) = boolean b
sanitize_value (other n) = other n

unfoldable pub sanitize_columns : List Column → List Column
sanitize_columns [] = []
sanitize_columns (col ∷ cols) =
    record col { value = sanitize_value col.value } ∷ sanitize_columns cols

sanitize_data : Option Data → Option Data
sanitize_data none = none
sanitize_data (some d) = some (record d { columns = sanitize_columns d.columns })

-- ProcessWALEvent: the event that the inner processor gets.
unfoldable pub sanitize : Event → Event
unfolding sanitize_data
sanitize e = record e { body = sanitize_data e.body }
