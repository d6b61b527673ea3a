-- ===== src/Sanitizer/Tests.antt =====
-- An event with a null byte in a column.
use pgstream.Prelude.{some, [], ◌∷◌, bytes}
use pgstream.Prelude.Int.{pos}
use pgstream.Wal.{string, Event, no_metadata}

abbrev dirty_event : Event
dirty_event = record {
  body = some (record {
    action = bytes "I";
    timestamp = [];
    lsn = bytes "0/10";
    schema = bytes "public";
    table = bytes "users";
    columns =
        record {
          id = bytes "c1";
          name = bytes "name";
          type = bytes "text";
          value = string (97 ∷ 0 ∷ 98 ∷ []);
        }
        ∷ [];
    identity = [];
    xid = pos 0;
    prefix = [];
    content = [];
    metadata = no_metadata;
  });
  commit_position = bytes "0/1";
}
