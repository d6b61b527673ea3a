-- ===== src/Wal/Tests.antt =====
-- DDL objects for a table and for a column of it.
use pgstream.Prelude.{◌≡◌, refl, [], Str, bytes, arith}
use pgstream.Prelude.Strings.{Without}
use pgstream.Wal.Ddl.{DdlObject, get_table, get_name, get_schema}
use pgstream.Wal.Ddl.Identity.{column_identity}

abbrev object_named : Str → DdlObject
object_named identity = record {
  type = [];
  identity = identity;
  schema = bytes "public";
  oid = [];
  pgstream_id = [];
  columns = [];
  primary_key_columns = [];
}

abbrev users_object : DdlObject
users_object = object_named (bytes "public.users")

abbrev email_object : DdlObject
email_object = object_named (bytes "public.users.email")

Without-public : Without b'.' (bytes "public")
Without-public = ground arith

Without-users : Without b'.' (bytes "users")
Without-users = ground arith

Without-email : Without b'.' (bytes "email")
Without-email = ground arith

column_identity_example :
    (get_schema email_object ≡ bytes "public")
    × (get_table email_object ≡ bytes "users")
    × (get_name email_object ≡ bytes "email")
column_identity_example =
    column_identity email_object (bytes "public") (bytes "users") (bytes "email") Without-public
      Without-users Without-email refl
