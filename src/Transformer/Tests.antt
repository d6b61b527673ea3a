-- ===== src/Transformer/Tests.antt =====
-- A table of users with a masked email, in strict mode.
use Prim.Native.String.{String}
use pgstream.Prelude.{
  ℕ, ◌+◌, ◌≡◌, ◌≢◌, ◌↔◌, refl, inl, inr, true, false, Option, none, some, List, [], ◌∷◌, ◌++◌, Str,
  bytes, All, length, arith,
}
use pgstream.Prelude.Int.{pos}
use pgstream.Wal.{Value, string, integer, Column, Data, Event, no_metadata}
use pgstream.Wal.Ddl.{DdlColumn, DdlObject, DdlEvent, DdlResult, ok}
use pgstream.Wal.Diff.{TableDiff, SchemaDiff}
use pgstream.Transformer.{
  TransformerRules, TableRules, Config, Rules, strict, config_validation_mode,
}
use pgstream.Transformer.Map.{ColumnTransformers, TransformerMap}
use pgstream.Transformer.Parser.{Result, out_of_fuel, Source, Oids, FieldDescription}
use pgstream.Transformer.Parser.Required.{required_loop, parse_and_validate}
use pgstream.Transformer.Parser.Fits.{IsValidated, parse_and_validate-IsValidated}
use pgstream.Transformer.Parser.Fuel.{required_loop-ends}
use pgstream.Transformer.Columns.{Transforms}
use pgstream.Transformer.Columns.Safe.{Pairs, Transformed}
use pgstream.Transformer.Processor.{Transformer, new_transformer}
use pgstream.Transformer.Ddl.{ddl_not_supported_in_strict_mode, process_ddl_event}
use pgstream.Transformer.Ddl.Demands.{demands}
use pgstream.Transformer.Ddl.Strict.{IsRuled, strict_ddl-IsRuled}
use pgstream.Transformer.Events.{passed_on, process_wal_event, process_wal_event-Transformed}

abbrev quoting : Str → Str
quoting s = b'"' ∷ s ++ b'"' ∷ []

abbrev users : Str
users = bytes "users"

abbrev public : Str
public = bytes "public"

abbrev rule : String → TransformerRules
rule name = record { name = bytes name; parameters = none; dynamic_parameters = [] }

abbrev user_rules : TableRules
user_rules = record {
  schema = public;
  table = users;
  column_rules = (bytes "id", rule "noop") ∷ (bytes "email", rule "masking") ∷ [];
  validation_mode = strict;
}

abbrev oids : Oids
oids = record {
  text = 25;
  varchar = 1043;
  bpchar = 1042;
  float4 = 700;
  float8 = 701;
  int2 = 21;
  int4 = 23;
  int8 = 20;
  bool = 16;
  uuid = 2950;
  bytea = 17;
  date = 1082;
  timestamp = 1114;
  timestamptz = 1184;
  jsonb = 3802;
  json = 114;
}

abbrev described : List FieldDescription
described =
    (record { name = bytes "id"; data_type_oid = 23 })
    ∷ (record { name = bytes "email"; data_type_oid = 25 })
    ∷ []

-- A transformer is known by its name.
abbrev source : Source Str
source = record {
  builder = λ r. some r.name;
  compatible_types = λ x. bytes "string" ∷ [];
  conn_url = bytes "postgres://source";
  required_tables = bytes "*.*" ∷ [];
  get_field_descriptions = λ schema table. some described;
  type_for_oid = λ oid. some (bytes "text");
  schema_names = some (public ∷ []);
  schema_tables = λ schema. some (users ∷ []);
}

abbrev config : Config
config = record { transformer_rules = user_rules ∷ []; validation_mode = strict }

abbrev rules : Rules
rules = record { transformers = user_rules ∷ []; validation_mode = strict }

abbrev key : Str
key = quoting public ++ b'.' ∷ quoting users

abbrev email_masked : ColumnTransformers Str
email_masked = (bytes "email", some (bytes "masking")) ∷ []

abbrev parsed : TransformerMap Str
parsed = record { active = (key, email_masked) ∷ []; noop = (key, (bytes "id", none) ∷ []) ∷ [] }

abbrev transformer : Transformer Str
transformer = record {
  transformer_map = parsed;
  validation_mode = strict;
  table_validation_modes = [];
}

parses : parse_and_validate quoting oids source 3 rules ≡ Result.ok parsed
unfolding parse_and_validate pgstream.Transformer.Parser.Required.validate_all_required_tables
    pgstream.Prelude.str_eq required_loop pgstream.Transformer.Parser.parse_table_name
    pgstream.Prelude.Strings.split pgstream.Transformer.Parser.Required.pattern_of
    pgstream.Transformer.Parser.Required.get_all_schema_tables pgstream.Prelude.contains
    pgstream.Prelude.Maps.set_insert pgstream.Postgres.Identifier.quote_qualified_identifier
    pgstream.Postgres.Identifier.quote_identifier pgstream.Postgres.Identifier.is_quoted_identifier
    pgstream.Prelude.Strings.has_prefix pgstream.Transformer.Parser.validate_tables
    pgstream.Transformer.Parser.validated_table pgstream.Transformer.Parser.map_column_types
    pgstream.Prelude.Maps.lookup pgstream.Prelude.Maps.insert pgstream.Prelude.Strings.has_suffix
    pgstream.Transformer.Map.add_active_transformer pgstream.Transformer.Map.add_noop_transformer
    pgstream.Transformer.Map.schema_table_key pgstream.Transformer.Parser.complete_rules
    pgstream.Transformer.Parser.is_compatible pgstream.Transformer.Parser.is_noop
    pgstream.Transformer.Parser.pg_type_compatible_with_transformer_type
    pgstream.Transformer.Parser.validate_columns pgstream.Transformer.Parser.validated_transformer
parses = refl

parse_and_validate-IsValidated_example : All (IsValidated quoting oids source) (user_rules ∷ [])
parse_and_validate-IsValidated_example =
    parse_and_validate-IsValidated quoting oids source 3 rules parsed parses

required_loop-ends_example :
    required_loop quoting oids source 3 (bytes "*.*" ∷ []) [] ≢ Result.err out_of_fuel
unfolding pgstream.Prelude.str_eq pgstream.Transformer.Parser.Fuel.rounds
required_loop-ends_example =
    required_loop-ends quoting oids source 3 (bytes "*.*" ∷ []) [] (public ∷ []) (inr refl)
      (refl, tt) (omega arith)

abbrev phone : DdlColumn
phone = record {
  attnum = 3;
  name = bytes "phone";
  type = bytes "text";
  nullable = true;
  default = none;
  generated = false;
  identity = none;
  unique = false;
}

abbrev added_phone : DdlEvent
added_phone = record {
  ddl = bytes "ALTER TABLE users ADD COLUMN phone text";
  schema_name = public;
  command_tag = bytes "ALTER TABLE";
  objects = [];
}

abbrev phone_diff : DdlEvent → SchemaDiff
phone_diff e = record {
  schema_name = public;
  schema_dropped = false;
  tables_added = [];
  tables_removed = [];
  tables_changed =
      (record {
        table_name = users;
        table_pgstream_id = [];
        table_name_change = none;
        table_primary_key_change = none;
        columns_added = phone ∷ [];
        columns_removed = [];
        columns_changed = [];
      })
      ∷ [];
}

abbrev data_of : String → String → List Column → Data
data_of action prefix cols = record {
  action = bytes action;
  timestamp = [];
  lsn = bytes "0/1";
  schema = public;
  table = users;
  columns = cols;
  identity = [];
  xid = pos 1;
  prefix = bytes prefix;
  content = [];
  metadata = no_metadata;
}

abbrev decodes : Data → DdlResult
decodes d = ok added_phone

new_in_strict :
    new_transformer quoting (parse_and_validate quoting oids source 3) config
    ≡ Result.ok transformer
unfolding new_transformer config_validation_mode pgstream.Prelude.str_eq
new_in_strict = rw parses refl

strict_ddl-IsRuled_example :
    (process_ddl_event quoting transformer decodes phone_diff (data_of "M" "pgstream.ddl" [])
      ≡ none)
    ↔ All (IsRuled quoting (user_rules ∷ []) public) (demands added_phone (phone_diff added_phone))
unfolding pgstream.Wal.Ddl.is_ddl_event pgstream.Prelude.str_eq
strict_ddl-IsRuled_example =
    strict_ddl-IsRuled quoting oids source 3 config transformer decodes phone_diff
      (data_of "M" "pgstream.ddl" []) added_phone refl new_in_strict refl refl

-- A column without a rule is refused.
phone_refused :
    process_ddl_event quoting transformer decodes phone_diff (data_of "M" "pgstream.ddl" [])
    ≡ some ddl_not_supported_in_strict_mode
unfolding process_ddl_event pgstream.Wal.Ddl.is_ddl_event pgstream.Prelude.str_eq
    pgstream.Wal.Diff.schema_diff_is_empty pgstream.Transformer.Ddl.validate_table_ddl
    pgstream.Transformer.Processor.get_table_validation_mode
    pgstream.Transformer.Map.get_all_column_transformers pgstream.Prelude.Maps.lookup
    pgstream.Transformer.Map.schema_table_key
    pgstream.Postgres.Identifier.quote_qualified_identifier
    pgstream.Postgres.Identifier.quote_identifier pgstream.Postgres.Identifier.is_quoted_identifier
    pgstream.Prelude.Strings.has_prefix pgstream.Transformer.Ddl.names_of
    pgstream.Transformer.Map.copy pgstream.Prelude.Maps.insert
phone_refused = refl

-- The state counts the calls.
abbrev masks : Transforms Str ℕ
masks = record {
  is_dynamic = λ x. false;
  transform = λ x v ty dynamic s. (s + 1, some (string (bytes "***")));
}

abbrev accepts : Event → ℕ → ℕ × Option Str
accepts e s = (s, none)

abbrev row : List Column
row =
    (record { id = []; name = bytes "id"; type = bytes "int4"; value = integer (pos 7) })
    ∷ (record {
      id = [];
      name = bytes "email";
      type = bytes "text";
      value = string (bytes "a@b.c");
    })
    ∷ []

abbrev row_event : Event
row_event = record { body = some (data_of "I" "" row); commit_position = bytes "0/1" }

process_wal_event-Transformed_example :
    (out : List Column) × (s' : ℕ) × (process_wal_event quoting masks transformer decodes phone_diff
        accepts row_event 0
      ≡ passed_on (accepts (record row_event { body = some (data_of "I" "" out) }) s'))
    × Pairs (Transformed masks email_masked) row out
unfolding pgstream.Wal.Ddl.is_ddl_event pgstream.Prelude.str_eq
    pgstream.Transformer.Map.get_active_column_transformers pgstream.Prelude.Maps.lookup
    pgstream.Transformer.Map.schema_table_key
    pgstream.Postgres.Identifier.quote_qualified_identifier
    pgstream.Postgres.Identifier.quote_identifier pgstream.Postgres.Identifier.is_quoted_identifier
    pgstream.Prelude.Strings.has_prefix
process_wal_event-Transformed_example =
    process_wal_event-Transformed quoting masks transformer decodes phone_diff accepts row_event
      (data_of "I" "" row) email_masked 0 refl refl refl
