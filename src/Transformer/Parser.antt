-- ===== src/Transformer/Parser.antt =====
-- pkg/wal/processor/transformer/wal_transformer_parser.go and wal_postgres_transformer_parser.go: the rules of a
-- configuration are parsed to a map of transformers. The builder of transformers, the catalog queries and the
-- numbers of the Postgres types are arguments. A map of rules is read in the order of its list.
pub mod Required
pub mod Accepted
pub mod Supports
pub mod Fits
pub mod Fuel
use pgstream.Prelude.{
  ℕ, zero, suc, Bool, true, false, not, ◌&&◌, ◌||◌, Option, none, some, List, [], ◌∷◌, ◌++◌, Str,
  bytes, str_eq, is_empty, contains, map, ◌==◌, if◌then◌else◌,
}
use pgstream.Prelude.Maps.{lookup, insert, set_insert}
use pgstream.Prelude.Strings.{split}
use pgstream.Wal.{Value, null, string}
use pgstream.Postgres.Identifier.{quote_qualified_identifier}
use pgstream.Transformer.{TransformerRules, TableRules, Rules, strict}
use pgstream.Transformer.Map.{TransformerMap, add_active_transformer, add_noop_transformer}

-- out_of_fuel stands for a loop that has not ended, and nil_map for the panic of a write to a nil map.
pub data ParseError : Type 0 where
  validator_required build_failed query_failed column_not_configured column_not_found : ParseError
  type_not_supported required_table_missing invalid_table_name wildcard_schema_table : ParseError
  nil_map out_of_fuel : ParseError

pub data Result (A : Type 0) : Type 0 where
  ok : A → Result A
  err : ParseError → Result A

infixl 5 ◌>>=◌
abbrev pub ◌>>=◌ : {A B : Type 0} → Result A → (A → Result B) → Result B
ok a >>= f = f a
err e >>= f = err e

abbrev pub or_error : {A : Type 0} → ParseError → Option A → Result A
or_error e none = err e
or_error e (some a) = ok a

abbrev pub require : {A : Type 0} → Bool → ParseError → Result A → Result A
require true e r = r
require false e r = err e

pub record FieldDescription : Type 0 where
  pub name : Str
  pub data_type_oid : ℕ

-- The object identifiers that the driver gives the built-in types.
pub record Oids : Type 0 where
  pub text : ℕ
  pub varchar : ℕ
  pub bpchar : ℕ
  pub float4 : ℕ
  pub float8 : ℕ
  pub int2 : ℕ
  pub int4 : ℕ
  pub int8 : ℕ
  pub bool : ℕ
  pub uuid : ℕ
  pub bytea : ℕ
  pub date : ℕ
  pub timestamp : ℕ
  pub timestamptz : ℕ
  pub jsonb : ℕ
  pub json : ℕ

unfoldable pub pg_type_compatible_with_transformer_type : Oids → List Str → ℕ → Str → Bool
pg_type_compatible_with_transformer_type o types oid name =
    if contains types (bytes "all")
    then true
    else if oid == o.text || (oid == o.varchar || oid == o.bpchar)
    then contains types (bytes "string")
    else if oid == o.float4
    then contains types (bytes "float32")
    else if oid == o.float8
    then contains types (bytes "float64")
    else if oid == o.int2
    then contains types (bytes "integer16")
    else if oid == o.int4
    then contains types (bytes "integer32")
    else if oid == o.int8
    then contains types (bytes "integer64")
    else if oid == o.bool
    then contains types (bytes "boolean")
    else if oid == o.uuid
    then contains types (bytes "uint8_array_of_16")
    else if oid == o.bytea
    then contains types (bytes "byte_array")
    else if oid == o.date
    then contains types (bytes "date")
    else if oid == o.timestamp || oid == o.timestamptz
    then contains types (bytes "datetime")
    else if oid == o.jsonb || oid == o.json
    then contains types (bytes "json")
    else if str_eq name (bytes "citext")
    then contains types (bytes "citext")
    else if str_eq name (bytes "hstore")
    then contains types (bytes "hstore")
    else false

named_table : List Str → Option (Str × Str)
named_table (table ∷ []) = some (bytes "public", table)
named_table (schema ∷ table ∷ []) = some (schema, table)
named_table _ = none

unfoldable pub parse_table_name : Str → Option (Str × Str)
unfolding named_table
parse_table_name name = named_table (split b'.' name)

-- What the parsers ask of the builder and of the database.
pub record Source (T : Type 0) : Type 0 where
  pub builder : TransformerRules → Option T
  pub compatible_types : T → List Str
  pub conn_url : Str
  pub required_tables : List Str
  pub get_field_descriptions : Str → Str → Option (List FieldDescription)
  pub type_for_oid : ℕ → Option Str
  pub schema_names : Option (List Str)
  pub schema_tables : Str → Option (List Str)

unfoldable pub is_noop : TransformerRules → Bool
is_noop r = is_empty r.name || str_eq r.name (bytes "noop")

is_null : Option Value → Bool
is_null none = true
is_null (some null) = true
is_null (some v) = false

with_url : Str → TransformerRules → Option (List (Str × Value)) → Result TransformerRules
with_url url r none = err nil_map
with_url url r (some ps) =
    if is_null (lookup (bytes "postgres_url") ps)
    then ok (record r { parameters = some (insert (bytes "postgres_url") (string url) ps) })
    else ok r

-- The connection string that a pg_anonymizer transformer gets.
unfoldable pub complete_rules : Str → TransformerRules → Result TransformerRules
unfolding with_url is_null
complete_rules url r =
    if str_eq r.name (bytes "pg_anonymizer") then with_url url r r.parameters else ok r

-- The types of the columns that have a rule; in strict mode each column of the table has one.
unfoldable pub map_column_types :
    TableRules → List FieldDescription → List (Str × ℕ) → Result (List (Str × ℕ))
map_column_types t [] types = ok types
map_column_types t (d ∷ ds) types =
    let skip = map_column_types t ds types in
    let mapped = map_column_types t ds (insert d.name d.data_type_oid types) in
    elim (lookup d.name t.column_rules) [
      | none ↦ require (not (str_eq t.validation_mode strict)) column_not_configured skip
      | some r ↦ mapped
    ]

module _ (pq_quote : Str → Str) {T : Type 0} (oids : Oids) (src : Source T) where
  open src use {
    builder, compatible_types, conn_url, required_tables, get_field_descriptions, type_for_oid,
    schema_names, schema_tables,
  }

  -- The columns of a table in (*transformerParser).parse
  unfoldable pub parse_columns :
      TableRules → List (Str × TransformerRules) → TransformerMap T → Result (TransformerMap T)
  parse_columns t [] m = ok m
  parse_columns t ((col, r) ∷ rs) m =
      let noop = parse_columns t rs (add_noop_transformer pq_quote t.schema t.table col m) in
      let built =
        λ (x : T). parse_columns t rs (add_active_transformer pq_quote t.schema t.table col x m) in
      if is_noop r then noop else (or_error build_failed (builder r) >>= built)

  unfoldable pub parse_tables : List TableRules → TransformerMap T → Result (TransformerMap T)
  parse_tables [] m = ok m
  parse_tables (t ∷ ts) m =
      require (not (str_eq t.validation_mode strict)) validator_required
        (parse_columns t t.column_rules m >>= λ m'. parse_tables ts m')

  -- (*transformerParser).parse
  unfoldable pub parse : Rules → Result (TransformerMap T)
  parse rules = parse_tables rules.transformers (record { active = []; noop = [] })

  -- The test of a built transformer against the type of its column.
  unfoldable pub is_compatible : T → ℕ → Bool
  is_compatible x oid = elim (type_for_oid oid) [
    | none ↦ false
    | some name ↦ pg_type_compatible_with_transformer_type oids (compatible_types x) oid name
  ]

  -- One column of ParseAndValidate that is not a noop.
  unfoldable pub validated_transformer : List (Str × ℕ) → Str → TransformerRules → Result T
  validated_transformer types col r = do
    cfg ← complete_rules conn_url r
    x ← or_error build_failed (builder cfg)
    oid ← or_error column_not_found (lookup col types)
    require (is_compatible x oid) type_not_supported (ok x)

  unfoldable pub validate_columns :
      TableRules
      → List (Str × ℕ)
      → List (Str × TransformerRules)
      → TransformerMap T
      → Result (TransformerMap T)
  validate_columns t types [] m = ok m
  validate_columns t types ((col, r) ∷ rs) m =
      let noop =
        validate_columns t types rs (add_noop_transformer pq_quote t.schema t.table col m) in
      let built = λ (x : T).
        validate_columns t types rs (add_active_transformer pq_quote t.schema t.table col x m) in
      if is_noop r then noop else (validated_transformer types col r >>= built)

  -- One table of ParseAndValidate.
  unfoldable pub validated_table : TableRules → TransformerMap T → Result (TransformerMap T)
  validated_table t m = or_error query_failed (get_field_descriptions t.schema t.table) >>= λ ds.
      map_column_types t ds [] >>= λ types. validate_columns t types t.column_rules m

  unfoldable pub validate_tables : List TableRules → TransformerMap T → Result (TransformerMap T)
  validate_tables [] m = ok m
  validate_tables (t ∷ ts) m = validated_table t m >>= λ m'. validate_tables ts m'
