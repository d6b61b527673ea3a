-- ===== src/Transformer/Parser/Required.antt =====
-- pkg/wal/processor/transformer/wal_postgres_transformer_parser.go: the tables that must have rules in strict mode.
use pgstream.Prelude.{
  ℕ, zero, suc, Bool, true, not, ◌&&◌, List, [], ◌∷◌, ◌++◌, Str, bytes, str_eq, contains, map,
  if◌then◌else◌,
}
use pgstream.Prelude.Maps.{set_insert}
use pgstream.Postgres.Identifier.{quote_qualified_identifier}
use pgstream.Transformer.{TableRules, Rules, strict}
use pgstream.Transformer.Map.{TransformerMap}
use pgstream.Transformer.Parser.{
  Result, ok, err, ◌>>=◌, or_error, require, out_of_fuel, query_failed, invalid_table_name,
  wildcard_schema_table, required_table_missing, parse_table_name, Source, Oids, validate_tables,
}

unfoldable pub pattern_of : Str → Str
pattern_of schema = schema ++ bytes ".*"

module _ (pq_quote : Str → Str) {T : Type 0} (oids : Oids) (src : Source T) where
  open src use {required_tables, schema_names, schema_tables}

  -- getAllSchemaTables
  unfoldable pub get_all_schema_tables : Str → Result (List Str)
  get_all_schema_tables schema = or_error query_failed (schema_tables schema) >>= λ names.
      ok (map (quote_qualified_identifier pq_quote schema) names)

  -- The loop over the tables that are required, which a pattern of all schemas makes longer.
  unfoldable pub required_loop : ℕ → List Str → List Str → Result (List Str)
  required_loop zero todo found = err out_of_fuel
  required_loop (suc fuel) [] found = ok found
  required_loop (suc fuel) (name ∷ todo) found =
      or_error invalid_table_name (parse_table_name name) >>= λ p.
      let (schema, table) = p in
      let all_schemas = or_error query_failed schema_names >>= λ names.
      required_loop fuel (todo ++ map pattern_of names) found in
      let one_table =
        required_loop fuel todo (found ++ quote_qualified_identifier pq_quote schema table ∷ []) in
      let one_schema =
        get_all_schema_tables schema >>= λ names. required_loop fuel todo (found ++ names) in
      if str_eq schema (bytes "*")
      then require (str_eq table (bytes "*")) wildcard_schema_table all_schemas
      else if not (str_eq table (bytes "*"))
      then one_table
      else one_schema

  rule_tables : List TableRules → List Str
  rule_tables [] = []
  rule_tables (t ∷ ts) =
      set_insert (quote_qualified_identifier pq_quote t.schema t.table) (rule_tables ts)

  all_in : List Str → List Str → Bool
  all_in set [] = true
  all_in set (x ∷ xs) = contains set x && all_in set xs

  -- validateAllRequiredTables
  unfoldable pub validate_all_required_tables : ℕ → Rules → Result (Unit {0})
  unfolding rule_tables all_in
  validate_all_required_tables fuel rules =
      if not (str_eq rules.validation_mode strict)
      then ok tt
      else (required_loop fuel required_tables [] >>= λ tables.
          require (all_in (rule_tables rules.transformers) tables) required_table_missing (ok tt))

  unfoldable pub parse_and_validate : ℕ → Rules → Result (TransformerMap T)
  parse_and_validate fuel rules = validate_all_required_tables fuel rules >>= λ u.
      validate_tables pq_quote oids src rules.transformers (record { active = []; noop = [] })
