-- ===== src/Transformer/Ddl/Strict.antt =====
-- pkg/wal/processor/transformer: in strict mode, from the configuration to the DDL events that pass.
use pgstream.Prelude.{
  ℕ, ◌≡◌, refl, sym, ap, ◌∙◌, ◌↔◌, inl, inr, true, false, none, List, Str, str_eq, All, All-map,
  arith,
}
use pgstream.Wal.{Data}
use pgstream.Wal.Ddl.{DdlEvent, DdlResult, ok, is_ddl_event}
use pgstream.Wal.Diff.{SchemaDiff}
use pgstream.Transformer.{TableRules, Rules, Config, strict, relaxed, config_validation_mode}
use pgstream.Prelude.Maps.{lookup}
use pgstream.Transformer.Map.{TransformerMap, get_all_column_transformers}
use pgstream.Transformer.Map.Laws.{has_table, has_column}
use pgstream.Transformer.Parser.{Result, Source, Oids}
use pgstream.Transformer.Parser.Required.{parse_and_validate}
use pgstream.Transformer.Parser.Accepted.{
  >>=-ok, rules_table, rules_column, AddsAll, no_transformers, has_table-AddsAll,
  has_column-AddsAll, parse_and_validate-AddsAll,
}
use pgstream.Transformer.Processor.{Transformer, new_transformer, get_table_validation_mode}
use pgstream.Transformer.Ddl.{process_ddl_event}
use pgstream.Transformer.Ddl.Demands.{Demand, demands}
use pgstream.Transformer.Ddl.Covered.{IsCovered, process_ddl_event_iff}

module _ (pq_quote : Str → Str) where
  -- The rules name a table, and each of its columns that a change touches.
  abbrev pub IsRuled : List TableRules → Str → Demand → Type 0
  IsRuled rules schema d =
      (rules_table pq_quote rules schema d.table ≡ true)
      × All (λ c. rules_column pq_quote rules schema d.table c ≡ true) d.columns

  module _ {T : Type 0} where
    Made : (Rules → Result (TransformerMap T)) → Config → Transformer T → Type 0
    Made parser cfg t =
        (t.validation_mode ≡ strict)
        × (parser (record { transformers = cfg.transformer_rules; validation_mode = strict })
            ≡ Result.ok t.transformer_map)

    new_transformer-strict :
        (parser : Rules → Result (TransformerMap T)) (cfg : Config) (t : Transformer T)
        → cfg.validation_mode ≡ strict
        → new_transformer pq_quote parser cfg ≡ Result.ok t
        → Made parser cfg t
    unfolding new_transformer config_validation_mode Made
    new_transformer-strict parser cfg t mode h =
        let mode' : config_validation_mode cfg ≡ strict = rw mode refl in
        let (m, parsed, made) =
          >>=-ok
            (parser (record {
              transformers = cfg.transformer_rules;
              validation_mode = config_validation_mode cfg;
            }))
            _ t h in
        let same : t ≡ record {
          transformer_map = m;
          validation_mode = config_validation_mode cfg;
          table_validation_modes = t.table_validation_modes;
        } =
          ground arith in
        (
          ap (λ (u : Transformer T). u.validation_mode) same ∙ mode',
          rw (← mode')
              (parsed ∙ ap Result.ok (sym (ap (λ (u : Transformer T). u.transformer_map) same))),
        )

    has_table-rules :
        (m : TransformerMap T) (rules : List TableRules) (schema table : Str)
        → AddsAll pq_quote rules no_transformers m
        → has_table pq_quote m schema table ≡ rules_table pq_quote rules schema table
    unfolding has_table get_all_column_transformers lookup
    has_table-rules m rules schema table adds =
        ground (arith, has_table-AddsAll pq_quote schema table adds)

    has_column-rules :
        (m : TransformerMap T) (rules : List TableRules) (schema table c : Str)
        → AddsAll pq_quote rules no_transformers m
        → has_column pq_quote m schema table c ≡ rules_column pq_quote rules schema table c
    unfolding has_column get_all_column_transformers lookup
    has_column-rules m rules schema table c adds =
        ground (arith, has_column-AddsAll pq_quote schema table c adds)

    strict-not_relaxed :
        (t : Transformer T) (schema table : Str)
        → t.validation_mode ≡ strict
        → str_eq (get_table_validation_mode pq_quote t schema table) relaxed ≡ false
    unfolding get_table_validation_mode str_eq
    strict-not_relaxed t schema table mode = rw mode refl

    IsCovered-strict :
        (t : Transformer T) (rules : List TableRules) (schema : Str) (d : Demand)
        → t.validation_mode ≡ strict
        → AddsAll pq_quote rules no_transformers t.transformer_map
        → IsCovered pq_quote t schema d ↔ IsRuled rules schema d
    IsCovered-strict t rules schema d mode adds =
        let table = has_table-rules t.transformer_map rules schema d.table adds in
        let column = λ (c : Str). has_column-rules t.transformer_map rules schema d.table c adds in
        (
          λ h. elim h [
            | inl a ↦ let no = strict-not_relaxed t schema d.table mode in cc
            | inr b ↦ (sym table ∙ b.0, All-map d.columns (λ c e. sym (column c) ∙ e) b.1)
          ],
          λ h. inr (table ∙ h.0, All-map d.columns (λ c e. column c ∙ e) h.1),
        )

  -- In strict mode, with the rules that the validating parser has accepted, a decoded DDL event passes exactly if
  -- they have at least one column rule for every table that it adds or renames, and a rule for every column that it
  -- adds or renames. The columns of a table that is added count, and those of a renamed table that is among the
  -- objects of the event. A table that the rules list without any column rule blocks the event.
  pub strict_ddl-IsRuled :
      {T : Type 0} (oids : Oids) (src : Source T) (fuel : ℕ) (cfg : Config) (t : Transformer T)
      (to_ddl : Data → DdlResult) (to_diff : DdlEvent → SchemaDiff) (d : Data) (e : DdlEvent)
      → cfg.validation_mode ≡ strict
      → new_transformer pq_quote (parse_and_validate pq_quote oids src fuel) cfg ≡ Result.ok t
      → is_ddl_event d ≡ true
      → to_ddl d ≡ ok e
      → (process_ddl_event pq_quote t to_ddl to_diff d ≡ none)
        ↔ All (IsRuled cfg.transformer_rules (to_diff e).schema_name) (demands e (to_diff e))
  unfolding Made str_eq
  strict_ddl-IsRuled oids src fuel cfg t to_ddl to_diff d e mode made is decoded =
      let (strict_mode, parsed) =
        new_transformer-strict (parse_and_validate pq_quote oids src fuel) cfg t mode made in
      let adds = parse_and_validate-AddsAll pq_quote oids src fuel _ t.transformer_map parsed in
      let passes =
        process_ddl_event_iff pq_quote t to_ddl to_diff d e is (rw strict_mode refl) decoded in
      let same = λ (x : Demand).
        IsCovered-strict t cfg.transformer_rules (to_diff e).schema_name x strict_mode adds in
      (
        λ h. All-map (demands e (to_diff e)) (λ x c. (same x).0 c) (passes.0 h),
        λ h. passes.1 (All-map (demands e (to_diff e)) (λ x c. (same x).1 c) h),
      )
