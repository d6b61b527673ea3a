-- ===== src/Transformer/Processor.antt =====
-- pkg/wal/processor/transformer/wal_transformer.go: the transformer, its validation modes and its events. The inner
-- processor and the decoding of DDL events are arguments.
use pgstream.Prelude.{not, Option, none, some, List, [], ◌∷◌, Str, str_eq, is_empty, if◌then◌else◌}
use pgstream.Prelude.Maps.{lookup, insert}
use pgstream.Transformer.{TableRules, Rules, Config, strict, table_level, config_validation_mode}
use pgstream.Transformer.Map.{TransformerMap, schema_table_key}
use pgstream.Transformer.Parser.{Result, ok, ◌>>=◌}

pub record Transformer (T : Type 0) : Type 0 where
  pub transformer_map : TransformerMap T
  pub validation_mode : Str
  pub table_validation_modes : List (Str × Str)

mode_or_strict : Option Str → Str
mode_or_strict none = strict
mode_or_strict (some mode) = if is_empty mode then strict else mode

module _ (pq_quote : Str → Str) where
  unfoldable pub modes_of : List TableRules → List (Str × Str) → List (Str × Str)
  modes_of [] modes = modes
  modes_of (t ∷ ts) modes =
      modes_of ts (insert (schema_table_key pq_quote t.schema t.table) t.validation_mode modes)

module _ (pq_quote : Str → Str) {T : Type 0} where
  -- New, with the parser.
  unfoldable pub new_transformer :
      (Rules → Result (TransformerMap T)) → Config → Result (Transformer T)
  new_transformer parser cfg =
      let mode = config_validation_mode cfg in
      parser (record { transformers = cfg.transformer_rules; validation_mode = mode }) >>= λ m.
      ok (record {
        transformer_map = m;
        validation_mode = mode;
        table_validation_modes =
            if str_eq mode table_level then modes_of pq_quote cfg.transformer_rules [] else [];
      })

  unfoldable pub get_table_validation_mode : Transformer T → Str → Str → Str
  unfolding mode_or_strict
  get_table_validation_mode t schema table =
      if not (str_eq t.validation_mode table_level)
      then t.validation_mode
      else mode_or_strict (lookup (schema_table_key pq_quote schema table) t.table_validation_modes)
