-- ===== src/Transformer.antt =====
-- pkg/wal/processor/transformer: the rules of transformed columns and the transformers that they name. A
-- transformer is a value of an abstract type T, since the libraries behind them are not modelled.
pub mod Map
pub mod Parser
pub mod Columns
pub mod Processor
pub mod Ddl
pub mod Events
mod Tests
use pgstream.Prelude.{
  Option, none, some, List, [], ◌∷◌, Str, bytes, str_eq, is_empty, if◌then◌else◌,
}
use pgstream.Wal.{Value}

-- A rule of a column; `parameters` is `none` for a nil map.
pub record TransformerRules : Type 0 where
  pub name : Str
  pub parameters : Option (List (Str × Value))
  pub dynamic_parameters : List (Str × Value)

pub record TableRules : Type 0 where
  pub schema : Str
  pub table : Str
  pub column_rules : List (Str × TransformerRules)
  pub validation_mode : Str

pub record Rules : Type 0 where
  pub transformers : List TableRules
  pub validation_mode : Str

pub record Config : Type 0 where
  pub transformer_rules : List TableRules
  pub validation_mode : Str

abbrev pub strict : Str
strict = bytes "strict"

abbrev pub relaxed : Str
relaxed = bytes "relaxed"

abbrev pub table_level : Str
table_level = bytes "table_level"

-- (*Config).validationMode
unfoldable pub config_validation_mode : Config → Str
config_validation_mode c = if is_empty c.validation_mode then relaxed else c.validation_mode
