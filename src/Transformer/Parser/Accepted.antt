-- ===== src/Transformer/Parser/Accepted.antt =====
-- pkg/wal/processor/transformer: the columns of the map that either parser makes are those that the rules name.
use pgstream.Prelude.{
  ℕ, ◌≡◌, refl, inl, inr, Bool, true, false, not, ◌&&◌, ◌||◌, Option, none, some, List, [], ◌∷◌,
  Str, str_eq, is_empty, Bool-cases, arith,
}
use pgstream.Prelude.Maps.{lookup}
use pgstream.Transformer.{TransformerRules, TableRules, Rules}
use pgstream.Transformer.Map.{
  TransformerMap, schema_table_key, add_active_transformer, add_noop_transformer,
}
use pgstream.Transformer.Map.Laws.{
  is_some, has_table, has_column, has_column-add_active, has_column-add_noop, has_table-add_active,
  has_table-add_noop,
}
use pgstream.Transformer.Parser.{
  ParseError, Result, ok, err, ◌>>=◌, or_error, require, Source, Oids, is_noop, parse_columns,
  parse_tables, parse, validated_transformer, map_column_types, validate_columns, validated_table,
  validate_tables,
}
use pgstream.Transformer.Parser.Required.{validate_all_required_tables, parse_and_validate}

pub >>=-ok :
    {A B : Type 0} (r : Result A) (f : A → Result B) (b : B)
    → (r >>= f) ≡ ok b
    → (a : A) × (r ≡ ok a) × (f a ≡ ok b)
>>=-ok (ok a) f b h = (a, refl, h)
>>=-ok (err e) f b h = cc

pub require-ok :
    {A : Type 0} (c : Bool) (e : ParseError) (r : Result A) (a : A)
    → require c e r ≡ ok a
    → (c ≡ true) × (r ≡ ok a)
require-ok true e r a h = (refl, h)
require-ok false e r a h = cc

pub or_error-ok :
    {A : Type 0} (e : ParseError) (o : Option A) (a : A) → or_error e o ≡ ok a → o ≡ some a
or_error-ok e none a h = cc
or_error-ok e (some b) a h = cc

abbrev pub no_transformers : {T : Type 0} → TransformerMap T
no_transformers = record { active = []; noop = [] }

module _ (pq_quote : Str → Str) where
  abbrev is_for : TableRules → Str → Str → Bool
  is_for t schema table =
      str_eq (schema_table_key pq_quote t.schema t.table) (schema_table_key pq_quote schema table)

  -- Whether some rules are for a table and have a rule for some column; a table entry without column rules does not
  -- count.
  unfoldable pub rules_table : List TableRules → Str → Str → Bool
  rules_table [] schema table = false
  rules_table (t ∷ ts) schema table =
      is_for t schema table && not (is_empty t.column_rules) || rules_table ts schema table

  -- Whether some rules are for a table and have a rule for this column.
  unfoldable pub rules_column : List TableRules → Str → Str → Str → Bool
  rules_column [] schema table c = false
  rules_column (t ∷ ts) schema table c =
      is_for t schema table && is_some (lookup c t.column_rules) || rules_column ts schema table c

  module _ {T : Type 0} where
    -- A map before and after the columns of a table, or the tables of the rules.
    pub data Adds (t : TableRules)
        : List (Str × TransformerRules) → TransformerMap T → TransformerMap T → Type 0 where
      added_none : {m m' : TransformerMap T} → m ≡ m' → Adds t [] m m'
      added_noop :
          {col : Str} {r : TransformerRules} {rs : List (Str × TransformerRules)}
          {m m' : TransformerMap T}
          → Adds t rs (add_noop_transformer pq_quote t.schema t.table col m) m'
          → Adds t ((col, r) ∷ rs) m m'
      added_active :
          {col : Str} {r : TransformerRules} {rs : List (Str × TransformerRules)}
          {m m' : TransformerMap T} (x : T)
          → Adds t rs (add_active_transformer pq_quote t.schema t.table col x m) m'
          → Adds t ((col, r) ∷ rs) m m'

    pub data AddsAll : List TableRules → TransformerMap T → TransformerMap T → Type 0 where
      all_added : {m m' : TransformerMap T} → m ≡ m' → AddsAll [] m m'
      then_adds :
          {t : TableRules} {ts : List TableRules} {m m1 m' : TransformerMap T}
          → Adds t t.column_rules m m1
          → AddsAll ts m1 m'
          → AddsAll (t ∷ ts) m m'

    has_column-Adds :
        (t : TableRules) {rs : List (Str × TransformerRules)} {m m' : TransformerMap T}
        (s tb c : Str)
        → Adds t rs m m'
        → has_column pq_quote m' s tb c
          ≡ (is_for t s tb && is_some (lookup c rs) || has_column pq_quote m s tb c)
    unfolding lookup
    has_column-Adds t s tb c (added_none e) = rw e (ground arith)
    has_column-Adds t {m = m} s tb c (added_noop {col = col} h) = ground (
      arith,
      has_column-Adds t s tb c h,
      has_column-add_noop pq_quote t.schema t.table col m s tb c,
    )
    has_column-Adds t {m = m} s tb c (added_active {col = col} x h) = ground (
      arith,
      has_column-Adds t s tb c h,
      has_column-add_active pq_quote t.schema t.table col x m s tb c,
    )

    has_table-Adds :
        (t : TableRules) {rs : List (Str × TransformerRules)} {m m' : TransformerMap T} (s tb : Str)
        → Adds t rs m m'
        → has_table pq_quote m' s tb
          ≡ (is_for t s tb && not (is_empty rs) || has_table pq_quote m s tb)
    has_table-Adds t s tb (added_none e) = rw e (ground arith)
    has_table-Adds t {m = m} s tb (added_noop {col = col} h) =
        ground
          (arith, has_table-Adds t s tb h, has_table-add_noop pq_quote t.schema t.table col m s tb)
    has_table-Adds t {m = m} s tb (added_active {col = col} x h) = ground (
      arith,
      has_table-Adds t s tb h,
      has_table-add_active pq_quote t.schema t.table col x m s tb,
    )

    pub has_column-AddsAll :
        {ts : List TableRules} {m m' : TransformerMap T} (s tb c : Str)
        → AddsAll ts m m'
        → has_column pq_quote m' s tb c ≡ (rules_column ts s tb c || has_column pq_quote m s tb c)
    unfolding rules_column
    has_column-AddsAll s tb c (all_added e) = rw e refl
    has_column-AddsAll s tb c (then_adds {t = t} a h) =
        ground (arith, has_column-AddsAll s tb c h, has_column-Adds t s tb c a)

    pub has_table-AddsAll :
        {ts : List TableRules} {m m' : TransformerMap T} (s tb : Str)
        → AddsAll ts m m'
        → has_table pq_quote m' s tb ≡ (rules_table ts s tb || has_table pq_quote m s tb)
    unfolding rules_table
    has_table-AddsAll s tb (all_added e) = rw e refl
    has_table-AddsAll s tb (then_adds {t = t} a h) =
        ground (arith, has_table-AddsAll s tb h, has_table-Adds t s tb a)

  module _ {T : Type 0} (oids : Oids) (src : Source T) where
    parse_columns-Adds :
        (t : TableRules) (rs : List (Str × TransformerRules)) (m m' : TransformerMap T)
        → parse_columns pq_quote oids src t rs m ≡ ok m'
        → Adds t rs m m'
    unfolding parse_columns
    parse_columns-Adds t [] m m' h = added_none (cc)
    parse_columns-Adds t ((col, r) ∷ rs) m m' h = elim (Bool-cases (is_noop r)) [
      | inl e ↦ added_noop (parse_columns-Adds t rs _ m' (rw e at h))
      | inr e ↦
          let (x, built, rest) = >>=-ok (or_error _ (src.builder r)) _ m' (rw e at h) in
          added_active x (parse_columns-Adds t rs _ m' rest)
    ]

    validate_columns-Adds :
        (t : TableRules) (types : List (Str × ℕ)) (rs : List (Str × TransformerRules))
        (m m' : TransformerMap T)
        → validate_columns pq_quote oids src t types rs m ≡ ok m'
        → Adds t rs m m'
    unfolding validate_columns
    validate_columns-Adds t types [] m m' h = added_none (cc)
    validate_columns-Adds t types ((col, r) ∷ rs) m m' h = elim (Bool-cases (is_noop r)) [
      | inl e ↦ added_noop (validate_columns-Adds t types rs _ m' (rw e at h))
      | inr e ↦
          let (x, built, rest) =
            >>=-ok (validated_transformer pq_quote oids src types col r) _ m' (rw e at h) in
          added_active x (validate_columns-Adds t types rs _ m' rest)
    ]

    parse_tables-AddsAll :
        (ts : List TableRules) (m m' : TransformerMap T)
        → parse_tables pq_quote oids src ts m ≡ ok m'
        → AddsAll ts m m'
    unfolding parse_tables
    parse_tables-AddsAll [] m m' h = all_added (cc)
    parse_tables-AddsAll (t ∷ ts) m m' h =
        let (lenient, rest) = require-ok _ _ _ m' h in
        let (m1, first, after) =
          >>=-ok (parse_columns pq_quote oids src t t.column_rules m) _ m' rest in
        then_adds (parse_columns-Adds t t.column_rules m m1 first)
          (parse_tables-AddsAll ts m1 m' after)

    validate_tables-AddsAll :
        (ts : List TableRules) (m m' : TransformerMap T)
        → validate_tables pq_quote oids src ts m ≡ ok m'
        → AddsAll ts m m'
    unfolding validate_tables validated_table
    validate_tables-AddsAll [] m m' h = all_added (cc)
    validate_tables-AddsAll (t ∷ ts) m m' h =
        let (m1, first, after) = >>=-ok (validated_table pq_quote oids src t m) _ m' h in
        let (ds, described, typed) =
          >>=-ok (or_error _ (src.get_field_descriptions t.schema t.table)) _ m1 first in
        let (types, mapped, done) = >>=-ok (map_column_types t ds []) _ m1 typed in
        then_adds (validate_columns-Adds t types t.column_rules m m1 done)
          (validate_tables-AddsAll ts m1 m' after)

    -- What either parser makes of a configuration: the rules' tables and columns are added to the empty map.
    pub parse-AddsAll :
        (rules : Rules) (m : TransformerMap T)
        → parse pq_quote oids src rules ≡ ok m
        → AddsAll rules.transformers no_transformers m
    unfolding parse
    parse-AddsAll rules m h = parse_tables-AddsAll rules.transformers no_transformers m h

    pub parse_and_validate-AddsAll :
        (fuel : ℕ) (rules : Rules) (m : TransformerMap T)
        → parse_and_validate pq_quote oids src fuel rules ≡ ok m
        → AddsAll rules.transformers no_transformers m
    unfolding parse_and_validate
    parse_and_validate-AddsAll fuel rules m h =
        let (u, required, rest) =
          >>=-ok (validate_all_required_tables pq_quote oids src fuel rules) _ m h in
        validate_tables-AddsAll rules.transformers no_transformers m rest
