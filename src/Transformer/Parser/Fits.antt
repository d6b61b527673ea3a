-- ===== src/Transformer/Parser/Fits.antt =====
-- pkg/wal/processor/transformer/wal_postgres_transformer_parser.go: what an accepted configuration guarantees.
use pgstream.Prelude.{
  ℕ, ◌≡◌, refl, ◌⊎◌, inl, inr, true, false, some, List, [], ◌∷◌, Str, str_eq, str_eq_iff, All, Any,
  Bool-cases, Option-cases, arith,
}
use pgstream.Prelude.Maps.{lookup, insert, lookup-insert}
use pgstream.Transformer.{TransformerRules, TableRules, Rules, strict}
use pgstream.Transformer.Map.{TransformerMap}
use pgstream.Transformer.Map.Laws.{is_some}
use pgstream.Transformer.Parser.{
  ok, or_error, FieldDescription, Source, Oids, is_noop, complete_rules, map_column_types,
  validated_transformer, validate_columns, validated_table, validate_tables,
}
use pgstream.Transformer.Parser.Required.{validate_all_required_tables, parse_and_validate}
use pgstream.Transformer.Parser.Supports.{SupportsType, is_compatible-SupportsType}
use pgstream.Transformer.Parser.Accepted.{>>=-ok, require-ok, or_error-ok, no_transformers}

-- The column is one of the table, with the type.
abbrev pub Described : Str → ℕ → List FieldDescription → Type 0
Described col oid ds = Any (λ d. (d.name ≡ col) × (d.data_type_oid ≡ oid)) ds

map_column_types-strict :
    (t : TableRules) (ds : List FieldDescription) (types types' : List (Str × ℕ))
    → map_column_types t ds types ≡ ok types'
    → str_eq t.validation_mode strict ≡ true
    → All (λ d. is_some (lookup d.name t.column_rules) ≡ true) ds
unfolding map_column_types
map_column_types-strict t [] types types' h s = tt
map_column_types-strict t (d ∷ ds) types types' h s =
    elim (Option-cases (lookup d.name t.column_rules)) [
      | inl n ↦ let bad = (rw (n, s, map_column_types) at h) in cc
      | inr (r, f) ↦ (
        rw f refl,
        map_column_types-strict t ds (insert d.name d.data_type_oid types) types'
            (rw (f, map_column_types) at h) s,
      )
    ]

map_column_types-Described :
    (t : TableRules) (ds : List FieldDescription) (types types' : List (Str × ℕ)) (col : Str)
    (oid : ℕ)
    → map_column_types t ds types ≡ ok types'
    → lookup col types' ≡ some oid
    → (lookup col types ≡ some oid) ⊎ Described col oid ds
unfolding map_column_types
map_column_types-Described t [] types types' col oid h f =
    let same : types ≡ types' = cc in inl (rw same f)
map_column_types-Described t (d ∷ ds) types types' col oid h f =
    let skipped : map_column_types t ds types ≡ ok types'
        → (lookup col types ≡ some oid) ⊎ Described col oid (d ∷ ds) =
      λ g. elim (map_column_types-Described t ds types types' col oid g f) [
        | inl old ↦ inl old
        | inr deep ↦ inr (inr deep)
      ] in
    elim (Option-cases (lookup d.name t.column_rules)) [
      | inl n ↦ skipped (require-ok _ _ _ types' (rw (n, map_column_types) at h)).1
      | inr (r, g) ↦
          elim (map_column_types-Described t ds (insert d.name d.data_type_oid types) types' col oid
            (rw (g, map_column_types) at h) f) [
              | inl old ↦ elim (Bool-cases (str_eq d.name col)) [
                | inl e ↦ inr (
                    inl (
                      (str_eq_iff d.name col).0 e,
                      ground (arith, lookup-insert d.name col d.data_type_oid types),
                    ))
                | inr e ↦ inl (ground (arith, lookup-insert d.name col d.data_type_oid types))
              ]
              | inr deep ↦ inr (inr deep)
            ]
    ]

module _ (pq_quote : Str → Str) {T : Type 0} (oids : Oids) (src : Source T) where
  -- A column that is not a noop: a transformer has been built for it, and the type of the column suits it.
  pub record IsFitted (ds : List FieldDescription) (col : Str) (r : TransformerRules) : Type 0 where
    pub rules : TransformerRules
    pub completed : complete_rules src.conn_url r ≡ ok rules
    pub transformer : T
    pub built : src.builder rules ≡ some transformer
    pub oid : ℕ
    pub described : Described col oid ds
    pub supports : SupportsType oids src transformer oid

  pub record IsValidated (t : TableRules) : Type 0 where
    pub columns : List FieldDescription
    pub queried : src.get_field_descriptions t.schema t.table ≡ some columns
    pub all_ruled :
        str_eq t.validation_mode strict ≡ true
        → All (λ d. is_some (lookup d.name t.column_rules) ≡ true) columns
    pub fitted : All (λ p. is_noop p.1 ≡ false → IsFitted columns p.0 p.1) t.column_rules

  validated_transformer-IsFitted :
      (types : List (Str × ℕ)) (ds : List FieldDescription) (col : Str) (r : TransformerRules)
      (x : T)
      → ((oid : ℕ) → lookup col types ≡ some oid → Described col oid ds)
      → validated_transformer pq_quote oids src types col r ≡ ok x
      → IsFitted ds col r
  unfolding validated_transformer
  validated_transformer-IsFitted types ds col r x known h =
      let (cfg, completed, h1) = >>=-ok (complete_rules src.conn_url r) _ x h in
      let (y, built, h2) = >>=-ok (or_error _ (src.builder cfg)) _ x h1 in
      let (oid, found, h3) = >>=-ok (or_error _ (lookup col types)) _ x h2 in
      record {
        rules = cfg;
        completed = completed;
        transformer = y;
        built = or_error-ok _ (src.builder cfg) y built;
        oid = oid;
        described = known oid (or_error-ok _ (lookup col types) oid found);
        supports = is_compatible-SupportsType pq_quote oids src y oid (require-ok _ _ _ x h3).0;
      }

  validate_columns-IsFitted :
      (t : TableRules) (types : List (Str × ℕ)) (ds : List FieldDescription)
      (rs : List (Str × TransformerRules)) (m m' : TransformerMap T)
      → ((col : Str) (oid : ℕ) → lookup col types ≡ some oid → Described col oid ds)
      → validate_columns pq_quote oids src t types rs m ≡ ok m'
      → All (λ p. is_noop p.1 ≡ false → IsFitted ds p.0 p.1) rs
  unfolding validate_columns
  validate_columns-IsFitted t types ds [] m m' known h = tt
  validate_columns-IsFitted t types ds ((col, r) ∷ rs) m m' known h =
      elim (Bool-cases (is_noop r)) [
        | inl e ↦ (λ n. cc, validate_columns-IsFitted t types ds rs _ m' known (rw e at h))
        | inr e ↦
            let (x, valid, rest) =
              >>=-ok (validated_transformer pq_quote oids src types col r) _ m' (rw e at h) in
            (
              λ n. validated_transformer-IsFitted types ds col r x (known col) valid,
              validate_columns-IsFitted t types ds rs _ m' known rest,
            )
      ]

  validated_table-IsValidated :
      (t : TableRules) (m m' : TransformerMap T)
      → validated_table pq_quote oids src t m ≡ ok m'
      → IsValidated t
  unfolding validated_table lookup
  validated_table-IsValidated t m m' h =
      let (ds, queried, h1) =
        >>=-ok (or_error _ (src.get_field_descriptions t.schema t.table)) _ m' h in
      let (types, mapped, h2) = >>=-ok (map_column_types t ds []) _ m' h1 in
      let known : (col : Str) (oid : ℕ) → lookup col types ≡ some oid → Described col oid ds =
        λ col oid f. elim (map_column_types-Described t ds [] types col oid mapped f) [
          | inl n ↦ cc
          | inr d ↦ d
        ] in
      record {
        columns = ds;
        queried = or_error-ok _ _ ds queried;
        all_ruled = map_column_types-strict t ds [] types mapped;
        fitted = validate_columns-IsFitted t types ds t.column_rules m m' known h2;
      }

  validate_tables-IsValidated :
      (ts : List TableRules) (m m' : TransformerMap T)
      → validate_tables pq_quote oids src ts m ≡ ok m'
      → All IsValidated ts
  unfolding validate_tables
  validate_tables-IsValidated [] m m' h = tt
  validate_tables-IsValidated (t ∷ ts) m m' h =
      let (m1, first, rest) = >>=-ok (validated_table pq_quote oids src t m) _ m' h in
      (validated_table-IsValidated t m m1 first, validate_tables-IsValidated ts m1 m' rest)

  -- If the validating parser accepts the rules, then each table of them has been found; if the table's own mode is
  -- strict, whatever that of the configuration is, each of its columns has a rule; and every rule that is not a noop is
  -- for a column of the table, with a transformer that has been built from it and that gives a kind of value that the
  -- type of the column is for, or all kinds.
  pub parse_and_validate-IsValidated :
      (fuel : ℕ) (rules : Rules) (m : TransformerMap T)
      → parse_and_validate pq_quote oids src fuel rules ≡ ok m
      → All IsValidated rules.transformers
  unfolding parse_and_validate
  parse_and_validate-IsValidated fuel rules m h =
      let (u, required, rest) =
        >>=-ok (validate_all_required_tables pq_quote oids src fuel rules) _ m h in
      validate_tables-IsValidated rules.transformers no_transformers m rest
