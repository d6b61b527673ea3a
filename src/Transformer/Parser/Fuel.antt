-- ===== src/Transformer/Parser/Fuel.antt =====
-- pkg/wal/processor/transformer/wal_postgres_transformer_parser.go: the loop over the required tables ends.
use pgstream.Prelude.{
  ℕ, zero, suc, ◌+◌, ◌<◌, ◌≡◌, ◌≢◌, ◌⊎◌, refl, sym, ap, ◌∙◌, inl, inr, true, false, Option, none,
  some, List, [], ◌∷◌, ◌++◌, Str, bytes, str_eq, str_eq_iff, All, map, length, Bool-cases, arith,
  if◌then◌else◌,
}
use pgstream.Prelude.Strings.{split, join, join-split}
use pgstream.Transformer.Parser.{
  Result, ok, err, ◌>>=◌, or_error, out_of_fuel, ParseError, named_table, parse_table_name,
  invalid_table_name, query_failed, Source, Oids,
}
use pgstream.Transformer.Parser.Accepted.{or_error-ok}
use pgstream.Transformer.Parser.Required.{pattern_of, get_all_schema_tables, required_loop}

abbrev everything : Str
everything = bytes "*.*"

-- The rounds that the names take, where a pattern of all schemas brings one name for each.
unfoldable pub rounds : ℕ → List Str → ℕ
rounds schemas [] = 0
rounds schemas (name ∷ todo) =
    suc ((if str_eq name everything then schemas else 0) + rounds schemas todo)

named-everything :
    (ps : List Str) (schema table : Str)
    → named_table ps ≡ some (schema, table)
    → str_eq schema (bytes "*") ≡ true
    → str_eq table (bytes "*") ≡ true
    → ps ≡ bytes "*" ∷ bytes "*" ∷ []
unfolding named_table str_eq
named-everything [] schema table h s t = cc
named-everything (a ∷ []) schema table h s t = ground (arith, str_eq_iff schema (bytes "*"))
named-everything (a ∷ b ∷ []) schema table h s t =
    ground (arith, str_eq_iff schema (bytes "*"), str_eq_iff table (bytes "*"))
named-everything (a ∷ b ∷ c ∷ ps) schema table h s t = cc

parse-everything :
    (name schema table : Str)
    → parse_table_name name ≡ some (schema, table)
    → str_eq schema (bytes "*") ≡ true
    → str_eq table (bytes "*") ≡ true
    → str_eq name everything ≡ true
unfolding parse_table_name join
parse-everything name schema table h s t =
    let parts = named-everything (split b'.' name) schema table h s t in
    let whole : name ≡ everything = sym (join-split b'.' name) ∙ ap (join b'.') parts in
    (str_eq_iff name everything).1 whole

pattern-everything :
    (s : Str) → str_eq s (bytes "*") ≡ false → str_eq (pattern_of s) everything ≡ false
unfolding pattern_of str_eq
pattern-everything [] h = refl
pattern-everything (c ∷ []) h = ground arith
pattern-everything (c ∷ d ∷ []) h = ground arith
pattern-everything (c ∷ d ∷ e ∷ []) h = ground arith
pattern-everything (c ∷ d ∷ e ∷ f ∷ s) h = ground arith

rounds-patterns :
    (n : ℕ) (todo names : List Str)
    → All (λ s. str_eq s (bytes "*") ≡ false) names
    → rounds n (todo ++ map pattern_of names) ≡ rounds n todo + length names
unfolding rounds
rounds-patterns n [] [] h = omega arith
rounds-patterns n [] (s ∷ names) h =
    rw (pattern-everything s h.0) (omega (arith, rounds-patterns n [] names h.1))
rounds-patterns n (name ∷ todo) names h = omega (arith, rounds-patterns n todo names h)

bind-ends :
    {A B : Type 0} (r : Result A) (f : A → Result B)
    → r ≢ err out_of_fuel
    → ((a : A) → r ≡ ok a → f a ≢ err out_of_fuel)
    → (r >>= f) ≢ err out_of_fuel
bind-ends (ok a) f h g = g a refl
bind-ends (err e) f h g = λ bad. h (cc)

or_error-ends :
    {A : Type 0} (e : ParseError) (o : Option A) → e ≢ out_of_fuel → or_error e o ≢ err out_of_fuel
or_error-ends e none h = λ bad. h (cc)
or_error-ends e (some a) h = λ bad. cc

module _ (pq_quote : Str → Str) {T : Type 0} (oids : Oids) (src : Source T) where
  get_all_schema_tables-ends :
      (schema : Str) → get_all_schema_tables pq_quote oids src schema ≢ err out_of_fuel
  unfolding get_all_schema_tables
  get_all_schema_tables-ends schema =
      bind-ends (or_error query_failed (src.schema_tables schema)) _
        (or_error-ends _ (src.schema_tables schema) (λ e. cc)) λ names given e. cc

  -- The loop over the required tables ends within the rounds that their names take, unless the database has a
  -- schema that is named by the wildcard, whose pattern is again that of all schemas.
  pub required_loop-ends :
      (fuel : ℕ) (todo found names : List Str)
      → (src.schema_names ≡ none) ⊎ (src.schema_names ≡ some names)
      → All (λ s. str_eq s (bytes "*") ≡ false) names
      → rounds (length names) todo < fuel
      → required_loop pq_quote oids src fuel todo found ≢ err out_of_fuel
  unfolding required_loop rounds
  required_loop-ends zero todo found names q h f = absurd (omega arith)
  required_loop-ends (suc fuel) [] found names q h f = λ e. cc
  required_loop-ends (suc fuel) (name ∷ todo) found names q h f =
      bind-ends (or_error invalid_table_name (parse_table_name name)) _
        (or_error-ends _ (parse_table_name name) (λ e. cc))
        λ p named. elim (Bool-cases (str_eq p.0 (bytes "*"))) [
          | inl s ↦ elim (Bool-cases (str_eq p.1 (bytes "*"))) [
            | inl t ↦
                let all = parse-everything name p.0 p.1 (or_error-ok _ _ p named) s t in
                rw (s, t)
                  (bind-ends (or_error query_failed src.schema_names) _
                    (or_error-ends _ src.schema_names (λ e. cc))
                    λ names' known.
                      let same : names' ≡ names = elim q [
                        | inl n ↦ let some_names = or_error-ok _ _ names' known in cc
                        | inr n ↦ let some_names = or_error-ok _ _ names' known in cc
                      ] in
                      rw same (
                        required_loop-ends fuel (todo ++ map pattern_of names) found names q h (
                          omega
                            (arith, rounds-patterns (length names) todo names h, (rw all at f)))))
            | inr t ↦ rw (s, t) (λ e. cc)
          ]
          | inr s ↦
              let shorter : rounds (length names) todo < fuel = omega arith in
              elim (Bool-cases (str_eq p.1 (bytes "*"))) [
                | inl t ↦
                    rw (s, t)
                      (bind-ends (get_all_schema_tables pq_quote oids src p.0) _
                        (get_all_schema_tables-ends p.0)
                        λ tables given.
                          required_loop-ends fuel todo (found ++ tables) names q h shorter)
                | inr t ↦
                    rw (s, t) (required_loop-ends fuel todo (found ++ _ ∷ []) names q h shorter)
              ]
        ]
