-- ===== src/Transformer/Parser/Supports.antt =====
-- pkg/wal/processor/transformer/wal_postgres_transformer_parser.go: which kinds of value a column's type is for.
use pgstream.Prelude.{
  ℕ, ◌≡◌, refl, ◌⊎◌, inl, inr, Bool, true, false, ◌||◌, some, List, Str, bytes, str_eq, str_eq_iff,
  contains, ◌==◌, ==_iff, Option-cases, if◌then◌else◌,
}
use pgstream.Transformer.Parser.{
  Oids, Source, is_compatible, pg_type_compatible_with_transformer_type,
}

-- A type, by its identifier and its name, is for values of a kind.
pub data Suits (o : Oids) (oid : ℕ) (name : Str) : Str → Type 0 where
  for_text :
      (oid ≡ o.text) ⊎ (oid ≡ o.varchar) ⊎ (oid ≡ o.bpchar) → Suits o oid name (bytes "string")
  for_float4 : oid ≡ o.float4 → Suits o oid name (bytes "float32")
  for_float8 : oid ≡ o.float8 → Suits o oid name (bytes "float64")
  for_int2 : oid ≡ o.int2 → Suits o oid name (bytes "integer16")
  for_int4 : oid ≡ o.int4 → Suits o oid name (bytes "integer32")
  for_int8 : oid ≡ o.int8 → Suits o oid name (bytes "integer64")
  for_bool : oid ≡ o.bool → Suits o oid name (bytes "boolean")
  for_uuid : oid ≡ o.uuid → Suits o oid name (bytes "uint8_array_of_16")
  for_bytea : oid ≡ o.bytea → Suits o oid name (bytes "byte_array")
  for_date : oid ≡ o.date → Suits o oid name (bytes "date")
  for_timestamp : (oid ≡ o.timestamp) ⊎ (oid ≡ o.timestamptz) → Suits o oid name (bytes "datetime")
  for_json : (oid ≡ o.jsonb) ⊎ (oid ≡ o.json) → Suits o oid name (bytes "json")
  for_citext : name ≡ bytes "citext" → Suits o oid name (bytes "citext")
  for_hstore : name ≡ bytes "hstore" → Suits o oid name (bytes "hstore")

-- Among the kinds that a transformer gives is one for the type, or it gives all.
abbrev pub Supports : Oids → List Str → ℕ → Str → Type 0
Supports o kinds oid name =
    (contains kinds (bytes "all") ≡ true)
    ⊎ ((kind : Str) × Suits o oid name kind × (contains kinds kind ≡ true))

branch :
    {P : Type 0} (c t rest : Bool)
    → (c ≡ true → t ≡ true → P)
    → (rest ≡ true → P)
    → (if c then t else rest) ≡ true
    → P
branch true t rest hit miss h = hit refl h
branch false t rest hit miss h = miss h

either : (a b : Bool) → (a || b) ≡ true → (a ≡ true) ⊎ (b ≡ true)
either true b h = inl refl
either false b h = inr h

module _ (o : Oids) (kinds : List Str) (oid : ℕ) (name : Str) where
  one_of : (m n : ℕ) → ((oid == m) || (oid == n)) ≡ true → (oid ≡ m) ⊎ (oid ≡ n)
  one_of m n h = elim (either (oid == m) (oid == n) h) [
    | inl e ↦ inl ((==_iff oid m).0 e)
    | inr e ↦ inr ((==_iff oid n).0 e)
  ]

  one_of_three :
      (l m n : ℕ)
      → ((oid == l) || ((oid == m) || (oid == n))) ≡ true
      → (oid ≡ l) ⊎ (oid ≡ m) ⊎ (oid ≡ n)
  one_of_three l m n h = elim (either (oid == l) ((oid == m) || (oid == n)) h) [
    | inl e ↦ inl ((==_iff oid l).0 e)
    | inr e ↦ inr (one_of m n e)
  ]

  case_of :
      (m : ℕ) (kind : Str) (rest : Bool)
      → (oid ≡ m → Suits o oid name kind)
      → (rest ≡ true → Supports o kinds oid name)
      → (if oid == m then contains kinds kind else rest) ≡ true
      → Supports o kinds oid name
  case_of m kind rest suits miss h =
      branch (oid == m) (contains kinds kind) rest
        (λ c t. inr (kind, suits ((==_iff oid m).0 c), t)) miss h

  named :
      (text kind : Str) (rest : Bool)
      → (name ≡ text → Suits o oid name kind)
      → (rest ≡ true → Supports o kinds oid name)
      → (if str_eq name text then contains kinds kind else rest) ≡ true
      → Supports o kinds oid name
  named text kind rest suits miss h =
      branch (str_eq name text) (contains kinds kind) rest
        (λ c t. inr (kind, suits ((str_eq_iff name text).0 c), t)) miss h

  pg_type_compatible-Supports :
      pg_type_compatible_with_transformer_type o kinds oid name ≡ true → Supports o kinds oid name
  unfolding pg_type_compatible_with_transformer_type
  pg_type_compatible-Supports =
      branch (contains kinds (bytes "all")) true _ (λ c t. inl c)
        (branch _ _ _ (λ c t. inr (_, for_text (one_of_three o.text o.varchar o.bpchar c), t))
          (case_of o.float4 _ _ for_float4 (
            case_of o.float8 _ _ for_float8 (
              case_of o.int2 _ _ for_int2 (
                case_of o.int4 _ _ for_int4 (
                  case_of o.int8 _ _ for_int8 (
                    case_of o.bool _ _ for_bool (
                      case_of o.uuid _ _ for_uuid (
                        case_of o.bytea _ _ for_bytea (
                          case_of o.date _ _ for_date (
                            branch _ _ _
                              (λ c t.
                                inr (_, for_timestamp (one_of o.timestamp o.timestamptz c), t))
                              (branch _ _ _ (λ c t. inr (_, for_json (one_of o.jsonb o.json c), t))
                                (named (bytes "citext") _ _ for_citext (
                                  named (bytes "hstore") _ _ for_hstore
                                    (λ e. absurd (cc))))))))))))))))

-- The column's type is known and the transformer supports it.
pub record SupportsType {T : Type 0} (o : Oids) (src : Source T) (x : T) (oid : ℕ) : Type 0 where
  pub name : Str
  pub known : src.type_for_oid oid ≡ some name
  pub supported : Supports o (src.compatible_types x) oid name

pub is_compatible-SupportsType :
    (pq_quote : Str → Str) {T : Type 0} (o : Oids) (src : Source T) (x : T) (oid : ℕ)
    → is_compatible pq_quote o src x oid ≡ true
    → SupportsType o src x oid
unfolding is_compatible
is_compatible-SupportsType pq_quote o src x oid h = elim (Option-cases (src.type_for_oid oid)) [
  | inl e ↦ let bad : false ≡ true = (rw (e, is_compatible) at h) in absurd (cc)
  | inr (name, e) ↦ record {
    name = name;
    known = e;
    supported =
        pg_type_compatible-Supports o (src.compatible_types x) oid name
          (rw (e, is_compatible) at h);
  }
]
