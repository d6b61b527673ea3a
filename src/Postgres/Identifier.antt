-- ===== src/Postgres/Identifier.antt =====
-- internal/postgres/pg_utils.go: quoting and unquoting of identifiers. QuoteIdentifier of lib/pq is an
-- argument.
mod Tests
use pgstream.Prelude.{
  ℕ, ◌+◌, ◌-◌, ◌≤◌, ==_iff, ◌≡◌, refl, sym, ap, ◌∙◌, inl, inr, Bool, true, false, ◌&&◌, List, [],
  ◌∷◌, ◌++◌, Str, ◌==◌, ltb, is_empty, length, length-append, take, drop, arith, Bool-cases,
  if◌then◌else◌,
}
use mathlib.Core.List.{reverse-append}
use pgstream.Prelude.Strings.{has_prefix, has_suffix, Without}

-- IsQuotedIdentifier
unfoldable pub is_quoted_identifier : Str → Bool
is_quoted_identifier s = ltb 2 (length s) && (has_prefix s (b'"' ∷ []) && has_suffix s (b'"' ∷ []))

-- strings.ReplaceAll(inner, `""`, `"`)
unfoldable pub collapse_quotes : Str → Str
collapse_quotes [] = []
collapse_quotes (c ∷ []) = c ∷ []
collapse_quotes (c ∷ d ∷ s) =
    let rest = collapse_quotes (d ∷ s) in
    let skipped = collapse_quotes s in if c == b'"' && d == b'"' then b'"' ∷ skipped else c ∷ rest

-- UnquoteIdentifier
unfoldable pub unquote_identifier : Str → Str
unquote_identifier s =
    if is_quoted_identifier s then collapse_quotes (take (length s - 2) (drop 1 s)) else s

-- A name with its quotes doubled.
unfoldable pub double_quotes : Str → Str
double_quotes [] = []
double_quotes (c ∷ s) =
    let rest = double_quotes s in if c == b'"' then b'"' ∷ b'"' ∷ rest else c ∷ rest

module _ (pq_quote : Str → Str) where
  -- QuoteIdentifier
  unfoldable pub quote_identifier : Str → Str
  quote_identifier s = if is_quoted_identifier s then s else pq_quote s

  -- QuoteQualifiedIdentifier
  unfoldable pub quote_qualified_identifier : Str → Str → Str
  quote_qualified_identifier schema table = quote_identifier schema ++ b'.' ∷ quote_identifier table

collapse-other :
    (c : ℕ) (s : Str) → (c == b'"') ≡ false → collapse_quotes (c ∷ s) ≡ c ∷ collapse_quotes s
unfolding collapse_quotes
collapse-other c [] e = refl
collapse-other c (d ∷ s) e = rw e

collapse-double : (s : Str) → collapse_quotes (double_quotes s) ≡ s
unfolding double_quotes collapse_quotes
collapse-double [] = refl
collapse-double (c ∷ s) = elim (Bool-cases (c == b'"')) [
  | inl e ↦
      let same : c ≡ b'"' = (==_iff c b'"').0 e in
      rw (e, collapse_quotes, same) (ap (λ t. b'"' ∷ t) (collapse-double s))
  | inr e ↦ rw e (collapse-other c (double_quotes s) e ∙ ap (λ t. c ∷ t) (collapse-double s))
]

take-append : (xs ys : Str) → take (length xs) (xs ++ ys) ≡ xs
take-append [] ys = refl
take-append (x ∷ xs) ys = ap (λ zs. x ∷ zs) (take-append xs ys)

has_suffix-append : (xs : Str) (c : ℕ) → has_suffix (xs ++ c ∷ []) (c ∷ []) ≡ true
unfolding has_suffix has_prefix
has_suffix-append xs c = rw (reverse-append xs (c ∷ [])) (ground arith)

abbrev quoted : Str → Str
quoted s = b'"' ∷ (double_quotes s ++ b'"' ∷ [])

length-quoted : (s : Str) → length (quoted s) ≡ length (double_quotes s) + 2
length-quoted s = let l = length-append (double_quotes s) (b'"' ∷ []) in omega arith

unquote_quoted :
    (s : Str) → is_quoted_identifier (quoted s) ≡ true → unquote_identifier (quoted s) ≡ s
unfolding unquote_identifier
unquote_quoted s e =
    let cut : length (quoted s) - 2 ≡ length (double_quotes s) = omega (arith, length-quoted s) in
    rw e (
      ap (λ n. collapse_quotes (take n (double_quotes s ++ b'"' ∷ []))) cut
      ∙ ap collapse_quotes (take-append (double_quotes s) (b'"' ∷ []))
      ∙ collapse-double s)

is_quoted-quoted : (s : Str) → 1 ≤ length (double_quotes s) → is_quoted_identifier (quoted s) ≡ true
unfolding is_quoted_identifier has_prefix
is_quoted-quoted s h =
    let n = length-quoted s in
    let suffix : has_suffix (quoted s) (b'"' ∷ []) ≡ true =
      has_suffix-append (b'"' ∷ double_quotes s) b'"' in
    ground (arith, suffix)

not_empty-double : (s : Str) → is_empty s ≡ false → 1 ≤ length (double_quotes s)
unfolding double_quotes
not_empty-double [] e = absurd (cc)
not_empty-double (c ∷ s) e = ground arith

-- With a quote_identifier of lib/pq that doubles the quotes of a name without a zero byte and puts it between
-- quotes: a name that is not empty and does not look quoted is quoted, unquoting gives it back, and
-- quoting it again changes nothing.
pub unquote-quote :
    (pq_quote : Str → Str)
    → ((s : Str) → Without 0 s → pq_quote s ≡ b'"' ∷ (double_quotes s ++ b'"' ∷ []))
    → (s : Str) → Without 0 s
    → is_empty s ≡ false
    → is_quoted_identifier s ≡ false
    → let q = quote_identifier pq_quote s in
      (is_quoted_identifier q ≡ true)
      × (unquote_identifier q ≡ s)
      × (quote_identifier pq_quote q ≡ q)
unfolding quote_identifier
unquote-quote pq_quote doubles s h e n =
    let is = doubles s h in
    let done = is_quoted-quoted s (not_empty-double s e) in
    rw (n, is, done) (refl, unquote_quoted s done, refl)
