-- ===== src/Postgres/Identifier/Tests.antt =====
-- Quoting the name a"b.
use pgstream.Prelude.{◌≡◌, refl, true, false, [], ◌∷◌, ◌++◌, Str, is_empty, arith}
use pgstream.Prelude.Strings.{Without}
use pgstream.Postgres.Identifier.{
  is_quoted_identifier, unquote_identifier, double_quotes, quote_identifier, unquote-quote,
}

abbrev pq_quoting : Str → Str
pq_quoting s = b'"' ∷ (double_quotes s ++ b'"' ∷ [])

abbrev odd_name : Str
odd_name = 97 ∷ b'"' ∷ 98 ∷ []

not_quoted : is_quoted_identifier odd_name ≡ false
unfolding is_quoted_identifier pgstream.Prelude.Strings.has_prefix
not_quoted = refl

Without-odd_name : Without 0 odd_name
Without-odd_name = ground arith

unquote-quote_example :
    (is_quoted_identifier (quote_identifier pq_quoting odd_name) ≡ true)
    × (unquote_identifier (quote_identifier pq_quoting odd_name) ≡ odd_name)
    × (quote_identifier pq_quoting (quote_identifier pq_quoting odd_name)
        ≡ quote_identifier pq_quoting odd_name)
unquote-quote_example =
    unquote-quote pq_quoting (λ s h. refl) odd_name Without-odd_name refl not_quoted
