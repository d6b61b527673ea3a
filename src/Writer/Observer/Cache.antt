-- ===== src/Writer/Observer/Cache.antt =====
-- pkg/wal/processor/postgres/postgres_schema_observer.go: what has been answered once needs no query again.
use pgstream.Prelude.{◌≡◌, refl, ◌∙◌, Option, none, some, List, Str, str_eq_refl}
use pgstream.Prelude.Maps.{lookup, lookup-insert}
use pgstream.Writer.Observer.{get_cached, or_query}

pub get_cached-hit :
    {V : Type 0} (key : Str) (cache : List (Str × V)) (queried : Option V) (v : V)
    → lookup key cache ≡ some v
    → get_cached key cache queried ≡ (cache, some v)
unfolding get_cached or_query
get_cached-hit key cache queried v e = rw (e, or_query) refl

pub get_cached-holds :
    {V : Type 0} (key : Str) (cache : List (Str × V)) (queried : Option V) (v : V)
    → (get_cached key cache queried).1 ≡ some v
    → lookup key (get_cached key cache queried).0 ≡ some v
unfolding get_cached
get_cached-holds key cache queried v e = held (lookup key cache) queried refl e
  where
    held :
        (found queried : Option _)
        → lookup key cache ≡ found
        → (or_query key cache found queried).1 ≡ some v
        → lookup key (or_query key cache found queried).0 ≡ some v
    held (some w) queried f e = unfold or_query in f ∙ e
    held none none f e = absurd (cc)
    held none (some w) f e = lookup-insert key key w cache ∙ rw (str_eq_refl key) e
