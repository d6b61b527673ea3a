-- ===== src/Prelude/Strings.antt =====
-- The functions of Go's strings package that the source calls, with a separator of one byte.
use Prim.Native.Nat.{ℕ}
use mathlib.Core.Path.{◌≡◌, refl, ◌∙◌}
use mathlib.Core.Logic.{◌≢◌, inl, inr}
use mathlib.Core.Bool.{Bool, true, false, ◌&&◌}
use mathlib.Core.List.{List, [], ◌∷◌, ◌++◌, reverse}
use native.Mathlib.Omega.{arith}
use pgstream.Prelude.Tests.{◌==◌, ==_iff, Bool-cases, if◌then◌else◌}
use pgstream.Prelude.Text.{Str}
use pgstream.Prelude.Lists.{length}

-- A byte goes to the front of the first part.
abbrev onto : ℕ → List Str → List Str
onto c [] = (c ∷ []) ∷ []
onto c (p ∷ ps) = (c ∷ p) ∷ ps

-- strings.Split: at least one part.
unfoldable pub split : ℕ → Str → List Str
split sep [] = [] ∷ []
split sep (c ∷ s) = let rest = split sep s in if c == sep then [] ∷ rest else onto c rest

-- strings.HasPrefix
unfoldable pub has_prefix : Str → Str → Bool
has_prefix s [] = true
has_prefix [] (c ∷ p) = false
has_prefix (d ∷ s) (c ∷ p) = d == c && has_prefix s p

-- strings.HasSuffix
unfoldable pub has_suffix : Str → Str → Bool
unfolding has_prefix
has_suffix s p = has_prefix (reverse s) (reverse p)

-- What follows the last separator, or the whole text.
unfoldable pub after_last : ℕ → Str → Str → Str
after_last sep whole [] = whole
after_last sep whole (c ∷ s) = if c == sep then after_last sep s s else after_last sep whole s

-- No byte of the text is the separator.
abbrev pub Without : ℕ → Str → Type 0
Without sep [] = Unit
Without sep (c ∷ s) = (c ≢ sep) × Without sep s

pub split_whole : (sep : ℕ) (s : Str) → Without sep s → split sep s ≡ s ∷ []
unfolding split
split_whole sep [] h = refl
split_whole sep (c ∷ s) h = ground (arith, split_whole sep s h.1)

pub split_first : (sep : ℕ) (s t : Str) → Without sep s → split sep (s ++ sep ∷ t) ≡ s ∷ split sep t
unfolding split
split_first sep [] t h = ground arith
split_first sep (c ∷ s) t h = ground (arith, split_first sep s t h.1)

pub after_last_whole : (sep : ℕ) (whole s : Str) → Without sep s → after_last sep whole s ≡ whole
unfolding after_last
after_last_whole sep whole [] h = refl
after_last_whole sep whole (c ∷ s) h = ground (arith, after_last_whole sep whole s h.1)

pub after_last-append :
    (sep : ℕ) (whole s t : Str) → Without sep t → after_last sep whole (s ++ sep ∷ t) ≡ t
unfolding after_last
after_last-append sep whole [] t h = ground (arith, after_last_whole sep t t h)
after_last-append sep whole (c ∷ s) t h =
    ground (arith, after_last-append sep (s ++ sep ∷ t) s t h, after_last-append sep whole s t h)

-- A separator within the text leaves more than one part.
pub length-split-pos : (sep : ℕ) (s : Str) → length (split sep s) ≢ 0
unfolding split
length-split-pos sep [] e = ground arith
length-split-pos sep (c ∷ s) e = ground (arith, length-split-pos sep s)

-- strings.Join with a separator of one byte
unfoldable pub join : ℕ → List Str → Str
join sep [] = []
join sep (s ∷ []) = s
join sep (s ∷ t ∷ ts) = s ++ sep ∷ join sep (t ∷ ts)

join-onto : (sep c : ℕ) (ps : List Str) → length ps ≢ 0 → join sep (onto c ps) ≡ c ∷ join sep ps
unfolding join
join-onto sep c [] h = absurd (h refl)
join-onto sep c (p ∷ []) h = refl
join-onto sep c (p ∷ q ∷ ps) h = refl

join-empty : (sep : ℕ) (ps : List Str) → length ps ≢ 0 → join sep ([] ∷ ps) ≡ sep ∷ join sep ps
unfolding join
join-empty sep [] h = absurd (h refl)
join-empty sep (p ∷ ps) h = refl

pub join-split : (sep : ℕ) (s : Str) → join sep (split sep s) ≡ s
unfolding split join
join-split sep [] = refl
join-split sep (c ∷ s) =
    let some_parts = length-split-pos sep s in
    elim (Bool-cases (c == sep)) [
      | inl e ↦
          let same : c ≡ sep = (==_iff c sep).0 e in
          rw e (join-empty sep (split sep s) some_parts ∙ rw (join-split sep s, same) refl)
      | inr e ↦ rw e (join-onto sep c (split sep s) some_parts ∙ rw (join-split sep s) refl)
    ]
