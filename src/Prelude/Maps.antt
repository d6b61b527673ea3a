-- ===== src/Prelude/Maps.antt =====
-- Go maps with string keys as association lists, and sets of strings as lists. Nothing that is
-- modelled depends on the order of iteration.
use mathlib.Core.Path.{◌≡◌, refl}
use mathlib.Core.Bool.{◌||◌}
use mathlib.Core.Option.{Option, none, some}
use mathlib.Core.List.{List, [], ◌∷◌}
use native.Mathlib.Omega.{arith}
use pgstream.Prelude.Tests.{if◌then◌else◌}
use pgstream.Prelude.Text.{Str, str_eq, str_eq_iff, contains}

module _ {ℓ} {V : Type ℓ} where
  -- m[k]
  unfoldable pub lookup : Str → List (Str × V) → Option V
  lookup k [] = none
  lookup k ((j, v) ∷ m) = if str_eq j k then some v else lookup k m

  -- m[k] = v
  unfoldable pub insert : Str → V → List (Str × V) → List (Str × V)
  insert k v [] = (k, v) ∷ []
  insert k v ((j, w) ∷ m) = if str_eq j k then (k, v) ∷ m else (j, w) ∷ insert k v m

  -- delete(m, k)
  unfoldable pub delete : Str → List (Str × V) → List (Str × V)
  delete k [] = []
  delete k ((j, w) ∷ m) = let rest = delete k m in if str_eq j k then rest else (j, w) ∷ rest

  pub lookup-insert :
      (k j : Str) (v : V) (m : List (Str × V))
      → lookup j (insert k v m) ≡ (if str_eq k j then some v else lookup j m)
  unfolding lookup insert
  lookup-insert k j v [] = refl
  lookup-insert k j v ((i, w) ∷ m) =
      ground (arith, str_eq_iff k j, str_eq_iff i k, str_eq_iff i j, lookup-insert k j v m)

  pub lookup-delete :
      (k j : Str) (m : List (Str × V))
      → lookup j (delete k m) ≡ (if str_eq k j then none else lookup j m)
  unfolding lookup delete
  lookup-delete k j [] = ground arith
  lookup-delete k j ((i, w) ∷ m) =
      ground (arith, str_eq_iff k j, str_eq_iff i k, str_eq_iff i j, lookup-delete k j m)

-- set[k] = struct{}{}
unfoldable pub set_insert : Str → List Str → List Str
set_insert k s = if contains s k then s else k ∷ s

pub contains-set_insert :
    (k j : Str) (s : List Str) → contains (set_insert k s) j ≡ (str_eq k j || contains s j)
unfolding set_insert contains
contains-set_insert k j s = ground (arith, str_eq_iff k j)

-- for k := range from { to[k] = struct{}{} }
unfoldable pub set_union : List Str → List Str → List Str
set_union [] to = to
set_union (k ∷ from) to = set_union from (set_insert k to)

pub contains-set_union :
    (from to : List Str) (j : Str)
    → contains (set_union from to) j ≡ (contains from j || contains to j)
unfolding set_union contains
contains-set_union [] to j = refl
contains-set_union (k ∷ from) to j =
    ground (arith, contains-set_union from (set_insert k to) j, contains-set_insert k j to)
