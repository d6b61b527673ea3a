-- ===== src/Math.antt =====
-- internal/math/math.go. The float64 arithmetic of the Go runtime is a parameter.
use pgstream.Prelude.{ℕ, ◌+◌, ◌-◌, ◌/◌, Bool, List, [], ◌∷◌, length, ltb, if◌then◌else◌}

-- float64 with its operators; `trunc` is the conversion int64(x) of a value that is not negative.
pub record Float64 : Type 1 where
  pub F : Type 0
  pub add : F → F → F
  pub sub : F → F → F
  pub mul : F → F → F
  pub div : F → F → F
  pub of_ℕ : ℕ → F
  pub trunc : F → ℕ
  pub sqrt : F → F
  pub nan : F
  pub is_nan : F → Bool
  pub is_inf : F → Bool
  pub eq : F → F → Bool
  pub lt : F → F → Bool
  pub ge : F → F → Bool

-- Median of min ≤ max.
unfoldable pub median : ℕ → ℕ → ℕ
median min max = min + (max - min) / 2

module _ (fl : Float64) where
  open fl use {F, add, sub, mul, div, of_ℕ, sqrt, nan, eq}

  unfoldable pub total_from : F → List F → F
  total_from acc [] = acc
  total_from acc (v ∷ vs) = total_from (add acc v) vs

  unfoldable pub average : List F → F
  average [] = of_ℕ 0
  average (v ∷ vs) = div (total_from (of_ℕ 0) (v ∷ vs)) (of_ℕ (length (v ∷ vs)))

  unfoldable pub sum_squared_diff : F → F → List F → F
  sum_squared_diff mean acc [] = acc
  sum_squared_diff mean acc (v ∷ vs) =
      let diff = sub v mean in sum_squared_diff mean (add acc (mul diff diff)) vs

  unfoldable pub standard_deviation : List F → F
  standard_deviation [] = of_ℕ 0
  standard_deviation (v ∷ []) = of_ℕ 0
  standard_deviation (v ∷ w ∷ vs) =
      let values = v ∷ w ∷ vs in
      let mean = div (total_from (of_ℕ 0) values) (of_ℕ (length values)) in
      sqrt (div (sum_squared_diff mean (of_ℕ 0) values) (of_ℕ (length values - 1)))

  unfoldable pub coefficient_of_variation : List F → F
  unfolding average standard_deviation
  coefficient_of_variation values =
      if ltb (length values) 2
      then of_ℕ 0
      else (let mean = average values in
          if eq mean (of_ℕ 0) then nan else div (standard_deviation values) mean)
