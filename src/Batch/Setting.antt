-- ===== src/Batch/Setting.antt =====
-- pkg/wal/processor/batch/wal_batch_bytes_setting.go. A nil setting is the caller's `none`.
use pgstream.Prelude.{
  ℕ, ◌+◌, ◌-◌, Bool, not, ◌&&◌, List, [], ◌∷◌, ◌++◌, length, drop, ltb, leb, if◌then◌else◌,
}
use pgstream.Math.{Float64, total_from, coefficient_of_variation}

-- The zero value of the Go type is the empty string.
pub data Direction : Type 0 where
  unset left right : Direction

module _ (fl : Float64) where
  open fl use {F, mul, div, of_ℕ, trunc, is_nan, is_inf, lt}

  pub record Setting : Type 0 where
    pub value : ℕ
    pub throughputs : List F
    pub avg_throughput : F
    pub coefficient : F
    pub direction : Direction
    pub skipped_count : ℕ

  unfoldable pub new_setting : ℕ → Direction → Setting
  new_setting value direction = record {
    value = value;
    throughputs = [];
    avg_throughput = of_ℕ 0;
    coefficient = of_ℕ 0;
    direction = direction;
    skipped_count = 0;
  }

  -- value - tolerance ≤ batch bytes ≤ value + tolerance, with the difference of int64 moved over.
  unfoldable pub is_within_tolerance : Setting → ℕ → F → Bool
  is_within_tolerance s batch_bytes factor =
      let tolerance = trunc (mul (of_ℕ s.value) factor) in
      leb s.value (batch_bytes + tolerance) && leb batch_bytes (s.value + tolerance)

  unfoldable pub add_throughput : Setting → F → Setting
  add_throughput s t = record s { throughputs = s.throughputs ++ t ∷ [] }

  unfoldable pub has_samples : Setting → ℕ → Bool
  has_samples s n = leb n (length s.throughputs)

  -- calculateAverageThroughput over the last `min_samples` values.
  unfoldable pub calculate_average_throughput : Setting → ℕ → Setting
  calculate_average_throughput s min_samples =
      let last = drop (length s.throughputs - min_samples) s.throughputs in
      if ltb (length s.throughputs) min_samples then s else record s {
        avg_throughput = div (total_from fl (of_ℕ 0) last) (of_ℕ (length last));
        coefficient = coefficient_of_variation fl last;
      }

  unfoldable pub is_stable : Setting → F → Bool
  is_stable s max_cov =
      not (is_inf s.coefficient) && not (is_nan s.coefficient) && lt s.coefficient max_cov
