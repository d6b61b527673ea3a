-- ===== src/Batch/Tuner.antt =====
-- pkg/wal/processor/batch/wal_batch_bytes_tuner.go: a directional search for the batch size with
-- the best throughput. A measured throughput is an argument; logging is left out.
pub mod Convergence
pub mod Search
use pgstream.Prelude.{ℕ, ◌+◌, ◌-◌, Bool, true, false, ◌||◌, Option, none, some, leb, if◌then◌else◌}
use pgstream.Math.{Float64, median}
use pgstream.Batch.Config.{
  AutoTuneConfig, auto_tune_is_valid, get_min_tuned_bytes, get_max_tuned_bytes,
}
use pgstream.Batch.Setting.{
  Direction, unset, left, right, Setting, new_setting, is_within_tolerance, add_throughput,
  has_samples, calculate_average_throughput, is_stable,
}

abbrev min_throughput_samples : ℕ
min_throughput_samples = 3

abbrev max_throughput_samples : ℕ
max_throughput_samples = 50

module _ (fl : Float64) where
  open fl use {F, mul, div, of_ℕ, trunc, ge}

  -- `failed` is tuningErr != nil.
  pub record Tuner : Type 0 where
    pub max_batch_bytes : ℕ
    pub min_batch_bytes : ℕ
    pub convergence_threshold : ℕ
    pub tolerance_factor : F
    pub min_samples : ℕ
    pub max_samples : ℕ
    pub max_coefficient : F
    pub measurement : Option (Setting fl)
    pub candidate : Option (Setting fl)
    pub failed : Bool

  -- newBatchBytesTuner, with the configured convergence threshold, a positive fraction.
  unfoldable pub new_tuner : AutoTuneConfig → F → Option Tuner
  new_tuner cfg threshold =
      let min = get_min_tuned_bytes cfg in
      let max = get_max_tuned_bytes cfg in
      if auto_tune_is_valid cfg
      then some (record {
        max_batch_bytes = max;
        min_batch_bytes = min;
        convergence_threshold = trunc (mul threshold (of_ℕ max));
        tolerance_factor = div (of_ℕ 1) (of_ℕ 10);
        min_samples = min_throughput_samples;
        max_samples = max_throughput_samples;
        max_coefficient = div (of_ℕ 4) (of_ℕ 10);
        measurement = some (new_setting fl (median min max) unset);
        candidate = none;
        failed = false;
      })
      else none

  unfoldable pub has_converged : Tuner → Bool
  has_converged t = leb (t.max_batch_bytes - t.min_batch_bytes) t.convergence_threshold

  go_left : Tuner → Setting fl → Tuner
  go_left t m = record t {
    measurement = some (new_setting fl (median t.min_batch_bytes m.value) left);
    max_batch_bytes = m.value;
  }

  go_right : Tuner → Setting fl → Tuner
  go_right t m = record t {
    measurement = some (new_setting fl (median m.value t.max_batch_bytes) right);
    min_batch_bytes = m.value;
  }

  -- The branch for a measurement at least as good as the candidate; an unset direction sets nothing.
  keep_direction : Direction → Tuner → Setting fl → Tuner
  unfolding go_left go_right
  keep_direction left t m = record (go_left t m) { candidate = some m }
  keep_direction right t m = record (go_right t m) { candidate = some m }
  keep_direction unset t m = record t { measurement = none; candidate = some m }

  turn_round : Direction → Tuner → Setting fl → Tuner
  unfolding go_left go_right
  turn_round left t m = go_right t m
  turn_round right t m = go_left t m
  turn_round unset t m = record t { measurement = none }

  -- `t.measurementSetting = t.calculateNextSetting()` for the measurement `m` of `t`.
  unfoldable pub calculate_next_setting : Tuner → Setting fl → Tuner
  unfolding keep_direction turn_round
  calculate_next_setting t m = elim t.candidate [
    | none ↦ record t {
      candidate = some m;
      measurement = some (new_setting fl (median t.min_batch_bytes m.value) left);
    }
    | some c ↦
        if ge m.avg_throughput c.avg_throughput
        then keep_direction m.direction t m
        else turn_round m.direction t m
  ]

  measured : Tuner → Setting fl → Tuner
  unfolding calculate_next_setting
  measured t m =
      if is_stable fl m t.max_coefficient
      then calculate_next_setting t m
      else if has_samples fl m t.max_samples
      then record t { measurement = some m; failed = true }
      else record t { measurement = some m }

  -- recordMeasurementAndCalculateNext for the throughput of the batch just sent.
  unfoldable pub record_measurement : Tuner → Setting fl → F → Tuner
  unfolding measured
  record_measurement t m throughput =
      let m' = add_throughput fl m throughput in
      if has_samples fl m' t.min_samples
      then measured t (calculate_average_throughput fl m' t.min_samples)
      else record t { measurement = some m' }

  -- The tuner after sendBatch of a batch of `batch_bytes` bytes. The batch itself is sent with
  -- sendFn on every branch, and measured whether or not the sending failed. `none` is the panic of a
  -- nil measurement setting, whose value the trace line reads.
  unfoldable pub tuner_send_batch : Tuner → ℕ → F → Option Tuner
  unfolding has_converged record_measurement
  tuner_send_batch t batch_bytes throughput =
      if has_converged t || t.failed then some t else elim t.measurement [
        | none ↦ none
        | some m ↦
            if is_within_tolerance fl m batch_bytes t.tolerance_factor
            then some (record_measurement t m throughput)
            else some
                (record t { measurement = some (record m { skipped_count = m.skipped_count + 1 }) })
      ]
