-- ===== src/Batch/Tuner/Search.antt =====
-- Every batch sent through the tuner of pkg/wal/processor/batch/wal_batch_bytes_tuner.go leaves a
-- valid search behind.
use pgstream.Prelude.{
  ℕ, ◌+◌, ◌≤◌, ◌≡◌, ◌≢◌, refl, ◌⊎◌, inl, inr, Bool, true, false, ◌||◌, none, some, Option, arith,
  Bool-cases, Option-cases, if◌then◌else◌,
}
use pgstream.Math.{Float64, median}
use pgstream.Batch.Setting.{
  Direction, unset, left, right, Setting, new_setting, is_within_tolerance, add_throughput,
  has_samples, calculate_average_throughput, is_stable,
}
use pgstream.Batch.Tuner.{
  Tuner, has_converged, go_left, go_right, keep_direction, turn_round, calculate_next_setting,
  measured, record_measurement, tuner_send_batch,
}

module _ (fl : Float64) where
  open fl use {F, ge}

  -- There is a setting to measure, within the range, and once there is a candidate it was reached
  -- in some direction.
  pub record IsSearch (t : Tuner fl) : Type 0 where
    pub m : Setting fl
    pub measures : t.measurement ≡ some m
    pub lower : t.min_batch_bytes ≤ m.value
    pub upper : m.value ≤ t.max_batch_bytes
    pub directed : (t.candidate ≡ none) ⊎ (m.direction ≢ unset)

  -- The range of `u` lies within that of `t`.
  pub record Follows (t u : Tuner fl) : Type 0 where
    pub search : IsSearch u
    pub min_grows : t.min_batch_bytes ≤ u.min_batch_bytes
    pub max_falls : u.max_batch_bytes ≤ t.max_batch_bytes

  module _ (t : Tuner fl) (m : Setting fl) (lower : t.min_batch_bytes ≤ m.value)
      (upper : m.value ≤ t.max_batch_bytes) where
    left-Follows : (c : Option (Setting fl)) → Follows t (record (go_left fl t m) { candidate = c })
    unfolding go_left median new_setting
    left-Follows c = record {
      search = record {
        m = new_setting fl (median t.min_batch_bytes m.value) left;
        measures = refl;
        lower = omega arith;
        upper = omega arith;
        directed = inr (λ e. cc);
      };
      min_grows = omega arith;
      max_falls = upper;
    }

    right-Follows :
        (c : Option (Setting fl)) → Follows t (record (go_right fl t m) { candidate = c })
    unfolding go_right median new_setting
    right-Follows c = record {
      search = record {
        m = new_setting fl (median m.value t.max_batch_bytes) right;
        measures = refl;
        lower = omega arith;
        upper = omega arith;
        directed = inr (λ e. cc);
      };
      min_grows = lower;
      max_falls = omega arith;
    }

    first-Follows : Follows t (record t {
      candidate = some m;
      measurement = some (new_setting fl (median t.min_batch_bytes m.value) left);
    })
    unfolding median new_setting
    first-Follows = record {
      search = record {
        m = new_setting fl (median t.min_batch_bytes m.value) left;
        measures = refl;
        lower = omega arith;
        upper = omega arith;
        directed = inr (λ e. cc);
      };
      min_grows = omega arith;
      max_falls = omega arith;
    }

    choose-Follows :
        (better : Bool) (d : Direction)
        → d ≢ unset
        → Follows t (if better then keep_direction fl d t m else turn_round fl d t m)
    unfolding keep_direction turn_round
    choose-Follows better unset hd = absurd (hd refl)
    choose-Follows true left hd = left-Follows (some m)
    choose-Follows true right hd = right-Follows (some m)
    choose-Follows false left hd = right-Follows t.candidate
    choose-Follows false right hd = left-Follows t.candidate

    next-Follows :
        (t.candidate ≡ none) ⊎ (m.direction ≢ unset) → Follows t (calculate_next_setting fl t m)
    unfolding calculate_next_setting
    next-Follows hd = elim (Option-cases t.candidate) [
      | inl e ↦ simp (e, calculate_next_setting) first-Follows
      | inr (c, e) ↦
          simp (e, calculate_next_setting)
            (choose-Follows (ge m.avg_throughput c.avg_throughput) m.direction (λ u. ground arith))
    ]

    kept-Follows :
        (failed : Bool)
        → (t.candidate ≡ none) ⊎ (m.direction ≢ unset)
        → Follows t (record t { measurement = some m; failed = failed })
    kept-Follows failed hd = record {
      search = record { m = m; measures = refl; lower = lower; upper = upper; directed = hd };
      min_grows = omega arith;
      max_falls = omega arith;
    }

    measured-Follows : (t.candidate ≡ none) ⊎ (m.direction ≢ unset) → Follows t (measured fl t m)
    unfolding measured
    measured-Follows hd = elim (Bool-cases (is_stable fl m t.max_coefficient)) [
      | inl e ↦ rw e (next-Follows hd)
      | inr e ↦ rw e (elim (Bool-cases (has_samples fl m t.max_samples)) [
        | inl e' ↦ rw e' (kept-Follows true hd)
        | inr e' ↦ rw e' (kept-Follows t.failed hd)
      ])
    ]

  value-calculate : (m : Setting fl) (n : ℕ) → (calculate_average_throughput fl m n).value ≡ m.value
  unfolding calculate_average_throughput
  value-calculate m n = ground arith

  direction-calculate :
      (m : Setting fl) (n : ℕ) → (calculate_average_throughput fl m n).direction ≡ m.direction
  unfolding calculate_average_throughput
  direction-calculate m n = ground arith

  record-Follows :
      (t : Tuner fl) (m : Setting fl) (throughput : F)
      → t.min_batch_bytes ≤ m.value
      → m.value ≤ t.max_batch_bytes
      → (t.candidate ≡ none) ⊎ (m.direction ≢ unset)
      → Follows t (record_measurement fl t m throughput)
  unfolding record_measurement add_throughput
  record-Follows t m throughput lo up hd =
      let m' = add_throughput fl m throughput in
      let value = value-calculate m' t.min_samples in
      elim (Bool-cases (has_samples fl m' t.min_samples)) [
        | inl e ↦ rw e (
            measured-Follows t (calculate_average_throughput fl m' t.min_samples) (omega arith)
              (omega arith) (rw (direction-calculate m' t.min_samples) hd))
        | inr e ↦ rw e (kept-Follows t m' lo up t.failed hd)
      ]

  self-Follows : (t : Tuner fl) → IsSearch t → Follows t t
  self-Follows t h = record { search = h; min_grows = omega arith; max_falls = omega arith }

  -- In a valid search, sending a batch of any size never meets a missing measurement setting, keeps the search valid,
  -- and only narrows its range.
  pub tuner_send_batch-Follows :
      (t : Tuner fl) (batch_bytes : ℕ) (throughput : F)
      → IsSearch t
      → (u : Tuner fl) × (tuner_send_batch fl t batch_bytes throughput ≡ some u) × Follows t u
  unfolding tuner_send_batch
  tuner_send_batch-Follows t n x h = elim (Bool-cases (has_converged fl t || t.failed)) [
    | inl e ↦ (t, simp (e, tuner_send_batch), self-Follows t h)
    | inr e ↦ elim (Bool-cases (is_within_tolerance fl h.m n t.tolerance_factor)) [
      | inl e' ↦ (
        record_measurement fl t h.m x,
        simp (e, h.measures, e', tuner_send_batch),
        record-Follows t h.m x h.lower h.upper h.directed,
      )
      | inr e' ↦ (
        record t { measurement = some (record h.m { skipped_count = h.m.skipped_count + 1 }) },
        simp (e, h.measures, e', tuner_send_batch),
        kept-Follows t (record h.m { skipped_count = h.m.skipped_count + 1 }) h.lower h.upper
            t.failed h.directed,
      )
    ]
  ]
