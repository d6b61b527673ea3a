-- ===== src/Batch/Tuner/Convergence.antt =====
-- The search of pkg/wal/processor/batch/wal_batch_bytes_tuner.go ends: every measurement but the
-- first narrows the range.
use native.Mathlib.Nat.{pow-suc}
use pgstream.Prelude.{
  ℕ, zero, suc, ◌+◌, ◌-◌, ◌*◌, ◌^◌, ◌≤◌, ◌≡◌, ◌≢◌, refl, inl, inr, Bool, true, false, none, some,
  List, [], ◌∷◌, length, arith, Bool-cases, if◌then◌else◌,
}
use pgstream.Math.{Float64, median}
use pgstream.Batch.Config.{AutoTuneConfig, auto_tune_is_valid}
use pgstream.Batch.Setting.{Direction, unset, left, right, Setting, new_setting}
use pgstream.Batch.Tuner.{
  Tuner, new_tuner, has_converged, go_left, go_right, keep_direction, turn_round,
  calculate_next_setting,
}

module _ (fl : Float64) where
  open fl use {F, ge}

  -- One completed measurement, with the average throughput `a`.
  pub next : Tuner fl → F → Tuner fl
  unfolding has_converged calculate_next_setting
  next t a = if has_converged fl t then t else elim t.measurement [
    | none ↦ t
    | some m ↦ calculate_next_setting fl t (record m { avg_throughput = a })
  ]

  pub tune : Tuner fl → List F → Tuner fl
  tune t [] = t
  tune t (a ∷ rest) = tune (next t a) rest

  abbrev pub width : Tuner fl → ℕ
  width t = t.max_batch_bytes - t.min_batch_bytes

  -- The next measurement is the middle of the range, and the search has a direction.
  record Centred (t : Tuner fl) : Type 0 where
    m : Setting fl
    c : Setting fl
    measures : t.measurement ≡ some m
    has_candidate : t.candidate ≡ some c
    middle : m.value ≡ median t.min_batch_bytes t.max_batch_bytes
    directed : m.direction ≢ unset
    ordered : t.min_batch_bytes ≤ t.max_batch_bytes

  -- The search that follows: centred, with at most `n` bytes of range and the threshold kept.
  record Narrows (n : ℕ) (t u : Tuner fl) : Type 0 where
    centred : Centred u
    within : width u ≤ n
    threshold : u.convergence_threshold ≡ t.convergence_threshold

  module _ (n : ℕ) (t : Tuner fl) (m c : Setting fl) (lower : t.min_batch_bytes ≤ m.value)
      (upper : m.value ≤ t.max_batch_bytes) (left_part : m.value ≤ t.min_batch_bytes + n)
      (right_part : t.max_batch_bytes ≤ m.value + n) where
    -- The range is cut at the measurement, on either side.
    left-Narrows : Narrows n t (record (go_left fl t m) { candidate = some c })
    unfolding go_left median new_setting
    left-Narrows = record {
      centred = record {
        m = new_setting fl (median t.min_batch_bytes m.value) left;
        c = c;
        measures = refl;
        has_candidate = refl;
        middle = refl;
        directed = λ e. cc;
        ordered = lower;
      };
      within = omega arith;
      threshold = refl;
    }

    right-Narrows : Narrows n t (record (go_right fl t m) { candidate = some c })
    unfolding go_right median new_setting
    right-Narrows = record {
      centred = record {
        m = new_setting fl (median m.value t.max_batch_bytes) right;
        c = c;
        measures = refl;
        has_candidate = refl;
        middle = refl;
        directed = λ e. cc;
        ordered = upper;
      };
      within = omega arith;
      threshold = refl;
    }

  choose-Narrows :
      (better : Bool) (d : Direction) (n : ℕ) (t : Tuner fl) (m c : Setting fl)
      → d ≢ unset
      → t.candidate ≡ some c
      → t.min_batch_bytes ≤ m.value
      → m.value ≤ t.max_batch_bytes
      → m.value ≤ t.min_batch_bytes + n
      → t.max_batch_bytes ≤ m.value + n
      → Narrows n t (if better then keep_direction fl d t m else turn_round fl d t m)
  unfolding keep_direction turn_round
  choose-Narrows better unset n t m c hd hc lo up l r = absurd (hd refl)
  choose-Narrows true left n t m c hd hc lo up l r = left-Narrows n t m m lo up l r
  choose-Narrows true right n t m c hd hc lo up l r = right-Narrows n t m m lo up l r
  choose-Narrows false left n t m c hd hc lo up l r = rw (← hc) at (right-Narrows n t m c lo up l r)
  choose-Narrows false right n t m c hd hc lo up l r = rw (← hc) at (left-Narrows n t m c lo up l r)

  next-Narrows :
      (n : ℕ) (t : Tuner fl) (m c : Setting fl) (a : F)
      → t.measurement ≡ some m
      → t.candidate ≡ some c
      → m.direction ≢ unset
      → has_converged fl t ≡ false
      → t.min_batch_bytes ≤ m.value
      → m.value ≤ t.max_batch_bytes
      → m.value ≤ t.min_batch_bytes + n
      → t.max_batch_bytes ≤ m.value + n
      → Narrows n t (next t a)
  unfolding next calculate_next_setting
  next-Narrows n t m c a hm hc hd e lo up l r =
      simp (e, hm, hc, next, calculate_next_setting)
        (choose-Narrows (ge a c.avg_throughput) m.direction n t (record m { avg_throughput = a }) c
          hd hc lo up l r)

  halving :
      (n : ℕ) (t : Tuner fl) (a : F)
      → Centred t
      → has_converged fl t ≡ false
      → width t ≤ 2 * n
      → Narrows n t (next t a)
  unfolding median
  halving n t a h e hw =
      let hm = h.middle in
      let ho = h.ordered in
      next-Narrows n t h.m h.c a h.measures h.has_candidate h.directed e (omega arith) (omega arith)
        (omega arith) (omega arith)

  next_converged : (t : Tuner fl) (a : F) → has_converged fl t ≡ true → next t a ≡ t
  unfolding next
  next_converged t a e = rw e

  tune_converged :
      (t : Tuner fl) (avgs : List F)
      → has_converged fl t ≡ true
      → has_converged fl (tune t avgs) ≡ true
  unfolding tune
  tune_converged t [] e = e
  tune_converged t (a ∷ rest) e = rw (next_converged t a e) (tune_converged t rest e)

  narrow_converged : (t : Tuner fl) → width t ≤ t.convergence_threshold → has_converged fl t ≡ true
  unfolding has_converged
  narrow_converged t h = ground arith

  Centred-converges :
      (k : ℕ) (t : Tuner fl) (avgs : List F)
      → length avgs ≡ k
      → Centred t
      → 1 ≤ t.convergence_threshold
      → width t ≤ 2 ^ k
      → has_converged fl (tune t avgs) ≡ true
  unfolding tune
  Centred-converges zero t [] hl h ht hw = narrow_converged t (omega arith)
  Centred-converges zero t (a ∷ rest) hl h ht hw = absurd (omega arith)
  Centred-converges (suc k) t [] hl h ht hw = absurd (omega arith)
  Centred-converges (suc k) t (a ∷ rest) hl h ht hw = elim (Bool-cases (has_converged fl t)) [
    | inl e ↦ tune_converged t (a ∷ rest) e
    | inr e ↦
        let s = halving (2 ^ k) t a h e (omega (arith, pow-suc 2 k)) in
        Centred-converges k (next t a) rest (omega arith) s.centred (rw s.threshold ht) s.within
  ]

  -- The search as newBatchBytesTuner starts it.
  pub record Fresh (t : Tuner fl) : Type 0 where
    pub m : Setting fl
    pub measures : t.measurement ≡ some m
    pub no_candidate : t.candidate ≡ none
    pub middle : m.value ≡ median t.min_batch_bytes t.max_batch_bytes
    pub ordered : t.min_batch_bytes ≤ t.max_batch_bytes

  first_step :
      (t : Tuner fl) (a : F) (h : Fresh t)
      → has_converged fl t ≡ false
      → next t a ≡ record t {
        candidate = some (record h.m { avg_throughput = a });
        measurement = some (new_setting fl (median t.min_batch_bytes h.m.value) left);
      }
  unfolding next calculate_next_setting
  first_step t a h e = simp (e, h.measures, h.no_candidate, next, calculate_next_setting)

  abbrev after_first : (t : Tuner fl) → F → Fresh t → Tuner fl
  after_first t a h = record t {
    candidate = some (record h.m { avg_throughput = a });
    measurement = some (new_setting fl (median t.min_batch_bytes h.m.value) left);
  }

  second-Narrows :
      (t : Tuner fl) (a b : F) (h : Fresh t)
      → has_converged fl (after_first t a h) ≡ false
      → Narrows (width t) (after_first t a h) (next (after_first t a h) b)
  unfolding median new_setting
  second-Narrows t a b h e =
      let hm = h.middle in
      let ho = h.ordered in
      next-Narrows (width t) (after_first t a h)
        (new_setting fl (median t.min_batch_bytes h.m.value) left)
        (record h.m { avg_throughput = a }) b refl refl (λ d. cc) e (omega arith) (omega arith)
        (omega arith) (omega arith)

  Fresh-converges :
      (k : ℕ) (t : Tuner fl) (avgs : List F)
      → length avgs ≡ k + 2
      → Fresh t
      → 1 ≤ t.convergence_threshold
      → width t ≤ 2 ^ k
      → has_converged fl (tune t avgs) ≡ true
  unfolding tune
  Fresh-converges k t [] hl h ht hw = absurd (omega arith)
  Fresh-converges k t (a ∷ []) hl h ht hw = absurd (omega arith)
  Fresh-converges k t (a ∷ b ∷ rest) hl h ht hw = elim (Bool-cases (has_converged fl t)) [
    | inl e ↦ tune_converged t (a ∷ b ∷ rest) e
    | inr e ↦ rw (first_step t a h e) (elim (Bool-cases (has_converged fl (after_first t a h))) [
      | inl e' ↦ tune_converged (after_first t a h) (b ∷ rest) e'
      | inr e' ↦
          let s = second-Narrows t a b h e' in
          Centred-converges k (next (after_first t a h) b) rest (omega arith) s.centred
            (rw s.threshold ht) (omega (arith, s.within))
    ])
  ]

  new_tuner-Fresh :
      (cfg : AutoTuneConfig) (threshold : F) (t : Tuner fl)
      → new_tuner fl cfg threshold ≡ some t
      → Fresh t
  unfolding new_tuner auto_tune_is_valid new_setting
  new_tuner-Fresh cfg threshold t e = record {
    m = new_setting fl (median t.min_batch_bytes t.max_batch_bytes) unset;
    measures = ground arith;
    no_candidate = ground arith;
    middle = refl;
    ordered = ground arith;
  }

  -- A new tuner whose threshold is at least one byte, and whose range is at most 2^k bytes wide, has
  -- converged after k + 2 stable measurements, whatever throughputs they showed.
  pub tuner_converges :
      (cfg : AutoTuneConfig) (threshold : F) (t : Tuner fl) (k : ℕ) (avgs : List F)
      → new_tuner fl cfg threshold ≡ some t
      → 1 ≤ t.convergence_threshold
      → width t ≤ 2 ^ k
      → length avgs ≡ k + 2
      → has_converged fl (tune t avgs) ≡ true
  tuner_converges cfg threshold t k avgs e ht hw hl =
      Fresh-converges k t avgs hl (new_tuner-Fresh cfg threshold t e) ht hw
