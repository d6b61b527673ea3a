-- ===== src/Batch/Config.antt =====
-- pkg/wal/processor/batch/wal_batch_sender_config.go. A getter's result is positive, so it is a
-- natural number. The convergence threshold, a float, is an argument of the tuner (Batch.Tuner).
use pgstream.Prelude.{
  ℕ, ◌*◌, ◌/◌, ◌≤◌, ◌<◌, ◌≡◌, Bool, true, false, Option, none, some, arith, ltb, if◌then◌else◌,
}
use pgstream.Prelude.Int.{ℤ, pos, pos_part, is_positive, is_zero}

pub record AutoTuneConfig : Type 0 where
  pub enabled : Bool
  pub min_batch_bytes : ℤ
  pub max_batch_bytes : ℤ

-- BatchTimeout is in nanoseconds.
pub record Config : Type 0 where
  pub batch_timeout : ℤ
  pub max_batch_bytes : ℤ
  pub max_batch_size : ℤ
  pub max_queue_bytes : ℤ
  pub ignore_send_errors : Bool
  pub auto_tune : AutoTuneConfig

abbrev default_max_queue_bytes : ℕ
default_max_queue_bytes = 100 * 1024 * 1024

abbrev default_batch_timeout : ℕ
default_batch_timeout = 1_000_000_000

abbrev default_max_batch_size : ℕ
default_max_batch_size = 100

abbrev default_max_batch_bytes : ℕ
default_max_batch_bytes = 1572864

abbrev default_auto_tune_min_batch_bytes : ℕ
default_auto_tune_min_batch_bytes = 1024 * 1024

-- int64(0.5 * float64(defaultMaxQueueBytes)), exactly.
abbrev default_auto_tune_max_batch_bytes : ℕ
default_auto_tune_max_batch_bytes = 52428800

abbrev or_default : ℤ → ℕ → ℕ
or_default x d = if is_positive x then pos_part x else d

unfoldable pub get_max_batch_bytes : Config → ℕ
get_max_batch_bytes c = or_default c.max_batch_bytes default_max_batch_bytes

unfoldable pub get_max_batch_size : Config → ℕ
get_max_batch_size c = or_default c.max_batch_size default_max_batch_size

unfoldable pub get_batch_timeout : Config → ℕ
get_batch_timeout c = or_default c.batch_timeout default_batch_timeout

-- `none` is the error "max queue bytes must be equal or bigger than max batch bytes".
unfoldable pub get_max_queue_bytes : Config → Option ℕ
unfolding get_max_batch_bytes
get_max_queue_bytes c =
    if is_positive c.max_queue_bytes
    then (if ltb (pos_part c.max_queue_bytes) (get_max_batch_bytes c)
        then none
        else some (pos_part c.max_queue_bytes))
    else some default_max_queue_bytes

unfoldable pub get_min_tuned_bytes : AutoTuneConfig → ℕ
get_min_tuned_bytes c = or_default c.min_batch_bytes default_auto_tune_min_batch_bytes

unfoldable pub get_max_tuned_bytes : AutoTuneConfig → ℕ
get_max_tuned_bytes c = or_default c.max_batch_bytes default_auto_tune_max_batch_bytes

-- `GetMinBatchBytes() > GetMaxBatchBytes()` is the error.
unfoldable pub auto_tune_is_valid : AutoTuneConfig → Bool
unfolding get_min_tuned_bytes get_max_tuned_bytes
auto_tune_is_valid c = if ltb (get_max_tuned_bytes c) (get_min_tuned_bytes c) then false else true

-- GetAutoTuneConfig: half of the queue, if the maximum is 0. `int64(0.5 * float64(n))` is n / 2 for
-- every n below 2^53, and -1 / 2 is 0 on the error path of GetMaxQueueBytes.
unfoldable pub get_auto_tune_config : Config → AutoTuneConfig
unfolding get_max_queue_bytes
get_auto_tune_config c =
    if is_zero c.auto_tune.max_batch_bytes
    then record c.auto_tune { max_batch_bytes = half_of_queue (get_max_queue_bytes c) }
    else c.auto_tune
  where
    half_of_queue : Option ℕ → ℤ
    half_of_queue none = pos 0
    half_of_queue (some n) = pos (n / 2)

-- Whatever is configured, a batch of the maximum size fits the queue, unless there is no queue
-- maximum configured and the batch maximum passes 100 MiB.
pub batch_fits_queue :
    (c : Config) (n : ℕ)
    → is_positive c.max_queue_bytes ≡ true
    → get_max_queue_bytes c ≡ some n
    → (0 < get_max_batch_bytes c) × (get_max_batch_bytes c ≤ n)
unfolding get_max_queue_bytes
batch_fits_queue c n h e = ground arith
