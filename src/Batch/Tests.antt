-- ===== src/Batch/Tests.antt =====
-- Concrete runs of the batch sender, of its tuner and of its queue. Floats are fixed point numbers with
-- three decimals, messages are strings, and the semaphore is a counter.
use Prim.Native.String.{String}
use pgstream.Prelude.{
  ℕ, ◌+◌, ◌-◌, ◌*◌, ◌/◌, ◌≤◌, ◌≡◌, refl, inl, true, false, none, some, List, [], ◌∷◌, Str, bytes,
  is_empty, All, arith, leb, ltb, ◌==◌, length, replicate, if◌then◌else◌,
}
use pgstream.Prelude.Int.{pos}
use pgstream.Math.{Float64}
use pgstream.Batch.{Message, WalMessage, Batch, empty_batch}
use pgstream.Batch.Config.{AutoTuneConfig}
use pgstream.Batch.Setting.{new_setting, unset}
use pgstream.Batch.Tuner.{Tuner, new_tuner, has_converged, tuner_send_batch}
use pgstream.Batch.Tuner.Convergence.{tune, tuner_converges}
use pgstream.Batch.Tuner.Search.{IsSearch, Follows, tuner_send_batch-Follows}
use pgstream.Batch.Sender.{
  taken, send_failed, Loop, start, Limits, Input, tick, cancelled, message, step, run, received,
}
use pgstream.Batch.Sender.Order.{Aligned, run-Aligned}
use pgstream.Batch.Sender.Bounds.{Fits, run-Fits}
use pgstream.Batch.System.{Semaphore, System, Step, Reach, send, receive, here, then_step}
use pgstream.Batch.System.Memory.{Accounted, Reach-Accounted, release_never_panics}

abbrev thousandths : Float64
thousandths = record {
  F = ℕ;
  add = λ a b. a + b;
  sub = λ a b. a - b;
  mul = λ a b. a * b / 1000;
  div = λ a b. a * 1000 / b;
  of_ℕ = λ n. n * 1000;
  trunc = λ a. a / 1000;
  sqrt = λ a. a;
  nan = 0;
  is_nan = λ a. false;
  is_inf = λ a. false;
  eq = λ a b. a == b;
  lt = λ a b. ltb a b;
  ge = λ a b. leb b a;
}

empty_size : (m : Str) → is_empty m ≡ true → length m ≡ 0
empty_size [] e = refl
empty_size (c ∷ m) e = absurd (cc)

abbrev Strings : Message Str
Strings = record { size = length; empty = is_empty; size_of_empty = empty_size }

abbrev limits : Limits
limits = record { max_batch_bytes = 4; max_batch_size = 2 }

abbrev put : String → String → Input thousandths Str
put text at = message none (record { message = bytes text; position = bytes at }) taken taken

-- Two messages that fill a batch, a large message, a keep alive, and a cancellation.
abbrev inputs : List (Input thousandths Str)
inputs =
    put "ab" "0/1"
    ∷ put "c" "0/2"
    ∷ put "abcdefgh" "0/3"
    ∷ put "x" ""
    ∷ tick taken
    ∷ put "" "0/4"
    ∷ put "yz" "0/5"
    ∷ cancelled (send_failed (bytes "stop")) (bytes "done")
    ∷ put "q" "0/6"
    ∷ []

run-Aligned_example :
    Aligned Strings
      (run thousandths Strings limits start inputs)
      (received thousandths Strings limits start inputs)
run-Aligned_example = run-Aligned Strings thousandths limits inputs

run-Fits_example : All (Fits Strings limits) (run thousandths Strings limits start inputs).handed
run-Fits_example =
    run-Fits Strings limits thousandths (omega arith) (omega arith) inputs
      (tt, (tt, (tt, (tt, (tt, (tt, (tt, (tt, (tt, tt)))))))))

abbrev tuning : AutoTuneConfig
tuning = record { enabled = true; min_batch_bytes = pos 1000; max_batch_bytes = pos 2000 }

-- The search between 1000 and 2000 bytes, to within 1% of 2000.
abbrev tuner : Tuner thousandths
tuner = record {
  max_batch_bytes = 2000;
  min_batch_bytes = 1000;
  convergence_threshold = 20;
  tolerance_factor = 100;
  min_samples = 3;
  max_samples = 50;
  max_coefficient = 400;
  measurement = some (new_setting thousandths 1500 unset);
  candidate = none;
  failed = false;
}

new_tuner_example : new_tuner thousandths tuning 10 ≡ some tuner
unfolding new_tuner pgstream.Batch.Config.auto_tune_is_valid pgstream.Math.median
new_tuner_example = refl

tuner_converges_example : has_converged thousandths (tune thousandths tuner (replicate 12 5)) ≡ true
tuner_converges_example =
    tuner_converges thousandths tuning 10 tuner 10 (replicate 12 5) new_tuner_example (omega arith)
      (omega arith) refl

tuner-IsSearch : IsSearch thousandths tuner
unfolding new_setting
tuner-IsSearch = record {
  m = new_setting thousandths 1500 unset;
  measures = refl;
  lower = omega arith;
  upper = omega arith;
  directed = inl refl;
}

tuner_send_batch-Follows_example :
    (u : Tuner thousandths) × (tuner_send_batch thousandths tuner 1450 7000 ≡ some u)
    × Follows thousandths tuner u
tuner_send_batch-Follows_example =
    tuner_send_batch-Follows thousandths tuner 1450 7000 tuner-IsSearch

acquired :
    (s t n : ℕ) → (if leb (s + n) 10 then some (s + n) else none) ≡ some t → (t ≡ s + n) × (t ≤ 10)
acquired s t n e = ground arith

releasable : (s n : ℕ) → n ≤ s → (if leb n s then some (s - n) else none) ≡ some (s - n)
releasable s n h = ground arith

released : (s t n : ℕ) → (if leb n s then some (s - n) else none) ≡ some t → t + n ≡ s
released s t n e = ground arith

abbrev counter : Semaphore
counter = record {
  State = ℕ;
  size = 10;
  held = λ s. s;
  new = 0;
  acquire = λ s n. if leb (s + n) 10 then some (s + n) else none;
  release = λ s n. if leb n s then some (s - n) else none;
  held-new = refl;
  held-acquire = acquired;
  release_total = λ s n h. (s - n, releasable s n h);
  held-release = released;
}

abbrev first_message : WalMessage Str
first_message = record { message = bytes "ab"; position = bytes "0/1" }

abbrev second_message : WalMessage Str
second_message = record { message = bytes "c"; position = bytes "0/2" }

abbrev both : Batch Str
both = record {
  messages = bytes "ab" ∷ bytes "c" ∷ [];
  positions = bytes "0/1" ∷ bytes "0/2" ∷ [];
  total_bytes = 3;
}

abbrev after : Loop Str → WalMessage Str → Loop Str
after s m = step thousandths Strings limits s (message none m taken taken)

-- Both messages are sent and received, and fill a batch that waits for the writer.
abbrev batch_waits : System thousandths counter Strings limits
batch_waits = record {
  loop = after (after start first_message) second_message;
  queue_bytes = 3;
  blocked = [];
  queue = both ∷ [];
  sent = [];
}

batch_waits_reached : Reach thousandths counter Strings limits batch_waits
unfolding step pgstream.Batch.max_batch_bytes_reached pgstream.Batch.Sender.get_max_batch_bytes
    pgstream.Batch.Sender.max_batch_size_reached pgstream.Batch.add pgstream.Batch.is_position
    pgstream.Prelude.str_eq pgstream.Batch.is_keep_alive pgstream.Batch.Sender.drain_batch
    pgstream.Batch.batch_is_empty
batch_waits_reached =
    then_step
      (then_step
        (then_step (then_step here (send first_message 2 refl))
          (receive [] [] first_message none taken taken [] refl refl refl))
        (send second_message 3 refl))
      (receive [] [] second_message none taken taken (both ∷ []) refl refl refl)

Reach-Accounted_example : Accounted thousandths counter Strings limits batch_waits
Reach-Accounted_example = Reach-Accounted thousandths counter Strings limits batch_waits_reached

release_never_panics_example :
    (q : ℕ) × Step thousandths counter Strings limits batch_waits
      (record batch_waits { queue_bytes = q; queue = []; sent = both ∷ [] })
release_never_panics_example =
    release_never_panics thousandths counter Strings limits both [] batch_waits_reached refl
