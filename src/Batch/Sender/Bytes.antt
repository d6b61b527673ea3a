-- ===== src/Batch/Sender/Bytes.antt =====
-- The bytes that pkg/wal/processor/batch/wal_batch_sender.go's loop holds and hands over.
use pgstream.Prelude.{
  ℕ, ◌+◌, ◌≤◌, ◌≡◌, refl, not, ◌&&◌, ◌||◌, inl, inr, Option, none, List, [], ◌∷◌, ◌++◌, Str, length,
  arith, Bool-cases,
}
use pgstream.Math.{Float64}
use pgstream.Batch.{
  Message, WalMessage, Batch, batch_is_empty, drain, add, is_keep_alive, max_batch_bytes_reached,
}
use pgstream.Batch.Tuner.{Tuner}
use pgstream.Batch.Sender.{
  Handover, taken, send_failed, Loop, Limits, Input, cancelled, send_error, tick, message,
  drain_batch, hand_over, append_message, make_room, stop, unless_stopped_cases, handle, step,
  get_max_batch_bytes, max_batch_size_reached, taken_from,
}

module _ {T : Type 0} where
  abbrev pub batch_bytes : List (Batch T) → ℕ
  batch_bytes [] = 0
  batch_bytes (b ∷ bs) = b.total_bytes + batch_bytes bs

  pub batch_bytes-append :
      (bs cs : List (Batch T)) → batch_bytes (bs ++ cs) ≡ batch_bytes bs + batch_bytes cs
  batch_bytes-append [] cs = omega arith
  batch_bytes-append (b ∷ bs) cs = omega (arith, batch_bytes-append bs cs)

  -- The bytes that a loop has handed over or still gathers.
  abbrev pub loop_bytes : Loop T → ℕ
  loop_bytes s = batch_bytes s.handed + s.msg_batch.total_bytes

  -- From `s` to `u` at most `n` bytes came in, and exactly `n` while the loop runs on.
  pub record Gains (n : ℕ) (s u : Loop T) : Type 0 where
    pub no_more : loop_bytes u ≤ loop_bytes s + n
    pub exact : u.stopped ≡ none → loop_bytes u ≡ loop_bytes s + n

  drain_batch-Gains : (o : Handover) (s : Loop T) → Gains 0 s (drain_batch o s)
  unfolding drain_batch hand_over drain
  drain_batch-Gains taken s = elim (Bool-cases (batch_is_empty s.msg_batch)) [
    | inl e ↦ rw e (record { no_more = omega arith; exact = λ _. omega arith })
    | inr e ↦ rw e (record {
      no_more = omega (arith, batch_bytes-append s.handed (s.msg_batch ∷ []));
      exact = λ _. omega (arith, batch_bytes-append s.handed (s.msg_batch ∷ []));
    })
  ]
  drain_batch-Gains (send_failed x) s = elim (Bool-cases (batch_is_empty s.msg_batch)) [
    | inl e ↦ rw e (record { no_more = omega arith; exact = λ _. omega arith })
    | inr e ↦ rw e (record { no_more = omega arith; exact = λ q. absurd (cc) })
  ]

module _ {T : Type 0} (i : Message T) where
  abbrev pub message_bytes : List (WalMessage T) → ℕ
  message_bytes [] = 0
  message_bytes (m ∷ ms) = i.size m.message + message_bytes ms

  add-Gains :
      (s : Loop T) (m : WalMessage T)
      → Gains (i.size m.message) s (record s { msg_batch = add i s.msg_batch m })
  unfolding add
  add-Gains s m = record {
    no_more = ground (arith, i.size_of_empty m.message);
    exact = λ _. ground (arith, i.size_of_empty m.message);
  }

  Gains-trans :
      (n k p : ℕ) (s t u : Loop T)
      → t.stopped ≡ none
      → n + k ≡ p
      → Gains n s t
      → Gains k t u
      → Gains p s u
  Gains-trans n k p s t u r sum g h =
      let e = g.exact r in
      let le = h.no_more in
      record { no_more = omega arith; exact = λ q. let e' = h.exact q in omega arith }

  -- A loop that has stopped loses what it took.
  Gains-stopped :
      (n k : ℕ) (s u : Loop T) (x : Str)
      → u.stopped ≡ Option.some x
      → n ≤ k
      → Gains n s u
      → Gains k s u
  Gains-stopped n k s u x r h g =
      let le = g.no_more in record { no_more = omega arith; exact = λ q. absurd (cc) }

  stop-Gains : (n : ℕ) (x : Str) (s u : Loop T) → Gains n s u → Gains n s (stop x u)
  unfolding stop
  stop-Gains n x s u g = record { no_more = g.no_more; exact = λ q. absurd (cc) }

  Gains-self : (s : Loop T) → Gains 0 s s
  Gains-self s = record { no_more = omega arith; exact = λ _. omega arith }

  module _ (fl : Float64) (l : Limits) where
    append_message-Gains :
        (t : Option (Tuner fl)) (m : WalMessage T) (o : Handover) (s : Loop T)
        → s.stopped ≡ none
        → Gains (i.size m.message) s (append_message fl i l t m o s)
    unfolding append_message
    append_message-Gains t m o s r =
        let s' : Loop T = record s { msg_batch = add i s.msg_batch m } in
        elim (Bool-cases
          (max_batch_size_reached fl l t (length s'.msg_batch.messages) || is_keep_alive i m)) [
            | inl e ↦ rw e (
                Gains-trans _ 0 _ s s' (drain_batch o s') r (omega arith) (add-Gains s m)
                  (drain_batch-Gains o s'))
            | inr e ↦ rw e (add-Gains s m)
          ]

    make_room-Gains :
        (t : Option (Tuner fl)) (m : WalMessage T) (o : Handover) (s : Loop T)
        → Gains 0 s (make_room fl i l t m o s)
    unfolding make_room
    make_room-Gains t m o s =
        elim (Bool-cases (
          not (i.empty m.message)
          && max_batch_bytes_reached i s.msg_batch (get_max_batch_bytes fl l t) m.message)) [
            | inl e ↦ rw e (drain_batch-Gains o s)
            | inr e ↦ rw e (Gains-self s)
          ]

    handle-Gains :
        (input : Input fl T) (s : Loop T)
        → s.stopped ≡ none
        → Gains (message_bytes (taken_from fl i l none input)) s (handle fl i l input s)
    unfolding handle taken_from
    handle-Gains (cancelled o e) s r =
        unless_stopped_cases (Gains 0 s) (stop e) (drain_batch o s)
          (λ q. stop-Gains 0 e s (drain_batch o s) (drain_batch-Gains o s))
          (λ x q. drain_batch-Gains o s)
    handle-Gains (send_error e) s r = stop-Gains 0 e s s (Gains-self s)
    handle-Gains (tick o) s r = elim (Bool-cases (batch_is_empty s.msg_batch)) [
      | inl e ↦ rw e (Gains-self s)
      | inr e ↦ rw e (drain_batch-Gains o s)
    ]
    handle-Gains (message t m o o') s r =
        let s' = make_room fl i l t m o s in
        unless_stopped_cases (Gains (i.size m.message + 0) s) (append_message fl i l t m o') s'
          (λ q.
            Gains-trans 0 _ _ s s' (append_message fl i l t m o' s') q (omega arith)
              (make_room-Gains t m o s) (append_message-Gains t m o' s' q))
          (λ x q. Gains-stopped 0 _ s s' x q (omega arith) (make_room-Gains t m o s))

    -- A round of a running loop gains the bytes of the message that it takes.
    pub step-Gains :
        (s : Loop T) (input : Input fl T)
        → s.stopped ≡ none
        → Gains (message_bytes (taken_from fl i l none input)) s (step fl i l s input)
    unfolding step
    step-Gains s input r =
        unless_stopped_cases (Gains (message_bytes (taken_from fl i l none input)) s)
          (handle fl i l input) s (λ q. handle-Gains input s q) (λ x q. absurd (cc))

    pub step_stopped :
        (s : Loop T) (input : Input fl T) (x : Str)
        → s.stopped ≡ Option.some x
        → step fl i l s input ≡ s
    unfolding step
    step_stopped s input x r =
        unless_stopped_cases (λ u. u ≡ s) (handle fl i l input) s (λ q. absurd (cc)) (λ y q. refl)
