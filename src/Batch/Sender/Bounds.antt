-- ===== src/Batch/Sender/Bounds.antt =====
-- pkg/wal/processor/batch/wal_batch_sender.go: the size of the batches, when the batch bytes are not
-- tuned automatically.
use pgstream.Prelude.{
  ℕ, ◌+◌, ◌≤◌, ◌<◌, ◌≡◌, ◌⊎◌, inl, inr, refl, not, ◌&&◌, ◌||◌, true, none, some, List, [], ◌∷◌,
  ◌++◌, Str, length, length-append, All, All-append, arith, Bool-cases,
}
use pgstream.Math.{Float64}
use pgstream.Batch.{
  Message, WalMessage, Batch, empty_batch, batch_is_empty, drain, add, is_keep_alive,
  max_batch_bytes_reached,
}
use pgstream.Batch.Sender.{
  Handover, taken, send_failed, Loop, start, Limits, Input, cancelled, send_error, tick, message,
  drain_batch, hand_over, append_message, make_room, stop, unless_stopped_cases, handle, step, run,
  get_max_batch_bytes, max_batch_size_reached,
}

module _ {T : Type 0} (i : Message T) (l : Limits) where
  abbrev pub total_size : List T → ℕ
  total_size [] = 0
  total_size (m ∷ ms) = i.size m + total_size ms

  total_size-append : (ms : List T) (m : T) → total_size (ms ++ m ∷ []) ≡ total_size ms + i.size m
  total_size-append [] m = omega arith
  total_size-append (n ∷ ms) m = omega (arith, total_size-append ms m)

  -- The bytes are counted right, and pass the maximum only for a single message.
  pub record Measured (b : Batch T) : Type 0 where
    pub counted : b.total_bytes ≡ total_size b.messages
    pub within : (b.total_bytes < l.max_batch_bytes) ⊎ (length b.messages ≤ 1)

  pub record Fits (b : Batch T) : Type 0 where
    pub measured : Measured b
    pub sized : length b.messages ≤ l.max_batch_size

  record Filling (b : Batch T) : Type 0 where
    measured : Measured b
    room : length b.messages < l.max_batch_size

  record Bounded (s : Loop T) : Type 0 where
    sent : All Fits s.handed
    current : s.stopped ≡ none → Filling s.msg_batch

  Filling-empty : 1 ≤ l.max_batch_size → Filling empty_batch
  Filling-empty h = record {
    measured = record { counted = refl; within = inr (omega arith) };
    room = omega arith;
  }

  hand_over-Bounded :
      (o : Handover) (s : Loop T)
      → 1 ≤ l.max_batch_size
      → All Fits s.handed
      → Fits s.msg_batch
      → Bounded (hand_over o s)
  unfolding hand_over drain
  hand_over-Bounded taken s h1 h f = record {
    sent = All-append Fits s.handed (s.msg_batch ∷ []) h (f, tt);
    current = λ e. Filling-empty h1;
  }
  hand_over-Bounded (send_failed x) s h1 h f = record { sent = h; current = λ e. cc }

  length_of_empty : (b : Batch T) → batch_is_empty b ≡ true → length b.messages ≡ 0
  unfolding batch_is_empty
  length_of_empty b e = ground arith

  drain_batch-Bounded :
      (o : Handover) (s : Loop T)
      → 1 ≤ l.max_batch_size
      → All Fits s.handed
      → Fits s.msg_batch
      → Bounded (drain_batch o s)
  unfolding drain_batch
  drain_batch-Bounded o s h1 h f = elim (Bool-cases (batch_is_empty s.msg_batch)) [
    | inl e ↦
        let zero = length_of_empty s.msg_batch e in
        rw e
          (record { sent = h; current = λ _. record { measured = f.measured; room = omega arith } })
    | inr e ↦ rw e (hand_over-Bounded o s h1 h f)
  ]

  Filling-Fits : (b : Batch T) → Filling b → Fits b
  Filling-Fits b f = let room = f.room in record { measured = f.measured; sized = omega arith }

  abbrev Room : Batch T → T → Type 0
  Room b m =
      (i.empty m ≡ true) ⊎ (b.total_bytes + i.size m < l.max_batch_bytes) ⊎ (length b.messages ≡ 0)

  add-Measured :
      (b : Batch T) (m : WalMessage T) → Measured b → Room b m.message → Measured (add i b m)
  unfolding add
  add-Measured b m h room =
      ground
        (arith, total_size-append b.messages m.message, length-append b.messages (m.message ∷ []))

  length-add :
      (b : Batch T) (m : WalMessage T) → length (add i b m).messages ≤ length b.messages + 1
  unfolding add
  length-add b m = ground (arith, length-append b.messages (m.message ∷ []))

  drain_batch_clears :
      (o : Handover) (s : Loop T) (x : T)
      → (drain_batch o s).stopped ≡ none
      → Room (drain_batch o s).msg_batch x
  unfolding drain_batch hand_over drain batch_is_empty
  drain_batch_clears taken s x e = ground arith
  drain_batch_clears (send_failed y) s x e = ground arith

  module _ (fl : Float64) (h1 : 1 ≤ l.max_batch_size) (h0 : 1 ≤ l.max_batch_bytes) where
    make_room-Bounded :
        (m : WalMessage T) (o : Handover) (s : Loop T)
        → Bounded s
        → s.stopped ≡ none
        → Bounded (make_room fl i l none m o s)
          × ((make_room fl i l none m o s).stopped ≡ none
              → Room (make_room fl i l none m o s).msg_batch m.message)
    unfolding make_room get_max_batch_bytes max_batch_bytes_reached
    make_room-Bounded m o s h r =
        elim (Bool-cases (
          not (i.empty m.message)
          && max_batch_bytes_reached i s.msg_batch (get_max_batch_bytes fl l none) m.message)) [
            | inl e ↦ rw e (
              drain_batch-Bounded o s h1 h.sent (Filling-Fits s.msg_batch (h.current r)),
              drain_batch_clears o s m.message,
            )
            | inr e ↦ rw e (h, λ _. ground arith)
          ]

    append_message-Bounded :
        (m : WalMessage T) (o : Handover) (s : Loop T)
        → Bounded s
        → s.stopped ≡ none
        → Room s.msg_batch m.message
        → Bounded (append_message fl i l none m o s)
    unfolding append_message max_batch_size_reached
    append_message-Bounded m o s h r room =
        let b = add i s.msg_batch m in
        let s' : Loop T = record s { msg_batch = b } in
        let f = h.current r in
        let measured = add-Measured s.msg_batch m f.measured room in
        let longer = length-add s.msg_batch m in
        elim (Bool-cases
          (max_batch_size_reached fl l none (length b.messages) || is_keep_alive i m)) [
            | inl e ↦ rw e (
                drain_batch-Bounded o s' h1 h.sent
                  (record { measured = measured; sized = omega arith }))
            | inr e ↦ rw e (record {
              sent = h.sent;
              current = λ _. record { measured = measured; room = ground arith };
            })
          ]

    stop-Bounded : (x : Str) (s : Loop T) → Bounded s → Bounded (stop x s)
    unfolding stop
    stop-Bounded x s h = record { sent = h.sent; current = λ e. cc }

    -- The batch bytes are not tuned.
    abbrev pub Untuned : Input fl T → Type 0
    Untuned (message (some t) m o o') = ⊥
    Untuned _ = Unit

    handle-Bounded :
        (input : Input fl T) (s : Loop T)
        → Untuned input
        → Bounded s
        → s.stopped ≡ none
        → Bounded (handle fl i l input s)
    unfolding handle
    handle-Bounded (cancelled o e) s u h r =
        let h' = drain_batch-Bounded o s h1 h.sent (Filling-Fits s.msg_batch (h.current r)) in
        unless_stopped_cases Bounded (stop e) (drain_batch o s)
          (λ q. stop-Bounded e (drain_batch o s) h') (λ x q. h')
    handle-Bounded (send_error e) s u h r = stop-Bounded e s h
    handle-Bounded (tick o) s u h r = elim (Bool-cases (batch_is_empty s.msg_batch)) [
      | inl e ↦ rw e h
      | inr e ↦ rw e (drain_batch-Bounded o s h1 h.sent (Filling-Fits s.msg_batch (h.current r)))
    ]
    handle-Bounded (message (some t) m o o') s u h r = absurd u
    handle-Bounded (message none m o o') s u h r =
        let (h', room) = make_room-Bounded m o s h r in
        unless_stopped_cases Bounded (append_message fl i l none m o') (make_room fl i l none m o s)
          (λ q. append_message-Bounded m o' (make_room fl i l none m o s) h' q (room q)) (λ x q. h')

    step-Bounded :
        (s : Loop T) (input : Input fl T)
        → Untuned input
        → Bounded s
        → Bounded (step fl i l s input)
    unfolding step
    step-Bounded s input u h =
        unless_stopped_cases Bounded (handle fl i l input) s (λ q. handle-Bounded input s u h q)
          (λ x q. h)

    run_from-Bounded :
        (s : Loop T) (inputs : List (Input fl T))
        → All Untuned inputs
        → Bounded s
        → Bounded (run fl i l s inputs)
    unfolding run
    run_from-Bounded s [] u h = h
    run_from-Bounded s (input ∷ rest) u h =
        run_from-Bounded (step fl i l s input) rest u.1 (step-Bounded s input u.0 h)

    -- Without auto-tuning, and with positive limits, every batch handed over counts its bytes right, is
    -- below the maximum of bytes or holds a single message, and holds at most the maximum number
    -- of messages.
    pub run-Fits :
        (inputs : List (Input fl T))
        → All Untuned inputs
        → All Fits (run fl i l start inputs).handed
    run-Fits inputs u =
        (run_from-Bounded start inputs u
          (record { sent = tt; current = λ e. Filling-empty h1 })).sent
