-- ===== src/Batch/Sender/Order.antt =====
-- pkg/wal/processor/batch/wal_batch_sender.go: no message is lost, doubled or reordered on the way
-- into the batches, and no position overtakes a message.
use pgstream.Prelude.{
  ◌≡◌, inl, inr, refl, sym, ap, ◌∙◌, not, ◌&&◌, ◌||◌, Option, none, some, List, [], ◌∷◌, ◌++◌, Str,
  length, append_assoc, append-nil, arith, Bool-cases, Option-cases, if◌then◌else◌,
}
use pgstream.Math.{Float64}
use pgstream.Batch.{
  Message, WalMessage, Batch, batch_is_empty, drain, add, is_position, is_keep_alive,
  max_batch_bytes_reached,
}
use pgstream.Batch.Tuner.{Tuner}
use pgstream.Batch.Sender.{
  Handover, taken, send_failed, Loop, start, Limits, Input, cancelled, send_error, tick, message,
  drain_batch, hand_over, append_message, make_room, stop, unless_stopped, unless_stopped_cases,
  handle, step, run, taken_from, received, get_max_batch_bytes, max_batch_size_reached,
}

module _ {T : Type 0} where
  -- What a list of batches holds, in the order in which they go out.
  abbrev pub messages_of : List (Batch T) → List T
  messages_of [] = []
  messages_of (b ∷ bs) = b.messages ++ messages_of bs

  abbrev pub positions_of : List (Batch T) → List Str
  positions_of [] = []
  positions_of (b ∷ bs) = b.positions ++ positions_of bs

  messages_of-append :
      (bs : List (Batch T)) (b : Batch T)
      → messages_of (bs ++ b ∷ []) ≡ messages_of bs ++ b.messages
  messages_of-append [] b = append-nil b.messages
  messages_of-append (c ∷ bs) b =
      ap (λ x. c.messages ++ x) (messages_of-append bs b) ∙ sym (append_assoc c.messages _ _)

  positions_of-append :
      (bs : List (Batch T)) (b : Batch T)
      → positions_of (bs ++ b ∷ []) ≡ positions_of bs ++ b.positions
  positions_of-append [] b = append-nil b.positions
  positions_of-append (c ∷ bs) b =
      ap (λ x. c.positions ++ x) (positions_of-append bs b) ∙ sym (append_assoc c.positions _ _)

module _ {T : Type 0} (i : Message T) where
  -- What a list of received messages asks to be sent and to be checkpointed.
  abbrev pub contents : List (WalMessage T) → List T
  contents [] = []
  contents (m ∷ ms) = if i.empty m.message then contents ms else m.message ∷ contents ms

  abbrev pub commits : List (WalMessage T) → List Str
  commits [] = []
  commits (m ∷ ms) = if is_position m.position then m.position ∷ commits ms else commits ms

  contents-append : (ms ns : List (WalMessage T)) → contents (ms ++ ns) ≡ contents ms ++ contents ns
  contents-append [] ns = refl
  contents-append (m ∷ ms) ns = ground (arith, contents-append ms ns)

  commits-append : (ms ns : List (WalMessage T)) → commits (ms ++ ns) ≡ commits ms ++ commits ns
  commits-append [] ns = refl
  commits-append (m ∷ ms) ns = ground (arith, commits-append ms ns)

  -- The batches handed over hold exactly what a first part `sent` of the messages asks for, and
  -- while the loop runs the batch under construction holds the rest.
  pub record Aligned (s : Loop T) (ms : List (WalMessage T)) : Type 0 where
    pub sent : List (WalMessage T)
    pub pending : List (WalMessage T)
    pub split : ms ≡ sent ++ pending
    pub sent_messages : messages_of s.handed ≡ contents sent
    pub sent_positions : positions_of s.handed ≡ commits sent
    pub held_messages : s.stopped ≡ none → s.msg_batch.messages ≡ contents pending
    pub held_positions : s.stopped ≡ none → s.msg_batch.positions ≡ commits pending

  Aligned-start : Aligned start []
  Aligned-start = record {
    sent = [];
    pending = [];
    split = refl;
    sent_messages = refl;
    sent_positions = refl;
    held_messages = λ e. refl;
    held_positions = λ e. refl;
  }

  hand_over-Aligned :
      (o : Handover) (s : Loop T) (ms : List (WalMessage T))
      → s.stopped ≡ none
      → Aligned s ms
      → Aligned (hand_over o s) ms
  unfolding hand_over drain
  hand_over-Aligned taken s ms r h = record {
    sent = ms;
    pending = [];
    split = sym (append-nil ms);
    sent_messages =
        messages_of-append s.handed s.msg_batch
        ∙ cc (h.sent_messages, h.held_messages r, h.split, contents-append h.sent h.pending);
    sent_positions =
        positions_of-append s.handed s.msg_batch
        ∙ cc (h.sent_positions, h.held_positions r, h.split, commits-append h.sent h.pending);
    held_messages = λ e. refl;
    held_positions = λ e. refl;
  }
  hand_over-Aligned (send_failed x) s ms r h = record {
    sent = h.sent;
    pending = h.pending;
    split = h.split;
    sent_messages = h.sent_messages;
    sent_positions = h.sent_positions;
    held_messages = λ e. cc;
    held_positions = λ e. cc;
  }

  drain_batch-Aligned :
      (o : Handover) (s : Loop T) (ms : List (WalMessage T))
      → s.stopped ≡ none
      → Aligned s ms
      → Aligned (drain_batch o s) ms
  unfolding drain_batch
  drain_batch-Aligned o s ms r h = elim (Bool-cases (batch_is_empty s.msg_batch)) [
    | inl e ↦ rw e h
    | inr e ↦ rw e (hand_over-Aligned o s ms r h)
  ]

  -- A message joins what is pending.
  add-Aligned :
      (s : Loop T) (m : WalMessage T) (ms : List (WalMessage T))
      → s.stopped ≡ none
      → Aligned s ms
      → Aligned (record s { msg_batch = add i s.msg_batch m }) (ms ++ m ∷ [])
  unfolding add
  add-Aligned s m ms r h = record {
    sent = h.sent;
    pending = h.pending ++ m ∷ [];
    split = rw (h.split, append_assoc);
    sent_messages = h.sent_messages;
    sent_positions = h.sent_positions;
    held_messages = λ e. ground (
      arith,
      h.held_messages r,
      contents-append h.pending (m ∷ []),
      append-nil (contents h.pending),
    );
    held_positions = λ e. ground (
      arith,
      h.held_positions r,
      commits-append h.pending (m ∷ []),
      append-nil (commits h.pending),
    );
  }

  -- A stopped loop may have taken one more message.
  stopped-Aligned :
      (s : Loop T) (m : WalMessage T) (ms : List (WalMessage T)) (x : Str)
      → s.stopped ≡ some x
      → Aligned s ms
      → Aligned s (ms ++ m ∷ [])
  stopped-Aligned s m ms x r h = record {
    sent = h.sent;
    pending = h.pending ++ m ∷ [];
    split = rw (h.split, append_assoc);
    sent_messages = h.sent_messages;
    sent_positions = h.sent_positions;
    held_messages = λ e. cc;
    held_positions = λ e. cc;
  }

  stop-Aligned :
      (x : Str) (s : Loop T) (ms : List (WalMessage T)) → Aligned s ms → Aligned (stop x s) ms
  unfolding stop
  stop-Aligned x s ms h = record {
    sent = h.sent;
    pending = h.pending;
    split = h.split;
    sent_messages = h.sent_messages;
    sent_positions = h.sent_positions;
    held_messages = λ e. cc;
    held_positions = λ e. cc;
  }

  module _ (fl : Float64) (l : Limits) where
    append_message-Aligned :
        (t : Option (Tuner fl)) (m : WalMessage T) (o : Handover) (s : Loop T)
        (ms : List (WalMessage T))
        → s.stopped ≡ none
        → Aligned s ms
        → Aligned (append_message fl i l t m o s) (ms ++ m ∷ [])
    unfolding append_message
    append_message-Aligned t m o s ms r h =
        let s' : Loop T = record s { msg_batch = add i s.msg_batch m } in
        let h' = add-Aligned s m ms r h in
        elim (Bool-cases
          (max_batch_size_reached fl l t (length s'.msg_batch.messages) || is_keep_alive i m)) [
            | inl e ↦ rw e (drain_batch-Aligned o s' (ms ++ m ∷ []) r h')
            | inr e ↦ rw e h'
          ]

    make_room-Aligned :
        (t : Option (Tuner fl)) (m : WalMessage T) (o : Handover) (s : Loop T)
        (ms : List (WalMessage T))
        → s.stopped ≡ none
        → Aligned s ms
        → Aligned (make_room fl i l t m o s) ms
    unfolding make_room
    make_room-Aligned t m o s ms r h =
        elim (Bool-cases (
          not (i.empty m.message)
          && max_batch_bytes_reached i s.msg_batch (get_max_batch_bytes fl l t) m.message)) [
            | inl e ↦ rw e (drain_batch-Aligned o s ms r h)
            | inr e ↦ rw e h
          ]

    handle-Aligned :
        (input : Input fl T) (s : Loop T) (ms : List (WalMessage T))
        → s.stopped ≡ none
        → Aligned s ms
        → Aligned (handle fl i l input s) (ms ++ taken_from fl i l none input)
    unfolding handle taken_from
    handle-Aligned (cancelled o e) s ms r h =
        let s' = drain_batch o s in
        let h' = drain_batch-Aligned o s ms r h in
        rw (append-nil ms) (
          unless_stopped_cases (λ u. Aligned u ms) (stop e) s' (λ q. stop-Aligned e s' ms h')
            (λ x q. h'))
    handle-Aligned (send_error e) s ms r h = rw (append-nil ms) (stop-Aligned e s ms h)
    handle-Aligned (tick o) s ms r h =
        rw (append-nil ms) (elim (Bool-cases (batch_is_empty s.msg_batch)) [
          | inl e ↦ rw e h
          | inr e ↦ rw e (drain_batch-Aligned o s ms r h)
        ])
    handle-Aligned (message t m o o') s ms r h =
        let s' = make_room fl i l t m o s in
        let h' = make_room-Aligned t m o s ms r h in
        unless_stopped_cases (λ u. Aligned u (ms ++ m ∷ [])) (append_message fl i l t m o') s'
          (λ q. append_message-Aligned t m o' s' ms q h') (λ x q. stopped-Aligned s' m ms x q h')

    step-Aligned :
        (s : Loop T) (input : Input fl T) (ms : List (WalMessage T))
        → Aligned s ms
        → Aligned (step fl i l s input) (ms ++ taken_from fl i l s.stopped input)
    unfolding step unless_stopped taken_from
    step-Aligned s input ms h = elim (Option-cases s.stopped) [
      | inl q ↦ simp (q, unless_stopped) (handle-Aligned input s ms q h)
      | inr (x, q) ↦ simp (q, unless_stopped, append-nil, taken_from) h
    ]

    run_from-Aligned :
        (s : Loop T) (inputs : List (Input fl T)) (ms : List (WalMessage T))
        → Aligned s ms
        → Aligned (run fl i l s inputs) (ms ++ received fl i l s inputs)
    unfolding run received
    run_from-Aligned s [] ms h = rw (append-nil ms) h
    run_from-Aligned s (input ∷ rest) ms h =
        rw (← append_assoc)
          (run_from-Aligned (step fl i l s input) rest _ (step-Aligned s input ms h))

    -- Whatever the loop is given, the batches that it has handed over hold the messages and the commit
    -- positions of a first part of the received messages, in order, and while it runs the batch
    -- under construction holds those of the rest: nothing is lost, doubled or reordered, and no
    -- position goes out before a message received ahead of it.
    pub run-Aligned :
        (inputs : List (Input fl T))
        → Aligned (run fl i l start inputs) (received fl i l start inputs)
    run-Aligned inputs = run_from-Aligned start inputs [] Aligned-start
