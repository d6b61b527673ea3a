-- ===== src/Batch/System/Memory.antt =====
-- The queue semaphore of pkg/wal/processor/batch/wal_batch_sender.go bounds the bytes in flight.
use pgstream.Prelude.{
  ℕ, ◌+◌, ◌≤◌, ◌≡◌, refl, ap, inl, inr, Option, none, some, List, [], ◌∷◌, ◌++◌, arith,
  Option-cases,
}
use pgstream.Math.{Float64}
use pgstream.Batch.{Message, WalMessage, Batch}
use pgstream.Batch.Tuner.{Tuner}
use pgstream.Batch.Sender.{
  Handover, Loop, Limits, Input, cancelled, send_error, tick, message, step, taken_from,
}
use pgstream.Batch.Sender.Bytes.{
  batch_bytes, batch_bytes-append, message_bytes, step-Gains, step_stopped,
}
use pgstream.Batch.System.{
  Semaphore, System, init, NotMessage, Step, send, refuse, receive, turn, write, Reach, here,
  then_step,
}

module _ (fl : Float64) (sem : Semaphore) {T : Type 0} (i : Message T) (l : Limits) where
  open sem use {held, size}

  -- The bytes of the messages that wait for the loop, in its batch, or in batches not yet written.
  abbrev pub in_flight : System fl sem i l → ℕ
  in_flight s = message_bytes i s.blocked + s.loop.msg_batch.total_bytes + batch_bytes s.queue

  pub record Accounted (s : System fl sem i l) : Type 0 where
    pub covered : in_flight s ≤ held s.queue_bytes
    pub limited : held s.queue_bytes ≤ size
    pub exact : s.loop.stopped ≡ none → held s.queue_bytes ≡ in_flight s

  message_bytes-append :
      (ms ns : List (WalMessage T))
      → message_bytes i (ms ++ ns) ≡ message_bytes i ms + message_bytes i ns
  message_bytes-append [] ns = omega arith
  message_bytes-append (m ∷ ms) ns = omega (arith, message_bytes-append ms ns)

  send-Accounted :
      (s : System fl sem i l) (m : WalMessage T) (q : sem.State)
      → sem.acquire s.queue_bytes (i.size m.message) ≡ some q
      → Accounted s
      → Accounted (record s { queue_bytes = q; blocked = s.blocked ++ m ∷ [] })
  send-Accounted s m q e h =
      let (sum, fits) = sem.held-acquire s.queue_bytes q (i.size m.message) e in
      let c = h.covered in
      let more = message_bytes-append s.blocked (m ∷ []) in
      record {
        covered = omega arith;
        limited = fits;
        exact = λ r. let x = h.exact r in omega arith;
      }

  -- A running loop that takes `n` bytes out of the blocked messages keeps the account.
  loop-Accounted :
      (s : System fl sem i l) (input : Input fl T) (blocked : List (WalMessage T))
      (handed : List (Batch T))
      → s.loop.stopped ≡ none
      → message_bytes i s.blocked
        ≡ message_bytes i blocked + message_bytes i (taken_from fl i l none input)
      → (step fl i l s.loop input).handed ≡ s.loop.handed ++ handed
      → Accounted s
      → Accounted (record s {
        loop = step fl i l s.loop input;
        blocked = blocked;
        queue = s.queue ++ handed;
      })
  loop-Accounted s input blocked handed r moved e h =
      let g = step-Gains i fl l s.loop input r in
      let le = g.no_more in
      let whole = h.exact r in
      let queued = batch_bytes-append s.queue handed in
      let sum = batch_bytes-append s.loop.handed handed in
      let out = ap batch_bytes e in
      let fits = h.limited in
      record {
        covered = omega arith;
        limited = fits;
        exact = λ q. let x = g.exact q in omega arith;
      }

  none_taken :
      (input : Input fl T) → NotMessage fl sem i l input → taken_from fl i l none input ≡ []
  unfolding taken_from
  none_taken (cancelled o e) n = refl
  none_taken (send_error e) n = refl
  none_taken (tick o) n = refl
  none_taken (message t m o o') n = absurd n

  one_taken :
      (t : Option (Tuner fl)) (m : WalMessage T) (o o' : Handover)
      → taken_from fl i l none (message t m o o') ≡ m ∷ []
  unfolding taken_from
  one_taken t m o o' = refl

  turn-Accounted :
      (s : System fl sem i l) (input : Input fl T) (handed : List (Batch T))
      → NotMessage fl sem i l input
      → (step fl i l s.loop input).handed ≡ s.loop.handed ++ handed
      → Accounted s
      → Accounted (record s { loop = step fl i l s.loop input; queue = s.queue ++ handed })
  turn-Accounted s input handed n e h = elim (Option-cases s.loop.stopped) [
    | inl r ↦ loop-Accounted s input s.blocked handed r (rw (none_taken input n) (omega arith)) e h
    | inr (x, r) ↦
        let same = step_stopped i fl l s.loop input x r in
        let out = ap batch_bytes e in
        let out' = ap (λ (u : Loop T). batch_bytes u.handed) same in
        let left = ap (λ (u : Loop T). u.msg_batch.total_bytes) same in
        let sum = batch_bytes-append s.loop.handed handed in
        let queued = batch_bytes-append s.queue handed in
        let c = h.covered in
        let fits = h.limited in
        record {
          covered = omega arith;
          limited = fits;
          exact = λ q. absurd (cc (ap (λ (u : Loop T). u.stopped) same));
        }
  ]

  Step-Accounted : {s t : System fl sem i l} → Step fl sem i l s t → Accounted s → Accounted t
  Step-Accounted {s} (send m q e) h = send-Accounted s m q e h
  Step-Accounted {s} (refuse before after m e r) h =
      let c = h.covered in
      let before_after = message_bytes-append before after in
      let all = message_bytes-append before (m ∷ after) in
      let same = ap (message_bytes i) e in
      record { covered = omega arith; limited = h.limited; exact = λ q. absurd (r q) }
  Step-Accounted {s} (receive before after m t o o' handed e r out) h =
      let same = ap (message_bytes i) e in
      let before_after = message_bytes-append before after in
      let all = message_bytes-append before (m ∷ after) in
      loop-Accounted s (message t m o o') (before ++ after) handed r
        (rw (one_taken t m o o') (omega arith)) out h
  Step-Accounted {s} (turn input handed n out) h = turn-Accounted s input handed n out h
  Step-Accounted {s} (write b rest q e freed) h =
      let back = sem.held-release s.queue_bytes q b.total_bytes freed in
      let same = ap batch_bytes e in
      let c = h.covered in
      let fits = h.limited in
      record {
        covered = omega arith;
        limited = omega arith;
        exact = λ r. let x = h.exact r in omega arith;
      }

  init-Accounted : Accounted (init fl sem i l)
  init-Accounted =
      let none_held = sem.held-new in
      record { covered = omega arith; limited = omega arith; exact = λ r. omega arith }

  -- However senders, loop and writer interleave, the bytes in flight stay within the size of the
  -- queue semaphore, and while the loop runs the semaphore holds exactly the bytes in flight.
  pub Reach-Accounted : {s : System fl sem i l} → Reach fl sem i l s → Accounted s
  Reach-Accounted here = init-Accounted
  Reach-Accounted (then_step r st) = Step-Accounted st (Reach-Accounted r)

  -- So the writer's release of a batch never panics: in a reachable state with a batch to write there
  -- is a step that writes it.
  pub release_never_panics :
      {s : System fl sem i l} (b : Batch T) (rest : List (Batch T))
      → Reach fl sem i l s
      → s.queue ≡ b ∷ rest
      → (q : sem.State) × Step fl sem i l s
          (record s { queue_bytes = q; queue = rest; sent = s.sent ++ b ∷ [] })
  release_never_panics {s} b rest r e =
      let c = (Reach-Accounted r).covered in
      let same = ap batch_bytes e in
      let (q, freed) = sem.release_total s.queue_bytes b.total_bytes (omega arith) in
      (q, write b rest q e freed)
