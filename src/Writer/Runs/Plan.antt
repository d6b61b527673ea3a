-- ===== src/Writer/Runs/Plan.antt =====
-- pkg/wal/processor/postgres/postgres_batch_writer.go: the runs that a batch is cut into, and the order in
-- which they reach the database.
use pgstream.Prelude.{
  ◌≡◌, inl, inr, refl, sym, ap, ◌∙◌, ◌⊎◌, Bool, true, false, not, ◌&&◌, ◌||◌, Option, none, some,
  List, [], ◌∷◌, ◌++◌, Str, str_eq, str_eq_iff, is_empty, keep, All, All-append, append_assoc,
  append-nil, arith, Bool-cases, Option-cases, if◌then◌else◌,
}
use pgstream.Wal.{Data}
use pgstream.Writer.Message.{
  WalMessage, message_is_empty, message_is_empty-none, message_is_empty-some,
}
use pgstream.Writer.Runs.{
  Failure, Run, no_run, then_, starts_run, append_to_run, clear, flush_run, send_messages,
}

-- What the writer does with a batch, one after the other.
pub data Action : Type 0 where
  flush_of : List WalMessage → Action
  ddl_of : WalMessage → Data → Action

-- The messages that an action is about.
abbrev pub messages_of : List Action → List WalMessage
messages_of [] = []
messages_of (flush_of run ∷ rest) = run ++ messages_of rest
messages_of (ddl_of m d ∷ rest) = m ∷ messages_of rest

-- A DML message for this schema, table and action.
pub record IsFor (schema table action : Str) (m : WalMessage) : Type 0 where
  pub data_of : Data
  pub has_data : m.data_of ≡ some data_of
  pub not_ddl : m.is_ddl ≡ false
  pub same_schema : data_of.schema ≡ schema
  pub same_table : data_of.table ≡ table
  pub same_action : data_of.action ≡ action

-- A run is of one table and action, and a DDL event goes alone.
abbrev pub IsAction : Action → Type 0
IsAction (flush_of run) =
    (is_empty run ≡ false)
    × ((schema : Str) × (table : Str) × (action : Str) × All (IsFor schema table action) run)
IsAction (ddl_of m d) = (m.data_of ≡ some d) × (m.is_ddl ≡ true)

if_true {ℓ} : {A : Type ℓ} (b : Bool) (x y : A) → b ≡ true → (if b then x else y) ≡ x
if_true true x y e = refl
if_true false x y e = absurd (cc)

if_false {ℓ} : {A : Type ℓ} (b : Bool) (x y : A) → b ≡ false → (if b then x else y) ≡ y
if_false true x y e = absurd (cc)
if_false false x y e = refl

elim_some {ℓ κ} :
    {A : Type ℓ} {B : Type κ} (o : Option A) (a : A) (x : B) (f : A → B)
    → o ≡ some a
    → (elim o [ none ↦ x | some a ↦ f a ]) ≡ f a
elim_some none a x f e = absurd (cc)
elim_some (some b) a x f e = let same : b ≡ a = cc in ap f same

then_-same :
    {S : Type 0} (p : S × Option Failure) (f g : S → S × Option Failure)
    → ((s : S) → f s ≡ g s)
    → then_ p f ≡ then_ p g
unfolding then_
then_-same (s, none) f g h = h s
then_-same (s, some e) f g h = refl

module _ {S : Type 0} (flush : List WalMessage → S → S × Option Failure)
    (ddl : Data → S → S × Option Failure) where
  abbrev pub perform : Action → S → S × Option Failure
  perform (flush_of run) = flush run
  perform (ddl_of m d) = ddl d

  -- The actions in order, up to the first that fails.
  abbrev pub execute : List Action → S → S × Option Failure
  execute [] s = (s, none)
  execute (a ∷ rest) s = elim (perform a s).1 [
    | none ↦ execute rest (perform a s).0
    | some e ↦ ((perform a s).0, some e)
  ]

  -- A list of actions for these messages that the loop carries out.
  pub record Carries (run : Run) (messages : List WalMessage) : Type 0 where
    pub actions : List Action
    pub order : messages_of actions ≡ run.current ++ keep (λ m. not (message_is_empty m)) messages
    pub each : All IsAction actions
    pub carried_out : (s : S) → send_messages flush ddl run messages s ≡ execute actions s

  abbrev Homogeneous : Run → Type 0
  Homogeneous run = All (IsFor run.schema run.table run.action) run.current

  run_action : List WalMessage → List Action
  run_action [] = []
  run_action (m ∷ ms) = flush_of (m ∷ ms) ∷ []

  messages_of-run_action :
      (ms : List WalMessage) (rest : List Action)
      → messages_of (run_action ms ++ rest) ≡ ms ++ messages_of rest
  unfolding run_action
  messages_of-run_action [] rest = refl
  messages_of-run_action (m ∷ ms) rest = refl

  run_action-IsAction :
      (schema table action : Str) (ms : List WalMessage)
      → All (IsFor schema table action) ms
      → All IsAction (run_action ms)
  unfolding run_action
  run_action-IsAction schema table action [] h = tt
  run_action-IsAction schema table action (m ∷ ms) h = ((refl, (schema, table, action, h)), tt)

  execute-cons :
      (a : Action) (rest : List Action) (s : S)
      → execute (a ∷ rest) s ≡ then_ (perform a s) (execute rest)
  unfolding then_
  execute-cons a rest s = elim (Option-cases (perform a s).1) [
    | inl e ↦ simp (e, then_, execute)
    | inr (x, e) ↦ simp (e, then_, execute)
  ]

  execute-run_action :
      (ms : List WalMessage) (rest : List Action) (s : S)
      → execute (run_action ms ++ rest) s ≡ then_ (flush_run flush ddl ms s) (execute rest)
  unfolding run_action flush_run then_
  execute-run_action [] rest s = refl
  execute-run_action (m ∷ ms) rest s = execute-cons (flush_of (m ∷ ms)) rest s

  then_-stop : (p : S × Option Failure) → then_ p (execute []) ≡ p
  unfolding then_
  then_-stop (s, none) = refl
  then_-stop (s, some e) = refl

  end_of_batch : (run : Run) → Homogeneous run → Carries run []
  unfolding send_messages
  end_of_batch run h = record {
    actions = run_action run.current ++ [];
    order = messages_of-run_action run.current [];
    each =
        rw (append-nil (run_action run.current))
          (run_action-IsAction run.schema run.table run.action run.current h);
    carried_out = λ s.
        sym (execute-run_action run.current [] s ∙ then_-stop (flush_run flush ddl run.current s));
  }

  Homogeneous-append_to_run :
      (run : Run) (m : WalMessage) (d : Data)
      → Homogeneous run
      → m.data_of ≡ some d
      → m.is_ddl ≡ false
      → (is_empty run.current ≡ true) ⊎ (starts_run run d ≡ false)
      → Homogeneous (append_to_run run m d)
  unfolding append_to_run starts_run
  Homogeneous-append_to_run run m d h e n c = elim (Bool-cases (is_empty run.current)) [
    | inl q ↦ simp q (
      record {
        data_of = d;
        has_data = e;
        not_ddl = n;
        same_schema = refl;
        same_table = refl;
        same_action = refl;
      },
      tt,
    )
    | inr q ↦
        let same : (not (is_empty run.current)
              && (not (str_eq d.schema run.schema)
                  || not (str_eq d.table run.table)
                  || not (str_eq d.action run.action)))
            ≡ false =
          elim c [ inl c' ↦ absurd (cc) | inr c' ↦ c' ] in
        simp q (
          All-append (IsFor run.schema run.table run.action) run.current (m ∷ []) h (
            record {
              data_of = d;
              has_data = e;
              not_ddl = n;
              same_schema = (str_eq_iff d.schema run.schema).0 (ground arith);
              same_table = (str_eq_iff d.table run.table).0 (ground arith);
              same_action = (str_eq_iff d.action run.action).0 (ground arith);
            },
            tt,
          ))
  ]

  current-append_to_run :
      (run : Run) (m : WalMessage) (d : Data)
      → (append_to_run run m d).current ≡ run.current ++ m ∷ []
  unfolding append_to_run
  current-append_to_run run m d = by_run run.current refl
    where
      by_run :
          (ms : List WalMessage)
          → run.current ≡ ms
          → (append_to_run run m d).current ≡ run.current ++ m ∷ []
      by_run [] e = simp e
      by_run (n ∷ ms) e = simp e

  send_messages-some :
      (run : Run) (m : WalMessage) (ms : List WalMessage) (d : Data) (s : S)
      → m.data_of ≡ some d
      → send_messages flush ddl run (m ∷ ms) s ≡ (
          if m.is_ddl
          then then_
              (flush_run flush ddl run.current s)
              (λ s'. then_ (ddl d s') (send_messages flush ddl (clear run) ms))
          else if starts_run run d
          then then_
              (flush_run flush ddl run.current s)
              (send_messages flush ddl (append_to_run (clear run) m d) ms)
          else send_messages flush ddl (append_to_run run m d) ms s)
  unfolding send_messages
  send_messages-some run m ms d s e = elim_some m.data_of d _ _ e

  send_messages-none :
      (run : Run) (m : WalMessage) (ms : List WalMessage) (s : S)
      → m.data_of ≡ none
      → send_messages flush ddl run (m ∷ ms) s ≡ send_messages flush ddl run ms s
  unfolding send_messages
  send_messages-none run m ms s e = rw e

  carries-from : (run : Run) (ms : List WalMessage) → Homogeneous run → Carries run ms
  unfolding clear
  carries-from run [] h = end_of_batch run h
  carries-from run (m ∷ ms) h = elim (Option-cases m.data_of) [
    | inl e ↦
        let r = carries-from run ms h in
        let none_kept = message_is_empty-none m e in
        record {
          actions = r.actions;
          order = r.order ∙ rw none_kept;
          each = r.each;
          carried_out = λ s. send_messages-none run m ms s e ∙ r.carried_out s;
        }
    | inr (d, e) ↦
        let some_kept = message_is_empty-some m d e in
        elim (Bool-cases m.is_ddl) [
          | inl b ↦
              let r = carries-from (clear run) ms tt in
              record {
                actions = run_action run.current ++ ddl_of m d ∷ r.actions;
                order =
                    messages_of-run_action run.current (ddl_of m d ∷ r.actions)
                    ∙ rw (some_kept, r.order);
                each =
                    All-append IsAction (run_action run.current) (ddl_of m d ∷ r.actions)
                      (run_action-IsAction run.schema run.table run.action run.current h)
                      ((e, b), r.each);
                carried_out = λ s.
                    send_messages-some run m ms d s e
                    ∙ if_true m.is_ddl _ _ b
                    ∙ then_-same (flush_run flush ddl run.current s) _ _ (λ s'.
                      then_-same (ddl d s') _ _ r.carried_out
                      ∙ sym (execute-cons (ddl_of m d) r.actions s'))
                    ∙ sym (execute-run_action run.current (ddl_of m d ∷ r.actions) s);
              }
          | inr b ↦ elim (Bool-cases (starts_run run d)) [
            | inl c ↦
                let r =
                  carries-from (append_to_run (clear run) m d) ms
                    (Homogeneous-append_to_run (clear run) m d tt e b (inl refl)) in
                record {
                  actions = run_action run.current ++ r.actions;
                  order =
                      messages_of-run_action run.current r.actions
                      ∙ rw some_kept (
                          ap (λ u. run.current ++ u)
                            (r.order
                              ∙ ap (λ u. u ++ keep (λ n. not (message_is_empty n)) ms)
                                  (current-append_to_run (clear run) m d)));
                  each =
                      All-append IsAction (run_action run.current) r.actions
                        (run_action-IsAction run.schema run.table run.action run.current h) r.each;
                  carried_out = λ s.
                      send_messages-some run m ms d s e
                      ∙ if_false m.is_ddl _ _ b
                      ∙ if_true (starts_run run d) _ _ c
                      ∙ then_-same (flush_run flush ddl run.current s) _ _ r.carried_out
                      ∙ sym (execute-run_action run.current r.actions s);
                }
            | inr c ↦
                let r =
                  carries-from (append_to_run run m d) ms
                    (Homogeneous-append_to_run run m d h e b (inr c)) in
                record {
                  actions = r.actions;
                  order =
                      r.order
                      ∙ rw (some_kept, current-append_to_run run m d)
                          (append_assoc run.current (m ∷ []) _);
                  each = r.each;
                  carried_out = λ s.
                      send_messages-some run m ms d s e
                      ∙ if_false m.is_ddl _ _ b
                      ∙ if_false (starts_run run d) _ _ c
                      ∙ r.carried_out s;
                }
          ]
        ]
  ]

  -- Whatever a run and a DDL event do to the state, sendBatch carries out a list of actions, in order and
  -- up to the first that fails: its messages are the batch's that have data, in order; each flush is of
  -- a run of DML messages for one schema, table and action, and each DDL event is on its own.
  pub send_messages-Carries : (messages : List WalMessage) → Carries no_run messages
  send_messages-Carries messages = carries-from no_run messages tt
