-- ===== src/Search/Indexer/Plan.antt =====
-- pkg/wal/processor/search/search_batch_indexer.go: what has been asked of the store when a batch is checkpointed.
use pgstream.Prelude.{
  ◌≡◌, refl, sym, ap, ◌∙◌, inl, inr, Option-cases, Bool, Option, none, some, List, [], ◌∷◌, ◌++◌,
  Str, map, append-nil,
}
use pgstream.Wal.Diff.{SchemaDiff}
use pgstream.Search.{Document, Msg, keep_alive, write, truncate, schema_diff}
use pgstream.Search.Indexer.{
  Store, Stop, store_failed, empty_message, diff_failed, flush_writes, apply_diff, diffed,
  truncated, next, send_messages, BatchEnd, checkpointed, checkpoint_failed, checkpoint, ended,
}

-- A call of the store, and what a call or a message is to do: a document, a schema change or a truncation.
pub data Op : Type 0 where
  sends : List Document → Op
  applies : SchemaDiff → Op
  clears : Str → Str → Op

pub data Effect : Type 0 where
  stores : Document → Effect
  changes : SchemaDiff → Effect
  empties : Str → Str → Effect
  nothing : Effect

abbrev effects_of_op : Op → List Effect
effects_of_op (sends docs) = map stores docs
effects_of_op (applies diff) = changes diff ∷ []
effects_of_op (clears schema table) = empties schema table ∷ []

abbrev pub effects : List Op → List Effect
effects [] = []
effects (op ∷ ops) = effects_of_op op ++ effects ops

abbrev pub effect : Msg → Effect
effect keep_alive = nothing
effect (write doc size) = stores doc
effect (truncate schema table) = empties schema table
effect (schema_diff diff) = changes diff

module _ (store : Store) (skip_schema : Str → Bool) where
  open store use {State, send_documents, apply_schema_diff, delete_schema, delete_table_documents}

  -- A call of the store by the indexer.
  unfoldable pub run_op : Op → State → State × Option Stop
  run_op (sends docs) s = flush_writes store skip_schema docs s
  run_op (applies diff) s = diffed store skip_schema (apply_diff store skip_schema diff s)
  run_op (clears schema table) s =
      truncated store skip_schema (delete_table_documents s schema table)

  -- The calls have run one after the other, none has stopped the batch, and they have left this state.
  abbrev pub Ran : List Op → State → State → Type 0
  Ran [] s t = t ≡ s
  Ran (op ∷ ops) s t = ((run_op op s).1 ≡ none) × Ran ops (run_op op s).0 t

  goes_on :
      (r : State × Option Stop) (f : State → State × Option Stop)
      → (next store skip_schema r f).1 ≡ none
      → (r.1 ≡ none) × (next store skip_schema r f ≡ f r.0)
  unfolding next
  goes_on (s, none) f h = (refl, refl)
  goes_on (s, some e) f h = absurd (cc)

  -- Calls that have had these effects, and led from the one state to the other.
  pub record Did (es : List Effect) (s t : State) : Type 0 where
    pub ops : List Op
    pub ran : Ran ops s t
    pub did : effects ops ≡ es

  flush-Did :
      (docs : List Document) (s : State)
      → (flush_writes store skip_schema docs s).1 ≡ none
      → Did (map stores docs) s (flush_writes store skip_schema docs s).0
  unfolding run_op
  flush-Did docs s h = record {
    ops = sends docs ∷ [];
    ran = (h, refl);
    did = append-nil (map stores docs);
  }

  flushed-Did :
      (docs : List Document) (op : Op) (s : State) (es : List Effect)
      (f : State → State × Option Stop)
      → (next store skip_schema
          (flush_writes store skip_schema docs s)
          (λ t. next store skip_schema (run_op op t) f)).1
        ≡ none
      → ((t : State) → (f t).1 ≡ none → Did es t (f t).0)
      → Did
          (map stores docs ++ (effects_of_op op ++ es))
          s
          (next store skip_schema
            (flush_writes store skip_schema docs s)
            (λ t. next store skip_schema (run_op op t) f)).0
  unfolding run_op
  flushed-Did docs op s es f h rest =
      let after = (flush_writes store skip_schema docs s).0 in
      let (flushed, first) =
        goes_on (flush_writes store skip_schema docs s)
          (λ t. next store skip_schema (run_op op t) f) h in
      let h1 = ap (λ r. r.1) (sym first) ∙ h in
      let (run, second) = goes_on (run_op op after) f h1 in
      let h2 = ap (λ r. r.1) (sym second) ∙ h1 in
      let d = rest (run_op op after).0 h2 in
      rw (first ∙ second) (record {
        ops = sends docs ∷ op ∷ d.ops;
        ran = (flushed, (run, d.ran));
        did = ap (λ l. map stores docs ++ (effects_of_op op ++ l)) d.did;
      })

  map-append-one :
      (docs : List Document) (doc : Document) (es : List Effect)
      → map stores (docs ++ doc ∷ []) ++ es ≡ map stores docs ++ (stores doc ∷ es)
  map-append-one [] doc es = refl
  map-append-one (d ∷ docs) doc es = ap (λ l. stores d ∷ l) (map-append-one docs doc es)

  pub messages-Did :
      (writes : List Document) (ms : List Msg) (s : State)
      → (send_messages store skip_schema writes ms s).1 ≡ none
      → Did (map stores writes ++ map effect ms) s (send_messages store skip_schema writes ms s).0
  unfolding send_messages run_op
  messages-Did writes [] s h = rw (append-nil (map stores writes)) (flush-Did writes s h)
  messages-Did writes (write doc size ∷ ms) s h =
      let rest = messages-Did (writes ++ doc ∷ []) ms s h in
      rw (map-append-one writes doc (map effect ms)) at rest
  messages-Did writes (schema_diff diff ∷ ms) s h =
      flushed-Did writes (applies diff) s (map effect ms) (send_messages store skip_schema [] ms) h
        (λ t k. messages-Did [] ms t k)
  messages-Did writes (truncate schema table ∷ ms) s h =
      flushed-Did writes (clears schema table) s (map effect ms)
        (send_messages store skip_schema [] ms) h (λ t k. messages-Did [] ms t k)
  messages-Did writes (keep_alive ∷ ms) s h = absurd (cc)

  pub checkpointed_only :
      (c : Option (List Str → Option Str)) (positions p : List Str) (r : State × Option Stop)
      → (ended store skip_schema c positions r).1 ≡ checkpointed p
      → (p ≡ positions) × (r.1 ≡ none) × ((ended store skip_schema c positions r).0 ≡ r.0)
  unfolding ended checkpoint
  checkpointed_only none positions p (s, none) h = absurd (cc)
  checkpointed_only (some c) positions p (s, none) h = elim (Option-cases (c positions)) [
    | inl e ↦
        let same : ◌≡◌ {A = BatchEnd store skip_schema} (checkpointed positions) (checkpointed p) =
          (rw (e, checkpoint) at h) in
        (cc, refl, refl)
    | inr (x, e) ↦
        let bad : ◌≡◌ {A = BatchEnd store skip_schema} (checkpoint_failed x) (checkpointed p) =
          (rw (e, checkpoint) at h) in
        absurd (cc)
  ]
  checkpointed_only c positions p (s, some diff_failed) h = absurd (cc)
  checkpointed_only c positions p (s, some (store_failed e)) h = absurd (cc)
  checkpointed_only c positions p (s, some empty_message) h = absurd (cc)
