-- ===== src/Search/Indexer/Calls.antt =====
-- pkg/wal/processor/search/search_batch_indexer.go: what the store has answered when a batch is checkpointed.
use pgstream.Prelude.{
  if◌then◌else◌, true, false, ◌⊎◌, ◌≡◌, refl, sym, ap, inl, inr, Bool, Option, none, some, List, [],
  ◌∷◌, Str, map,
}
use pgstream.Wal.Diff.{SchemaDiff}
use pgstream.Search.{Msg}
use pgstream.Search.Indexer.{
  Store, StoreError, canceled, invalid_query, store_error, sent, flush_writes, apply_diff, diffed,
  truncated, send_messages, checkpointed, send_batch,
}
use pgstream.Search.Indexer.Plan.{
  Op, sends, applies, clears, effects, effect, run_op, Ran, messages-Did, checkpointed_only,
}

module _ (store : Store) (skip_schema : Str → Bool) where
  open store use {State, send_documents, apply_schema_diff, delete_schema, delete_table_documents}

  -- What the store has answered to an operation: no error, or ErrInvalidQuery to documents. No documents and a
  -- schema that is skipped need no call.
  abbrev pub Called : Op → State → State → Type 0
  Called (sends []) s t = t ≡ s
  Called (sends (doc ∷ docs)) s t =
      (send_documents s (doc ∷ docs) ≡ (t, none))
      ⊎ (send_documents s (doc ∷ docs) ≡ (t, some invalid_query))
  Called (applies diff) s t =
      (skip_schema diff.schema_name ≡ true) × (t ≡ s)
      ⊎ (skip_schema diff.schema_name ≡ false)
        × ((diff.schema_dropped ≡ true) × (delete_schema s diff.schema_name ≡ (t, none))
            ⊎ (diff.schema_dropped ≡ false) × (apply_schema_diff s diff ≡ (t, none)))
  Called (clears schema table) s t = delete_table_documents s schema table ≡ (t, none)

  -- The operations one after the other, from the one state of the store to the other.
  abbrev pub Calls : List Op → State → State → Type 0
  Calls [] s t = t ≡ s
  Calls (op ∷ ops) s t = (u : State) × Called op s u × Calls ops u t

  sent-none :
      (r : State × Option StoreError)
      → (sent store skip_schema r).1 ≡ none
      → (r ≡ ((sent store skip_schema r).0, none))
        ⊎ (r ≡ ((sent store skip_schema r).0, some invalid_query))
  unfolding sent
  sent-none (s, none) h = inl refl
  sent-none (s, some invalid_query) h = inr refl
  sent-none (s, some canceled) h = absurd (cc)
  sent-none (s, some (store_error e)) h = absurd (cc)

  diffed-none :
      (r : State × Option StoreError)
      → (diffed store skip_schema r).1 ≡ none
      → r ≡ ((diffed store skip_schema r).0, none)
  unfolding diffed
  diffed-none (s, none) h = refl
  diffed-none (s, some canceled) h = absurd (cc)
  diffed-none (s, some invalid_query) h = absurd (cc)
  diffed-none (s, some (store_error e)) h = absurd (cc)

  truncated-none :
      (r : State × Option StoreError)
      → (truncated store skip_schema r).1 ≡ none
      → r ≡ ((truncated store skip_schema r).0, none)
  unfolding truncated
  truncated-none (s, none) h = refl
  truncated-none (s, some e) h = absurd (cc)

  picked :
      {A : Type 0} (b : Bool) (x y z : A)
      → (if b then x else y) ≡ z
      → (b ≡ true) × (x ≡ z) ⊎ (b ≡ false) × (y ≡ z)
  picked true x y z h = inl (refl, h)
  picked false x y z h = inr (refl, h)

  apply_diff-Called :
      (diff : SchemaDiff) (s t : State)
      → apply_diff store skip_schema diff s ≡ (t, none)
      → Called (applies diff) s t
  unfolding apply_diff
  apply_diff-Called diff s t h = elim (picked (skip_schema diff.schema_name) _ _ (t, none) h) [
    | inl (e, same) ↦ inl (e, ap (λ r. r.0) (sym same))
    | inr (e, k) ↦ inr (e, picked diff.schema_dropped _ _ (t, none) k)
  ]

  run_op-Called :
      (op : Op) (s : State)
      → (run_op store skip_schema op s).1 ≡ none
      → Called op s (run_op store skip_schema op s).0
  unfolding run_op flush_writes
  run_op-Called (sends []) s h = refl
  run_op-Called (sends (doc ∷ docs)) s h = sent-none (send_documents s (doc ∷ docs)) h
  run_op-Called (applies diff) s h =
      apply_diff-Called diff s (run_op store skip_schema (applies diff) s).0
        (diffed-none (apply_diff store skip_schema diff s) h)
  run_op-Called (clears schema table) s h = truncated-none (delete_table_documents s schema table) h

  Ran-Calls : (ops : List Op) (s t : State) → Ran store skip_schema ops s t → Calls ops s t
  Ran-Calls [] s t h = h
  Ran-Calls (op ∷ ops) s t h = (
    (run_op store skip_schema op s).0,
    run_op-Called op s h.0,
    Ran-Calls ops (run_op store skip_schema op s).0 t h.1,
  )

  -- A batch that ends with a checkpoint has checkpointed its own positions, after operations on the store that are,
  -- in order, those of its messages: to store each document, to change a schema, to empty a table. The store has
  -- answered each without an error, but it may have answered ErrInvalidQuery to documents; a schema that is skipped is
  -- not changed.
  pub send_batch-Calls :
      (c : Option (List Str → Option Str)) (ms : List Msg) (positions p : List Str) (s : State)
      → (send_batch store skip_schema c ms positions s).1 ≡ checkpointed p
      → (p ≡ positions)
        × (ops : List Op) × Calls ops s (send_batch store skip_schema c ms positions s).0
        × (effects ops ≡ map effect ms)
  unfolding send_batch
  send_batch-Calls c ms positions p s h =
      let r = send_messages store skip_schema [] ms s in
      let (same, going, state) = checkpointed_only store skip_schema c positions p r h in
      let d = messages-Did store skip_schema [] ms s going in
      (same, d.ops, rw state (Ran-Calls d.ops s r.0 d.ran), d.did)
