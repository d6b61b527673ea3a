-- ===== src/Writer/Runs/Confirm.antt =====
-- pkg/wal/processor/postgres/postgres_batch_writer.go: a batch is confirmed after it is written.
use pgstream.Prelude.{
  Bool, ◌≡◌, ◌≢◌, inl, inr, refl, sym, ap, ◌∙◌, Option, none, some, List, [], ◌∷◌, ◌++◌, Str,
  Option-cases,
}
use pgstream.Postgres.Pool.{Connection}
use pgstream.Batch.{Batch}
use pgstream.Writer.Message.{WalMessage}
use pgstream.Writer.Exec.{Statement}
use pgstream.Writer.Runs.{
  Adapter, Failure, World, flush, ddl, no_run, send_messages, send_batch, checkpoint_batch, confirm,
}
use pgstream.Writer.Runs.Plan.{execute, send_messages-Carries}

module _ (conn : Connection Statement) (disable_triggers : Bool) (a : Adapter) where
  record Confirmed (positions : List Str) (w w' : World conn disable_triggers a)
      (written : Option Failure) : Type 0 where
    all_written : written ≡ none
    whole_batch : w'.checkpointed ≡ w.checkpointed ++ positions ∷ []

  checkpoint_batch-Confirmed :
      (c : Option (List Str → Option Str)) (positions : List Str)
      (w : World conn disable_triggers a) (r : conn.State × Option Failure)
      → (checkpoint_batch conn disable_triggers a c positions w r).0.checkpointed ≢ w.checkpointed
      → Confirmed positions w (checkpoint_batch conn disable_triggers a c positions w r).0 r.1
  unfolding checkpoint_batch confirm
  checkpoint_batch-Confirmed c positions w (s, some e) h = absurd (h refl)
  checkpoint_batch-Confirmed none positions w (s, none) h = absurd (h refl)
  checkpoint_batch-Confirmed (some c) [] w (s, none) h = absurd (h refl)
  checkpoint_batch-Confirmed (some c) (p ∷ ps) w (s, none) h = elim (Option-cases (c (p ∷ ps))) [
    | inl e ↦ record { all_written = refl; whole_batch = rw (e, confirm) }
    | inr (x, e) ↦ absurd (h (rw (e, confirm)))
  ]

  -- A batch whose sending changes what the checkpointer has confirmed has had all its actions carried out
  -- without an error, and exactly its commit positions are confirmed, at once.
  pub send_batch-Confirmed :
      (c : Option (List Str → Option Str)) (b : Batch WalMessage)
      (w : World conn disable_triggers a)
      → (send_batch conn disable_triggers a c b w).0.checkpointed ≢ w.checkpointed
      → let plan =
          send_messages-Carries
            (flush conn disable_triggers a)
            (ddl conn disable_triggers a)
            b.messages in
        ((execute (flush conn disable_triggers a) (ddl conn disable_triggers a) plan.actions w.db).1
          ≡ none)
        × ((send_batch conn disable_triggers a c b w).0.checkpointed
            ≡ w.checkpointed ++ b.positions ∷ [])
  unfolding send_batch
  send_batch-Confirmed c b w h =
      let f = flush conn disable_triggers a in
      let d = ddl conn disable_triggers a in
      let r =
        checkpoint_batch-Confirmed c b.positions w (send_messages f d no_run b.messages w.db) h in
      let plan = send_messages-Carries f d b.messages in
      (
        ap (λ (p : conn.State × Option Failure). p.1) (sym (plan.carried_out w.db)) ∙ r.all_written,
        r.whole_batch,
      )
