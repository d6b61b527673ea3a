-- ===== src/Transformer/Events.antt =====
-- pkg/wal/processor/transformer/wal_transformer.go: ProcessWALEvent, with the inner processor as an argument. The
-- inner processor gets the event that applyTransformations has changed in place.
use pgstream.Prelude.{◌≡◌, refl, false, Option, none, some, List, Str, if◌then◌else◌}
use pgstream.Wal.{Column, Data, Event}
use pgstream.Wal.Ddl.{DdlEvent, DdlResult, is_ddl_event}
use pgstream.Wal.Diff.{SchemaDiff}
use pgstream.Transformer.Map.{ColumnTransformers, get_active_column_transformers}
use pgstream.Transformer.Columns.{Transforms, transform_data}
use pgstream.Transformer.Columns.Safe.{Pairs, Transformed, transform_data-Safe}
use pgstream.Transformer.Processor.{Transformer}
use pgstream.Transformer.Ddl.{TransformError, process_ddl_event}

-- The error of an event: the transformer's, or the inner processor's.
pub data EventError : Type 0 where
  refused : TransformError → EventError
  inner_error : Str → EventError

unfoldable pub passed_on : {S : Type 0} → S × Option Str → S × Option EventError
passed_on (s, none) = (s, none)
passed_on (s, some e) = (s, some (inner_error e))

module _ (pq_quote : Str → Str) {T S : Type 0} (tr : Transforms T S) (t : Transformer T)
    (to_ddl : Data → DdlResult) (to_diff : DdlEvent → SchemaDiff)
    (inner : Event → S → S × Option Str) where
  with_data : Event → S × Data → S × Option EventError
  unfolding passed_on
  with_data e (s, d) = passed_on (inner (record e { body = some d }) s)

  after_ddl : Event → Option TransformError → S → S × Option EventError
  unfolding passed_on
  after_ddl e none s = passed_on (inner e s)
  after_ddl e (some error) s = (s, some (refused error))

  process_data : Event → Option Data → S → S × Option EventError
  unfolding passed_on with_data after_ddl
  process_data e none s = passed_on (inner e s)
  process_data e (some d) s =
      if is_ddl_event d
      then after_ddl e (process_ddl_event pq_quote t to_ddl to_diff d) s
      else with_data e (transform_data tr pq_quote t.transformer_map d s)

  -- ProcessWALEvent
  unfoldable pub process_wal_event : Event → S → S × Option EventError
  unfolding process_data
  process_wal_event e s = process_data e e.body s

  -- For an event with rows of a table that has transformers, the inner processor is called once, and its answer
  -- returned. Each column reaches it in its place, with its name, type and id. If its value is not null and it has
  -- a transformer, its value is what that transformer gave for it, or null where it failed; else it is unchanged.
  -- A dynamic transformer does not see its own column among the others. Nothing else of the event changes.
  pub process_wal_event-Transformed :
      (e : Event) (d : Data) (m : ColumnTransformers T) (s : S)
      → e.body ≡ some d
      → is_ddl_event d ≡ false
      → get_active_column_transformers pq_quote t.transformer_map d.schema d.table ≡ some m
      → (out : List Column) × (s' : S) × (process_wal_event e s
          ≡ passed_on (inner (record e { body = some (record d { columns = out }) }) s'))
        × Pairs (Transformed tr m) d.columns out
  unfolding process_wal_event process_data with_data
  process_wal_event-Transformed e d m s body rows active =
      let (out, same, ps) = transform_data-Safe tr pq_quote t.transformer_map m d s active in
      (out, (transform_data tr pq_quote t.transformer_map d s).0, rw (body, rows, same) refl, ps)
