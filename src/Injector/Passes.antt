-- ===== src/Injector/Passes.antt =====
-- pkg/wal/processor/injector/wal_injector.go: which events are passed on, and what of them may change.
use pgstream.Prelude.{
  ◌≡◌, ◌⊎◌, refl, ap, ◌∙◌, inl, inr, Bool, true, false, Option, none, some, List, [], ◌∷◌, Str, map,
  Bool-cases,
}
use pgstream.Wal.{Column, Data, Event, no_metadata}
use pgstream.Wal.Ddl.{
  DdlColumn, DdlObject, DdlEvent, DdlResult, ok, err, get_column_by_name, is_ddl_event,
  wal_data_to_ddl_event,
}
use pgstream.Injector.{
  Answer, InjectError, table_not_found, query_failed, parse_failed, column_not_found, id_not_found,
  Cache, Found, table, missing, sorted, with_ids, fill_event_metadata, with_id, inject_ids,
  inject_column_ids, get_table_object, filled, injected, inject, Processed, passed, refused,
  after_inject, after_decode, process_data, process_wal_event,
}

abbrev no_id : Column → Column
no_id col = record col { id = [] }

-- What the injector may not change of an event's data: all but the ids.
abbrev pub without_ids : Data → Data
without_ids d = record d {
  columns = map no_id d.columns;
  identity = map no_id d.identity;
  metadata = no_metadata;
}

no_id-with_id :
    (tbl : DdlObject) (col : Column) (c : Option DdlColumn) → no_id (with_id tbl col c) ≡ no_id col
unfolding with_id
no_id-with_id tbl col none = refl
no_id-with_id tbl col (some c) = refl

no_id-inject_ids :
    (tbl : DdlObject) (cols : List Column) → map no_id (inject_ids tbl cols).0 ≡ map no_id cols
unfolding inject_ids
no_id-inject_ids tbl [] = refl
no_id-inject_ids tbl (col ∷ cols) =
    ap (λ c. c ∷ map no_id (inject_ids tbl cols).0)
      (no_id-with_id tbl col (get_column_by_name tbl col.name))
    ∙ ap (λ cs. no_id col ∷ cs) (no_id-inject_ids tbl cols)

without_ids-inject :
    (tbl : DdlObject) (d : Data) → without_ids (inject_column_ids d tbl).0 ≡ without_ids d
unfolding inject_column_ids
without_ids-inject tbl d =
    ap
      (λ cs. record (without_ids d) {
        columns = cs;
        identity = map no_id (inject_ids tbl d.identity).0;
      })
      (no_id-inject_ids tbl d.columns)
    ∙ ap (λ cs. record (without_ids d) { identity = cs }) (no_id-inject_ids tbl d.identity)

without_ids-with_ids :
    (d : Data) (table_id : Str) (ids : List Str)
    → without_ids (with_ids d table_id ids) ≡ without_ids d
unfolding with_ids
without_ids-with_ids d table_id [] = refl
without_ids-with_ids d table_id (id ∷ ids) = refl

without_ids-filled :
    (tbl : DdlObject) (d : Data) (found : Bool)
    → without_ids (filled tbl (d, found)).0 ≡ without_ids d
unfolding filled
without_ids-filled tbl d false = refl
without_ids-filled tbl d true = without_ids-inject tbl d

without_ids-injected :
    (d : Data) (r : Cache × Found) → without_ids (injected d r).1.0 ≡ without_ids d
unfolding injected fill_event_metadata
without_ids-injected d (cache, missing e) = refl
without_ids-injected d (cache, table tbl) =
    without_ids-filled (sorted tbl) (fill_event_metadata d (sorted tbl)).0
      (fill_event_metadata d (sorted tbl)).1
    ∙ without_ids-with_ids d _ _

module _ (unmarshal : Str → Option DdlEvent) (query : Str → Str → Answer) (cache : Cache) where
  -- A DDL event that can be decoded and is left as it is, or other data whose injection does not end with
  -- ErrIDNotFound.
  abbrev pub Kept : Data → Data → Type 0
  Kept d d' =
      (is_ddl_event d ≡ true)
        × (d' ≡ d)
        × ((ddl : DdlEvent) × (wal_data_to_ddl_event unmarshal d ≡ ok ddl))
      ⊎ (is_ddl_event d ≡ false) × ¬ ((inject query cache d).1.1 ≡ some id_not_found)

  -- Data that becomes these data; `none` after an event is a keep alive.
  abbrev pub Becomes : Option Data → Option Data → Type 0
  Becomes none b = b ≡ none
  Becomes (some d) none =
      (is_ddl_event d ≡ false) × ((inject query cache d).1.1 ≡ some id_not_found)
  Becomes (some d) (some d') = (without_ids d' ≡ without_ids d) × Kept d d'

  abbrev pub Handled : Event → Processed → Type 0
  Handled e (refused x) =
      (d : Data) × (e.body ≡ some d)
      × (is_ddl_event d ≡ true)
      × (wal_data_to_ddl_event unmarshal d ≡ err x)
  Handled e (passed e') = (e'.commit_position ≡ e.commit_position) × Becomes e.body e'.body

  -- What is known before the event itself is matched.
  HandledData : Event → Data → Processed → Type 0
  HandledData e d (refused x) =
      (is_ddl_event d ≡ true) × (wal_data_to_ddl_event unmarshal d ≡ err x)
  HandledData e d (passed e') = (e'.commit_position ≡ e.commit_position) × Becomes (some d) e'.body

  after_inject-Handled :
      (e : Event) (d d' : Data) (x : Option InjectError) (c : Cache)
      → is_ddl_event d ≡ false
      → (inject query cache d).1.1 ≡ x
      → without_ids d' ≡ without_ids d
      → HandledData e d (after_inject e (c, (d', x))).1
  unfolding after_inject HandledData
  after_inject-Handled e d d' (some id_not_found) c n i w = (refl, (n, i))
  after_inject-Handled e d d' (some table_not_found) c n i w =
      (refl, (w, inr (n, λ h. absurd (cc))))
  after_inject-Handled e d d' (some query_failed) c n i w = (refl, (w, inr (n, λ h. absurd (cc))))
  after_inject-Handled e d d' (some parse_failed) c n i w = (refl, (w, inr (n, λ h. absurd (cc))))
  after_inject-Handled e d d' (some column_not_found) c n i w =
      (refl, (w, inr (n, λ h. absurd (cc))))
  after_inject-Handled e d d' none c n i w = (refl, (w, inr (n, λ h. absurd (cc))))

  after_decode-Handled :
      (e : Event) (d : Data) (r : DdlResult)
      → e.body ≡ some d
      → is_ddl_event d ≡ true
      → wal_data_to_ddl_event unmarshal d ≡ r
      → HandledData e d (after_decode e cache r).1
  unfolding after_decode HandledData
  after_decode-Handled e d (err x) b y r = (y, r)
  after_decode-Handled e d (ok ddl) b y r = (refl, rw b (refl, inl (y, refl, (ddl, r))))

  injected-Handled :
      (e : Event) (d : Data)
      → is_ddl_event d ≡ false
      → HandledData e d (after_inject e (inject query cache d)).1
  unfolding inject
  injected-Handled e d n =
      let r = injected d (get_table_object query cache d) in
      after_inject-Handled e d r.1.0 r.1.1 r.0 n refl
        (without_ids-injected d (get_table_object query cache d))

  data-Handled :
      (e : Event) (d : Data)
      → e.body ≡ some d
      → HandledData e d (process_data unmarshal query e cache (some d)).1
  unfolding process_data
  data-Handled e d b = elim (Bool-cases (is_ddl_event d)) [
    | inl y ↦
        rw (y, process_data) (after_decode-Handled e d (wal_data_to_ddl_event unmarshal d) b y refl)
    | inr n ↦ rw (n, process_data) (injected-Handled e d n)
  ]

  of_data :
      (e : Event) (d : Data) (p : Processed) → e.body ≡ some d → HandledData e d p → Handled e p
  unfolding HandledData
  of_data e d (refused x) b h = (d, b, h.0, h.1)
  of_data e d (passed e') b h = (h.0, rw b (h.1))

  -- Every event is passed on with its commit position, but a DDL event that cannot be decoded, which is refused
  -- with its error. A DDL event that can be decoded is passed on unchanged, and of other data only the ids change. A
  -- keep alive stays one, and an event loses its data exactly if it is not a DDL event and the injection of its
  -- ids ends with ErrIDNotFound.
  pub process_wal_event-Handled :
      (e : Event) → Handled e (process_wal_event unmarshal query e cache).1
  unfolding process_wal_event
  process_wal_event-Handled e = by_body e.body refl
    where
      by_body :
          (b : Option Data) → e.body ≡ b → Handled e (process_data unmarshal query e cache b).1
      by_body none b = unfold process_data in (refl, rw b refl)
      by_body (some d) b = of_data e d _ b (data-Handled e d b)
