-- ===== src/Writer/Adapter/Learned.antt =====
-- pkg/wal/processor/postgres: what a DDL event declares of a table's columns reaches the rows that follow it.
use pgstream.Prelude.{
  false, ◌&&◌, ◌||◌, [], ◌∷◌, bytes, str_eq, str_eq_refl, contains, Bool-cases, inl, inr, ◌≡◌, refl,
  sym, ap, ◌∙◌, Bool, true, Option, none, some, List, ◌++◌, Str,
}
use pgstream.Prelude.Strings.{Without}
use pgstream.Prelude.Maps.{contains-set_insert}
use pgstream.Wal.Ddl.Identity.{table_identity}
use pgstream.Postgres.Identifier.{quote_identifier, quote_qualified_identifier}
use pgstream.Wal.{Data, Event}
use pgstream.Wal.Ddl.{
  DdlColumn, DdlEvent, DdlObject, is_generated, is_always_identity, is_ddl_event, get_table_objects,
  get_table_column_objects,
}
use pgstream.Writer.Message.{SchemaInfo, WalMessage}
use pgstream.Writer.Observer.{
  Catalog, Observer, columns_with, update, is_materialized_view, get_sequence_columns,
}
use pgstream.Writer.Observer.Update.{latest, Held, update-Held, generated-hit, always-hit}
use pgstream.Writer.Adapter.{
  done, no_message, schema_info_for, with_generated, with_always, with_info, dml_message,
  message_unless, message_of, wal_event_to_message,
}

-- The schema information names the columns that the object declares.
pub record Declares (pq_quote : Str → Str) (obj : DdlObject) (info : SchemaInfo) : Type 0 where
  pub generated : info.generated_columns ≡ columns_with pq_quote is_generated obj.columns
  pub always : info.always_identity_columns ≡ columns_with pq_quote is_always_identity obj.columns

module _ (pq_quote : Str → Str) (catalog : Catalog) (unmarshal : Str → Option DdlEvent)
    (no_ddl : Bool) where
  info-Declares :
      (d : Data) (obj : DdlObject) (r : Observer × Option (List (Str × Str))) (m : WalMessage)
      → (dml_message pq_quote catalog d (
          with_info pq_quote catalog
            (columns_with pq_quote is_generated obj.columns)
            (columns_with pq_quote is_always_identity obj.columns)
            r)).1
        ≡ done m
      → Declares pq_quote obj m.schema_info
  unfolding dml_message with_info
  info-Declares d obj (o, none) m h = absurd (cc)
  info-Declares d obj (o, some seqs) m h =
      let same : m ≡ record {
        data_of = some d;
        schema_info = record {
          generated_columns = columns_with pq_quote is_generated obj.columns;
          always_identity_columns = columns_with pq_quote is_always_identity obj.columns;
          sequence_columns = seqs;
        };
        is_ddl = false;
      } =
        cc in
      rw same (record { generated = refl; always = refl })

  message-Declares :
      (d : Data) (obj : DdlObject) (o : Observer) (m : WalMessage)
      → Held pq_quote o (quote_qualified_identifier pq_quote d.schema d.table) obj
      → (dml_message pq_quote catalog d (schema_info_for pq_quote catalog d o)).1 ≡ done m
      → Declares pq_quote obj m.schema_info
  unfolding schema_info_for with_generated with_always
  message-Declares d obj o m held h =
      let generated = generated-hit pq_quote catalog o d.schema d.table obj held in
      let always = always-hit pq_quote catalog o d.schema d.table obj held in
      let known =
        ap (with_generated pq_quote catalog d) generated
        ∙ ap (with_always pq_quote catalog d (columns_with pq_quote is_generated obj.columns))
            always in
      info-Declares d obj (get_sequence_columns pq_quote catalog d.schema d.table o) m
        (ap (λ r. (dml_message pq_quote catalog d r).1) (sym known) ∙ h)

  unless-Declares :
      (d : Data) (obj : DdlObject) (o : Observer) (b : Bool) (m : WalMessage)
      → Held pq_quote o (quote_qualified_identifier pq_quote d.schema d.table) obj
      → is_ddl_event d ≡ false
      → (message_unless pq_quote catalog unmarshal no_ddl d (o, b)).1 ≡ done m
      → m.data_of ≡ some d
      → Declares pq_quote obj m.schema_info
  unfolding message_unless
  unless-Declares d obj o true m held n h s =
      let same : no_message ≡ m = cc in
      let bad : ◌≡◌ {A = Option Data} none (some d) = ap (λ x. x.data_of) same ∙ s in absurd (cc)
  unless-Declares d obj o false m held n h s =
      message-Declares d obj o m held (rw (n, message_unless) at h)

  -- An event of a row that follows a DDL event becomes a message, if it is not passed over, whose schema information
  -- names the generated and always identity columns of the last object of the DDL event that the observer keeps under
  -- the key of the row's table, if there is one, whatever the catalog answers.
  pub wal_event_to_message-Declares :
      (ddl : DdlEvent) (o o' : Observer) (e : Event) (d : Data) (obj : DdlObject) (m : WalMessage)
      → update pq_quote ddl o ≡ some o'
      → latest pq_quote
          (quote_qualified_identifier pq_quote d.schema d.table)
          (get_table_objects ddl ++ get_table_column_objects ddl)
        ≡ some obj
      → e.body ≡ some d
      → is_ddl_event d ≡ false
      → (wal_event_to_message pq_quote catalog unmarshal no_ddl e o').1 ≡ done m
      → m.data_of ≡ some d
      → Declares pq_quote obj m.schema_info
  unfolding wal_event_to_message message_of is_materialized_view
  wal_event_to_message-Declares ddl o o' e d obj m u l b n h s =
      let key = quote_qualified_identifier pq_quote d.schema d.table in
      let held = update-Held pq_quote ddl o o' key obj u l in
      let r = is_materialized_view pq_quote catalog d.schema d.table o' in
      unless-Declares d obj r.0 r.1 m (record { generated = held.generated; always = held.always })
        n (rw (b, message_of) at h) s

  -- The name is that of a column of the table with this property.
  abbrev pub declares : (DdlColumn → Bool) → List DdlColumn → Str → Bool
  declares p [] name = false
  declares p (c ∷ cols) name =
      (p c && str_eq (quote_identifier pq_quote c.name) name) || declares p cols name

  contains-columns_with :
      (p : DdlColumn → Bool) (cols : List DdlColumn) (name : Str)
      → contains (columns_with pq_quote p cols) name ≡ declares p cols name
  unfolding columns_with contains
  contains-columns_with p [] name = refl
  contains-columns_with p (c ∷ cols) name =
      let rest = contains-columns_with p cols name in
      let added =
        contains-set_insert (quote_identifier pq_quote c.name) name
          (columns_with pq_quote p cols) in
      elim (Bool-cases (p c)) [ inl e ↦ simp (e, added, rest) | inr e ↦ simp (e, rest) ]

  -- The schema information names, of the table's columns, just the generated and the always identity ones.
  pub record NamesColumns (obj : DdlObject) (info : SchemaInfo) : Type 0 where
    pub generated :
        (name : Str) → contains info.generated_columns name ≡ declares is_generated obj.columns name
    pub always :
        (name : Str)
        → contains info.always_identity_columns name ≡ declares is_always_identity obj.columns name

  only_table :
      (ddl : DdlEvent) (obj : DdlObject) (s t : Str)
      → Without b'.' s
      → Without b'.' t
      → ddl.objects ≡ obj ∷ []
      → obj.type ≡ bytes "table"
      → obj.schema ≡ s
      → obj.identity ≡ s ++ b'.' ∷ t
      → latest pq_quote
          (quote_qualified_identifier pq_quote s t)
          (get_table_objects ddl ++ get_table_column_objects ddl)
        ≡ some obj
  unfolding get_table_objects get_table_column_objects latest str_eq
  only_table ddl obj s t hs ht only type schema identity =
      let name = (table_identity obj s t [] hs ht tt identity).2 in
      let same = str_eq_refl (quote_qualified_identifier pq_quote s t) in
      simp (only, type, schema, name, same, latest, get_table_objects, get_table_column_objects)

  -- A row of a table, in names without a dot, that follows a DDL event whose only object is this table becomes a
  -- message, if it is not passed over, whose schema information names just the generated and the always identity
  -- columns that the object has, whatever the catalog answers.
  pub wal_event_to_message-NamesColumns :
      (ddl : DdlEvent) (o o' : Observer) (e : Event) (d : Data) (obj : DdlObject) (m : WalMessage)
      → update pq_quote ddl o ≡ some o'
      → ddl.objects ≡ obj ∷ []
      → obj.type ≡ bytes "table"
      → obj.schema ≡ d.schema
      → obj.identity ≡ d.schema ++ b'.' ∷ d.table
      → Without b'.' d.schema
      → Without b'.' d.table
      → e.body ≡ some d
      → is_ddl_event d ≡ false
      → (wal_event_to_message pq_quote catalog unmarshal no_ddl e o').1 ≡ done m
      → m.data_of ≡ some d
      → NamesColumns obj m.schema_info
  wal_event_to_message-NamesColumns ddl o o' e d obj m u only type schema identity hs ht b n h s =
      let known = only_table ddl obj d.schema d.table hs ht only type schema identity in
      let info = wal_event_to_message-Declares ddl o o' e d obj m u known b n h s in
      record {
        generated = λ name.
            ap (λ names. contains names name) info.generated
            ∙ contains-columns_with is_generated obj.columns name;
        always = λ name.
            ap (λ names. contains names name) info.always
            ∙ contains-columns_with is_always_identity obj.columns name;
      }
