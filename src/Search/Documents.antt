-- ===== src/Search/Documents.antt =====
-- pkg/wal/processor/search/search_adapter.go: the versions of documents follow the positions of their events.
use pgstream.Prelude.{
  ℕ, ◌+◌, ◌≤◌, ◌<◌, ◌≡◌, refl, sym, ap, ◌∙◌, inl, inr, Bool, true, false, Option, none, some, List,
  [], Str, bytes, str_eq, arith, keep, Bool-cases, if◌then◌else◌,
}
use pgstream.Wal.{Column, Metadata, Data, is_update, is_id_column}
use pgstream.Search.{
  Document, Tools, Result, done, failed, and_then, map_columns, parse_id_columns, lsn_of,
  parse_columns, add_previous, wal_data_to_document,
}

-- Both of two steps have succeeded.
and_then-done :
    {A B : Type 0} (r : Result A) (f : A → Result B) (y : B)
    → and_then r f ≡ done y
    → (x : A) × (r ≡ done x) × (f x ≡ done y)
unfolding and_then
and_then-done (done x) f y h = (x, refl, h)
and_then-done (failed e) f y h = absurd (cc)

abbrev version_of : Result Document → ℕ
version_of (done x) = x.version
version_of (failed e) = 0

near : (b : Bool) (n m v : ℕ) → n ≡ m → (if b then m + 1 else m) ≡ v → (n ≤ v) × (v ≤ n + 1)
near true n m v e h = (omega arith, omega arith)
near false n m v e h = (omega arith, omega arith)

same_position : (o : Option ℕ) (n m : ℕ) → o ≡ some n → o ≡ some m → n ≡ m
same_position o n m e h = let same : ◌≡◌ {A = Option ℕ} (some n) (some m) = sym e ∙ h in cc

module _ (t : Tools) where
  open t use {parse_lsn}

  lsn_of-some : (o : Option ℕ) (n : ℕ) → lsn_of t o ≡ done n → o ≡ some n
  unfolding lsn_of
  lsn_of-some none n h = absurd (cc)
  lsn_of-some (some m) n h = let same : m ≡ n = cc in ap some same

  parse_columns-version :
      (cols : List Column) (m : Metadata) (lsn : Str) (doc : Document)
      → parse_columns t cols m lsn ≡ done doc
      → parse_lsn lsn ≡ some doc.version
  unfolding parse_columns
  parse_columns-version cols m lsn doc h =
      let (d, p, h1) = and_then-done (map_columns t m cols []) _ doc h in
      let (r, q, h2) =
        and_then-done
          (parse_id_columns t m.table_pgstream_id (keep (λ col. is_id_column m col.id) cols) d) _
          doc h1 in
      let (version, l, h3) = and_then-done (lsn_of t (parse_lsn lsn)) _ doc h2 in
      let same : version ≡ doc.version = ap version_of h3 in
      lsn_of-some (parse_lsn lsn) version l ∙ ap some same

  -- The position of the event, or the one after it.
  version-near :
      (d : Data) (doc : Document) (n : ℕ)
      → wal_data_to_document t d ≡ done doc
      → parse_lsn d.lsn ≡ some n
      → (n ≤ doc.version) × (doc.version ≤ n + 1)
  unfolding wal_data_to_document
  version-near d doc n h l = elim (Bool-cases (str_eq d.action (bytes "D"))) [
    | inl e ↦
        let (first, p, h1) =
          and_then-done (parse_columns t d.identity d.metadata d.lsn) _ doc (rw e at h) in
        near true n first.version doc.version
          (same_position (parse_lsn d.lsn) n first.version l
            (parse_columns-version d.identity d.metadata d.lsn first p))
          (ap version_of h1)
    | inr e ↦
        let (first, p, h1) =
          and_then-done (parse_columns t d.columns d.metadata d.lsn) _ doc (rw e at h) in
        let (values, q, h2) =
          and_then-done (add_previous t d.metadata d.identity first.doc_data) _ doc h1 in
        near (is_update d) n first.version doc.version
          (same_position (parse_lsn d.lsn) n first.version l
            (parse_columns-version d.columns d.metadata d.lsn first p))
          (ap version_of h2)
  ]

  -- Of two events that become documents, whose positions are at least two apart, the later one's document has the
  -- larger version, whatever their actions.
  pub wal_data_to_document-Later :
      (d d' : Data) (doc doc' : Document) (n n' : ℕ)
      → wal_data_to_document t d ≡ done doc
      → wal_data_to_document t d' ≡ done doc'
      → parse_lsn d.lsn ≡ some n
      → parse_lsn d'.lsn ≡ some n'
      → n + 2 ≤ n'
      → doc.version < doc'.version
  wal_data_to_document-Later d d' doc doc' n n' h h' l l' a =
      let (lo, hi) = version-near d doc n h l in
      let (lo', hi') = version-near d' doc' n' h' l' in omega arith
