-- ===== src/Wal/Ddl/Identity.antt =====
-- pkg/wal/wal_ddl.go: the names that an object's identity is taken apart into.
use pgstream.Prelude.{◌≡◌, append_assoc, [], ◌∷◌, ◌++◌, Str}
use pgstream.Prelude.Strings.{
  Without, split, split_whole, split_first, after_last, after_last-append,
}
use pgstream.Wal.Ddl.{DdlObject, get_table, get_name, get_schema}

module _ (obj : DdlObject) (s t c : Str) (hs : Without b'.' s) (ht : Without b'.' t)
    (hc : Without b'.' c) where
  -- The identity schema.table, of parts with no dot, gives the schema, the table, and the table as name.
  pub table_identity :
      obj.identity ≡ s ++ b'.' ∷ t → (get_schema obj ≡ s) × (get_table obj ≡ t) × (get_name obj ≡ t)
  unfolding get_schema get_table get_name
  table_identity e = (
    rw (e, split_first b'.' s t hs),
    rw (e, split_first b'.' s t hs, split_whole b'.' t ht),
    rw (e, after_last-append b'.' (s ++ b'.' ∷ t) s t ht),
  )

  -- The identity schema.table.column, of parts with no dot, gives the same schema and table, and the column as name.
  pub column_identity :
      obj.identity ≡ s ++ b'.' ∷ (t ++ b'.' ∷ c)
      → (get_schema obj ≡ s) × (get_table obj ≡ t) × (get_name obj ≡ c)
  unfolding get_schema get_table get_name
  column_identity e =
      let parts : split b'.' obj.identity ≡ s ∷ t ∷ c ∷ [] = rw (
        e,
        split_first b'.' s (t ++ b'.' ∷ c) hs,
        split_first b'.' t c ht,
        split_whole b'.' c hc,
      ) in
      (rw parts, rw parts, rw (e, last))
    where
      last : after_last b'.' (s ++ b'.' ∷ (t ++ b'.' ∷ c)) (s ++ b'.' ∷ (t ++ b'.' ∷ c)) ≡ c
      last =
          rw (← append_assoc s (b'.' ∷ t) (b'.' ∷ c))
            (after_last-append b'.' (s ++ b'.' ∷ t ++ b'.' ∷ c) (s ++ b'.' ∷ t) c hc)
