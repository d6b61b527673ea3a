-- ===== src/Sanitizer/Clean.antt =====
-- pkg/wal/processor/sanitizer/wal_sanitizer.go: what the inner processor gets.
use pgstream.Prelude.{
  ◌≡◌, refl, ap, false, Option, none, some, List, [], ◌∷◌, Str, All, arith, inl, inr, Bool-cases,
}
use pgstream.Wal.{
  Value, null, string, byte_slice, integer, float, boolean, other, Column, Data, Event,
}
use pgstream.Sanitizer.{
  contains_null, strip_nulls, sanitize_value, sanitize_columns, sanitize_data, sanitize,
}

-- A value that Postgres takes: no string has a null byte.
abbrev pub IsClean : Value → Type 0
IsClean (string s) = contains_null s ≡ false
IsClean _ = Unit

abbrev columns_of : Option Data → List Column
columns_of none = []
columns_of (some d) = d.columns

contains_null-strip_nulls : (s : Str) → contains_null (strip_nulls s) ≡ false
unfolding contains_null
contains_null-strip_nulls [] = refl
contains_null-strip_nulls (c ∷ s) = ground (arith, contains_null-strip_nulls s)

sanitize_value-IsClean : (v : Value) → IsClean (sanitize_value v)
unfolding sanitize_value
sanitize_value-IsClean (string s) = elim (Bool-cases (contains_null s)) [
  | inl e ↦ rw e (contains_null-strip_nulls s)
  | inr e ↦ rw e e
]
sanitize_value-IsClean null = tt
sanitize_value-IsClean (byte_slice s) = tt
sanitize_value-IsClean (integer n) = tt
sanitize_value-IsClean (float n) = tt
sanitize_value-IsClean (boolean b) = tt
sanitize_value-IsClean (other n) = tt

sanitize_value_of_clean : (v : Value) → IsClean v → sanitize_value v ≡ v
unfolding sanitize_value
sanitize_value_of_clean (string s) h = rw h
sanitize_value_of_clean null h = refl
sanitize_value_of_clean (byte_slice s) h = refl
sanitize_value_of_clean (integer n) h = refl
sanitize_value_of_clean (float n) h = refl
sanitize_value_of_clean (boolean b) h = refl
sanitize_value_of_clean (other n) h = refl

abbrev CleanColumn : Column → Type 0
CleanColumn col = IsClean col.value

sanitize_columns-CleanColumn : (cols : List Column) → All CleanColumn (sanitize_columns cols)
unfolding sanitize_columns
sanitize_columns-CleanColumn [] = tt
sanitize_columns-CleanColumn (col ∷ cols) =
    (sanitize_value-IsClean col.value, sanitize_columns-CleanColumn cols)

sanitize_columns_of_clean :
    (cols : List Column) → All CleanColumn cols → sanitize_columns cols ≡ cols
unfolding sanitize_columns
sanitize_columns_of_clean [] h = refl
sanitize_columns_of_clean (col ∷ cols) h =
    rw (sanitize_value_of_clean col.value h.0, sanitize_columns_of_clean cols h.1)

-- Whether an event is clean: none of its columns, identity columns aside, holds a null byte.
abbrev pub IsCleanEvent : Event → Type 0
IsCleanEvent e = All CleanColumn (columns_of e.body)

sanitize_data-Clean :
    (b : Option Data)
    → All CleanColumn (columns_of (sanitize_data b))
      × (All CleanColumn (columns_of b) → sanitize_data b ≡ b)
unfolding sanitize_data
sanitize_data-Clean none = (tt, λ h. refl)
sanitize_data-Clean (some d) = (
  sanitize_columns-CleanColumn d.columns,
  (λ h. ap (λ cols. some (record d { columns = cols })) (sanitize_columns_of_clean d.columns h)),
)

-- The inner processor gets a clean event, and an event that is clean already as it is.
pub sanitize-IsCleanEvent :
    (e : Event) → IsCleanEvent (sanitize e) × (IsCleanEvent e → sanitize e ≡ e)
unfolding sanitize
sanitize-IsCleanEvent e =
    let (clean, same) = sanitize_data-Clean e.body in
    (clean, (λ h. ap (λ b. record e { body = b }) (same h)))
