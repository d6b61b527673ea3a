-- ===== src/Writer/Dml.antt =====
-- pkg/wal/processor/postgres/postgres_wal_dml_adapter.go: the adapter's state, the types of columns, and the
-- values it writes. The types of the pgtype library are an argument.
pub mod Columns
pub mod Where
pub mod Queries
pub mod Bulk
mod Tests
use pgstream.Prelude.{
  ℕ, Bool, true, false, not, ◌&&◌, ◌||◌, Option, none, some, List, [], ◌∷◌, Str, bytes, str_eq,
  contains, length, ltb, ◌==◌, if◌then◌else◌,
}
use pgstream.Prelude.Int.{ℤ}
use pgstream.Prelude.Strings.{has_suffix}
use pgstream.Wal.{Value, null, string, byte_slice, integer, float, boolean, other}

pub data OnConflictAction : Type 0 where
  on_conflict_error on_conflict_update on_conflict_do_nothing : OnConflictAction

-- parseOnConflictAction; `none` is errUnsupportedOnConflictAction.
unfoldable pub parse_on_conflict_action : Str → Option OnConflictAction
parse_on_conflict_action action =
    if str_eq action [] || str_eq action (bytes "error")
    then some on_conflict_error
    else if str_eq action (bytes "update")
    then some on_conflict_update
    else if str_eq action (bytes "nothing")
    then some on_conflict_do_nothing
    else none

pub record DmlAdapter : Type 0 where
  pub on_conflict : OnConflictAction
  pub for_copy : Bool

adapter_for : Bool → Option OnConflictAction → Option DmlAdapter
adapter_for for_copy none = none
adapter_for for_copy (some action) = some (record { on_conflict = action; for_copy = for_copy })

-- newDMLAdapter
unfoldable pub new_dml_adapter : Str → Bool → Option DmlAdapter
unfolding adapter_for
new_dml_adapter action for_copy = adapter_for for_copy (parse_on_conflict_action action)

-- needsTextCopy: some type is one of textOnlyCopyTypes.
unfoldable pub needs_text_copy : List Str → Bool
needs_text_copy [] = false
needs_text_copy (t ∷ types) =
    if contains (bytes "cube" ∷ bytes "ltree" ∷ []) t then true else needs_text_copy types

starts_with : ℕ → Str → Bool
starts_with c [] = false
starts_with c (d ∷ s) = d == c

-- isArray
unfoldable pub is_array : Str → Bool
unfolding starts_with
is_array t =
    (ltb 2 (length t) && has_suffix t (bytes "[]")) || (ltb 1 (length t) && starts_with b'_' t)

-- A pgtype.Range[any].
pub record Range : Type 0 where
  pub lower : Value
  pub upper : Value
  pub lower_type : ℕ
  pub upper_type : ℕ
  pub valid : Bool

-- What Go's type assertions see of a value, the typed values of pgtype, its scan of an array literal, the
-- conversion of a float to an int64, and time.Time{}.
pub record Pgtype : Type 0 where
  pub infinity_of : Value → Option ℕ
  pub date : ℕ → Value
  pub timestamp : ℕ → Value
  pub timestamptz : ℕ → Value
  pub range_of : Value → Option Range
  pub time_of : Value → Option ℕ
  pub zero_time : ℕ
  pub time_range : ℕ → ℕ → ℕ → ℕ → Bool → Value
  pub scan_array : Str → Option Value
  pub truncate : ℕ → ℤ

or_zero : ℕ → Option ℕ → ℕ
or_zero z none = z
or_zero z (some t) = t

module _ (pgtype : Pgtype) where
  open pgtype use {
    infinity_of, date, timestamp, timestamptz, range_of, time_of, zero_time, time_range, scan_array,
    truncate,
  }

  with_infinity : Value → Str → Option ℕ → Value
  with_infinity value t none = value
  with_infinity value t (some v) =
      if str_eq t (bytes "date")
      then date v
      else if str_eq t (bytes "timestamp")
      then timestamp v
      else if str_eq t (bytes "timestamptz")
      then timestamptz v
      else value

  -- getInfinityValueForDateTime
  unfoldable pub get_infinity_value_for_date_time : Value → Str → Value
  unfolding with_infinity
  get_infinity_value_for_date_time value t = with_infinity value t (infinity_of value)

  typed_range : Value → Option Range → Value
  unfolding or_zero
  typed_range value none = value
  typed_range value (some v) =
      time_range (or_zero zero_time (time_of v.lower)) (or_zero zero_time (time_of v.upper))
        v.lower_type v.upper_type v.valid

  -- getTypedTSTZRange
  unfoldable pub get_typed_tstz_range : Value → Value
  unfolding typed_range
  get_typed_tstz_range value = typed_range value (range_of value)

  scanned : Value → Option Value → Value
  scanned value none = value
  scanned value (some arr) = arr

  array_value : Value → Value
  unfolding scanned
  array_value (string s) = scanned (string s) (scan_array s)
  array_value null = null
  array_value (byte_slice s) = byte_slice s
  array_value (integer n) = integer n
  array_value (float n) = float n
  array_value (boolean b) = boolean b
  array_value (other n) = other n

  text_of_bytes : Value → Value
  text_of_bytes (byte_slice s) = string s
  text_of_bytes null = null
  text_of_bytes (string s) = string s
  text_of_bytes (integer n) = integer n
  text_of_bytes (float n) = float n
  text_of_bytes (boolean b) = boolean b
  text_of_bytes (other n) = other n

  -- updateValueForCopy
  unfoldable pub update_value_for_copy : Value → Str → Value
  unfolding text_of_bytes array_value
  update_value_for_copy value t =
      if contains (bytes "date" ∷ bytes "timestamp" ∷ bytes "timestamptz" ∷ []) t
      then get_infinity_value_for_date_time value t
      else if str_eq t (bytes "tstzrange")
      then get_typed_tstz_range value
      else if str_eq t (bytes "tsvector")
      then text_of_bytes value
      else if is_array t
      then array_value value
      else value

  -- toInt64
  unfoldable pub to_int64 : Value → Option ℤ
  to_int64 (integer n) = some n
  to_int64 (float n) = some (truncate n)
  to_int64 null = none
  to_int64 (string s) = none
  to_int64 (byte_slice s) = none
  to_int64 (boolean b) = none
  to_int64 (other n) = none
