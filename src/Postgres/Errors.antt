-- ===== src/Postgres/Errors.antt =====
-- internal/postgres/errors.go: the errors of the pgx driver, sorted by their SQLSTATE code.
use pgstream.Prelude.{Bool, true, List, [], ◌∷◌, Str, bytes, str_eq, contains, if◌then◌else◌}
use pgstream.Prelude.Strings.{has_prefix}

-- What MapError tells apart: pgconn.Timeout, pgx.ErrNoRows, a *pgconn.PgError with its code and
-- message, and any other error.
pub data RawError : Type 0 where
  timeout : RawError
  no_rows_in_result : RawError
  pg_error : Str → Str → RawError
  other_error : Str → RawError

pub data Error : Type 0 where
  conn_timeout : Error
  no_rows : Error
  relation_does_not_exist : Str → Error
  constraint_violation : Str → Error
  permission_denied : Str → Error
  syntax_error : Str → Error
  data_exception : Str → Error
  relation_already_exists : Str → Error
  rule_violation : Str → Error
  precondition_failed : Str → Error
  cache_lookup_failed : Str → Error
  program_limit_exceeded : Str → Error
  feature_not_supported : Str → Error
  unmapped : RawError → Error

-- strings.Contains
includes : Str → Str → Bool
includes [] part = str_eq part []
includes (c ∷ s) part = let rest = includes s part in if has_prefix (c ∷ s) part then true else rest

-- The classes that the switch on the code leaves to strings.HasPrefix.
by_class : Str → Str → Error
by_class code message =
    if has_prefix code (bytes "22")
    then data_exception message
    else if has_prefix code (bytes "23")
    then constraint_violation message
    else if has_prefix code (bytes "54")
    then program_limit_exceeded message
    else unmapped (pg_error code message)

by_code : Str → Str → Error
unfolding by_class includes
by_code code message =
    if contains (bytes "42703" ∷ bytes "42883" ∷ bytes "42P01" ∷ bytes "42P02" ∷ bytes "42704" ∷ [])
      code
    then relation_does_not_exist message
    else if contains (bytes "42601" ∷ bytes "42000" ∷ []) code
    then syntax_error message
    else if contains (bytes "428C9" ∷ bytes "42939" ∷ bytes "42809" ∷ []) code
    then rule_violation message
    else if str_eq code (bytes "42501")
    then permission_denied message
    else if str_eq code (bytes "55000")
    then precondition_failed message
    else if str_eq code (bytes "XX000")
    then (if includes message (bytes "cache lookup failed")
        then cache_lookup_failed message
        else by_class code message)
    else if str_eq code (bytes "0A000")
    then feature_not_supported message
    else if contains already_exists_codes code
    then relation_already_exists message
    else by_class code message
  where
    already_exists_codes : List Str
    already_exists_codes =
        bytes "42701"
        ∷ bytes "42P03"
        ∷ bytes "42P04"
        ∷ bytes "42723"
        ∷ bytes "42P05"
        ∷ bytes "42P06"
        ∷ bytes "42P07"
        ∷ bytes "42712"
        ∷ bytes "42710"
        ∷ []

-- MapError
unfoldable pub map_error : RawError → Error
unfolding by_code
map_error timeout = conn_timeout
map_error no_rows_in_result = no_rows
map_error (pg_error code message) = by_code code message
map_error (other_error message) = unmapped (other_error message)
