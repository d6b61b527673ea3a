-- ===== src/Injector/Tests.antt =====
-- A table with a key of two columns, and a deleted row of it.
use Prim.Native.String.{String}
use pgstream.Prelude.{
  ℕ, ◌≡◌, refl, sym, ap, ◌∙◌, ◌==◌, if◌then◌else◌, inl, inr, Bool, true, false, Option, none, some,
  List, [], ◌∷◌, Str, bytes, is_empty, arith,
}
use pgstream.Prelude.Int.{pos}
use pgstream.Wal.{integer, Column, Data, Event, no_metadata}
use pgstream.Wal.Ddl.{DdlColumn, DdlObject, DdlEvent}
use pgstream.Injector.{
  Answer, object, no_rows, Cache, table, get_table_object, inject, process_wal_event,
}
use pgstream.Injector.Ids.{In}
use pgstream.Injector.Keys.{Distinct, KeysMarked, inject-KeysMarked}
use pgstream.Injector.Passes.{Handled, process_wal_event-Handled}

abbrev column_numbered : ℕ → String → DdlColumn
column_numbered n name = record {
  attnum = n;
  name = bytes name;
  type = bytes "int4";
  nullable = false;
  default = none;
  generated = false;
  identity = none;
  unique = false;
}

abbrev pairs : DdlObject
pairs = record {
  type = bytes "table";
  identity = bytes "public.pairs";
  schema = bytes "public";
  oid = bytes "7";
  pgstream_id = bytes "t7";
  columns = column_numbered 2 "b" ∷ column_numbered 1 "a" ∷ column_numbered 3 "c" ∷ [];
  primary_key_columns = bytes "a" ∷ bytes "b" ∷ [];
}

abbrev value_of : String → Column
value_of name = record { id = []; name = bytes name; type = bytes "int4"; value = integer (pos 1) }

abbrev deleted_pair : Data
deleted_pair = record {
  action = bytes "D";
  timestamp = [];
  lsn = [];
  schema = bytes "public";
  table = bytes "pairs";
  columns = [];
  identity = value_of "a" ∷ value_of "c" ∷ [];
  xid = pos 0;
  prefix = [];
  content = [];
  metadata = no_metadata;
}

abbrev answers_pairs : Str → Str → Answer
answers_pairs schema t = object (some pairs)

abbrev with_id_of : String → String → Column
with_id_of name id = record (value_of name) { id = bytes id }

abbrev injected_pair : Data
injected_pair = record deleted_pair {
  identity = with_id_of "a" "t7-1" ∷ with_id_of "c" "t7-3" ∷ [];
  metadata = record {
    schema_id = [];
    table_pgstream_id = bytes "t7";
    internal_col_ids = bytes "t7-1" ∷ bytes "t7-2" ∷ [];
  };
}

found_pairs :
    get_table_object answers_pairs [] deleted_pair
    ≡ ((bytes "public.pairs", pairs) ∷ [], table pairs)
unfolding get_table_object pgstream.Prelude.Maps.lookup pgstream.Prelude.Maps.insert
found_pairs = refl

pair_injected : (inject answers_pairs [] deleted_pair).1 ≡ (injected_pair, none)
unfolding inject get_table_object pgstream.Prelude.Maps.lookup pgstream.Injector.fill_event_metadata
    pgstream.Injector.identity_columns pgstream.Injector.sorted pgstream.Injector.sort_columns
    pgstream.Prelude.contains pgstream.Prelude.str_eq pgstream.Injector.inject_column_ids
    pgstream.Injector.inject_ids pgstream.Injector.get_column_pgstream_id
    pgstream.Wal.Ddl.get_column_by_name pgstream.Prelude.Decimal.print_ℕ
pair_injected = refl

abbrev name_at : ℕ → Str
name_at n = if n == 1 then bytes "a" else if n == 2 then bytes "b" else bytes "c"

named : (x : DdlColumn) → In x pairs.columns → x.name ≡ name_at x.attnum
named x (inl p) = rw (sym p) refl
named x (inr (inl p)) = rw (sym p) refl
named x (inr (inr (inl p))) = rw (sym p) refl
named x (inr (inr (inr p))) = absurd p

pairs-Distinct : Distinct pairs.columns
pairs-Distinct x y i j e = named x i ∙ ap name_at e ∙ sym (named y j)

inject-KeysMarked_example : KeysMarked pairs.primary_key_columns injected_pair
inject-KeysMarked_example =
    inject-KeysMarked answers_pairs [] ((bytes "public.pairs", pairs) ∷ []) deleted_pair
      injected_pair pairs found_pairs refl pairs-Distinct pair_injected

abbrev undecodable : Str → Option DdlEvent
undecodable s = none

abbrev unknown_table : Str → Str → Answer
unknown_table schema t = no_rows

abbrev pair_event : Event
pair_event = record { body = some deleted_pair; commit_position = bytes "0/1" }

process_wal_event-Handled_example :
    Handled undecodable unknown_table [] pair_event
      (process_wal_event undecodable unknown_table pair_event []).1
process_wal_event-Handled_example =
    process_wal_event-Handled undecodable unknown_table [] pair_event
