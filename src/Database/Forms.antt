-- ===== src/Database/Forms.antt =====
-- src/MiniDB/Core/Database.cpp, section 3, with save and load: the JSON form of a database and its file.
-- A `none` for a status is an exception. The outer `none` of fromJson and load is a database whose
-- vector still points to the tables that fromJson has deleted.
use mini_database.Prelude.{
  ℕ, ◌+◌, ◌%◌, ◌^◌, false, Option, none, some, List, [], ◌∷◌, ◌++◌, map, String, ltb, ◌==◌,
  if◌then◌else◌, ◌>>=◌, length,
}
use mini_database.Common.{Status, ok, parse_error, out_of_memory, max_tables, invalid_table_id}
use mini_database.Packages.Json.{JsonLib}
use mini_database.Packages.Pool.{PoolLib}
use mini_database.Packages.HashMap.{HashMapLib}
use mini_database.Packages.Text.{TextLib}
use mini_database.Packages.Files.{Files}
use mini_database.FileIo.Whole.{read_file, write_file_atomic}
use mini_database.Table
use mini_database.Table.{Table, IdMap}
use mini_database.Table.Forms
use mini_database.Table.Forms.{max}
use mini_database.Database.{Cell, Database, NameMap}

-- The scratch containers of fromJson, with maxTableId and the allocator's next address.
pub record Scratch (J : JsonLib) (P : PoolLib) (M : IdMap) (N : NameMap) : Type 0 where
  pub tables : List (Cell J P M)
  pub index : HashMapLib.HashMap N
  pub table_index : HashMapLib.HashMap M
  pub max_table_id : ℕ
  pub next_address : ℕ

module _ (J : JsonLib) (P : PoolLib) (M : IdMap) (N : NameMap) where
  open J use {Json, object, array, of_string, is_null, as_string, as_array, at, put, dump, parse}

  -- toJson
  unfoldable pub to_json : Database J P M N → Json
  to_json db =
      let with_name = put object "__db_name__" (of_string db.name) in
      put with_name "tables" (array (map (λ c. Table.Forms.to_json J P M c.value) db.tables))

  unfoldable pub no_tables : ℕ → Scratch J P M N
  no_tables next_address = record {
    tables = [];
    index = HashMapLib.empty N;
    table_index = HashMapLib.empty M;
    max_table_id = 0;
    next_address = next_address;
  }

  -- The end of a round of fromJson's loop: `t` joins the scratch containers.
  unfoldable pub add_table : Scratch J P M N → Table J P M → Scratch J P M N
  add_table s t = record {
    tables = s.tables ++ record { address = s.next_address; value = t } ∷ [];
    index = HashMapLib.insert N s.index (Table.get_name J P M t) (Table.get_id J P M t);
    table_index = HashMapLib.insert M s.table_index (Table.get_id J P M t) s.next_address;
    max_table_id = max s.max_table_id (Table.get_id J P M t);
    next_address = s.next_address + 1;
  }

  -- fromJson's loop. The tables of a loop that fails are deleted or leaked, but no pointer to one is left.
  unfoldable pub load_tables : Scratch J P M N → List Json → Scratch J P M N × Option Status
  unfolding add_table
  load_tables scratch [] = (scratch, some ok)
  load_tables scratch (entry ∷ entries) =
      let (t, s) = Table.Forms.from_json J P M (Table.make J P M "" invalid_table_id []) entry in
      elim s [
        | none ↦ (scratch, none)
        | some ok ↦ load_tables (add_table scratch t) entries
        | some failed ↦ (scratch, some failed)
      ]

  -- The assignments at the end of fromJson.
  unfoldable pub rebuilt : String → Scratch J P M N → Database J P M N
  rebuilt name scratch = record {
    name = name;
    tables = scratch.tables;
    index = scratch.index;
    table_index = scratch.table_index;
    next_table_id = if length scratch.tables == 0 then 0 else (scratch.max_table_id + 1) % 2 ^ 32;
    dirty = false;
    next_address = scratch.next_address;
  }

  -- The end of fromJson, from where it deletes the tables that the database has.
  -- An exception then leaves a vector of deleted tables, or the database as it was if it has none.
  unfoldable pub replace :
      Database J P M N → Json → Scratch J P M N → Option (Database J P M N × Option Status)
  unfolding rebuilt
  replace db envelope scratch = elim (at envelope "__db_name__" >>= as_string) [
    | none ↦ if length db.tables == 0 then some (db, none) else none
    | some name ↦ some (rebuilt name scratch, some ok)
  ]

  -- What follows fromJson's loop.
  unfoldable pub after_loop :
      Database J P M N
      → Json
      → Scratch J P M N × Option Status
      → Option (Database J P M N × Option Status)
  unfolding replace
  after_loop db envelope (scratch, none) = some (db, none)
  after_loop db envelope (scratch, some ok) = replace db envelope scratch
  after_loop db envelope (scratch, some failed) = some (db, some failed)

  -- fromJson
  unfoldable pub from_json : Database J P M N → Json → Option (Database J P M N × Option Status)
  unfolding no_tables load_tables after_loop
  from_json db envelope =
      if is_null envelope
      then some (db, some parse_error)
      else elim (at envelope "tables" >>= as_array) [
        | none ↦ some (db, none)
        | some entries ↦
            if ltb max_tables (length entries)
            then some (db, some out_of_memory)
            else after_loop db envelope (load_tables (no_tables db.next_address) entries)
      ]

  -- `catch (const std::exception&)`
  abbrev pub or_parse_error :
      Option (Database J P M N × Option Status) → Option (Database J P M N × Status)
  or_parse_error none = none
  or_parse_error (some (db, none)) = some (db, parse_error)
  or_parse_error (some (db, some s)) = some (db, s)

  -- The `try` block of load.
  unfoldable pub load_text : Database J P M N → String → Option (Database J P M N × Status)
  unfolding from_json
  load_text db raw = elim (parse raw) [
    | none ↦ some (db, parse_error)
    | some envelope ↦
        if is_null envelope then some (db, parse_error) else or_parse_error (from_json db envelope)
  ]

  module _ (T : TextLib) (F : Files) where
    -- save; none where an exception leaves writeFileAtomic
    unfoldable pub save : Database J P M N → String → Files.World F → Files.World F × Option Status
    unfolding to_json
    save db path w = write_file_atomic F path (TextLib.bytes_of T (dump (to_json db))) w

    -- What load does with readFile's answer.
    unfoldable pub after_read :
        Database J P M N → Option (List ℕ) × Status → Option (Database J P M N × Status)
    unfolding load_text
    after_read db (raw, ok) =
        load_text db (TextLib.text_of T (elim raw [ none ↦ [] | some bytes ↦ bytes ]))
    after_read db (raw, failed) = some (db, failed)

    -- load
    unfoldable pub load :
        Database J P M N → String → Files.World F → Option (Database J P M N × Status)
    unfolding after_read
    load db path w = after_read db (read_file F path w)
