-- ===== src/Database.antt =====
-- src/MiniDB/Core/Database.cpp and include/MiniDB/Core/Database.h: tables by name.
-- A `Table*` is an address. The database owns its tables: what the vector `tables` points to is exactly
-- what it has allocated and not deleted, so a cell of the vector holds the address and the object, and
-- an address that no cell has is a dangling pointer. `none` in a result is an exception.
pub mod Cells
pub mod Removal
pub mod Invariant
pub mod Frames
pub mod Tables
pub mod Forms
pub mod Growth
pub mod Rebuilt
pub mod Loading
pub mod RoundTrip
pub mod Crash
use mini_database.Prelude.{
  ℕ, ◌+◌, ◌%◌, ◌^◌, Bool, true, false, not, Option, none, some, List, [], ◌∷◌, ◌++◌, String, str_eq,
  leb, ◌==◌, if◌then◌else◌, ◌>>=◌, length,
}
use mathlib.Core.Option
use mini_database.Common.{
  Status, ok, out_of_memory, table_already_exists, table_not_found, ColumnDef, max_tables,
}
use mini_database.Packages.Json.{JsonLib}
use mini_database.Packages.Pool.{PoolLib}
use mini_database.Packages.HashMap.{HashMapLib}
use mini_database.Table
use mini_database.Table.{Table, IdMap}

abbrev pub NameMap : Type 1
NameMap = HashMapLib String ℕ str_eq

-- A `Table*` of the vector, with the table that it points to.
pub record Cell (J : JsonLib) (P : PoolLib) (M : IdMap) : Type 0 where
  pub address : ℕ
  pub value : Table J P M

-- class Database; `next_address` is the allocator's: no table has it or a higher address.
pub record Database (J : JsonLib) (P : PoolLib) (M : IdMap) (N : NameMap) : Type 0 where
  pub name : String
  pub tables : List (Cell J P M)
  pub index : HashMapLib.HashMap N
  pub table_index : HashMapLib.HashMap M
  pub next_table_id : ℕ
  pub dirty : Bool
  pub next_address : ℕ

-- The loops over the vector of tables.
module _ (J : JsonLib) (P : PoolLib) (M : IdMap) where
  -- remove_if of dropTable, whose test deletes the tables that it matches
  unfoldable pub remove_id : ℕ → List (Cell J P M) → List (Cell J P M)
  remove_id tid [] = []
  remove_id tid (c ∷ cs) =
      let rest = remove_id tid cs in if Table.get_id J P M c.value == tid then rest else c ∷ rest

  -- The loop of compact, which a table's failure leaves early.
  unfoldable pub compact_tables : List (Cell J P M) → List (Cell J P M) × Status
  compact_tables [] = ([], ok)
  compact_tables (c ∷ cs) =
      let (t, s) = Table.compact J P M c.value in
      let (cs', s') = compact_tables cs in
      elim s [
        | ok ↦ (record c { value = t } ∷ cs', s')
        | failed ↦ (record c { value = t } ∷ cs, failed)
      ]

  -- The loop of recordCount.
  unfoldable pub count_records : List (Cell J P M) → ℕ
  count_records [] = 0
  count_records (c ∷ cs) = Table.record_count J P M c.value + count_records cs

module _ (J : JsonLib) (P : PoolLib) (M : IdMap) (N : NameMap) where
  open N use {empty, insert, erase, contains, at}

  -- Database(name)
  unfoldable pub make : String → Database J P M N
  make name = record {
    name = name;
    tables = [];
    index = empty;
    table_index = HashMapLib.empty M;
    next_table_id = 0;
    dirty = false;
    next_address = 0;
  }

  -- What a move leaves of the database that it takes from. `left_name` is what moving a string leaves.
  unfoldable pub moved_from : String → Database J P M N → Database J P M N
  moved_from left_name other = record {
    name = left_name;
    tables = [];
    index = empty;
    table_index = HashMapLib.empty M;
    next_table_id = 0;
    dirty = false;
    next_address = other.next_address;
  }

  -- Database(Database&&), and operator=(Database&&) from another object, which deletes this one's
  -- tables: the database and the other afterwards
  unfoldable pub move_construct : String → Database J P M N → Database J P M N × Database J P M N
  unfolding moved_from
  move_construct left_name other = (other, moved_from left_name other)

  unfoldable pub move_assign :
      String → Database J P M N → Database J P M N → Database J P M N × Database J P M N
  unfolding moved_from
  move_assign left_name db other = (other, moved_from left_name other)

  -- nextTableID: the counter is a uint32_t
  unfoldable pub next_table_id : Database J P M N → Database J P M N × ℕ
  next_table_id db =
      (record db { next_table_id = (db.next_table_id + 1) % 2 ^ 32 }, db.next_table_id)

  -- hasTable
  unfoldable pub has_table : Database J P M N → String → Bool
  has_table db name = contains db.index name

  -- createTable
  unfoldable pub create_table :
      Database J P M N → String → List ColumnDef → Database J P M N × Status
  unfolding has_table next_table_id
  create_table db name schema =
      if leb max_tables (length db.tables)
      then (db, out_of_memory)
      else if has_table db name
      then (db, table_already_exists)
      else let (u, tid) = next_table_id db in
        let table = Table.make J P M name tid schema in
        (
          record u {
            tables = u.tables ++ record { address = u.next_address; value = table } ∷ [];
            index = insert u.index name tid;
            table_index = HashMapLib.insert M u.table_index tid u.next_address;
            dirty = true;
            next_address = u.next_address + 1;
          },
          ok,
        )

  -- dropTable
  unfoldable pub drop_table : Database J P M N → String → Option (Database J P M N × Status)
  unfolding has_table remove_id
  drop_table db name = if not (has_table db name) then some (db, table_not_found) else do
    tid ← at db.index name
    some (
      record db {
        tables = remove_id J P M tid db.tables;
        index = erase db.index name;
        table_index = HashMapLib.erase M db.table_index tid;
        dirty = true;
      },
      ok,
    )

  -- getTable, both overloads: the pointer, which may be null
  unfoldable pub get_table : Database J P M N → String → Option (Option ℕ)
  unfolding has_table
  get_table db name = if not (has_table db name) then some none else do
    tid ← at db.index name
    (if not (HashMapLib.contains M db.table_index tid)
        then some none
        else Option.map some (HashMapLib.at M db.table_index tid))

  -- compact
  unfoldable pub compact : Database J P M N → Database J P M N × Status
  unfolding compact_tables
  compact db =
      let (cs, s) = compact_tables J P M db.tables in
      elim s [
        | ok ↦ (record db { tables = cs; dirty = false }, ok)
        | failed ↦ (record db { tables = cs }, failed)
      ]

  unfoldable pub get_name : Database J P M N → String
  get_name db = db.name

  unfoldable pub table_count : Database J P M N → ℕ
  table_count db = length db.tables

  unfoldable pub is_dirty : Database J P M N → Bool
  is_dirty db = db.dirty

  unfoldable pub is_empty : Database J P M N → Bool
  is_empty db = length db.tables == 0

  unfoldable pub get_tables : Database J P M N → List (Cell J P M)
  get_tables db = db.tables

  unfoldable pub record_count : Database J P M N → ℕ
  unfolding count_records
  record_count db = count_records J P M db.tables
