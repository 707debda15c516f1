-- ===== src/Database/Tables.antt =====
-- Core/Database.cpp: createTable, dropTable and getTable against a map from names to tables.
use mini_database.Prelude.{
  ℕ, ◌+◌, ◌%◌, ◌^◌, ◌<◌, ◌≡◌, refl, sym, subst, Option-cases, Bool-cases, inl, inr, Option, none,
  some, is_some, List, String, str_eq, arith, true, leb, if◌then◌else◌, length, ◌&&◌,
}
use mini_database.Common.{
  Status, ok, out_of_memory, table_already_exists, table_not_found, ColumnDef, max_tables,
}
use mini_database.Packages.Json.{JsonLib}
use mini_database.Packages.Pool.{PoolLib}
use mini_database.Packages.HashMap.{HashMapLib}
use mini_database.Table
use mini_database.Table.{Table, IdMap}
use mini_database.Table.Contract.{is_ok}
use mini_database.Database
use mini_database.Database.{next_table_id, Cell, Database, NameMap, remove_id}
use mini_database.Database.Invariant.{
  IsConsistent, view, pointee, create_status, drop_status, has_table-view,
}
use mini_database.Database.Growth.{grown, grown-IsConsistent, view-grown}
use mini_database.Database.Cells.{
  find_name, find_id, find_id-below, find_id-of_name, find_address-of_name,
}
use mini_database.Database.Removal.{
  find_id-remove_id, find_name-remove_id, DistinctAddresses-remove_id, DistinctNames-remove_id,
  DistinctIds-remove_id, All-remove_id, length-remove_id,
}

module _ (J : JsonLib) (P : PoolLib) (M : IdMap) (N : NameMap) (db : Database J P M N)
    (inv : IsConsistent J P M N db) where
  -- getTable on a consistent database raises nothing and answers null exactly when no table has the
  -- name; else a pointer that is not dangling, to the table of that name.
  pub get_table-view :
      (name : String)
      → (answer : Option ℕ) × (Database.get_table J P M N db name ≡ some answer)
        × (pointee J P M N db answer ≡ view J P M N db name)
        × (is_some answer ≡ is_some (view J P M N db name))
  unfolding Database.get_table
  get_table-view name = elim (Option-cases (find_name J P M name db.tables)) [
    | inl absent ↦ (
      none,
      ground (arith, has_table-view J P M N db inv name, absent),
      ground (arith, absent),
      ground (arith, absent),
    )
    | inr (c, found) ↦
        let by_id = find_id-of_name J P M db.tables name c inv.distinct_ids found in
        let by_address = find_address-of_name J P M db.tables name c inv.distinct_addresses found in
        (
          some c.address,
          ground (
            arith,
            has_table-view J P M N db inv name,
            found,
            inv.names name,
            inv.ids c.value.id,
            by_id,
            HashMapLib.contains-at M db.table_index c.value.id,
          ),
          ground (arith, by_address, found),
          ground (arith, found),
        )
  ]

  module _ (name : String) (schema : List ColumnDef) (fresh : find_name J P M name db.tables ≡ none)
      (room : length db.tables < max_tables) (more : db.next_table_id + 1 < 2 ^ 32) where
    abbrev table : Table J P M
    table = Table.make J P M name db.next_table_id schema

    abbrev extended : Database J P M N
    extended = grown J P M N db table ((db.next_table_id + 1) % 2 ^ 32) true

    create_table-extended : Database.create_table J P M N db name schema ≡ (extended, ok)
    unfolding Database.create_table next_table_id Table.make
    create_table-extended = ground (arith, has_table-view J P M N db inv name, fresh)

    no_id : find_id J P M db.next_table_id db.tables ≡ none
    no_id = find_id-below J P M db.next_table_id db.tables inv.ids_below

    extended-IsConsistent : IsConsistent J P M N extended
    unfolding Table.make
    extended-IsConsistent =
        grown-IsConsistent J P M N db table ((db.next_table_id + 1) % 2 ^ 32) true inv fresh no_id
          room (omega arith) (omega arith)

    view-extended :
        (other : String)
        → view J P M N extended other
          ≡ (if str_eq name other then some table else view J P M N db other)
    unfolding Table.make
    view-extended = view-grown J P M N db table ((db.next_table_id + 1) % 2 ^ 32) true inv fresh

  -- What createTable promises of its answer.
  abbrev pub Created : String → List ColumnDef → Database J P M N × Status → Type 0
  Created name schema answer =
      (answer.1 ≡ create_status J P M N (length db.tables) (view J P M N db name))
      × IsConsistent J P M N answer.0
      × ((other : String)
          → view J P M N answer.0 other ≡ (
              if is_ok answer.1 && str_eq name other
              then some (Table.make J P M name db.next_table_id schema)
              else view J P M N db other))

  -- createTable on a consistent database whose id counter is below 2^32 - 1 answers OUT_OF_MEMORY if the
  -- database is full, else TABLE_ALREADY_EXISTS if a table has the name, else ok. On ok the map has an
  -- empty table of the schema under the name; nothing else of the map changes, and the database stays
  -- consistent.
  pub create_table-Created :
      (name : String) (schema : List ColumnDef)
      → db.next_table_id + 1 < 2 ^ 32
      → Created name schema (Database.create_table J P M N db name schema)
  create_table-Created name schema more = elim (Bool-cases (leb max_tables (length db.tables))) [
    | inl full ↦
        let e : Database.create_table J P M N db name schema ≡ (db, out_of_memory) =
          unfold Database.create_table in ground (arith, full) in
        subst (Created name schema) (sym e) (ground (arith, full), inv, λ other. refl)
    | inr room ↦ elim (Option-cases (find_name J P M name db.tables)) [
      | inr (c, found) ↦
          let e : Database.create_table J P M N db name schema ≡ (db, table_already_exists) =
            unfold Database.create_table in
            ground (arith, room, has_table-view J P M N db inv name, found) in
          subst (Created name schema) (sym e) (ground (arith, room, found), inv, λ other. refl)
      | inl fresh ↦
          let room' : length db.tables < max_tables = ground (arith, room) in
          subst (Created name schema) (sym (create_table-extended name schema fresh room' more)) (
            ground (arith, room, fresh),
            extended-IsConsistent name schema fresh room' more,
            view-extended name schema fresh room' more,
          )
    ]
  ]

  -- What is left when the table of a name is dropped.
  module _ (name : String) (c : Cell J P M) (found : find_name J P M name db.tables ≡ some c) where
    abbrev reduced : Database J P M N
    reduced = record db {
      tables = remove_id J P M c.value.id db.tables;
      index = HashMapLib.erase N db.index name;
      table_index = HashMapLib.erase M db.table_index c.value.id;
      dirty = true;
    }

    drop_table-reduced : Database.drop_table J P M N db name ≡ some (reduced, ok)
    unfolding Database.drop_table
    drop_table-reduced = ground (arith, has_table-view J P M N db inv name, found, inv.names name)

    reduced-IsConsistent : IsConsistent J P M N reduced
    reduced-IsConsistent = record {
      names = λ other. ground (
        arith,
        HashMapLib.at-erase N db.index name other,
        inv.names other,
        find_name-remove_id J P M db.tables name other c inv.distinct_ids inv.distinct_names found,
      );
      ids = λ tid. ground (
        arith,
        HashMapLib.at-erase M db.table_index c.value.id tid,
        inv.ids tid,
        find_id-remove_id J P M c.value.id tid db.tables,
      );
      distinct_names = DistinctNames-remove_id J P M c.value.id db.tables inv.distinct_names;
      distinct_ids = DistinctIds-remove_id J P M c.value.id db.tables inv.distinct_ids;
      distinct_addresses =
          DistinctAddresses-remove_id J P M c.value.id db.tables inv.distinct_addresses;
      ids_below = All-remove_id J P M _ c.value.id db.tables inv.ids_below;
      addresses_below = All-remove_id J P M _ c.value.id db.tables inv.addresses_below;
      few = omega (arith, length-remove_id J P M c.value.id db.tables, inv.few);
    }

    view-reduced :
        (other : String)
        → view J P M N reduced other ≡ (if str_eq name other then none else view J P M N db other)
    view-reduced other = ground (
      arith,
      find_name-remove_id J P M db.tables name other c inv.distinct_ids inv.distinct_names found,
    )

  -- dropTable on a consistent database raises nothing and answers ok if a table has the name, and
  -- TABLE_NOT_FOUND if not. On ok that table is gone from the map; nothing else of the map changes, and
  -- the database stays consistent.
  pub drop_table-view :
      (name : String)
      → (after : Database J P M N) × (status : Status) × (Database.drop_table J P M N db name
          ≡ some (after, status))
        × (status ≡ drop_status J P M N (view J P M N db name))
        × IsConsistent J P M N after
        × ((other : String)
            → view J P M N after other
              ≡ (if is_ok status && str_eq name other then none else view J P M N db other))
  drop_table-view name = elim (Option-cases (find_name J P M name db.tables)) [
    | inl absent ↦ (
      db,
      table_not_found,
      (unfold Database.drop_table in ground (arith, has_table-view J P M N db inv name, absent)),
      ground (arith, absent),
      inv,
      λ other. refl,
    )
    | inr (c, found) ↦ (
      reduced name c found,
      ok,
      drop_table-reduced name c found,
      ground (arith, found),
      reduced-IsConsistent name c found,
      view-reduced name c found,
    )
  ]
