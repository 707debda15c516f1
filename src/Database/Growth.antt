-- ===== src/Database/Growth.antt =====
-- Core/Database.cpp: a table that joins the vector and the two indexes.
use mini_database.Prelude.{
  ℕ, ◌+◌, ◌≤◌, ◌<◌, ◌≡◌, Bool, some, none, [], ◌∷◌, ◌++◌, String, str_eq, arith, if◌then◌else◌,
  All-append, All-map, length, length-append,
}
use mini_database.Common.{max_tables}
use mini_database.Packages.Json.{JsonLib}
use mini_database.Packages.Pool.{PoolLib}
use mini_database.Packages.HashMap.{HashMapLib}
use mini_database.Table.{Table, IdMap}
use mini_database.Database.{Cell, Database, NameMap}
use mini_database.Database.Invariant.{IsConsistent, view}
use mini_database.Database.Cells.{
  find_name, find_id, find_name-append, find_id-append, DistinctNames-append, DistinctIds-append,
  DistinctAddresses-append, find_address-below,
}

module _ (J : JsonLib) (P : PoolLib) (M : IdMap) (N : NameMap) (db : Database J P M N)
    (t : Table J P M) (next : ℕ) (dirty : Bool) where
  abbrev new_cell : Cell J P M
  new_cell = record { address = db.next_address; value = t }

  abbrev pub grown : Database J P M N
  grown = record db {
    tables = db.tables ++ new_cell ∷ [];
    index = HashMapLib.insert N db.index t.name t.id;
    table_index = HashMapLib.insert M db.table_index t.id db.next_address;
    next_table_id = next;
    dirty = dirty;
    next_address = db.next_address + 1;
  }

  module _ (inv : IsConsistent J P M N db) (fresh : find_name J P M t.name db.tables ≡ none) where
    pub grown-IsConsistent :
        find_id J P M t.id db.tables ≡ none
        → length db.tables < max_tables
        → t.id < next
        → db.next_table_id ≤ next
        → IsConsistent J P M N grown
    grown-IsConsistent no_id room above higher = record {
      names = λ other. ground (
        arith,
        HashMapLib.at-insert N db.index t.name t.id other,
        inv.names t.name,
        inv.names other,
        fresh,
        find_name-append J P M new_cell db.tables other,
      );
      ids = λ tid. ground (
        arith,
        HashMapLib.at-insert M db.table_index t.id db.next_address tid,
        inv.ids t.id,
        inv.ids tid,
        no_id,
        find_id-append J P M new_cell db.tables tid,
      );
      distinct_names = DistinctNames-append J P M new_cell db.tables inv.distinct_names fresh;
      distinct_ids = DistinctIds-append J P M new_cell db.tables inv.distinct_ids no_id;
      distinct_addresses =
          DistinctAddresses-append J P M new_cell db.tables inv.distinct_addresses
            (find_address-below J P M db.next_address db.tables inv.addresses_below);
      ids_below =
          All-append _ db.tables (new_cell ∷ [])
            (All-map _ _ db.tables (λ c h. omega (arith, higher, h)) inv.ids_below) (above, tt);
      addresses_below =
          All-append _ db.tables (new_cell ∷ [])
            (All-map _ _ db.tables (λ c h. omega arith) inv.addresses_below) (omega arith, tt);
      few = omega (arith, length-append db.tables (new_cell ∷ []));
    }

    pub view-grown :
        (other : String)
        → view J P M N grown other ≡ (if str_eq t.name other then some t else view J P M N db other)
    view-grown other = ground (arith, find_name-append J P M new_cell db.tables other, fresh)
