-- ===== src/Database/Invariant.antt =====
-- Core/Database.cpp: the two indexes say what the vector of tables says.
use mathlib.Core.Option
use mini_database.Prelude.{
  ℕ, ◌≤◌, ◌<◌, ◌≡◌, refl, ap, ◌∙◌, Option, none, some, is_some, String, arith, leb, if◌then◌else◌,
  All, length,
}
use mini_database.Common.{
  Status, ok, out_of_memory, table_already_exists, table_not_found, max_tables,
}
use mini_database.Packages.Json.{JsonLib}
use mini_database.Packages.Pool.{PoolLib}
use mini_database.Packages.HashMap.{HashMapLib}
use mini_database.Table.{Table, IdMap}
use mini_database.Database
use mini_database.Database.{Cell, Database, NameMap, remove_id}
use mini_database.Database.Cells.{
  find_name, find_id, find_address, DistinctNames, DistinctIds, DistinctAddresses,
}

module _ (J : JsonLib) (P : PoolLib) (M : IdMap) (N : NameMap) where
  open N use {contains-at, at-insert, at-erase, at-empty}

  abbrev pub id_of : Cell J P M → ℕ
  id_of c = c.value.id

  abbrev pub address_of : Cell J P M → ℕ
  address_of c = c.address

  pub record IsConsistent (db : Database J P M N) : Type 0 where
    -- index takes each table's name to its id, and has no other key
    pub names :
        (name : String)
        → HashMapLib.at N db.index name ≡ Option.map id_of (find_name J P M name db.tables)
    -- table_index takes each table's id to its address, and has no other key
    pub ids :
        (tid : ℕ)
        → HashMapLib.at M db.table_index tid ≡ Option.map address_of (find_id J P M tid db.tables)
    pub distinct_names : DistinctNames J P M db.tables
    pub distinct_ids : DistinctIds J P M db.tables
    pub distinct_addresses : DistinctAddresses J P M db.tables
    -- the counters are above every table's id and address
    pub ids_below : All (λ c. id_of c < db.next_table_id) db.tables
    pub addresses_below : All (λ c. address_of c < db.next_address) db.tables
    pub few : length db.tables ≤ max_tables

  pub make-IsConsistent : (name : String) → IsConsistent (Database.make J P M N name)
  unfolding Database.make find_name find_id
  make-IsConsistent name = record {
    names = at-empty;
    ids = HashMapLib.at-empty M;
    distinct_names = tt;
    distinct_ids = tt;
    distinct_addresses = tt;
    ids_below = tt;
    addresses_below = tt;
    few = omega arith;
  }

  -- What a database promises: it is a map from names to tables.
  abbrev pub View : Type 0
  View = String → Option (Table J P M)

  abbrev pub view : Database J P M N → View
  view db name = Option.map (λ (c : Cell J P M). c.value) (find_name J P M name db.tables)

  -- What a pointer that is not null points to; a dangling one points to nothing.
  abbrev pub pointee : Database J P M N → Option ℕ → Option (Table J P M)
  pointee db none = none
  pointee db (some a) = Option.map (λ (c : Cell J P M). c.value) (find_address J P M a db.tables)

  -- The status of the two operations, by what is there.
  abbrev pub create_status : ℕ → Option (Table J P M) → Status
  create_status n old =
      if leb max_tables n then out_of_memory else if is_some old then table_already_exists else ok

  abbrev pub drop_status : Option (Table J P M) → Status
  drop_status old = if is_some old then ok else table_not_found

  module _ (db : Database J P M N) (inv : IsConsistent db) where
    pub has_table-view :
        (name : String)
        → Database.has_table J P M N db name ≡ is_some (find_name J P M name db.tables)
    unfolding Database.has_table
    has_table-view name =
        contains-at db.index name
        ∙ ap is_some (inv.names name)
        ∙ is_some-map (find_name J P M name db.tables)
      where
        is_some-map : (o : Option (Cell J P M)) → is_some (Option.map id_of o) ≡ is_some o
        is_some-map none = refl
        is_some-map (some c) = refl
