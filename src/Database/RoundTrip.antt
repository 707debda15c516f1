-- ===== src/Database/RoundTrip.antt =====
-- Core/Database.cpp, section 3, with save and load: a database loaded from the file that it was saved in.
use mini_database.Prelude.{
  ℕ, ◌+◌, ◌%◌, ◌^◌, ◌<◌, ◌≡◌, inl, inr, refl, sym, ◌∙◌, subst, true, false, some, List, [], ◌∷◌,
  map, String, arith, All, length, ◌==◌, if◌then◌else◌, length-map,
}
use mini_database.Common.{ok}
use mini_database.Packages.Json.{JsonLib}
use mini_database.Packages.Pool.{PoolLib}
use mini_database.Packages.Text.{TextLib}
use mini_database.Packages.Files.{Files, ReadsFile}
use mini_database.FileIo.Reads.{read_file-content}
use mini_database.FileIo.Atomic.{write_file_atomic-Atomic}
use mini_database.Table
use mini_database.Table.{IdMap}
use mini_database.Table.Forms
use mini_database.Database.{Cell, Database, NameMap}
use mini_database.Database.Cells.{find_name}
use mini_database.Database.Invariant.{IsConsistent, view}
use mini_database.Database.Forms.{
  Scratch, no_tables, rebuilt, replace, after_loop, to_json, from_json, save, load, load_text,
  after_read,
}
use mini_database.Database.Rebuilt.{
  Matches, AllStorable, find_name-Each, as_database, load_tables-Filled, no_tables-IsConsistent,
  Fresh-none, value_of,
}

module _ (J : JsonLib) (P : PoolLib) (M : IdMap) (N : NameMap) where
  open J use {
    Json, object, array, of_string, is_null, is_object, as_string, as_array, at, put, dump, parse,
    object-is_object, put-is_object, object-not_null, at-put, as_array-array, as_string-of_string,
  }

  module _ (db : Database J P M N) where
    abbrev entries : List Json
    entries = map (λ c. Table.Forms.to_json J P M c.value) db.tables

    with_name-is_object : is_object (put object "__db_name__" (of_string db.name)) ≡ true
    with_name-is_object = put-is_object _ _ _ object-is_object

    to_json-not_null : is_null (to_json J P M N db) ≡ false
    unfolding to_json
    to_json-not_null = object-not_null _ (put-is_object _ _ _ with_name-is_object)

    at_tables : at (to_json J P M N db) "tables" ≡ some (array entries)
    unfolding to_json
    at_tables = at-put _ "tables" "tables" (array entries) with_name-is_object

    at_name : at (to_json J P M N db) "__db_name__" ≡ some (of_string db.name)
    unfolding to_json
    at_name =
        at-put _ "tables" "__db_name__" (array entries) with_name-is_object
        ∙ at-put _ "__db_name__" "__db_name__" (of_string db.name) object-is_object

  next_id : Scratch J P M N → ℕ
  next_id s = if length s.tables == 0 then 0 else (s.max_table_id + 1) % 2 ^ 32

  below_next :
      (m : ℕ) (cs : List (Cell J P M))
      → m < 2 ^ 31
      → All (λ c. c.value.id < m + 1) cs
      → All (λ c. c.value.id < (if length cs == 0 then 0 else (m + 1) % 2 ^ 32)) cs
  below_next m [] h a = tt
  below_next m (d ∷ cs) h a =
      let e : (if length (d ∷ cs) == 0 then 0 else (m + 1) % 2 ^ 32) ≡ m + 1 = ground arith in
      subst (λ k. All (λ c. c.value.id < k) (d ∷ cs)) (sym e) a

  rebuilt-IsConsistent :
      (name : String) (s : Scratch J P M N)
      → s.max_table_id < 2 ^ 31
      → IsConsistent J P M N (as_database J P M N s)
      → IsConsistent J P M N (rebuilt J P M N name s)
  unfolding rebuilt
  rebuilt-IsConsistent name s small inv = record {
    names = inv.names;
    ids = inv.ids;
    distinct_names = inv.distinct_names;
    distinct_ids = inv.distinct_ids;
    distinct_addresses = inv.distinct_addresses;
    ids_below = below_next s.max_table_id s.tables small inv.ids_below;
    addresses_below = inv.addresses_below;
    few = inv.few;
  }

  -- A consistent database with the name of another and copies of its tables under their names.
  pub record Restored (db u : Database J P M N) : Type 0 where
    pub name_eq : u.name ≡ db.name
    pub consistent : IsConsistent J P M N u
    pub tables_match : (name : String) → Matches J P M (view J P M N db name) (view J P M N u name)

  -- fromJson of what toJson writes, on any database.
  pub from_json-Restored :
      (d db : Database J P M N)
      → IsConsistent J P M N db
      → AllStorable J P M db.tables
      → (u : Database J P M N) × (from_json J P M N d (to_json J P M N db) ≡ some (u, some ok))
        × Restored db u
  unfolding from_json after_loop replace rebuilt no_tables
  from_json-Restored d db inv storable =
      let (s, s-eq, f) =
        load_tables-Filled J P M N (no_tables J P M N d.next_address) db.tables
          (no_tables-IsConsistent J P M N d.next_address) (omega arith) (omega (arith, inv.few))
          (Fresh-none J P M db.tables) inv.distinct_names inv.distinct_ids storable in
      (
        rebuilt J P M N db.name s,
        ground (
          arith,
          to_json-not_null db,
          at_tables db,
          at_name db,
          as_array-array (entries db),
          as_string-of_string db.name,
          s-eq,
          length-map db.tables (λ (c : Cell J P M). Table.Forms.to_json J P M c.value),
          inv.few,
        ),
        record {
          name_eq = refl;
          consistent = rebuilt-IsConsistent db.name s f.small f.consistent;
          tables_match = λ name.
              subst
                (λ cs.
                  Matches J P M (view J P M N db name) (value_of J P M (find_name J P M name cs)))
                (sym f.tables_eq) (find_name-Each J P M name f.each);
        },
      )

  -- Loading a file that holds the text of a database.
  pub load-content :
      (T : TextLib) (F : Files) (d db : Database J P M N) (path : String) (w : Files.World F)
      → IsConsistent J P M N db
      → AllStorable J P M db.tables
      → parse (dump (to_json J P M N db)) ≡ some (to_json J P M N db)
      → ReadsFile F w path (TextLib.bytes_of T (dump (to_json J P M N db)))
      → (u : Database J P M N) × (load J P M N T F d path w ≡ some (u, ok)) × Restored db u
  unfolding load after_read load_text
  load-content T F d db path w inv storable parsed reads =
      let text : List ℕ = TextLib.bytes_of T (dump (to_json J P M N db)) in
      let (u, u-eq, r) = from_json-Restored d db inv storable in
      (
        u,
        ground (
          arith,
          read_file-content F path w text reads,
          parsed,
          TextLib.text_of-bytes_of T (dump (to_json J P M N db)),
          to_json-not_null db,
          u-eq,
        ),
        r,
      )

  -- Loading, on any database, the file of a save that answered ok answers ok and gives a consistent
  -- database with the name of the saved one and, under every name, a copy of its table or no table as
  -- it has none: a consistent table with its name, id, schema and map. The saved database and its
  -- tables are consistent, their ids are below 2^31 and their columns' types enumerators; the parser
  -- reads the text back, and reading the file gives what it holds.
  pub load-save :
      (T : TextLib) (F : Files) (d db : Database J P M N) (path : String) (w : Files.World F)
      → IsConsistent J P M N db
      → AllStorable J P M db.tables
      → parse (dump (to_json J P M N db)) ≡ some (to_json J P M N db)
      → (save J P M N T F db path w).1 ≡ some ok
      → ((bytes : List ℕ)
          → Files.content F (save J P M N T F db path w).0 path ≡ some bytes
          → ReadsFile F (save J P M N T F db path w).0 path bytes)
      → (u : Database J P M N) × (load J P M N T F d path (save J P M N T F db path w).0
          ≡ some (u, ok))
        × Restored db u
  unfolding save
  load-save T F d db path w inv storable parsed stored reads =
      let text : List ℕ = TextLib.bytes_of T (dump (to_json J P M N db)) in
      elim (write_file_atomic-Atomic F path text w) [
        | inr (broken, _) ↦ absurd (ground (arith, stored, broken))
        | inl (_, held) ↦
            load-content T F d db path (save J P M N T F db path w).0 inv storable parsed
              (reads text held)
      ]
