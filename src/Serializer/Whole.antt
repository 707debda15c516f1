-- ===== src/Serializer/Whole.antt =====
-- Engine/Serializer.cpp: exportDatabaseToJson and importDatabaseFromJson.
use mini_database.Prelude.{ℕ, not, Option, none, some, List, [], ◌∷◌, String, ◌==◌, if◌then◌else◌}
use mini_database.Common.{Status, ok, parse_error}
use mini_database.Packages.Json.{JsonLib}
use mini_database.Packages.Pool.{PoolLib}
use mini_database.Packages.Text.{TextLib}
use mini_database.Packages.Files.{Files}
use mini_database.FileIo.Whole.{read_file, write_file_atomic}
use mini_database.Table
use mini_database.Table.{Table, IdMap}
use mini_database.Database
use mini_database.Database.{Database, NameMap, Cell}
use mini_database.Database.Cells.{find_address}
use mini_database.Serializer.{export_pages, import_table_from_json}

module _ (J : JsonLib) (P : PoolLib) (M : IdMap) where
  open J use {Json, object, array, is_null, put, dump, parse, entries}

  -- The loop of exportDatabaseToJson over the tables.
  unfoldable pub export_tables : List (Cell J P M) → Json → Json
  export_tables [] envelope = envelope
  export_tables (c ∷ cs) envelope =
      export_tables cs
        (put envelope (Table.get_name J P M c.value) (array (export_pages J P c.value.pages [])))

  -- An assignment to the table that a pointer points to.
  unfoldable pub set_table : ℕ → Table J P M → List (Cell J P M) → List (Cell J P M)
  set_table a table [] = []
  set_table a table (c ∷ cs) =
      let rest = set_table a table cs in
      if a == c.address then record c { value = table } ∷ cs else c ∷ rest

  module _ (N : NameMap) where
    -- A round of importDatabaseFromJson's loop: the database, and the status if the loop is left.
    unfoldable pub import_named :
        Database J P M N → String → Json → Option (Database J P M N × Status)
    unfolding set_table
    import_named db table_name table_data =
        if not (Database.has_table J P M N db table_name)
        then some (db, ok)
        else elim (Database.get_table J P M N db table_name) [
          | none ↦ none
          | some none ↦ some (db, ok)
          | some (some a) ↦ elim (find_address J P M a db.tables) [
            | none ↦ none
            | some c ↦ elim (import_table_from_json J P M c.value table_data) [
              | none ↦ none
              | some (table, s) ↦ some (record db { tables = set_table a table db.tables }, s)
            ]
          ]
        ]

    -- The loop of importDatabaseFromJson.
    unfoldable pub import_tables :
        List (String × Json) → Database J P M N → Option (Database J P M N × Status)
    unfolding import_named
    import_tables [] db = some (db, ok)
    import_tables ((table_name, table_data) ∷ rest) db =
        elim (import_named db table_name table_data) [
          | none ↦ none
          | some (db', ok) ↦ import_tables rest db'
          | some (db', failed) ↦ some (db', failed)
        ]

    module _ (T : TextLib) (F : Files) where
      -- exportDatabaseToJson; none where an exception leaves writeFileAtomic
      unfoldable pub export_database_to_json :
          Database J P M N → String → Files.World F → Files.World F × Option Status
      unfolding export_tables
      export_database_to_json db path w =
          write_file_atomic F path (TextLib.bytes_of T (dump (export_tables db.tables object))) w

      -- importDatabaseFromJson
      unfoldable pub import_database_from_json :
          Database J P M N → String → Files.World F → Option (Database J P M N × Status)
      unfolding import_tables
      import_database_from_json db path w =
          let (raw, s) = read_file F path w in
          elim s [
            | ok ↦ elim (parse (TextLib.text_of T (elim raw [ none ↦ [] | some bytes ↦ bytes ]))) [
              | none ↦ none
              | some envelope ↦
                  if is_null envelope
                  then some (db, parse_error)
                  else elim (entries envelope) [ none ↦ none | some named ↦ import_tables named db ]
            ]
            | failed ↦ some (db, failed)
          ]
