-- ===== src/StorageEngine/Databases.antt =====
-- Engine/StorageEngine.cpp, section 2: whole databases in files of the data directory.
use Prim.Native.String.{◌++◌ as str_append}
use mini_database.Prelude.{ℕ, ◌≡◌, Option, some, List, String}
use mini_database.Common.{Status, ok}
use mini_database.Packages.Json.{JsonLib}
use mini_database.Packages.Pool.{PoolLib}
use mini_database.Packages.Text.{TextLib}
use mini_database.Packages.Files.{Files, ReadsFile}
use mini_database.Table.{IdMap}
use mini_database.Database.{Database, NameMap}
use mini_database.Database.Invariant.{IsConsistent}
use mini_database.Database.Forms.{to_json, save, load}
use mini_database.Database.Rebuilt.{AllStorable}
use mini_database.Database.RoundTrip.{Restored, load-save}
use mini_database.StorageEngine.{StorageEngine, PageCache}

module _ (J : JsonLib) (P : PoolLib) (M : IdMap) (N : NameMap) (T : TextLib) (F : Files)
    (C : PageCache J P) (e : StorageEngine J P C) where
  -- The path of a file of the data directory.
  abbrev fullpath : String → String
  fullpath filename = str_append e.data_directory (str_append "/" filename)

  -- saveDatabase; none where an exception leaves save
  unfoldable pub save_database :
      Database J P M N → String → Files.World F → Files.World F × Option Status
  save_database db filename w = save J P M N T F db (fullpath filename) w

  -- loadDatabase
  unfoldable pub load_database :
      Database J P M N → String → Files.World F → Option (Database J P M N × Status)
  load_database db filename w = load J P M N T F db (fullpath filename) w

  -- loadDatabase of a file that saveDatabase has written gives the database back.
  load_database-save_database :
      (d db : Database J P M N) (filename : String) (w : Files.World F)
      → IsConsistent J P M N db
      → AllStorable J P M db.tables
      → J.parse (J.dump (to_json J P M N db)) ≡ some (to_json J P M N db)
      → (save_database db filename w).1 ≡ some ok
      → ((bytes : List ℕ)
          → Files.content F (save_database db filename w).0 (fullpath filename) ≡ some bytes
          → ReadsFile F (save_database db filename w).0 (fullpath filename) bytes)
      → (u : Database J P M N) × (load_database d filename (save_database db filename w).0
          ≡ some (u, ok))
        × Restored J P M N db u
  unfolding save_database load_database
  load_database-save_database d db filename w = load-save J P M N T F d db (fullpath filename) w
