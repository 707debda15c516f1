-- ===== src/Serializer/RoundTrip.antt =====
-- Engine/Serializer.cpp: a table exported to a file and imported from it.
use mini_database.Prelude.{ℕ, ◌≡◌, ◌∙◌, inl, inr, Option, some, List, All, String, arith}
use mini_database.Common.{Status, ok}
use mini_database.Packages.Json.{JsonLib}
use mini_database.Packages.Pool.{PoolLib}
use mini_database.Packages.Text.{TextLib}
use mini_database.Packages.Files.{Files, ReadsFile}
use mini_database.FileIo.Whole.{read_file}
use mini_database.FileIo.Reads.{read_file-content}
use mini_database.FileIo.Atomic.{write_file_atomic-Atomic}
use mini_database.Table.{Table, IdMap}
use mini_database.Query.Rows.{live_records}
use mini_database.Serializer.{
  exported, export_table_to_json, export_table_to_file, import_table_from_json,
  import_table_from_text, import_table_from_file,
}
use mini_database.Serializer.Imports.{IsExportable, insert_all, import_table_from_json-exported}

module _ (J : JsonLib) (P : PoolLib) (M : IdMap) (T : TextLib) (F : Files)
    (table target : Table J P M) (path : String) (w : Files.World F) where
  abbrev pub saved : Files.World F × Option Status
  saved = export_table_to_file J P M T F table path w

  import_table_from_file-read :
      (w' : Files.World F)
      → read_file F path w' ≡ (some (TextLib.bytes_of T (export_table_to_json J P M table)), ok)
      → J.parse (J.dump (exported J P M table)) ≡ some (exported J P M table)
      → import_table_from_file J P M T F target path w'
        ≡ import_table_from_json J P M target (exported J P M table)
  unfolding import_table_from_file import_table_from_text export_table_to_json
  import_table_from_file-read w' read parsed =
      ground (arith, read, parsed, TextLib.text_of-bytes_of T (J.dump (exported J P M table)))

  -- Importing the file of an export that answered ok inserts exactly the exported table's live records
  -- into the target, in order, up to the first that insertRecord refuses, if these are JSON objects
  -- without a field "id" of their own and have ids below 2^31, the parser reads the text back, and
  -- reading the file gives what it holds.
  pub import_table_from_file-export_table_to_file :
      All (IsExportable J) (live_records J P table.pages)
      → J.parse (J.dump (exported J P M table)) ≡ some (exported J P M table)
      → saved.1 ≡ some ok
      → ((bytes : List ℕ)
          → Files.content F saved.0 path ≡ some bytes
          → ReadsFile F saved.0 path bytes)
      → import_table_from_file J P M T F target path saved.0
        ≡ insert_all J P M (live_records J P table.pages) target
  unfolding export_table_to_file
  import_table_from_file-export_table_to_file h parsed stored reads =
      let text : List ℕ = TextLib.bytes_of T (export_table_to_json J P M table) in
      elim (write_file_atomic-Atomic F path text w) [
        | inr (broken, _) ↦ absurd (ground (arith, stored, broken))
        | inl (_, held) ↦
            import_table_from_file-read saved.0
              (read_file-content F path saved.0 text (reads text held)) parsed
            ∙ import_table_from_json-exported J P M table target h
      ]
