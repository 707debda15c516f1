-- ===== src/Serializer.antt =====
-- src/MiniDB/Engine/Serializer.cpp and include/MiniDB/Engine/Serializer.h: a table as a JSON array of its records.
-- `none` in a result is an exception; what the import had inserted before it is not modelled.
pub mod Exports
pub mod Imports
pub mod RoundTrip
pub mod Whole
pub mod Consistency
use mini_database.Prelude.{
  ℕ, zero, suc, ◌+◌, ◌%◌, ◌^◌, Bool, true, false, not, ◌&&◌, Option, none, some, List, [], ◌∷◌,
  ◌++◌, String, if◌then◌else◌, ◌>>=◌,
}
use mini_database.Common.{Status, ok, parse_error}
use mini_database.Packages.Json.{JsonLib}
use mini_database.Packages.Pool.{PoolLib}
use mini_database.Packages.Text.{TextLib}
use mini_database.Packages.Files.{Files}
use mini_database.FileIo.Whole.{read_file, write_file_atomic}
use mini_database.Record
use mini_database.Record.{Record, to_int}
use mini_database.Page
use mini_database.Page.{Page}
use mini_database.Table
use mini_database.Table.{Table, IdMap}

module _ (J : JsonLib) where
  open J use {
    Json, array, of_int, is_null, is_number, is_array, as_number, as_array, contains, at, put,
    erase, dump, parse, uint_of,
  }

  -- An entry of the array: the record's fields with its id.
  unfoldable pub entry_of : Record J → Json
  entry_of r = put r.fields "id" (of_int (to_int (Record.get_id J r)))

  -- A round of importTableFromJson's loop up to the record; `id` is the loop's own.
  unfoldable pub record_of : ℕ → Json → Option (Record J)
  record_of id entry = do
    numbered ←
        (if contains entry "id" then (at entry "id" >>= λ v. some (is_number v)) else some false)
    (if numbered
        then (at entry "id" >>= as_number >>= λ d.
            some (Record.make J (uint_of d) (erase entry "id")))
        else some (Record.make J id entry))

  module _ (P : PoolLib) where
    -- The inner loop of exportTableToJson: `rounds` is recordCount() - i.
    unfoldable pub export_records : ℕ → ℕ → Page J P → List Json → List Json
    unfolding entry_of
    export_records zero i page entries = entries
    export_records (suc rounds) i page entries =
        export_records rounds (i + 1) page (elim (Page.get_record_at J P page i) [
          | none ↦ entries
          | some r ↦ if Record.is_deleted J r then entries else entries ++ entry_of r ∷ []
        ])

    -- The outer loop.
    unfoldable pub export_pages : List (Page J P) → List Json → List Json
    unfolding export_records
    export_pages [] entries = entries
    export_pages (page ∷ pages) entries =
        export_pages pages (export_records (Page.record_count J P page) 0 page entries)

    module _ (M : IdMap) where
      -- exportTableToJson up to its dump
      unfoldable pub exported : Table J P M → Json
      unfolding export_pages
      exported table = array (export_pages table.pages [])

      -- exportTableToJson
      unfoldable pub export_table_to_json : Table J P M → String
      unfolding exported
      export_table_to_json table = dump (exported table)

      -- The loop of importTableFromJson; the counter is a uint64_t.
      unfoldable pub import_entries : ℕ → List Json → Table J P M → Option (Table J P M × Status)
      unfolding record_of
      import_entries next_id [] table = some (table, ok)
      import_entries next_id (entry ∷ entries) table = elim (record_of next_id entry) [
        | none ↦ none
        | some r ↦ elim (Table.insert_record J P M table r) [
          | none ↦ none
          | some (table', ok) ↦ import_entries ((next_id + 1) % 2 ^ 64) entries table'
          | some (table', failed) ↦ some (table', failed)
        ]
      ]

      -- importTableFromJson, both overloads
      unfoldable pub import_table_from_json : Table J P M → Json → Option (Table J P M × Status)
      unfolding import_entries
      import_table_from_json table parsed =
          if is_null parsed
          then some (table, parse_error)
          else if not (is_array parsed)
          then some (table, parse_error)
          else elim (as_array parsed) [
            | none ↦ none
            | some entries ↦ import_entries 0 entries table
          ]

      unfoldable pub import_table_from_text : Table J P M → String → Option (Table J P M × Status)
      unfolding import_table_from_json
      import_table_from_text table json = elim (parse json) [
        | none ↦ none
        | some parsed ↦ import_table_from_json table parsed
      ]

      module _ (T : TextLib) (F : Files) where
        -- exportTableToFile; none where an exception leaves writeFileAtomic
        unfoldable pub export_table_to_file :
            Table J P M → String → Files.World F → Files.World F × Option Status
        export_table_to_file table path w =
            write_file_atomic F path (TextLib.bytes_of T (export_table_to_json table)) w

        -- importTableFromFile; `raw` is empty before readFile sets it
        unfoldable pub import_table_from_file :
            Table J P M → String → Files.World F → Option (Table J P M × Status)
        unfolding import_table_from_text
        import_table_from_file table path w =
            let (raw, s) = read_file F path w in
            elim s [
              | ok ↦
                  import_table_from_text table
                    (TextLib.text_of T (elim raw [ none ↦ [] | some bytes ↦ bytes ]))
              | failed ↦ some (table, failed)
            ]
