-- ===== src/Witness/Exports.antt =====
-- The theorem about exports at a table of one record, whose export goes into an empty table.
use mini_database.Prelude.{◌≡◌, refl, false, none, some, [], ◌∷◌, All, arith, ◌==◌, if◌then◌else◌}
use mini_database.Common.{ok}
use mini_database.Packages.Json.{JsonLib, pos}
use mini_database.Record
use mini_database.Page
use mini_database.Page.{Page, Cell}
use mini_database.Table
use mini_database.Table.{Table}
use mini_database.FileIo.Whole.{write_file_atomic, write_and_rename, write_all}
use mini_database.Query.Rows.{live_cells, live_records}
use mini_database.Serializer
use mini_database.Serializer.{
  exported, export_table_to_file, export_pages, export_records, entry_of, import_table_from_file,
}
use mini_database.Serializer.Imports.{IsExportable, insert_all}
use mini_database.Serializer.RoundTrip.{saved, import_table_from_file-export_table_to_file}
use mini_database.Witness.ToyJson.{toy_json, obj, field, end, num, str, arr, cons, nil}
use mini_database.Witness.ToyCache.{toy_text}
use mini_database.Witness.ToyFiles.{Directory, directory_of, toy_files, toy_reads}
use mini_database.Witness.Records.{people}
use mini_database.Witness.Pages.{P}
use mini_database.Witness.Tables.{M}

-- a parser that reads back the text of the export
abbrev K : JsonLib
K = toy_json (
    some (
      arr (
        cons
          (obj
            (field "age" (num (pos 36)) (field "name" (str "Ada") (field "id" (num (pos 7)) end))))
          nil)))

abbrev page : Page K P
page = record {
  id = 0;
  dirty = false;
  records =
      record {
        slot = tt;
        value = record {
          id = 7;
          fields = obj (field "age" (num (pos 36)) (field "name" (str "Ada") end));
          deleted = false;
        };
      }
      ∷ [];
  pool = record { capacity = 64; used = 1 };
}

abbrev source : Table K P M
source = record {
  name = "people";
  id = 1;
  schema = people;
  pages = page ∷ [];
  index = λ k. if 7 == k then some 0 else none;
  page_index = λ k. if 0 == k then some 0 else none;
  next_page_id = 1;
  dirty = false;
}

abbrev target : Table K P M
target = Table.make K P M "copy" 2 people

abbrev empty : Directory
empty = directory_of (λ p. none)

exportable : All (IsExportable K) (live_records K P source.pages)
unfolding live_cells live_records
exportable = ((refl, refl, omega arith), tt)

readable : K.parse (K.dump (exported K P M source)) ≡ some (exported K P M source)
unfolding exported export_pages export_records entry_of Page.record_count Page.get_record_at
    Record.is_deleted Record.get_id
readable = refl

stored : (saved K P M toy_text toy_files source target "people.json" empty).1 ≡ some ok
unfolding export_table_to_file write_file_atomic write_and_rename write_all
    Serializer.export_table_to_json
stored = refl

import_table_from_file-export_table_to_file_example :
    import_table_from_file K P M toy_text toy_files target "people.json"
      (saved K P M toy_text toy_files source target "people.json" empty).0
    ≡ insert_all K P M (live_records K P source.pages) target
import_table_from_file-export_table_to_file_example =
    import_table_from_file-export_table_to_file K P M toy_text toy_files source target "people.json"
      empty exportable readable stored
      (toy_reads (saved K P M toy_text toy_files source target "people.json" empty).0 "people.json")
