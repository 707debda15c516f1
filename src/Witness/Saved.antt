-- ===== src/Witness/Saved.antt =====
-- The theorems about saving and loading at a table of one record and a database of that table.
use mini_database.Prelude.{
  ℕ, ◌≡◌, ◌≤◌, refl, false, none, some, Option, [], ◌∷◌, arith, ◌==◌, if◌then◌else◌, str_eq,
}
use mini_database.Common.{ok}
use mini_database.Packages.Json.{JsonLib, pos}
use mini_database.Record
use mini_database.Page
use mini_database.Page.{Page, is_live}
use mini_database.Page.Lookup.{find_value, count_live}
use mini_database.Page.Invariant.{IsWellFormed}
use mini_database.Table
use mini_database.Table.{Table}
use mini_database.Table.Finding.{position_of, owner, count}
use mini_database.Table.Invariant as TableInvariant
use mini_database.Table.Forms as TableForms
use mini_database.Table.Abstract.{Consistent}
use mini_database.Table.RoundTrip.{Copies, IsStorable, deserialize-Copies}
use mini_database.Database
use mini_database.Database.{Database, Cell}
use mini_database.Database.Cells.{find_name, find_id, find_address}
use mini_database.Database.Invariant.{IsConsistent}
use mini_database.Database.Forms as DatabaseForms
use mini_database.Database.RoundTrip.{Restored, load-save}
use mini_database.FileIo.Whole.{write_file_atomic, write_and_rename, write_all}
use mini_database.Witness.ToyJson.{Value, toy_json, obj, field, end, num, str}
use mini_database.Witness.ToyCache.{toy_text}
use mini_database.Witness.ToyFiles.{Directory, directory_of, toy_files, toy_reads}
use mini_database.Witness.Records.{people}
use mini_database.Witness.Pages.{P}
use mini_database.Witness.Tables.{M}
use mini_database.Witness.Databases.{N}

-- The objects, whatever the parser reads.
module _ (parsed : Option Value) where
  abbrev pub page : Page (toy_json parsed) P
  page = record {
    id = 0;
    dirty = false;
    records =
        record {
          slot = tt;
          value = record {
            id = 7;
            fields = obj (field "age" (num (pos 36)) (field "name" (str "Ada") end));
            deleted = false;
          };
        }
        ∷ [];
    pool = record { capacity = 64; used = 1 };
  }

  abbrev pub table : Table (toy_json parsed) P M
  table = record {
    name = "people";
    id = 1;
    schema = people;
    pages = page ∷ [];
    index = λ k. if 7 == k then some 0 else none;
    page_index = λ k. if 0 == k then some 0 else none;
    next_page_id = 1;
    dirty = false;
  }

  abbrev pub school : Database (toy_json parsed) P M N
  school = record {
    name = "school";
    tables = record { address = 0; value = table } ∷ [];
    index = λ k. if str_eq "people" k then some 1 else none;
    table_index = λ k. if 1 == k then some 0 else none;
    next_table_id = 2;
    dirty = false;
    next_address = 1;
  }

  page-IsWellFormed : IsWellFormed (toy_json parsed) P page
  page-IsWellFormed = record { within = omega arith; room = refl; held = refl }

  once : (rid : ℕ) → count (toy_json parsed) P rid (page ∷ []) ≤ 1
  unfolding count count_live is_live Record.is_deleted Record.get_id
  once rid = ground arith

  table-IsConsistent : TableInvariant.IsConsistent (toy_json parsed) P M table
  unfolding owner position_of find_value is_live Record.is_deleted Record.get_id
  table-IsConsistent = record {
    ids = λ pid. ground arith;
    owners = λ rid. ground arith;
    distinct = (refl, tt);
    below = (omega arith, tt);
    once = once;
    well_formed = (page-IsWellFormed, tt);
  }

  table-IsStorable : IsStorable (toy_json parsed) P M table
  table-IsStorable = (omega arith, ((omega arith, (omega arith, tt)), tt), (tt, (tt, (tt, tt))))

  pub school-IsConsistent : IsConsistent (toy_json parsed) P M N school
  unfolding find_name find_id find_address
  school-IsConsistent = record {
    names = λ name. ground arith;
    ids = λ tid. ground arith;
    distinct_names = (refl, tt);
    distinct_ids = (refl, tt);
    distinct_addresses = (refl, tt);
    ids_below = (omega arith, tt);
    addresses_below = (omega arith, tt);
    few = omega arith;
  }

-- A parser that reads back the text of the table, and one that reads back the text of the database.
abbrev table_parsed : Option Value
table_parsed = some (TableForms.to_json (toy_json none) P M (table none))

abbrev school_parsed : Option Value
school_parsed = some (DatabaseForms.to_json (toy_json none) P M N (school none))

abbrev T : JsonLib
T = toy_json table_parsed

abbrev S : JsonLib
S = toy_json school_parsed

abbrev blank : Table T P M
blank = Table.make T P M "" 0 []

table_reads :
    T.parse (T.dump (TableForms.to_json T P M (table table_parsed)))
    ≡ some (TableForms.to_json T P M (table table_parsed))
unfolding TableForms.to_json TableForms.column_json Page.to_json Page.live_json Record.to_json
    Record.is_deleted
table_reads = refl

deserialize-Copies_example :
    (u : Table T P M) × (TableForms.deserialize T P M blank
        (TableForms.serialize T P M (table table_parsed))
      ≡ (u, ok))
    × Copies T P M (table table_parsed) u
unfolding Table.make
deserialize-Copies_example =
    deserialize-Copies T P M blank (table table_parsed) refl (table-IsConsistent table_parsed)
      (table-IsStorable table_parsed) table_reads

abbrev saved_table : Consistent T P M
saved_table = (table table_parsed, table-IsConsistent table_parsed)

abbrev other : Database S P M N
other = Database.make S P M N "other"

abbrev pub disk : Directory
disk = directory_of (λ p. none)

school_reads :
    S.parse (S.dump (DatabaseForms.to_json S P M N (school school_parsed)))
    ≡ some (DatabaseForms.to_json S P M N (school school_parsed))
unfolding DatabaseForms.to_json TableForms.to_json TableForms.column_json Page.to_json
    Page.live_json Record.to_json Record.is_deleted
school_reads = refl

stored :
    (DatabaseForms.save S P M N toy_text toy_files (school school_parsed) "school.json" disk).1
    ≡ some ok
unfolding DatabaseForms.save write_file_atomic write_and_rename write_all
stored = refl

abbrev after : Directory
after = (DatabaseForms.save S P M N toy_text toy_files (school school_parsed) "school.json" disk).0

load-save_example :
    (u : Database S P M N) × (DatabaseForms.load S P M N toy_text toy_files other "school.json"
        after
      ≡ some (u, ok))
    × Restored S P M N (school school_parsed) u
load-save_example =
    load-save S P M N toy_text toy_files other (school school_parsed) "school.json" disk
      (school-IsConsistent school_parsed)
      ((table-IsConsistent school_parsed, table-IsStorable school_parsed), tt) school_reads stored
      (toy_reads after "school.json")
