-- ===== src/Witness/Crashes.antt =====
-- The theorem about interrupted saves at a save that stops before it closes its file.
use mini_database.Prelude.{
  ◌+◌, ◌<◌, ◌^◌, ◌≡◌, ◌⊎◌, refl, some, none, Option, String, str_eq, arith, if◌then◌else◌,
}
use mini_database.Common.{ok}
use mini_database.Packages.Json.{JsonLib}
use mini_database.Table
use mini_database.Table.Invariant as TableInvariant
use mini_database.Table.Forms as TableForms
use mini_database.Database
use mini_database.Database.{Database, next_table_id}
use mini_database.Database.Invariant.{make-IsConsistent}
use mini_database.Database.Tables.{create_table-Created}
use mini_database.Database.Forms.{to_json, load}
use mini_database.Database.Crash.{IsStorable, interrupted, text_of, load-interrupted}
use mini_database.Database.RoundTrip.{Restored}
use mini_database.Witness.ToyJson.{Value, toy_json, toy_json_with, obj, str, find}
use mini_database.Witness.ToyCache.{toy_text}
use mini_database.Witness.ToyFiles.{Directory, directory_of, toy_files, toy_reads}
use mini_database.Witness.Records.{people}
use mini_database.Witness.Pages.{P}
use mini_database.Witness.Tables.{M}
use mini_database.Witness.Databases.{N}

-- A database without tables, and one with a table, whatever the JSON package.
module _ (K : JsonLib) where
  abbrev before : Database K P M N
  before = Database.make K P M N "before"

  abbrev after : Database K P M N
  after = (Database.create_table K P M N (Database.make K P M N "after") "people" people).0

-- The text is the database's name, and the parser knows the two databases.
abbrev named : Option Value → String
named (some (str s)) = s
named _ = ""

abbrev dump : Value → String
dump (obj fs) = named (find fs "__db_name__")
dump _ = ""

abbrev parse : String → Option Value
parse s =
    if str_eq s "after"
    then some (to_json (toy_json none) P M N (after (toy_json none)))
    else some (to_json (toy_json none) P M N (before (toy_json none)))

abbrev K : JsonLib
K = toy_json_with dump parse

before-IsStorable : IsStorable K P M N (before K)
unfolding to_json Database.make
before-IsStorable = (make-IsConsistent K P M N "before", tt, refl)

more : (Database.make K P M N "after").next_table_id + 1 < 2 ^ 32
unfolding Database.make
more = omega arith

after-IsStorable : IsStorable K P M N (after K)
unfolding to_json Database.make Database.create_table next_table_id Database.has_table
    TableForms.to_json TableForms.column_json Table.make
after-IsStorable = (
  (create_table-Created K P M N (Database.make K P M N "after") (make-IsConsistent K P M N "after")
      "people" people more).1,
  (
    (
      TableInvariant.make-IsConsistent K P M "people" 0 people,
      (omega arith, tt, (tt, (tt, (tt, tt)))),
    ),
    tt,
  ),
  refl,
)

abbrev disk : Directory
disk = directory_of (λ p.
    if str_eq "school.json" p then some (text_of K P M N toy_text toy_files (before K)) else none)

abbrev other : Database K P M N
other = Database.make K P M N "other"

load-interrupted_example :
    (u : Database K P M N) × (load K P M N toy_text toy_files other "school.json"
        (interrupted K P M N toy_text toy_files 3 (after K) "school.json" disk)
      ≡ some (u, ok))
    × (Restored K P M N (before K) u ⊎ Restored K P M N (after K) u)
load-interrupted_example =
    load-interrupted K P M N toy_text toy_files other (before K) (after K) "school.json" disk 3
      before-IsStorable after-IsStorable refl
      (toy_reads (interrupted K P M N toy_text toy_files 3 (after K) "school.json" disk)
        "school.json")
