-- ===== src/Witness/Loads.antt =====
-- The theorem about loads that fail, at a file with a broken table.
use mini_database.Prelude.{◌≡◌, refl, subst, none, some, [], ◌∷◌, str_eq, if◌then◌else◌}
use mini_database.Common.{ok}
use mini_database.Packages.Json.{JsonLib}
use mini_database.FileIo.Whole.{read_file}
use mini_database.Database
use mini_database.Database.{Database}
use mini_database.Database.Forms.{load}
use mini_database.Database.Loading.{Kept, IsNamed, text_in, name_of, load-Kept}
use mini_database.Witness.ToyJson.{Value, toy_json, obj, field, end, str, arr, cons, nil, null}
use mini_database.Witness.ToyCache.{toy_text}
use mini_database.Witness.ToyFiles.{Directory, directory_of, toy_files}
use mini_database.Witness.Pages.{P}
use mini_database.Witness.Tables.{M}
use mini_database.Witness.Databases.{N}

-- a database whose only table is null, and a parser that reads it
abbrev corrupt : Value
corrupt = obj (field "__db_name__" (str "corrupt") (field "tables" (arr (cons null nil)) end))

abbrev K : JsonLib
K = toy_json (some corrupt)

abbrev live : Database K P M N
live = Database.make K P M N "school"

abbrev disk : Directory
disk = directory_of (λ p. if str_eq "school.json" p then some (1 ∷ 2 ∷ []) else none)

named :
    IsNamed K P M N live
      (text_in K P M N live toy_text toy_files (read_file toy_files "school.json" disk).0)
named envelope e =
    let same : corrupt ≡ envelope = cc in
    ("corrupt", subst (λ j. name_of K P M N live j ≡ some "corrupt") same refl)

load-Kept_example : Kept K P M N live ok (load K P M N toy_text toy_files live "school.json" disk)
load-Kept_example = load-Kept K P M N live toy_text toy_files "school.json" disk named
