-- ===== src/Witness/Records.antt =====
-- The theorems about records at one record with two fields.
use mini_database.Prelude.{
  List, ◌-◌, ◌^◌, ◌≡◌, ◌↔◌, refl, false, true, none, some, [], ◌∷◌, All, arith,
}
use mini_database.Common.{ok, ColumnDef, int, string}
use mini_database.Packages.Json.{JsonLib, pos}
use mini_database.Record
use mini_database.Record.{Record}
use mini_database.Record.Schema.{Meets, validate_iff, type_matches_overflow}
use mini_database.Record.RoundTrip.{deserialize-serialize}
use mini_database.Witness.ToyJson.{
  toy_json, obj, field, end, num, str, bool, double_le_refl, double_eq-trunc,
}

abbrev pub J : JsonLib
J = toy_json none

abbrev pub ada : Record J
ada = record {
  id = 7;
  fields = obj (field "age" (num (pos 36)) (field "name" (str "Ada") end));
  deleted = false;
}

abbrev blank : Record J
blank = record { id = 0; fields = obj end; deleted = true }

abbrev pub people : List ColumnDef
people =
    record { name = "age"; type = int; nullable = false }
    ∷ record { name = "name"; type = string; nullable = false }
    ∷ record { name = "mail"; type = string; nullable = true }
    ∷ []

validate_iff_example : (Record.validate J ada people ≡ some ok) ↔ All (Meets J ada) people
validate_iff_example = validate_iff J ada people

type_matches_overflow_example : Record.type_matches J int (num (pos (2 ^ 63 - 1))) ≡ some true
type_matches_overflow_example =
    type_matches_overflow J (num (pos (2 ^ 63 - 1))) refl refl (double_le_refl (pos (2 ^ 63)))
      (double_eq-trunc (2 ^ 63)) refl refl

-- a parser that reads back the text of `ada`
abbrev K : JsonLib
K = toy_json (
    some (
      obj (
        field "__id__" (num (pos 7)) (
          field "__deleted__" (bool false)
            (field "data" (obj (field "age" (num (pos 36)) (field "name" (str "Ada") end))) end)))))

abbrev ada' : Record K
ada' = record {
  id = 7;
  fields = obj (field "age" (num (pos 36)) (field "name" (str "Ada") end));
  deleted = false;
}

abbrev blank' : Record K
blank' = record { id = 0; fields = obj end; deleted = true }

deserialize-serialize_example : Record.deserialize K blank' (Record.serialize K ada') ≡ (ada', ok)
unfolding Record.to_json
deserialize-serialize_example = deserialize-serialize K blank' ada' refl (omega arith)
