-- ===== src/Record.antt =====
-- src/MiniDB/Core/Record.cpp and include/MiniDB/Core/Record.h: one row, its fields and its schema check.
-- `none` in a result stands for an exception that leaves the function.
pub mod Fields
pub mod Schema
pub mod RoundTrip
use mini_database.Prelude.{
  ℕ, ◌+◌, ◌-◌, ◌%◌, ◌^◌, Bool, true, false, not, ◌&&◌, Option, none, some, List, [], ◌∷◌, String,
  str_eq, ltb, ◌==◌, if◌then◌else◌, ◌>>=◌,
}
use mini_database.Common.{
  Status, ok, not_found, invalid_schema, invalid_type, parse_error, ColumnType, int, double, string,
  bool, unnamed, ColumnDef, invalid_record_id,
}
use mini_database.Packages.Json.{JsonLib, ℤ, pos, negsuc}

-- class Record; `fields` is the member `data`
pub record Record (J : JsonLib) : Type 0 where
  pub id : ℕ
  pub fields : JsonLib.Json J
  pub deleted : Bool

-- The wrap-around of `static_cast<int>` on an unsigned number.
abbrev pub to_int : ℕ → ℤ
to_int n = let w = n % 2 ^ 32 in if ltb w (2 ^ 31) then pos w else negsuc (2 ^ 32 - w - 1)

abbrev pub int64_min : ℤ
int64_min = negsuc (2 ^ 63 - 1)

abbrev pub int64_max : ℤ
int64_max = pos (2 ^ 63 - 1)

module _ (J : JsonLib) where
  open J use {
    Json, null, object, of_int, of_bool, is_null, is_number, is_string, is_bool, as_number, as_bool,
    contains, at, put, erase, dump, parse, double_eq, double_le, double_of, trunc, uint_of,
  }

  -- Record(id, data), Record(id), Record()
  unfoldable pub make : ℕ → Json → Record J
  make id fields = record { id = id; fields = fields; deleted = false }

  unfoldable pub make_empty : ℕ → Record J
  unfolding make
  make_empty id = make id object

  unfoldable pub default : Record J
  unfolding make_empty
  default = make_empty invalid_record_id

  -- setField
  unfoldable pub set_field : Record J → String → Json → Record J × Status
  set_field r key value =
      if str_eq key ""
      then (r, invalid_schema)
      else (record r { fields = put r.fields key value }, ok)

  -- getField, and getFieldRef with the null value that it keeps for a missing key
  unfoldable pub get_field : Record J → String → Option Json
  get_field r key = if not (contains r.fields key) then some null else at r.fields key

  unfoldable pub get_field_ref : Record J → String → Option Json
  get_field_ref r key = if not (contains r.fields key) then some null else at r.fields key

  unfoldable pub has_field : Record J → String → Bool
  has_field r key = contains r.fields key

  unfoldable pub remove_field : Record J → String → Record J × Status
  remove_field r key =
      if not (contains r.fields key)
      then (r, not_found)
      else (record r { fields = erase r.fields key }, ok)

  -- the switch of `validate`
  unfoldable pub type_matches : ColumnType → Json → Option Bool
  type_matches int val =
      if is_number val
      then (do
        d ← as_number val
        some (
            double_eq d (trunc d)
            && double_le (double_of int64_min) d
            && double_le d (double_of int64_max)))
      else some false
  type_matches double val = some (is_number val)
  type_matches string val = some (is_string val)
  type_matches bool val = some (is_bool val)
  type_matches (unnamed z) val = some false

  -- validate, a round of its loop for each column
  unfoldable pub validate : Record J → List ColumnDef → Option Status
  validate r [] = some ok
  validate r (col ∷ schema) =
      let rest = validate r schema in
      if not (contains r.fields col.name)
      then (if not col.nullable then some invalid_schema else rest)
      else do
        val ← at r.fields col.name
        type_ok ← type_matches col.type val
        if not type_ok then some invalid_type else rest

  -- toJson
  unfoldable pub to_json : Record J → Json
  to_json r =
      let with_id = put object "__id__" (of_int (to_int r.id)) in
      let with_deleted = put with_id "__deleted__" (of_bool r.deleted) in
      put with_deleted "data" r.fields

  -- The assignments of fromJson in order. What was assigned before an exception stays assigned.
  abbrev assign_fields : Json → Record J → Record J × Option Status
  assign_fields envelope r = elim (at envelope "data") [
    | none ↦ (r, none)
    | some fields ↦ (record r { fields = fields }, some ok)
  ]

  abbrev assign_deleted : Json → Record J → Record J × Option Status
  assign_deleted envelope r = elim (at envelope "__deleted__" >>= as_bool) [
    | none ↦ (r, none)
    | some deleted ↦ assign_fields envelope (record r { deleted = deleted })
  ]

  abbrev assign_id : Json → Record J → Record J × Option Status
  assign_id envelope r = elim (at envelope "__id__" >>= as_number) [
    | none ↦ (r, none)
    | some d ↦ assign_deleted envelope (record r { id = uint_of d })
  ]

  -- fromJson
  unfoldable pub from_json : Record J → Json → Record J × Option Status
  from_json r envelope = if is_null envelope then (r, some parse_error) else assign_id envelope r

  unfoldable pub serialize : Record J → String
  serialize r = dump (to_json r)

  -- `catch (const std::exception&)`
  abbrev or_parse_error : Record J × Option Status → Record J × Status
  or_parse_error (r, none) = (r, parse_error)
  or_parse_error (r, some s) = (r, s)

  -- deserialize; `fromJson` makes the second test for null
  unfoldable pub deserialize : Record J → String → Record J × Status
  unfolding from_json
  deserialize r raw = elim (parse raw) [
    | none ↦ (r, parse_error)
    | some envelope ↦
        if is_null envelope then (r, parse_error) else or_parse_error (from_json r envelope)
  ]

  unfoldable pub is_deleted : Record J → Bool
  is_deleted r = r.deleted

  unfoldable pub mark_deleted : Record J → Record J
  mark_deleted r = record r { deleted = true }

  unfoldable pub get_id : Record J → ℕ
  get_id r = r.id

  -- operator== and operator!=
  unfoldable pub equals : Record J → Record J → Bool
  equals r other = r.id == other.id

  unfoldable pub differs : Record J → Record J → Bool
  differs r other = not (r.id == other.id)
