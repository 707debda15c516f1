-- ===== src/Record/Fields.antt =====
-- Core/Record.cpp, section 2: the field accessors.
use mini_database.Prelude.{
  ◌≡◌, ◌≢◌, true, false, none, some, String, str_eq, str_eq_iff, arith, if◌then◌else◌,
}
use mini_database.Common.{ok, not_found}
use mini_database.Packages.Json.{JsonLib}
use mini_database.Record.{Record, set_field, get_field, get_field_ref, has_field, remove_field}

module _ (J : JsonLib) where
  open J use {Json, is_object, contains, at-put, contains-put, at-ne-none, contains-erase, at-erase}

  -- getField throws on no key, and getFieldRef answers the same as getField, on every record and key.
  get_field-ne-none :
      (r : Record J) (key : String)
      → (get_field J r key ≢ none) × (get_field J r key ≡ get_field_ref J r key)
  unfolding get_field get_field_ref
  get_field-ne-none r key = ground (arith, at-ne-none r.fields key)

  -- After a setField that answered ok on a record whose fields are an object, getField of that key is
  -- the value, and getField of every other key is what it was.
  get_field-set_field :
      (r : Record J) (key other : String) (value : Json)
      → is_object r.fields ≡ true
      → (set_field J r key value).1 ≡ ok
      → get_field J (set_field J r key value).0 other
        ≡ (if str_eq key other then some value else get_field J r other)
  unfolding get_field set_field
  get_field-set_field r key other value obj h =
      ground (arith, at-put r.fields key other value obj, contains-put r.fields key other value obj)

  -- After removeField of a key, hasField is false of it and what it was of every other key; the answer
  -- was ok if the key was there and NOT_FOUND if not.
  has_field-remove_field :
      (r : Record J) (key other : String)
      → (has_field J (remove_field J r key).0 other
          ≡ (if str_eq key other then false else has_field J r other))
        × ((remove_field J r key).1 ≡ (if has_field J r key then ok else not_found))
  unfolding has_field remove_field
  has_field-remove_field r key other =
      ground (arith, contains-erase r.fields key other, str_eq_iff key other)
