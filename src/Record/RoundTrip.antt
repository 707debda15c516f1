-- ===== src/Record/RoundTrip.antt =====
-- Core/Record.cpp, section 4: the JSON and text forms, written and read.
use mini_database.Prelude.{ℕ, ◌+◌, ◌^◌, ◌<◌, ◌≡◌, ap, ◌∙◌, true, false, false, some, arith}
use mini_database.Common.{ok}
use mini_database.Packages.Json.{JsonLib, pos}
use mini_database.Record.{Record, to_json, from_json, serialize, deserialize, to_int}

pub to_int_small : (n : ℕ) → n < 2 ^ 31 → to_int n ≡ pos n
to_int_small n h = ground arith

to_int_wraps : (n : ℕ) → to_int (n + 2 ^ 32) ≡ to_int n
to_int_wraps n = ground arith

module _ (J : JsonLib) where
  open J use {
    at, is_null, parse, dump, object, put, of_int, of_bool, uint_of-double_of, as_number-of_int,
    as_bool-of_bool, is_object, object-is_object, put-is_object, object-not_null, at-put,
  }

  module _ (r : Record J) where
    with_id-is_object : is_object (put object "__id__" (of_int (to_int r.id))) ≡ true
    with_id-is_object = put-is_object _ _ _ object-is_object

    to_json-not_null : is_null (to_json J r) ≡ false
    unfolding to_json
    to_json-not_null =
        object-not_null _ (put-is_object _ _ _ (put-is_object _ _ _ with_id-is_object))

    at_data : at (to_json J r) "data" ≡ some r.fields
    unfolding to_json
    at_data = at-put _ "data" "data" r.fields (put-is_object _ _ _ with_id-is_object)

    at_deleted : at (to_json J r) "__deleted__" ≡ some (of_bool r.deleted)
    unfolding to_json
    at_deleted =
        at-put _ "data" "__deleted__" r.fields (put-is_object _ _ _ with_id-is_object)
        ∙ at-put _ "__deleted__" "__deleted__" (of_bool r.deleted) with_id-is_object

    at_id : at (to_json J r) "__id__" ≡ some (of_int (to_int r.id))
    unfolding to_json
    at_id =
        at-put _ "data" "__id__" r.fields (put-is_object _ _ _ with_id-is_object)
        ∙ at-put _ "__deleted__" "__id__" (of_bool r.deleted) with_id-is_object
        ∙ at-put _ "__id__" "__id__" (of_int (to_int r.id)) object-is_object

  -- fromJson of what toJson writes of a record whose id is below 2^31 answers ok and gives the record,
  -- its deletion mark included, whatever the target held.
  pub from_json-to_json :
      (s r : Record J) → r.id < 2 ^ 31 → from_json J s (to_json J r) ≡ (r, some ok)
  unfolding from_json
  from_json-to_json s r h = ground (
    arith,
    to_json-not_null r,
    at_id r,
    at_deleted r,
    at_data r,
    to_int_small r.id h,
    as_number-of_int (pos r.id),
    as_bool-of_bool r.deleted,
    uint_of-double_of r.id h,
  )

  -- deserialize of what serialize writes answers ok and gives the record, whatever the target held, if
  -- its id is below 2^31 and the JSON package reads back the text that it writes for the record.
  pub deserialize-serialize :
      (s r : Record J)
      → parse (dump (to_json J r)) ≡ some (to_json J r)
      → r.id < 2 ^ 31
      → deserialize J s (serialize J r) ≡ (r, ok)
  unfolding deserialize serialize
  deserialize-serialize s r reads h =
      ground (arith, reads, to_json-not_null r, from_json-to_json s r h)

  -- Two records that differ in their ids by 2^32, and in nothing else, are serialized to the same text.
  serialize-collides :
      (r : Record J) → serialize J (record r { id = r.id + 2 ^ 32 }) ≡ serialize J r
  unfolding serialize to_json
  serialize-collides r =
      ap
        (λ z. dump (
          put (put (put object "__id__" (of_int z)) "__deleted__" (of_bool r.deleted)) "data"
            r.fields))
        (to_int_wraps r.id)
