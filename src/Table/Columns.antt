-- ===== src/Table/Columns.antt =====
-- Core/Table.cpp, section 6: the JSON form of a schema, written and read.
use mini_database.Prelude.{◌≡◌, refl, ◌∙◌, true, some, List, [], ◌∷◌, map, arith, All}
use mini_database.Common.{
  ColumnDef, ColumnType, int, double, string, bool, unnamed, int_of_type, type_of_int,
}
use mini_database.Packages.Json.{JsonLib}
use mini_database.Table.Forms.{column_json, load_column, load_columns}

-- Not a value outside the enumerators.
abbrev pub IsNamed : ColumnType → Type 0
IsNamed (unnamed z) = ⊥
IsNamed _ = Unit

module _ (J : JsonLib) where
  open J use {
    at, put, object, of_string, of_int, of_bool, as_number, is_object, object-is_object,
    put-is_object, at-put, as_string-of_string, as_number-of_int, as_bool-of_bool, int_of,
    int_of-double_of,
  }

  read_type :
      (type : ColumnType)
      → IsNamed type
      → type_of_int (int_of (J.double_of (int_of_type type))) ≡ type
  unfolding type_of_int int_of_type
  read_type int h = rw (int_of-double_of 0 (omega arith)) refl
  read_type double h = rw (int_of-double_of 1 (omega arith)) refl
  read_type string h = rw (int_of-double_of 2 (omega arith)) refl
  read_type bool h = rw (int_of-double_of 3 (omega arith)) refl
  read_type (unnamed z) h = absurd h

  module _ (col : ColumnDef) where
    with_name-is_object : is_object (put object "name" (of_string col.name)) ≡ true
    with_name-is_object = put-is_object _ _ _ object-is_object

    with_type-is_object :
        is_object
          (put (put object "name" (of_string col.name)) "type" (of_int (int_of_type col.type)))
        ≡ true
    with_type-is_object = put-is_object _ _ _ with_name-is_object

    at_nullable : at (column_json J col) "nullable" ≡ some (of_bool col.nullable)
    unfolding column_json
    at_nullable = at-put _ "nullable" "nullable" (of_bool col.nullable) with_type-is_object

    at_type : at (column_json J col) "type" ≡ some (of_int (int_of_type col.type))
    unfolding column_json
    at_type =
        at-put _ "nullable" "type" (of_bool col.nullable) with_type-is_object
        ∙ at-put _ "type" "type" (of_int (int_of_type col.type)) with_name-is_object

    at_name : at (column_json J col) "name" ≡ some (of_string col.name)
    unfolding column_json
    at_name =
        at-put _ "nullable" "name" (of_bool col.nullable) with_type-is_object
        ∙ at-put _ "type" "name" (of_int (int_of_type col.type)) with_name-is_object
        ∙ at-put _ "name" "name" (of_string col.name) object-is_object

    load_column-column_json : IsNamed col.type → load_column J (column_json J col) ≡ some col
    unfolding load_column
    load_column-column_json h = ground (
      arith,
      at_name,
      at_type,
      at_nullable,
      as_string-of_string col.name,
      as_number-of_int (int_of_type col.type),
      as_bool-of_bool col.nullable,
      read_type col.type h,
    )

  -- fromJson's loop reads the columns back.
  pub load_columns-column_json :
      (cols : List ColumnDef)
      → All (λ c. IsNamed c.type) cols
      → load_columns J (map (column_json J) cols) ≡ (cols, true)
  unfolding load_columns
  load_columns-column_json [] h = refl
  load_columns-column_json (col ∷ cols) (h, hs) =
      ground (arith, load_column-column_json col h, load_columns-column_json cols hs)
