-- ===== src/Table/Forms.antt =====
-- src/MiniDB/Core/Table.cpp, section 6: the JSON and text forms of a table.
-- A load that fails leaves the assignments that it has made; `none` for a status is an exception.
use mini_database.Prelude.{
  ℕ, ◌+◌, ◌%◌, ◌^◌, Bool, true, false, Option, none, some, List, [], ◌∷◌, ◌++◌, map, String, leb,
  ◌==◌, if◌then◌else◌, ◌>>=◌, length,
}
use mini_database.Common.{
  Status, ok, parse_error, ColumnDef, int_of_type, type_of_int, invalid_page_id,
}
use mini_database.Packages.Json.{JsonLib}
use mini_database.Packages.Pool.{PoolLib}
use mini_database.Record.{to_int}
use mini_database.Page
use mini_database.Page.{Page}
use mini_database.Table.{Table, IdMap, rebuild_index}

-- std::max
abbrev pub max : ℕ → ℕ → ℕ
max a b = if leb b a then a else b

module _ (J : JsonLib) where
  open J use {
    Json, object, array, of_int, of_bool, of_string, as_number, as_string, as_bool, as_array, at,
    put, int_of,
  }

  -- The body of toJson's loop over the schema.
  unfoldable pub column_json : ColumnDef → Json
  column_json col =
      let with_name = put object "name" (of_string col.name) in
      let with_type = put with_name "type" (of_int (int_of_type col.type)) in
      put with_type "nullable" (of_bool col.nullable)

  -- The body of fromJson's loop over the schema.
  unfoldable pub load_column : Json → Option ColumnDef
  load_column col = do
    name ← at col "name" >>= as_string
    type ← at col "type" >>= as_number
    nullable ← at col "nullable" >>= as_bool
    some (record { name = name; type = type_of_int (int_of type); nullable = nullable })

  -- That loop: the columns that were read, and whether it came to its end.
  unfoldable pub load_columns : List Json → List ColumnDef × Bool
  unfolding load_column
  load_columns [] = ([], true)
  load_columns (entry ∷ entries) =
      let (cols, whole) = load_columns entries in
      elim (load_column entry) [ none ↦ ([], false) | some col ↦ (col ∷ cols, whole) ]

  module _ (P : PoolLib) where
    -- fromJson's loop over the pages, after those that are there, with maxPageId.
    unfoldable pub load_pages :
        List (Page J P) → ℕ → List Json → List (Page J P) × ℕ × Option Status
    load_pages pages max_id [] = (pages, max_id, some ok)
    load_pages pages max_id (entry ∷ entries) =
        let (p, s) = Page.from_json J P (Page.make J P invalid_page_id) entry in
        elim s [
          | none ↦ (pages, max_id, none)
          | some ok ↦ load_pages (pages ++ p ∷ []) (max max_id (Page.get_id J P p)) entries
          | some failed ↦ (pages, max_id, some failed)
        ]

module _ (J : JsonLib) (P : PoolLib) (M : IdMap) where
  open J use {
    Json, object, array, of_int, of_string, is_null, as_number, as_string, as_array, at, put, dump,
    parse, uint_of,
  }

  -- toJson
  unfoldable pub to_json : Table J P M → Json
  unfolding column_json
  to_json t =
      let with_id = put object "__table_id___" (of_int (to_int t.id)) in
      let with_name = put with_id "__name__" (of_string t.name) in
      let with_schema = put with_name "schema" (array (map (column_json J) t.schema)) in
      put with_schema "page" (array (map (Page.to_json J P) t.pages))

  -- The last assignments of fromJson: the pages, the counter and the indexes.
  unfoldable pub assign_pages : Json → Table J P M → Table J P M × Option Status
  unfolding load_pages
  assign_pages envelope t = elim (at envelope "page" >>= as_array) [
    | none ↦ (t, none)
    | some entries ↦
        let (pages, max_id, s) = load_pages J P t.pages 0 entries in
        elim s [
          | none ↦ (record t { pages = pages }, none)
          | some ok ↦
              let (u, s') = rebuild_index J P M (record t {
                pages = pages;
                next_page_id = if length pages == 0 then 0 else (max_id + 1) % 2 ^ 32;
              }) in
              (u, some s')
          | some failed ↦ (record t { pages = pages }, some failed)
        ]
  ]

  unfoldable pub assign_schema : Json → Table J P M → Table J P M × Option Status
  unfolding load_columns assign_pages
  assign_schema envelope t = elim (at envelope "schema" >>= as_array) [
    | none ↦ (record t { schema = [] }, none)
    | some entries ↦
        let (cols, whole) = load_columns J entries in
        if whole
        then assign_pages envelope (record t { schema = cols })
        else (record t { schema = cols }, none)
  ]

  unfoldable pub assign_name : Json → Table J P M → Table J P M × Option Status
  unfolding assign_schema
  assign_name envelope t = elim (at envelope "__name__" >>= as_string) [
    | none ↦ (t, none)
    | some name ↦ assign_schema envelope (record t { name = name })
  ]

  -- fromJson
  unfoldable pub from_json : Table J P M → Json → Table J P M × Option Status
  unfolding assign_name
  from_json t envelope =
      if is_null envelope
      then (t, some parse_error)
      else elim (at envelope "__table_id___" >>= as_number) [
        | none ↦ (t, none)
        | some d ↦ assign_name envelope (record t { id = uint_of d % 2 ^ 32 })
      ]

  -- serialize
  unfoldable pub serialize : Table J P M → String
  serialize t = dump (to_json t)

  -- `catch (const std::exception&)`
  abbrev or_parse_error : Table J P M × Option Status → Table J P M × Status
  or_parse_error (t, none) = (t, parse_error)
  or_parse_error (t, some s) = (t, s)

  -- deserialize
  unfoldable pub deserialize : Table J P M → String → Table J P M × Status
  deserialize t raw = elim (parse raw) [
    | none ↦ (t, parse_error)
    | some envelope ↦
        if is_null envelope then (t, parse_error) else or_parse_error (from_json t envelope)
  ]
