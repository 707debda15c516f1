-- ===== src/Table/RoundTrip.antt =====
-- Core/Table.cpp, section 6: the JSON and text forms of a table, written and read.
use mini_database.Prelude.{
  ℕ, ◌+◌, ◌%◌, ◌^◌, ◌<◌, ◌≡◌, refl, sym, ap, ◌∙◌, subst, true, false, some, List, [], ◌∷◌, ◌++◌,
  map, arith, All, length, ◌==◌, if◌then◌else◌,
}
use mini_database.Common.{ok}
use mini_database.Packages.Json.{JsonLib, pos}
use mini_database.Packages.Pool.{PoolLib}
use mini_database.Record.{to_int}
use mini_database.Record.RoundTrip.{to_int_small}
use mini_database.Page
use mini_database.Page.{Page}
use mini_database.Page.RoundTrip.{IsSmall}
use mini_database.Table.{Table, IdMap, rebuild_index}
use mini_database.Table.Invariant.{IsConsistent}
use mini_database.Table.Contract.{view}
use mini_database.Table.Rebuilding.{rebuild_index-IsConsistent}
use mini_database.Table.Forms.{
  column_json, load_pages, to_json, assign_pages, assign_schema, assign_name, from_json, serialize,
  deserialize,
}
use mini_database.Table.Columns.{IsNamed, load_columns-column_json}
use mini_database.Table.Loading.{
  Each, top, load_pages-Each, readings-Each, Distinct-Each, IsWellFormed-Each, top-above, top-small,
  below-Each,
}

module _ (J : JsonLib) (P : PoolLib) (M : IdMap) where
  open J use {
    Json, object, array, of_int, of_string, is_null, is_object, as_number, as_array, at, put, dump,
    parse, object-is_object, put-is_object, object-not_null, at-put, as_array-array,
    as_number-of_int, as_string-of_string, uint_of-double_of,
  }

  module _ (t : Table J P M) where
    with_id : Json
    with_id = put object "__table_id___" (of_int (to_int t.id))

    with_name : Json
    unfolding with_id
    with_name = put with_id "__name__" (of_string t.name)

    columns : Json
    columns = array (map (column_json J) t.schema)

    with_schema : Json
    unfolding with_name columns
    with_schema = put with_name "schema" columns

    pages : Json
    pages = array (map (Page.to_json J P) t.pages)

    with_id-is_object : is_object with_id ≡ true
    unfolding with_id
    with_id-is_object = put-is_object _ _ _ object-is_object

    with_name-is_object : is_object with_name ≡ true
    unfolding with_name
    with_name-is_object = put-is_object _ _ _ with_id-is_object

    with_schema-is_object : is_object with_schema ≡ true
    unfolding with_schema
    with_schema-is_object = put-is_object _ _ _ with_name-is_object

    to_json_eq : to_json J P M t ≡ put with_schema "page" pages
    unfolding to_json with_schema pages
    to_json_eq = refl

    to_json-not_null : is_null (to_json J P M t) ≡ false
    to_json-not_null = rw to_json_eq (object-not_null _ (put-is_object _ _ _ with_schema-is_object))

    at_page : at (to_json J P M t) "page" ≡ some (array (map (Page.to_json J P) t.pages))
    unfolding pages
    at_page = rw to_json_eq (at-put _ "page" "page" pages with_schema-is_object)

    at_schema : at (to_json J P M t) "schema" ≡ some (array (map (column_json J) t.schema))
    unfolding with_schema
    at_schema = rw to_json_eq (
        at-put _ "page" "schema" pages with_schema-is_object
        ∙ at-put _ "schema" "schema" columns with_name-is_object)

    at_name : at (to_json J P M t) "__name__" ≡ some (of_string t.name)
    unfolding with_schema with_name
    at_name = rw to_json_eq (
        at-put _ "page" "__name__" pages with_schema-is_object
        ∙ at-put _ "schema" "__name__" columns with_name-is_object
        ∙ at-put _ "__name__" "__name__" (of_string t.name) with_id-is_object)

    at_id : at (to_json J P M t) "__table_id___" ≡ some (of_int (to_int t.id))
    unfolding with_schema with_name with_id
    at_id = rw to_json_eq (
        at-put _ "page" "__table_id___" pages with_schema-is_object
        ∙ at-put _ "schema" "__table_id___" columns with_name-is_object
        ∙ at-put _ "__name__" "__table_id___" (of_string t.name) with_id-is_object
        ∙ at-put _ "__table_id___" "__table_id___" (of_int (to_int t.id)) object-is_object)

  -- A table that its JSON form can hold: its ids are below 2^31, its columns' types have names.
  abbrev pub IsStorable : Table J P M → Type 0
  IsStorable t = (t.id < 2 ^ 31) × All (IsSmall J P) t.pages × All (λ c. IsNamed c.type) t.schema

  -- A consistent table with the name, the id, the schema and the map of another.
  pub record Copies (t u : Table J P M) : Type 0 where
    pub name_eq : u.name ≡ t.name
    pub id_eq : u.id ≡ t.id
    pub schema_eq : u.schema ≡ t.schema
    pub consistent : IsConsistent J P M u
    pub view_eq : (j : ℕ) → view J P M u j ≡ view J P M t j

  -- Pages that were read back, and the counter above them.
  next_id : ℕ → List (Page J P) → ℕ
  next_id m qs = if length qs == 0 then 0 else (m + 1) % 2 ^ 32

  below_next :
      (m : ℕ) (qs : List (Page J P))
      → m < 2 ^ 31
      → All (λ p. p.id < m + 1) qs
      → All (λ p. p.id < next_id m qs) qs
  unfolding next_id
  below_next m [] h a = tt
  below_next m (q ∷ qs) h a =
      let e : next_id m (q ∷ qs) ≡ m + 1 = ground arith in
      subst (λ k. All (λ p. p.id < k) (q ∷ qs)) (sym e) a

  rebuilt-Copies :
      (t u : Table J P M)
      → IsConsistent J P M t
      → All (IsSmall J P) t.pages
      → Each J P t.pages u.pages
      → u.next_page_id ≡ next_id (top J P 0 t.pages) u.pages
      → u.name ≡ t.name
      → u.id ≡ t.id
      → u.schema ≡ t.schema
      → Copies t (rebuild_index J P M u).0 × ((rebuild_index J P M u).1 ≡ ok)
  unfolding rebuild_index
  rebuilt-Copies t u inv small each next n i s =
      let m = top J P 0 t.pages in
      let below : All (λ p. p.id < u.next_page_id) u.pages =
        subst (λ k. All (λ p. p.id < k) u.pages) (sym next)
          (below_next m u.pages (top-small J P 0 t.pages (omega arith) small)
            (below-Each J P m each (top-above J P 0 t.pages).1)) in
      let (consistent, s-ok, same) =
        rebuild_index-IsConsistent J P M u (Distinct-Each J P each inv.distinct) below
          (λ rid. omega (arith, inv.once rid, (readings-Each J P rid each).2))
          (IsWellFormed-Each J P each) in
      (
        record {
          name_eq = n;
          id_eq = i;
          schema_eq = s;
          consistent = consistent;
          view_eq = λ j. (readings-Each J P j each).1;
        },
        refl,
      )

  -- The assignments of fromJson, on what toJson writes.
  assign_pages-to_json :
      (s t : Table J P M) (qs : List (Page J P))
      → load_pages J P s.pages 0 (map (Page.to_json J P) t.pages) ≡ (qs, top J P 0 t.pages, some ok)
      → assign_pages J P M (to_json J P M t) s ≡ (
        (rebuild_index J P M
            (record s { pages = qs; next_page_id = next_id (top J P 0 t.pages) qs })).0,
        some ok,
      )
  unfolding assign_pages next_id rebuild_index
  assign_pages-to_json s t qs e =
      ground (arith, at_page t, as_array-array (map (Page.to_json J P) t.pages), e)

  from_json-assign_pages :
      (s t : Table J P M)
      → t.id < 2 ^ 31
      → All (λ c. IsNamed c.type) t.schema
      → from_json J P M s (to_json J P M t)
        ≡ assign_pages J P M
            (to_json J P M t)
            (record s { id = t.id; name = t.name; schema = t.schema })
  unfolding from_json assign_name assign_schema
  from_json-assign_pages s t small named = ground (
    arith,
    to_json-not_null t,
    at_id t,
    to_int_small t.id small,
    as_number-of_int (pos t.id),
    uint_of-double_of t.id small,
    at_name t,
    as_string-of_string t.name,
    at_schema t,
    as_array-array (map (column_json J) t.schema),
    load_columns-column_json J t.schema named,
  )

  -- fromJson of what toJson writes, on a table without pages.
  pub from_json-Copies :
      (s t : Table J P M)
      → s.pages ≡ []
      → IsConsistent J P M t
      → IsStorable t
      → (u : Table J P M) × (from_json J P M s (to_json J P M t) ≡ (u, some ok)) × Copies t u
  from_json-Copies s t empty inv (small, smalls, named) =
      let (qs, qs-eq, each) = load_pages-Each J P s.pages 0 t.pages inv.well_formed smalls in
      let u : Table J P M = record s {
        id = t.id;
        name = t.name;
        schema = t.schema;
        pages = qs;
        next_page_id = next_id (top J P 0 t.pages) qs;
      } in
      let (c, o) = rebuilt-Copies t u inv smalls each refl refl refl refl in
      (
        (rebuild_index J P M u).0,
        from_json-assign_pages s t small named
            ∙ assign_pages-to_json _ t qs
                (qs-eq ∙ ap (λ l. (l ++ qs, top J P 0 t.pages, some ok)) empty),
        c,
      )

  -- deserialize of what serialize writes of a consistent table answers ok on a table without pages, and
  -- makes it a consistent table with the name, the id, the schema and the map from ids to records of the
  -- first, if the ids are below 2^31, the columns' types are enumerators and the JSON package reads back
  -- the text that it writes for the table.
  pub deserialize-Copies :
      (s t : Table J P M)
      → s.pages ≡ []
      → IsConsistent J P M t
      → IsStorable t
      → parse (dump (to_json J P M t)) ≡ some (to_json J P M t)
      → (u : Table J P M) × (deserialize J P M s (serialize J P M t) ≡ (u, ok)) × Copies t u
  unfolding deserialize serialize
  deserialize-Copies s t empty inv storable reads =
      let (u, u-eq, c) = from_json-Copies s t empty inv storable in
      (u, ground (arith, reads, to_json-not_null t, u-eq), c)
