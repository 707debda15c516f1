-- ===== src/Table.antt =====
-- src/MiniDB/Core/Table.cpp and include/MiniDB/Core/Table.h: records over pages, with two indexes.
-- A `Page*` is the page's position in the vector `pages`: every page that the table allocates goes to
-- the end of that vector, and none leaves it while the table lives. So `pages` is also the store, and
-- a write through a pointer that `page_index` holds is a write to that entry. `none` in a result is a
-- pointer to no page, or an exception.
pub mod Finding
pub mod Writing
pub mod Invariant
pub mod Reads
pub mod Contract
pub mod Writes
pub mod Deletes
pub mod Inserts
pub mod Maintenance
pub mod Rebuilding
pub mod Forms
pub mod Columns
pub mod Loading
pub mod RoundTrip
pub mod Lifetime
pub mod Abstract
use mini_database.Prelude.{
  ℕ, suc, ◌+◌, ◌%◌, ◌^◌, Bool, true, false, not, Option, none, some, List, [], ◌∷◌, ◌++◌, String,
  str_eq, leb, ◌==◌, if◌then◌else◌, ◌>>=◌, length, get_elem?, set,
}
use mathlib.Core.Option
use mini_database.Common.{
  Status, ok, not_found, duplicate_key, out_of_memory, ColumnDef, invalid_page_id,
}
use mini_database.Packages.Json.{JsonLib}
use mini_database.Packages.Pool.{PoolLib}
use mini_database.Packages.HashMap.{HashMapLib}
use mini_database.Record
use mini_database.Record.{Record}
use mini_database.Page
use mini_database.Page.{Page}

abbrev pub IdMap : Type 1
IdMap = HashMapLib ℕ ℕ ◌==◌

-- class Table; `index` takes a record's id to its page's id, `page_index` a page's id to its pointer
pub record Table (J : JsonLib) (P : PoolLib) (M : IdMap) : Type 0 where
  pub name : String
  pub id : ℕ
  pub schema : List ColumnDef
  pub pages : List (Page J P)
  pub index : HashMapLib.HashMap M
  pub page_index : HashMapLib.HashMap M
  pub next_page_id : ℕ
  pub dirty : Bool

module _ (J : JsonLib) (P : PoolLib) (M : IdMap) where
  open M use {HashMap, empty, insert, erase, contains, at}

  -- Table(name, id, schema)
  unfoldable pub make : String → ℕ → List ColumnDef → Table J P M
  make name id schema = record {
    name = name;
    id = id;
    schema = schema;
    pages = [];
    index = empty;
    page_index = empty;
    next_page_id = 0;
    dirty = false;
  }

  -- nextPageID: the counter is a uint32_t
  unfoldable pub next_page_id : Table J P M → Table J P M × ℕ
  next_page_id t = (record t { next_page_id = (t.next_page_id + 1) % 2 ^ 32 }, t.next_page_id)

  -- The loop of findPageWithSlot.
  unfoldable pub first_with_slot : List (Page J P) → Option ℕ
  first_with_slot [] = none
  first_with_slot (p ∷ ps) =
      if not (Page.is_full J P p) then some 0 else Option.map suc (first_with_slot ps)

  -- findPageWithSlot
  unfoldable pub find_page_with_slot : Table J P M → Table J P M × ℕ
  unfolding next_page_id
  find_page_with_slot t = elim (first_with_slot t.pages) [
    | some i ↦ (t, i)
    | none ↦
        let (u, id) = next_page_id t in
        let new_page = Page.make J P id in
        (
          record u {
            pages = u.pages ++ new_page ∷ [];
            page_index = insert u.page_index (Page.get_id J P new_page) (length u.pages);
          },
          length u.pages,
        )
  ]

  -- findPageByID, both overloads; the outer `none` is at's exception, the inner one a null pointer
  unfoldable pub find_page_by_id : Table J P M → ℕ → Option (Option ℕ)
  find_page_by_id t id =
      if not (contains t.page_index id) then some none else Option.map some (at t.page_index id)

  -- insertRecord
  unfoldable pub insert_record : Table J P M → Record J → Option (Table J P M × Status)
  insert_record t r = do
    s ← Record.validate J r t.schema
    elim s [
      | ok ↦ if contains t.index (Record.get_id J r) then some (t, duplicate_key) else (do
        let (u, i) = find_page_with_slot t
        page ← get_elem? u.pages i
        let (page', s') = Page.add_record J P page r
        elim s' [
          | ok ↦ some (
            record u {
              pages = set u.pages i page';
              index = insert u.index (Record.get_id J r) (Page.get_id J P page');
              dirty = true;
            },
            ok,
          )
          | failed ↦ some (record u { pages = set u.pages i page' }, failed)
        ])
      | failed ↦ some (t, failed)
    ]

  -- getRecord: the record that is copied to `out` on success
  unfoldable pub get_record : Table J P M → ℕ → Option (Option (Record J) × Status)
  get_record t id = if not (contains t.index id) then some (none, not_found) else do
    pid ← at t.index id
    found ← find_page_by_id t pid
    elim found [
      | none ↦ some (none, not_found)
      | some i ↦ do
        page ← get_elem? t.pages i
        elim (Page.get_record J P page id) [
          | none ↦ some (none, not_found)
          | some k ↦ do r ← Page.get_record_at J P page k; some (some r, ok)
        ]
    ]

  -- updateRecord
  unfoldable pub update_record : Table J P M → Record J → Option (Table J P M × Status)
  update_record t r = do
    s ← Record.validate J r t.schema
    elim s [
      | ok ↦ if not (contains t.index (Record.get_id J r)) then some (t, not_found) else (do
        pid ← at t.index (Record.get_id J r)
        found ← find_page_by_id t pid
        elim found [
          | none ↦ some (t, not_found)
          | some i ↦ do
            page ← get_elem? t.pages i
            let (page', s') = Page.update_record J P page r
            elim s' [
              | ok ↦ some (record t { pages = set t.pages i page'; dirty = true }, ok)
              | failed ↦ some (record t { pages = set t.pages i page' }, failed)
            ]
        ])
      | failed ↦ some (t, failed)
    ]

  -- deleteRecord
  unfoldable pub delete_record : Table J P M → ℕ → Option (Table J P M × Status)
  delete_record t id = if not (contains t.index id) then some (t, not_found) else do
    pid ← at t.index id
    found ← find_page_by_id t pid
    elim found [
      | none ↦ some (t, not_found)
      | some i ↦ do
        page ← get_elem? t.pages i
        let (page', s) = Page.delete_record J P page id
        elim s [
          | ok ↦
              some (
                record t { pages = set t.pages i page'; index = erase t.index id; dirty = true },
                ok,
              )
          | failed ↦ some (record t { pages = set t.pages i page' }, failed)
        ]
    ]

  -- hasColumn
  unfoldable pub has_column : List ColumnDef → String → Bool
  has_column [] name = false
  has_column (col ∷ cols) name = if str_eq col.name name then true else has_column cols name

  -- The loop of compact, which a page's failure would leave early.
  unfoldable pub compact_pages : List (Page J P) → List (Page J P) × Status
  compact_pages [] = ([], ok)
  compact_pages (p ∷ ps) =
      let (p', s) = Page.compact J P p in
      let (ps', s') = compact_pages ps in
      elim s [ ok ↦ (p' ∷ ps', s') | failed ↦ (p' ∷ ps, failed) ]

  -- compact
  unfoldable pub compact : Table J P M → Table J P M × Status
  compact t =
      let (ps, s) = compact_pages t.pages in
      elim s [
        | ok ↦ (record t { pages = ps; dirty = false }, ok)
        | failed ↦ (record t { pages = ps }, failed)
      ]

  -- The inner loop of rebuildIndex, over the records of one page.
  unfoldable pub index_records : ℕ → List (Page.Cell J P) → HashMap → HashMap
  index_records pid [] index = index
  index_records pid (c ∷ cs) index = index_records pid cs (
      if not (Record.is_deleted J c.value)
      then insert index (Record.get_id J c.value) pid
      else index)

  -- The outer loop of rebuildIndex; `i` is the pointer to the first of the pages.
  unfoldable pub index_pages : ℕ → List (Page J P) → HashMap → HashMap → HashMap × HashMap
  index_pages i [] index page_index = (index, page_index)
  index_pages i (p ∷ ps) index page_index =
      index_pages (i + 1) ps (index_records (Page.get_id J P p) p.records index)
        (insert page_index (Page.get_id J P p) i)

  -- rebuildIndex
  unfoldable pub rebuild_index : Table J P M → Table J P M × Status
  rebuild_index t =
      let (index, page_index) = index_pages 0 t.pages empty empty in
      (record t { index = index; page_index = page_index }, ok)

  unfoldable pub get_name : Table J P M → String
  get_name t = t.name

  unfoldable pub get_id : Table J P M → ℕ
  get_id t = t.id

  unfoldable pub is_dirty : Table J P M → Bool
  is_dirty t = t.dirty

  unfoldable pub is_empty : Table J P M → Bool
  is_empty t = length t.pages == 0

  unfoldable pub page_count : Table J P M → ℕ
  page_count t = length t.pages

  -- The loop of recordCount.
  unfoldable pub count_records : List (Page J P) → ℕ
  count_records [] = 0
  count_records (p ∷ ps) = Page.record_count J P p + count_records ps

  unfoldable pub record_count : Table J P M → ℕ
  record_count t = count_records t.pages
