-- ===== src/Page.antt =====
-- src/MiniDB/Core/Page.cpp and include/MiniDB/Core/Page.h: up to 64 records in a pool.
-- A `Record*` of the vector `records` is a cell: the pool's address with the record that lives there.
-- No two entries of the vector share an address, so a cell holds its record. A `Record*` that a
-- lookup returns is its position in the vector. `none` in a result stands for an exception.
pub mod Invariant
pub mod Lookup
pub mod Effects
pub mod RoundTrip
pub mod Lifetime
use mini_database.Prelude.{
  ℕ, zero, suc, ◌-◌, ◌%◌, ◌^◌, Bool, true, false, not, ◌&&◌, Option, none, some, List, [], ◌∷◌,
  ◌++◌, map, String, leb, ◌==◌, if◌then◌else◌, ◌>>=◌, length, get_elem?, set,
}
use mathlib.Core.Option
use mini_database.Common.{
  Status, ok, not_found, out_of_memory, parse_error, max_records_page, invalid_page_id,
}
use mini_database.Packages.Json.{JsonLib}
use mini_database.Packages.Pool.{PoolLib}
use mini_database.Record.{Record, to_int}
use mini_database.Record

pub record Cell (J : JsonLib) (P : PoolLib) : Type 0 where
  pub slot : PoolLib.Slot P
  pub value : Record J

-- class Page
pub record Page (J : JsonLib) (P : PoolLib) : Type 0 where
  pub id : ℕ
  pub dirty : Bool
  pub records : List (Cell J P)
  pub pool : PoolLib.Pool P

-- sizeof(Record), which nothing depends on
abbrev record_size : ℕ
record_size = 64

module _ (J : JsonLib) (P : PoolLib) where
  open J use {
    Json, object, array, of_int, is_null, as_number, as_array, at, put, dump, parse, uint_of,
  }
  open P use {Pool, Slot, create, destroy}

  -- Page(id) and Page()
  unfoldable pub make : ℕ → Page J P
  make id = record {
    id = id;
    dirty = false;
    records = [];
    pool = PoolLib.make P record_size max_records_page;
  }

  unfoldable pub default : Page J P
  unfolding make
  default = make invalid_page_id

  unfoldable pub is_full : Page J P → Bool
  is_full p = length p.records == max_records_page

  -- addRecord
  unfoldable pub add_record : Page J P → Record J → Page J P × Status
  add_record p r = if is_full p then (p, out_of_memory) else elim (create p.pool) [
    | none ↦ (p, out_of_memory)
    | some (slot, pool) ↦ (
      record p {
        records =
            p.records
            ++ record { slot = slot; value = Record.make J (Record.get_id J r) r.fields } ∷ [];
        dirty = true;
        pool = pool;
      },
      ok,
    )
  ]

  -- The test of both overloads of getRecord.
  unfoldable pub is_live : ℕ → Cell J P → Bool
  is_live id c = not (Record.is_deleted J c.value) && Record.get_id J c.value == id

  unfoldable pub find_live : ℕ → List (Cell J P) → Option ℕ
  find_live id [] = none
  find_live id (c ∷ cs) = if is_live id c then some 0 else Option.map suc (find_live id cs)

  -- getRecord: the position of the record
  unfoldable pub get_record : Page J P → ℕ → Option ℕ
  unfolding find_live
  get_record p id = find_live id p.records

  -- getRecordAt
  unfoldable pub get_record_at : Page J P → ℕ → Option (Record J)
  get_record_at p index =
      if leb (length p.records) index
      then none
      else Option.map (λ c. c.value) (get_elem? p.records index)

  -- A write through the `Record*` at a position.
  unfoldable pub write_at : List (Cell J P) → ℕ → (Record J → Record J) → List (Cell J P)
  write_at [] i f = []
  write_at (c ∷ cs) zero f = record c { value = f c.value } ∷ cs
  write_at (c ∷ cs) (suc i) f = c ∷ write_at cs i f

  -- updateRecord
  unfoldable pub update_record : Page J P → Record J → Page J P × Status
  update_record p r = elim (get_record p (Record.get_id J r)) [
    | none ↦ (p, not_found)
    | some i ↦ (
      record p {
        records = write_at p.records i (λ existing. record existing { fields = r.fields });
        dirty = true;
      },
      ok,
    )
  ]

  -- deleteRecord
  unfoldable pub delete_record : Page J P → ℕ → Page J P × Status
  delete_record p id = elim (get_record p id) [
    | none ↦ (p, not_found)
    | some i ↦
        (record p { records = write_at p.records i (Record.mark_deleted J); dirty = true }, ok)
  ]

  -- The loop of compact over the records, with `live` and the pool.
  unfoldable pub compact_loop : List (Cell J P) → List (Cell J P) → Pool → List (Cell J P) × Pool
  compact_loop [] live pool = (live, pool)
  compact_loop (c ∷ cs) live pool =
      compact_loop cs (if Record.is_deleted J c.value then live else live ++ c ∷ [])
        (if Record.is_deleted J c.value then destroy pool c.slot else pool)

  -- compact
  unfoldable pub compact : Page J P → Page J P × Status
  compact p =
      let (live, pool) = compact_loop p.records [] p.pool in
      (record p { records = live; dirty = false; pool = pool }, ok)

  -- The loop of toJson.
  unfoldable pub live_json : List (Cell J P) → List Json
  live_json [] = []
  live_json (c ∷ cs) =
      let rest = live_json cs in
      if not (Record.is_deleted J c.value) then Record.to_json J c.value ∷ rest else rest

  -- toJson
  unfoldable pub to_json : Page J P → Json
  to_json p =
      let with_id = put object "__page_id__" (of_int (to_int p.id)) in
      put with_id "records" (array (live_json p.records))

  -- The loop of fromJson. After a failure the records read so far stay.
  unfoldable pub load_records : Page J P → List Json → Page J P × Option Status
  load_records p [] = (record p { dirty = false }, some ok)
  load_records p (entry ∷ entries) = elim (create p.pool) [
    | none ↦ (p, some out_of_memory)
    | some (slot, pool) ↦
        let (r, status) = Record.from_json J (Record.default J) entry in
        elim status [
          | none ↦ (record p { pool = pool }, none)
          | some ok ↦
              load_records
                (record p {
                  records = p.records ++ record { slot = slot; value = r } ∷ [];
                  pool = pool;
                })
                entries
          | some s ↦ (record p { pool = destroy pool slot }, some s)
        ]
  ]

  -- fromJson
  unfoldable pub from_json : Page J P → Json → Page J P × Option Status
  from_json p envelope =
      if is_null envelope
      then (p, some parse_error)
      else elim (at envelope "__page_id__" >>= as_number) [
        | none ↦ (p, none)
        | some d ↦
            let q : Page J P = record p { id = uint_of d % 2 ^ 32 } in
            elim (at envelope "records" >>= as_array) [
              | none ↦ (q, none)
              | some entries ↦ load_records q entries
            ]
      ]

  unfoldable pub serialize : Page J P → String
  serialize p = dump (to_json p)

  -- `catch (...)`
  abbrev or_parse_error : Page J P × Option Status → Page J P × Status
  or_parse_error (p, none) = (p, parse_error)
  or_parse_error (p, some s) = (p, s)

  unfoldable pub deserialize : Page J P → String → Page J P × Status
  deserialize p raw = elim (parse raw) [
    | none ↦ (p, parse_error)
    | some envelope ↦
        if is_null envelope then (p, parse_error) else or_parse_error (from_json p envelope)
  ]

  unfoldable pub is_dirty : Page J P → Bool
  is_dirty p = p.dirty

  unfoldable pub is_empty : Page J P → Bool
  is_empty p = length p.records == 0

  unfoldable pub record_count : Page J P → ℕ
  record_count p = length p.records

  unfoldable pub free_slots : Page J P → ℕ
  free_slots p = max_records_page - length p.records

  unfoldable pub get_id : Page J P → ℕ
  get_id p = p.id
