-- ===== src/Serializer/Imports.antt =====
-- Engine/Serializer.cpp: importing what was exported inserts the live records in order.
use mini_database.Prelude.{
  ℕ, ◌+◌, ◌%◌, ◌^◌, ◌<◌, ◌≡◌, refl, sym, subst, true, false, Option, none, some, List, [], ◌∷◌, map,
  All, arith, if◌then◌else◌, Bool-cases, inl, inr, All-append,
}
use mini_database.Common.{Status, ok}
use mini_database.Packages.Json.{JsonLib, pos}
use mini_database.Packages.Pool.{PoolLib}
use mini_database.Record
use mini_database.Record.{Record, to_int}
use mini_database.Record.RoundTrip.{to_int_small}
use mini_database.Page.{Page, Cell}
use mini_database.Table
use mini_database.Table.{Table, IdMap}
use mini_database.Query.Rows.{live_cells, live_records}
use mini_database.Serializer.{entry_of, record_of, exported, import_entries, import_table_from_json}
use mini_database.Serializer.Exports.{exported-live}

module _ (J : JsonLib) where
  open J use {
    is_object, contains, of_int-is_number, array-is_array, array-not_null, as_array-array,
    as_number-of_int, uint_of-double_of, contains-put, at-put, erase-put,
  }

  -- What the flat form can hold: an object without a field "id" of its own, and an id that is an int.
  abbrev pub IsExportable : Record J → Type 0
  IsExportable r = (is_object r.fields ≡ true) × (contains r.fields "id" ≡ false) × (r.id < 2 ^ 31)

  record_of-entry_of :
      (next_id : ℕ) (r : Record J)
      → IsExportable r
      → r.deleted ≡ false
      → record_of J next_id (entry_of J r) ≡ some r
  unfolding record_of entry_of Record.make Record.get_id
  record_of-entry_of next_id r (object, fresh, small) alive = ground (
    arith,
    alive,
    to_int_small r.id small,
    contains-put r.fields "id" "id" (J.of_int (pos r.id)) object,
    at-put r.fields "id" "id" (J.of_int (pos r.id)) object,
    erase-put r.fields "id" (J.of_int (pos r.id)) object fresh,
    of_int-is_number (pos r.id),
    as_number-of_int (pos r.id),
    uint_of-double_of r.id small,
  )

  module _ (P : PoolLib) (M : IdMap) where
    -- Records inserted one after the other, up to the first that is refused.
    unfoldable pub insert_all : List (Record J) → Table J P M → Option (Table J P M × Status)
    insert_all [] table = some (table, ok)
    insert_all (r ∷ rs) table = elim (Table.insert_record J P M table r) [
      | none ↦ none
      | some (table', ok) ↦ insert_all rs table'
      | some (table', failed) ↦ some (table', failed)
    ]

    import_entries-map :
        (rs : List (Record J)) (next_id : ℕ) (table : Table J P M)
        → All IsExportable rs
        → All (λ r. r.deleted ≡ false) rs
        → import_entries J P M next_id (map (entry_of J) rs) table ≡ insert_all rs table
    unfolding import_entries insert_all
    import_entries-map [] next_id table h alive = refl
    import_entries-map (r ∷ rs) next_id table (e, h) (a, alive) =
        rw (import_entries, record_of-entry_of next_id r e a)
          (elim (Table.insert_record J P M table r)
            as (λ o.
              (elim o [
                | none ↦ none
                | some (table', ok) ↦
                    import_entries J P M ((next_id + 1) % 2 ^ 64) (map (entry_of J) rs) table'
                | some (table', failed) ↦ some (table', failed)
              ])
              ≡ (elim o [
                | none ↦ none
                | some (table', ok) ↦ insert_all rs table'
                | some (table', failed) ↦ some (table', failed)
              ])) [
                | none ↦ refl
                | some (table', s) ↦
                    ground (arith, import_entries-map rs ((next_id + 1) % 2 ^ 64) table' h alive)
              ])

    live_cells-alive : (cs : List (Cell J P)) → All (λ r. r.deleted ≡ false) (live_cells J P cs)
    unfolding live_cells
    live_cells-alive [] = tt
    live_cells-alive (c ∷ cs) = elim (Bool-cases c.value.deleted) [
      | inl dead ↦
          subst
            (λ b.
              All (λ r. r.deleted ≡ false)
                (if b then live_cells J P cs else c.value ∷ live_cells J P cs))
            (sym dead) (live_cells-alive cs)
      | inr alive ↦
          subst
            (λ b.
              All (λ r. r.deleted ≡ false)
                (if b then live_cells J P cs else c.value ∷ live_cells J P cs))
            (sym alive) (alive, live_cells-alive cs)
    ]

    live_records-alive : (ps : List (Page J P)) → All (λ r. r.deleted ≡ false) (live_records J P ps)
    unfolding live_records
    live_records-alive [] = tt
    live_records-alive (p ∷ ps) =
        All-append _ (live_cells J P p.records) (live_records J P ps) (live_cells-alive p.records)
          (live_records-alive ps)

    -- Importing the export of a table, whose live records are JSON objects without a field "id" of their
    -- own and with ids below 2^31, inserts exactly these records into the target, in order, up to the
    -- first that insertRecord refuses.
    pub import_table_from_json-exported :
        (table target : Table J P M)
        → All IsExportable (live_records J P table.pages)
        → import_table_from_json J P M target (exported J P M table)
          ≡ insert_all (live_records J P table.pages) target
    unfolding import_table_from_json
    import_table_from_json-exported table target h =
        let entries : List J.Json = map (entry_of J) (live_records J P table.pages) in
        rw
          (
            exported-live J P M table,
            import_table_from_json,
            array-not_null entries,
            array-is_array entries,
            as_array-array entries,
          )
          (import_entries-map (live_records J P table.pages) 0 target h
            (live_records-alive table.pages))
