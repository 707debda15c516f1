-- ===== src/Page/Effects.antt =====
-- Core/Page.cpp, section 2: each operation that writes, by what the lookups see afterwards.
use mini_database.Prelude.{
  ℕ, suc, ◌≡◌, refl, ◌∙◌, true, false, Bool-cases, inl, inr, some, [], ◌∷◌, ◌++◌, arith, ◌==◌,
  if◌then◌else◌,
}
use mini_database.Common.{ok}
use mini_database.Packages.Json.{JsonLib}
use mini_database.Packages.Pool.{PoolLib}
use mini_database.Record
use mini_database.Record.{Record}
use mini_database.Page.{
  Page, Cell, is_live, is_full, get_record, add_record, update_record, delete_record,
}
use mini_database.Page.Lookup.{
  find_value, count_live, find_value-append, find_value-append_ne, count_live-append,
  find_value-update, count_live-update, count_live-delete, find_value-delete_ne, get_record-some,
}
use mini_database.Page.Invariant.{IsWellFormed, create_room, not_full}

module _ (J : JsonLib) (P : PoolLib) where
  open P use {Pool, Slot}

  -- What addRecord stores.
  abbrev pub copied : Record J → Record J
  copied r = record { id = r.id; fields = r.fields; deleted = false }

  pub record Added (p : Page J P) (r : Record J) (q : Page J P) : Type 0 where
    pub same_id : q.id ≡ p.id
    pub seen :
        (j : ℕ)
        → find_value J P j q.records
          ≡ (if r.id == j then some (copied r) else find_value J P j p.records)
    pub counted :
        (j : ℕ)
        → count_live J P j q.records
          ≡ (if r.id == j then suc (count_live J P j p.records) else count_live J P j p.records)

  is_live-copied :
      (slot : Slot) (r : Record J) (j : ℕ)
      → is_live J P j (record { slot = slot; value = copied r }) ≡ (r.id == j)
  unfolding is_live Record.is_deleted Record.get_id
  is_live-copied slot r j = ground arith

  appended :
      (p : Page J P) (slot : Slot) (pool : Pool) (r : Record J)
      → count_live J P r.id p.records ≡ 0
      → Added p r (record p {
        records = p.records ++ record { slot = slot; value = copied r } ∷ [];
        dirty = true;
        pool = pool;
      })
  appended p slot pool r zero_live = record {
    same_id = refl;
    seen = λ j. elim (Bool-cases (r.id == j)) [
      | inl here ↦
          let e : r.id ≡ j = ground arith in
          let none_live : count_live J P j p.records ≡ 0 = rw (← e) zero_live in
          ground (arith, find_value-append J P j p.records cell none_live, is_live-copied slot r j)
      | inr other ↦
          ground
            (arith, find_value-append_ne J P j p.records cell (is_live-copied slot r j ∙ other))
    ];
    counted = λ j. ground (arith, count_live-append J P j p.records cell, is_live-copied slot r j);
  }
    where
      cell : Cell J P
      cell = record { slot = slot; value = copied r }

  pub add_record-Added :
      (p : Page J P) (r : Record J)
      → IsWellFormed J P p
      → is_full J P p ≡ false
      → count_live J P r.id p.records ≡ 0
      → ((add_record J P p r).1 ≡ ok) × Added p r (add_record J P p r).0
  unfolding add_record Record.make Record.get_id
  add_record-Added p r w more zero_live =
      let (slot, pool, e) = create_room J P p w (not_full J P p w more) in
      (rw (more, e, add_record), rw (more, e, add_record) (appended p slot pool r zero_live))

  pub record Updated (p : Page J P) (r x : Record J) (q : Page J P) : Type 0 where
    pub same_id : q.id ≡ p.id
    pub seen :
        (j : ℕ)
        → find_value J P j q.records ≡ (
            if r.id == j then some (record x { fields = r.fields }) else find_value J P j p.records)
    pub counted : (j : ℕ) → count_live J P j q.records ≡ count_live J P j p.records

  pub update_record-Updated :
      (p : Page J P) (r x : Record J)
      → find_value J P r.id p.records ≡ some x
      → ((update_record J P p r).1 ≡ ok) × Updated p r x (update_record J P p r).0
  unfolding update_record Record.get_id get_record
  update_record-Updated p r x h =
      let (i, e, _) = get_record-some J P p r.id x h in
      (
        ground arith,
        rw (e, update_record)
            (record {
              same_id = refl;
              seen = λ j. find_value-update J P r.id r.fields p.records i j x e h;
              counted = λ j. count_live-update J P r.fields p.records i j;
            }),
      )

  pub record Deleted (p : Page J P) (id : ℕ) (q : Page J P) : Type 0 where
    pub same_id : q.id ≡ p.id
    pub others :
        (j : ℕ) → (id == j) ≡ false → find_value J P j q.records ≡ find_value J P j p.records
    pub counted :
        (j : ℕ)
        → count_live J P j p.records
          ≡ (if id == j then suc (count_live J P j q.records) else count_live J P j q.records)

  pub delete_record-Deleted :
      (p : Page J P) (id : ℕ) (x : Record J)
      → find_value J P id p.records ≡ some x
      → ((delete_record J P p id).1 ≡ ok) × Deleted p id (delete_record J P p id).0
  unfolding delete_record get_record
  delete_record-Deleted p id x h =
      let (i, e, _) = get_record-some J P p id x h in
      (
        ground arith,
        rw (e, delete_record)
            (record {
              same_id = refl;
              others = λ j ne. find_value-delete_ne J P id p.records i j e ne;
              counted = λ j. count_live-delete J P id p.records i j e;
            }),
      )
