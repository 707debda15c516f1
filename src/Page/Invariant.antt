-- ===== src/Page/Invariant.antt =====
-- Core/Page.cpp: a page holds at most 64 records, and its pool holds exactly those of the vector.
use mathlib.Core.List.{map-append}
use mini_database.Prelude.{
  ℕ, zero, suc, ◌+◌, ◌≤◌, ◌<◌, ◌≡◌, refl, ap, ◌∙◌, Bool, true, false, Bool-cases, Option-cases, inl,
  inr, some, List, [], ◌∷◌, ◌++◌, map, append-nil, append_assoc, arith, if◌then◌else◌, length,
  length-append, length-map,
}
use mini_database.Common.{ok, out_of_memory, max_records_page}
use mini_database.Packages.Json.{JsonLib}
use mini_database.Packages.Pool.{PoolLib}
use mini_database.Record
use mini_database.Record.{Record}
use mini_database.Page.{
  Page, Cell, make, is_full, add_record, get_record, update_record, delete_record, write_at,
  compact_loop, compact,
}

module _ (J : JsonLib) (P : PoolLib) where
  open P use {
    Pool, Slot, Holds, capacity, create, destroy, make-capacity, make-Holds, create-ne-none,
    create-capacity, create-Holds, destroy-capacity, destroy-Holds,
  }

  abbrev pub slots : List (Cell J P) → List Slot
  slots = map (λ c. c.slot)

  pub record IsWellFormed (p : Page J P) : Type 0 where
    pub within : length p.records ≤ max_records_page
    pub room : capacity p.pool ≡ max_records_page
    pub held : Holds p.pool (slots p.records)

  pub make-IsWellFormed : (id : ℕ) → IsWellFormed (make J P id)
  unfolding make
  make-IsWellFormed id = record {
    within = omega arith;
    room = make-capacity _ _;
    held = make-Holds _ _;
  }

  -- A record that lands on a new place of the pool.
  pub push-IsWellFormed :
      (p : Page J P) (slot : Slot) (pool : Pool) (r : Record J)
      → IsWellFormed p
      → length p.records < max_records_page
      → create p.pool ≡ some (slot, pool)
      → (dirty : Bool)
      → IsWellFormed (record p {
        records = p.records ++ record { slot = slot; value = r } ∷ [];
        dirty = dirty;
        pool = pool;
      })
  push-IsWellFormed p slot pool r w less e dirty = record {
    within = omega (arith, length-append p.records (record { slot = slot; value = r } ∷ []));
    room = create-capacity p.pool slot pool e ∙ w.room;
    held = rw (map-append) (create-Holds p.pool (slots p.records) slot pool w.held e);
  }

  pub not_full :
      (p : Page J P) → IsWellFormed p → is_full J P p ≡ false → length p.records < max_records_page
  unfolding is_full
  not_full p w more = ground arith

  pub create_room :
      (p : Page J P)
      → IsWellFormed p
      → length p.records < max_records_page
      → (slot : Slot) × (pool : Pool) × (create p.pool ≡ some (slot, pool))
  create_room p w less = elim (Option-cases (create p.pool)) [
    | inl e ↦ absurd (
        create-ne-none p.pool (slots p.records) w.held
          (omega (arith, w.room, length-map p.records (λ (c : Cell J P). c.slot))) e)
    | inr ((slot, pool), e) ↦ (slot, pool, e)
  ]

  -- addRecord keeps the invariant of a well-formed page, and answers OUT_OF_MEMORY exactly when the page
  -- is full and ok otherwise; the page then has one record more if it was not full, else as many.
  pub add_record-IsWellFormed :
      (p : Page J P) (r : Record J)
      → IsWellFormed p
      → IsWellFormed (add_record J P p r).0
        × ((add_record J P p r).1 ≡ (if is_full J P p then out_of_memory else ok))
        × (length (add_record J P p r).0.records
            ≡ (if is_full J P p then length p.records else suc (length p.records)))
  unfolding add_record is_full
  add_record-IsWellFormed p r w = elim (Bool-cases (is_full J P p)) [
    | inl full ↦ (rw (full, add_record) w, ground arith, ground arith)
    | inr more ↦
        let less : length p.records < max_records_page = ground arith in
        let (slot, pool, e) = create_room p w less in
        (
          rw (more, e, add_record) (push-IsWellFormed p slot pool _ w less e true),
          ground arith,
          ground (
            arith,
            length-append p.records
                (record { slot = slot; value = Record.make J (Record.get_id J r) r.fields } ∷ []),
          ),
        )
  ]

  slots-write_at :
      (cs : List (Cell J P)) (i : ℕ) (f : Record J → Record J)
      → slots (write_at J P cs i f) ≡ slots cs
  unfolding write_at
  slots-write_at [] i f = refl
  slots-write_at (c ∷ cs) zero f = refl
  slots-write_at (c ∷ cs) (suc i) f = ap (◌∷◌ c.slot) (slots-write_at cs i f)

  length-write_at :
      (cs : List (Cell J P)) (i : ℕ) (f : Record J → Record J)
      → length (write_at J P cs i f) ≡ length cs
  unfolding write_at
  length-write_at [] i f = refl
  length-write_at (c ∷ cs) zero f = refl
  length-write_at (c ∷ cs) (suc i) f = ap suc (length-write_at cs i f)

  write_at-IsWellFormed :
      (p : Page J P) (i : ℕ) (f : Record J → Record J) (dirty : Bool)
      → IsWellFormed p
      → IsWellFormed (record p { records = write_at J P p.records i f; dirty = dirty })
  write_at-IsWellFormed p i f dirty w = record {
    within = omega (arith, length-write_at p.records i f, w.within);
    room = w.room;
    held = rw (slots-write_at p.records i f) w.held;
  }

  pub update_record-IsWellFormed :
      (p : Page J P) (r : Record J) → IsWellFormed p → IsWellFormed (update_record J P p r).0
  unfolding update_record
  update_record-IsWellFormed p r w = elim (Option-cases (get_record J P p (Record.get_id J r))) [
    | inl e ↦ rw (e, update_record) w
    | inr (i, e) ↦ rw (e, update_record) (write_at-IsWellFormed p i _ true w)
  ]

  pub delete_record-IsWellFormed :
      (p : Page J P) (id : ℕ) → IsWellFormed p → IsWellFormed (delete_record J P p id).0
  unfolding delete_record
  delete_record-IsWellFormed p id w = elim (Option-cases (get_record J P p id)) [
    | inl e ↦ rw (e, delete_record) w
    | inr (i, e) ↦ rw (e, delete_record) (write_at-IsWellFormed p i _ true w)
  ]

  compact_loop-Holds :
      (cs live : List (Cell J P)) (pool : Pool)
      → Holds pool (slots live ++ slots cs)
      → Holds (compact_loop J P cs live pool).1 (slots (compact_loop J P cs live pool).0)
  unfolding compact_loop
  compact_loop-Holds [] live pool h = rw append-nil at h
  compact_loop-Holds (c ∷ cs) live pool h = elim (Bool-cases (Record.is_deleted J c.value)) [
    | inl gone ↦
        rw (gone, compact_loop)
          (compact_loop-Holds cs live _ (destroy-Holds pool (slots live) c.slot (slots cs) h))
    | inr kept ↦
        rw (kept, compact_loop)
          (compact_loop-Holds cs (live ++ c ∷ []) pool (rw (map-append, append_assoc) h))
  ]

  compact_loop-capacity :
      (cs live : List (Cell J P)) (pool : Pool)
      → capacity (compact_loop J P cs live pool).1 ≡ capacity pool
  unfolding compact_loop
  compact_loop-capacity [] live pool = refl
  compact_loop-capacity (c ∷ cs) live pool = ground (
    arith,
    destroy-capacity pool c.slot,
    compact_loop-capacity cs live pool,
    compact_loop-capacity cs live (destroy pool c.slot),
    compact_loop-capacity cs (live ++ c ∷ []) pool,
  )

  compact_loop-length :
      (cs live : List (Cell J P)) (pool : Pool)
      → length (compact_loop J P cs live pool).0 ≤ length live + length cs
  unfolding compact_loop
  compact_loop-length [] live pool = omega arith
  compact_loop-length (c ∷ cs) live pool = ground (
    arith,
    compact_loop-length cs live (destroy pool c.slot),
    compact_loop-length cs (live ++ c ∷ []) pool,
    length-append live (c ∷ []),
  )

  -- compact keeps the invariant of a well-formed page: the pool then holds exactly the places of the
  -- records that are left.
  pub compact-IsWellFormed : (p : Page J P) → IsWellFormed p → IsWellFormed (compact J P p).0
  unfolding compact
  compact-IsWellFormed p w = record {
    within = omega (arith, compact_loop-length p.records [] p.pool, w.within);
    room = compact_loop-capacity p.records [] p.pool ∙ w.room;
    held = compact_loop-Holds p.records [] p.pool w.held;
  }
