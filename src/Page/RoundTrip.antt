-- ===== src/Page/RoundTrip.antt =====
-- Core/Page.cpp, section 4: the JSON form of a page, written and read.
use mathlib.Core.List.{map-append}
use mini_database.Prelude.{
  ℕ, ◌+◌, ◌^◌, ◌≤◌, ◌<◌, ◌≡◌, refl, sym, ◌∙◌, Bool-cases, inl, inr, true, false, some, List, [],
  ◌∷◌, ◌++◌, map, append_assoc, append-nil, arith, length, length-append, All,
}
use mini_database.Common.{ok, max_records_page}
use mini_database.Packages.Json.{JsonLib, pos}
use mini_database.Packages.Pool.{PoolLib}
use mini_database.Record
use mini_database.Record.{Record, to_int}
use mini_database.Record.RoundTrip.{from_json-to_json, to_int_small}
use mini_database.Page.{Page, Cell, make, is_live, live_json, to_json, load_records, from_json}
use mini_database.Page.Lookup.{find_value, count_live, live_cells}
use mini_database.Page.Invariant.{IsWellFormed, make-IsWellFormed, push-IsWellFormed, create_room}

module _ (J : JsonLib) (P : PoolLib) where
  open J use {
    Json, object, array, at, is_null, put, of_int, as_number, as_array, uint_of-double_of,
    as_number-of_int, object-is_object, put-is_object, object-not_null, at-put, as_array-array,
  }

  abbrev pub values : List (Cell J P) → List (Record J)
  values = map (λ c. c.value)

  abbrev pub texts : List (Cell J P) → List Json
  texts = map (λ c. Record.to_json J c.value)

  -- The lookups read the records alone.
  pub readings-values :
      (j : ℕ) (cs ds : List (Cell J P))
      → values cs ≡ values ds
      → (find_value J P j cs ≡ find_value J P j ds) × (count_live J P j cs ≡ count_live J P j ds)
  unfolding find_value count_live is_live
  readings-values j [] [] h = (refl, refl)
  readings-values j [] (d ∷ ds) h = cc
  readings-values j (c ∷ cs) [] h = cc
  readings-values j (c ∷ cs) (d ∷ ds) h =
      let head : c.value ≡ d.value = cc in
      let (a, b) = readings-values j cs ds cc in (ground (arith, head, a), ground (arith, head, b))

  live_json-texts : (cs : List (Cell J P)) → live_json J P cs ≡ texts (live_cells J P cs)
  unfolding live_json live_cells
  live_json-texts [] = refl
  live_json-texts (c ∷ cs) = ground (arith, live_json-texts cs)

  -- What the loop leaves of a page once it has read the records of these cells.
  pub record Loaded (p : Page J P) (cs : List (Cell J P)) (q : Page J P) : Type 0 where
    pub same_id : q.id ≡ p.id
    pub clean : q.dirty ≡ false
    pub values_eq : values q.records ≡ values p.records ++ values cs
    pub well_formed : IsWellFormed J P q

  abbrev push : Page J P → P.Slot → P.Pool → Record J → Page J P
  push p slot pool r = record p {
    records = p.records ++ record { slot = slot; value = r } ∷ [];
    pool = pool;
  }

  load_records_step :
      (p : Page J P) (c : Cell J P) (cs : List (Cell J P)) (slot : P.Slot) (pool : P.Pool)
      → P.create p.pool ≡ some (slot, pool)
      → c.value.id < 2 ^ 31
      → load_records J P p (texts (c ∷ cs)) ≡ load_records J P (push p slot pool c.value) (texts cs)
  unfolding load_records
  load_records_step p c cs slot pool e s =
      ground (arith, e, from_json-to_json J (Record.default J) c.value s)

  load_records-Loaded :
      (p : Page J P) (cs : List (Cell J P))
      → IsWellFormed J P p
      → length p.records + length cs ≤ max_records_page
      → All (λ c. c.value.id < 2 ^ 31) cs
      → (q : Page J P) × (load_records J P p (texts cs) ≡ (q, some ok)) × Loaded p cs q
  unfolding load_records
  load_records-Loaded p [] w room small = (
    record p { dirty = false },
    refl,
    record {
      same_id = refl;
      clean = refl;
      values_eq = sym (append-nil _);
      well_formed = record { within = w.within; room = w.room; held = w.held };
    },
  )
  load_records-Loaded p (c ∷ cs) w room (s, small) =
      let (slot, pool, e) = create_room J P p w (omega arith) in
      let p' = push p slot pool c.value in
      let w' : IsWellFormed J P p' =
        push-IsWellFormed J P p slot pool c.value w (omega arith) e p.dirty in
      let (q, q-eq, l) =
        load_records-Loaded p' cs w'
          (omega (arith, length-append p.records (record { slot = slot; value = c.value } ∷ [])))
          small in
      (
        q,
        load_records_step p c cs slot pool e s ∙ q-eq,
        record {
          same_id = l.same_id;
          clean = l.clean;
          values_eq = rw (map-append, append_assoc) at l.values_eq;
          well_formed = l.well_formed;
        },
      )

  module _ (p : Page J P) where
    with_id-is_object : J.is_object (put object "__page_id__" (of_int (to_int p.id))) ≡ true
    with_id-is_object = put-is_object _ _ _ object-is_object

    to_json-not_null : is_null (to_json J P p) ≡ false
    unfolding to_json
    to_json-not_null = object-not_null _ (put-is_object _ _ _ with_id-is_object)

    at_records : at (to_json J P p) "records" ≡ some (array (live_json J P p.records))
    unfolding to_json
    at_records = at-put _ "records" "records" (array (live_json J P p.records)) with_id-is_object

    at_id : at (to_json J P p) "__page_id__" ≡ some (of_int (to_int p.id))
    unfolding to_json
    at_id =
        at-put _ "records" "__page_id__" (array (live_json J P p.records)) with_id-is_object
        ∙ at-put _ "__page_id__" "__page_id__" (of_int (to_int p.id)) object-is_object

  -- Ids that the JSON form can hold.
  abbrev pub IsSmall : Page J P → Type 0
  IsSmall p = (p.id < 2 ^ 31) × All (λ c. c.value.id < 2 ^ 31) p.records

  length-live_cells : (cs : List (Cell J P)) → length (live_cells J P cs) ≤ length cs
  unfolding live_cells
  length-live_cells [] = omega arith
  length-live_cells (c ∷ cs) = ground (arith, length-live_cells cs)

  All-live_cells {ℓ} :
      (Q : Cell J P → Type ℓ) (cs : List (Cell J P)) → All Q cs → All Q (live_cells J P cs)
  unfolding live_cells
  All-live_cells Q [] h = tt
  All-live_cells Q (c ∷ cs) (h, hs) = elim (Bool-cases (Record.is_deleted J c.value)) [
    | inl gone ↦ rw (gone, live_cells) (All-live_cells Q cs hs)
    | inr kept ↦ rw (kept, live_cells) (h, All-live_cells Q cs hs)
  ]

  -- A page that was read back from the JSON form of another.
  pub record Restored (p q : Page J P) : Type 0 where
    pub same_id : q.id ≡ p.id
    pub clean : q.dirty ≡ false
    pub kept : values q.records ≡ values (live_cells J P p.records)
    pub well_formed : IsWellFormed J P q

  -- fromJson of what toJson writes of a well-formed page answers ok on a new page, and gives it the id
  -- and the live records of the first, in order and with nothing marked dirty, if the ids are below 2^31.
  pub from_json-Restored :
      (p : Page J P) (id : ℕ)
      → IsWellFormed J P p
      → IsSmall p
      → (q : Page J P) × (from_json J P (make J P id) (to_json J P p) ≡ (q, some ok)) × Restored p q
  unfolding from_json make
  from_json-Restored p id w (small, smalls) =
      let start : Page J P = record (make J P id) { id = p.id } in
      let made = make-IsWellFormed J P p.id in
      let (q, q-eq, l) =
        load_records-Loaded start (live_cells J P p.records) made
          (omega (arith, length-live_cells p.records, w.within))
          (All-live_cells (λ c. c.value.id < 2 ^ 31) p.records smalls) in
      (
        q,
        ground (
          arith,
          q-eq,
          to_json-not_null p,
          at_id p,
          at_records p,
          to_int_small p.id small,
          as_number-of_int (pos p.id),
          as_array-array (live_json J P p.records),
          live_json-texts p.records,
          uint_of-double_of p.id small,
        ),
        record {
          same_id = l.same_id;
          clean = l.clean;
          kept = l.values_eq;
          well_formed = l.well_formed;
        },
      )
