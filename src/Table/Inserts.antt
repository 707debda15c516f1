-- ===== src/Table/Inserts.antt =====
-- Core/Table.cpp: insertRecord against the table's contract.
use mini_database.Prelude.{
  ◌%◌, ◌^◌, ◌++◌, zero, length, All-append, All-map, ℕ, suc, ◌+◌, ◌<◌, ◌≡◌, refl, sym, ◌∙◌, true,
  false, Bool-cases, Option-cases, inl, inr, none, some, List, [], ◌∷◌, arith, ◌==◌, if◌then◌else◌,
  get_elem?, set, All-get_elem?, All-set,
}
use mini_database.Common.{Status, ok, duplicate_key}
use mini_database.Packages.Json.{JsonLib}
use mini_database.Packages.Pool.{PoolLib}
use mini_database.Record
use mini_database.Record.{Record}
use mini_database.Record.Schema.{validate-ne-none}
use mini_database.Page
use mini_database.Page.{Page}
use mini_database.Page.Lookup.{find_value, count_live}
use mini_database.Page.Invariant.{add_record-IsWellFormed, make-IsWellFormed, IsWellFormed}
use mini_database.Page.Effects.{copied, Added, add_record-Added}
use mini_database.Table.{Table, IdMap, insert_record, first_with_slot, find_page_with_slot}
use mini_database.Table.Finding.{value_count, position_of, owner, value, count, count-owner}
use mini_database.Table.Writing.{
  position_of-append, Distinct-append, readings-append, get_elem?-append, position_of-below,
  position_of-set, Distinct-set, count-set, value-set_here, value-set_other, count_live-le,
}
use mini_database.Table.Invariant.{IsConsistent, contains-index}
use mini_database.Table.Contract.{inserted, insert_status, Refines, view, unchanged}

module _ (J : JsonLib) (P : PoolLib) (M : IdMap) where
  open M use {at, insert, at-insert}

  first_with_slot-some :
      (ps : List (Page J P)) (i : ℕ)
      → first_with_slot J P M ps ≡ some i
      → (p : Page J P) × (get_elem? ps i ≡ some p) × (Page.is_full J P p ≡ false)
  unfolding first_with_slot
  first_with_slot-some [] i h = cc
  first_with_slot-some (p ∷ ps) zero h = (p, refl, ground arith)
  first_with_slot-some (p ∷ ps) (suc i) h = first_with_slot-some ps i (ground arith)

  -- The page that findPageWithSlot points at, and what its search changes.
  record Room (t u : Table J P M) (i : ℕ) : Type 0 where
    page : Page J P
    page_eq : get_elem? u.pages i ≡ some page
    free : Page.is_full J P page ≡ false
    consistent : IsConsistent J P M u
    index_eq : u.index ≡ t.index
    schema_eq : u.schema ≡ t.schema
    value_eq : (j : ℕ) → value J P j u.pages ≡ value J P j t.pages
    count_eq : (j : ℕ) → count J P j u.pages ≡ count J P j t.pages

  module _ (t : Table J P M) (inv : IsConsistent J P M t) (few : t.next_page_id + 1 < 2 ^ 32) where
    abbrev new_page : Page J P
    new_page = Page.make J P t.next_page_id

    abbrev grown : Table J P M
    grown = record t {
      next_page_id = (t.next_page_id + 1) % 2 ^ 32;
      pages = t.pages ++ new_page ∷ [];
      page_index = insert t.page_index t.next_page_id (length t.pages);
    }

    unused : position_of J P t.next_page_id t.pages ≡ none
    unused = position_of-below J P t.next_page_id t.pages inv.below

    bare : new_page.records ≡ []
    unfolding Page.make
    bare = refl

    new_id : new_page.id ≡ t.next_page_id
    unfolding Page.make
    new_id = refl

    grown-IsConsistent : IsConsistent J P M grown
    unfolding Page.make
    grown-IsConsistent = record {
      ids = λ pid. ground (
        arith,
        at-insert t.page_index t.next_page_id (length t.pages) pid
            (inv.ids t.next_page_id ∙ unused),
        position_of-append J P new_page bare pid t.pages unused,
        inv.ids pid,
      );
      owners = λ rid. inv.owners rid ∙ sym (readings-append J P new_page bare rid t.pages).1;
      distinct = Distinct-append J P new_page bare t.pages unused inv.distinct;
      below =
          All-append _ t.pages _
            (All-map (λ (p : Page J P). p.id < t.next_page_id) _ t.pages (λ p h. omega arith)
              inv.below)
            (omega arith, tt);
      once = λ rid. omega (arith, (readings-append J P new_page bare rid t.pages).2, inv.once rid);
      well_formed =
          All-append _ t.pages _ inv.well_formed (make-IsWellFormed J P t.next_page_id, tt);
    }

    Room-found : (i : ℕ) → first_with_slot J P M t.pages ≡ some i → Room t t i
    Room-found i e =
        let (p, page_eq, free) = first_with_slot-some t.pages i e in
        record {
          page = p;
          page_eq = page_eq;
          free = free;
          consistent = inv;
          index_eq = refl;
          schema_eq = refl;
          value_eq = λ j. refl;
          count_eq = λ j. refl;
        }

    Room-grown : Room t grown (length t.pages)
    unfolding Page.make Page.is_full
    Room-grown = record {
      page = new_page;
      page_eq = get_elem?-append J P new_page bare t.pages;
      free = refl;
      consistent = grown-IsConsistent;
      index_eq = refl;
      schema_eq = refl;
      value_eq = λ j. (readings-append J P new_page bare j t.pages).0;
      count_eq = λ j. (readings-append J P new_page bare j t.pages).2;
    }

    found_eq :
        (i : ℕ) → first_with_slot J P M t.pages ≡ some i → find_page_with_slot J P M t ≡ (t, i)
    unfolding find_page_with_slot
    found_eq i e = rw (e, find_page_with_slot)

    grown_eq :
        first_with_slot J P M t.pages ≡ none → find_page_with_slot J P M t ≡ (grown, length t.pages)
    unfolding find_page_with_slot Page.make Page.get_id
    grown_eq e = rw (e, find_page_with_slot)

    find-Room : Room t (find_page_with_slot J P M t).0 (find_page_with_slot J P M t).1
    find-Room = elim (Option-cases (first_with_slot J P M t.pages)) [
      | inr (i, e) ↦ rw (found_eq i e) (Room-found i e)
      | inl e ↦ rw (grown_eq e) Room-grown
    ]

  -- The record goes to a page with room, of a table that has no record of its id.
  module _ (t u : Table J P M) (i : ℕ) (room : Room t u i) (r : Record J)
      (fresh : value J P r.id t.pages ≡ none) where
    open room use {page, page_eq, free, consistent, index_eq, value_eq, count_eq}

    abbrev q : Page J P
    q = (Page.add_record J P page r).0

    uncounted : count J P r.id u.pages ≡ 0
    uncounted = count_eq r.id ∙ value_count J P r.id t.pages fresh

    uncounted_here : count_live J P r.id page.records ≡ 0
    uncounted_here = omega (arith, count_live-le J P r.id u.pages i page page_eq, uncounted)

    page-IsWellFormed : IsWellFormed J P page
    page-IsWellFormed =
        All-get_elem? (IsWellFormed J P) u.pages i page page_eq consistent.well_formed

    added : ((Page.add_record J P page r).1 ≡ ok) × Added J P page r q
    added = add_record-Added J P page r page-IsWellFormed free uncounted_here

    self_readings :
        (value J P r.id (set u.pages i q) ≡ some (copied J P r))
        × (owner J P r.id (set u.pages i q) ≡ some q.id)
    self_readings =
        let (v, o) =
          value-set_here J P q r.id u.pages i page page_eq (uncounted ∙ sym uncounted_here) in
        let seen_q : find_value J P r.id q.records ≡ some (copied J P r) =
          ground (arith, added.1.seen r.id) in
        (v ∙ seen_q, ground arith)

    readings_after :
        (j : ℕ)
        → (value J P j (set u.pages i q) ≡ inserted J P M (view J P M t) r ok j)
          × (owner J P j (set u.pages i q) ≡ (if r.id == j then some q.id else owner J P j u.pages))
    readings_after j = elim (Bool-cases (r.id == j)) [
      | inl here ↦
          let same : r.id ≡ j = ground arith in
          let (v, o) = self_readings in (rw (← same) (ground arith), rw (← same) (ground arith))
      | inr other ↦
          let (v, o) =
            value-set_other J P q j u.pages i page page_eq added.1.same_id
              (ground (arith, added.1.seen j)) in
          (ground (arith, value_eq j), ground arith)
    ]

    inserted-IsConsistent :
        IsConsistent J P M
          (record u { pages = set u.pages i q; index = insert u.index r.id q.id; dirty = true })
    inserted-IsConsistent = record {
      ids = λ pid.
          consistent.ids pid
          ∙ sym (position_of-set J P q pid u.pages i page page_eq added.1.same_id);
      owners = λ j. ground (
        arith,
        at-insert u.index r.id q.id j
            (consistent.owners r.id ∙ count-owner J P r.id u.pages uncounted),
        consistent.owners j,
        (readings_after j).1,
      );
      distinct = Distinct-set J P q u.pages i page page_eq added.1.same_id consistent.distinct;
      below =
          All-set _ u.pages i q
            (rw added.1.same_id (
              All-get_elem? (λ (p : Page J P). p.id < u.next_page_id) u.pages i page page_eq
                consistent.below))
            consistent.below;
      once = λ j. ground (
        arith,
        count-set J P q j u.pages i page page_eq,
        added.1.counted j,
        consistent.once j,
        uncounted,
      );
      well_formed =
          All-set _ u.pages i q (add_record-IsWellFormed J P page r page-IsWellFormed).0
            consistent.well_formed;
    }

  module _ (t : Table J P M) (inv : IsConsistent J P M t) (few : t.next_page_id + 1 < 2 ^ 32) where
    insert_present :
        (r x : Record J)
        → Record.validate J r t.schema ≡ some ok
        → value J P r.id t.pages ≡ some x
        → insert_record J P M t r ≡ some (t, duplicate_key)
    unfolding insert_record Record.get_id
    insert_present r x v present = ground (arith, v, contains-index J P M t inv r.id)

    insert_fresh :
        (r : Record J)
        → Record.validate J r t.schema ≡ some ok
        → value J P r.id t.pages ≡ none
        → Refines J P M t (insert_record J P M t r) ok (inserted J P M (view J P M t) r ok)
    unfolding insert_record Record.get_id Page.get_id
    insert_fresh r v fresh =
        let (u, i) = find_page_with_slot J P M t in
        let room = find-Room t inv few in
        let (done, _) = added t u i room r fresh in
        let page_eq : get_elem? u.pages i ≡ some room.page = room.page_eq in
        record {
          after = record u {
            pages = set u.pages i (q t u i room r fresh);
            index = insert u.index r.id (q t u i room r fresh).id;
            dirty = true;
          };
          result = ground (arith, v, contains-index J P M t inv r.id, page_eq, done);
          consistent = inserted-IsConsistent t u i room r fresh;
          view_eq = λ j. (readings_after t u i room r fresh j).0;
          schema_eq = room.schema_eq;
        }

    insert_checked :
        (r : Record J) (c : Status)
        → Record.validate J r t.schema ≡ some c
        → (let s = insert_status J P M c (view J P M t r.id) in
            Refines J P M t (insert_record J P M t r) s (inserted J P M (view J P M t) r s))
    unfolding insert_record
    insert_checked r ok v = elim (Option-cases (value J P r.id t.pages)) [
      | inl fresh ↦ rw fresh (insert_fresh r v fresh)
      | inr (x, present) ↦
          rw present (unchanged J P M t inv (insert_present r x v present) (λ j. refl))
    ]
    insert_checked r c v = unchanged J P M t inv (ground (arith, v)) (λ j. refl)

    -- insertRecord on a consistent table whose page counter is below 2^32 - 1, for every record: validate
    -- answers some status, and insertRecord answers it if it is not ok, else DUPLICATE_KEY if a live record
    -- has the id, else ok. On ok the map has the record, not deleted, under its id; nothing else of the
    -- map changes, and the table stays consistent.
    pub insert_record-Refines :
        (r : Record J)
        → (c : Status) × (Record.validate J r t.schema ≡ some c)
          × (let s = insert_status J P M c (view J P M t r.id) in
              Refines J P M t (insert_record J P M t r) s (inserted J P M (view J P M t) r s))
    insert_record-Refines r = elim (Option-cases (Record.validate J r t.schema)) [
      | inl e ↦ absurd (validate-ne-none J r t.schema e)
      | inr (c, v) ↦ (c, v, insert_checked r c v)
    ]
