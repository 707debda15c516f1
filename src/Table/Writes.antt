-- ===== src/Table/Writes.antt =====
-- Core/Table.cpp: updateRecord against the table's contract.
use mini_database.Prelude.{
  ℕ, ◌<◌, ◌≡◌, refl, sym, ◌∙◌, true, Bool-cases, Option-cases, inl, inr, none, some, arith, ◌==◌,
  get_elem?, set, All-get_elem?, All-set, set_self, subst,
}
use mini_database.Common.{Status, ok, not_found}
use mini_database.Packages.Json.{JsonLib}
use mini_database.Packages.Pool.{PoolLib}
use mini_database.Record
use mini_database.Record.{Record}
use mini_database.Record.Schema.{validate-ne-none}
use mini_database.Page
use mini_database.Page.{Page}
use mini_database.Page.Lookup.{find_value, count_live, count_live_pos}
use mini_database.Page.Invariant.{IsWellFormed, update_record-IsWellFormed}
use mini_database.Page.Effects.{Updated, update_record-Updated}
use mini_database.Table.{Table, IdMap, update_record}
use mini_database.Table.Finding.{owner, value, count}
use mini_database.Table.Writing.{
  position_of-set, Distinct-set, count-set, value-set_here, value-set_other, count_live-le,
}
use mini_database.Table.Invariant.{IsConsistent, find_page_by_id_lem, contains-index, located}
use mini_database.Table.Contract.{Refines, view, updated, update_status, unchanged}

module _ (J : JsonLib) (P : PoolLib) (M : IdMap) (t : Table J P M)
    (inv : IsConsistent J P M t) where
  -- Every live record with an id is on the page that the id is seen on.
  only_here :
      (rid i : ℕ) (p : Page J P) (x : Record J)
      → get_elem? t.pages i ≡ some p
      → find_value J P rid p.records ≡ some x
      → count J P rid t.pages ≡ count_live J P rid p.records
  only_here rid i p x e s = omega (
    arith,
    inv.once rid,
    count_live-le J P rid t.pages i p e,
    count_live_pos J P rid p.records x s,
  )

  owner_here :
      (rid i : ℕ) (p : Page J P) (x : Record J)
      → get_elem? t.pages i ≡ some p
      → find_value J P rid p.records ≡ some x
      → owner J P rid t.pages ≡ some p.id
  owner_here rid i p x e s =
      let (_, o) = value-set_here J P p rid t.pages i p e (only_here rid i p x e s) in
      ground (arith, set_self t.pages i p e)

  -- A page is replaced by one with the same id and the same live ids.
  replaced_self :
      (r x : Record J) (i : ℕ) (p q : Page J P)
      → get_elem? t.pages i ≡ some p
      → find_value J P r.id p.records ≡ some x
      → Updated J P p r x q
      → (value J P r.id (set t.pages i q) ≡ some (record x { fields = r.fields }))
        × (owner J P r.id (set t.pages i q) ≡ owner J P r.id t.pages)
  replaced_self r x i p q e s u =
      let (v', o) = value-set_here J P q r.id t.pages i p e (only_here r.id i p x e s) in
      let seen_q : find_value J P r.id q.records ≡ some (record x { fields = r.fields }) =
        ground (arith, u.seen r.id) in
      let same : q.id ≡ p.id = u.same_id in (v' ∙ seen_q, ground (arith, owner_here r.id i p x e s))

  replaced_readings :
      (r x : Record J) (i : ℕ) (p q : Page J P)
      → get_elem? t.pages i ≡ some p
      → find_value J P r.id p.records ≡ some x
      → value J P r.id t.pages ≡ some x
      → Updated J P p r x q
      → (j : ℕ)
      → (value J P j (set t.pages i q) ≡ updated J P M (view J P M t) r ok j)
        × (owner J P j (set t.pages i q) ≡ owner J P j t.pages)
  replaced_readings r x i p q e s v u j = elim (Bool-cases (r.id == j)) [
    | inl here ↦
        let same : r.id ≡ j = ground arith in
        subst
          (λ k.
            (value J P k (set t.pages i q) ≡ updated J P M (view J P M t) r ok k)
            × (owner J P k (set t.pages i q) ≡ owner J P k t.pages))
          same (let (v', o) = replaced_self r x i p q e s u in (ground arith, o))
    | inr other ↦
        let (v', o) = value-set_other J P q j t.pages i p e u.same_id (ground (arith, u.seen j)) in
        (ground arith, o)
  ]

  written-IsConsistent :
      (q : Page J P) (i : ℕ) (p : Page J P)
      → get_elem? t.pages i ≡ some p
      → q.id ≡ p.id
      → IsWellFormed J P q
      → ((j : ℕ) → owner J P j (set t.pages i q) ≡ owner J P j t.pages)
      → ((j : ℕ) → count_live J P j q.records ≡ count_live J P j p.records)
      → IsConsistent J P M (record t { pages = set t.pages i q; dirty = true })
  written-IsConsistent q i p e same w owners counts = record {
    ids = λ pid. inv.ids pid ∙ sym (position_of-set J P q pid t.pages i p e same);
    owners = λ rid. inv.owners rid ∙ sym (owners rid);
    distinct = Distinct-set J P q t.pages i p e same inv.distinct;
    below =
        All-set _ t.pages i q
          (rw same
            (All-get_elem? (λ (p : Page J P). p.id < t.next_page_id) t.pages i p e inv.below))
          inv.below;
    once = λ rid. omega (arith, count-set J P q rid t.pages i p e, counts rid, inv.once rid);
    well_formed = All-set _ t.pages i q w inv.well_formed;
  }

  update_absent :
      (r : Record J)
      → Record.validate J r t.schema ≡ some ok
      → value J P r.id t.pages ≡ none
      → update_record J P M t r ≡ some (t, not_found)
  unfolding update_record Record.get_id
  update_absent r v absent = ground (arith, v, contains-index J P M t inv r.id)

  module _ (r x : Record J) (present : value J P r.id t.pages ≡ some x) where
    -- The page that updateRecord writes to, and the write.
    update_target :
        (i : ℕ) × (p : Page J P) × (get_elem? t.pages i ≡ some p)
        × (find_value J P r.id p.records ≡ some x)
        × (Record.validate J r t.schema ≡ some ok
            → update_record J P M t r
              ≡ some (
                record t { pages = set t.pages i (Page.update_record J P p r).0; dirty = true },
                ok,
              ))
    unfolding update_record Record.get_id
    update_target =
        let (pid, at_eq, l) = located J P M t inv r.id x present in
        let lv : value J P r.id t.pages ≡ some l.found = l.value_eq in
        let seen_x : find_value J P r.id l.page.records ≡ some x = cc (l.seen_eq) in
        let (done, _) = update_record-Updated J P l.page r x seen_x in
        (
          l.position,
          l.page,
          l.page_eq,
          seen_x,
          λ v. ground (
            arith,
            v,
            contains-index J P M t inv r.id,
            find_page_by_id_lem J P M t inv pid,
            at_eq,
            l.position_eq,
            l.page_eq,
            done,
          ),
        )

    update_present :
        Record.validate J r t.schema ≡ some ok
        → Refines J P M t (update_record J P M t r) ok (updated J P M (view J P M t) r ok)
    update_present v =
        let (i, p, e, s, result) = update_target in
        let (_, u) = update_record-Updated J P p r x s in
        let readings = replaced_readings r x i p (Page.update_record J P p r).0 e s present u in
        record {
          after = record t { pages = set t.pages i (Page.update_record J P p r).0; dirty = true };
          result = result v;
          consistent =
              written-IsConsistent (Page.update_record J P p r).0 i p e u.same_id
                (update_record-IsWellFormed J P p r
                  (All-get_elem? (IsWellFormed J P) t.pages i p e inv.well_formed))
                (λ j. (readings j).1) u.counted;
          view_eq = λ j. (readings j).0;
          schema_eq = refl;
        }

  update_valid :
      (r : Record J)
      → Record.validate J r t.schema ≡ some ok
      → (let s = update_status J P M ok (view J P M t r.id) in
          Refines J P M t (update_record J P M t r) s (updated J P M (view J P M t) r s))
  update_valid r v = elim (Option-cases (value J P r.id t.pages)) [
    | inl absent ↦ rw absent (unchanged J P M t inv (update_absent r v absent) (λ j. refl))
    | inr (x, present) ↦ rw present (update_present r x present v)
  ]

  update_checked :
      (r : Record J) (c : Status)
      → Record.validate J r t.schema ≡ some c
      → (let s = update_status J P M c (view J P M t r.id) in
          Refines J P M t (update_record J P M t r) s (updated J P M (view J P M t) r s))
  unfolding update_record
  update_checked r ok v = update_valid r v
  update_checked r c v = unchanged J P M t inv (ground (arith, v)) (λ j. refl)

  -- updateRecord on a consistent table, for every record: validate answers some status, and updateRecord
  -- answers it if it is not ok, else NOT_FOUND if no live record has the id, else ok. On ok the stored
  -- record of that id has the new fields; nothing else of the map changes, and the table stays consistent.
  pub update_record-Refines :
      (r : Record J)
      → (c : Status) × (Record.validate J r t.schema ≡ some c)
        × (let s = update_status J P M c (view J P M t r.id) in
            Refines J P M t (update_record J P M t r) s (updated J P M (view J P M t) r s))
  update_record-Refines r = elim (Option-cases (Record.validate J r t.schema)) [
    | inl e ↦ absurd (validate-ne-none J r t.schema e)
    | inr (c, v) ↦ (c, v, update_checked r c v)
  ]
