-- ===== src/Table/Deletes.antt =====
-- Core/Table.cpp: deleteRecord against the table's contract.
use mini_database.Prelude.{
  ℕ, suc, ◌<◌, ◌≡◌, refl, sym, ◌∙◌, true, Bool-cases, Option-cases, inl, inr, none, some, arith,
  ◌==◌, if◌then◌else◌, get_elem?, set, All-get_elem?, All-set,
}
use mini_database.Common.{ok, not_found}
use mini_database.Packages.Json.{JsonLib}
use mini_database.Packages.Pool.{PoolLib}
use mini_database.Record.{Record}
use mini_database.Page
use mini_database.Page.{Page}
use mini_database.Page.Lookup.{find_value}
use mini_database.Page.Invariant.{IsWellFormed, delete_record-IsWellFormed}
use mini_database.Page.Effects.{Deleted, delete_record-Deleted}
use mini_database.Table.{Table, IdMap, delete_record}
use mini_database.Table.Finding.{owner, value, count, count_value, count-owner}
use mini_database.Table.Writing.{position_of-set, Distinct-set, count-set, value-set_other}
use mini_database.Table.Invariant.{IsConsistent, find_page_by_id_lem, contains-index, located}
use mini_database.Table.Contract.{Refines, view, deleted, delete_status, unchanged}

module _ (J : JsonLib) (P : PoolLib) (M : IdMap) (t : Table J P M)
    (inv : IsConsistent J P M t) where
  open M use {at, erase, at-erase}

  module _ (id : ℕ) (x : Record J) (i : ℕ) (p q : Page J P) (e : get_elem? t.pages i ≡ some p)
      (s : find_value J P id p.records ≡ some x) (d : Deleted J P p id q) where
    count_after :
        (j : ℕ)
        → count J P j t.pages
          ≡ (if id == j then suc (count J P j (set t.pages i q)) else count J P j (set t.pages i q))
    count_after j = ground (arith, count-set J P q j t.pages i p e, d.counted j)

    readings_after :
        (j : ℕ)
        → (value J P j (set t.pages i q) ≡ deleted J P M (view J P M t) id ok j)
          × (owner J P j (set t.pages i q) ≡ (if id == j then none else owner J P j t.pages))
    readings_after j = elim (Bool-cases (id == j)) [
      | inl here ↦
          let gone : count J P j (set t.pages i q) ≡ 0 =
            ground (arith, count_after j, inv.once j) in
          let v = count_value J P j (set t.pages i q) gone in
          let o = count-owner J P j (set t.pages i q) gone in (ground arith, ground arith)
      | inr other ↦
          let (v, o) = value-set_other J P q j t.pages i p e d.same_id (d.others j other) in
          (ground arith, ground arith)
    ]

    deleted-IsConsistent :
        IsWellFormed J P q
        → IsConsistent J P M
            (record t { pages = set t.pages i q; index = erase t.index id; dirty = true })
    deleted-IsConsistent w = record {
      ids = λ pid. inv.ids pid ∙ sym (position_of-set J P q pid t.pages i p e d.same_id);
      owners = λ j. ground (arith, at-erase t.index id j, inv.owners j, (readings_after j).1);
      distinct = Distinct-set J P q t.pages i p e d.same_id inv.distinct;
      below =
          All-set _ t.pages i q
            (rw d.same_id
              (All-get_elem? (λ (p : Page J P). p.id < t.next_page_id) t.pages i p e inv.below))
            inv.below;
      once = λ j. ground (arith, count_after j, inv.once j);
      well_formed = All-set _ t.pages i q w inv.well_formed;
    }

  module _ (id : ℕ) where
    delete_absent : value J P id t.pages ≡ none → delete_record J P M t id ≡ some (t, not_found)
    unfolding delete_record
    delete_absent absent = ground (arith, contains-index J P M t inv id)

    delete_present :
        (x : Record J)
        → value J P id t.pages ≡ some x
        → Refines J P M t (delete_record J P M t id) ok (deleted J P M (view J P M t) id ok)
    unfolding delete_record
    delete_present x present =
        let (pid, at_eq, l) = located J P M t inv id x present in
        let (done, d) = delete_record-Deleted J P l.page id l.found l.seen_eq in
        let q = (Page.delete_record J P l.page id).0 in
        record {
          after = record t {
            pages = set t.pages l.position q;
            index = erase t.index id;
            dirty = true;
          };
          result = ground (
            arith,
            contains-index J P M t inv id,
            find_page_by_id_lem J P M t inv pid,
            at_eq,
            l.position_eq,
            l.page_eq,
            done,
          );
          consistent = deleted-IsConsistent id l.found l.position l.page q l.page_eq l.seen_eq d (
              delete_record-IsWellFormed J P l.page id (
                All-get_elem? (IsWellFormed J P) t.pages l.position l.page l.page_eq
                  inv.well_formed));
          view_eq = λ j. (readings_after id l.found l.position l.page q l.page_eq l.seen_eq d j).0;
          schema_eq = refl;
        }

    -- deleteRecord on a consistent table answers ok if a live record has the id, and NOT_FOUND if not. On
    -- ok that id is gone from the map; nothing else of the map changes, and the table stays consistent.
    pub delete_record-Refines :
        (let s = delete_status J P M (view J P M t id) in
          Refines J P M t (delete_record J P M t id) s (deleted J P M (view J P M t) id s))
    delete_record-Refines = elim (Option-cases (value J P id t.pages)) [
      | inl absent ↦ rw absent (unchanged J P M t inv (delete_absent absent) (λ j. refl))
      | inr (x, present) ↦ rw present (delete_present x present)
    ]
