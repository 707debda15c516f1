-- ===== src/Table/Rebuilding.antt =====
-- Core/Table.cpp, section 5: rebuildIndex.
use mathlib.Core.Option
use mini_database.Prelude.{
  ℕ, suc, ◌+◌, ◌≤◌, ◌<◌, ◌≡◌, refl, true, false, Bool-cases, Option-cases, inl, inr, Option, none,
  some, List, [], ◌∷◌, arith, ◌==◌, if◌then◌else◌, All,
}
use mini_database.Common.{ok}
use mini_database.Packages.Json.{JsonLib}
use mini_database.Packages.Pool.{PoolLib}
use mini_database.Record
use mini_database.Record.{Record}
use mini_database.Page
use mini_database.Page.{Page, Cell, is_live}
use mini_database.Page.Lookup.{find_value, count_live, count_live_pos}
use mini_database.Page.Invariant.{IsWellFormed}
use mini_database.Table.{Table, IdMap, index_records, index_pages, rebuild_index}
use mini_database.Table.Finding.{position_of, owner, count, Distinct}
use mini_database.Table.Invariant.{IsConsistent}

module _ (J : JsonLib) (P : PoolLib) (M : IdMap) where
  open M use {HashMap, empty, at, insert, at-insert, at-empty}

  abbrev one : Option ℕ → ℕ
  one none = 0
  one (some _) = 1

  abbrev or_else : Option ℕ → Option ℕ → Option ℕ
  or_else none b = b
  or_else (some a) b = some a

  abbrev held_by : ℕ → Option (Record J) → Option ℕ
  held_by pid none = none
  held_by pid (some _) = some pid

  module _ (c : Cell J P) where
    not_live : Record.is_deleted J c.value ≡ true → (j : ℕ) → is_live J P j c ≡ false
    unfolding is_live
    not_live gone j = ground arith

    live_iff :
        Record.is_deleted J c.value ≡ false
        → (j : ℕ) → is_live J P j c ≡ (Record.get_id J c.value == j)
    unfolding is_live
    live_iff kept j = ground arith

    module _ (cs : List (Cell J P)) where
      skipped :
          Record.is_deleted J c.value ≡ true
          → (j : ℕ) → count_live J P j (c ∷ cs) ≡ count_live J P j cs
      unfolding count_live
      skipped gone j = ground (arith, not_live gone j)

      counted :
          Record.is_deleted J c.value ≡ false
          → (j : ℕ)
          → count_live J P j (c ∷ cs) ≡ (
              if Record.get_id J c.value == j
              then suc (count_live J P j cs)
              else count_live J P j cs)
      unfolding count_live
      counted kept j = ground (arith, live_iff kept j)

      unindexed :
          (index : HashMap)
          → Record.is_deleted J c.value ≡ false
          → one (at index (Record.get_id J c.value))
              + count_live J P (Record.get_id J c.value) (c ∷ cs)
            ≤ 1
          → at index (Record.get_id J c.value) ≡ none
      unindexed index kept few = ground (arith, counted kept (Record.get_id J c.value))

  -- The inner loop, over ids that the index does not have yet.
  index_records_lem :
      (pid : ℕ) (cs : List (Cell J P)) (index : HashMap)
      → ((j : ℕ) → one (at index j) + count_live J P j cs ≤ 1)
      → (j : ℕ)
      → at (index_records J P M pid cs index) j
        ≡ or_else (at index j) (held_by pid (find_value J P j cs))
  unfolding index_records find_value
  index_records_lem pid [] index few j = ground arith
  index_records_lem pid (c ∷ cs) index few j = elim (Bool-cases (Record.is_deleted J c.value)) [
    | inl gone ↦
        let few' : (k : ℕ) → one (at index k) + count_live J P k cs ≤ 1 =
          λ k. omega (arith, few k, skipped c cs gone k) in
        ground (arith, index_records_lem pid cs index few' j, not_live c gone j)
    | inr kept ↦
        let k = Record.get_id J c.value in
        let new : at index k ≡ none = unindexed c cs index kept (few k) in
        let few' : (l : ℕ) → one (at (insert index k pid) l) + count_live J P l cs ≤ 1 =
          λ l. ground (arith, at-insert index k pid l new, few l, counted c cs kept l) in
        ground (
          arith,
          index_records_lem pid cs (insert index k pid) few' j,
          at-insert index k pid j new,
          live_iff c kept j,
          new,
        )
  ]

  seen_counted :
      (pid j : ℕ) (cs : List (Cell J P))
      → one (held_by pid (find_value J P j cs)) ≤ count_live J P j cs
  seen_counted pid j cs = elim (Option-cases (find_value J P j cs)) [
    | inl e ↦ ground arith
    | inr (r, e) ↦ ground (arith, count_live_pos J P j cs r e)
  ]

  count-cons :
      (p : Page J P) (ps : List (Page J P)) (j : ℕ)
      → count J P j (p ∷ ps) ≡ count_live J P j p.records + count J P j ps
  unfolding count
  count-cons p ps j = refl

  -- The outer loop, for both indexes.
  index_pages_lem :
      (i : ℕ) (ps : List (Page J P)) (index page_index : HashMap)
      → ((j : ℕ) → one (at index j) + count J P j ps ≤ 1)
      → ((j : ℕ) → one (at page_index j) ≡ 1 → position_of J P j ps ≡ none)
      → Distinct J P ps
      → (j : ℕ)
      → (at (index_pages J P M i ps index page_index).0 j ≡ or_else (at index j) (owner J P j ps))
        × (at (index_pages J P M i ps index page_index).1 j
            ≡ or_else (at page_index j) (Option.map (λ k. i + k) (position_of J P j ps)))
  unfolding index_pages owner position_of Page.get_id
  index_pages_lem i [] index page_index few fresh d j = (ground arith, ground arith)
  index_pages_lem i (p ∷ ps) index page_index few fresh (alone, d) j =
      let few_here : (k : ℕ) → one (at index k) + count_live J P k p.records ≤ 1 =
        λ k. omega (arith, few k, count-cons p ps k) in
      let index' = index_records J P M (Page.get_id J P p) p.records index in
      let index'_eq = index_records_lem (Page.get_id J P p) p.records index few_here in
      let new : at page_index p.id ≡ none = ground (arith, fresh p.id) in
      let page_index' = insert page_index (Page.get_id J P p) i in
      let few' : (k : ℕ) → one (at index' k) + count J P k ps ≤ 1 =
        λ k. ground (arith, index'_eq k, few k, count-cons p ps k, seen_counted p.id k p.records) in
      let fresh' : (k : ℕ) → one (at page_index' k) ≡ 1 → position_of J P k ps ≡ none =
        λ k h. ground (arith, at-insert page_index p.id i k new, fresh k) in
      let (a, b) = index_pages_lem (i + 1) ps index' page_index' few' fresh' d j in
      (ground (arith, index'_eq j), ground (arith, at-insert page_index p.id i j new))

  -- rebuildIndex answers ok, leaves the pages as they are and makes the table consistent, whatever the
  -- two indexes held, if the pages have distinct ids below the counter, are well-formed and no id has
  -- two live records.
  pub rebuild_index-IsConsistent :
      (t : Table J P M)
      → Distinct J P t.pages
      → All (λ p. p.id < t.next_page_id) t.pages
      → ((rid : ℕ) → count J P rid t.pages ≤ 1)
      → All (IsWellFormed J P) t.pages
      → IsConsistent J P M (rebuild_index J P M t).0
        × ((rebuild_index J P M t).1 ≡ ok)
        × ((rebuild_index J P M t).0.pages ≡ t.pages)
  unfolding rebuild_index
  rebuild_index-IsConsistent t distinct below once well_formed = (
    record {
      ids = λ pid. ground (arith, (indexed pid).1, at-empty pid);
      owners = λ rid. ground (arith, (indexed rid).0, at-empty rid);
      distinct = distinct;
      below = below;
      once = once;
      well_formed = well_formed;
    },
    refl,
    refl,
  )
    where
      indexed :
          (j : ℕ)
          → (at (index_pages J P M 0 t.pages empty empty).0 j
              ≡ or_else (at empty j) (owner J P j t.pages))
            × (at (index_pages J P M 0 t.pages empty empty).1 j
                ≡ or_else (at empty j) (Option.map (λ k. 0 + k) (position_of J P j t.pages)))
      indexed =
          index_pages_lem 0 t.pages empty empty (λ j. ground (arith, at-empty j, once j))
            (λ j h. ground (arith, at-empty j)) distinct
