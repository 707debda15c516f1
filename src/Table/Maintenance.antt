-- ===== src/Table/Maintenance.antt =====
-- Core/Table.cpp, section 4: compact.
use mini_database.Prelude.{ℕ, ◌<◌, ◌≡◌, refl, sym, ◌∙◌, false, List, [], ◌∷◌, map, arith, All}
use mini_database.Common.{ok}
use mini_database.Packages.Json.{JsonLib}
use mini_database.Packages.Pool.{PoolLib}
use mini_database.Page
use mini_database.Page.{Page, Cell, is_live}
use mini_database.Page.Lookup.{find_value-compact}
use mini_database.Page.Invariant.{IsWellFormed, compact-IsWellFormed}
use mini_database.Table.{Table, IdMap, compact_pages, compact}
use mini_database.Table.Finding.{position_of, owner, value, count, Distinct}
use mini_database.Table.Invariant.{IsConsistent}
use mini_database.Table.Contract.{view}

module _ (J : JsonLib) (P : PoolLib) where
  abbrev compacted : Page J P → Page J P
  compacted p = (Page.compact J P p).0

  compacted-id : (p : Page J P) → (compacted p).id ≡ p.id
  unfolding Page.compact
  compacted-id p = refl

  readings-compacted :
      (j : ℕ) (ps : List (Page J P))
      → (position_of J P j (map compacted ps) ≡ position_of J P j ps)
        × (value J P j (map compacted ps) ≡ value J P j ps)
        × (owner J P j (map compacted ps) ≡ owner J P j ps)
        × (count J P j (map compacted ps) ≡ count J P j ps)
  unfolding position_of value owner count
  readings-compacted j [] = (refl, refl, refl, refl)
  readings-compacted j (p ∷ ps) =
      let (a, v, o, c) = readings-compacted j ps in
      let (same, counts) = (find_value-compact J P p).0 j in
      let id_eq = compacted-id p in (ground arith, ground arith, ground arith, omega arith)

  Distinct-compacted : (ps : List (Page J P)) → Distinct J P ps → Distinct J P (map compacted ps)
  Distinct-compacted [] d = tt
  Distinct-compacted (p ∷ ps) (fresh, d) =
      (rw (compacted-id p) ((readings-compacted p.id ps).0 ∙ fresh), Distinct-compacted ps d)

  below-compacted :
      (n : ℕ) (ps : List (Page J P))
      → All (λ p. p.id < n) ps
      → All (λ p. p.id < n) (map compacted ps)
  below-compacted n [] h = tt
  below-compacted n (p ∷ ps) (h, hs) = (rw (compacted-id p) h, below-compacted n ps hs)

  IsWellFormed-compacted :
      (ps : List (Page J P)) → All (IsWellFormed J P) ps → All (IsWellFormed J P) (map compacted ps)
  IsWellFormed-compacted [] h = tt
  IsWellFormed-compacted (p ∷ ps) (h, hs) =
      (compact-IsWellFormed J P p h, IsWellFormed-compacted ps hs)

module _ (J : JsonLib) (P : PoolLib) (M : IdMap) where
  open M use {HashMap, empty, at, insert, at-insert, at-empty}

  compact_pages_lem : (ps : List (Page J P)) → compact_pages J P M ps ≡ (map (compacted J P) ps, ok)
  unfolding compact_pages Page.compact
  compact_pages_lem [] = refl
  compact_pages_lem (p ∷ ps) = ground (arith, compact_pages_lem ps)

  compact_eq :
      (t : Table J P M)
      → compact J P M t ≡ (record t { pages = map (compacted J P) t.pages; dirty = false }, ok)
  unfolding compact
  compact_eq t = ground (arith, compact_pages_lem t.pages)

  -- compact on a consistent table answers ok, keeps the table consistent and leaves the map as it was.
  pub compact-IsConsistent :
      (t : Table J P M)
      → IsConsistent J P M t
      → IsConsistent J P M (compact J P M t).0
        × ((compact J P M t).1 ≡ ok)
        × ((id : ℕ) → view J P M (compact J P M t).0 id ≡ view J P M t id)
  compact-IsConsistent t inv = rw (compact_eq t) (
    record {
      ids = λ pid. inv.ids pid ∙ sym (readings-compacted J P pid t.pages).0;
      owners = λ rid. inv.owners rid ∙ sym (readings-compacted J P rid t.pages).2;
      distinct = Distinct-compacted J P t.pages inv.distinct;
      below = below-compacted J P t.next_page_id t.pages inv.below;
      once = λ rid. omega (arith, (readings-compacted J P rid t.pages).3, inv.once rid);
      well_formed = IsWellFormed-compacted J P t.pages inv.well_formed;
    },
    refl,
    λ id. (readings-compacted J P id t.pages).1,
  )
