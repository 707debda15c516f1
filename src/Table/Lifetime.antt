-- ===== src/Table/Lifetime.antt =====
-- Core/Table.cpp, section 1: the destructor and the move operations of a table. `left` holds what moving
-- a string, a vector and a hash map leaves in them.
use mini_database.Prelude.{◌≡◌, ap, false, List, [], ◌∷◌, All}
use mini_database.Common.{invalid_table_id}
use mini_database.Packages.Json.{JsonLib}
use mini_database.Packages.Pool.{PoolLib}
use mini_database.Page.{Page}
use mini_database.Page.Invariant.{IsWellFormed}
use mini_database.Page.Lifetime as PageLifetime
use mini_database.Table.{Table, IdMap}
use mini_database.Table.Invariant.{IsConsistent}

module _ (J : JsonLib) (P : PoolLib) where
  open P use {Pool, Holds}

  -- The loop of ~Table: the pools of the pages, each as its page's destructor leaves it.
  unfoldable pub delete_pages : List (Page J P) → List Pool
  delete_pages [] = []
  delete_pages (p ∷ ps) = PageLifetime.destruct J P p ∷ delete_pages ps

  delete_pages-Holds :
      (ps : List (Page J P))
      → All (IsWellFormed J P) ps
      → All (λ pool. Holds pool []) (delete_pages ps)
  unfolding delete_pages
  delete_pages-Holds [] h = tt
  delete_pages-Holds (p ∷ ps) (h, hs) =
      (PageLifetime.destruct-Holds J P p h, delete_pages-Holds ps hs)

  module _ (M : IdMap) where
    -- ~Table
    unfoldable pub destruct : Table J P M → List Pool
    unfolding delete_pages
    destruct t = delete_pages t.pages

    -- What a move leaves of the table that it takes from.
    unfoldable pub moved_from : Table J P M → Table J P M
    moved_from left = record left { id = invalid_table_id; next_page_id = 0; dirty = false }

    -- Table(Table&&): the new table, and the other afterwards
    unfoldable pub move_construct : Table J P M → Table J P M → Table J P M × Table J P M
    unfolding moved_from
    move_construct left other = (other, moved_from left)

    -- operator=(Table&&) from another object: this table, the other, and the pools of the pages that this
    -- table had
    unfoldable pub move_assign :
        Table J P M → Table J P M → Table J P M → Table J P M × Table J P M × List Pool
    unfolding moved_from delete_pages
    move_assign left t other = (other, moved_from left, delete_pages t.pages)

    -- After a move assignment this table is the other one, no pool of a page that this table had holds
    -- an object any more, and the other table's destruction deletes no page, if moving a vector leaves
    -- it empty.
    pub move_assign-Moved :
        (left t other : Table J P M)
        → IsConsistent J P M t
        → IsConsistent J P M other
        → left.pages ≡ []
        → IsConsistent J P M (move_assign left t other).0
          × All (λ pool. Holds pool []) (move_assign left t other).2
          × (destruct (move_assign left t other).1 ≡ [])
    unfolding move_assign moved_from destruct
    move_assign-Moved left t other inv inv' empty =
        (inv', delete_pages-Holds t.pages inv.well_formed, ap delete_pages empty)
