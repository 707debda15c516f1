-- ===== src/Page/Lifetime.antt =====
-- Core/Page.cpp, section 1: the destructor and the move operations of a page. `left` holds what moving a
-- vector and a pool leaves in them.
use mini_database.Prelude.{◌≡◌, refl, ap, false, List, [], ◌∷◌}
use mini_database.Common.{invalid_page_id}
use mini_database.Packages.Json.{JsonLib}
use mini_database.Packages.Pool.{PoolLib}
use mini_database.Page.{Page, Cell}
use mini_database.Page.Invariant.{IsWellFormed, slots}

module _ (J : JsonLib) (P : PoolLib) where
  open P use {Pool, Holds, destroy, destroy-Holds}

  -- The loop of ~Page.
  unfoldable pub destroy_records : List (Cell J P) → Pool → Pool
  destroy_records [] pool = pool
  destroy_records (c ∷ cs) pool = destroy_records cs (destroy pool c.slot)

  -- ~Page: the pool, before it is destroyed itself
  unfoldable pub destruct : Page J P → Pool
  unfolding destroy_records
  destruct p = destroy_records p.records p.pool

  -- What a move leaves of the page that it takes from.
  unfoldable pub moved_from : Page J P → Page J P
  moved_from left = record left { id = invalid_page_id; dirty = false }

  -- Page(Page&&): the new page, and the other afterwards
  unfoldable pub move_construct : Page J P → Page J P → Page J P × Page J P
  unfolding moved_from
  move_construct left other = (other, moved_from left)

  -- operator=(Page&&) from another object: this page, the other, and the pool that this page had
  unfoldable pub move_assign : Page J P → Page J P → Page J P → Page J P × Page J P × Pool
  unfolding moved_from destroy_records
  move_assign left p other = (other, moved_from left, destroy_records p.records p.pool)

  destroy_records-Holds :
      (cs : List (Cell J P)) (pool : Pool)
      → Holds pool (slots J P cs)
      → Holds (destroy_records cs pool) []
  unfolding destroy_records
  destroy_records-Holds [] pool h = h
  destroy_records-Holds (c ∷ cs) pool h =
      destroy_records-Holds cs (destroy pool c.slot) (destroy-Holds pool [] c.slot (slots J P cs) h)

  pub destruct-Holds : (p : Page J P) → IsWellFormed J P p → Holds (destruct p) []
  unfolding destruct
  destruct-Holds p w = destroy_records-Holds p.records p.pool w.held

  -- After a move assignment between well-formed pages this page is the other one as it was, the pool that
  -- this page had holds no object any more, and the other page's destruction destroys nothing, if
  -- moving a vector leaves it empty.
  pub move_assign-Moved :
      (left p other : Page J P)
      → IsWellFormed J P p
      → IsWellFormed J P other
      → left.records ≡ []
      → ((move_assign left p other).0 ≡ other)
        × IsWellFormed J P (move_assign left p other).0
        × Holds (move_assign left p other).2 []
        × (destruct (move_assign left p other).1 ≡ left.pool)
  unfolding move_assign moved_from destruct
  move_assign-Moved left p other w w' empty = (
    refl,
    w',
    destroy_records-Holds p.records p.pool w.held,
    ap (λ cs. destroy_records cs left.pool) empty,
  )
