-- ===== src/Table/Invariant.antt =====
-- Core/Table.cpp: the two indexes say what the pages say.
use mini_database.Prelude.{
  ℕ, ◌≤◌, ◌<◌, ◌≡◌, ap, ◌∙◌, Option-cases, inl, inr, some, is_some, List, arith, All, String,
}
use mini_database.Common.{ColumnDef}
use mini_database.Packages.Json.{JsonLib}
use mini_database.Packages.Pool.{PoolLib}
use mini_database.Record.{Record}
use mini_database.Page.Invariant.{IsWellFormed}
use mini_database.Table.{Table, IdMap, make, find_page_by_id}
use mini_database.Table.Finding.{
  position_of, owner, value, count, Distinct, locate, Located, owner_value,
}

module _ (J : JsonLib) (P : PoolLib) (M : IdMap) where
  open M use {contains, at, contains-at, at-empty}

  pub record IsConsistent (t : Table J P M) : Type 0 where
    -- page_index points each page's id at the page, and has no other key
    pub ids : (pid : ℕ) → at t.page_index pid ≡ position_of J P pid t.pages
    -- index takes each live record's id to its page's id, and has no other key
    pub owners : (rid : ℕ) → at t.index rid ≡ owner J P rid t.pages
    pub distinct : Distinct J P t.pages
    -- the counter is above every page's id
    pub below : All (λ p. p.id < t.next_page_id) t.pages
    -- no id has two live records
    pub once : (rid : ℕ) → count J P rid t.pages ≤ 1
    pub well_formed : All (IsWellFormed J P) t.pages

  pub make-IsConsistent :
      (name : String) (id : ℕ) (schema : List ColumnDef) → IsConsistent (make J P M name id schema)
  unfolding make position_of owner count
  make-IsConsistent name id schema = record {
    ids = at-empty;
    owners = at-empty;
    distinct = tt;
    below = tt;
    once = λ rid. omega arith;
    well_formed = tt;
  }

  module _ (t : Table J P M) (inv : IsConsistent t) where
    pub find_page_by_id_lem :
        (pid : ℕ) → find_page_by_id J P M t pid ≡ some (position_of J P pid t.pages)
    unfolding find_page_by_id
    find_page_by_id_lem pid = ground (arith, contains-at t.page_index pid, inv.ids pid)

    pub contains-index : (rid : ℕ) → contains t.index rid ≡ is_some (value J P rid t.pages)
    contains-index rid =
        contains-at t.index rid ∙ ap is_some (inv.owners rid) ∙ owner_value J P rid t.pages

    -- What the indexes lead to for an id that a live record has.
    pub located :
        (rid : ℕ) (r : Record J)
        → value J P rid t.pages ≡ some r
        → (pid : ℕ) × (at t.index rid ≡ some pid) × Located J P rid pid t.pages
    located rid r h = elim (Option-cases (owner J P rid t.pages)) [
      | inl e ↦ absurd (ground (arith, owner_value J P rid t.pages))
      | inr (pid, e) ↦ (pid, inv.owners rid ∙ e, locate J P rid pid t.pages inv.distinct e)
    ]
