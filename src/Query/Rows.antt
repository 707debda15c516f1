-- ===== src/Query/Rows.antt =====
-- Engine/QueryEngine.cpp: the two loops of a scan against one pass over the live records.
use mini_database.Prelude.{
  ℕ, ◌+◌, ◌≡◌, refl, ap, sym, ◌∙◌, true, false, Option, some, List, [], ◌∷◌, ◌++◌, append_assoc,
  arith, if◌then◌else◌, Bool-cases, inl, inr, length, length-append, get_elem?-append_len,
}
use mini_database.Packages.Json.{JsonLib}
use mini_database.Packages.Pool.{PoolLib}
use mini_database.Record
use mini_database.Record.{Record}
use mini_database.Page
use mini_database.Page.{Page, Cell}
use mini_database.Query.{Loop, more, stop, threw, visit, each_record, each_page}

module _ (J : JsonLib) (P : PoolLib) where
  -- The records that a scan sees, in order: those of the cells, and of the pages, that are not deleted.
  unfoldable pub live_cells : List (Cell J P) → List (Record J)
  live_cells [] = []
  live_cells (c ∷ cs) = if c.value.deleted then live_cells cs else c.value ∷ live_cells cs

  unfoldable pub live_records : List (Page J P) → List (Record J)
  live_records [] = []
  live_records (p ∷ ps) = live_cells p.records ++ live_records ps

  module _ {A : Type 0} (body : Record J → A → Loop A) where
    -- One pass over a list of records.
    unfoldable pub each_of : List (Record J) → A → Loop A
    each_of [] a = more a
    each_of (r ∷ rs) a = elim (body r a) [
      | more a' ↦ each_of rs a'
      | stop a' ↦ stop a'
      | threw ↦ threw
    ]

    -- How one pass over a list and then another part of the list end.
    unfoldable pub and_then : Loop A → (A → Loop A) → Loop A
    and_then (more a) k = k a
    and_then (stop a) k = stop a
    and_then threw k = threw

    each_of-append :
        (rs ss : List (Record J)) (a : A)
        → each_of (rs ++ ss) a ≡ and_then (each_of rs a) (each_of ss)
    unfolding each_of and_then
    each_of-append [] ss a = refl
    each_of-append (r ∷ rs) ss a =
        elim (body r a)
          as (λ l.
            (elim l [ more a' ↦ each_of (rs ++ ss) a' | stop a' ↦ stop a' | threw ↦ threw ])
            ≡ and_then (elim l [ more a' ↦ each_of rs a' | stop a' ↦ stop a' | threw ↦ threw ])
                (each_of ss)) [ more a' ↦ each_of-append rs ss a' | stop a' ↦ refl | threw ↦ refl ]

    module _ (r : Record J) (a : A) (o : Option (Record J)) (read : o ≡ some r) where
      visit-dead : r.deleted ≡ true → visit J P body o a ≡ more a
      unfolding visit Record.is_deleted
      visit-dead dead = ground (arith, read, dead)

      visit-alive : r.deleted ≡ false → visit J P body o a ≡ body r a
      unfolding visit Record.is_deleted
      visit-alive alive = ground (arith, read, alive)

    -- A round that visits a record, and the rounds after it.
    step :
        (r : Record J) (cs : List (Cell J P)) (i : ℕ) (page : Page J P) (a : A) (l : Loop A)
        → l ≡ body r a
        → ((b : A) → each_record J P body (length cs) i page b ≡ each_of (live_cells cs) b)
        → (elim l [
          | more a' ↦ each_record J P body (length cs) i page a'
          | stop a' ↦ stop a'
          | threw ↦ threw
        ])
          ≡ each_of (r ∷ live_cells cs) a
    unfolding each_of
    step r cs i page a l e rest =
        rw e
          (elim (body r a)
            as (λ l'.
              (elim l' [
                | more a' ↦ each_record J P body (length cs) i page a'
                | stop a' ↦ stop a'
                | threw ↦ threw
              ])
              ≡ (elim l' [
                | more a' ↦ each_of (live_cells cs) a'
                | stop a' ↦ stop a'
                | threw ↦ threw
              ])) [ more a' ↦ rest a' | stop a' ↦ refl | threw ↦ refl ])

    -- The inner loop from a cell on.
    each_record-cells :
        (cs front : List (Cell J P)) (page : Page J P) (i : ℕ) (a : A)
        → page.records ≡ front ++ cs
        → i ≡ length front
        → each_record J P body (length cs) i page a ≡ each_of (live_cells cs) a
    unfolding each_record each_of live_cells
    each_record-cells [] front page i a here at = refl
    each_record-cells (c ∷ cs) front page i a here at =
        let read : Page.get_record_at J P page i ≡ some c.value =
          unfold Page.get_record_at in
          ground
            (arith, here, at, get_elem?-append_len front c i cs, length-append front (c ∷ cs)) in
        let rest : (b : A)
            → each_record J P body (length cs) (i + 1) page b ≡ each_of (live_cells cs) b =
          λ b.
            each_record-cells cs (front ++ c ∷ []) page (i + 1) b
              (here ∙ sym (append_assoc front (c ∷ []) cs))
              (omega (arith, length-append front (c ∷ []))) in
        elim (Bool-cases c.value.deleted) [
          | inl dead ↦
              rw (each_record, visit-dead c.value a _ read dead) (ground (arith, dead, rest a))
          | inr alive ↦
              step c.value cs (i + 1) page a (visit J P body (Page.get_record_at J P page i) a)
                (visit-alive c.value a _ read alive) rest
              ∙ ap (λ rs. each_of rs a) {x = c.value ∷ live_cells cs} (ground (arith, alive))
        ]

    -- A scan is one pass over the live records of all pages.
    pub each_page-live :
        (ps : List (Page J P)) (a : A) → each_page J P body ps a ≡ each_of (live_records ps) a
    unfolding each_page live_records and_then each_of Page.record_count
    each_page-live [] a = refl
    each_page-live (p ∷ ps) a =
        rw (each_page, each_record-cells p.records [] p 0 a refl refl)
          ((elim (each_of (live_cells p.records) a)
              as (λ l.
                (elim l [ more a' ↦ each_page J P body ps a' | stop a' ↦ stop a' | threw ↦ threw ])
                ≡ and_then l (each_of (live_records ps))) [
                  | more a' ↦ each_page-live ps a'
                  | stop a' ↦ refl
                  | threw ↦ refl
                ])
            ∙ sym (each_of-append (live_cells p.records) (live_records ps) a))
