-- ===== src/Table/Writing.antt =====
-- Core/Table.cpp: what a write to one page, or a new empty page, changes of `Finding`'s readings.
use mini_database.Prelude.{
  ℕ, zero, suc, ◌+◌, ◌≤◌, ◌<◌, ◌≡◌, refl, ◌∙◌, none, some, is_some, List, [], ◌∷◌, ◌++◌, arith,
  ◌==◌, if◌then◌else◌, get_elem?, set, length, All,
}
use mini_database.Packages.Json.{JsonLib}
use mini_database.Packages.Pool.{PoolLib}
use mini_database.Page.{Page}
use mini_database.Page.Lookup.{find_value, count_live, count_find_value}
use mini_database.Table.Finding.{
  position_of, owner, value, count, seen, Distinct, count-owner, count_value,
}

module _ (J : JsonLib) (P : PoolLib) where
  -- The page at a pointer holds no more live records of an id than all pages together.
  pub count_live-le :
      (rid : ℕ) (ps : List (Page J P)) (i : ℕ) (p : Page J P)
      → get_elem? ps i ≡ some p
      → count_live J P rid p.records ≤ count J P rid ps
  unfolding count
  count_live-le rid [] i p e = cc
  count_live-le rid (q ∷ ps) zero p e = ground arith
  count_live-le rid (q ∷ ps) (suc i) p e = omega (arith, count_live-le rid ps i p e)

  -- A write at a pointer that leaves the page's id alone.
  module _ (p' : Page J P) where
    pub position_of-set :
        (pid : ℕ) (ps : List (Page J P)) (i : ℕ) (p : Page J P)
        → get_elem? ps i ≡ some p
        → p'.id ≡ p.id
        → position_of J P pid (set ps i p') ≡ position_of J P pid ps
    unfolding position_of
    position_of-set pid [] i p e same = refl
    position_of-set pid (q ∷ ps) zero p e same = ground arith
    position_of-set pid (q ∷ ps) (suc i) p e same =
        ground (arith, position_of-set pid ps i p e same)

    pub Distinct-set :
        (ps : List (Page J P)) (i : ℕ) (p : Page J P)
        → get_elem? ps i ≡ some p
        → p'.id ≡ p.id
        → Distinct J P ps
        → Distinct J P (set ps i p')
    Distinct-set [] i p e same d = tt
    Distinct-set (q ∷ ps) zero p e same (fresh, d) = (cc, d)
    Distinct-set (q ∷ ps) (suc i) p e same (fresh, d) =
        (position_of-set q.id ps i p e same ∙ fresh, Distinct-set ps i p e same d)

    pub count-set :
        (rid : ℕ) (ps : List (Page J P)) (i : ℕ) (p : Page J P)
        → get_elem? ps i ≡ some p
        → count J P rid (set ps i p') + count_live J P rid p.records
          ≡ count J P rid ps + count_live J P rid p'.records
    unfolding count
    count-set rid [] i p e = cc
    count-set rid (q ∷ ps) zero p e = ground arith
    count-set rid (q ∷ ps) (suc i) p e = omega (arith, count-set rid ps i p e)

    -- Every live record with the id is on this page: so it is found there after the write too.
    pub value-set_here :
        (rid : ℕ) (ps : List (Page J P)) (i : ℕ) (p : Page J P)
        → get_elem? ps i ≡ some p
        → count J P rid ps ≡ count_live J P rid p.records
        → (value J P rid (set ps i p') ≡ seen J P rid p')
          × (owner J P rid (set ps i p') ≡ (if is_some (seen J P rid p') then some p'.id else none))
    unfolding value owner count
    value-set_here rid [] i p e c = cc
    value-set_here rid (q ∷ ps) zero p e c =
        ground (arith, count_value J P rid ps, count-owner J P rid ps)
    value-set_here rid (q ∷ ps) (suc i) p e c =
        let here : count J P rid ps ≡ count_live J P rid p.records =
          omega (arith, count_live-le rid ps i p e) in
        let none_here : seen J P rid q ≡ none =
          count_find_value J P rid q.records (omega (arith, count_live-le rid ps i p e)) in
        let (v, o) = value-set_here rid ps i p e here in (ground arith, ground arith)

    -- An id that the write does not concern.
    pub value-set_other :
        (rid : ℕ) (ps : List (Page J P)) (i : ℕ) (p : Page J P)
        → get_elem? ps i ≡ some p
        → p'.id ≡ p.id
        → seen J P rid p' ≡ seen J P rid p
        → (value J P rid (set ps i p') ≡ value J P rid ps)
          × (owner J P rid (set ps i p') ≡ owner J P rid ps)
    unfolding value owner
    value-set_other rid [] i p e same s = (refl, refl)
    value-set_other rid (q ∷ ps) zero p e same s = (ground arith, ground arith)
    value-set_other rid (q ∷ ps) (suc i) p e same s =
        let (v, o) = value-set_other rid ps i p e same s in (ground arith, ground arith)

  -- A new page at the end, with no records.
  module _ (q : Page J P) (bare : q.records ≡ []) where
    pub position_of-append :
        (pid : ℕ) (ps : List (Page J P))
        → position_of J P q.id ps ≡ none
        → position_of J P pid (ps ++ q ∷ [])
          ≡ (if q.id == pid then some (length ps) else position_of J P pid ps)
    unfolding position_of
    position_of-append pid [] fresh = refl
    position_of-append pid (p ∷ ps) fresh = ground (arith, position_of-append pid ps)

    pub Distinct-append :
        (ps : List (Page J P))
        → position_of J P q.id ps ≡ none
        → Distinct J P ps
        → Distinct J P (ps ++ q ∷ [])
    unfolding position_of
    Distinct-append [] fresh d = (refl, tt)
    Distinct-append (p ∷ ps) fresh (new, d) =
        (ground (arith, position_of-append p.id ps), Distinct-append ps (ground arith) d)

    pub readings-append :
        (rid : ℕ) (ps : List (Page J P))
        → (value J P rid (ps ++ q ∷ []) ≡ value J P rid ps)
          × (owner J P rid (ps ++ q ∷ []) ≡ owner J P rid ps)
          × (count J P rid (ps ++ q ∷ []) ≡ count J P rid ps)
    unfolding value owner count find_value count_live
    readings-append rid [] =
        let unseen : find_value J P rid q.records ≡ none = rw bare refl in
        let uncounted : count_live J P rid q.records ≡ 0 = rw bare refl in
        (ground arith, ground arith, omega arith)
    readings-append rid (p ∷ ps) = let (v, o, c) = readings-append rid ps in (rw v, rw o, rw c)

    pub get_elem?-append : (ps : List (Page J P)) → get_elem? (ps ++ q ∷ []) (length ps) ≡ some q
    get_elem?-append [] = refl
    get_elem?-append (p ∷ ps) = get_elem?-append ps

  -- An id that is on no page.
  pub position_of-below :
      (n : ℕ) (ps : List (Page J P)) → All (λ p. p.id < n) ps → position_of J P n ps ≡ none
  unfolding position_of
  position_of-below n [] h = refl
  position_of-below n (p ∷ ps) (h, hs) = ground (arith, position_of-below n ps hs)
