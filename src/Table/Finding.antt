-- ===== src/Table/Finding.antt =====
-- Core/Table.cpp: where the pages of a table hold a record, read off the pages without the indexes.
use mathlib.Core.Option
use mini_database.Prelude.{
  ℕ, suc, ◌+◌, ◌≡◌, refl, Option-cases, inl, inr, Option, none, some, is_some, List, [], ◌∷◌, arith,
  ◌==◌, if◌then◌else◌, get_elem?,
}
use mini_database.Packages.Json.{JsonLib}
use mini_database.Packages.Pool.{PoolLib}
use mini_database.Record.{Record}
use mini_database.Page.{Page}
use mini_database.Page.Lookup.{find_value, count_live, find_value_count, count_find_value}

module _ (J : JsonLib) (P : PoolLib) where
  -- The pointer to the first page with the id.
  unfoldable pub position_of : ℕ → List (Page J P) → Option ℕ
  position_of pid [] = none
  position_of pid (p ∷ ps) = if p.id == pid then some 0 else Option.map suc (position_of pid ps)

  abbrev pub seen : ℕ → Page J P → Option (Record J)
  seen rid p = find_value J P rid p.records

  -- The id of the first page with a live record of the id.
  unfoldable pub owner : ℕ → List (Page J P) → Option ℕ
  owner rid [] = none
  owner rid (p ∷ ps) = if is_some (seen rid p) then some p.id else owner rid ps

  -- That record.
  unfoldable pub value : ℕ → List (Page J P) → Option (Record J)
  value rid [] = none
  value rid (p ∷ ps) = if is_some (seen rid p) then seen rid p else value rid ps

  -- How many live records of all pages have the id.
  unfoldable pub count : ℕ → List (Page J P) → ℕ
  count rid [] = 0
  count rid (p ∷ ps) = count_live J P rid p.records + count rid ps

  -- No two pages share an id.
  abbrev pub Distinct : List (Page J P) → Type 0
  Distinct [] = Unit
  Distinct (p ∷ ps) = (position_of p.id ps ≡ none) × Distinct ps

  pub owner_value :
      (rid : ℕ) (ps : List (Page J P)) → is_some (owner rid ps) ≡ is_some (value rid ps)
  unfolding owner value
  owner_value rid [] = refl
  owner_value rid (p ∷ ps) = ground (arith, owner_value rid ps)

  pub value_count : (rid : ℕ) (ps : List (Page J P)) → value rid ps ≡ none → count rid ps ≡ 0
  unfolding value count
  value_count rid [] h = refl
  value_count rid (p ∷ ps) h =
      ground (arith, value_count rid ps, find_value_count J P rid p.records)

  pub count-owner : (rid : ℕ) (ps : List (Page J P)) → count rid ps ≡ 0 → owner rid ps ≡ none
  unfolding owner count
  count-owner rid [] h = refl
  count-owner rid (p ∷ ps) h =
      ground (arith, count-owner rid ps, count_find_value J P rid p.records)

  pub count_value : (rid : ℕ) (ps : List (Page J P)) → count rid ps ≡ 0 → value rid ps ≡ none
  unfolding value count
  count_value rid [] h = refl
  count_value rid (p ∷ ps) h =
      ground (arith, count_value rid ps, count_find_value J P rid p.records)

  -- The page that `owner` names, and the pointer to it.
  pub record Located (rid pid : ℕ) (ps : List (Page J P)) : Type 0 where
    pub position : ℕ
    pub page : Page J P
    pub found : Record J
    pub position_eq : position_of pid ps ≡ some position
    pub page_eq : get_elem? ps position ≡ some page
    pub id_eq : page.id ≡ pid
    pub seen_eq : seen rid page ≡ some found
    pub value_eq : value rid ps ≡ some found

  pub locate :
      (rid pid : ℕ) (ps : List (Page J P))
      → Distinct ps
      → owner rid ps ≡ some pid
      → Located rid pid ps
  unfolding owner value position_of
  locate rid pid [] d h = cc
  locate rid pid (p ∷ ps) d h = elim (Option-cases (seen rid p)) [
    | inr (r, e) ↦ record {
      position = 0;
      page = p;
      found = r;
      position_eq = ground arith;
      page_eq = refl;
      id_eq = ground arith;
      seen_eq = e;
      value_eq = ground arith;
    }
    | inl e ↦
        let l = locate rid pid ps d.1 (ground arith) in
        let q : position_of pid ps ≡ some l.position = l.position_eq in
        let v : value rid ps ≡ some l.found = l.value_eq in
        record {
          position = suc l.position;
          page = l.page;
          found = l.found;
          position_eq = ground arith;
          page_eq = l.page_eq;
          id_eq = l.id_eq;
          seen_eq = l.seen_eq;
          value_eq = ground arith;
        }
  ]
