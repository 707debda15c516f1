-- ===== src/Table/Loading.antt =====
-- Core/Table.cpp, section 6: the loop of fromJson over the pages that toJson wrote.
use mini_database.Prelude.{
  ℕ, ◌+◌, ◌^◌, ◌≤◌, ◌<◌, ◌≡◌, refl, sym, ap, ◌∙◌, some, List, [], ◌∷◌, ◌++◌, map, append_assoc,
  append-nil, arith, All,
}
use mini_database.Common.{ok, invalid_page_id}
use mini_database.Packages.Json.{JsonLib}
use mini_database.Packages.Pool.{PoolLib}
use mini_database.Page
use mini_database.Page.{Page}
use mini_database.Page.Lookup.{
  find_value, count_live, live_cells, find_value-live_cells, count_live-live_cells,
}
use mini_database.Page.Invariant.{IsWellFormed}
use mini_database.Page.RoundTrip.{IsSmall, Restored, from_json-Restored, readings-values}
use mini_database.Table.Finding.{position_of, value, count, Distinct}
use mini_database.Table.Forms.{max, load_pages}

module _ (J : JsonLib) (P : PoolLib) where
  -- Page by page one that was read back from the other.
  pub data Each : List (Page J P) → List (Page J P) → Type 0 where
    nil : Each [] []
    cons :
        {p q : Page J P} {ps qs : List (Page J P)}
        → Restored J P p q
        → Each ps qs
        → Each (p ∷ ps) (q ∷ qs)

  -- maxPageId at the end of the loop.
  pub top : ℕ → List (Page J P) → ℕ
  top m [] = m
  top m (p ∷ ps) = top (max m p.id) ps

  pub load_pages-Each :
      (pages : List (Page J P)) (m : ℕ) (ps : List (Page J P))
      → All (IsWellFormed J P) ps
      → All (IsSmall J P) ps
      → (qs : List (Page J P)) × (load_pages J P pages m (map (Page.to_json J P) ps)
          ≡ (pages ++ qs, top m ps, some ok))
        × Each ps qs
  unfolding load_pages top Page.get_id
  load_pages-Each pages m [] w s = ([], ap (λ l. (l, m, some ok)) (sym (append-nil pages)), nil)
  load_pages-Each pages m (p ∷ ps) (w, ws) (s, ss) =
      let (q, q-eq, r) = from_json-Restored J P p invalid_page_id w s in
      let (qs, qs-eq, rs) = load_pages-Each (pages ++ q ∷ []) (max m p.id) ps ws ss in
      (q ∷ qs, ground (arith, q-eq, qs-eq, r.same_id, append_assoc pages (q ∷ []) qs), cons r rs)

  seen-Restored :
      (j : ℕ) (p q : Page J P)
      → Restored J P p q
      → (find_value J P j q.records ≡ find_value J P j p.records)
        × (count_live J P j q.records ≡ count_live J P j p.records)
  seen-Restored j p q r =
      let (a, b) = readings-values J P j q.records (live_cells J P p.records) r.kept in
      (a ∙ find_value-live_cells J P j p.records, b ∙ count_live-live_cells J P j p.records)

  pub readings-Each :
      (j : ℕ) {ps qs : List (Page J P)}
      → Each ps qs
      → (position_of J P j qs ≡ position_of J P j ps)
        × (value J P j qs ≡ value J P j ps)
        × (count J P j qs ≡ count J P j ps)
  unfolding position_of value count
  readings-Each j nil = (refl, refl, refl)
  readings-Each j (cons {p} {q} {ps} {qs} r rs) =
      let (a, b, c) = readings-Each j rs in
      let (v, n) = seen-Restored j p q r in
      let same = r.same_id in (ground (arith, a), ground (arith, b), omega (arith, n, c))

  pub Distinct-Each : {ps qs : List (Page J P)} → Each ps qs → Distinct J P ps → Distinct J P qs
  Distinct-Each nil d = tt
  Distinct-Each (cons {p} {q} {ps} {qs} r rs) (fresh, d) =
      (rw r.same_id ((readings-Each p.id rs).0 ∙ fresh), Distinct-Each rs d)

  pub IsWellFormed-Each : {ps qs : List (Page J P)} → Each ps qs → All (IsWellFormed J P) qs
  IsWellFormed-Each nil = tt
  IsWellFormed-Each (cons r rs) = (r.well_formed, IsWellFormed-Each rs)

  -- maxPageId is not below an id that it has met, and is small if they are.
  pub top-above : (m : ℕ) (ps : List (Page J P)) → (m ≤ top m ps) × All (λ p. p.id ≤ top m ps) ps
  unfolding top
  top-above m [] = (omega arith, tt)
  top-above m (p ∷ ps) =
      let (a, b) = top-above (max m p.id) ps in (ground (arith, a), (ground (arith, a), b))

  pub top-small :
      (m : ℕ) (ps : List (Page J P)) → m < 2 ^ 31 → All (IsSmall J P) ps → top m ps < 2 ^ 31
  unfolding top
  top-small m [] h s = h
  top-small m (p ∷ ps) h ((s, _), ss) = top-small (max m p.id) ps (ground (arith, h, s)) ss

  pub below-Each :
      (n : ℕ) {ps qs : List (Page J P)}
      → Each ps qs
      → All (λ p. p.id ≤ n) ps
      → All (λ p. p.id < n + 1) qs
  below-Each n nil h = tt
  below-Each n (cons {p} {q} {ps} {qs} r rs) (h, hs) =
      (omega (arith, r.same_id, h), below-Each n rs hs)
