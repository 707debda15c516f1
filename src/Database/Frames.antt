-- ===== src/Database/Frames.antt =====
-- Core/Database.cpp: changes inside tables, which keep their names, ids and addresses.
use mathlib.Core.Option
use mini_database.Prelude.{
  ℕ, ◌<◌, ◌≤◌, ◌≡◌, refl, ◌∙◌, subst, none, List, [], ◌∷◌, String, arith, All, length,
}
use mini_database.Common.{max_tables}
use mini_database.Packages.Json.{JsonLib}
use mini_database.Packages.Pool.{PoolLib}
use mini_database.Table.{IdMap}
use mini_database.Database.{Cell, Database, NameMap}
use mini_database.Database.Cells.{
  find_name, find_id, find_address, DistinctNames, DistinctIds, DistinctAddresses,
}
use mini_database.Database.Invariant.{IsConsistent}

module _ (J : JsonLib) (P : PoolLib) (M : IdMap) where
  -- Cell by cell the same address, name and id.
  abbrev pub SameCell : Cell J P M → Cell J P M → Type 0
  SameCell c d = (c.address ≡ d.address) × (c.value.name ≡ d.value.name) × (c.value.id ≡ d.value.id)

  pub data Same : List (Cell J P M) → List (Cell J P M) → Type 0 where
    nil : Same [] []
    cons :
        {c d : Cell J P M} {cs ds : List (Cell J P M)}
        → SameCell c d
        → Same cs ds
        → Same (c ∷ cs) (d ∷ ds)

  pub Same-refl : (cs : List (Cell J P M)) → Same cs cs
  Same-refl [] = nil
  Same-refl (c ∷ cs) = cons (refl, refl, refl) (Same-refl cs)

  find_name-Same :
      {cs ds : List (Cell J P M)} (name : String)
      → Same cs ds
      → Option.map (λ (c : Cell J P M). c.value.id) (find_name J P M name cs)
        ≡ Option.map (λ (c : Cell J P M). c.value.id) (find_name J P M name ds)
  unfolding find_name
  find_name-Same name nil = refl
  find_name-Same name (cons {c} {d} {cs} {ds} (a, n, i) h) =
      ground (arith, a, n, i, find_name-Same name h)

  find_id-Same :
      {cs ds : List (Cell J P M)} (tid : ℕ)
      → Same cs ds
      → Option.map (λ (c : Cell J P M). c.address) (find_id J P M tid cs)
        ≡ Option.map (λ (c : Cell J P M). c.address) (find_id J P M tid ds)
  unfolding find_id
  find_id-Same tid nil = refl
  find_id-Same tid (cons {c} {d} {cs} {ds} (a, n, i) h) =
      ground (arith, a, n, i, find_id-Same tid h)

  find_name-none :
      {cs ds : List (Cell J P M)} (name : String)
      → Same cs ds
      → find_name J P M name cs ≡ none
      → find_name J P M name ds ≡ none
  find_name-none name h absent = ground (arith, absent, find_name-Same name h)

  find_id-none :
      {cs ds : List (Cell J P M)} (tid : ℕ)
      → Same cs ds
      → find_id J P M tid cs ≡ none
      → find_id J P M tid ds ≡ none
  find_id-none tid h absent = ground (arith, absent, find_id-Same tid h)

  find_address-none :
      {cs ds : List (Cell J P M)} (a : ℕ)
      → Same cs ds
      → find_address J P M a cs ≡ none
      → find_address J P M a ds ≡ none
  unfolding find_address
  find_address-none x nil absent = refl
  find_address-none x (cons {c} {d} {cs} {ds} (a, n, i) h) absent =
      ground (arith, a, absent, find_address-none x h)

  DistinctNames-Same :
      {cs ds : List (Cell J P M)} → Same cs ds → DistinctNames J P M cs → DistinctNames J P M ds
  DistinctNames-Same nil k = tt
  DistinctNames-Same (cons {c} {d} {cs} {ds} (a, n, i) h) (k, l) = (
    subst (λ m. find_name J P M m ds ≡ none) n (find_name-none c.value.name h k),
    DistinctNames-Same h l,
  )

  DistinctIds-Same :
      {cs ds : List (Cell J P M)} → Same cs ds → DistinctIds J P M cs → DistinctIds J P M ds
  DistinctIds-Same nil k = tt
  DistinctIds-Same (cons {c} {d} {cs} {ds} (a, n, i) h) (k, l) =
      (subst (λ m. find_id J P M m ds ≡ none) i (find_id-none c.value.id h k), DistinctIds-Same h l)

  DistinctAddresses-Same :
      {cs ds : List (Cell J P M)}
      → Same cs ds
      → DistinctAddresses J P M cs
      → DistinctAddresses J P M ds
  DistinctAddresses-Same nil k = tt
  DistinctAddresses-Same (cons {c} {d} {cs} {ds} (a, n, i) h) (k, l) = (
    subst (λ m. find_address J P M m ds ≡ none) a (find_address-none c.address h k),
    DistinctAddresses-Same h l,
  )

  ids_below-Same :
      (n : ℕ) {cs ds : List (Cell J P M)}
      → Same cs ds
      → All (λ c. c.value.id < n) cs
      → All (λ c. c.value.id < n) ds
  ids_below-Same n nil k = tt
  ids_below-Same n (cons {c} {d} {cs} {ds} (a, e, i) h) (k, l) =
      (subst (λ m. m < n) i k, ids_below-Same n h l)

  addresses_below-Same :
      (n : ℕ) {cs ds : List (Cell J P M)}
      → Same cs ds
      → All (λ c. c.address < n) cs
      → All (λ c. c.address < n) ds
  addresses_below-Same n nil k = tt
  addresses_below-Same n (cons {c} {d} {cs} {ds} (a, e, i) h) (k, l) =
      (subst (λ m. m < n) a k, addresses_below-Same n h l)

  length-Same : {cs ds : List (Cell J P M)} → Same cs ds → length cs ≡ length ds
  length-Same nil = refl
  length-Same (cons {c} {d} {cs} {ds} e h) = omega (arith, length-Same h)

  module _ (N : NameMap) where
    pub IsConsistent-Same :
        (db : Database J P M N) (ds : List (Cell J P M))
        → Same db.tables ds
        → IsConsistent J P M N db
        → IsConsistent J P M N (record db { tables = ds })
    IsConsistent-Same db ds h inv = record {
      names = λ name. inv.names name ∙ find_name-Same name h;
      ids = λ tid. inv.ids tid ∙ find_id-Same tid h;
      distinct_names = DistinctNames-Same h inv.distinct_names;
      distinct_ids = DistinctIds-Same h inv.distinct_ids;
      distinct_addresses = DistinctAddresses-Same h inv.distinct_addresses;
      ids_below = ids_below-Same db.next_table_id h inv.ids_below;
      addresses_below = addresses_below-Same db.next_address h inv.addresses_below;
      few = subst (λ n. n ≤ max_tables) (length-Same h) inv.few;
    }
