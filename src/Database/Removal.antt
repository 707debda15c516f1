-- ===== src/Database/Removal.antt =====
-- Core/Database.cpp: where the vector of tables holds a table after dropTable has removed one.
use mini_database.Prelude.{
  ℕ, ◌≤◌, length, ◌≡◌, refl, ap, subst, Bool-cases, inl, inr, none, some, List, [], ◌∷◌, String,
  str_eq, str_eq_iff, arith, ◌==◌, if◌then◌else◌, All,
}
use mini_database.Packages.Json.{JsonLib}
use mini_database.Packages.Pool.{PoolLib}
use mini_database.Table
use mini_database.Table.{Table, IdMap}
use mini_database.Database.{Cell, remove_id}
use mini_database.Database.Cells.{
  find_name, find_id, find_address, DistinctNames, DistinctIds, DistinctAddresses, find_id-of_name,
}

module _ (J : JsonLib) (P : PoolLib) (M : IdMap) where
  -- Dropping the tables of an id.
  find_address-remove_id :
      (tid a : ℕ) (cs : List (Cell J P M))
      → find_address J P M a cs ≡ none
      → find_address J P M a (remove_id J P M tid cs) ≡ none
  unfolding find_address remove_id Table.get_id
  find_address-remove_id tid a [] h = refl
  find_address-remove_id tid a (c ∷ cs) h = ground (arith, find_address-remove_id tid a cs, h)

  find_name-remove_id-none :
      (tid : ℕ) (name : String) (cs : List (Cell J P M))
      → find_name J P M name cs ≡ none
      → find_name J P M name (remove_id J P M tid cs) ≡ none
  unfolding find_name remove_id Table.get_id
  find_name-remove_id-none tid name [] h = refl
  find_name-remove_id-none tid name (c ∷ cs) h =
      ground (arith, find_name-remove_id-none tid name cs, h)

  pub find_id-remove_id :
      (tid other : ℕ) (cs : List (Cell J P M))
      → find_id J P M other (remove_id J P M tid cs)
        ≡ (if tid == other then none else find_id J P M other cs)
  unfolding find_id remove_id Table.get_id
  find_id-remove_id tid other [] = ground arith
  find_id-remove_id tid other (c ∷ cs) = ground (arith, find_id-remove_id tid other cs)

  pub DistinctAddresses-remove_id :
      (tid : ℕ) (cs : List (Cell J P M))
      → DistinctAddresses J P M cs
      → DistinctAddresses J P M (remove_id J P M tid cs)
  unfolding remove_id
  DistinctAddresses-remove_id tid [] h = tt
  DistinctAddresses-remove_id tid (c ∷ cs) (h, hs) =
      elim (Bool-cases (Table.get_id J P M c.value == tid)) [
        | inl same ↦ rw same (DistinctAddresses-remove_id tid cs hs)
        | inr differ ↦
            rw differ
              (find_address-remove_id tid c.address cs h, DistinctAddresses-remove_id tid cs hs)
      ]

  pub DistinctNames-remove_id :
      (tid : ℕ) (cs : List (Cell J P M))
      → DistinctNames J P M cs
      → DistinctNames J P M (remove_id J P M tid cs)
  unfolding remove_id
  DistinctNames-remove_id tid [] h = tt
  DistinctNames-remove_id tid (c ∷ cs) (h, hs) =
      elim (Bool-cases (Table.get_id J P M c.value == tid)) [
        | inl same ↦ rw same (DistinctNames-remove_id tid cs hs)
        | inr differ ↦
            rw differ
              (find_name-remove_id-none tid c.value.name cs h, DistinctNames-remove_id tid cs hs)
      ]

  pub DistinctIds-remove_id :
      (tid : ℕ) (cs : List (Cell J P M))
      → DistinctIds J P M cs
      → DistinctIds J P M (remove_id J P M tid cs)
  unfolding remove_id
  DistinctIds-remove_id tid [] h = tt
  DistinctIds-remove_id tid (c ∷ cs) (h, hs) =
      elim (Bool-cases (Table.get_id J P M c.value == tid)) [
        | inl same ↦ rw same (DistinctIds-remove_id tid cs hs)
        | inr differ ↦ rw differ (
          ground (arith, find_id-remove_id tid c.value.id cs, h),
          DistinctIds-remove_id tid cs hs,
        )
      ]

  pub All-remove_id {ℓ} :
      (Q : Cell J P M → Type ℓ) (tid : ℕ) (cs : List (Cell J P M))
      → All Q cs
      → All Q (remove_id J P M tid cs)
  unfolding remove_id
  All-remove_id Q tid [] h = tt
  All-remove_id Q tid (c ∷ cs) (h, hs) = elim (Bool-cases (Table.get_id J P M c.value == tid)) [
    | inl same ↦ rw same (All-remove_id Q tid cs hs)
    | inr differ ↦ rw differ (h, All-remove_id Q tid cs hs)
  ]

  pub length-remove_id :
      (tid : ℕ) (cs : List (Cell J P M)) → length (remove_id J P M tid cs) ≤ length cs
  unfolding remove_id
  length-remove_id tid [] = omega arith
  length-remove_id tid (c ∷ cs) = ground (arith, length-remove_id tid cs)

  -- An id that no table has.
  remove_id_absent :
      (tid : ℕ) (cs : List (Cell J P M)) → find_id J P M tid cs ≡ none → remove_id J P M tid cs ≡ cs
  unfolding find_id remove_id Table.get_id
  remove_id_absent tid [] h = refl
  remove_id_absent tid (c ∷ cs) h = ground (arith, remove_id_absent tid cs, h)

  -- Dropping the table of a name takes the name away, and no other.
  pub find_name-remove_id :
      (cs : List (Cell J P M)) (name other : String) (c : Cell J P M)
      → DistinctIds J P M cs
      → DistinctNames J P M cs
      → find_name J P M name cs ≡ some c
      → find_name J P M other (remove_id J P M c.value.id cs)
        ≡ (if str_eq name other then none else find_name J P M other cs)
  unfolding find_name remove_id Table.get_id
  find_name-remove_id [] name other c ids names e = cc
  find_name-remove_id (d ∷ ds) name other c (h, ids) (n, names) e =
      elim (Bool-cases (str_eq d.value.name name)) [
        | inl same ↦
            let d-eq : d ≡ c = ground (arith, e, same) in
            let id-eq : d.value.id ≡ c.value.id = ap (λ (x : Cell J P M). x.value.id) d-eq in
            let whole : remove_id J P M c.value.id ds ≡ ds =
              remove_id_absent c.value.id ds (subst (λ i. find_id J P M i ds ≡ none) id-eq h) in
            ground (
              arith,
              whole,
              id-eq,
              n,
              same,
              str_eq_iff d.value.name name,
              str_eq_iff d.value.name other,
              str_eq_iff name other,
            )
        | inr differ ↦
            let e' : find_name J P M name ds ≡ some c = ground (arith, e, differ) in
            let found = find_id-of_name J P M ds name c ids e' in
            let ih = find_name-remove_id ds name other c ids names e' in
            elim (Bool-cases (d.value.id == c.value.id)) [
              | inl equal ↦ absurd (ground (arith, found, h, equal))
              | inr apart ↦ ground (
                arith,
                ih,
                apart,
                differ,
                str_eq_iff d.value.name name,
                str_eq_iff d.value.name other,
                str_eq_iff name other,
              )
            ]
      ]
