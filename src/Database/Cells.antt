-- ===== src/Database/Cells.antt =====
-- Core/Database.cpp: where the vector of tables holds a table, by name, by id and by address.
use mini_database.Prelude.{
  ℕ, ◌<◌, ◌≡◌, refl, Bool-cases, inl, inr, Option, none, some, List, [], ◌∷◌, ◌++◌, String, str_eq,
  str_eq_iff, arith, ◌==◌, if◌then◌else◌, All,
}
use mini_database.Packages.Json.{JsonLib}
use mini_database.Packages.Pool.{PoolLib}
use mini_database.Table.{IdMap}
use mini_database.Database.{Cell}

module _ (J : JsonLib) (P : PoolLib) (M : IdMap) where
  unfoldable pub find_name : String → List (Cell J P M) → Option (Cell J P M)
  find_name name [] = none
  find_name name (c ∷ cs) = if str_eq c.value.name name then some c else find_name name cs

  unfoldable pub find_id : ℕ → List (Cell J P M) → Option (Cell J P M)
  find_id tid [] = none
  find_id tid (c ∷ cs) = if c.value.id == tid then some c else find_id tid cs

  unfoldable pub find_address : ℕ → List (Cell J P M) → Option (Cell J P M)
  find_address a [] = none
  find_address a (c ∷ cs) = if c.address == a then some c else find_address a cs

  -- No two tables share a name, an id or an address.
  abbrev pub DistinctNames : List (Cell J P M) → Type 0
  DistinctNames [] = Unit
  DistinctNames (c ∷ cs) = (find_name c.value.name cs ≡ none) × DistinctNames cs

  abbrev pub DistinctIds : List (Cell J P M) → Type 0
  DistinctIds [] = Unit
  DistinctIds (c ∷ cs) = (find_id c.value.id cs ≡ none) × DistinctIds cs

  abbrev pub DistinctAddresses : List (Cell J P M) → Type 0
  DistinctAddresses [] = Unit
  DistinctAddresses (c ∷ cs) = (find_address c.address cs ≡ none) × DistinctAddresses cs

  -- A new table at the end.
  module _ (d : Cell J P M) where
    pub find_name-append :
        (cs : List (Cell J P M)) (name : String)
        → find_name d.value.name cs ≡ none
        → find_name name (cs ++ d ∷ [])
          ≡ (if str_eq d.value.name name then some d else find_name name cs)
    unfolding find_name
    find_name-append [] name h = refl
    find_name-append (c ∷ cs) name h = ground (
      arith,
      find_name-append cs name,
      h,
      str_eq_iff c.value.name name,
      str_eq_iff d.value.name name,
      str_eq_iff c.value.name d.value.name,
    )

    pub find_id-append :
        (cs : List (Cell J P M)) (tid : ℕ)
        → find_id d.value.id cs ≡ none
        → find_id tid (cs ++ d ∷ []) ≡ (if d.value.id == tid then some d else find_id tid cs)
    unfolding find_id
    find_id-append [] tid h = refl
    find_id-append (c ∷ cs) tid h = ground (arith, find_id-append cs tid, h)

    find_address-append :
        (cs : List (Cell J P M)) (a : ℕ)
        → find_address d.address cs ≡ none
        → find_address a (cs ++ d ∷ []) ≡ (if d.address == a then some d else find_address a cs)
    unfolding find_address
    find_address-append [] a h = refl
    find_address-append (c ∷ cs) a h = ground (arith, find_address-append cs a, h)

    pub DistinctNames-append :
        (cs : List (Cell J P M))
        → DistinctNames cs
        → find_name d.value.name cs ≡ none
        → DistinctNames (cs ++ d ∷ [])
    unfolding find_name
    DistinctNames-append [] h k = (refl, tt)
    DistinctNames-append (c ∷ cs) (h, hs) k = (
      ground (
        arith,
        find_name-append cs c.value.name,
        k,
        h,
        str_eq_iff c.value.name d.value.name,
        str_eq_iff d.value.name c.value.name,
      ),
      DistinctNames-append cs hs (ground (arith, k)),
    )

    pub DistinctIds-append :
        (cs : List (Cell J P M))
        → DistinctIds cs
        → find_id d.value.id cs ≡ none
        → DistinctIds (cs ++ d ∷ [])
    unfolding find_id
    DistinctIds-append [] h k = (refl, tt)
    DistinctIds-append (c ∷ cs) (h, hs) k = (
      ground (arith, find_id-append cs c.value.id, k, h),
      DistinctIds-append cs hs (ground (arith, k)),
    )

    pub DistinctAddresses-append :
        (cs : List (Cell J P M))
        → DistinctAddresses cs
        → find_address d.address cs ≡ none
        → DistinctAddresses (cs ++ d ∷ [])
    unfolding find_address
    DistinctAddresses-append [] h k = (refl, tt)
    DistinctAddresses-append (c ∷ cs) (h, hs) k = (
      ground (arith, find_address-append cs c.address, k, h),
      DistinctAddresses-append cs hs (ground (arith, k)),
    )

  -- A bound that all ids or addresses keep is the id or address of none.
  pub find_id-below :
      (n : ℕ) (cs : List (Cell J P M)) → All (λ c. c.value.id < n) cs → find_id n cs ≡ none
  unfolding find_id
  find_id-below n [] h = refl
  find_id-below n (c ∷ cs) (h, hs) = ground (arith, find_id-below n cs hs)

  pub find_address-below :
      (n : ℕ) (cs : List (Cell J P M)) → All (λ c. c.address < n) cs → find_address n cs ≡ none
  unfolding find_address
  find_address-below n [] h = refl
  find_address-below n (c ∷ cs) (h, hs) = ground (arith, find_address-below n cs hs)

  -- The cell that a name finds is found by its id and its address.
  pub find_id-of_name :
      (cs : List (Cell J P M)) (name : String) (c : Cell J P M)
      → DistinctIds cs
      → find_name name cs ≡ some c
      → find_id c.value.id cs ≡ some c
  unfolding find_name find_id
  find_id-of_name [] name c h e = cc
  find_id-of_name (d ∷ ds) name c (h, hs) e = elim (Bool-cases (str_eq d.value.name name)) [
    | inl same ↦ ground (arith, e, same)
    | inr differ ↦
        let e' : find_name name ds ≡ some c = ground (arith, e, differ) in
        let ih = find_id-of_name ds name c hs e' in
        elim (Bool-cases (d.value.id == c.value.id)) [
          | inl equal ↦ absurd (ground (arith, ih, h, equal))
          | inr _ ↦ ground (arith, ih)
        ]
  ]

  pub find_address-of_name :
      (cs : List (Cell J P M)) (name : String) (c : Cell J P M)
      → DistinctAddresses cs
      → find_name name cs ≡ some c
      → find_address c.address cs ≡ some c
  unfolding find_name find_address
  find_address-of_name [] name c h e = cc
  find_address-of_name (d ∷ ds) name c (h, hs) e = elim (Bool-cases (str_eq d.value.name name)) [
    | inl same ↦ ground (arith, e, same)
    | inr differ ↦
        let e' : find_name name ds ≡ some c = ground (arith, e, differ) in
        let ih = find_address-of_name ds name c hs e' in
        elim (Bool-cases (d.address == c.address)) [
          | inl equal ↦ absurd (ground (arith, ih, h, equal))
          | inr _ ↦ ground (arith, ih)
        ]
  ]
