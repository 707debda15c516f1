-- ===== src/Database/Rebuilt.antt =====
-- Core/Database.cpp, section 3: the loop of fromJson over the tables that toJson wrote.
use mathlib.Core.Option
use mini_database.Prelude.{
  ℕ, ◌+◌, ◌^◌, ◌≤◌, ◌<◌, ◌≡◌, refl, sym, ◌∙◌, subst, Bool-cases, inl, inr, true, false, Option,
  some, none, List, [], ◌∷◌, ◌++◌, map, append_assoc, append-nil, String, str_eq, str_eq_iff, arith,
  All, length, length-append,
}
use mini_database.Common.{ok, max_tables, invalid_table_id}
use mini_database.Packages.Json.{JsonLib}
use mini_database.Packages.Pool.{PoolLib}
use mini_database.Packages.HashMap.{HashMapLib}
use mini_database.Table
use mini_database.Table.{Table, IdMap}
use mini_database.Table.Forms
use mini_database.Table.Forms.{max}
use mini_database.Table.Invariant
use mini_database.Table.RoundTrip.{Copies, IsStorable, from_json-Copies}
use mini_database.Database.{Cell, Database, NameMap}
use mini_database.Database.Cells.{
  find_name, find_id, find_name-append, find_id-append, DistinctNames, DistinctIds,
}
use mini_database.Database.Invariant.{IsConsistent}
use mini_database.Database.Growth.{grown, grown-IsConsistent}
use mini_database.Database.Forms.{Scratch, no_tables, add_table, load_tables}

module _ (J : JsonLib) (P : PoolLib) (M : IdMap) where
  -- Table by table a copy of the other.
  pub data Each : List (Cell J P M) → List (Cell J P M) → Type 0 where
    nil : Each [] []
    cons :
        {c d : Cell J P M} {cs ds : List (Cell J P M)}
        → Copies J P M c.value d.value
        → Each cs ds
        → Each (c ∷ cs) (d ∷ ds)

  -- What two maps have under a name: nothing, or a table and a copy of it.
  abbrev pub Matches : Option (Table J P M) → Option (Table J P M) → Type 0
  Matches none none = Unit
  Matches (some t) (some u) = Copies J P M t u
  Matches _ _ = ⊥

  abbrev pub value_of : Option (Cell J P M) → Option (Table J P M)
  value_of o = Option.map (λ (c : Cell J P M). c.value) o

  pub find_name-Each :
      (name : String) {cs ds : List (Cell J P M)}
      → Each cs ds
      → Matches (value_of (find_name J P M name cs)) (value_of (find_name J P M name ds))
  unfolding find_name
  find_name-Each name nil = tt
  find_name-Each name (cons {c} {d} {cs} {ds} h hs) = elim (Bool-cases (str_eq c.value.name name)) [
    | inl same ↦
        let same' : str_eq d.value.name name ≡ true = ground (arith, same, h.name_eq) in
        rw (same, same') h
    | inr differ ↦
        let differ' : str_eq d.value.name name ≡ false = ground (arith, differ, h.name_eq) in
        rw (differ, differ') (find_name-Each name hs)
  ]

  -- Tables that can be stored.
  abbrev pub AllStorable : List (Cell J P M) → Type 0
  AllStorable = All (λ c. Table.Invariant.IsConsistent J P M c.value × IsStorable J P M c.value)

  -- Tables whose names and ids are not taken yet.
  abbrev Fresh : List (Cell J P M) → List (Cell J P M) → Type 0
  Fresh there =
      All
        (λ c. (find_name J P M c.value.name there ≡ none) × (find_id J P M c.value.id there ≡ none))

  pub Fresh-none : (cs : List (Cell J P M)) → Fresh [] cs
  unfolding find_name find_id
  Fresh-none [] = tt
  Fresh-none (c ∷ cs) = ((refl, refl), Fresh-none cs)

  Fresh-append :
      (d : Cell J P M) (there cs : List (Cell J P M))
      → find_name J P M d.value.name there ≡ none
      → find_id J P M d.value.id there ≡ none
      → find_name J P M d.value.name cs ≡ none
      → find_id J P M d.value.id cs ≡ none
      → Fresh there cs
      → Fresh (there ++ d ∷ []) cs
  unfolding find_name find_id
  Fresh-append d there [] a b n i h = tt
  Fresh-append d there (c ∷ cs) a b n i ((n', i'), hs) = (
    (
      ground (
        arith,
        find_name-append J P M d there c.value.name a,
        n,
        n',
        str_eq_iff d.value.name c.value.name,
        str_eq_iff c.value.name d.value.name,
      ),
      ground (arith, find_id-append J P M d there c.value.id b, i, i'),
    ),
    Fresh-append d there cs a b (ground (arith, n)) (ground (arith, i)) hs,
  )

  module _ (N : NameMap) where
    -- The scratch containers as a database with its counter above the ids.
    abbrev pub as_database : Scratch J P M N → Database J P M N
    as_database s = record {
      name = "";
      tables = s.tables;
      index = s.index;
      table_index = s.table_index;
      next_table_id = s.max_table_id + 1;
      dirty = false;
      next_address = s.next_address;
    }

    pub no_tables-IsConsistent :
        (next_address : ℕ) → IsConsistent J P M N (as_database (no_tables J P M N next_address))
    unfolding no_tables find_name find_id
    no_tables-IsConsistent next_address = record {
      names = HashMapLib.at-empty N;
      ids = HashMapLib.at-empty M;
      distinct_names = tt;
      distinct_ids = tt;
      distinct_addresses = tt;
      ids_below = tt;
      addresses_below = tt;
      few = omega arith;
    }

    as_database-add_table :
        (s : Scratch J P M N) (t : Table J P M)
        → as_database (add_table J P M N s t)
          ≡ grown J P M N (as_database s) t (max s.max_table_id t.id + 1) false
    unfolding add_table Table.get_name Table.get_id
    as_database-add_table s t = refl

    pub record Filled (s : Scratch J P M N) (cs : List (Cell J P M)) (u : Scratch J P M N)
        : Type 0 where
      pub added : List (Cell J P M)
      pub tables_eq : u.tables ≡ s.tables ++ added
      pub each : Each cs added
      pub consistent : IsConsistent J P M N (as_database u)
      pub small : u.max_table_id < 2 ^ 31

    module _ (s : Scratch J P M N) (c : Cell J P M) (t : Table J P M)
        (copy : Copies J P M c.value t) (new_name : find_name J P M c.value.name s.tables ≡ none)
        (new_id : find_id J P M c.value.id s.tables ≡ none) where
      abbrev new_cell : Cell J P M
      new_cell = record { address = s.next_address; value = t }

      free_name : find_name J P M t.name s.tables ≡ none
      free_name = subst (λ n. find_name J P M n s.tables ≡ none) (sym copy.name_eq) new_name

      free_id : find_id J P M t.id s.tables ≡ none
      free_id = subst (λ n. find_id J P M n s.tables ≡ none) (sym copy.id_eq) new_id

      add_table-IsConsistent :
          IsConsistent J P M N (as_database s)
          → length s.tables < max_tables
          → IsConsistent J P M N (as_database (add_table J P M N s t))
      add_table-IsConsistent inv room =
          subst (IsConsistent J P M N) (sym (as_database-add_table s t)) (
            grown-IsConsistent J P M N (as_database s) t (max s.max_table_id t.id + 1) false inv
              free_name free_id room (ground arith) (ground arith))

      add_table-small :
          s.max_table_id < 2 ^ 31
          → c.value.id < 2 ^ 31
          → (add_table J P M N s t).max_table_id < 2 ^ 31
      unfolding add_table Table.get_id
      add_table-small h k = ground (arith, h, k, copy.id_eq)

      add_table-Fresh :
          (cs : List (Cell J P M))
          → find_name J P M c.value.name cs ≡ none
          → find_id J P M c.value.id cs ≡ none
          → Fresh s.tables cs
          → Fresh (add_table J P M N s t).tables cs
      unfolding add_table
      add_table-Fresh cs n i h =
          Fresh-append new_cell s.tables cs free_name free_id
            (subst (λ m. find_name J P M m cs ≡ none) (sym copy.name_eq) n)
            (subst (λ m. find_id J P M m cs ≡ none) (sym copy.id_eq) i) h

    pub load_tables-Filled :
        (s : Scratch J P M N) (cs : List (Cell J P M))
        → IsConsistent J P M N (as_database s)
        → s.max_table_id < 2 ^ 31
        → length s.tables + length cs ≤ max_tables
        → Fresh s.tables cs
        → DistinctNames J P M cs
        → DistinctIds J P M cs
        → AllStorable cs
        → (u : Scratch J P M N) × (load_tables J P M N s
              (map (λ c. Table.Forms.to_json J P M c.value) cs)
            ≡ (u, some ok))
          × Filled s cs u
    unfolding load_tables add_table Table.make
    load_tables-Filled s [] inv small room fresh names ids storable = (
      s,
      refl,
      record {
        added = [];
        tables_eq = sym (append-nil s.tables);
        each = nil;
        consistent = inv;
        small = small;
      },
    )
    load_tables-Filled s (c ∷ cs) inv small room ((new_name, new_id), fresh) (n, names) (i, ids)
          ((inv_c, storable_c), storable) =
        let (t, t-eq, copy) =
          from_json-Copies J P M (Table.make J P M "" invalid_table_id []) c.value refl inv_c
            storable_c in
        let d = new_cell s c t copy new_name new_id in
        let (u, u-eq, f) =
          load_tables-Filled (add_table J P M N s t) cs
            (add_table-IsConsistent s c t copy new_name new_id inv (omega (arith, room)))
            (add_table-small s c t copy new_name new_id small storable_c.0)
            (omega (arith, room, length-append s.tables (d ∷ [])))
            (add_table-Fresh s c t copy new_name new_id cs n i fresh) names ids storable in
        (
          u,
          ground (arith, t-eq, u-eq),
          record {
            added = d ∷ f.added;
            tables_eq = f.tables_eq ∙ append_assoc s.tables (d ∷ []) f.added;
            each = cons copy f.each;
            consistent = f.consistent;
            small = f.small;
          },
        )
