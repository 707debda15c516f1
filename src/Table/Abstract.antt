-- ===== src/Table/Abstract.antt =====
-- Core/Table.cpp: a table without its representation. Two consistent tables are the same when they have
-- the same name, id and schema and the same map from ids to records, however their pages, indexes and
-- counters stand, and whether they are marked dirty or not.
use mathlib.Core.Quot
use mathlib.Core.Quot.{Quot, Quot-set}
use mini_database.Prelude.{
  ℕ, ◌≡◌, sym, ◌∙◌, none, some, Bool-cases, Option-cases, inl, inr, get_elem?, ◌==◌, if◌then◌else◌,
  arith,
}
use mini_database.Common.{Status}
use mini_database.Packages.Json.{JsonLib}
use mini_database.Packages.Pool.{PoolLib}
use mini_database.Table.{Table, IdMap, delete_record, find_page_by_id}
use mini_database.Table.Invariant.{IsConsistent}
use mini_database.Table.Contract.{view}
use mini_database.Table.Deletes.{delete_record-Refines}

module _ (J : JsonLib) (P : PoolLib) (M : IdMap) where
  open M use {contains, at}

  abbrev pub Consistent : Type 0
  Consistent = (t : Table J P M) × IsConsistent J P M t

  pub record SameTable (a b : Consistent) : Type 0 where
    pub name_eq : a.0.name ≡ b.0.name
    pub id_eq : a.0.id ≡ b.0.id
    pub schema_eq : a.0.schema ≡ b.0.schema
    pub view_eq : (id : ℕ) → view J P M a.0 id ≡ view J P M b.0 id

  abbrev pub Abstract : Type 0
  Abstract = Quot SameTable

  abbrev pub forget : Consistent → Abstract
  forget a = Quot.mk a

  -- deleteRecord on a consistent table.
  abbrev pub without : ℕ → Consistent → Consistent
  without id (t, inv) = let r = delete_record-Refines J P M t inv id in (r.after, r.consistent)

  without-view :
      (id : ℕ) (a : Consistent) (j : ℕ)
      → view J P M (without id a).0 j ≡ (if id == j then none else view J P M a.0 j)
  without-view id (t, inv) j =
      let r = delete_record-Refines J P M t inv id in ground (arith, r.view_eq j)

  -- deleteRecord leaves a table its name and its id.
  delete_record-named :
      (t : Table J P M) (id : ℕ) (u : Table J P M) (s : Status)
      → delete_record J P M t id ≡ some (u, s)
      → (u.name ≡ t.name) × (u.id ≡ t.id)
  unfolding delete_record
  delete_record-named t id u s h = elim (Bool-cases (contains t.index id)) [
    | inr absent ↦ ground (arith, h, absent)
    | inl there ↦ elim (Option-cases (at t.index id)) [
      | inl e ↦ absurd (ground (arith, h, there, e))
      | inr (pid, e) ↦ elim (Option-cases (find_page_by_id J P M t pid)) [
        | inl f ↦ absurd (ground (arith, h, there, e, f))
        | inr (found, f) ↦ elim (Option-cases found) [
          | inl none_eq ↦ ground (arith, h, there, e, f, none_eq)
          | inr (i, some_eq) ↦ elim (Option-cases (get_elem? t.pages i)) [
            | inl g ↦ absurd (ground (arith, h, there, e, f, some_eq, g))
            | inr (page, g) ↦ ground (arith, h, there, e, f, some_eq, g)
          ]
        ]
      ]
    ]
  ]

  without-SameTable :
      (id : ℕ) (a b : Consistent) → SameTable a b → SameTable (without id a) (without id b)
  without-SameTable id (t, k) (u, l) h =
      let r = delete_record-Refines J P M t k id in
      let q = delete_record-Refines J P M u l id in
      let (name, number) = delete_record-named t id r.after _ r.result in
      let (name', number') = delete_record-named u id q.after _ q.result in
      record {
        name_eq = name ∙ h.name_eq ∙ sym name';
        id_eq = number ∙ h.id_eq ∙ sym number';
        schema_eq = r.schema_eq ∙ h.schema_eq ∙ sym q.schema_eq;
        view_eq =
            λ j. ground (arith, without-view id (t, k) j, without-view id (u, l) j, h.view_eq j);
      }

  -- deleteRecord as an operation on what tables stand for.
  pub remove : ℕ → Abstract → Abstract
  remove id =
      Quot.lift Quot-set (λ a. forget (without id a))
        (λ a b h. Quot.sound (without-SameTable id a b h))
