-- ===== src/Table/Contract.antt =====
-- What a table promises: it is a map from ids to records, and each operation is one change of it.
use mathlib.Core.Option
use mini_database.Prelude.{
  ℕ, ◌≡◌, refl, Bool, true, false, ◌&&◌, Option, none, some, is_some, ◌==◌, if◌then◌else◌,
}
use mini_database.Common.{Status, ok, not_found, duplicate_key}
use mini_database.Packages.Json.{JsonLib}
use mini_database.Packages.Pool.{PoolLib}
use mini_database.Record.{Record}
use mini_database.Page.Effects.{copied}
use mini_database.Table.{Table, IdMap}
use mini_database.Table.Finding.{value}
use mini_database.Table.Invariant.{IsConsistent}

abbrev pub is_ok : Status → Bool
is_ok ok = true
is_ok _ = false

module _ (J : JsonLib) (P : PoolLib) (M : IdMap) where
  abbrev pub View : Type 0
  View = ℕ → Option (Record J)

  abbrev pub view : Table J P M → View
  view t id = value J P id t.pages

  -- The status of an operation on a valid record, by whether its id is there.
  abbrev pub insert_status : Status → Option (Record J) → Status
  insert_status ok old = if is_some old then duplicate_key else ok
  insert_status s old = s

  abbrev pub update_status : Status → Option (Record J) → Status
  update_status ok old = if is_some old then ok else not_found
  update_status s old = s

  abbrev pub delete_status : Option (Record J) → Status
  delete_status old = if is_some old then ok else not_found

  -- The map afterwards: as before where the operation fails.
  abbrev pub inserted : View → Record J → Status → View
  inserted v r s j = if is_ok s && r.id == j then some (copied J P r) else v j

  abbrev pub updated : View → Record J → Status → View
  updated v r s j =
      if is_ok s && r.id == j
      then Option.map (λ (x : Record J). record x { fields = r.fields }) (v j)
      else v j

  abbrev pub deleted : View → ℕ → Status → View
  deleted v id s j = if is_ok s && id == j then none else v j

  -- The operation raises nothing and follows no dangling pointer; it returns the status, and leaves a
  -- consistent table with this map and the schema as it was.
  pub record Refines (t : Table J P M) (o : Option (Table J P M × Status)) (s : Status) (v : View)
      : Type 0 where
    pub after : Table J P M
    pub result : o ≡ some (after, s)
    pub consistent : IsConsistent J P M after
    pub view_eq : (j : ℕ) → view after j ≡ v j
    pub schema_eq : after.schema ≡ t.schema

  pub unchanged :
      (t : Table J P M) {o : Option (Table J P M × Status)} {s : Status} {v : View}
      → IsConsistent J P M t
      → o ≡ some (t, s)
      → ((j : ℕ) → view t j ≡ v j)
      → Refines t o s v
  unchanged t inv e same = record {
    after = t;
    result = e;
    consistent = inv;
    view_eq = same;
    schema_eq = refl;
  }
