-- ===== src/Table/Reads.antt =====
-- Core/Table.cpp: getRecord against a scan of all pages.
use mini_database.Prelude.{ℕ, ◌≡◌, Option-cases, inl, inr, Option, none, some, arith, get_elem?}
use mini_database.Common.{Status, ok, not_found}
use mini_database.Packages.Json.{JsonLib}
use mini_database.Packages.Pool.{PoolLib}
use mini_database.Page.Lookup.{get_record-some}
use mini_database.Table.{Table, IdMap, get_record}
use mini_database.Table.Finding.{value}
use mini_database.Table.Invariant.{IsConsistent, find_page_by_id_lem, contains-index, located}

abbrev pub found_or_not {ℓ} : {A : Type ℓ} → Option A → Option A × Status
found_or_not none = (none, not_found)
found_or_not (some a) = (some a, ok)

module _ (J : JsonLib) (P : PoolLib) (M : IdMap) where
  -- On a consistent table getRecord, which goes through both indexes, answers ok and the live record
  -- that a scan of all pages finds, or NOT_FOUND if there is none. It does not raise.
  pub get_record-value :
      (t : Table J P M) (id : ℕ)
      → IsConsistent J P M t
      → get_record J P M t id ≡ some (found_or_not (value J P id t.pages))
  unfolding get_record
  get_record-value t id inv = elim (Option-cases (value J P id t.pages)) [
    | inl e ↦ ground (arith, contains-index J P M t inv id)
    | inr (r, e) ↦
        let (pid, at_eq, l) = located J P M t inv id r e in
        let (k, at_k, at_r) = get_record-some J P l.page id l.found l.seen_eq in
        let lv : value J P id t.pages ≡ some l.found = l.value_eq in
        let pe : get_elem? t.pages l.position ≡ some l.page = l.page_eq in
        ground (
          arith,
          contains-index J P M t inv id,
          find_page_by_id_lem J P M t inv pid,
          at_eq,
          l.position_eq,
          at_k,
          at_r,
        )
  ]
