-- ===== src/Query/Select.antt =====
-- Engine/QueryEngine.cpp: select against a filter of the live records.
use mini_database.Prelude.{
  ℕ, ◌≡◌, refl, sym, subst, All, Option, none, some, List, [], arith, length,
}
use mini_database.Common.{ok}
use mini_database.Packages.Json.{JsonLib}
use mini_database.Packages.Pool.{PoolLib}
use mini_database.Packages.Sort.{SortLib}
use mini_database.Record.{Record}
use mini_database.Table.{Table, IdMap}
use mini_database.Query.{FilterPredicate, SortCondition, QueryResult, finish_select}
use mini_database.Query.Scans.{select_round, select, no_result}
use mini_database.Query.Filtering.{filtered, limited, result_of, select_round-all}
use mini_database.Query.Order.{IsKeyed, Ordered, finish_select-Ordered}
use mini_database.Query.Rows.{live_records, each_page-live}

module _ (J : JsonLib) (L : SortLib (Record J)) where
  -- A sort, if one is given, by a field in which all records have a number that is not NaN.
  abbrev pub IsSortable : Option SortCondition → List (Record J) → Type 0
  IsSortable none rs = Unit
  IsSortable (some sort) rs = All (IsKeyed J sort.field) rs

  -- The records as they are if no sort is given, or in the sort's order.
  abbrev pub Arranged : Option SortCondition → List (Record J) → List (Record J) → Type 0
  Arranged none before after = after ≡ before
  Arranged (some sort) before after = Ordered J L sort before after

  -- An answer with these records, arranged.
  abbrev pub Answered : Option SortCondition → List (Record J) → Option (QueryResult J) → Type 0
  Answered sort rs answer =
      (result : QueryResult J) × (answer ≡ some result)
      × Arranged sort rs result.records
      × (result.total_matched ≡ length rs)
      × (result.status ≡ ok)

  finish_select-Answered :
      (sort : Option SortCondition) (rs : List (Record J))
      → IsSortable sort rs
      → Answered sort rs (finish_select J L (result_of J rs) sort)
  unfolding finish_select
  finish_select-Answered none rs h = (result_of J rs, refl, refl, refl, refl)
  finish_select-Answered (some sort) rs h = finish_select-Ordered J L (result_of J rs) sort h

module _ (J : JsonLib) (P : PoolLib) (M : IdMap) (L : SortLib (Record J)) where
  -- select, without a sort or with one by a field in which the records that it finds have numbers that are
  -- not NaN, answers ok, and raises nothing. Its records are the live records that satisfy all
  -- predicates, in the order of the pages, cut off at the limit if that is not 0, and then put in the
  -- sort's order if one is given. totalMatched is their number after the cutoff.
  pub select-filtered :
      (t : Table J P M) (ps : List (FilterPredicate J)) (sort : Option SortCondition) (limit : ℕ)
      → IsSortable J L sort (limited J limit (filtered J ps (live_records J P t.pages)))
      → Answered J L sort
          (limited J limit (filtered J ps (live_records J P t.pages)))
          (select J P M L t ps sort limit)
  unfolding select
  select-filtered t ps sort limit sortable =
      let rs : List (Record J) = limited J limit (filtered J ps (live_records J P t.pages)) in
      let scanned : select J P M L t ps sort limit ≡ finish_select J L (result_of J rs) sort =
        rw (each_page-live J P (select_round J ps limit) t.pages (no_result J P M L), select)
          (rw (select_round-all J P ps limit (live_records J P t.pages) [] (ground arith)) refl) in
      subst (Answered J L sort rs) (sym scanned) (finish_select-Answered J L sort rs sortable)
