-- ===== src/Query/Scans.antt =====
-- src/MiniDB/Engine/QueryEngine.cpp: the queries, each a scan with its own round.
use mini_database.Prelude.{
  ℕ, ◌+◌, Bool, true, false, not, ◌&&◌, Option, none, some, List, [], ◌∷◌, ◌++◌, String, ltb, leb,
  if◌then◌else◌, ◌>>=◌, length,
}
use mini_database.Common.{ok}
use mini_database.Packages.Json.{JsonLib, pos}
use mini_database.Packages.Pool.{PoolLib}
use mini_database.Packages.Sort.{SortLib}
use mini_database.Record
use mini_database.Record.{Record}
use mini_database.Table
use mini_database.Table.{Table, IdMap}
use mini_database.Query.{
  FilterPredicate, SortCondition, QueryResult, Loop, more, stop, threw, evaluate_all, finish_select,
  each_page,
}

-- The variables after the loops.
unfoldable pub outcome : {A : Type 0} → Loop A → Option A
outcome (more a) = some a
outcome (stop a) = some a
outcome threw = none

module _ (J : JsonLib) where
  open J use {
    Double, is_number, as_number, double_lt, double_add, double_div, double_zero, double_of,
  }

  -- A round of select's loops.
  unfoldable pub select_round :
      List (FilterPredicate J) → ℕ → Record J → QueryResult J → Loop (QueryResult J)
  select_round predicates limit r result = elim (evaluate_all J r predicates) [
    | none ↦ threw
    | some false ↦ more result
    | some true ↦
        let next : QueryResult J = record result {
          records = result.records ++ r ∷ [];
          total_matched = result.total_matched + 1;
        } in
        if ltb 0 limit && leb limit (length next.records) then stop next else more next
  ]

  -- A round of count's loops.
  unfoldable pub count_round : List (FilterPredicate J) → Record J → ℕ → Loop ℕ
  count_round predicates r total = elim (evaluate_all J r predicates) [
    | none ↦ threw
    | some matched ↦ more (if matched then total + 1 else total)
  ]

  -- The common part of the rounds of sum, avg, max and min: what is done with a matching record's
  -- number in the field.
  unfoldable pub number_round :
      {A : Type 0} → List (FilterPredicate J) → String → (Double → A → A) → Record J → A → Loop A
  number_round predicates field use_number r a = elim (evaluate_all J r predicates) [
    | none ↦ threw
    | some matched ↦
        if not matched
        then more a
        else if not (Record.has_field J r field)
        then more a
        else elim (Record.get_field_ref J r field) [
          | none ↦ threw
          | some val ↦
              if not (is_number val)
              then more a
              else elim (as_number val) [ none ↦ threw | some num ↦ more (use_number num a) ]
        ]
  ]

  -- What sum, avg, max and min do with a number.
  unfoldable pub add_number : Double → Double → Double
  add_number num total = double_add total num

  unfoldable pub add_counted : Double → Double × ℕ → Double × ℕ
  add_counted num (total, count) = (double_add total num, count + 1)

  unfoldable pub keep_max : Double → Double × Bool → Double × Bool
  keep_max num (result, found) =
      if not found
      then (num, true)
      else if double_lt result num
      then (num, true)
      else (result, found)

  unfoldable pub keep_min : Double → Double × Bool → Double × Bool
  keep_min num (result, found) =
      if not found
      then (num, true)
      else if double_lt num result
      then (num, true)
      else (result, found)

module _ (J : JsonLib) (P : PoolLib) (M : IdMap) (L : SortLib (Record J)) where
  open J use {Double, double_div, double_zero, double_of}

  abbrev pub no_result : QueryResult J
  no_result = record { records = []; total_matched = 0; status = ok }

  -- select; none where an exception leaves it or std::sort's behaviour is undefined
  unfoldable pub select :
      Table J P M → List (FilterPredicate J) → Option SortCondition → ℕ → Option (QueryResult J)
  select table predicates sort limit = do
    result ← outcome (each_page J P (select_round J predicates limit) table.pages no_result)
    finish_select J L (record result { status = ok }) sort

  -- selectAll
  unfoldable pub select_all : Table J P M → Option (QueryResult J)
  unfolding select
  select_all table = select table [] none 0

  -- selectByID
  unfoldable pub select_by_id : Table J P M → ℕ → Option (QueryResult J)
  select_by_id table id = elim (Table.get_record J P M table id) [
    | none ↦ none
    | some (some out, ok) ↦ some (record { records = out ∷ []; total_matched = 1; status = ok })
    | some (_, s) ↦ some (record no_result { status = s })
  ]

  -- count
  unfoldable pub count : Table J P M → List (FilterPredicate J) → Option ℕ
  count table predicates = outcome (each_page J P (count_round J predicates) table.pages 0)

  -- sum
  unfoldable pub sum : Table J P M → String → List (FilterPredicate J) → Option Double
  sum table field predicates =
      outcome
        (each_page J P (number_round J predicates field (add_number J)) table.pages double_zero)

  -- avg
  unfoldable pub avg : Table J P M → String → List (FilterPredicate J) → Option Double
  avg table field predicates = do
    (total, count) ← outcome (
        each_page J P (number_round J predicates field (add_counted J)) table.pages
          (double_zero, 0))
    some (if ltb 0 count then double_div total (double_of (pos count)) else double_zero)

  -- max
  unfoldable pub max : Table J P M → String → List (FilterPredicate J) → Option Double
  max table field predicates = do
    (result, found) ← outcome (
        each_page J P (number_round J predicates field (keep_max J)) table.pages
          (double_zero, false))
    some result

  -- min
  unfoldable pub min : Table J P M → String → List (FilterPredicate J) → Option Double
  min table field predicates = do
    (result, found) ← outcome (
        each_page J P (number_round J predicates field (keep_min J)) table.pages
          (double_zero, false))
    some result
