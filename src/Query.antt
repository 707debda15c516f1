-- ===== src/Query.antt =====
-- src/MiniDB/Engine/QueryEngine.cpp and include/MiniDB/Engine/QueryEngine.h: scans of a table. `none` in a
-- result is an exception. The arena is scratch memory that no query allocates from; counters of type
-- size_t stay below 2^64, so they are not reduced.
pub mod Scans
pub mod Values
pub mod Rows
pub mod Filtering
pub mod Select
pub mod Order
pub mod Aggregates
use Prim.Native.Nat.{Ordering}
use Prim.Native.String.{compare as str_compare}
use mini_database.Prelude.{
  ℕ, zero, suc, ◌+◌, Bool, true, false, not, ◌&&◌, Option, none, some, List, [], ◌∷◌, ◌++◌, String,
  str_eq, ltb, leb, if◌then◌else◌, ◌>>=◌, length,
}
use mini_database.Common.{Status, ok, Op, eq, neq, gt, gte, lt, lte, SortOrder, asc, desc}
use mini_database.Packages.Json.{JsonLib, pos}
use mini_database.Packages.Pool.{PoolLib}
use mini_database.Packages.Sort.{SortLib}
use mini_database.Record
use mini_database.Record.{Record}
use mini_database.Page
use mini_database.Page.{Page}
use mini_database.Table
use mini_database.Table.{Table, IdMap}

-- struct FilterPredicate
pub record FilterPredicate (J : JsonLib) : Type 0 where
  pub field : String
  pub op : Op
  pub value : JsonLib.Json J

-- struct SortCondition
pub record SortCondition : Type 0 where
  pub field : String
  pub order : SortOrder

-- struct QueryResult
pub record QueryResult (J : JsonLib) : Type 0 where
  pub records : List (Record J)
  pub total_matched : ℕ
  pub status : Status

-- std::string's `<`, by bytes; in UTF-8 that is the order of the characters' numbers.
unfoldable pub str_lt : String → String → Bool
str_lt s t = elim (str_compare s t) [ Ordering.lt ↦ true | _ ↦ false ]

-- The three switches of compareValues.
unfoldable pub compare_strings : String → String → Op → Bool
unfolding str_lt
compare_strings a b eq = str_eq a b
compare_strings a b neq = not (str_eq a b)
compare_strings a b gt = str_lt b a
compare_strings a b gte = not (str_lt a b)
compare_strings a b lt = str_lt a b
compare_strings a b lte = not (str_lt b a)

unfoldable pub compare_bools : Bool → Bool → Op → Bool
compare_bools true b eq = b
compare_bools false b eq = not b
compare_bools true b neq = not b
compare_bools false b neq = b
compare_bools a b op = false

-- How a round of a scan ends: with the loop's variables, with a return out of the loops, or thrown.
pub data Loop (A : Type 0) : Type 0 where
  more stop : A → Loop A
  threw : Loop A

module _ (J : JsonLib) where
  open J use {
    Json, Double, is_string, is_number, is_bool, as_string, as_number, as_bool, double_eq,
    double_le, double_lt, double_add, double_div, double_zero, double_of,
  }

  unfoldable pub compare_numbers : Double → Double → Op → Bool
  compare_numbers a b eq = double_eq a b
  compare_numbers a b neq = not (double_eq a b)
  compare_numbers a b gt = double_lt b a
  compare_numbers a b gte = double_le b a
  compare_numbers a b lt = double_lt a b
  compare_numbers a b lte = double_le a b

  -- compareValues
  unfoldable pub compare_values : Json → Json → Op → Option Bool
  unfolding compare_strings compare_numbers compare_bools
  compare_values a b op =
      if is_string a && is_string b
      then (do sa ← as_string a; sb ← as_string b; some (compare_strings sa sb op))
      else if is_number a && is_number b
      then (do na ← as_number a; nb ← as_number b; some (compare_numbers na nb op))
      else if is_bool a && is_bool b
      then (do ba ← as_bool a; bb ← as_bool b; some (compare_bools ba bb op))
      else some false

  -- evaluatePredicate
  unfoldable pub evaluate_predicate : Record J → FilterPredicate J → Option Bool
  unfolding compare_values
  evaluate_predicate r p =
      if not (Record.has_field J r p.field)
      then some false
      else do val ← Record.get_field_ref J r p.field; compare_values val p.value p.op

  -- evaluateAll
  unfoldable pub evaluate_all : Record J → List (FilterPredicate J) → Option Bool
  unfolding evaluate_predicate
  evaluate_all r [] = some true
  evaluate_all r (p ∷ ps) = elim (evaluate_predicate r p) [
    | none ↦ none
    | some holds ↦ if not holds then some false else evaluate_all r ps
  ]

  -- The comparison that sortResults hands to std::sort.
  unfoldable pub precedes : SortCondition → Record J → Record J → Option Bool
  unfolding compare_values
  precedes sort a b = do
    fa ← Record.get_field_ref J a sort.field
    fb ← Record.get_field_ref J b sort.field
    elim sort.order [ asc ↦ compare_values fa fb lt | desc ↦ compare_values fb fa lt ]

  -- A comparison that throws does not return; no record makes this one throw.
  abbrev pub or_false : Option Bool → Bool
  or_false none = false
  or_false (some b) = b

  -- sortResults
  unfoldable pub sort_results :
      SortLib (Record J) → List (Record J) → SortCondition → Option (List (Record J))
  unfolding precedes
  sort_results L records sort = SortLib.sort L (λ a b. or_false (precedes sort a b)) records

  -- finishSelect; none where std::sort's behaviour is undefined
  unfoldable pub finish_select :
      SortLib (Record J) → QueryResult J → Option SortCondition → Option (QueryResult J)
  unfolding sort_results
  finish_select L result none = some result
  finish_select L result (some sort) =
      if ltb 1 (length result.records)
      then (do
        sorted ← sort_results L result.records sort
        some (record result { records = sorted }))
      else some result

module _ (J : JsonLib) (P : PoolLib) {A : Type 0} (body : Record J → A → Loop A) where
  -- The start of every scan's inner loop: null pointers and deleted records are passed over.
  unfoldable pub visit : Option (Record J) → A → Loop A
  visit none a = more a
  visit (some r) a = if Record.is_deleted J r then more a else body r a

  -- The inner loop of every scan: `rounds` is recordCount() - i.
  unfoldable pub each_record : ℕ → ℕ → Page J P → A → Loop A
  unfolding visit
  each_record zero i page a = more a
  each_record (suc rounds) i page a = elim (visit (Page.get_record_at J P page i) a) [
    | more a' ↦ each_record rounds (i + 1) page a'
    | stop a' ↦ stop a'
    | threw ↦ threw
  ]

  -- The outer loop of every scan.
  unfoldable pub each_page : List (Page J P) → A → Loop A
  unfolding each_record
  each_page [] a = more a
  each_page (page ∷ pages) a = elim (each_record (Page.record_count J P page) 0 page a) [
    | more a' ↦ each_page pages a'
    | stop a' ↦ stop a'
    | threw ↦ threw
  ]
