-- ===== src/Witness/Queries.antt =====
-- The theorems about queries at the sample table.

use mini_database.Prelude.{
  ℕ, ◌≡◌, refl, true, false, some, List, [], ◌∷◌, arith, All, if◌then◌else◌, length, ltb,
}
use mini_database.Common.{gte, asc}
use mini_database.Packages.Json.{JsonLib, pos, negsuc}
use mini_database.Packages.Sort.{SortLib, StrictWeak}
use mini_database.Record
use mini_database.Record.{Record}
use mini_database.Query.Scans
use mini_database.Query.{
  FilterPredicate, SortCondition, QueryResult, precedes, or_false, finish_select, compare_values,
}
use mini_database.Query.Scans.{select, count, add_number}
use mini_database.Query.Filtering.{filtered, limited, result_of}
use mini_database.Query.Select.{IsSortable, Answered, select-filtered}
use mini_database.Query.Values.{matches, holds}
use mini_database.Query.Rows.{live_cells, live_records}
use mini_database.Query.Aggregates.{
  fold, numbers, matching, IsNumber, number_of, count-sum-avg, IsBest, max-min-IsBest,
}
use mini_database.Query.Order.{
  IsKeyed, is_keyed, Ordered, less_by, key_of, finish_select-Ordered, missing-not-StrictWeak,
}
use mini_database.Witness.ToyJson.{obj, field, end, num}
use mini_database.Witness.ToySort.{toy_sort}
use mini_database.Witness.Records.{J}
use mini_database.Witness.Pages.{P}
use mini_database.Witness.Tables.{M, sample_table}

abbrev L : SortLib (Record J)
L = toy_sort (Record J)

abbrev grown_up : List (FilterPredicate J)
grown_up = record { field = "age"; op = gte; value = num (pos 18) } ∷ []

abbrev by_age : SortCondition
by_age = record { field = "age"; order = asc }

abbrev person : ℕ → ℕ → Record J
person id age = record { id = id; fields = obj (field "age" (num (pos age)) end); deleted = false }

abbrev blank : Record J
blank = record { id = 9; fields = obj end; deleted = false }

abbrev adults : List (Record J)
adults = limited J 1 (filtered J grown_up (live_records J P sample_table.pages))

adults-IsSortable : IsSortable J L (some by_age) adults
unfolding is_keyed number_of filtered live_records live_cells matches holds compare_values
adults-IsSortable = (refl, tt)

select-filtered_example :
    Answered J L (some by_age) adults (select J P M L sample_table grown_up (some by_age) 1)
select-filtered_example =
    select-filtered J P M L sample_table grown_up (some by_age) 1 adults-IsSortable

abbrev ages : List (JsonLib.Double J)
ages = numbers J "age" (matching J P M L sample_table grown_up)

count-sum-avg_example :
    (count J P M L sample_table grown_up ≡ some (length (matching J P M L sample_table grown_up)))
    × (Scans.sum J P M L sample_table "age" grown_up
        ≡ some (fold (add_number J) J.double_zero ages))
    × (Scans.avg J P M L sample_table "age" grown_up
        ≡ some (
            if ltb 0 (length ages)
            then J.double_div
                (fold (add_number J) J.double_zero ages)
                (J.double_of (pos (length ages)))
            else J.double_zero))
count-sum-avg_example = count-sum-avg J P M L sample_table grown_up "age"

double-IsNumber : (d : JsonLib.Double J) → IsNumber J d
double-IsNumber (pos n) = ground arith
double-IsNumber (negsuc n) = ground arith

doubles-IsNumber : (ds : List (JsonLib.Double J)) → All (IsNumber J) ds
doubles-IsNumber [] = tt
doubles-IsNumber (d ∷ ds) = (double-IsNumber d, doubles-IsNumber ds)

ages_numbers : All (IsNumber J) ages
ages_numbers = doubles-IsNumber ages

max-min-IsBest_example :
    IsBest J P M L sample_table grown_up "age"
      (λ a b. J.double_lt b a)
      (Scans.max J P M L sample_table "age" grown_up)
    × IsBest J P M L sample_table grown_up "age" J.double_lt
        (Scans.min J P M L sample_table "age" grown_up)
max-min-IsBest_example = max-min-IsBest J P M L sample_table grown_up "age" ages_numbers

person-IsKeyed : (id age : ℕ) → IsKeyed J "age" (person id age)
unfolding is_keyed number_of
person-IsKeyed id age = ground arith

abbrev three : QueryResult J
three = result_of J (person 1 50 ∷ person 2 20 ∷ person 3 36 ∷ [])

three-IsKeyed : All (IsKeyed J "age") three.records
three-IsKeyed = (person-IsKeyed 1 50, (person-IsKeyed 2 20, (person-IsKeyed 3 36, tt)))

finish_select-Ordered_example :
    (sorted : QueryResult J) × (finish_select J L three (some by_age) ≡ some sorted)
    × Ordered J L by_age three.records sorted.records
    × (sorted.total_matched ≡ three.total_matched)
    × (sorted.status ≡ three.status)
finish_select-Ordered_example = finish_select-Ordered J L three by_age three-IsKeyed

blank-missing : Record.has_field J blank "age" ≡ false
unfolding Record.has_field
blank-missing = refl

younger : less_by J asc (key_of J "age" (person 1 20)) (key_of J "age" (person 2 50)) ≡ true
unfolding less_by key_of number_of
younger = refl

missing-not-StrictWeak_example :
    ¬ StrictWeak (λ r. Unit) (λ x y. or_false J (precedes J by_age x y))
missing-not-StrictWeak_example =
    missing-not-StrictWeak J by_age (person 1 20) blank (person 2 50) (person-IsKeyed 1 20)
      blank-missing (person-IsKeyed 2 50) younger
