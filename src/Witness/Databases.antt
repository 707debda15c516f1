-- ===== src/Witness/Databases.antt =====
-- The theorems about databases at one with a table.
use mini_database.Prelude.{
  ℕ, ◌+◌, ◌<◌, ◌^◌, ◌≡◌, none, some, is_some, Option, String, str_eq, ◌&&◌, arith, if◌then◌else◌,
}
use mini_database.Common.{Status}
use mini_database.Table.Contract.{is_ok}
use mini_database.Database
use mini_database.Database.{Database, NameMap}
use mini_database.Database.Invariant.{IsConsistent, make-IsConsistent, view, pointee, drop_status}
use mini_database.Database.Tables.{get_table-view, Created, create_table-Created, drop_table-view}
use mini_database.Witness.Toy.{toy_names}
use mini_database.Witness.Records.{J, people}
use mini_database.Witness.Pages.{P}
use mini_database.Witness.Tables.{M}

abbrev pub N : NameMap
N = toy_names

abbrev none_yet : Database J P M N
none_yet = Database.make J P M N "school"

none_yet-IsConsistent : IsConsistent J P M N none_yet
none_yet-IsConsistent = make-IsConsistent J P M N "school"

none_yet-more : none_yet.next_table_id + 1 < 2 ^ 32
unfolding Database.make
none_yet-more = omega arith

create_table-Created_example :
    Created J P M N none_yet none_yet-IsConsistent "people" people
      (Database.create_table J P M N none_yet "people" people)
create_table-Created_example =
    create_table-Created J P M N none_yet none_yet-IsConsistent "people" people none_yet-more

abbrev one : Database J P M N
one = (Database.create_table J P M N none_yet "people" people).0

one-IsConsistent : IsConsistent J P M N one
one-IsConsistent =
    (create_table-Created J P M N none_yet none_yet-IsConsistent "people" people none_yet-more).1

get_table-view_example :
    (answer : Option ℕ) × (Database.get_table J P M N one "people" ≡ some answer)
    × (pointee J P M N one answer ≡ view J P M N one "people")
    × (is_some answer ≡ is_some (view J P M N one "people"))
get_table-view_example = get_table-view J P M N one one-IsConsistent "people"

drop_table-view_example :
    (after : Database J P M N) × (status : Status) × (Database.drop_table J P M N one "people"
      ≡ some (after, status))
    × (status ≡ drop_status J P M N (view J P M N one "people"))
    × IsConsistent J P M N after
    × ((other : String)
        → view J P M N after other
          ≡ (if is_ok status && str_eq "people" other then none else view J P M N one other))
drop_table-view_example = drop_table-view J P M N one one-IsConsistent "people"
