-- ===== src/Witness/Tables.antt =====
-- The theorems about tables at a table with one page.
use mini_database.Prelude.{
  ℕ, ◌≡◌, refl, true, none, some, Option, [], ◌∷◌, arith, if◌then◌else◌, ◌≤◌, ◌==◌,
}
use mini_database.Common.{Status, ok}
use mini_database.Record
use mini_database.Record.{Record}
use mini_database.Page.{is_live}
use mini_database.Page.Lookup.{find_value, count_live}
use mini_database.Table.{
  Table, IdMap, get_record, update_record, delete_record, insert_record, compact, rebuild_index,
}
use mini_database.Table.Finding.{position_of, owner, value, count}
use mini_database.Table.Invariant.{IsConsistent}
use mini_database.Table.Reads.{found_or_not, get_record-value}
use mini_database.Table.Contract.{
  Refines, view, update_status, updated, delete_status, deleted, insert_status, inserted,
}
use mini_database.Table.Writes.{update_record-Refines}
use mini_database.Table.Deletes.{delete_record-Refines}
use mini_database.Table.Inserts.{insert_record-Refines}
use mini_database.Table.Maintenance.{compact-IsConsistent}
use mini_database.Table.Rebuilding.{rebuild_index-IsConsistent}
use mini_database.Witness.Toy.{toy_map}
use mini_database.Witness.Records.{J, ada, people}
use mini_database.Witness.Pages.{P, sample, sample-IsWellFormed}

abbrev pub M : IdMap
M = toy_map

abbrev pub sample_table : Table J P M
sample_table = record {
  name = "people";
  id = 1;
  schema = people;
  pages = sample ∷ [];
  index = λ k. if 7 == k then some 0 else none;
  page_index = λ k. if 0 == k then some 0 else none;
  next_page_id = 1;
  dirty = true;
}

once : (rid : ℕ) → count J P rid (sample ∷ []) ≤ 1
unfolding count count_live is_live Record.is_deleted Record.get_id
once rid = ground arith

sample-IsConsistent : IsConsistent J P M sample_table
unfolding owner position_of find_value is_live Record.is_deleted Record.get_id
sample-IsConsistent = record {
  ids = λ pid. ground arith;
  owners = λ rid. ground arith;
  distinct = (refl, tt);
  below = (omega arith, tt);
  once = once;
  well_formed = (sample-IsWellFormed, tt);
}

get_record-value_example :
    get_record J P M sample_table 7 ≡ some (found_or_not (value J P 7 sample_table.pages))
get_record-value_example = get_record-value J P M sample_table 7 sample-IsConsistent

abbrev old : ℕ → Option (Record J)
old = view J P M sample_table

update_record-Refines_example :
    (c : Status) × (Record.validate J ada people ≡ some c)
    × Refines J P M sample_table
        (update_record J P M sample_table ada)
        (update_status J P M c (old 7))
        (updated J P M old ada (update_status J P M c (old 7)))
update_record-Refines_example = update_record-Refines J P M sample_table sample-IsConsistent ada

delete_record-Refines_example :
    Refines J P M sample_table
      (delete_record J P M sample_table 7)
      (delete_status J P M (old 7))
      (deleted J P M old 7 (delete_status J P M (old 7)))
delete_record-Refines_example = delete_record-Refines J P M sample_table sample-IsConsistent 7

abbrev bob : Record J
bob = record ada { id = 8 }

insert_record-Refines_example :
    (c : Status) × (Record.validate J bob people ≡ some c)
    × Refines J P M sample_table
        (insert_record J P M sample_table bob)
        (insert_status J P M c (old 8))
        (inserted J P M old bob (insert_status J P M c (old 8)))
insert_record-Refines_example =
    insert_record-Refines J P M sample_table sample-IsConsistent (omega arith) bob

-- the same pages, with indexes that say nothing
abbrev unindexed : Table J P M
unindexed = record sample_table { index = λ k. none; page_index = λ k. none }

rebuild_index-IsConsistent_example :
    IsConsistent J P M (rebuild_index J P M unindexed).0
    × ((rebuild_index J P M unindexed).1 ≡ ok)
    × ((rebuild_index J P M unindexed).0.pages ≡ unindexed.pages)
unfolding position_of
rebuild_index-IsConsistent_example =
    rebuild_index-IsConsistent J P M unindexed (refl, tt) (omega arith, tt) once
      (sample-IsWellFormed, tt)

compact-IsConsistent_example :
    IsConsistent J P M (compact J P M sample_table).0
    × ((compact J P M sample_table).1 ≡ ok)
    × ((id : ℕ) → view J P M (compact J P M sample_table).0 id ≡ view J P M sample_table id)
compact-IsConsistent_example = compact-IsConsistent J P M sample_table sample-IsConsistent
