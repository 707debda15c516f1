-- ===== src/Witness/Tasks.antt =====
-- The theorems about runParallel at two tables, of which the second is rebuilt first.
use mini_database.Prelude.{◌≡◌, refl, List, [], ◌∷◌, map}
use mini_database.Common.{Status, ok}
use mini_database.Database.{Cell}
use mini_database.Concurrency.{
  System, Task, waiting, finished, returned, start, keep_status, enqueue, collect, run, get, return,
  Reach, here, next, rebuild_task,
}
use mini_database.Concurrency.Results.{
  last_failure, new_table, status_of, table_of, run_parallel-result,
}
use mini_database.Witness.Records.{J}
use mini_database.Witness.Pages.{P}
use mini_database.Witness.Tables.{M, sample_table}
use mini_database.Witness.Databases.{N}

abbrev first : Cell J P M
first = record { address = 0; value = sample_table }

abbrev second : Cell J P M
second = record { address = 1; value = record sample_table { id = 2; name = "more" } }

abbrev tables : List (Cell J P M)
tables = first ∷ second ∷ []

abbrev rebuild : Cell J P M → Cell J P M × Status
rebuild = rebuild_task J P M N

abbrev done : Cell J P M → Task (Cell J P M)
done c = finished (rebuild c).0 (rebuild c).1

abbrev after : System (Cell J P M)
after = record {
  caller = returned (keep_status (keep_status ok (rebuild first).1) (rebuild second).1);
  tasks = done first ∷ done second ∷ [];
}

schedule : Reach rebuild tables 8 after
unfolding start
schedule =
    next
      (next
        (next
          (next
            (next
              (next
                (next (next here (enqueue first (second ∷ []) refl refl))
                  (enqueue second [] refl refl))
                (run (waiting first ∷ []) [] second refl refl))
              (collect refl refl))
            (run [] (done second ∷ []) first refl refl))
          (get 0 ok (rebuild first).0 (rebuild first).1 refl refl refl))
        (get 1 (keep_status ok (rebuild first).1) (rebuild second).0 (rebuild second).1 refl refl
          refl))
      (return 2 (keep_status (keep_status ok (rebuild first).1) (rebuild second).1) refl refl refl)

run_parallel-result_example :
    (map table_of after.tasks ≡ map (new_table rebuild) tables)
    × (keep_status (keep_status ok (rebuild first).1) (rebuild second).1
        ≡ last_failure (map (status_of rebuild) tables))
run_parallel-result_example =
    run_parallel-result rebuild tables 8 after
      (keep_status (keep_status ok (rebuild first).1) (rebuild second).1) schedule refl
