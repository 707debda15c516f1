-- ===== src/Witness/Saves.antt =====
-- The theorems about parallel saves at a database of one table, whose task opens, writes, flushes, closes
-- and renames its file.
use mini_database.Prelude.{◌+◌, ◌≤◌, refl, none, [], ◌∷◌}
use mini_database.Common.{ok}
use mini_database.FileIo.Steps.{advance}
use mini_database.Serializer.{export_table_to_json}
use mini_database.Database
use mini_database.Database.{Database, Cell}
use mini_database.Concurrency.{keep_status}
use mini_database.Concurrency.Saves.{
  Job, Saving, returned, SaveReach, here, next, enqueue, collect, call, get, return, next_call,
  start_saving, save_job, save_all_tables_parallel,
}
use mini_database.Concurrency.Saved.{Answered}
use mini_database.Concurrency.Ending.{IsLive, remaining, work_left}
use mini_database.Concurrency.Parallel.{
  saves, save_all_tables_parallel-Answered, save_all_tables_parallel-progress,
}
use mini_database.Witness.ToyCache.{toy_text}
use mini_database.Witness.ToyFiles.{Directory, toy_files}
use mini_database.Witness.Records.{J}
use mini_database.Witness.Pages.{P}
use mini_database.Witness.Tables.{M}
use mini_database.Witness.Databases.{N}
use mini_database.Witness.Saved.{school, table, disk}

abbrev task : Job
task = save_job J P M toy_text "backup" (record { address = 0; value = table none })

abbrev opened : Job × Directory
opened = next_call toy_files task disk

abbrev written : Job × Directory
written = next_call toy_files opened.0 opened.1

abbrev synced : Job × Directory
synced = next_call toy_files written.0 written.1

abbrev closed : Job × Directory
closed = next_call toy_files synced.0 synced.1

abbrev renamed : Job × Directory
renamed = next_call toy_files closed.0 closed.1

abbrev after : Saving toy_files
after = record { caller = returned (keep_status ok ok); jobs = renamed.0 ∷ []; world = renamed.1 }

schedule :
    SaveReach toy_files
      (save_all_tables_parallel J P M toy_text N toy_files (school none) "backup" disk)
      9
      after
unfolding save_all_tables_parallel start_saving save_job next_call advance Database.get_tables
    export_table_to_json
schedule =
    next
      (next
        (next
          (next
            (next
              (next
                (next (next (next here (enqueue task [] refl refl)) (call [] [] task tt refl refl))
                  (call [] [] opened.0 tt refl refl))
                (collect refl refl))
              (call [] [] written.0 tt refl refl))
            (call [] [] synced.0 tt refl refl))
          (call [] [] closed.0 tt refl refl))
        (get 0 ok renamed.0 ok refl refl refl refl))
      (return 1 (keep_status ok ok) refl refl refl)

save_all_tables_parallel-Answered_example :
    Answered toy_files disk
      (saves J P M N toy_text (school none) "backup")
      after.jobs
      after.world
      after.caller
save_all_tables_parallel-Answered_example =
    save_all_tables_parallel-Answered J P M N toy_text toy_files (school none) "backup" disk 9 after
      (tt, tt) schedule

save_all_tables_parallel-progress_example :
    IsLive toy_files after
    × (9 + remaining toy_files after
        ≤ work_left 2 (saves J P M N toy_text (school none) "backup") + 2)
save_all_tables_parallel-progress_example =
    save_all_tables_parallel-progress J P M N toy_text toy_files (school none) "backup" disk 9 after
      (tt, tt) schedule
