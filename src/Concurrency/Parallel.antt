-- ===== src/Concurrency/Parallel.antt =====
-- Engine/Concurrency.cpp, sections 3 and 5: saveAllTablesParallel and exportAllTablesParallel.
use mini_database.Prelude.{ℕ, ◌+◌, ◌≤◌, refl, List, map, String}
use mini_database.Packages.Json.{JsonLib}
use mini_database.Packages.Pool.{PoolLib}
use mini_database.Packages.Text.{TextLib}
use mini_database.Packages.Files.{Files}
use mini_database.Table.{IdMap}
use mini_database.Database
use mini_database.Database.{Database, NameMap}
use mini_database.Concurrency.Saves.{
  Job, Saving, SaveReach, save_job, export_job, save_all_tables_parallel,
  export_all_tables_parallel,
}
use mini_database.Concurrency.Saving.{AllApart}
use mini_database.Concurrency.Saved.{Answered, AllOpening-map, saves-Answered}
use mini_database.Concurrency.Ending.{IsLive, remaining, work_left, saves-progress}

module _ (J : JsonLib) (P : PoolLib) (M : IdMap) (N : NameMap) (T : TextLib) (db : Database J P M N)
    (place : String) where
  -- What the tasks write.
  abbrev pub saves : List Job
  saves = map (save_job J P M T place) db.tables

  abbrev exports : List Job
  exports = map (export_job J P M T place) db.tables

module _ (J : JsonLib) (P : PoolLib) (M : IdMap) (N : NameMap) (T : TextLib) (F : Files)
    (db : Database J P M N) (place : String) (w : Files.World F) (n : ℕ) (s : Saving F) where
  -- saveAllTablesParallel on a database whose tables are written to different files, whatever the order
  -- in which the tasks' system calls happen. When it has returned, each table's task has ended with ok
  -- and the table's file holds its export, or with IO_ERROR and the file is what it was before, or
  -- there is still none; the status is the last of the tasks' that is not ok, in the order of the
  -- tables, or ok. When an exception has left it, a task has thrown, whose file is what it was before.
  pub save_all_tables_parallel-Answered :
      AllApart F (saves J P M N T db place)
      → SaveReach F (save_all_tables_parallel J P M T N F db place w) n s
      → Answered F w (saves J P M N T db place) s.jobs s.world s.caller
  unfolding save_all_tables_parallel save_job Database.get_tables
  save_all_tables_parallel-Answered apart =
      saves-Answered F w (saves J P M N T db place) n s apart
        (AllOpening-map (save_job J P M T place) db.tables (λ c. refl))

  -- exportAllTablesParallel likewise.
  export_all_tables_parallel-Answered :
      AllApart F (exports J P M N T db place)
      → SaveReach F (export_all_tables_parallel J P M T N F db place w) n s
      → Answered F w (exports J P M N T db place) s.jobs s.world s.caller
  unfolding export_all_tables_parallel export_job Database.get_tables
  export_all_tables_parallel-Answered apart =
      saves-Answered F w (exports J P M N T db place) n s apart
        (AllOpening-map (export_job J P M T place) db.tables (λ c. refl))

  -- saveAllTablesParallel on a database whose tables are written to different files ends, whatever the
  -- order in which the tasks' system calls happen: it has returned, an exception has left it, or there
  -- is a next step, and no more steps are taken than seven for each table, one for each byte of the
  -- exports, and two.
  pub save_all_tables_parallel-progress :
      AllApart F (saves J P M N T db place)
      → SaveReach F (save_all_tables_parallel J P M T N F db place w) n s
      → IsLive F s × (n + remaining F s ≤ work_left 2 (saves J P M N T db place) + 2)
  unfolding save_all_tables_parallel save_job Database.get_tables
  save_all_tables_parallel-progress apart =
      saves-progress F w (saves J P M N T db place) n s apart
        (AllOpening-map (save_job J P M T place) db.tables (λ c. refl))
