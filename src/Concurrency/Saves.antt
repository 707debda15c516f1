-- ===== src/Concurrency/Saves.antt =====
-- src/MiniDB/Engine/Concurrency.cpp, sections 3 and 5: the tasks of saveAllTablesParallel and
-- exportAllTablesParallel share the file system. Each is a call of writeFileAtomic, so a step of the pool
-- is one system call of one task, and the tasks' calls come in any order.
use Prim.Native.String.{◌++◌ as str_append}
use mini_database.Prelude.{
  ℕ, zero, suc, ◌≡◌, none, some, List, [], ◌∷◌, ◌++◌, map, String, length, get_elem?,
}
use mini_database.Common.{Status, ok}
use mini_database.Packages.Json.{JsonLib}
use mini_database.Packages.Pool.{PoolLib}
use mini_database.Packages.Text.{TextLib}
use mini_database.Packages.Files.{Files}
use mini_database.FileIo.Steps.{Phase, opening, ended, advance}
use mini_database.Table
use mini_database.Table.{IdMap}
use mini_database.Database
use mini_database.Database.{Database, NameMap, Cell}
use mini_database.Serializer.{export_table_to_json}
use mini_database.Concurrency.{keep_status}

-- A task: the file that it writes, what it writes, and where it stands.
pub record Job : Type 0 where
  pub path : String
  pub content : List ℕ
  pub phase : Phase

-- A task that still has a call to make.
abbrev pub IsPending : Phase → Type 0
IsPending (ended status) = ⊥
IsPending _ = Unit

-- Where runParallel stands, over tasks that can throw: in its two loops, behind its return, or left by
-- the exception of a task, which get() of the task's future throws again.
pub data SaveCaller : Type 0 where
  enqueuing : List Job → SaveCaller
  collecting : ℕ → Status → SaveCaller
  returned : Status → SaveCaller
  threw : SaveCaller

pub record Saving (F : Files) : Type 0 where
  pub caller : SaveCaller
  pub jobs : List Job
  pub world : Files.World F

module _ (F : Files) where
  unfoldable pub start_saving : List Job → Files.World F → Saving F
  start_saving jobs w = record { caller = enqueuing jobs; jobs = []; world = w }

  -- The task's next call.
  unfoldable pub next_call : Job → Files.World F → Job × Files.World F
  unfolding advance
  next_call j w =
      let (phase, w') = advance F j.path j.content j.phase w in (record j { phase = phase }, w')

  -- runParallel, over tasks that write files
  pub data SaveStep (s t : Saving F) : Type 0 where
    enqueue :
        (j : Job) (rest : List Job)
        → s.caller ≡ enqueuing (j ∷ rest)
        → t ≡ record s { caller = enqueuing rest; jobs = s.jobs ++ j ∷ [] }
        → SaveStep s t
    collect : s.caller ≡ enqueuing [] → t ≡ record s { caller = collecting 0 ok } → SaveStep s t
    call :
        (before after : List Job) (j : Job)
        → IsPending j.phase
        → s.jobs ≡ before ++ j ∷ after
        → t ≡ record s {
          jobs = before ++ (next_call j s.world).0 ∷ after;
          world = (next_call j s.world).1;
        }
        → SaveStep s t
    get :
        (n : ℕ) (final : Status) (j : Job) (status : Status)
        → s.caller ≡ collecting n final
        → get_elem? s.jobs n ≡ some j
        → j.phase ≡ ended (some status)
        → t ≡ record s { caller = collecting (suc n) (keep_status final status) }
        → SaveStep s t
    rethrow :
        (n : ℕ) (final : Status) (j : Job)
        → s.caller ≡ collecting n final
        → get_elem? s.jobs n ≡ some j
        → j.phase ≡ ended none
        → t ≡ record s { caller = threw }
        → SaveStep s t
    return :
        (n : ℕ) (final : Status)
        → s.caller ≡ collecting n final
        → n ≡ length s.jobs
        → t ≡ record s { caller = returned final }
        → SaveStep s t

  -- The states so many steps after another.
  pub data SaveReach (from : Saving F) : ℕ → Saving F → Type 0 where
    here : SaveReach from zero from
    next : {n : ℕ} {s t : Saving F} → SaveReach from n s → SaveStep s t → SaveReach from (suc n) t

module _ (J : JsonLib) (P : PoolLib) (M : IdMap) (T : TextLib) where
  -- The tasks' functions: the path, and exportTableToFile up to its write.
  unfoldable pub save_job : String → Cell J P M → Job
  save_job base_filename c = record {
    path =
        str_append base_filename
          (str_append "_" (str_append (Table.get_name J P M c.value) ".json"));
    content = TextLib.bytes_of T (export_table_to_json J P M c.value);
    phase = opening;
  }

  unfoldable pub export_job : String → Cell J P M → Job
  export_job output_directory c = record {
    path =
        str_append output_directory
          (str_append "/" (str_append (Table.get_name J P M c.value) ".json"));
    content = TextLib.bytes_of T (export_table_to_json J P M c.value);
    phase = opening;
  }

  module _ (N : NameMap) (F : Files) where
    -- Where the two calls of runParallel begin.
    unfoldable pub save_all_tables_parallel : Database J P M N → String → Files.World F → Saving F
    unfolding save_job start_saving
    save_all_tables_parallel db base_filename w =
        start_saving F (map (save_job base_filename) (Database.get_tables J P M N db)) w

    unfoldable pub export_all_tables_parallel : Database J P M N → String → Files.World F → Saving F
    unfolding export_job start_saving
    export_all_tables_parallel db output_directory w =
        start_saving F (map (export_job output_directory) (Database.get_tables J P M N db)) w
