-- ===== src/Concurrency.antt =====
-- src/MiniDB/Engine/Concurrency.cpp and include/MiniDB/Engine/Concurrency.h: one task per table on a thread pool.
-- The pool may run the tasks that wait in any order, while the caller still enqueues or already collects.
-- A task changes its own table only, so it runs as one step. What a task does is a function that
-- returns; Concurrency/Saves has tasks that can throw.
pub mod Results
pub mod Progress
pub mod Saves
pub mod Saving
pub mod Saved
pub mod Parallel
pub mod Ending
use mini_database.Prelude.{
  ℕ, zero, suc, ◌+◌, ◌≡◌, Option, some, List, [], ◌∷◌, ◌++◌, map, length, get_elem?,
}
use mini_database.Common.{Status, ok}
use mini_database.Packages.Json.{JsonLib}
use mini_database.Packages.Pool.{PoolLib}
use mini_database.Table
use mini_database.Table.{Table, IdMap}
use mini_database.Database
use mini_database.Database.{Database, NameMap, Cell}

-- A task with its table, and the future's status once it has run.
pub data Task (A : Type 0) : Type 0 where
  waiting : A → Task A
  finished : A → Status → Task A

-- Where runParallel stands: in the loop over the tables that are left, in the loop over the futures
-- after so many with finalStatus, or behind its return.
pub data Caller (A : Type 0) : Type 0 where
  enqueuing : List A → Caller A
  collecting : ℕ → Status → Caller A
  returned : Status → Caller A

pub record System (A : Type 0) : Type 0 where
  pub caller : Caller A
  pub tasks : List (Task A)

-- A round of the loop over the futures.
unfoldable pub keep_status : Status → Status → Status
keep_status final ok = final
keep_status final failed = failed

unfoldable pub start : {A : Type 0} → List A → System A
start tables = record { caller = enqueuing tables; tasks = [] }

-- runParallel
pub data Step {A : Type 0} (fn : A → A × Status) (s t : System A) : Type 0 where
  enqueue :
      (a : A) (rest : List A)
      → s.caller ≡ enqueuing (a ∷ rest)
      → t ≡ record { caller = enqueuing rest; tasks = s.tasks ++ waiting a ∷ [] }
      → Step fn s t
  collect : s.caller ≡ enqueuing [] → t ≡ record s { caller = collecting 0 ok } → Step fn s t
  run :
      (before after : List (Task A)) (a : A)
      → s.tasks ≡ before ++ waiting a ∷ after
      → t ≡ record s { tasks = before ++ finished (fn a).0 (fn a).1 ∷ after }
      → Step fn s t
  get :
      (n : ℕ) (final : Status) (a : A) (status : Status)
      → s.caller ≡ collecting n final
      → get_elem? s.tasks n ≡ some (finished a status)
      → t ≡ record s { caller = collecting (suc n) (keep_status final status) }
      → Step fn s t
  return :
      (n : ℕ) (final : Status)
      → s.caller ≡ collecting n final
      → n ≡ length s.tasks
      → t ≡ record s { caller = returned final }
      → Step fn s t

-- The states after so many steps.
pub data Reach {A : Type 0} (fn : A → A × Status) (tables : List A) : ℕ → System A → Type 0 where
  here : Reach fn tables zero (start tables)
  next : {n : ℕ} {s t : System A} → Reach fn tables n s → Step fn s t → Reach fn tables (suc n) t

module _ (J : JsonLib) (P : PoolLib) (M : IdMap) (N : NameMap) where
  -- The task of rebuildAllIndexesParallel, and where its call of runParallel begins.
  unfoldable pub rebuild_task : Cell J P M → Cell J P M × Status
  rebuild_task c =
      let (table, status) = Table.rebuild_index J P M c.value in
      (record c { value = table }, status)

  unfoldable pub rebuild_all_indexes_parallel : Database J P M N → System (Cell J P M)
  unfolding start
  rebuild_all_indexes_parallel db = start (Database.get_tables J P M N db)
