-- ===== src/Database/Crash.antt =====
-- Core/Database.cpp, save and load: a save that stops between two system calls.
use mini_database.Prelude.{ℕ, ◌≡◌, ◌⊎◌, inl, inr, ap, ◌∙◌, some, List, String}
use mini_database.Common.{ok}
use mini_database.Packages.Json.{JsonLib}
use mini_database.Packages.Pool.{PoolLib}
use mini_database.Packages.Text.{TextLib}
use mini_database.Packages.Files.{Files, ReadsFile}
use mini_database.FileIo.Steps.{opening, run, run-write_file_atomic}
use mini_database.FileIo.Crash.{run-OldOrWhole}
use mini_database.Table.{IdMap}
use mini_database.Database.{Database, NameMap}
use mini_database.Database.Invariant.{IsConsistent}
use mini_database.Database.Forms.{to_json, save, load}
use mini_database.Database.Rebuilt.{AllStorable}
use mini_database.Database.RoundTrip.{Restored, load-content}

module _ (J : JsonLib) (P : PoolLib) (M : IdMap) (N : NameMap) where
  -- A database that its file can hold and give back.
  abbrev pub IsStorable : Database J P M N → Type 0
  IsStorable db =
      IsConsistent J P M N db
      × AllStorable J P M db.tables
      × (J.parse (J.dump (to_json J P M N db)) ≡ some (to_json J P M N db))

module _ (J : JsonLib) (P : PoolLib) (M : IdMap) (N : NameMap) (T : TextLib) (F : Files) where
  abbrev pub text_of : Database J P M N → List ℕ
  text_of db = TextLib.bytes_of T (J.dump (to_json J P M N db))

  -- The world when a save has stopped after so many of its system calls.
  abbrev pub interrupted : ℕ → Database J P M N → String → Files.World F → Files.World F
  interrupted n db path w = (run F path (text_of db) n opening w).1

  -- Some number of calls is the whole save.
  save-interrupted :
      (db : Database J P M N) (path : String) (w : Files.World F)
      → (n : ℕ) × (interrupted n db path w ≡ (save J P M N T F db path w).0)
  unfolding save
  save-interrupted db path w =
      let (n, e) = run-write_file_atomic F path (text_of db) w in (n, ap (λ r. r.1) e)

  module _ (d old new : Database J P M N) (path : String) (w : Files.World F) (n : ℕ) where
    -- A save over the file of another database that stops after any number of its system calls loses
    -- neither: loading the file on any database answers ok and gives the old database back, or the new
    -- one. Both are consistent, with ids below 2^31 and enumerators as types; the parser reads
    -- the text of both back, and reading the file gives what it holds.
    pub load-interrupted :
        IsStorable J P M N old
        → IsStorable J P M N new
        → Files.content F w path ≡ some (text_of old)
        → ((bytes : List ℕ)
            → Files.content F (interrupted n new path w) path ≡ some bytes
            → ReadsFile F (interrupted n new path w) path bytes)
        → (u : Database J P M N) × (load J P M N T F d path (interrupted n new path w)
            ≡ some (u, ok))
          × (Restored J P M N old u ⊎ Restored J P M N new u)
    load-interrupted (inv, storable, parsed) (inv', storable', parsed') there reads =
        elim (run-OldOrWhole F path (text_of new) n w) [
          | inl kept ↦
              let (u, u-eq, r) =
                load-content J P M N T F d old path (interrupted n new path w) inv storable parsed
                  (reads (text_of old) (kept ∙ there)) in
              (u, u-eq, inl r)
          | inr whole ↦
              let (u, u-eq, r) =
                load-content J P M N T F d new path (interrupted n new path w) inv' storable'
                  parsed' (reads (text_of new) whole) in
              (u, u-eq, inr r)
        ]
