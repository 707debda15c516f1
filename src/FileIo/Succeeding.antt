-- ===== src/FileIo/Succeeding.antt =====
-- include/MiniDB/Common/FileIO.h: writeFileAtomic where the file system does what it is asked for.
use Prim.Native.String.{◌++◌ as str_append}
use mini_database.Prelude.{
  ℕ, zero, suc, ◌≤◌, ◌<◌, ◌≡◌, ◌≢◌, inl, inr, refl, ◌∙◌, true, Option-cases, none, some, List, [],
  ◌∷◌, ◌++◌, String, arith, length, length-drop, take, drop,
}
use mini_database.Common.{ok}
use mini_database.Packages.Files.{Files}
use mini_database.Wal.{done}
use mini_database.FileIo.Whole.{write_all, write_and_rename, write_file_atomic}
use mini_database.FileIo.Atomic.{write_file_atomic-Atomic}

-- On worlds of a kind, calls for the one file succeed that have an argument they can succeed for: the
-- file opens, a descriptor that writes to it takes bytes and flushes them, and a file that is there is
-- renamed. The calls lead to worlds of the kind.
pub record Succeeds (F : Files) (IsHealthy : Files.World F → Type 0) (tmp path : String)
    : Type 0 where
  pub opened :
      (w : Files.World F)
      → IsHealthy w
      → ((Files.open_trunc F tmp w).0 ≢ none) × IsHealthy (Files.open_trunc F tmp w).1
  pub written :
      (fd : ℕ) (buf : List ℕ) (w : Files.World F)
      → IsHealthy w
      → Files.Writes F w fd tmp
      → 0 < length buf
      → ((Files.write F fd buf w).0 ≢ none) × IsHealthy (Files.write F fd buf w).1
  pub synced :
      (fd : ℕ) (w : Files.World F)
      → IsHealthy w
      → Files.Writes F w fd tmp
      → ((Files.fsync F fd w).0 ≡ true) × IsHealthy (Files.fsync F fd w).1
  pub closed :
      (fd : ℕ) (w : Files.World F)
      → IsHealthy w
      → Files.Writes F w fd tmp
      → IsHealthy (Files.close F fd w)
  pub renamed :
      (w : Files.World F) (bytes : List ℕ)
      → IsHealthy w
      → Files.content F w tmp ≡ some bytes
      → (Files.rename F tmp path w).0 ≡ true

module _ (F : Files) (IsHealthy : Files.World F → Type 0) (path : String) where
  abbrev tmp : String
  tmp = str_append path ".tmp"

  module _ (calls : Succeeds F IsHealthy tmp path) where
    -- The loop reaches its end, with the sibling file open and whole.
    write_all-whole :
        (rounds fd : ℕ) (before buf : List ℕ) (w : Files.World F)
        → IsHealthy w
        → Files.Writes F w fd tmp
        → Files.content F w tmp ≡ some before
        → length buf ≤ rounds
        → ((write_all F rounds fd buf w).0 ≡ done)
          × IsHealthy (write_all F rounds fd buf w).1
          × Files.Writes F (write_all F rounds fd buf w).1 fd tmp
          × ((bytes : List ℕ) × (Files.content F (write_all F rounds fd buf w).1 tmp ≡ some bytes))
    unfolding write_all
    write_all-whole rounds fd before [] w healthy open_ here enough =
        (refl, healthy, open_, (before, here))
    write_all-whole zero fd before (b ∷ bs) w healthy open_ here enough = absurd (omega arith)
    write_all-whole (suc rounds) fd before (b ∷ bs) w healthy open_ here enough =
        let (takes, healthy') = calls.written fd (b ∷ bs) w healthy open_ (omega arith) in
        elim (Option-cases (Files.write F fd (b ∷ bs) w).0) [
          | inl e ↦ absurd (takes e)
          | inr (n, e) ↦
              let (some_byte, within, open_', here') =
                Files.write-some F fd tmp (b ∷ bs) before w n open_ here (omega arith) e in
              rw (write_all, e)
                (write_all-whole rounds fd (before ++ take n (b ∷ bs)) (drop n (b ∷ bs))
                  (Files.write F fd (b ∷ bs) w).1 healthy' open_' here'
                  (omega (arith, length-drop n (b ∷ bs))))
        ]

    write_and_rename-ok :
        (fd : ℕ) (bytes : List ℕ) (w : Files.World F)
        → IsHealthy w
        → Files.Writes F w fd tmp
        → Files.content F w tmp ≡ some []
        → (write_and_rename F tmp path fd bytes w).1 ≡ some ok
    unfolding write_and_rename
    write_and_rename-ok fd bytes w healthy open_ empty =
        let w1 : Files.World F = (write_all F (length bytes) fd bytes w).1 in
        let w2 : Files.World F = (Files.fsync F fd w1).1 in
        let (finished, healthy1, open1, (held, there)) =
          write_all-whole (length bytes) fd [] bytes w healthy open_ empty (omega arith) in
        let (flushed, healthy2) = calls.synced fd w1 healthy1 open1 in
        let closed = calls.closed fd w2 healthy2 (Files.fsync-Writes F fd tmp w1 fd open1) in
        let moved =
          calls.renamed (Files.close F fd w2) held closed
            (Files.close-content F fd w2 tmp ∙ Files.fsync-content F fd w1 tmp ∙ there) in
        ground (arith, finished, flushed, moved)

    write_file_atomic-ok :
        (bytes : List ℕ) (w : Files.World F)
        → IsHealthy w
        → (write_file_atomic F path bytes w).1 ≡ some ok
    unfolding write_file_atomic
    write_file_atomic-ok bytes w healthy =
        let (opens, healthy') = calls.opened w healthy in
        elim (Option-cases (Files.open_trunc F tmp w).0) [
          | inl e ↦ absurd (opens e)
          | inr (fd, e) ↦
              let (open_, empty) = Files.open_trunc-some F tmp w fd e in
              rw (write_file_atomic, e)
                (write_and_rename-ok fd bytes (Files.open_trunc F tmp w).1 healthy' open_ empty)
        ]

    -- writeFileAtomic answers ok, and the path's file holds the content, in a healthy world: where the
    -- sibling file opens, a descriptor open on it takes bytes and flushes them, and the sibling file,
    -- when it is there, is renamed, in that world and those that these calls lead to.
    pub write_file_atomic-succeeds :
        (bytes : List ℕ) (w : Files.World F)
        → IsHealthy w
        → ((write_file_atomic F path bytes w).1 ≡ some ok)
          × (Files.content F (write_file_atomic F path bytes w).0 path ≡ some bytes)
    write_file_atomic-succeeds bytes w healthy =
        let answered : (write_file_atomic F path bytes w).1 ≡ some ok =
          write_file_atomic-ok bytes w healthy in
        elim (write_file_atomic-Atomic F path bytes w) [
          | inl whole ↦ whole
          | inr (inl broken, _) ↦ absurd (ground (arith, broken, answered))
          | inr (inr broken, _) ↦ absurd (ground (arith, broken, answered))
        ]
