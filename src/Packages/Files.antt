-- ===== src/Packages/Files.antt =====
-- The system calls and library routines on whole files, by path. `content` is what the file that a path
-- names holds; no program reads it. `Writes w fd path` says that the descriptor writes at the end of
-- the file that the path names. `none` and `false` are the error returns.
use Prim.Native.String.{◌++◌ as str_append}
use mini_database.Prelude.{
  ℕ, ◌≤◌, ◌<◌, ◌≡◌, Bool, true, false, Option, some, List, [], ◌++◌, String, length, take,
}

pub record Files : Type 1 where
  pub World : Type 0
  pub content : World → String → Option (List ℕ)
  pub Writes : World → ℕ → String → Type 0
  -- The two paths name different files.
  pub Distinct : String → String → Type 0
  -- open(path, O_WRONLY | O_CREAT | O_TRUNC)
  pub open_trunc : String → World → Option ℕ × World
  -- write(fd, data, remaining): how much was written
  pub write : ℕ → List ℕ → World → Option ℕ × World
  pub fsync : ℕ → World → Bool × World
  pub close : ℕ → World → World
  -- std::filesystem::rename, remove, file_size
  pub rename : String → String → World → Bool × World
  -- remove without an error code: false where it throws
  pub remove : String → World → Bool × World
  pub file_size : String → World → Option ℕ
  -- std::ifstream on the path: whether it opens, and what a read of so many bytes gives, none if short
  pub opens : String → World → Bool
  pub read : String → ℕ → World → Option (List ℕ)
  -- The file that writeFileAtomic writes first is none of the names of the file it replaces.
  pub sibling-Distinct : (path : String) → Distinct (str_append path ".tmp") path
  pub open_trunc-some :
      (path : String) (w : World) (fd : ℕ)
      → (open_trunc path w).0 ≡ some fd
      → Writes (open_trunc path w).1 fd path × (content (open_trunc path w).1 path ≡ some [])
  pub open_trunc-other :
      (path other : String) (w : World)
      → Distinct path other
      → content (open_trunc path w).1 other ≡ content w other
  -- A write of something writes a part of it that is not empty, at the end of the file.
  pub write-some :
      (fd : ℕ) (path : String) (buf before : List ℕ) (w : World) (n : ℕ)
      → Writes w fd path
      → content w path ≡ some before
      → 0 < length buf
      → (write fd buf w).0 ≡ some n
      → (0 < n)
        × (n ≤ length buf)
        × Writes (write fd buf w).1 fd path
        × (content (write fd buf w).1 path ≡ some (before ++ take n buf))
  -- A write touches the one file, also where it fails.
  pub write-other :
      (fd : ℕ) (path other : String) (buf : List ℕ) (w : World)
      → Writes w fd path
      → Distinct path other
      → content (write fd buf w).1 other ≡ content w other
  pub fsync-content :
      (fd : ℕ) (w : World) (path : String) → content (fsync fd w).1 path ≡ content w path
  pub close-content :
      (fd : ℕ) (w : World) (path : String) → content (close fd w) path ≡ content w path
  -- A rename happens as a whole or not at all.
  pub rename-true :
      (path to : String) (w : World)
      → (rename path to w).0 ≡ true
      → content (rename path to w).1 to ≡ content w path
  pub rename-false :
      (path to other : String) (w : World)
      → (rename path to w).0 ≡ false
      → content (rename path to w).1 other ≡ content w other
  pub remove-other :
      (path other : String) (w : World)
      → Distinct path other
      → content (remove path w).1 other ≡ content w other
  -- A rename touches no third file.
  pub rename-other :
      (path to other : String) (w : World)
      → Distinct path other
      → Distinct to other
      → content (rename path to w).1 other ≡ content w other
  -- A descriptor keeps writing to its file whatever is done to other files and their descriptors.
  pub open_trunc-Writes :
      (path other : String) (w : World) (fd : ℕ)
      → Distinct path other
      → Writes w fd other
      → Writes (open_trunc path w).1 fd other
  pub write-Writes :
      (fd : ℕ) (path : String) (buf : List ℕ) (other : String) (w : World) (k : ℕ)
      → Writes w fd path
      → Writes w k other
      → Writes (write fd buf w).1 k other
  pub fsync-Writes :
      (fd : ℕ) (other : String) (w : World) (k : ℕ)
      → Writes w k other
      → Writes (fsync fd w).1 k other
  pub close-Writes :
      (fd : ℕ) (path other : String) (w : World) (k : ℕ)
      → Writes w fd path
      → Distinct path other
      → Writes w k other
      → Writes (close fd w) k other
  pub rename-Writes :
      (path to other : String) (w : World) (k : ℕ)
      → Distinct path other
      → Distinct to other
      → Writes w k other
      → Writes (rename path to w).1 k other
  pub remove-Writes :
      (path other : String) (w : World) (k : ℕ)
      → Distinct path other
      → Writes w k other
      → Writes (remove path w).1 k other

-- Reading the file of a path gives what it holds.
pub record ReadsFile (F : Files) (w : Files.World F) (path : String) (bytes : List ℕ) : Type 0 where
  pub size_eq : Files.file_size F path w ≡ some (length bytes)
  pub opens_eq : Files.opens F path w ≡ true
  pub read_eq : Files.read F path (length bytes) w ≡ some bytes
