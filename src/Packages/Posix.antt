-- ===== src/Packages/Posix.antt =====
-- The system calls that the write-ahead log and the slot files make, on one file behind a descriptor. `bytes` is
-- what the file holds; no program reads it. `none` and `false` are the error returns.
use mini_database.Prelude.{
  ℕ, ◌+◌, ◌≤◌, ◌<◌, ◌≡◌, Bool, true, false, Option, none, some, List, ◌++◌, String, length, take,
  drop,
}

-- The most that one read or write transfers.
abbrev pub max_transfer : ℕ
max_transfer = 0x7ffff000

pub record Posix : Type 1 where
  pub World : Type 0
  pub bytes : World → ℕ → List ℕ
  -- open(path, O_RDWR | O_CREAT)
  pub open_file : String → World → Option ℕ × World
  -- open(path, O_RDONLY)
  pub open_read : String → World → Option ℕ × World
  pub close : ℕ → World → World
  -- lseek(fd, 0, SEEK_END)
  pub file_size : ℕ → World → Option ℕ
  -- pread(fd, buffer, count, offset): what arrived in the buffer
  pub pread : ℕ → ℕ → ℕ → World → Option (List ℕ)
  -- pwrite(fd, buffer, size of the buffer, offset): how much was written
  pub pwrite : ℕ → List ℕ → ℕ → World → Option ℕ × World
  pub fsync : ℕ → World → Bool × World
  pub ftruncate : ℕ → ℕ → World → Bool × World
  -- A write of something writes a part of it that is not empty, at its place.
  pub pwrite-some :
      (fd : ℕ) (buf : List ℕ) (off : ℕ) (w : World) (n : ℕ)
      → (pwrite fd buf off w).0 ≡ some n
      → 0 < length buf
      → off ≤ length (bytes w fd)
      → (0 < n)
        × (n ≤ length buf)
        × (bytes (pwrite fd buf off w).1 fd
            ≡ take off (bytes w fd) ++ (take n buf ++ drop (off + n) (bytes w fd)))
  -- A write that fails leaves what stands before its place.
  pub pwrite-none :
      (fd : ℕ) (buf : List ℕ) (off : ℕ) (w : World)
      → (pwrite fd buf off w).0 ≡ none
      → take off (bytes (pwrite fd buf off w).1 fd) ≡ take off (bytes w fd)
  -- Closing changes no file.
  pub close-bytes : (fd other : ℕ) (w : World) → bytes (close fd w) other ≡ bytes w other
  pub fsync-bytes : (fd : ℕ) (w : World) → bytes (fsync fd w).1 fd ≡ bytes w fd
  pub ftruncate-true :
      (fd n : ℕ) (w : World)
      → (ftruncate fd n w).0 ≡ true
      → n ≤ length (bytes w fd)
      → bytes (ftruncate fd n w).1 fd ≡ take n (bytes w fd)
  pub ftruncate-false :
      (fd n : ℕ) (w : World)
      → (ftruncate fd n w).0 ≡ false
      → bytes (ftruncate fd n w).1 fd ≡ bytes w fd

-- No read fails, and none is shorter than the file and the transfer limit make it.
pub record ReadsWhole (S : Posix) (w : Posix.World S) (fd : ℕ) : Type 0 where
  pub size_eq : Posix.file_size S fd w ≡ some (length (Posix.bytes S w fd))
  pub read_eq :
      (n off : ℕ)
      → n ≤ max_transfer
      → Posix.pread S fd n off w ≡ some (take n (drop off (Posix.bytes S w fd)))
