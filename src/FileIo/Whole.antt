-- ===== src/FileIo/Whole.antt =====
-- include/MiniDB/Common/FileIO.h: readFile, and writeFileAtomic as compiled for POSIX.
use Prim.Native.String.{◌++◌ as str_append}
use mini_database.Prelude.{
  ℕ, zero, suc, not, Option, none, some, List, [], ◌∷◌, String, ltb, if◌then◌else◌, length, drop,
}
use mini_database.Common.{Status, ok, io_error}
use mini_database.Packages.Files.{Files}
use mini_database.Wal.{Written, done, failed, stuck}

module _ (F : Files) where
  open F use {World, open_trunc, write, fsync, close, rename, remove, file_size, opens, read}

  -- readFile: what `out` is set to, and the status
  unfoldable pub read_file : String → World → Option (List ℕ) × Status
  read_file path w = elim (file_size path w) [
    | none ↦ (none, io_error)
    | some size ↦
        if not (opens path w)
        then (none, io_error)
        else if not (ltb 0 size)
        then (some [], ok)
        else elim (read path size w) [ none ↦ (none, io_error) | some bytes ↦ (some bytes, ok) ]
  ]

  -- The loop over ::write. A round writes a byte at least, so the content's length bounds the rounds.
  unfoldable pub write_all : ℕ → ℕ → List ℕ → World → Written × World
  write_all rounds fd [] w = (done, w)
  write_all zero fd (b ∷ bs) w = (stuck, w)
  write_all (suc rounds) fd (b ∷ bs) w =
      let (n, w') = write fd (b ∷ bs) w in
      elim n [ none ↦ (failed, w') | some n ↦ write_all rounds fd (drop n (b ∷ bs)) w' ]

  -- writeFileAtomic behind its open of the sibling file; none where std::filesystem::remove throws
  unfoldable pub write_and_rename : String → String → ℕ → List ℕ → World → World × Option Status
  unfolding write_all
  write_and_rename tmp path fd content w =
      let (outcome, w1) = write_all (length content) fd content w in
      elim outcome [
        | done ↦
            let (synced, w2) = fsync fd w1 in
            if not synced
            then (close fd w2, some io_error)
            else let (renamed, w3) = rename tmp path (close fd w2) in
              if renamed
              then (w3, some ok)
              else let (removed, w4) = remove tmp w3 in
                (w4, if removed then some io_error else none)
        | _ ↦ (close fd w1, some io_error)
      ]

  -- writeFileAtomic
  unfoldable pub write_file_atomic : String → List ℕ → World → World × Option Status
  unfolding write_and_rename
  write_file_atomic path content w =
      let tmp = str_append path ".tmp" in
      let (opened, w1) = open_trunc tmp w in
      elim opened [ none ↦ (w1, some io_error) | some fd ↦ write_and_rename tmp path fd content w1 ]
