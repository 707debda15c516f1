-- ===== src/Witness/ToyPosix.antt =====
-- A file system of one file, whose calls all succeed and are never partial.
use mini_database.Prelude.{
  ℕ, ◌+◌, ◌<◌, ◌≤◌, ◌≡◌, ◌≢◌, refl, ap, sym, true, false, Option, none, some, List, ◌++◌, arith,
  length, take, drop, take_of_length-le,
}
use mini_database.Packages.Posix.{Posix, ReadsWhole}

abbrev pwrite : ℕ → List ℕ → ℕ → List ℕ → Option ℕ × List ℕ
pwrite fd buf off w = (some (length buf), take off w ++ (buf ++ drop (off + length buf) w))

pub pwrite-some :
    (fd : ℕ) (buf : List ℕ) (off : ℕ) (w : List ℕ) (n : ℕ)
    → (pwrite fd buf off w).0 ≡ some n
    → 0 < length buf
    → off ≤ length w
    → (0 < n)
      × (n ≤ length buf)
      × ((pwrite fd buf off w).1 ≡ take off w ++ (take n buf ++ drop (off + n) w))
pwrite-some fd buf off w n e fill inside =
    let same : length buf ≡ n = ground (arith, e) in
    (
      omega arith,
      omega arith,
      rw (sym same) (
          ap (λ b. take off w ++ (b ++ drop (off + length buf) w))
            (sym (take_of_length-le (length buf) buf (omega arith)))),
    )

pub pwrite-none :
    (fd : ℕ) (buf : List ℕ) (off : ℕ) (w : List ℕ)
    → (pwrite fd buf off w).0 ≡ none
    → take off (pwrite fd buf off w).1 ≡ take off w
pwrite-none fd buf off w e = cc

pub true-ne-false : true ≢ false
true-ne-false e = cc

abbrev pub toy_posix : Posix
toy_posix = record {
  World = List ℕ;
  bytes = λ w fd. w;
  open_file = λ path w. (some 3, w);
  open_read = λ path w. (some 3, w);
  close = λ fd w. w;
  file_size = λ fd w. some (length w);
  pread = λ fd n off w. some (take n (drop off w));
  pwrite = pwrite;
  fsync = λ fd w. (true, w);
  ftruncate = λ fd n w. (true, take n w);
  pwrite-some = pwrite-some;
  pwrite-none = pwrite-none;
  close-bytes = λ fd other w. refl;
  fsync-bytes = λ fd w. refl;
  ftruncate-true = λ fd n w e inside. refl;
  ftruncate-false = λ fd n w e. absurd (true-ne-false e);
}

pub toy_reads : (w : List ℕ) → ReadsWhole toy_posix w 3
toy_reads w = record { size_eq = refl; read_eq = λ n off small. refl }
