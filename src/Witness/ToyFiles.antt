-- ===== src/Witness/ToyFiles.antt =====
-- A directory as a function, with a table of the open descriptors, whose calls all succeed. A closed
-- descriptor is not used again.
use mini_database.Prelude.{
  ℕ, suc, ◌≤◌, ◌<◌, ◌≡◌, ◌≢◌, refl, ap, sym, subst, true, false, Option, none, some, List, [], ◌++◌,
  String, str_eq, str_eq_iff, if◌then◌else◌, length, take, take_of_length-le, arith, ◌==◌,
}
use mathlib.Core.Option
use mini_database.Packages.Files.{Files, ReadsFile}
use mini_database.Witness.ToyNames.{tmp-other}

pub record Directory : Type 0 where
  pub files : String → Option (List ℕ)
  pub descriptors : ℕ → Option String
  pub next : ℕ

abbrev pub directory_of : (String → Option (List ℕ)) → Directory
directory_of files = record { files = files; descriptors = λ k. none; next = 3 }

abbrev opened : String → Directory → Directory
opened path w = record {
  files = λ p. if str_eq path p then some [] else w.files p;
  descriptors = λ k. if w.next == k then some path else w.descriptors k;
  next = suc w.next;
}

abbrev appended_to : String → List ℕ → Directory → Directory
appended_to path buf w = record w {
  files = λ p. if str_eq path p then Option.map (λ l. l ++ buf) (w.files p) else w.files p;
}

abbrev appended : ℕ → List ℕ → Directory → Directory
appended fd buf w = elim (w.descriptors fd) [ none ↦ w | some path ↦ appended_to path buf w ]

pub appended_eq :
    (fd : ℕ) (path : String) (buf : List ℕ) (w : Directory)
    → w.descriptors fd ≡ some path
    → appended fd buf w ≡ appended_to path buf w
appended_eq fd path buf w at = ap (λ o. elim o [ none ↦ w | some path ↦ appended_to path buf w ]) at

abbrev closed : ℕ → Directory → Directory
closed fd w = record w { descriptors = λ k. if fd == k then none else w.descriptors k }

abbrev moved : String → String → Directory → Directory
moved path to w = record w { files = λ p. if str_eq to p then w.files path else w.files p }

abbrev Writes : Directory → ℕ → String → Type 0
Writes w fd path = (w.descriptors fd ≡ some path) × (fd < w.next)

pub same : (s : String) → str_eq s s ≡ true
same s = (str_eq_iff s s).1 refl

pub open_trunc-some :
    (path : String) (w : Directory) (fd : ℕ)
    → some w.next ≡ some fd
    → Writes (opened path w) fd path × ((opened path w).files path ≡ some [])
open_trunc-some path w fd e = ((ground (arith, e), ground (arith, e)), rw (same path) refl)

pub write-some :
    (fd : ℕ) (path : String) (buf before : List ℕ) (w : Directory) (n : ℕ)
    → Writes w fd path
    → w.files path ≡ some before
    → 0 < length buf
    → some (length buf) ≡ some n
    → (0 < n)
      × (n ≤ length buf)
      × Writes (appended fd buf w) fd path
      × ((appended fd buf w).files path ≡ some (before ++ take n buf))
write-some fd path buf before w n (at, low) held some_byte e =
    let count : length buf ≡ n = ground (arith, e) in
    let to = appended_eq fd path buf w at in
    (
      omega arith,
      omega arith,
      subst (λ v. Writes v fd path) (sym to) (at, low),
      rw to (ground (arith, held, same path, take_of_length-le n buf (omega arith))),
    )

pub write-other :
    (fd : ℕ) (path other : String) (buf : List ℕ) (w : Directory)
    → Writes w fd path
    → str_eq path other ≡ false
    → (appended fd buf w).files other ≡ w.files other
write-other fd path other buf w (at, low) apart = rw (appended_eq fd path buf w at, apart) refl

pub true-ne-false : true ≢ false
true-ne-false e = cc

pub opened-Writes :
    (path other : String) (w : Directory) (k : ℕ)
    → Writes w k other
    → Writes (opened path w) k other
opened-Writes path other w k (at, low) = (ground (arith, at, low), omega arith)

pub appended-Writes :
    (fd : ℕ) (path : String) (buf : List ℕ) (other : String) (w : Directory) (k : ℕ)
    → Writes w fd path
    → Writes w k other
    → Writes (appended fd buf w) k other
appended-Writes fd path buf other w k (at, _) h =
    subst (λ v. Writes v k other) (sym (appended_eq fd path buf w at)) h

pub closed-Writes :
    (fd : ℕ) (path other : String) (w : Directory) (k : ℕ)
    → Writes w fd path
    → str_eq path other ≡ false
    → Writes w k other
    → Writes (closed fd w) k other
closed-Writes fd path other w k (at, _) apart (at', low) =
    (ground (arith, at, at', apart, same other, ap w.descriptors), low)

abbrev pub toy_files : Files
toy_files = record {
  World = Directory;
  content = λ w p. w.files p;
  Writes = Writes;
  Distinct = λ path other. str_eq path other ≡ false;
  sibling-Distinct = tmp-other;
  open_trunc = λ path w. (some w.next, opened path w);
  write = λ fd buf w. (some (length buf), appended fd buf w);
  fsync = λ fd w. (true, w);
  close = closed;
  rename = λ path to w. (true, moved path to w);
  remove = λ path w. (true, record w { files = λ p. if str_eq path p then none else w.files p });
  file_size = λ path w. Option.map length (w.files path);
  opens = λ path w. true;
  read = λ path n w. w.files path;
  open_trunc-some = open_trunc-some;
  open_trunc-other = λ path other w apart. rw apart refl;
  write-some = λ fd path buf before w n. write-some fd path buf before w n;
  write-other = λ fd path other buf w. write-other fd path other buf w;
  fsync-content = λ fd w path. refl;
  close-content = λ fd w path. refl;
  rename-true = λ path to w e. rw (same to) refl;
  rename-false = λ path to other w e. absurd (true-ne-false e);
  remove-other = λ path other w apart. rw apart refl;
  rename-other = λ path to other w a b. rw b refl;
  open_trunc-Writes = λ path other w fd a h. opened-Writes path other w fd h;
  write-Writes = appended-Writes;
  fsync-Writes = λ fd other w k h. h;
  close-Writes = closed-Writes;
  rename-Writes = λ path to other w k a b h. h;
  remove-Writes = λ path other w k a h. h;
}

pub toy_reads :
    (w : Directory) (path : String) (bytes : List ℕ)
    → w.files path ≡ some bytes
    → ReadsFile toy_files w path bytes
toy_reads w path bytes e = record {
  size_eq = ap (Option.map length) e;
  opens_eq = refl;
  read_eq = e;
}
