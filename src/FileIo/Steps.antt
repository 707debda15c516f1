-- ===== src/FileIo/Steps.antt =====
-- include/MiniDB/Common/FileIO.h: writeFileAtomic, one system call at a time.
use Prim.Native.String.{◌++◌ as str_append}
use mini_database.Prelude.{
  ℕ, zero, suc, ◌≤◌, ◌≡◌, refl, subst, not, Bool-cases, Option-cases, inl, inr, Option, none, some,
  List, [], ◌∷◌, ◌++◌, String, if◌then◌else◌, length, take, drop, length-drop, arith,
}
use mini_database.Common.{Status, ok, io_error}
use mini_database.Packages.Files.{Files}
use mini_database.Wal.{Written, done, failed}
use mini_database.FileIo.Whole.{write_all, write_and_rename, write_file_atomic}

-- Where a call of writeFileAtomic stands: before the open, in the write loop with the bytes that are
-- left, before the close after a failure, before the close that the rename follows, before the rename,
-- before the removal of the sibling file, or behind its return: none where it threw.
pub data Phase : Type 0 where
  opening : Phase
  writing : ℕ → List ℕ → Phase
  abandoning : ℕ → Phase
  closing : ℕ → Phase
  renaming : Phase
  removing : Phase
  ended : Option Status → Phase

abbrev pub sibling : String → String
sibling path = str_append path ".tmp"

module _ (F : Files) (path : String) (content : List ℕ) where
  open F use {World, open_trunc, write, fsync, close, rename, remove}

  -- The next system call.
  unfoldable pub advance : Phase → World → Phase × World
  advance opening w =
      let (opened, w') = open_trunc (sibling path) w in
      elim opened [ none ↦ (ended (some io_error), w') | some fd ↦ (writing fd content, w') ]
  advance (writing fd []) w =
      let (synced, w') = fsync fd w in if not synced then (abandoning fd, w') else (closing fd, w')
  advance (writing fd (b ∷ bs)) w =
      let (n, w') = write fd (b ∷ bs) w in
      elim n [ none ↦ (abandoning fd, w') | some n ↦ (writing fd (drop n (b ∷ bs)), w') ]
  advance (abandoning fd) w = (ended (some io_error), close fd w)
  advance (closing fd) w = (renaming, close fd w)
  advance renaming w =
      let (renamed, w') = rename (sibling path) path w in
      if renamed then (ended (some ok), w') else (removing, w')
  advance removing w =
      let (removed, w') = remove (sibling path) w in
      (ended (if removed then some io_error else none), w')
  advance (ended status) w = (ended status, w)

  -- So many calls, undisturbed.
  unfoldable pub run : ℕ → Phase → World → Phase × World
  unfolding advance
  run zero phase w = (phase, w)
  run (suc n) phase w = run n (advance phase w).0 (advance phase w).1

  -- A state that so many undisturbed calls lead to, and how many.
  abbrev pub Runs : Phase → World → Phase × World → Type 0
  Runs phase w r = (n : ℕ) × (run n phase w ≡ r)

  Runs-advance :
      (phase : Phase) (w : World) (r : Phase × World)
      → Runs (advance phase w).0 (advance phase w).1 r
      → Runs phase w r
  unfolding run
  Runs-advance phase w r (n, h) = (suc n, h)

  -- What follows the write loop leads there, however the loop ends.
  abbrev Follows : ℕ → Phase × World → Written × World → Type 0
  Follows fd r x =
      (x.0 ≡ done → Runs (writing fd []) x.1 r) × (x.0 ≡ failed → Runs (abandoning fd) x.1 r)

  -- The write loop, with what follows it.
  write_all-Runs :
      (rounds fd : ℕ) (before rest : List ℕ) (w : World) (r : Phase × World)
      → F.Writes w fd (sibling path)
      → F.content w (sibling path) ≡ some before
      → length rest ≤ rounds
      → Follows fd r (write_all F rounds fd rest w)
      → Runs (writing fd rest) w r
  unfolding write_all advance
  write_all-Runs rounds fd before [] w r o e enough next = next.0 refl
  write_all-Runs zero fd before (b ∷ bs) w r o e enough next = absurd (omega arith)
  write_all-Runs (suc rounds) fd before (b ∷ bs) w r o e enough next =
      elim (Option-cases (write fd (b ∷ bs) w).0) [
        | inl n ↦
            let broken : write_all F (suc rounds) fd (b ∷ bs) w
                ≡ (failed, (write fd (b ∷ bs) w).1) =
              ground (arith, n) in
            Runs-advance (writing fd (b ∷ bs)) w r
              (rw (n, advance) ((subst (Follows fd r) broken next).1 refl))
        | inr (k, n) ↦
            let (some_byte, within, o', e') =
              F.write-some fd (sibling path) (b ∷ bs) before w k o e (omega arith) n in
            let again : write_all F (suc rounds) fd (b ∷ bs) w
                ≡ write_all F rounds fd (drop k (b ∷ bs)) (write fd (b ∷ bs) w).1 =
              ground (arith, n) in
            Runs-advance (writing fd (b ∷ bs)) w r (
              rw (n, advance)
                (write_all-Runs rounds fd (before ++ take k (b ∷ bs)) (drop k (b ∷ bs))
                  (write fd (b ∷ bs) w).1 r o' e' (omega (arith, length-drop k (b ∷ bs)))
                  (subst (Follows fd r) again next)))
      ]

  -- Behind the loop.
  write_and_rename-Follows :
      (fd : ℕ) (w : World)
      → Follows fd
          (
            ended (write_and_rename F (sibling path) path fd content w).1,
            (write_and_rename F (sibling path) path fd content w).0,
          )
          (write_all F (length content) fd content w)
  unfolding write_and_rename advance run
  write_and_rename-Follows fd w = (
    λ finished.
        let v = (write_all F (length content) fd content w).1 in
        elim (Bool-cases (fsync fd v).0) [
          | inr n ↦ (2, ground (arith, finished, n))
          | inl y ↦ elim (Bool-cases (rename (sibling path) path (close fd (fsync fd v).1)).0) [
            | inl moved ↦ (3, ground (arith, finished, y, moved))
            | inr kept ↦ (4, ground (arith, finished, y, kept))
          ]
        ],
    λ broken. (1, ground (arith, broken)),
  )

-- writeFileAtomic is its system calls, one after another: so many steps from the open, undisturbed, lead
-- to its return with the status and the world that it leaves.
pub run-write_file_atomic :
    (F : Files) (path : String) (content : List ℕ) (w : Files.World F)
    → (n : ℕ) × (run F path content n opening w
        ≡ (ended (write_file_atomic F path content w).1, (write_file_atomic F path content w).0))
unfolding write_file_atomic advance run
run-write_file_atomic F path content w =
    elim (Option-cases (Files.open_trunc F (sibling path) w).0) [
      | inl e ↦
          Runs-advance F path content opening w _ (rw (e, advance, write_file_atomic) (0, refl))
      | inr (fd, e) ↦
          let (o, empty) = Files.open_trunc-some F (sibling path) w fd e in
          let w' = (Files.open_trunc F (sibling path) w).1 in
          Runs-advance F path content opening w _ (
            rw (e, advance, write_file_atomic)
              (write_all-Runs F path content (length content) fd [] content w' _ o empty
                (omega arith) (write_and_rename-Follows F path content fd w')))
    ]
