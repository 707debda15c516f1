-- ===== src/FileIo/Atomic.antt =====
-- include/MiniDB/Common/FileIO.h: writeFileAtomic replaces a file as a whole or leaves it as it is.

use Prim.Native.String.{◌++◌ as str_append}
use mini_database.Prelude.{
  none, ℕ, zero, suc, ◌≤◌, ◌≡◌, ◌⊎◌, inl, inr, refl, ap, sym, ◌∙◌, subst, Bool, true, false, Option,
  some, List, [], ◌∷◌, ◌++◌, String, if◌then◌else◌, arith, Bool-cases, Option-cases, length, take,
  drop, take-drop, length-drop, append_assoc, append-nil,
}
use mini_database.Common.{Status, ok, io_error}
use mini_database.Packages.Files.{Files}
use mini_database.Wal.{Written, done, failed}
use mini_database.FileIo.Whole.{write_all, write_and_rename, write_file_atomic}

module _ (F : Files) (fd : ℕ) (tmp path : String) (apart : Files.Distinct F tmp path) where
  open F use {
    World, content, Writes, write, fsync, close, rename, remove, write-some, write-other,
    fsync-content, close-content, rename-true, rename-false, remove-other,
  }

  -- How the loop over ::write ends, for the file that it writes.
  abbrev Ended : List ℕ → Written × World → Type 0
  Ended bytes r = ((r.0 ≡ done) × (content r.1 tmp ≡ some bytes)) ⊎ (r.0 ≡ failed)

  write_all-Ended :
      (rounds : ℕ) (before buf : List ℕ) (w : World)
      → Writes w fd tmp
      → content w tmp ≡ some before
      → length buf ≤ rounds
      → Ended (before ++ buf) (write_all F rounds fd buf w)
        × (content (write_all F rounds fd buf w).1 path ≡ content w path)
  unfolding write_all
  write_all-Ended rounds before [] w opened here enough =
      (inl (refl, here ∙ ap some (sym (append-nil before))), refl)
  write_all-Ended zero before (b ∷ bs) w opened here enough = absurd (omega arith)
  write_all-Ended (suc rounds) before (b ∷ bs) w opened here enough =
      let other : content (write fd (b ∷ bs) w).1 path ≡ content w path =
        write-other fd tmp path (b ∷ bs) w opened apart in
      elim (Option-cases (write fd (b ∷ bs) w).0) [
        | inl e ↦ rw (write_all, e) (inr refl, other)
        | inr (n, e) ↦
            let (some_byte, within, opened', here') =
              write-some fd tmp (b ∷ bs) before w n opened here (omega arith) e in
            let (ended, other') =
              write_all-Ended rounds (before ++ take n (b ∷ bs)) (drop n (b ∷ bs))
                (write fd (b ∷ bs) w).1 opened' here' (omega (arith, length-drop n (b ∷ bs))) in
            let all : (before ++ take n (b ∷ bs)) ++ drop n (b ∷ bs) ≡ before ++ (b ∷ bs) =
              append_assoc before (take n (b ∷ bs)) (drop n (b ∷ bs))
              ∙ ap (λ l. before ++ l) (take-drop n (b ∷ bs)) in
            rw (write_all, e)
              (
                subst
                    (λ l. Ended l (write_all F rounds fd (drop n (b ∷ bs)) (write fd (b ∷ bs) w).1))
                    all ended,
                other' ∙ other,
              )
      ]

  module _ (bytes : List ℕ) (w : World) where
    -- What writeFileAtomic may answer.
    abbrev pub Atomic : Option (List ℕ) → World × Option Status → Type 0
    Atomic old r =
        ((r.1 ≡ some ok) × (content r.0 path ≡ some bytes))
        ⊎ (((r.1 ≡ some io_error) ⊎ (r.1 ≡ none)) × (content r.0 path ≡ old))

    abbrev loop : Written × World
    loop = write_all F (length bytes) fd bytes w

    abbrev synced : Bool × World
    synced = fsync fd loop.1

    abbrev renamed : Bool × World
    renamed = rename tmp path (close fd synced.1)

    result_failed :
        loop.0 ≡ failed → write_and_rename F tmp path fd bytes w ≡ (close fd loop.1, some io_error)
    unfolding write_and_rename
    result_failed e = ground (arith, e)

    result_unsynced :
        loop.0 ≡ done
        → synced.0 ≡ false
        → write_and_rename F tmp path fd bytes w ≡ (close fd synced.1, some io_error)
    unfolding write_and_rename
    result_unsynced e n = ground (arith, e, n)

    result_renamed :
        loop.0 ≡ done
        → synced.0 ≡ true
        → write_and_rename F tmp path fd bytes w ≡ (
            if renamed.0 then (renamed.1, some ok) else (
              (remove tmp renamed.1).1,
              if (remove tmp renamed.1).0 then some io_error else none,
            ))
    unfolding write_and_rename
    result_renamed e y = ground (arith, e, y)

    -- What the removal of the sibling file makes of a failed rename.
    abbrev removal : Bool → Option Status
    removal removed = if removed then some io_error else none

    removal-cases : (removed : Bool) → (removal removed ≡ some io_error) ⊎ (removal removed ≡ none)
    removal-cases true = inl refl
    removal-cases false = inr refl

    write_and_rename-Atomic :
        Writes w fd tmp
        → content w tmp ≡ some []
        → Atomic (content w path) (write_and_rename F tmp path fd bytes w)
    write_and_rename-Atomic opened empty =
        let (ended, other) = write_all-Ended (length bytes) [] bytes w opened empty (omega arith) in
        let after : content (close fd synced.1) path ≡ content w path =
          close-content fd synced.1 path ∙ fsync-content fd loop.1 path ∙ other in
        elim ended [
          | inr broken ↦
              subst (Atomic (content w path)) (sym (result_failed broken))
                (inr (inl refl, close-content fd loop.1 path ∙ other))
          | inl (finished, written) ↦ elim (Bool-cases synced.0) [
            | inr n ↦
                subst (Atomic (content w path)) (sym (result_unsynced finished n))
                  (inr (inl refl, after))
            | inl y ↦
                let whole : content (close fd synced.1) tmp ≡ some bytes =
                  close-content fd synced.1 tmp ∙ fsync-content fd loop.1 tmp ∙ written in
                subst (Atomic (content w path)) (sym (result_renamed finished y))
                  (elim (Bool-cases renamed.0) [
                    | inl moved ↦
                        rw moved
                          (inl (refl, rename-true tmp path (close fd synced.1) moved ∙ whole))
                    | inr kept ↦ rw kept (
                        inr (
                          removal-cases (remove tmp renamed.1).0,
                          remove-other tmp path renamed.1 apart
                              ∙ rename-false tmp path path (close fd synced.1) kept
                              ∙ after,
                        ))
                  ])
          ]
        ]

-- writeFileAtomic answers ok and the path's file holds the content, or it answers IO_ERROR or throws and
-- the path's file is what it was before, or there is still none.
pub write_file_atomic-Atomic :
    (F : Files) (path : String) (bytes : List ℕ) (w : Files.World F)
    → (((write_file_atomic F path bytes w).1 ≡ some ok)
        × (Files.content F (write_file_atomic F path bytes w).0 path ≡ some bytes))
      ⊎ ((((write_file_atomic F path bytes w).1 ≡ some io_error)
            ⊎ ((write_file_atomic F path bytes w).1 ≡ none))
          × (Files.content F (write_file_atomic F path bytes w).0 path ≡ Files.content F w path))
unfolding write_file_atomic
write_file_atomic-Atomic F path bytes w =
    let tmp : String = str_append path ".tmp" in
    let other : Files.content F (Files.open_trunc F tmp w).1 path ≡ Files.content F w path =
      Files.open_trunc-other F tmp path w (Files.sibling-Distinct F path) in
    elim (Option-cases (Files.open_trunc F tmp w).0) [
      | inl e ↦ rw (write_file_atomic, e) (inr (inl refl, other))
      | inr (fd, e) ↦
          let (opened, empty) = Files.open_trunc-some F tmp w fd e in
          rw (write_file_atomic, e, ← other)
            (write_and_rename-Atomic F fd tmp path (Files.sibling-Distinct F path) bytes
              (Files.open_trunc F tmp w).1 opened empty)
    ]
