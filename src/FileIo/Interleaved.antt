-- ===== src/FileIo/Interleaved.antt =====
-- include/MiniDB/Common/FileIO.h: a call of writeFileAtomic among others that write other files.
use mini_database.Prelude.{
  ℕ, ◌≡◌, ◌⊎◌, inl, inr, refl, sym, ap, ◌∙◌, Bool-cases, Option-cases, Option, none, some, List, [],
  ◌∷◌, ◌++◌, String, arith, take, drop, take-drop, append_assoc, append-nil,
}
use mini_database.Common.{ok, io_error}
use mini_database.Packages.Files.{Files}
use mini_database.FileIo.Steps.{
  Phase, opening, writing, abandoning, closing, renaming, removing, ended, sibling, advance,
}

-- The files of one call are not those of the other.
pub record Apart (F : Files) (path other : String) : Type 0 where
  pub paths : Files.Distinct F path other
  pub path_sibling : Files.Distinct F path (sibling other)
  pub sibling_path : Files.Distinct F (sibling path) other
  pub siblings : Files.Distinct F (sibling path) (sibling other)

module _ (F : Files) where
  open F use {
    World, content, Writes, open_trunc, write, fsync, close, rename, remove, open_trunc-some,
    open_trunc-other, open_trunc-Writes, write-some, write-other, write-Writes, fsync-content,
    fsync-Writes, close-content, close-Writes, rename-true, rename-false, rename-other,
    rename-Writes, remove-other, remove-Writes,
  }

  -- What is so while a call stands there: until it succeeds the path's file is the old one, and the
  -- sibling file holds what was written.
  abbrev pub Held : String → List ℕ → Option (List ℕ) → Phase → World → Type 0
  Held path bytes old opening w = content w path ≡ old
  Held path bytes old (writing fd rest) w =
      (content w path ≡ old)
      × Writes w fd (sibling path)
      × ((before : List ℕ) × (content w (sibling path) ≡ some before) × (before ++ rest ≡ bytes))
  Held path bytes old (abandoning fd) w = (content w path ≡ old) × Writes w fd (sibling path)
  Held path bytes old (closing fd) w =
      (content w path ≡ old) × Writes w fd (sibling path) × (content w (sibling path) ≡ some bytes)
  Held path bytes old renaming w = (content w path ≡ old) × (content w (sibling path) ≡ some bytes)
  Held path bytes old removing w = content w path ≡ old
  Held path bytes old (ended status) w =
      ((status ≡ some ok) × (content w path ≡ some bytes))
      ⊎ (((status ≡ some io_error) ⊎ (status ≡ none)) × (content w path ≡ old))

  -- A change of the world that leaves the path, its sibling and the descriptors of that alone.
  pub record Quiet (path : String) (w w' : World) : Type 0 where
    pub path_eq : content w' path ≡ content w path
    pub sibling_eq : content w' (sibling path) ≡ content w (sibling path)
    pub still : (fd : ℕ) → Writes w fd (sibling path) → Writes w' fd (sibling path)

  pub Held-Quiet :
      (path : String) (bytes : List ℕ) (old : Option (List ℕ)) (phase : Phase) (w w' : World)
      → Quiet path w w'
      → Held path bytes old phase w
      → Held path bytes old phase w'
  Held-Quiet path bytes old opening w w' q h = q.path_eq ∙ h
  Held-Quiet path bytes old (writing fd rest) w w' q (h, o, (before, e, whole)) =
      (q.path_eq ∙ h, q.still fd o, (before, q.sibling_eq ∙ e, whole))
  Held-Quiet path bytes old (abandoning fd) w w' q (h, o) = (q.path_eq ∙ h, q.still fd o)
  Held-Quiet path bytes old (closing fd) w w' q (h, o, e) =
      (q.path_eq ∙ h, q.still fd o, q.sibling_eq ∙ e)
  Held-Quiet path bytes old renaming w w' q (h, e) = (q.path_eq ∙ h, q.sibling_eq ∙ e)
  Held-Quiet path bytes old removing w w' q h = q.path_eq ∙ h
  Held-Quiet path bytes old (ended status) w w' q (inl (s, h)) = inl (s, q.path_eq ∙ h)
  Held-Quiet path bytes old (ended status) w w' q (inr (s, h)) = inr (s, q.path_eq ∙ h)

  -- The call's own step.
  pub advance-Held :
      (path : String) (bytes : List ℕ) (old : Option (List ℕ)) (phase : Phase) (w : World)
      → Held path bytes old phase w
      → Held path bytes old (advance F path bytes phase w).0 (advance F path bytes phase w).1
  unfolding advance
  advance-Held path bytes old opening w h = elim (Option-cases (open_trunc (sibling path) w).0) [
    | inl e ↦
        rw (e, advance)
          (inr (inl refl, open_trunc-other (sibling path) path w (F.sibling-Distinct path) ∙ h))
    | inr (fd, e) ↦
        let (o, empty) = open_trunc-some (sibling path) w fd e in
        rw (e, advance)
          (
            open_trunc-other (sibling path) path w (F.sibling-Distinct path) ∙ h,
            o,
            ([], empty, refl),
          )
  ]
  advance-Held path bytes old (writing fd []) w (h, o, (before, e, whole)) =
      elim (Bool-cases (fsync fd w).0) [
        | inl y ↦
            rw (y, advance)
              (
                fsync-content fd w path ∙ h,
                fsync-Writes fd (sibling path) w fd o,
                fsync-content fd w (sibling path) ∙ e ∙ ap some (sym (append-nil before) ∙ whole),
              )
        | inr n ↦
            rw (n, advance) (fsync-content fd w path ∙ h, fsync-Writes fd (sibling path) w fd o)
      ]
  advance-Held path bytes old (writing fd (b ∷ bs)) w (h, o, (before, e, whole)) =
      let same : content (write fd (b ∷ bs) w).1 path ≡ old =
        write-other fd (sibling path) path (b ∷ bs) w o (F.sibling-Distinct path) ∙ h in
      elim (Option-cases (write fd (b ∷ bs) w).0) [
        | inl n ↦
            rw (n, advance) (same, write-Writes fd (sibling path) (b ∷ bs) (sibling path) w fd o o)
        | inr (k, n) ↦
            let (some_byte, within, o', e') =
              write-some fd (sibling path) (b ∷ bs) before w k o e (omega arith) n in
            rw (n, advance)
              (
                same,
                o',
                (
                  before ++ take k (b ∷ bs),
                  e',
                  append_assoc before (take k (b ∷ bs)) (drop k (b ∷ bs))
                      ∙ ap (λ l. before ++ l) (take-drop k (b ∷ bs))
                      ∙ whole,
                ),
              )
      ]
  advance-Held path bytes old (abandoning fd) w (h, o) = inr (inl refl, close-content fd w path ∙ h)
  advance-Held path bytes old (closing fd) w (h, o, e) =
      (close-content fd w path ∙ h, close-content fd w (sibling path) ∙ e)
  advance-Held path bytes old renaming w (h, e) =
      elim (Bool-cases (rename (sibling path) path w).0) [
        | inl y ↦ rw (y, advance) (inl (refl, rename-true (sibling path) path w y ∙ e))
        | inr n ↦ rw (n, advance) (rename-false (sibling path) path path w n ∙ h)
      ]
  advance-Held path bytes old removing w h =
      let same : content (remove (sibling path) w).1 path ≡ old =
        remove-other (sibling path) path w (F.sibling-Distinct path) ∙ h in
      elim (Bool-cases (remove (sibling path) w).0) [
        | inl y ↦ rw (y, advance) (inr (inl refl, same))
        | inr n ↦ rw (n, advance) (inr (inr refl, same))
      ]
  advance-Held path bytes old (ended status) w h = h

  -- A step of a call on other files.
  pub advance-Quiet :
      (path other : String) (bytes : List ℕ) (old : Option (List ℕ)) (phase : Phase) (w : World)
      → Apart F path other
      → Held path bytes old phase w
      → Quiet other w (advance F path bytes phase w).1
  unfolding advance
  advance-Quiet path other bytes old opening w a h =
      let opened : Quiet other w (open_trunc (sibling path) w).1 = record {
        path_eq = open_trunc-other (sibling path) other w a.sibling_path;
        sibling_eq = open_trunc-other (sibling path) (sibling other) w a.siblings;
        still = λ fd. open_trunc-Writes (sibling path) (sibling other) w fd a.siblings;
      } in
      elim (Option-cases (open_trunc (sibling path) w).0) [
        | inl e ↦ rw (e, advance) opened
        | inr (fd, e) ↦ rw (e, advance) opened
      ]
  advance-Quiet path other bytes old (writing fd []) w a h =
      let synced : Quiet other w (fsync fd w).1 = record {
        path_eq = fsync-content fd w other;
        sibling_eq = fsync-content fd w (sibling other);
        still = λ k. fsync-Writes fd (sibling other) w k;
      } in
      elim (Bool-cases (fsync fd w).0) [
        | inl y ↦ rw (y, advance) synced
        | inr n ↦ rw (n, advance) synced
      ]
  advance-Quiet path other bytes old (writing fd (b ∷ bs)) w a (h, o, rest) =
      let written : Quiet other w (write fd (b ∷ bs) w).1 = record {
        path_eq = write-other fd (sibling path) other (b ∷ bs) w o a.sibling_path;
        sibling_eq = write-other fd (sibling path) (sibling other) (b ∷ bs) w o a.siblings;
        still = λ k. write-Writes fd (sibling path) (b ∷ bs) (sibling other) w k o;
      } in
      elim (Option-cases (write fd (b ∷ bs) w).0) [
        | inl n ↦ rw (n, advance) written
        | inr (k, n) ↦ rw (n, advance) written
      ]
  advance-Quiet path other bytes old (abandoning fd) w a (h, o) = record {
    path_eq = close-content fd w other;
    sibling_eq = close-content fd w (sibling other);
    still = λ k. close-Writes fd (sibling path) (sibling other) w k o a.siblings;
  }
  advance-Quiet path other bytes old (closing fd) w a (h, o, e) = record {
    path_eq = close-content fd w other;
    sibling_eq = close-content fd w (sibling other);
    still = λ k. close-Writes fd (sibling path) (sibling other) w k o a.siblings;
  }
  advance-Quiet path other bytes old renaming w a h =
      let renamed : Quiet other w (rename (sibling path) path w).1 = record {
        path_eq = rename-other (sibling path) path other w a.sibling_path a.paths;
        sibling_eq = rename-other (sibling path) path (sibling other) w a.siblings a.path_sibling;
        still =
            λ k. rename-Writes (sibling path) path (sibling other) w k a.siblings a.path_sibling;
      } in
      elim (Bool-cases (rename (sibling path) path w).0) [
        | inl y ↦ rw (y, advance) renamed
        | inr n ↦ rw (n, advance) renamed
      ]
  advance-Quiet path other bytes old removing w a h = record {
    path_eq = remove-other (sibling path) other w a.sibling_path;
    sibling_eq = remove-other (sibling path) (sibling other) w a.siblings;
    still = λ k. remove-Writes (sibling path) (sibling other) w k a.siblings;
  }
  advance-Quiet path other bytes old (ended status) w a h = record {
    path_eq = refl;
    sibling_eq = refl;
    still = λ k o. o;
  }
