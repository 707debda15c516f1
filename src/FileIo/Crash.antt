-- ===== src/FileIo/Crash.antt =====
-- include/MiniDB/Common/FileIO.h: a call of writeFileAtomic that stops between two system calls.
use mini_database.Prelude.{ℕ, zero, suc, ◌≡◌, ◌⊎◌, inl, inr, refl, some, Option, List, String}
use mini_database.Packages.Files.{Files}
use mini_database.FileIo.Steps.{
  Phase, opening, writing, abandoning, closing, renaming, removing, ended, run,
}
use mini_database.FileIo.Interleaved.{Held, advance-Held}

module _ (F : Files) (path : String) (bytes : List ℕ) where
  open F use {World, content}

  -- The file of the path is the old one, or whole.
  abbrev pub OldOrWhole : Option (List ℕ) → World → Type 0
  OldOrWhole old w = (content w path ≡ old) ⊎ (content w path ≡ some bytes)

  Held-OldOrWhole :
      (old : Option (List ℕ)) (phase : Phase) (w : World)
      → Held F path bytes old phase w
      → OldOrWhole old w
  Held-OldOrWhole old opening w h = inl h
  Held-OldOrWhole old (writing fd rest) w (h, _, _) = inl h
  Held-OldOrWhole old (abandoning fd) w (h, _) = inl h
  Held-OldOrWhole old (closing fd) w (h, _, _) = inl h
  Held-OldOrWhole old renaming w (h, _) = inl h
  Held-OldOrWhole old removing w h = inl h
  Held-OldOrWhole old (ended status) w (inl (_, h)) = inr h
  Held-OldOrWhole old (ended status) w (inr (_, h)) = inl h

  run-Held :
      (old : Option (List ℕ)) (n : ℕ) (phase : Phase) (w : World)
      → Held F path bytes old phase w
      → Held F path bytes old (run F path bytes n phase w).0 (run F path bytes n phase w).1
  unfolding run
  run-Held old zero phase w h = h
  run-Held old (suc n) phase w h = run-Held old n _ _ (advance-Held F path bytes old phase w h)

  -- A writeFileAtomic that stops after any number of its system calls leaves the path's file as it was,
  -- or there is still none, or with the whole new content.
  pub run-OldOrWhole :
      (n : ℕ) (w : World) → OldOrWhole (content w path) (run F path bytes n opening w).1
  run-OldOrWhole n w =
      Held-OldOrWhole (content w path) _ _ (run-Held (content w path) n opening w refl)
