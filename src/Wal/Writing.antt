-- ===== src/Wal/Writing.antt =====
-- Storage/WriteAheadLog.cpp: the write loop of append, over partial writes and failures.
use mini_database.Prelude.{
  ℕ, zero, suc, ◌+◌, ◌≤◌, ◌≡◌, refl, ap, sym, ◌∙◌, ap₂, ◌⊎◌, inl, inr, List, [], ◌∷◌, ◌++◌,
  append_assoc, arith, length, length-append, take, drop, take-append_len, drop-append_len,
  drop-drop, length-drop, length-take, take-drop, take-take, Option-cases,
}
use mini_database.Packages.Posix.{Posix}
use mini_database.Wal.{Written, done, failed, write_loop}

-- What the write loop leaves: the buffer at its place, or a failure that leaves what stands before it.
module _ (S : Posix) (fd : ℕ) where
  open S use {World, bytes, pwrite, pwrite-some, pwrite-none}

  unfoldable pub WriteDone : List ℕ → List ℕ → List ℕ → Written × World → Type 0
  WriteDone before buf tail (outcome, w') =
      (outcome ≡ done) × (bytes w' fd ≡ before ++ (buf ++ drop (length buf) tail))

  unfoldable pub WriteFailed : List ℕ → Written × World → Type 0
  WriteFailed before (outcome, w') =
      (outcome ≡ failed) × (take (length before) (bytes w' fd) ≡ before)

  module _ (before tail : List ℕ) (off : ℕ) (w : World) (here : bytes w fd ≡ before ++ tail)
      (at_off : off ≡ length before) where
    front : take off (bytes w fd) ≡ before
    front = ap (take off) here ∙ take-append_len off before tail at_off

    behind : (n : ℕ) → drop (off + n) (bytes w fd) ≡ drop n tail
    behind n =
        sym (drop-drop n off (bytes w fd))
        ∙ ap (drop n) (ap (drop off) here ∙ drop-append_len off before tail at_off)

    -- A round that writes `n` bytes moves them in front of the place.
    part_written :
        (buf : List ℕ) (n : ℕ)
        → bytes (pwrite fd buf off w).1 fd
          ≡ take off (bytes w fd) ++ (take n buf ++ drop (off + n) (bytes w fd))
        → bytes (pwrite fd buf off w).1 fd ≡ (before ++ take n buf) ++ drop n tail
    part_written buf n e =
        e
        ∙ ap₂ (λ a b. a ++ (take n buf ++ b)) front (behind n)
        ∙ sym (append_assoc before (take n buf) (drop n tail))

  module _ (before buf tail : List ℕ) (n : ℕ) (part : n ≤ length buf) where
    length-part : length (before ++ take n buf) ≡ length before + n
    length-part = omega (arith, length-append before (take n buf), length-take n buf)

    whole_written :
        (before ++ take n buf) ++ (drop n buf ++ drop (length (drop n buf)) (drop n tail))
        ≡ before ++ (buf ++ drop (length buf) tail)
    whole_written =
        append_assoc before (take n buf) _
        ∙ ap (λ b. before ++ b) (sym (append_assoc (take n buf) (drop n buf) _))
        ∙ ap₂ (λ a b. before ++ (a ++ b)) (take-drop n buf)
            (drop-drop (length (drop n buf)) n tail
              ∙ ap (λ k. drop k tail) (omega (arith, length-drop n buf)))

    front_kept :
        (after : List ℕ)
        → take (length (before ++ take n buf)) after ≡ before ++ take n buf
        → take (length before) after ≡ before
    front_kept after e =
        sym (
          take-take (length before) (length (before ++ take n buf)) after
            (omega (arith, length-part)))
        ∙ ap (take (length before)) e
        ∙ take-append_len (length before) before (take n buf) refl

  -- The write loop writes the whole buffer, or fails and leaves what stands before its place.
  pub write_loop-cases :
      (rounds : ℕ) (buf before tail : List ℕ) (off : ℕ) (w : World)
      → length buf ≤ rounds
      → bytes w fd ≡ before ++ tail
      → off ≡ length before
      → WriteDone before buf tail (write_loop S rounds fd buf off w)
        ⊎ WriteFailed before (write_loop S rounds fd buf off w)
  unfolding write_loop WriteDone WriteFailed
  write_loop-cases rounds [] before tail off w enough here at_off = inl (refl, here)
  write_loop-cases zero (b ∷ bs) before tail off w enough here at_off = absurd (omega arith)
  write_loop-cases (suc rounds) (b ∷ bs) before tail off w enough here at_off =
      elim (Option-cases (pwrite fd (b ∷ bs) off w).0) [
        | inl lost ↦
            rw (lost, write_loop)
              (inr (
                refl,
                ap (λ k. take k (bytes (pwrite fd (b ∷ bs) off w).1 fd)) (sym at_off)
                    ∙ pwrite-none fd (b ∷ bs) off w lost
                    ∙ front before tail off w here at_off,
              ))
        | inr (n, wrote) ↦
            let (some_part, part, after) =
              pwrite-some fd (b ∷ bs) off w n wrote (omega arith)
                (omega (arith, ap length here, length-append before tail)) in
            let rest =
              write_loop-cases rounds (drop n (b ∷ bs)) (before ++ take n (b ∷ bs)) (drop n tail)
                (off + n) (pwrite fd (b ∷ bs) off w).1 (omega (arith, length-drop n (b ∷ bs)))
                (part_written before tail off w here at_off (b ∷ bs) n after)
                (omega (arith, length-part before (b ∷ bs) tail n part)) in
            rw (wrote, write_loop)
              (elim rest [
                | inl (finished, all) ↦
                    inl (finished, all ∙ whole_written before (b ∷ bs) tail n part)
                | inr (broken, kept) ↦ inr (broken, front_kept before (b ∷ bs) tail n part _ kept)
              ])
      ]
