-- ===== src/Wal/Termination.antt =====
-- Storage/WriteAheadLog.cpp: the rounds of the loop of open().
use mini_database.Prelude.{
  ℕ, zero, suc, ◌+◌, ◌-◌, ◌<◌, ◌≤◌, ◌≡◌, ◌≢◌, ◌⊎◌, refl, arith, none, List, [], ◌∷◌, ◌++◌, length,
  take, Option-cases, inl, inr,
}
use mini_database.Packages.Posix.{Posix}
use mini_database.Wal.Bytes.{le_value}
use mini_database.Wal.{
  WriteAheadLog, Next, stop, error, valid, Found, Scan, ended, read_error, out_of_rounds,
  next_frame, check_body, scan, open_log, close_first, nothing_found,
}

check_body-valid :
    (frame_length count : ℕ) (body : List ℕ) (index term n : ℕ)
    → check_body frame_length body count ≡ valid index term n
    → n ≡ frame_length
unfolding check_body
check_body-valid frame_length count body index term n h = ground arith

Next-cases :
    (x : Next) → (x ≡ stop) ⊎ ((x ≡ error) ⊎ ((i : ℕ) × (t : ℕ) × (n : ℕ) × (x ≡ valid i t n)))
Next-cases stop = inl refl
Next-cases error = inr (inl refl)
Next-cases (valid i t n) = inr (inr (i, t, n, refl))

Scan-cases :
    (x : Scan)
    → ((f : Found) × (x ≡ ended f)) ⊎ (((f : Found) × (x ≡ read_error f)) ⊎ (x ≡ out_of_rounds))
Scan-cases (ended f) = inl (f, refl)
Scan-cases (read_error f) = inr (inl (f, refl))
Scan-cases out_of_rounds = inr (inr refl)

module _ (S : Posix) (fd : ℕ) (w : Posix.World S) (total : ℕ) where
  open S use {pread}

  -- A frame that the scan takes lies inside the file.
  next_frame-valid :
      (pos count index term n : ℕ)
      → next_frame S fd w total pos count ≡ valid index term n
      → pos + (4 + n) ≤ total
  unfolding next_frame
  next_frame-valid pos count index term n h = elim (Option-cases (pread fd 4 pos w)) [
    | inl lost ↦ ground (arith, lost)
    | inr (prefix, read) ↦
        let frame_length : ℕ = le_value (take 4 prefix) in
        elim (Option-cases (pread fd frame_length (pos + 4) w)) [
          | inl lost ↦ ground (arith, read, lost)
          | inr (body, read_body) ↦
              ground (arith, read, read_body, check_body-valid frame_length count body index term n)
        ]
  ]

  scan-ne-out_of_rounds :
      (rounds : ℕ) (found : Found)
      → found.pos ≤ total
      → total - found.pos < rounds
      → scan S rounds fd w total found ≢ out_of_rounds
  unfolding scan
  scan-ne-out_of_rounds zero found inside enough h = omega arith
  scan-ne-out_of_rounds (suc rounds) found inside enough h =
      elim (Next-cases (next_frame S fd w total found.pos (length found.offsets))) [
        | inl stopped ↦ ground (arith, h, stopped)
        | inr (inl broken) ↦ ground (arith, h, broken)
        | inr (inr (index, term, n, taken)) ↦
            let more = next_frame-valid found.pos (length found.offsets) index term n taken in
            scan-ne-out_of_rounds rounds
              (record {
                pos = found.pos + (4 + n);
                offsets = found.offsets ++ found.pos ∷ [];
                index = index;
                term = term;
              })
              more (omega arith) (ground (arith, h, taken))
      ]

-- open() ends with an answer, whatever the file holds and whatever the calls answer.
pub open_log-ne-none :
    (S : Posix) (log : WriteAheadLog) (w : Posix.World S) → open_log S log w ≢ none
unfolding open_log
open_log-ne-none S log w h =
    let (opened, w1) = Posix.open_file S log.path (close_first S log w) in
    elim (Option-cases opened) [
      | inl closed ↦ ground (arith, h, closed)
      | inr (fd, is_open) ↦ elim (Option-cases (Posix.file_size S fd w1)) [
        | inl lost ↦ ground (arith, h, is_open, lost)
        | inr (total, size) ↦
            let ends =
              scan-ne-out_of_rounds S fd w1 total (suc total) nothing_found (omega arith)
                (omega arith) in
            elim (Scan-cases (scan S (suc total) fd w1 total nothing_found)) [
              | inl (found, over) ↦ ground (arith, h, is_open, size, over)
              | inr (inl (found, over)) ↦ ground (arith, h, is_open, size, over)
              | inr (inr over) ↦ ends over
            ]
      ]
    ]
