-- ===== src/Wal/Truncation.antt =====
-- Storage/WriteAheadLog.cpp: truncateFrom against the entries that the log represents.
use mini_database.Prelude.{
  ℕ, suc, ◌+◌, ◌-◌, ◌^◌, ◌<◌, ◌≡◌, refl, ap, sym, ◌∙◌, subst, false, none, some, Option, List, [],
  ◌∷◌, ◌++◌, append_assoc, append-nil, arith, length, length-append, take, take-append_len,
  get_elem?, All, ltb, ◌==◌, Bool-cases, ◌⊎◌, inl, inr,
}
use mini_database.Common.{Status, ok, io_error}
use mini_database.Packages.Posix.{Posix, ReadsWhole}
use mini_database.Wal.{WriteAheadLog}
use mini_database.Wal.Frames.{Entry, Fits}
use mini_database.Wal.Recovery.{log_bytes}
use mini_database.Wal.Opening.{offsets, term_of_last, Represents}
use mini_database.Wal.Appending.{term_of_last-append}
use mini_database.Wal.Reading.{no_entry, cut_at, truncate_entries, truncate_open, truncate_from}
use mini_database.Wal.Entries.{
  read_indexed-eq, offset-eq, log_bytes-append_list, offsets-append_list, length-offsets,
}

-- A list is empty or has a last element.
last-cases : (xs : List Entry) → (xs ≡ []) ⊎ ((zs : List Entry) × (z : Entry) × (xs ≡ zs ++ z ∷ []))
last-cases [] = inl refl
last-cases (x ∷ xs) = elim (last-cases xs) [
  | inl e ↦ inr ([], x, ap (◌∷◌ x) e)
  | inr (zs, z, e) ↦ inr (x ∷ zs, z, ap (◌∷◌ x) e)
]

All-front : (xs ys : List Entry) → All Fits (xs ++ ys) → All Fits xs × All Fits ys
All-front [] ys h = (tt, h)
All-front (x ∷ xs) ys (p, h) = let (a, b) = All-front xs ys h in ((p, a), b)

module _ (S : Posix) (fd : ℕ) (log : WriteAheadLog) (w : Posix.World S) (xs ys : List Entry)
    (tail : List ℕ) where
  open S use {World, bytes, ftruncate, ftruncate-true, ftruncate-false}

  -- What truncateFrom may answer at the first index behind `xs`, and what the log then represents.
  unfoldable pub Truncated : Option (WriteAheadLog × World × Status) → Type 0
  Truncated answer =
      (log' : WriteAheadLog) × (w' : World) × (status : Status) × (answer ≡ some (log', w', status))
      × (((status ≡ ok) × Represents S fd log' w' xs [])
          ⊎ ((status ≡ io_error) × (log' ≡ log) × Represents S fd log w' (xs ++ ys) tail))

  cut_at-Truncated :
      Represents S fd log w (xs ++ ys) tail
      → All Fits xs
      → Truncated
          (some (cut_at S fd log (length xs) (length (log_bytes 1 xs)) (term_of_last 0 xs) w))
  unfolding cut_at Truncated
  cut_at-Truncated r fits =
      let end : ℕ = length (log_bytes 1 xs) in
      let split : bytes w fd ≡ log_bytes 1 xs ++ (log_bytes (1 + length xs) ys ++ tail) =
        r.bytes_eq
        ∙ ap (λ b. b ++ tail) (log_bytes-append_list ys xs 1)
        ∙ append_assoc (log_bytes 1 xs) _ tail in
      elim (Bool-cases (ftruncate fd end w).0) [
        | inl cut ↦ rw cut (
          _,
          _,
          _,
          refl,
          inl (
            refl,
            record {
              fd_eq = r.fd_eq;
              bytes_eq =
                  ftruncate-true fd end w cut (
                    omega (
                      arith,
                      ap length split,
                      length-append (log_bytes 1 xs) (log_bytes (1 + length xs) ys ++ tail),
                    ))
                  ∙ ap (take end) split
                  ∙ take-append_len end (log_bytes 1 xs) _ refl
                  ∙ sym (append-nil (log_bytes 1 xs));
              offsets_eq =
                  ap (take (length xs)) (r.offsets_eq ∙ offsets-append_list ys xs 0 1 fits)
                  ∙ take-append_len (length xs) (offsets 0 xs) _ (sym (length-offsets xs 0));
              index_eq = refl;
              term_eq = refl;
              write_offset_eq = refl;
            },
          ),
        )
        | inr kept ↦ rw kept (
          _,
          _,
          _,
          refl,
          inr (
            refl,
            refl,
            record {
              fd_eq = r.fd_eq;
              bytes_eq = ftruncate-false fd end w kept ∙ r.bytes_eq;
              offsets_eq = r.offsets_eq;
              index_eq = r.index_eq;
              term_eq = r.term_eq;
              write_offset_eq = r.write_offset_eq;
            },
          ),
        )
      ]

  -- The new last term is read back from the file, or none is left.
  truncate_entries-eq :
      Represents S fd log w (xs ++ ys) tail
      → All Fits xs
      → length xs < 2 ^ 64
      → ReadsWhole S w fd
      → truncate_entries S fd log (length xs) (length (log_bytes 1 xs)) w
        ≡ some (cut_at S fd log (length xs) (length (log_bytes 1 xs)) (term_of_last 0 xs) w)
  unfolding truncate_entries term_of_last
  truncate_entries-eq r fits few reads = elim (last-cases xs) [
    | inl empty ↦ rw empty refl
    | inr (zs, z, e) ↦
        let (fits_zs, fit) = All-front zs (z ∷ []) (subst (All Fits) e fits) in
        let split : xs ++ ys ≡ zs ++ z ∷ ys = ap (λ l. l ++ ys) e ∙ append_assoc zs (z ∷ []) ys in
        let count : length xs ≡ suc (length zs) =
          omega (arith, ap length e, length-append zs (z ∷ [])) in
        let read =
          read_indexed-eq S fd log w zs ys z tail
            (subst (λ es. Represents S fd log w es tail) split r) fits_zs fit.0 (omega arith)
            no_entry reads in
        rw (count, truncate_entries, read, ap (term_of_last 0) e, term_of_last-append z zs 0) refl
  ]

-- An index that the log has is cut at its frame.
truncate_open-entries :
    (S : Posix) (fd : ℕ) (log : WriteAheadLog) (w : Posix.World S) (n cut_offset : ℕ)
    → n < log.last_index
    → get_elem? log.offset_index n ≡ some cut_offset
    → truncate_open S fd log (n + 1) w ≡ truncate_entries S fd log n cut_offset w
unfolding truncate_open
truncate_open-entries S fd log w n cut_offset less e =
    let position : n + 1 - 1 ≡ n = omega arith in
    let inside : ltb log.last_index (n + 1) ≡ false = ground arith in
    let some_index : (n + 1 == 0) ≡ false = ground arith in
    rw (some_index, inside, position, e, position) refl

-- truncateFrom of the index of the entry `e` in a log that represents `xs`, `e` and then `ys`, over
-- reads that succeed, where append takes the entries `xs` and `e` and their indexes do not overflow: it
-- answers ok and the log represents exactly `xs`, or it answers IO_ERROR and the log represents
-- what it did, with its members unchanged.
pub truncate_from-Truncated :
    (S : Posix) (fd : ℕ) (log : WriteAheadLog) (w : Posix.World S) (xs ys : List Entry) (e : Entry)
    (tail : List ℕ)
    → Represents S fd log w (xs ++ e ∷ ys) tail
    → All Fits xs
    → Fits e
    → length xs + 1 < 2 ^ 64
    → ReadsWhole S w fd
    → Truncated S fd log w xs (e ∷ ys) tail (truncate_from S log (length xs + 1) w)
unfolding truncate_from
truncate_from-Truncated S fd log w xs ys e tail r fits fit few reads =
    let total : log.last_index ≡ length xs + suc (length ys) =
      r.index_eq ∙ length-append xs (e ∷ ys) in
    let answer : Option (WriteAheadLog × Posix.World S × Status) =
      some (cut_at S fd log (length xs) (length (log_bytes 1 xs)) (term_of_last 0 xs) w) in
    let cut : truncate_from S log (length xs + 1) w ≡ answer =
      ap
        (λ f. elim f [
          | none ↦ some (log, w, io_error)
          | some fd' ↦ truncate_open S fd' log (length xs + 1) w
        ])
        r.fd_eq
      ∙ truncate_open-entries S fd log w (length xs) (length (log_bytes 1 xs)) (omega arith)
          (offset-eq S fd log w xs ys e tail r fits fit few)
      ∙ truncate_entries-eq S fd log w xs (e ∷ ys) tail r fits (omega arith) reads in
    subst (Truncated S fd log w xs (e ∷ ys) tail) (sym cut)
      (cut_at-Truncated S fd log w xs (e ∷ ys) tail r fits)
