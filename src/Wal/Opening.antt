-- ===== src/Wal/Opening.antt =====
-- Storage/WriteAheadLog.cpp: open() on a file of valid frames with a torn tail.
use mini_database.Prelude.{
  ℕ, zero, suc, ◌+◌, ◌^◌, ◌<◌, ◌≤◌, ◌≡◌, refl, ap, sym, ◌∙◌, inl, inr, true, some, List, [], ◌∷◌,
  ◌++◌, append_assoc, append-nil, take_of_length-le, arith, length, length-append, take,
  take-append_len, subst, All, ==_iff, ◌==◌, Bool-cases,
}
use mini_database.Common.{ok}
use mini_database.Packages.Posix.{Posix, ReadsWhole}
use mini_database.Wal.{
  WriteAheadLog, next_frame, scan, Found, ended, valid, open_log, finish, close_first,
  nothing_found,
}
use mini_database.Wal.Frames.{Entry, Fits, frame_of, body_length, length-frame}
use mini_database.Wal.Recovery.{log_bytes, IsTorn, next_frame-IsTorn, next_frame-frame}

-- Where the frames of the entries start, the first of them at a position.
unfoldable pub offsets : ℕ → List Entry → List ℕ
offsets pos [] = []
offsets pos (e ∷ es) = pos ∷ offsets (pos + (4 + body_length e)) es

-- The term of the last entry, or one given.
unfoldable pub term_of_last : ℕ → List Entry → ℕ
term_of_last term [] = term
term_of_last term (e ∷ es) = term_of_last e.term es

-- The log's members and its file hold the entries; behind them the file holds a tail.
pub record Represents (S : Posix) (fd : ℕ) (log : WriteAheadLog) (w : Posix.World S)
    (es : List Entry) (tail : List ℕ) : Type 0 where
  pub fd_eq : log.fd ≡ some fd
  pub bytes_eq : Posix.bytes S w fd ≡ log_bytes 1 es ++ tail
  pub offsets_eq : log.offset_index ≡ offsets 0 es
  pub index_eq : log.last_index ≡ length es
  pub term_eq : log.last_term ≡ term_of_last 0 es
  pub write_offset_eq : log.write_offset ≡ length (log_bytes 1 es)

abbrev pub found_at : ℕ → List ℕ → ℕ → ℕ → Found
found_at pos offs index term = record { pos = pos; offsets = offs; index = index; term = term }

module _ (pos pos' index index' term term' : ℕ) (offs offs' : List ℕ) where
  found_eq :
      pos ≡ pos'
      → offs ≡ offs'
      → index ≡ index'
      → term ≡ term'
      → found_at pos offs index term ≡ found_at pos' offs' index' term'
  found_eq a b c d = cc

module _ (S : Posix) (fd : ℕ) (w : Posix.World S) (reads : ReadsWhole S w fd) where
  open S use {bytes, ftruncate, ftruncate-true}

  -- The scan takes the entries one after the other and stops behind the last.
  scan-log :
      (es : List Entry) (rounds pos count term : ℕ) (offs before tail : List ℕ)
      → All Fits es
      → IsTorn tail
      → count + length es < 2 ^ 64
      → length es < rounds
      → bytes w fd ≡ before ++ (log_bytes (count + 1) es ++ tail)
      → pos ≡ length before
      → count ≡ length offs
      → scan S rounds fd w (length (bytes w fd)) (found_at pos offs count term)
        ≡ ended (
            found_at
              (pos + length (log_bytes (count + 1) es))
              (offs ++ offsets pos es)
              (count + length es)
              (term_of_last term es))
  unfolding scan log_bytes offsets term_of_last
  scan-log es zero pos count term offs before tail fits torn few enough here at_pos counted =
      absurd (omega arith)
  scan-log [] (suc rounds) pos count term offs before tail fits torn few enough here at_pos
        counted =
      rw (next_frame-IsTorn S fd w reads pos (length offs) before tail here at_pos torn, scan)
        (ap ended
          (found_eq _ _ _ _ _ _ _ _ (omega arith) (sym (append-nil offs)) (omega arith) refl))
  scan-log (e ∷ es) (suc rounds) pos count term offs before tail (fit, fits) torn few enough here
        at_pos counted =
      let first : List ℕ = frame_of (count + 1) e in
      let more : List ℕ = log_bytes (count + 1 + 1) es in
      let split : bytes w fd ≡ before ++ (first ++ (more ++ tail)) =
        here ∙ ap (λ b. before ++ b) (append_assoc first more tail) in
      let moved : bytes w fd ≡ (before ++ first) ++ (more ++ tail) =
        split ∙ sym (append_assoc before first (more ++ tail)) in
      let taken : next_frame S fd w (length (bytes w fd)) pos (length offs)
          ≡ valid (count + 1) e.term (body_length e) =
        subst
          (λ c.
            next_frame S fd w (length (bytes w fd)) pos c
            ≡ valid (count + 1) e.term (body_length e))
          counted
          (next_frame-frame S fd w reads pos count before (first ++ (more ++ tail)) split at_pos e
            (more ++ tail) fit refl (omega arith)) in
      let rest =
        scan-log es rounds (pos + (4 + body_length e)) (count + 1) e.term (offs ++ pos ∷ [])
          (before ++ first) tail fits torn (omega arith) (omega arith) moved
          (omega (arith, length-append before first, length-frame (count + 1) e fit))
          (omega (arith, length-append offs (pos ∷ []))) in
      rw (taken, scan)
        (rest
          ∙ ap ended (
              found_eq _ _ _ _ _ _ _ _
                (omega (arith, length-append first more, length-frame (count + 1) e fit))
                (append_assoc offs (pos ∷ []) (offsets (pos + (4 + body_length e)) es))
                (omega arith) refl))

  length-log_bytes :
      (es : List Entry) (index : ℕ) → All Fits es → length es ≤ length (log_bytes index es)
  unfolding log_bytes
  length-log_bytes [] index fits = omega arith
  length-log_bytes (e ∷ es) index (fit, fits) = omega (
    arith,
    length-log_bytes es (index + 1) fits,
    length-append (frame_of index e) (log_bytes (index + 1) es),
    length-frame index e fit,
  )

  module _ (es : List Entry) (tail : List ℕ) (fits : All Fits es) (torn : IsTorn tail)
      (few : length es < 2 ^ 64) (here : bytes w fd ≡ log_bytes 1 es ++ tail) where
    abbrev pub recovered : Found
    recovered = found_at (length (log_bytes 1 es)) (offsets 0 es) (length es) (term_of_last 0 es)

    -- The scan of open from the start of the file.
    scan-recovered :
        scan S (suc (length (bytes w fd))) fd w (length (bytes w fd)) nothing_found
        ≡ ended recovered
    scan-recovered =
        scan-log es (suc (length (bytes w fd))) 0 0 0 [] [] tail fits torn (omega arith)
          (omega (
            arith,
            ap length here,
            length-append (log_bytes 1 es) tail,
            length-log_bytes es 1 fits,
          ))
          here refl refl
        ∙ ap ended (found_eq _ _ _ _ _ _ _ _ (omega arith) refl (omega arith) refl)

    -- The end of open cuts the tail off.
    finish-Represents :
        (log : WriteAheadLog)
        → (ftruncate fd (length (log_bytes 1 es)) w).0 ≡ true
        → let (log', w', status) = finish S log fd (length (bytes w fd)) recovered w in
          (status ≡ ok) × Represents S fd log' w' es []
    unfolding finish
    finish-Represents log cut =
        let end : ℕ = length (log_bytes 1 es) in
        let kept : take end (bytes w fd) ≡ log_bytes 1 es ++ [] =
          ap (take end) here
          ∙ take-append_len end (log_bytes 1 es) tail refl
          ∙ sym (append-nil (log_bytes 1 es)) in
        elim (Bool-cases (end == length (bytes w fd))) [
          | inl same ↦ rw same (
            refl,
            record {
              fd_eq = refl;
              bytes_eq =
                  sym (
                    take_of_length-le end (bytes w fd)
                      (ground (arith, ==_iff end (length (bytes w fd)), same)))
                  ∙ kept;
              offsets_eq = refl;
              index_eq = refl;
              term_eq = refl;
              write_offset_eq = refl;
            },
          )
          | inr differ ↦
              rw (differ, cut)
                (
                  refl,
                  record {
                    fd_eq = refl;
                    bytes_eq =
                        ftruncate-true fd end w cut
                          (omega (arith, ap length here, length-append (log_bytes 1 es) tail))
                        ∙ kept;
                    offsets_eq = refl;
                    index_eq = refl;
                    term_eq = refl;
                    write_offset_eq = refl;
                  },
                )
        ]

-- open() of a file that holds the frames of the entries and then a torn tail, where the calls succeed,
-- each entry's term and payload fit the frame and one read transfers it, and there are fewer than 2^64
-- entries: it ends, answers ok, cuts the tail off, and the log represents exactly the entries.
pub open_log-recovers :
    (S : Posix) (log : WriteAheadLog) (w w1 : Posix.World S) (fd : ℕ) (es : List Entry)
    (tail : List ℕ)
    → Posix.open_file S log.path (close_first S log w) ≡ (some fd, w1)
    → ReadsWhole S w1 fd
    → Posix.bytes S w1 fd ≡ log_bytes 1 es ++ tail
    → All Fits es
    → IsTorn tail
    → length es < 2 ^ 64
    → (Posix.ftruncate S fd (length (log_bytes 1 es)) w1).0 ≡ true
    → (log' : WriteAheadLog) × (w' : Posix.World S) × (open_log S log w ≡ some (log', w', ok))
      × Represents S fd log' w' es []
unfolding open_log
open_log-recovers S log w w1 fd es tail opened reads here fits torn few cut =
    let (answer, represents) = finish-Represents S fd w1 reads es tail fits torn few here log cut in
    let (log', w', status) =
      finish S log fd (length (Posix.bytes S w1 fd))
        (recovered S fd w1 reads es tail fits torn few here) w1 in
    (
      log',
      w',
      rw
          (
            ap (λ p. p.0) opened,
            open_log,
            ap (λ p. p.1) opened,
            reads.size_eq,
            ap (λ p. p.1) opened,
            scan-recovered S fd w1 reads es tail fits torn few here,
            ap (λ p. p.1) opened,
          )
          (ap (λ s. some (log', w', s)) answer),
      represents,
    )
