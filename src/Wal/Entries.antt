-- ===== src/Wal/Entries.antt =====
-- Storage/WriteAheadLog.cpp: entryAt against the entries that the log represents.
use mini_database.Prelude.{
  ℕ, suc, ◌+◌, ◌-◌, ◌^◌, ◌<◌, ◌≡◌, refl, ap, sym, ◌∙◌, none, some, List, [], ◌∷◌, ◌++◌,
  append_assoc, arith, length, length-append, get_elem?, get_elem?-append_len, take,
  take-append_len, take-take, All,
}
use mini_database.Common.{ok, io_error}
use mini_database.Packages.Posix.{Posix, ReadsWhole}
use mini_database.Wal.{LogEntry, WriteAheadLog}
use mini_database.Wal.Bytes.{le_value}
use mini_database.Wal.Frames.{
  Entry, Fits, frame_of, body_length, body, length-body, length-frame, payload_and_rest, read_index,
  read_term, read_length,
}
use mini_database.Wal.Recovery.{log_bytes, read_prefix, prefix_value, length-prefix, read_body}
use mini_database.Wal.Opening.{offsets, Represents}
use mini_database.Wal.Reading.{entry_of, read_open_frame, read_frame_at, read_indexed, entry_at}

abbrev pub log_entry : ℕ → Entry → LogEntry
log_entry index e = record { index = index; term = e.term; payload = e.payload }

-- A body that append wrote holds its entry.
entry_of-body :
    (index : ℕ) (e : Entry) (fits : Fits e)
    → index < 2 ^ 64
    → entry_of (body index e fits) ≡ log_entry index e
unfolding entry_of
entry_of-body index e fits small =
    rw
      (
        read_index index e fits small,
        read_term index e fits,
        read_length index e fits,
        payload_and_rest index e fits,
      )
      (ap (λ p. record { index = index; term = e.term; payload = p })
        (take-append_len (length e.payload) e.payload _ refl))

-- Concatenated entries are concatenated frames and positions.
module _ (ys : List Entry) where
  pub log_bytes-append_list :
      (xs : List Entry) (index : ℕ)
      → log_bytes index (xs ++ ys) ≡ log_bytes index xs ++ log_bytes (index + length xs) ys
  unfolding log_bytes
  log_bytes-append_list [] index = ap (λ i. log_bytes i ys) (omega arith)
  log_bytes-append_list (x ∷ xs) index =
      ap (λ b. frame_of index x ++ b)
        (log_bytes-append_list xs (index + 1)
          ∙ ap (λ i. log_bytes (index + 1) xs ++ log_bytes i ys) (omega arith))
      ∙ sym (append_assoc (frame_of index x) (log_bytes (index + 1) xs) _)

  pub offsets-append_list :
      (xs : List Entry) (pos index : ℕ)
      → All Fits xs
      → offsets pos (xs ++ ys) ≡ offsets pos xs ++ offsets (pos + length (log_bytes index xs)) ys
  unfolding offsets log_bytes
  offsets-append_list [] pos index fits = ap (λ p. offsets p ys) (omega arith)
  offsets-append_list (x ∷ xs) pos index (fit, fits) = ap (◌∷◌ pos) (
      offsets-append_list xs (pos + (4 + body_length x)) (index + 1) fits
      ∙ ap (λ p. offsets (pos + (4 + body_length x)) xs ++ offsets p ys)
          (omega (
            arith,
            length-append (frame_of index x) (log_bytes (index + 1) xs),
            length-frame index x fit,
          )))

pub length-offsets : (es : List Entry) (pos : ℕ) → length (offsets pos es) ≡ length es
unfolding offsets
length-offsets [] pos = refl
length-offsets (e ∷ es) pos = ap suc (length-offsets es (pos + (4 + body_length e)))

module _ (S : Posix) (fd : ℕ) (log : WriteAheadLog) (w : Posix.World S) (xs ys : List Entry)
    (e : Entry) (tail : List ℕ) (r : Represents S fd log w (xs ++ e ∷ ys) tail) (fits : All Fits xs)
    (fit : Fits e) (few : length xs + 1 < 2 ^ 64) where
  open S use {bytes}

  -- Where the entry behind `xs` starts.
  abbrev pub start : ℕ
  start = length (log_bytes 1 xs)

  pub offset-eq : get_elem? log.offset_index (length xs) ≡ some start
  unfolding offsets
  offset-eq =
      ap (λ o. get_elem? o (length xs)) (r.offsets_eq ∙ offsets-append_list (e ∷ ys) xs 0 1 fits)
      ∙ get_elem?-append_len (offsets 0 xs) (0 + start) (length xs) _ (sym (length-offsets xs 0))
      ∙ ap some (omega arith)

  -- The bytes behind the entry's frame.
  abbrev following : List ℕ
  following = log_bytes (length xs + 1 + 1) ys ++ tail

  bytes-split : bytes w fd ≡ log_bytes 1 xs ++ (frame_of (length xs + 1) e ++ following)
  unfolding log_bytes
  bytes-split =
      r.bytes_eq
      ∙ ap (λ b. b ++ tail)
          (log_bytes-append_list (e ∷ ys) xs 1
            ∙ ap (λ i. log_bytes 1 xs ++ (frame_of i e ++ log_bytes (i + 1) ys)) (omega arith))
      ∙ append_assoc (log_bytes 1 xs) _ tail
      ∙ ap (λ b. log_bytes 1 xs ++ b) (append_assoc (frame_of (length xs + 1) e) _ tail)

  module _ (out : LogEntry) (reads : ReadsWhole S w fd) where
    read_open_frame-eq : read_open_frame S fd start out w ≡ (ok, log_entry (length xs + 1) e)
    unfolding read_open_frame
    read_open_frame-eq =
        let before : List ℕ = log_bytes 1 xs in
        let rest : List ℕ = frame_of (length xs + 1) e ++ following in
        let value : le_value (take 4 (take 4 rest)) ≡ body_length e =
          ap le_value (take-take 4 4 rest (omega arith))
          ∙ prefix_value S fd w reads start (length xs) before rest bytes-split refl e following fit
              refl in
        rw
          (
            read_open_frame,
            read_prefix S fd w reads start (length xs) before rest bytes-split refl,
            value,
            read_body S fd w reads start (length xs) before rest bytes-split refl e following fit
                refl,
            length-prefix S fd w reads start (length xs) before rest bytes-split refl e following
                fit refl,
            length-body (length xs + 1) e fit,
          )
          (ground (arith, entry_of-body (length xs + 1) e fit few))

    pub read_indexed-eq :
        read_indexed S log (length xs) out w ≡ some (ok, log_entry (length xs + 1) e)
    unfolding read_indexed read_frame_at
    read_indexed-eq =
        rw (read_indexed, offset-eq)
          (ap some (
            ap
              (λ f. elim f [
                | none ↦ (io_error, out)
                | some fd' ↦ read_open_frame S fd' start out w
              ])
              r.fd_eq
            ∙ read_open_frame-eq))

    -- entryAt of the index of an entry `e` of a log that represents `xs`, `e` and then `ys`, over reads
    -- that succeed and with entries that append takes: it answers ok and `e` with its index.
    pub entry_at-eq : entry_at S log (length xs + 1) out w ≡ some (ok, log_entry (length xs + 1) e)
    unfolding entry_at
    entry_at-eq =
        let position : length xs + 1 - 1 ≡ length xs = omega arith in
        rw (position, r.index_eq, length-append xs (e ∷ ys)) (ground (arith, read_indexed-eq))
