-- ===== src/Wal/Appending.antt =====
-- Storage/WriteAheadLog.cpp: append against the entries that the log represents.
use mini_database.Prelude.{
  ℕ, ◌+◌, ◌%◌, ◌^◌, ◌<◌, ◌≡◌, refl, ap, sym, ◌∙◌, subst, ap₂, ◌⊎◌, inl, inr, true, false, none,
  some, Option, List, [], ◌∷◌, ◌++◌, append_assoc, append-nil, arith, length, length-append, take,
  drop, take-append_len, take-drop, All, Bool-cases,
}
use mini_database.Common.{Status, ok, io_error}
use mini_database.Packages.Posix.{Posix}
use mini_database.Wal.{WriteAheadLog, Written, done, failed, write_loop, append, append_to}
use mini_database.Wal.Frames.{Entry, Fits, frame_of, body_length, length-frame}
use mini_database.Wal.Recovery.{log_bytes}
use mini_database.Wal.Opening.{offsets, term_of_last, Represents}
use mini_database.Wal.Writing.{WriteDone, WriteFailed, write_loop-cases}

-- One more entry at the end.
module _ (e : Entry) where
  pub log_bytes-append :
      (es : List Entry) (index last : ℕ)
      → index + length es ≡ last
      → log_bytes index (es ++ e ∷ []) ≡ log_bytes index es ++ frame_of last e
  unfolding log_bytes
  log_bytes-append [] index last h =
      append-nil (frame_of index e) ∙ ap (λ i. frame_of i e) (omega arith)
  log_bytes-append (x ∷ es) index last h =
      ap (λ b. frame_of index x ++ b) (log_bytes-append es (index + 1) last (omega arith))
      ∙ sym (append_assoc (frame_of index x) (log_bytes (index + 1) es) (frame_of last e))

  offsets-append :
      (es : List Entry) (pos index : ℕ)
      → All Fits es
      → offsets pos (es ++ e ∷ []) ≡ offsets pos es ++ (pos + length (log_bytes index es)) ∷ []
  unfolding offsets log_bytes
  offsets-append [] pos index fits = ap (λ p. p ∷ []) (omega arith)
  offsets-append (x ∷ es) pos index (fit, fits) = ap (◌∷◌ pos) (
      offsets-append es (pos + (4 + body_length x)) (index + 1) fits
      ∙ ap (λ p. offsets (pos + (4 + body_length x)) es ++ p ∷ [])
          (omega (
            arith,
            length-append (frame_of index x) (log_bytes (index + 1) es),
            length-frame index x fit,
          )))

  pub term_of_last-append : (es : List Entry) (term : ℕ) → term_of_last term (es ++ e ∷ []) ≡ e.term
  unfolding term_of_last
  term_of_last-append [] term = refl
  term_of_last-append (x ∷ es) term = term_of_last-append es x.term

module _ (S : Posix) (fd : ℕ) (log : WriteAheadLog) (es : List Entry) where
  open S use {World, bytes, fsync, fsync-bytes}

  -- The members represent the entries as long as the file keeps their frames.
  kept-Represents :
      {w w' : World} {tail : List ℕ}
      → Represents S fd log w es tail
      → take (length (log_bytes 1 es)) (bytes w' fd) ≡ log_bytes 1 es
      → Represents S fd log w' es (drop (length (log_bytes 1 es)) (bytes w' fd))
  kept-Represents {w' = w'} r kept = record {
    fd_eq = r.fd_eq;
    bytes_eq =
        sym (take-drop (length (log_bytes 1 es)) (bytes w' fd))
        ∙ ap (λ b. b ++ drop (length (log_bytes 1 es)) (bytes w' fd)) kept;
    offsets_eq = r.offsets_eq;
    index_eq = r.index_eq;
    term_eq = r.term_eq;
    write_offset_eq = r.write_offset_eq;
  }

  -- The branches of append over an open file.
  module _ (e : Entry) (index : ℕ) (w : World) where
    abbrev written : Written × World
    written = write_loop S (length (frame_of index e)) fd (frame_of index e) log.write_offset w

    append-failed :
        written.0 ≡ failed
        → append_to S fd log index e.term e.payload w ≡ (log, written.1, none, io_error)
    unfolding append_to
    append-failed broken = rw (append_to, broken) refl

    append-unsynced :
        written.0 ≡ done
        → (fsync fd written.1).0 ≡ false
        → append_to S fd log index e.term e.payload w
          ≡ (log, (fsync fd written.1).1, none, io_error)
    unfolding append_to
    append-unsynced finished lost = rw (append_to, finished, lost) refl

    abbrev extended : WriteAheadLog
    extended = record log {
      offset_index = log.offset_index ++ log.write_offset ∷ [];
      write_offset = log.write_offset + length (frame_of index e);
      last_index = index;
      last_term = e.term;
    }

    append-synced :
        written.0 ≡ done
        → (fsync fd written.1).0 ≡ true
        → append_to S fd log index e.term e.payload w
          ≡ (extended, (fsync fd written.1).1, some index, ok)
    unfolding append_to
    append-synced finished synced = rw (append_to, finished, synced) refl

  -- What append may answer, and what the log then represents.
  unfoldable pub Appended : Entry → List ℕ → WriteAheadLog × World × Option ℕ × Status → Type 0
  Appended e tail (log', w', index, status) =
      ((status ≡ ok)
        × (index ≡ some (length es + 1))
        × Represents S fd log' w' (es ++ e ∷ []) (drop (length (frame_of (length es + 1) e)) tail))
      ⊎ ((status ≡ io_error)
          × (index ≡ none)
          × (log' ≡ log)
          × ((tail' : List ℕ) × Represents S fd log w' es tail'))

  -- append to a log that represents some entries: it answers ok and the next index, and the log
  -- represents the entries with the new one behind them; or it answers IO_ERROR, changes no member, and
  -- the log represents the entries as before, with some other bytes behind them. The entries fit a
  -- transfer, and the index does not overflow.
  pub append-Appended :
      (w : World) (tail : List ℕ) (e : Entry)
      → Represents S fd log w es tail
      → All Fits es
      → Fits e
      → length es + 1 < 2 ^ 64
      → Appended e tail (append S log e.term e.payload w)
  unfolding append Appended WriteDone WriteFailed
  append-Appended w tail e r fits fit few =
      let index : ℕ = length es + 1 in
      let next : (log.last_index + 1) % 2 ^ 64 ≡ index = omega (arith, r.index_eq) in
      let (_, w1) = written e index w in
      let kept : bytes w1 fd
            ≡ log_bytes 1 es ++ (frame_of index e ++ drop (length (frame_of index e)) tail)
          → take (length (log_bytes 1 es)) (bytes (fsync fd w1).1 fd) ≡ log_bytes 1 es =
        λ all.
          ap (take (length (log_bytes 1 es))) (fsync-bytes fd w1 ∙ all)
          ∙ take-append_len (length (log_bytes 1 es)) (log_bytes 1 es) _ refl in
      let opened : append S log e.term e.payload w ≡ append_to S fd log index e.term e.payload w =
        ap
          (λ f. elim f [
            | none ↦ (log, w, none, io_error)
            | some fd' ↦ append_to S fd' log ((log.last_index + 1) % 2 ^ 64) e.term e.payload w
          ])
          r.fd_eq
        ∙ ap (λ i. append_to S fd log i e.term e.payload w) next in
      subst (Appended e tail) (sym opened)
        (elim (write_loop-cases S fd (length (frame_of index e)) (frame_of index e) (log_bytes 1 es)
          tail log.write_offset w (omega arith) r.bytes_eq r.write_offset_eq) [
            | inl (finished, all) ↦ elim (Bool-cases (fsync fd w1).0) [
              | inl synced ↦
                  subst (Appended e tail) (sym (append-synced e index w finished synced)) (
                    inl (
                      refl,
                      refl,
                      record {
                        fd_eq = r.fd_eq;
                        bytes_eq =
                            fsync-bytes fd w1
                            ∙ all
                            ∙ sym (append_assoc (log_bytes 1 es) (frame_of index e) _)
                            ∙ ap (λ b. b ++ drop (length (frame_of index e)) tail)
                                (sym (log_bytes-append e es 1 index (omega arith)));
                        offsets_eq =
                            ap₂ (λ o p. o ++ p ∷ []) r.offsets_eq r.write_offset_eq
                            ∙ sym (
                                offsets-append e es 0 1 fits
                                ∙ ap (λ p. offsets 0 es ++ p ∷ []) (omega arith));
                        index_eq = omega (arith, length-append es (e ∷ []));
                        term_eq = sym (term_of_last-append e es 0);
                        write_offset_eq = omega (
                          arith,
                          r.write_offset_eq,
                          ap length (log_bytes-append e es 1 index (omega arith)),
                          length-append (log_bytes 1 es) (frame_of index e),
                        );
                      },
                    ))
              | inr lost ↦
                  subst (Appended e tail) (sym (append-unsynced e index w finished lost))
                    (inr (refl, refl, refl, (_, kept-Represents r (kept all))))
            ]
            | inr (broken, before) ↦
                subst (Appended e tail) (sym (append-failed e index w broken))
                  (inr (refl, refl, refl, (_, kept-Represents r before)))
          ])
