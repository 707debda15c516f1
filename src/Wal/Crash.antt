-- ===== src/Wal/Crash.antt =====
-- Storage/WriteAheadLog.cpp: open() after a crash in the middle of append.
use mini_database.Prelude.{
  ℕ, ◌+◌, ◌^◌, ◌<◌, ◌≡◌, ap, sym, ◌∙◌, ◌⊎◌, inl, inr, true, some, List, [], ◌∷◌, ◌++◌, append-nil,
  arith, length, length-append, take, take_of_length-le, lt-or-ge, All, All-append,
}
use mini_database.Common.{ok}
use mini_database.Packages.Posix.{Posix, ReadsWhole}
use mini_database.Wal.{WriteAheadLog, open_log, close_first}
use mini_database.Wal.Frames.{Entry, Fits, frame_of}
use mini_database.Wal.Recovery.{log_bytes, take-frame-IsTorn}
use mini_database.Wal.Opening.{Represents, open_log-recovers}
use mini_database.Wal.Appending.{log_bytes-append}

-- open() of a file that holds the frames of some entries and the first `k` bytes of the frame that append
-- writes for one more, where the calls succeed, all these entries fit a frame that one read transfers
-- and their indexes do not overflow: it answers ok, and the log represents exactly the entries, with a
-- part of the frame missing, or the entries and the new one, with its whole frame there.
pub open_log-append :
    (S : Posix) (log : WriteAheadLog) (w w1 : Posix.World S) (fd k : ℕ) (es : List Entry)
    (e : Entry)
    → Posix.open_file S log.path (close_first S log w) ≡ (some fd, w1)
    → ReadsWhole S w1 fd
    → Posix.bytes S w1 fd ≡ log_bytes 1 es ++ take k (frame_of (length es + 1) e)
    → All Fits es
    → Fits e
    → length es + 1 < 2 ^ 64
    → ((n : ℕ) → (Posix.ftruncate S fd n w1).0 ≡ true)
    → (log' : WriteAheadLog) × (w' : Posix.World S) × (open_log S log w ≡ some (log', w', ok))
      × (((k < length (frame_of (length es + 1) e)) × Represents S fd log' w' es [])
          ⊎ ((take k (frame_of (length es + 1) e) ≡ frame_of (length es + 1) e)
              × Represents S fd log' w' (es ++ e ∷ []) []))
open_log-append S log w w1 fd k es e opened reads here fits fit few cuts =
    let buf : List ℕ = frame_of (length es + 1) e in
    elim (lt-or-ge k (length buf)) [
      | inl part ↦
          let (log', w', answer, r) =
            open_log-recovers S log w w1 fd es (take k buf) opened reads here fits
              (take-frame-IsTorn k (length es + 1) e fit part) (omega arith) (cuts _) in
          (log', w', answer, inl (part, r))
      | inr all ↦
          let whole : take k buf ≡ buf = take_of_length-le k buf all in
          let here' : Posix.bytes S w1 fd ≡ log_bytes 1 (es ++ e ∷ []) ++ [] =
            here
            ∙ ap (λ b. log_bytes 1 es ++ b) whole
            ∙ sym (log_bytes-append e es 1 (length es + 1) (omega arith))
            ∙ sym (append-nil (log_bytes 1 (es ++ e ∷ []))) in
          let (log', w', answer, r) =
            open_log-recovers S log w w1 fd (es ++ e ∷ []) [] opened reads here'
              (All-append Fits es (e ∷ []) fits (fit, tt)) (inl (omega arith))
              (omega (arith, length-append es (e ∷ []))) (cuts _) in
          (log', w', answer, inr (whole, r))
    ]
