-- ===== src/Wal/Ranges.antt =====
-- Storage/WriteAheadLog.cpp: range against the entries that the log represents.
use mini_database.Prelude.{
  ℕ, ◌+◌, ◌-◌, ◌^◌, ◌<◌, ◌≡◌, refl, ap, sym, ◌∙◌, subst, some, List, [], ◌∷◌, ◌++◌, append_assoc,
  append-nil, arith, length, length-append, All, All-append,
}
use mini_database.Common.{ok}
use mini_database.Packages.Posix.{Posix, ReadsWhole}
use mini_database.Wal.{LogEntry, WriteAheadLog}
use mini_database.Wal.Frames.{Entry, Fits}
use mini_database.Wal.Opening.{Represents}
use mini_database.Wal.Reading.{no_entry, range_loop, range}
use mini_database.Wal.Entries.{log_entry, read_indexed-eq}

-- The entries with their indexes, the first of them given.
unfoldable pub numbered : ℕ → List Entry → List LogEntry
numbered index [] = []
numbered index (e ∷ es) = log_entry index e ∷ numbered (index + 1) es

module _ (S : Posix) (fd : ℕ) (log : WriteAheadLog) (w : Posix.World S) (ys : List Entry)
    (tail : List ℕ) (reads : ReadsWhole S w fd) where
  range_loop-numbered :
      (xs ms : List Entry) (i : ℕ) (out : List LogEntry)
      → Represents S fd log w (xs ++ (ms ++ ys)) tail
      → All Fits xs
      → All Fits ms
      → length xs + length ms < 2 ^ 64
      → i ≡ length xs + 1
      → range_loop S (length ms) log i out w ≡ some (ok, out ++ numbered i ms)
  unfolding range_loop numbered
  range_loop-numbered xs [] i out r fits_xs fits_ms few at =
      ap (λ o. some (ok, o)) (sym (append-nil out))
  range_loop-numbered xs (e ∷ ms) i out r fits_xs (fit, fits_ms) few at =
      let position : i - 1 ≡ length xs = omega arith in
      let moved : Represents S fd log w ((xs ++ e ∷ []) ++ (ms ++ ys)) tail =
        subst (λ es. Represents S fd log w es tail) (sym (append_assoc xs (e ∷ []) (ms ++ ys))) r in
      let rest =
        range_loop-numbered (xs ++ e ∷ []) ms (i + 1) (out ++ log_entry i e ∷ []) moved
          (All-append Fits xs (e ∷ []) fits_xs (fit, tt)) fits_ms
          (omega (arith, length-append xs (e ∷ []))) (omega (arith, length-append xs (e ∷ []))) in
      rw
        (
          range_loop,
          position,
          read_indexed-eq S fd log w xs (ms ++ ys) e tail r fits_xs fit (omega arith) no_entry
              reads,
          sym at,
        )
        (rest
          ∙ ap (λ o. some (ok, o)) (append_assoc out (log_entry i e ∷ []) (numbered (i + 1) ms)))

  -- range over the indexes of the entries `ms` in a log that represents `xs`, `ms` and then `ys`, over
  -- reads that succeed, where `ms` is not empty, append takes the entries and their indexes do not
  -- overflow: it answers ok and the entries `ms` with their indexes, in order.
  pub range-numbered :
      (xs ms : List Entry)
      → Represents S fd log w (xs ++ (ms ++ ys)) tail
      → All Fits xs
      → All Fits ms
      → length xs + length ms < 2 ^ 64
      → 0 < length ms
      → range S log (length xs + 1) (length xs + length ms) w
        ≡ some (ok, numbered (length xs + 1) ms)
  unfolding range
  range-numbered xs ms r fits_xs fits_ms few some_entry =
      let rounds : length xs + length ms + 1 - (length xs + 1) ≡ length ms = omega arith in
      let all = range_loop-numbered xs ms (length xs + 1) [] r fits_xs fits_ms few refl in
      rw (rounds, r.index_eq)
        (ground (arith, all, length-append xs (ms ++ ys), length-append ms ys))
