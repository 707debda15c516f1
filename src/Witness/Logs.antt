-- ===== src/Witness/Logs.antt =====
-- The theorems about the log at a log of two entries.
use mini_database.Prelude.{
  ℕ, ◌≡◌, ◌<◌, ◌⊎◌, take, ◌≢◌, refl, none, some, List, [], ◌∷◌, ◌++◌, arith, length, inl,
}
use mini_database.Common.{ok, io_error}
use mini_database.Wal.{WriteAheadLog, make, append, open_log, close_first}
use mini_database.Wal.Frames.{Entry, Fits, frame_of}
use mini_database.Wal.Recovery.{log_bytes, IsTorn}
use mini_database.Wal.Opening.{offsets, term_of_last, Represents, open_log-recovers}
use mini_database.Wal.Appending.{Appended, append-Appended}
use mini_database.Wal.Termination.{open_log-ne-none}
use mini_database.Wal.Reading.{no_entry, entry_at, range, truncate_from}
use mini_database.Wal.Entries.{log_entry, entry_at-eq}
use mini_database.Wal.Ranges.{numbered, range-numbered}
use mini_database.Wal.Truncation.{Truncated, truncate_from-Truncated}
use mini_database.Wal.Crash.{open_log-append}
use mini_database.Wal.Lifetime.{move_assign, destruct, move_assign-Represents}
use mini_database.Witness.ToyPosix.{toy_posix, toy_reads}

abbrev hello : Entry
hello = record { term = 1; payload = 104 ∷ 105 ∷ [] }

abbrev bye : Entry
bye = record { term = 2; payload = 98 ∷ [] }

abbrev entries : List Entry
entries = hello ∷ bye ∷ []

hello-Fits : Fits hello
hello-Fits = record { term_fits = omega arith; payload_fits = omega arith }

bye-Fits : Fits bye
bye-Fits = record { term_fits = omega arith; payload_fits = omega arith }

-- The file ends in two bytes of a frame.
abbrev torn_file : List ℕ
torn_file = log_bytes 1 entries ++ (25 ∷ 0 ∷ [])

torn : IsTorn (25 ∷ 0 ∷ [])
torn = inl (omega arith)

abbrev sample_log : WriteAheadLog
sample_log = record {
  path = "log";
  fd = some 3;
  offset_index = offsets 0 entries;
  last_index = 2;
  last_term = 2;
  write_offset = length (log_bytes 1 entries);
}

sample_log-Represents : Represents toy_posix 3 sample_log torn_file entries (25 ∷ 0 ∷ [])
unfolding term_of_last
sample_log-Represents = record {
  fd_eq = refl;
  bytes_eq = refl;
  offsets_eq = refl;
  index_eq = refl;
  term_eq = refl;
  write_offset_eq = refl;
}

open_log-recovers_example :
    (log' : WriteAheadLog) × (w' : List ℕ) × (open_log toy_posix (make "log") torn_file
      ≡ some (log', w', ok))
    × Represents toy_posix 3 log' w' entries []
unfolding make close_first
open_log-recovers_example =
    open_log-recovers toy_posix (make "log") torn_file torn_file 3 entries (25 ∷ 0 ∷ []) refl
      (toy_reads torn_file) refl (hello-Fits, (bye-Fits, tt)) torn (omega arith) refl

open_log-ne-none_example : open_log toy_posix (make "log") torn_file ≢ none
open_log-ne-none_example = open_log-ne-none toy_posix (make "log") torn_file

append-Appended_example :
    Appended toy_posix 3 sample_log entries hello
      (25 ∷ 0 ∷ [])
      (append toy_posix sample_log 1 (104 ∷ 105 ∷ []) torn_file)
append-Appended_example =
    append-Appended toy_posix 3 sample_log entries torn_file (25 ∷ 0 ∷ []) hello
      sample_log-Represents (hello-Fits, (bye-Fits, tt)) hello-Fits (omega arith)

entry_at-eq_example :
    entry_at toy_posix sample_log 2 no_entry torn_file ≡ some (ok, log_entry 2 bye)
entry_at-eq_example =
    entry_at-eq toy_posix 3 sample_log torn_file (hello ∷ []) [] bye (25 ∷ 0 ∷ [])
      sample_log-Represents (hello-Fits, tt) bye-Fits (omega arith) no_entry (toy_reads torn_file)

range-numbered_example : range toy_posix sample_log 1 2 torn_file ≡ some (ok, numbered 1 entries)
range-numbered_example =
    range-numbered toy_posix 3 sample_log torn_file [] (25 ∷ 0 ∷ []) (toy_reads torn_file) []
      entries sample_log-Represents tt (hello-Fits, (bye-Fits, tt)) (omega arith) (omega arith)

truncate_from-Truncated_example :
    Truncated toy_posix 3 sample_log torn_file
      (hello ∷ [])
      (bye ∷ [])
      (25 ∷ 0 ∷ [])
      (truncate_from toy_posix sample_log 2 torn_file)
truncate_from-Truncated_example =
    truncate_from-Truncated toy_posix 3 sample_log torn_file (hello ∷ []) [] bye (25 ∷ 0 ∷ [])
      sample_log-Represents (hello-Fits, tt) bye-Fits (omega arith) (toy_reads torn_file)

move_assign-Represents_example :
    let (log', other', w') = move_assign toy_posix "" (make "old") sample_log torn_file in
    Represents toy_posix 3 log' w' entries (25 ∷ 0 ∷ [])
    × ((term : ℕ) (payload : List ℕ) (v : List ℕ)
        → append toy_posix other' term payload v ≡ (other', v, none, io_error))
    × ((v : List ℕ) → destruct toy_posix other' v ≡ v)
move_assign-Represents_example =
    move_assign-Represents toy_posix "" (make "old") sample_log torn_file 3 entries (25 ∷ 0 ∷ [])
      sample_log-Represents

-- The first two bytes of the third frame were written.
abbrev crashed_file : List ℕ
crashed_file = log_bytes 1 entries ++ take 2 (frame_of 3 hello)

open_log-append_example :
    (log' : WriteAheadLog) × (w' : List ℕ) × (open_log toy_posix (make "log") crashed_file
      ≡ some (log', w', ok))
    × (((2 < length (frame_of 3 hello)) × Represents toy_posix 3 log' w' entries [])
        ⊎ ((take 2 (frame_of 3 hello) ≡ frame_of 3 hello)
            × Represents toy_posix 3 log' w' (entries ++ hello ∷ []) []))
unfolding make close_first
open_log-append_example =
    open_log-append toy_posix (make "log") crashed_file crashed_file 3 2 entries hello refl
      (toy_reads crashed_file) refl (hello-Fits, (bye-Fits, tt)) hello-Fits (omega arith)
      (λ n. refl)
