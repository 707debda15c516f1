-- ===== src/Wal/Reading.antt =====
-- Storage/WriteAheadLog.cpp: readFrameAt, entryAt, range and truncateFrom. The outer `none` is an index
-- of offset_index out of bounds. A closed file's reads fail, as sysPread of -1 does.
-- A payload length beyond the body reads out of bounds there; here `take` stops at the end.
use mini_database.Prelude.{
  ℕ, zero, suc, ◌+◌, ◌-◌, not, ◌||◌, Option, none, some, List, [], ◌∷◌, ◌++◌, ltb, ◌==◌,
  if◌then◌else◌, length, get_elem?, take, drop,
}
use mini_database.Common.{Status, ok, not_found, io_error}
use mini_database.Packages.Posix.{Posix}
use mini_database.Wal.{
  LogEntry, WriteAheadLog, invalid_log_index, invalid_term, frame_length_size, index_size,
  term_size, payload_length_size,
}
use mini_database.Wal.Bytes.{le_value}

-- The entry that readFrameAt copies out of a body.
unfoldable pub entry_of : List ℕ → LogEntry
entry_of body =
    let payload_length = le_value (take payload_length_size (drop (index_size + term_size) body)) in
    record {
      index = le_value (take index_size body);
      term = le_value (take term_size (drop index_size body));
      payload = take payload_length (drop (index_size + term_size + payload_length_size) body);
    }

abbrev pub no_entry : LogEntry
no_entry = record { index = invalid_log_index; term = invalid_term; payload = [] }

module _ (S : Posix) where
  open S use {World, pread, ftruncate}

  -- The body of readFrameAt for an open file.
  unfoldable pub read_open_frame : ℕ → ℕ → LogEntry → World → Status × LogEntry
  unfolding entry_of
  read_open_frame fd file_offset out w = elim (pread fd frame_length_size file_offset w) [
    | none ↦ (io_error, out)
    | some prefix ↦
        let frame_length = le_value (take frame_length_size prefix) in
        if ltb (length prefix) frame_length_size
        then (io_error, out)
        else elim (pread fd frame_length (file_offset + frame_length_size) w) [
          | none ↦ (io_error, out)
          | some body ↦
              if ltb (length body) frame_length then (io_error, out) else (ok, entry_of body)
        ]
  ]

  -- readFrameAt
  unfoldable pub read_frame_at : WriteAheadLog → ℕ → LogEntry → World → Status × LogEntry
  unfolding read_open_frame
  read_frame_at log file_offset out w = elim log.fd [
    | none ↦ (io_error, out)
    | some fd ↦ read_open_frame fd file_offset out w
  ]

  -- offsetIndex_[i], and readFrameAt there
  unfoldable pub read_indexed : WriteAheadLog → ℕ → LogEntry → World → Option (Status × LogEntry)
  unfolding read_frame_at
  read_indexed log i out w = elim (get_elem? log.offset_index i) [
    | none ↦ none
    | some file_offset ↦ some (read_frame_at log file_offset out w)
  ]

  -- entryAt
  unfoldable pub entry_at : WriteAheadLog → ℕ → LogEntry → World → Option (Status × LogEntry)
  unfolding read_indexed
  entry_at log index out w =
      if (index == invalid_log_index) || ltb log.last_index index
      then some (not_found, out)
      else read_indexed log (index - 1) out w

  -- The loop of range, by the number of rounds left.
  unfoldable pub range_loop :
      ℕ → WriteAheadLog → ℕ → List LogEntry → World → Option (Status × List LogEntry)
  unfolding read_indexed
  range_loop zero log i out w = some (ok, out)
  range_loop (suc rounds) log i out w = elim (read_indexed log (i - 1) no_entry w) [
    | none ↦ none
    | some (ok, entry) ↦ range_loop rounds log (i + 1) (out ++ entry ∷ []) w
    | some (status, _) ↦ some (status, [])
  ]

  -- range
  unfoldable pub range : WriteAheadLog → ℕ → ℕ → World → Option (Status × List LogEntry)
  unfolding range_loop
  range log from_index to_index w =
      if (from_index == invalid_log_index)
        || (ltb to_index from_index || ltb log.last_index to_index)
      then some (not_found, [])
      else range_loop (to_index + 1 - from_index) log from_index [] w

  -- truncateFrom(INVALID_LOG_INDEX)
  unfoldable pub truncate_all : ℕ → WriteAheadLog → World → WriteAheadLog × World × Status
  truncate_all fd log w =
      let (cut, w') = ftruncate fd 0 w in
      if not cut then (log, w', io_error) else (
        record log {
          offset_index = [];
          last_index = invalid_log_index;
          last_term = invalid_term;
          write_offset = 0;
        },
        w',
        ok,
      )

  -- The end of truncateFrom, when the new last term is known.
  unfoldable pub cut_at : ℕ → WriteAheadLog → ℕ → ℕ → ℕ → World → WriteAheadLog × World × Status
  cut_at fd log new_last_index cut_offset new_last_term w =
      let (cut, w') = ftruncate fd cut_offset w in
      if not cut then (log, w', io_error) else (
        record log {
          offset_index = take new_last_index log.offset_index;
          last_index = new_last_index;
          last_term = new_last_term;
          write_offset = cut_offset;
        },
        w',
        ok,
      )

  -- truncateFrom an entry that the log has
  unfoldable pub truncate_entries :
      ℕ → WriteAheadLog → ℕ → ℕ → World → Option (WriteAheadLog × World × Status)
  unfolding read_indexed cut_at
  truncate_entries fd log zero cut_offset w = some (cut_at fd log zero cut_offset invalid_term w)
  truncate_entries fd log (suc n) cut_offset w = elim (read_indexed log n no_entry w) [
    | none ↦ none
    | some (ok, tail_entry) ↦ some (cut_at fd log (suc n) cut_offset tail_entry.term w)
    | some (status, _) ↦ some (log, w, status)
  ]

  -- truncateFrom over an open file
  unfoldable pub truncate_open :
      ℕ → WriteAheadLog → ℕ → World → Option (WriteAheadLog × World × Status)
  unfolding truncate_all truncate_entries
  truncate_open fd log index w =
      if index == invalid_log_index
      then some (truncate_all fd log w)
      else if ltb log.last_index index
      then some (log, w, ok)
      else elim (get_elem? log.offset_index (index - 1)) [
        | none ↦ none
        | some cut_offset ↦ truncate_entries fd log (index - 1) cut_offset w
      ]

  -- truncateFrom
  unfoldable pub truncate_from : WriteAheadLog → ℕ → World → Option (WriteAheadLog × World × Status)
  unfolding truncate_open
  truncate_from log index w = elim log.fd [
    | none ↦ some (log, w, io_error)
    | some fd ↦ truncate_open fd log index w
  ]

-- lastIndex and lastTerm
unfoldable pub get_last_index : WriteAheadLog → ℕ
get_last_index log = log.last_index

unfoldable pub get_last_term : WriteAheadLog → ℕ
get_last_term log = log.last_term
