-- ===== src/Wal.antt =====
-- src/MiniDB/Storage/WriteAheadLog.cpp and include/MiniDB/Storage/WriteAheadLog.h: the append-only log.
-- Bytes are numbers below 256. The fields of a frame are in the host's byte order, read as
-- little-endian. The sums of file positions stay below 2^63, so they are not reduced.
pub mod Bytes
pub mod Frames
pub mod Recovery
pub mod Opening
pub mod Writing
pub mod Appending
pub mod Reading
pub mod Entries
pub mod Ranges
pub mod Truncation
pub mod Lifetime
pub mod Crash
pub mod Termination
use mini_database.Prelude.{
  ℕ, zero, suc, ◌+◌, ◌-◌, ◌/◌, ◌%◌, ◌^◌, bit_and, bit_xor, Bool, true, false, not, ◌||◌, Option,
  none, some, List, [], ◌∷◌, ◌++◌, String, ltb, leb, ◌==◌, if◌then◌else◌, length, get_elem?, take,
  drop,
}
use mini_database.Common.{Status, ok, not_found, io_error}
use mini_database.Packages.Posix.{Posix}
use mini_database.Wal.Bytes.{le_bytes, le_value}

abbrev pub invalid_log_index : ℕ
invalid_log_index = 0

abbrev pub invalid_term : ℕ
invalid_term = 0

-- struct LogEntry
pub record LogEntry : Type 0 where
  pub index : ℕ
  pub term : ℕ
  pub payload : List ℕ

-- class WriteAheadLog; `fd` is `none` for -1
pub record WriteAheadLog : Type 0 where
  pub path : String
  pub fd : Option ℕ
  pub offset_index : List ℕ
  pub last_index : ℕ
  pub last_term : ℕ
  pub write_offset : ℕ

-- FRAME_LENGTH_SIZE and the sizes of the other fields
abbrev pub frame_length_size : ℕ
frame_length_size = 4

abbrev pub index_size : ℕ
index_size = 8

abbrev pub term_size : ℕ
term_size = 8

abbrev pub payload_length_size : ℕ
payload_length_size = 4

abbrev pub checksum_size : ℕ
checksum_size = 4

-- bodySize, in uint32_t
unfoldable pub body_size : ℕ → ℕ
body_size payload_length =
    (index_size + term_size + payload_length_size + payload_length + checksum_size) % 2 ^ 32

-- One entry of the table of crc32: the rounds on `c`.
unfoldable pub crc_rounds : ℕ → ℕ → ℕ
crc_rounds zero c = c
crc_rounds (suc k) c = crc_rounds k (if c % 2 == 1 then bit_xor 0xedb88320 (c / 2) else c / 2)

unfoldable pub crc_loop : ℕ → List ℕ → ℕ
unfolding crc_rounds
crc_loop crc [] = crc
crc_loop crc (b ∷ bs) =
    crc_loop (bit_xor (crc_rounds 8 (bit_and (bit_xor crc b) 0xff)) (crc / 2 ^ 8)) bs

-- crc32
unfoldable pub crc32 : List ℕ → ℕ
unfolding crc_loop
crc32 bytes = bit_xor (crc_loop 0xffffffff bytes) 0xffffffff % 2 ^ 32

-- What append puts into its buffer before the checksum, and the whole buffer.
unfoldable pub frame_head : ℕ → ℕ → List ℕ → List ℕ
frame_head index term payload =
    let payload_length = length payload % 2 ^ 32 in
    le_bytes frame_length_size (body_size payload_length)
    ++ (le_bytes index_size index
        ++ (le_bytes term_size term
            ++ (le_bytes payload_length_size payload_length ++ take payload_length payload)))

unfoldable pub frame : ℕ → ℕ → List ℕ → List ℕ
frame index term payload =
    frame_head index term payload ++ le_bytes checksum_size (crc32 (frame_head index term payload))

-- WriteAheadLog(path)
unfoldable pub make : String → WriteAheadLog
make path = record {
  path = path;
  fd = none;
  offset_index = [];
  last_index = invalid_log_index;
  last_term = invalid_term;
  write_offset = 0;
}

-- How the write loop of append ends; `stuck` is no end: the rounds ran out.
pub data Written : Type 0 where
  done failed stuck : Written

-- What open's scan finds at a position: the end of the valid log, a read error, or a valid frame with
-- its index, its term and its length field.
pub data Next : Type 0 where
  stop error : Next
  valid : ℕ → ℕ → ℕ → Next

-- What the scan has found: the position behind the last valid frame, and the members that it sets.
pub record Found : Type 0 where
  pub pos : ℕ
  pub offsets : List ℕ
  pub index : ℕ
  pub term : ℕ

pub data Scan : Type 0 where
  ended read_error : Found → Scan
  out_of_rounds : Scan

-- The tests of open's loop on the body of a frame; `count` is the size of offset_index.
unfoldable pub check_body : ℕ → List ℕ → ℕ → Next
check_body frame_length body count =
    let payload_length = le_value (take payload_length_size (drop (index_size + term_size) body)) in
    let stored_checksum =
      le_value (take checksum_size (drop (frame_length - checksum_size) body)) in
    let checksum_input =
      le_bytes frame_length_size frame_length ++ take (frame_length - checksum_size) body in
    let entry_index = le_value (take index_size body) in
    let entry_term = le_value (take term_size (drop index_size body)) in
    if not (frame_length == body_size payload_length)
    then stop
    else if not (crc32 checksum_input == stored_checksum)
    then stop
    else if not (entry_index == count + 1)
    then stop
    else valid entry_index entry_term frame_length

abbrev pub nothing_found : Found
nothing_found = record { pos = 0; offsets = []; index = invalid_log_index; term = invalid_term }

-- The members after the scan. `open` sets `write_offset` only at its end.
abbrev pub scanned : WriteAheadLog → Option ℕ → Found → ℕ → WriteAheadLog
scanned log fd found write_offset = record log {
  fd = fd;
  offset_index = found.offsets;
  last_index = found.index;
  last_term = found.term;
  write_offset = write_offset;
}

module _ (S : Posix) where
  open S use {World, open_file, close, file_size, pread, pwrite, fsync, ftruncate}

  -- The loop over sysPwrite. A round writes a byte at least, so the buffer's length bounds the rounds.
  unfoldable pub write_loop : ℕ → ℕ → List ℕ → ℕ → World → Written × World
  write_loop rounds fd [] off w = (done, w)
  write_loop zero fd (b ∷ bs) off w = (stuck, w)
  write_loop (suc rounds) fd (b ∷ bs) off w =
      let (n, w') = pwrite fd (b ∷ bs) off w in
      elim n [ none ↦ (failed, w') | some n ↦ write_loop rounds fd (drop n (b ∷ bs)) (off + n) w' ]

  -- append once `newIndex` is known: the log, the world, `outIndex` where it is set, and the status
  unfoldable pub append_to :
      ℕ → WriteAheadLog → ℕ → ℕ → List ℕ → World → WriteAheadLog × World × Option ℕ × Status
  append_to fd log new_index term payload w =
      let buf = frame new_index term payload in
      let (outcome, w1) = write_loop (length buf) fd buf log.write_offset w in
      elim outcome [
        | done ↦
            let (synced, w2) = fsync fd w1 in
            if not synced then (log, w2, none, io_error) else (
              record log {
                offset_index = log.offset_index ++ log.write_offset ∷ [];
                write_offset = log.write_offset + length buf;
                last_index = new_index;
                last_term = term;
              },
              w2,
              some new_index,
              ok,
            )
        | _ ↦ (log, w1, none, io_error)
      ]

  -- append
  unfoldable pub append :
      WriteAheadLog → ℕ → List ℕ → World → WriteAheadLog × World × Option ℕ × Status
  unfolding append_to
  append log term payload w = elim log.fd [
    | none ↦ (log, w, none, io_error)
    | some fd ↦ append_to fd log ((log.last_index + 1) % 2 ^ 64) term payload w
  ]

  -- One round of open's loop, its condition included.
  unfoldable pub next_frame : ℕ → World → ℕ → ℕ → ℕ → Next
  next_frame fd w total pos count =
      if not (leb (pos + frame_length_size) total)
      then stop
      else elim (pread fd frame_length_size pos w) [
        | none ↦ error
        | some prefix ↦
            let frame_length = le_value (take frame_length_size prefix) in
            if ltb (length prefix) frame_length_size
            then stop
            else if ltb total (pos + frame_length_size + frame_length)
            then stop
            else if ltb frame_length (index_size + term_size + payload_length_size + checksum_size)
            then stop
            else elim (pread fd frame_length (pos + frame_length_size) w) [
              | none ↦ error
              | some body ↦
                  if ltb (length body) frame_length
                  then stop
                  else check_body frame_length body count
            ]
      ]

  -- The loop of open. A valid frame takes 28 bytes at least, so the file's size bounds the rounds.
  unfoldable pub scan : ℕ → ℕ → World → ℕ → Found → Scan
  scan zero fd w total found = out_of_rounds
  scan (suc rounds) fd w total found =
      elim (next_frame fd w total found.pos (length found.offsets)) [
        | stop ↦ ended found
        | error ↦ read_error found
        | valid index term frame_length ↦ scan rounds fd w total (record {
          pos = found.pos + (frame_length_size + frame_length);
          offsets = found.offsets ++ found.pos ∷ [];
          index = index;
          term = term;
        })
      ]

  unfoldable pub close_first : WriteAheadLog → World → World
  close_first log w = elim log.fd [ none ↦ w | some fd ↦ close fd w ]

  -- The end of open: the file is cut behind the last valid frame.
  unfoldable pub finish : WriteAheadLog → ℕ → ℕ → Found → World → WriteAheadLog × World × Status
  finish log fd total found w =
      if found.pos == total
      then (scanned log (some fd) found found.pos, w, ok)
      else let (cut, w') = ftruncate fd found.pos w in
        if not cut
        then (scanned log none found 0, close fd w', io_error)
        else (scanned log (some fd) found found.pos, w', ok)

  -- open; the outer `none` is a scan that does not end
  unfoldable pub open_log : WriteAheadLog → World → Option (WriteAheadLog × World × Status)
  open_log log w =
      let (opened, w1) = open_file log.path (close_first log w) in
      elim opened [
        | none ↦ some (record log { fd = none }, w1, io_error)
        | some fd ↦ elim (file_size fd w1) [
          | none ↦ some (scanned log none nothing_found 0, close fd w1, io_error)
          | some total ↦ elim (scan (suc total) fd w1 total nothing_found) [
            | ended found ↦ some (finish log fd total found w1)
            | read_error found ↦ some (scanned log none found 0, close fd w1, io_error)
            | out_of_rounds ↦ none
          ]
        ]
      ]
