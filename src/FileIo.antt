-- ===== src/FileIo.antt =====
-- include/MiniDB/Common/FileIO.h: writeSlot and readSlot, as compiled for POSIX. File positions stay
-- below 2^63, so they are not reduced.
pub mod Slots
pub mod Whole
pub mod Atomic
pub mod Succeeding
pub mod Reads
pub mod Steps
pub mod Interleaved
pub mod Crash
use mini_database.Prelude.{
  ℕ, zero, suc, ◌+◌, ◌-◌, ◌*◌, ◌%◌, ◌^◌, Option, none, some, List, [], ◌∷◌, ◌++◌, String, ltb, ◌==◌,
  if◌then◌else◌, length, take, drop,
}
use mini_database.Common.{Status, ok, not_found, io_error, parse_error, out_of_memory}
use mini_database.Packages.Posix.{Posix}
use mini_database.Wal.{done, write_loop}
use mini_database.Wal.Bytes.{le_bytes, le_value}

unfoldable pub zeros : ℕ → List ℕ
zeros zero = []
zeros (suc n) = 0 ∷ zeros n

-- The buffer of writeSlot: the length, the payload and zeros, in `slotSize` bytes.
unfoldable pub slot_buffer : ℕ → List ℕ → List ℕ
unfolding zeros
slot_buffer slot_size payload =
    le_bytes 4 (length payload % 2 ^ 32) ++ (payload ++ zeros (slot_size - (length payload + 4)))

-- How the read loop of readSlot ends; `unfinished` is no end: the rounds ran out.
pub data SlotRead : Type 0 where
  got : List ℕ → SlotRead
  read_failed unfinished : SlotRead

-- readSlot's use of the buffer, of which `bytes` has been read.
unfoldable pub decode_slot : ℕ → List ℕ → Option (List ℕ) × Status
unfolding zeros
decode_slot slot_size bytes =
    let buf = bytes ++ zeros (slot_size - length bytes) in
    let len = le_value (take 4 buf) in
    if ltb (length bytes) 4
    then (none, not_found)
    else if len == 0
    then (none, not_found)
    else if ltb slot_size (len + 4)
    then (none, parse_error)
    else (some (take len (drop 4 buf)), ok)

module _ (S : Posix) where
  open S use {World, open_file, open_read, close, pread}

  -- writeSlot; its loop over pwrite is the loop of the log's append.
  unfoldable pub write_slot : String → ℕ → ℕ → List ℕ → World → World × Status
  unfolding slot_buffer
  write_slot path slot_index slot_size payload w =
      if ltb slot_size (length payload + 4)
      then (w, out_of_memory)
      else let (opened, w1) = open_file path w in
        elim opened [
          | none ↦ (w1, io_error)
          | some fd ↦
              let buf = slot_buffer slot_size payload in
              let (outcome, w2) = write_loop S (length buf) fd buf (slot_index * slot_size) w1 in
              elim outcome [ done ↦ (close fd w2, ok) | _ ↦ (close fd w2, io_error) ]
        ]

  -- The loop of readSlot over pread; `left` bytes of the buffer are still to be read.
  unfoldable pub read_loop : ℕ → ℕ → ℕ → ℕ → List ℕ → World → SlotRead
  read_loop rounds fd zero off bytes w = got bytes
  read_loop zero fd (suc left) off bytes w = unfinished
  read_loop (suc rounds) fd (suc left) off bytes w = elim (pread fd (suc left) off w) [
    | none ↦ read_failed
    | some [] ↦ got bytes
    | some (b ∷ bs) ↦
        read_loop rounds fd (suc left - length (b ∷ bs)) (off + length (b ∷ bs)) (bytes ++ b ∷ bs) w
  ]

  -- readSlot behind its open
  unfoldable pub read_open_slot : ℕ → ℕ → ℕ → World → Option (List ℕ) × Status
  unfolding read_loop decode_slot
  read_open_slot fd slot_index slot_size w =
      elim (read_loop slot_size fd slot_size (slot_index * slot_size) [] w) [
        | got bytes ↦ decode_slot slot_size bytes
        | _ ↦ (none, io_error)
      ]

  -- readSlot: the payload where it is set, and the status
  unfoldable pub read_slot : String → ℕ → ℕ → World → Option (List ℕ) × Status
  unfolding read_open_slot
  read_slot path slot_index slot_size w =
      let (opened, w1) = open_read path w in
      elim opened [ none ↦ (none, not_found) | some fd ↦ read_open_slot fd slot_index slot_size w1 ]
