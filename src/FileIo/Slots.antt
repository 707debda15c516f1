-- ===== src/FileIo/Slots.antt =====
-- Common/FileIO.h: writing one slot and reading it.
use mini_database.Prelude.{
  ℕ, zero, suc, ◌+◌, ◌-◌, ◌*◌, ◌<◌, ◌≤◌, ◌≡◌, refl, ap, sym, ◌∙◌, subst, ◌⊎◌, inl, inr, some, false,
  List, [], ◌∷◌, ◌++◌, append-nil, String, arith, ltb, length, length-append, length-take, take,
  drop, take-drop, take-append_len, drop-append_len,
}
use mini_database.Common.{Status, ok, io_error}
use mini_database.Packages.Posix.{Posix, ReadsWhole, max_transfer}
use mini_database.Wal.{Written, done, failed, write_loop}
use mini_database.Wal.Bytes.{le_bytes, le_value, length-field, read-field, drop-field}
use mini_database.Wal.Writing.{WriteDone, WriteFailed, write_loop-cases}
use mini_database.FileIo.{
  zeros, slot_buffer, got, decode_slot, write_slot, read_loop, read_open_slot, read_slot,
}

length-zeros : (n : ℕ) → length (zeros n) ≡ n
unfolding zeros
length-zeros zero = refl
length-zeros (suc n) = ap suc (length-zeros n)

module _ (size : ℕ) (payload : List ℕ) (fits : length payload + 4 ≤ size)
    (small : size ≤ max_transfer) where
  abbrev content : List ℕ
  content = payload ++ zeros (size - (length payload + 4))

  slot_buffer-eq : slot_buffer size payload ≡ le_bytes 4 (length payload) ++ content
  unfolding slot_buffer
  slot_buffer-eq = ap (λ n. le_bytes 4 n ++ content) (omega arith)

  length-slot_buffer : length (slot_buffer size payload) ≡ size
  length-slot_buffer =
      ap length slot_buffer-eq
      ∙ omega (
        arith,
        length-field 4 (length payload) content,
        length-append payload (zeros (size - (length payload + 4))),
        length-zeros (size - (length payload + 4)),
      )

  -- A whole buffer is decoded to its payload.
  decode_slot-slot_buffer :
      0 < length payload → decode_slot size (slot_buffer size payload) ≡ (some payload, ok)
  unfolding decode_slot zeros
  decode_slot-slot_buffer some_byte =
      let gap : size - length (slot_buffer size payload) ≡ 0 = omega (arith, length-slot_buffer) in
      let whole : slot_buffer size payload ++ zeros (size - length (slot_buffer size payload))
          ≡ slot_buffer size payload =
        ap (λ n. slot_buffer size payload ++ zeros n) gap ∙ append-nil (slot_buffer size payload) in
      let len : le_value (take 4 (slot_buffer size payload)) ≡ length payload =
        ap (λ b. le_value (take 4 b)) slot_buffer-eq
        ∙ read-field 4 (length payload) content (omega arith) in
      let rest : drop 4 (slot_buffer size payload) ≡ content =
        ap (drop 4) slot_buffer-eq ∙ drop-field 4 (length payload) content in
      rw
        (
          whole,
          len,
          rest,
          length-slot_buffer,
          take-append_len (length payload) payload (zeros (size - (length payload + 4))) refl,
        )
        (ground arith)

module _ (S : Posix) (fd : ℕ) (w : Posix.World S) (reads : ReadsWhole S w fd) where
  open S use {bytes, pread}

  -- A buffer that the file holds is read in one round.
  read_loop-whole :
      (rounds off : ℕ) (before buf rest : List ℕ)
      → bytes w fd ≡ before ++ (buf ++ rest)
      → off ≡ length before
      → 0 < length buf
      → length buf ≤ max_transfer
      → length buf ≤ rounds
      → read_loop S rounds fd (length buf) off [] w ≡ got buf
  unfolding read_loop
  read_loop-whole rounds off before [] rest here at_off some_byte small enough =
      absurd (omega arith)
  read_loop-whole zero off before (b ∷ bs) rest here at_off some_byte small enough =
      absurd (omega arith)
  read_loop-whole (suc rounds) off before (b ∷ bs) rest here at_off some_byte small enough =
      let chunk : pread fd (suc (length bs)) off w ≡ some (b ∷ bs) =
        reads.read_eq (suc (length bs)) off small
        ∙ ap (λ l. some (take (suc (length bs)) l))
            (ap (drop off) here ∙ drop-append_len off before (b ∷ (bs ++ rest)) at_off)
        ∙ ap some (take-append_len (suc (length bs)) (b ∷ bs) rest refl) in
      let none_left : suc (length bs) - suc (length bs) ≡ 0 = omega arith in
      rw (chunk, read_loop, none_left) refl

  read_open_slot-eq :
      (slot_index size : ℕ) (payload before rest : List ℕ)
      → length payload + 4 ≤ size
      → size ≤ max_transfer
      → 0 < length payload
      → slot_index * size ≡ length before
      → bytes w fd ≡ before ++ (slot_buffer size payload ++ rest)
      → read_open_slot S fd slot_index size w ≡ (some payload, ok)
  unfolding read_open_slot
  read_open_slot-eq slot_index size payload before rest fits small some_byte at_off here =
      let count : length (slot_buffer size payload) ≡ size =
        length-slot_buffer size payload fits small in
      let read : read_loop S size fd size (slot_index * size) [] w
          ≡ got (slot_buffer size payload) =
        ap (λ n. read_loop S size fd n (slot_index * size) [] w) (sym count)
        ∙ read_loop-whole size (slot_index * size) before (slot_buffer size payload) rest here
            at_off (omega arith) (omega arith) (omega arith) in
      rw (read_open_slot, read) (decode_slot-slot_buffer size payload fits small some_byte)

module _ (S : Posix) (path : String) (slot_index size : ℕ) (payload : List ℕ) (w w1 : Posix.World S)
    (fd : ℕ) (opened : Posix.open_file S path w ≡ (some fd, w1)) (fits : length payload + 4 ≤ size)
    (small : size ≤ max_transfer) (near : slot_index * size ≤ length (Posix.bytes S w1 fd)) where
  open S use {World, bytes, close, close-bytes, open_read}

  -- What writeSlot may answer, with the file's bytes afterwards.
  unfoldable pub Stored : World × Status → Type 0
  Stored (w2, status) =
      ((status ≡ ok)
        × (bytes w2 fd
            ≡ take (slot_index * size) (bytes w1 fd)
              ++ (slot_buffer size payload ++ drop size (drop (slot_index * size) (bytes w1 fd)))))
      ⊎ ((status ≡ io_error)
          × (take (slot_index * size) (bytes w2 fd) ≡ take (slot_index * size) (bytes w1 fd)))

  abbrev written : Written × World
  written =
      write_loop S (length (slot_buffer size payload)) fd (slot_buffer size payload)
        (slot_index * size) w1

  -- writeSlot closes the file whichever way its loop ends.
  write_slot-done :
      written.0 ≡ done → write_slot S path slot_index size payload w ≡ (close fd written.1, ok)
  unfolding write_slot
  write_slot-done finished =
      let fitting : ltb size (length payload + 4) ≡ false = ground arith in
      rw
        (
          fitting,
          write_slot,
          ap (λ p. p.0) opened,
          ap (λ p. p.1) opened,
          finished,
          ap (λ p. p.1) opened,
        )
        refl

  write_slot-failed :
      written.0 ≡ failed
      → write_slot S path slot_index size payload w ≡ (close fd written.1, io_error)
  unfolding write_slot
  write_slot-failed broken =
      let fitting : ltb size (length payload + 4) ≡ false = ground arith in
      rw
        (
          fitting,
          write_slot,
          ap (λ p. p.0) opened,
          ap (λ p. p.1) opened,
          broken,
          ap (λ p. p.1) opened,
        )
        refl

  -- writeSlot of a payload that fits, where the file opens and reaches up to the slot, and the slot is no
  -- larger than one transfer: it answers ok and
  -- only the bytes of the slot change, to the slot's buffer; or it answers IO_ERROR and the slots before
  -- it keep their bytes.
  pub write_slot-Stored : Stored (write_slot S path slot_index size payload w)
  unfolding Stored WriteDone WriteFailed
  write_slot-Stored =
      let off : ℕ = slot_index * size in
      let before : List ℕ = take off (bytes w1 fd) in
      let buf : List ℕ = slot_buffer size payload in
      let at_off : off ≡ length before = omega (arith, length-take off (bytes w1 fd)) in
      elim (write_loop-cases S fd (length buf) buf before (drop off (bytes w1 fd)) off w1
        (omega arith) (sym (take-drop off (bytes w1 fd))) at_off) [
          | inl (finished, all) ↦ subst Stored (sym (write_slot-done finished)) (
              inl (
                refl,
                close-bytes fd fd written.1
                    ∙ all
                    ∙ ap (λ n. before ++ (buf ++ drop n (drop off (bytes w1 fd))))
                        (length-slot_buffer size payload fits small),
              ))
          | inr (broken, kept) ↦ subst Stored (sym (write_slot-failed broken)) (
              inr (
                refl,
                ap (take off) (close-bytes fd fd written.1)
                    ∙ ap (λ n. take n (bytes written.1 fd)) at_off
                    ∙ kept,
              ))
        ]

  -- readSlot of the slot that writeSlot wrote, where the file opens and reaches up to the slot, and the
  -- slot holds the payload and is no larger than one transfer: if writeSlot answered ok, the payload
  -- is not empty, the file opens again and shows what was written, and reads succeed, it answers ok
  -- and the payload.
  pub read_slot-write_slot :
      (w3 : World) (fd' : ℕ)
      → (write_slot S path slot_index size payload w).1 ≡ ok
      → 0 < length payload
      → open_read path (write_slot S path slot_index size payload w).0 ≡ (some fd', w3)
      → bytes w3 fd' ≡ bytes (write_slot S path slot_index size payload w).0 fd
      → ReadsWhole S w3 fd'
      → read_slot S path slot_index size (write_slot S path slot_index size payload w).0
        ≡ (some payload, ok)
  unfolding read_slot Stored
  read_slot-write_slot w3 fd' stored some_byte reopened same reads = elim write_slot-Stored [
    | inr (broken, _) ↦ absurd (ground (arith, stored, broken))
    | inl (_, after) ↦
        rw (read_slot, ap (λ p. p.0) reopened, ap (λ p. p.1) reopened)
          (read_open_slot-eq S fd' w3 reads slot_index size payload
            (take (slot_index * size) (bytes w1 fd)) _ fits small some_byte
            (omega (arith, length-take (slot_index * size) (bytes w1 fd))) (same ∙ after))
  ]
