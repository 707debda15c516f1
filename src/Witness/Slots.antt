-- ===== src/Witness/Slots.antt =====
-- The theorems about slot files at a slot of eight bytes behind another.
use mini_database.Prelude.{ℕ, ◌≡◌, refl, some, List, [], ◌∷◌, arith}
use mini_database.Common.{ok}
use mini_database.FileIo.{write_slot, read_slot, slot_buffer, zeros}
use mini_database.FileIo.Slots.{Stored, write_slot-Stored, read_slot-write_slot}
use mini_database.Wal.{write_loop}
use mini_database.Wal.Bytes.{le_bytes}
use mini_database.Witness.ToyPosix.{toy_posix, toy_reads}

abbrev file : List ℕ
file = 1 ∷ 0 ∷ 0 ∷ 0 ∷ 65 ∷ 0 ∷ 0 ∷ 0 ∷ []

abbrev payload : List ℕ
payload = 66 ∷ 67 ∷ []

write_slot-Stored_example :
    Stored toy_posix "pages" 1 8 payload file file 3 refl
      (omega arith)
      (omega arith)
      (omega arith)
      (write_slot toy_posix "pages" 1 8 payload file)
write_slot-Stored_example =
    write_slot-Stored toy_posix "pages" 1 8 payload file file 3 refl (omega arith) (omega arith)
      (omega arith)

read_slot-write_slot_example :
    read_slot toy_posix "pages" 1 8 (write_slot toy_posix "pages" 1 8 payload file).0
    ≡ (some payload, ok)
unfolding write_slot write_loop slot_buffer zeros le_bytes
read_slot-write_slot_example =
    read_slot-write_slot toy_posix "pages" 1 8 payload file file 3 refl (omega arith) (omega arith)
      (omega arith) (write_slot toy_posix "pages" 1 8 payload file).0 3 refl (omega arith) refl refl
      (toy_reads (write_slot toy_posix "pages" 1 8 payload file).0)
