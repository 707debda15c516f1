-- ===== src/Wal/Frames.antt =====
-- Storage/WriteAheadLog.cpp: the fields of a frame, and what the recovery scan reads of it.

use mini_database.Prelude.{
  ℕ, ◌+◌, ◌-◌, ◌%◌, ◌^◌, ◌<◌, ◌≤◌, ◌≡◌, refl, ap, sym, ◌∙◌, List, ◌++◌, append_assoc, arith, length,
  length-append, take, drop, take-append_len, drop-append_len, take_of_length-le, drop-drop, eq→==,
}
use mini_database.Packages.Posix.{max_transfer}
use mini_database.Wal.{body_size, crc32, frame_head, frame, check_body, valid}
use mini_database.Wal.Bytes.{
  le_bytes, le_value, length-le_bytes, le_value-le_bytes, drop-field, length-field, read-field,
}

-- An entry as append takes it.
pub record Entry : Type 0 where
  pub term : ℕ
  pub payload : List ℕ

-- The term is a uint64_t, and one read transfers the frame.
pub record Fits (e : Entry) : Type 0 where
  pub term_fits : e.term < 2 ^ 64
  pub payload_fits : length e.payload + 24 ≤ max_transfer

abbrev pub frame_of : ℕ → Entry → List ℕ
frame_of index e = frame index e.term e.payload

-- The length field of the entry's frame.
abbrev pub body_length : Entry → ℕ
body_length e = 24 + length e.payload

crc32-lt : (bytes : List ℕ) → crc32 bytes < 2 ^ 32
unfolding crc32
crc32-lt bytes = omega arith

module _ (index : ℕ) (e : Entry) (fits : Fits e) where
  payload_length-eq : length e.payload % 2 ^ 32 ≡ length e.payload
  payload_length-eq = omega (arith, fits.payload_fits)

  body_size-eq : body_size (length e.payload) ≡ body_length e
  unfolding body_size
  body_size-eq = omega (arith, fits.payload_fits)

  -- the bytes between the length field and the checksum
  abbrev pub middle : List ℕ
  middle = le_bytes 8 index ++ (le_bytes 8 e.term ++ (le_bytes 4 (length e.payload) ++ e.payload))

  abbrev pub head : List ℕ
  head = le_bytes 4 (body_length e) ++ middle

  frame_head-eq : frame_head index e.term e.payload ≡ head
  unfolding frame_head
  frame_head-eq = rw (
    payload_length-eq,
    body_size-eq,
    take_of_length-le (length e.payload) e.payload (omega arith),
  )

  abbrev pub body : List ℕ
  body = middle ++ le_bytes 4 (crc32 head)

  -- A frame is its length field and a body of that length.
  pub frame_eq : frame_of index e ≡ le_bytes 4 (body_length e) ++ body
  unfolding frame
  frame_eq = rw (frame_head-eq) (append_assoc (le_bytes 4 (body_length e)) middle _)

  length-middle : length middle ≡ 20 + length e.payload
  length-middle = omega (
    arith,
    length-field 8 index (le_bytes 8 e.term ++ (le_bytes 4 (length e.payload) ++ e.payload)),
    length-field 8 e.term (le_bytes 4 (length e.payload) ++ e.payload),
    length-field 4 (length e.payload) e.payload,
  )

  pub length-body : length body ≡ body_length e
  length-body = omega (
    arith,
    length-append middle (le_bytes 4 (crc32 head)),
    length-le_bytes 4 (crc32 head),
    length-middle,
  )

  pub length-frame : length (frame_of index e) ≡ 4 + body_length e
  length-frame =
      ap length frame_eq
      ∙ omega (
        arith,
        length-append (le_bytes 4 (body_length e)) body,
        length-le_bytes 4 (body_length e),
        length-body,
      )

  -- the body field by field
  abbrev fields : List ℕ
  fields =
      le_bytes 8 index
      ++ (le_bytes 8 e.term
          ++ (le_bytes 4 (length e.payload) ++ (e.payload ++ le_bytes 4 (crc32 head))))

  body-fields : body ≡ fields
  body-fields = simp append_assoc

  term_and_rest :
      drop 8 body
      ≡ le_bytes 8 e.term
        ++ (le_bytes 4 (length e.payload) ++ (e.payload ++ le_bytes 4 (crc32 head)))
  term_and_rest = ap (drop 8) body-fields ∙ drop-field 8 index _

  length_and_rest :
      drop 16 body ≡ le_bytes 4 (length e.payload) ++ (e.payload ++ le_bytes 4 (crc32 head))
  length_and_rest = sym (drop-drop 8 8 body) ∙ ap (drop 8) term_and_rest ∙ drop-field 8 e.term _

  pub payload_and_rest : drop 20 body ≡ e.payload ++ le_bytes 4 (crc32 head)
  payload_and_rest =
      sym (drop-drop 4 16 body) ∙ ap (drop 4) length_and_rest ∙ drop-field 4 (length e.payload) _

  pub read_index : index < 2 ^ 64 → le_value (take 8 body) ≡ index
  read_index h = ap (λ b. le_value (take 8 b)) body-fields ∙ read-field 8 index _ h

  pub read_term : le_value (take 8 (drop 8 body)) ≡ e.term
  read_term = ap (λ b. le_value (take 8 b)) term_and_rest ∙ read-field 8 e.term _ fits.term_fits

  pub read_length : le_value (take 4 (drop 16 body)) ≡ length e.payload
  read_length =
      ap (λ b. le_value (take 4 b)) length_and_rest
      ∙ read-field 4 (length e.payload) _ (omega (arith, fits.payload_fits))

  read_checksum : le_value (take 4 (drop (body_length e - 4) body)) ≡ crc32 head
  read_checksum =
      ap (λ b. le_value (take 4 b))
        (drop-append_len (body_length e - 4) middle _ (omega (arith, length-middle)))
      ∙ ap le_value (
          take_of_length-le 4 (le_bytes 4 (crc32 head))
            (omega (arith, length-le_bytes 4 (crc32 head))))
      ∙ le_value-le_bytes 4 (crc32 head) (crc32-lt head)

  checksum_input : le_bytes 4 (body_length e) ++ take (body_length e - 4) body ≡ head
  checksum_input =
      ap (λ b. le_bytes 4 (body_length e) ++ b)
        (take-append_len (body_length e - 4) middle _ (omega (arith, length-middle)))

  -- The body of a frame that append wrote passes the tests of the recovery scan, at its own index.
  pub check_body-body :
      (count : ℕ)
      → index ≡ count + 1
      → index < 2 ^ 64
      → check_body (body_length e) body count ≡ valid index e.term (body_length e)
  unfolding check_body
  check_body-body count next h = rw (
    read_length,
    body_size-eq,
    read_checksum,
    checksum_input,
    read_index h,
    read_term,
    eq→== (body_length e) (body_length e) refl,
    eq→== (crc32 head) (crc32 head) refl,
    eq→== index (count + 1) next,
  )
