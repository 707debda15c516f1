-- ===== src/Wal/Recovery.antt =====
-- Storage/WriteAheadLog.cpp: the scan of open() over valid frames and a torn tail.
use mini_database.Prelude.{
  ℕ, ◌+◌, ◌^◌, ◌<◌, ◌≡◌, refl, ap, sym, ◌∙◌, ◌⊎◌, inl, inr, some, List, [], ◌∷◌, ◌++◌, append_assoc,
  arith, length, length-append, take, drop, take-append_len, drop-append_len, take_of_length-le,
  drop-drop, take-take, lt-or-ge, length-take,
}
use mini_database.Packages.Posix.{Posix, ReadsWhole}
use mini_database.Wal.{next_frame, valid, stop}
use mini_database.Wal.Bytes.{
  le_bytes, le_value, length-le_bytes, take-field, drop-field, read-field,
}
use mini_database.Wal.Frames.{
  Entry, Fits, frame_of, frame_eq, body_length, body, length-body, length-frame, check_body-body,
}

-- What append writes for the entries, the first of them at an index.
unfoldable pub log_bytes : ℕ → List Entry → List ℕ
log_bytes index [] = []
log_bytes index (e ∷ es) = frame_of index e ++ log_bytes (index + 1) es

-- A tail that holds no whole length field, or less than its length field says.
abbrev pub IsTorn : List ℕ → Type 0
IsTorn tail = (length tail < 4) ⊎ (length tail < 4 + le_value (take 4 tail))

-- A frame that was cut short is torn.
pub take-frame-IsTorn :
    (k index : ℕ) (e : Entry)
    → Fits e
    → k < length (frame_of index e)
    → IsTorn (take k (frame_of index e))
take-frame-IsTorn k index e fits h = elim (lt-or-ge k 4) [
  | inl small ↦ inl (omega (arith, length-take k (frame_of index e)))
  | inr large ↦
      let value : le_value (take 4 (take k (frame_of index e))) ≡ body_length e =
        ap le_value (take-take 4 k (frame_of index e) large)
        ∙ ap (λ b. le_value (take 4 b)) (frame_eq index e fits)
        ∙ read-field 4 (body_length e) _ (omega (arith, fits.payload_fits)) in
      inr (omega (arith, value, length-take k (frame_of index e), length-frame index e fits))
]

module _ (S : Posix) (fd : ℕ) (w : Posix.World S) (reads : ReadsWhole S w fd) where
  open S use {bytes, pread}

  abbrev pub total : ℕ
  total = length (bytes w fd)

  module _ (pos count : ℕ) (before rest : List ℕ) (here : bytes w fd ≡ before ++ rest)
      (at_pos : pos ≡ length before) where
    rest_eq : drop pos (bytes w fd) ≡ rest
    rest_eq = ap (drop pos) here ∙ drop-append_len pos before rest at_pos

    total_eq : total ≡ pos + length rest
    total_eq = ap length here ∙ omega (arith, length-append before rest)

    pub read_prefix : pread fd 4 pos w ≡ some (take 4 rest)
    read_prefix = reads.read_eq 4 pos (omega arith) ∙ ap (λ b. some (take 4 b)) rest_eq

    -- At a torn tail the scan stops.
    pub next_frame-IsTorn : IsTorn rest → next_frame S fd w total pos count ≡ stop
    unfolding next_frame
    next_frame-IsTorn torn = ground (
      arith,
      read_prefix,
      total_eq,
      torn,
      length-take 4 rest,
      take_of_length-le 4 (take 4 rest) (omega (arith, length-take 4 rest)),
    )

    module _ (e : Entry) (more : List ℕ) (fits : Fits e)
        (rest-eq : rest ≡ frame_of (count + 1) e ++ more) where
      abbrev here_body : List ℕ
      here_body = body (count + 1) e fits

      split_eq : rest ≡ le_bytes 4 (body_length e) ++ (here_body ++ more)
      split_eq =
          rest-eq
          ∙ ap (λ b. b ++ more) (frame_eq (count + 1) e fits)
          ∙ append_assoc (le_bytes 4 (body_length e)) here_body more

      prefix_eq : take 4 rest ≡ le_bytes 4 (body_length e)
      prefix_eq = ap (take 4) split_eq ∙ take-field 4 (body_length e) _

      pub prefix_value : le_value (take 4 rest) ≡ body_length e
      prefix_value =
          ap (λ b. le_value (take 4 b)) split_eq
          ∙ read-field 4 (body_length e) _ (omega (arith, fits.payload_fits))

      pub length-prefix : length (take 4 rest) ≡ 4
      length-prefix = ap length prefix_eq ∙ length-le_bytes 4 (body_length e)

      body_eq : drop (pos + 4) (bytes w fd) ≡ here_body ++ more
      body_eq =
          ap (λ n. drop n (bytes w fd)) (omega arith)
          ∙ sym (drop-drop 4 pos (bytes w fd))
          ∙ ap (drop 4) (rest_eq ∙ split_eq)
          ∙ drop-field 4 (body_length e) _

      pub read_body : pread fd (body_length e) (pos + 4) w ≡ some here_body
      read_body =
          reads.read_eq (body_length e) (pos + 4) (omega (arith, fits.payload_fits))
          ∙ ap (λ b. some (take (body_length e) b)) body_eq
          ∙ ap some (
              take-append_len (body_length e) here_body more (sym (length-body (count + 1) e fits)))

      length-rest : length rest ≡ 4 + body_length e + length more
      length-rest = omega (
        arith,
        ap length rest-eq,
        length-append (frame_of (count + 1) e) more,
        length-frame (count + 1) e fits,
      )

      -- At a frame of the next index the scan takes it.
      pub next_frame-frame :
          count + 1 < 2 ^ 64
          → next_frame S fd w total pos count ≡ valid (count + 1) e.term (body_length e)
      unfolding next_frame
      next_frame-frame few =
          let value : le_value (take 4 (take 4 rest)) ≡ body_length e =
            ap le_value (take-take 4 4 rest (omega arith)) ∙ prefix_value in
          rw
            (
              read_prefix,
              value,
              read_body,
              total_eq,
              length-rest,
              length-prefix,
              length-body (count + 1) e fits,
            )
            (ground (arith, check_body-body (count + 1) e fits count refl few))
