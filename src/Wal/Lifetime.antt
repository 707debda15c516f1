-- ===== src/Wal/Lifetime.antt =====
-- Storage/WriteAheadLog.cpp: the destructor and the move operations. `left_path` is what moving a
-- string leaves in it.
use mini_database.Prelude.{ℕ, ◌≡◌, refl, ◌∙◌, none, some, List, [], String}
use mini_database.Common.{io_error}
use mini_database.Packages.Posix.{Posix}
use mini_database.Wal.{WriteAheadLog, invalid_log_index, invalid_term, close_first, append}
use mini_database.Wal.Frames.{Entry}
use mini_database.Wal.Opening.{Represents}

-- What a move leaves of the log that it takes from.
unfoldable pub moved_from : String → WriteAheadLog → WriteAheadLog
moved_from left_path other = record {
  path = left_path;
  fd = none;
  offset_index = [];
  last_index = invalid_log_index;
  last_term = invalid_term;
  write_offset = 0;
}

-- WriteAheadLog(WriteAheadLog&&): the new log, and the other afterwards
unfoldable pub move_construct : String → WriteAheadLog → WriteAheadLog × WriteAheadLog
unfolding moved_from
move_construct left_path other = (other, moved_from left_path other)

module _ (S : Posix) where
  open S use {World, bytes, close, close-bytes}

  -- ~WriteAheadLog
  unfoldable pub destruct : WriteAheadLog → World → World
  unfolding close_first
  destruct log w = close_first S log w

  -- operator=(WriteAheadLog&&) from another object: this log, the other and the world afterwards
  unfoldable pub move_assign :
      String → WriteAheadLog → WriteAheadLog → World → WriteAheadLog × WriteAheadLog × World
  unfolding moved_from close_first
  move_assign left_path log other w = (other, moved_from left_path other, close_first S log w)

  close_first-bytes :
      (log : WriteAheadLog) (w : World) (fd : ℕ) → bytes (close_first S log w) fd ≡ bytes w fd
  unfolding close_first
  close_first-bytes log w fd =
      elim log.fd as (λ f. bytes (elim f [ none ↦ w | some fd' ↦ close fd' w ]) fd ≡ bytes w fd) [
        | none ↦ refl
        | some fd' ↦ close-bytes fd' fd w
      ]

  -- After a move assignment from a log that represents some entries, this log represents them, append
  -- to the other answers IO_ERROR and does nothing, and its destruction closes nothing.
  pub move_assign-Represents :
      (left_path : String) (log other : WriteAheadLog) (w : World) (fd : ℕ) (es : List Entry)
      (tail : List ℕ)
      → Represents S fd other w es tail
      → let (log', other', w') = move_assign left_path log other w in
        Represents S fd log' w' es tail
        × ((term : ℕ) (payload : List ℕ) (v : World)
            → append S other' term payload v ≡ (other', v, none, io_error))
        × ((v : World) → destruct other' v ≡ v)
  unfolding move_assign destruct moved_from append close_first
  move_assign-Represents left_path log other w fd es tail r = (
    record {
      fd_eq = r.fd_eq;
      bytes_eq = close_first-bytes log w fd ∙ r.bytes_eq;
      offsets_eq = r.offsets_eq;
      index_eq = r.index_eq;
      term_eq = r.term_eq;
      write_offset_eq = r.write_offset_eq;
    },
    λ term payload v. refl,
    λ v. refl,
  )
