-- ===== src/Witness/Whole.antt =====
-- The theorem about writeFileAtomic at a file that is replaced.
use mini_database.Prelude.{ℕ, List, refl, ◌≡◌, ◌⊎◌, some, none, [], ◌∷◌, str_eq, if◌then◌else◌}
use mini_database.Common.{ok, io_error}
use mini_database.Packages.Files.{Files}
use mini_database.FileIo.Whole.{write_file_atomic}
use mini_database.FileIo.Atomic.{write_file_atomic-Atomic}
use mini_database.FileIo.Succeeding.{Succeeds, write_file_atomic-succeeds}
use mini_database.Witness.ToyFiles.{Directory, directory_of, toy_files}

abbrev before : Directory
before = directory_of (λ p. if str_eq "data.json" p then some (1 ∷ 2 ∷ []) else none)

abbrev bytes : List ℕ
bytes = 7 ∷ 8 ∷ 9 ∷ []

write_file_atomic-Atomic_example :
    (((write_file_atomic toy_files "data.json" bytes before).1 ≡ some ok)
      × (Files.content toy_files
            (write_file_atomic toy_files "data.json" bytes before).0
            "data.json"
          ≡ some bytes))
    ⊎ ((((write_file_atomic toy_files "data.json" bytes before).1 ≡ some io_error)
          ⊎ ((write_file_atomic toy_files "data.json" bytes before).1 ≡ none))
        × (Files.content toy_files
              (write_file_atomic toy_files "data.json" bytes before).0
              "data.json"
            ≡ Files.content toy_files before "data.json"))
write_file_atomic-Atomic_example = write_file_atomic-Atomic toy_files "data.json" bytes before

abbrev IsHealthy : Directory → Type 0
IsHealthy w = Unit

succeeds : Succeeds toy_files IsHealthy "data.json.tmp" "data.json"
succeeds = record {
  opened = λ w h. (λ e. cc, tt);
  written = λ fd buf w h o some_byte. (λ e. cc, tt);
  synced = λ fd w h o. (refl, tt);
  closed = λ fd w h o. tt;
  renamed = λ w held h e. refl;
}

write_file_atomic-succeeds_example :
    ((write_file_atomic toy_files "data.json" bytes before).1 ≡ some ok)
    × (Files.content toy_files (write_file_atomic toy_files "data.json" bytes before).0 "data.json"
        ≡ some bytes)
write_file_atomic-succeeds_example =
    write_file_atomic-succeeds toy_files IsHealthy "data.json" succeeds bytes before tt
