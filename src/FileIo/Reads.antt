-- ===== src/FileIo/Reads.antt =====
-- include/MiniDB/Common/FileIO.h: readFile of a file whose bytes can be read.
use mini_database.Prelude.{ℕ, ◌≡◌, some, List, [], ◌∷◌, String, arith}
use mini_database.Common.{ok}
use mini_database.Packages.Files.{Files, ReadsFile}
use mini_database.FileIo.Whole.{read_file}

pub read_file-content :
    (F : Files) (path : String) (w : Files.World F) (bytes : List ℕ)
    → ReadsFile F w path bytes
    → read_file F path w ≡ (some bytes, ok)
unfolding read_file
read_file-content F path w [] reads = ground (arith, reads.size_eq, reads.opens_eq)
read_file-content F path w (b ∷ bs) reads =
    ground (arith, reads.size_eq, reads.opens_eq, reads.read_eq)
