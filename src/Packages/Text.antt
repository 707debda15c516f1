-- ===== src/Packages/Text.antt =====
-- The standard library on std::string: the bytes of a text, the text of bytes, and std::to_string.
use mini_database.Prelude.{ℕ, ◌≡◌, List, String}

pub record TextLib : Type 0 where
  pub bytes_of : String → List ℕ
  pub text_of : List ℕ → String
  pub to_string : ℕ → String
  pub text_of-bytes_of : (s : String) → text_of (bytes_of s) ≡ s
