-- ===== src/Wal/Bytes.antt =====
-- Fixed-width numbers as bytes, the least first: what std::memcpy writes and reads on the hosts that
-- the program is built for.
use native.Mathlib.Nat.{pow-suc}
use mini_database.Prelude.{
  ℕ, zero, suc, ◌+◌, ◌*◌, ◌/◌, ◌%◌, ◌^◌, ◌<◌, ◌≡◌, refl, ap, sym, ◌∙◌, List, [], ◌∷◌, ◌++◌, arith,
  length, length-append, take, drop, take-append_len, drop-append_len,
}

unfoldable pub le_bytes : ℕ → ℕ → List ℕ
le_bytes zero x = []
le_bytes (suc n) x = x % 256 ∷ le_bytes n (x / 256)

unfoldable pub le_value : List ℕ → ℕ
le_value [] = 0
le_value (b ∷ bs) = b + 256 * le_value bs

pub length-le_bytes : (n x : ℕ) → length (le_bytes n x) ≡ n
unfolding le_bytes
length-le_bytes zero x = refl
length-le_bytes (suc n) x = omega (arith, length-le_bytes n (x / 256))

pub le_value-le_bytes : (n x : ℕ) → x < 256 ^ n → le_value (le_bytes n x) ≡ x
unfolding le_bytes le_value
le_value-le_bytes zero x h = omega arith
le_value-le_bytes (suc n) x h =
    let small : x / 256 < 256 ^ n = omega (arith, pow-suc 256 n) in
    omega (arith, le_value-le_bytes n (x / 256) small)

-- A field at the front of a buffer.
module _ (n x : ℕ) (rest : List ℕ) where
  pub take-field : take n (le_bytes n x ++ rest) ≡ le_bytes n x
  take-field = take-append_len n (le_bytes n x) rest (sym (length-le_bytes n x))

  pub drop-field : drop n (le_bytes n x ++ rest) ≡ rest
  drop-field = drop-append_len n (le_bytes n x) rest (sym (length-le_bytes n x))

  pub length-field : length (le_bytes n x ++ rest) ≡ n + length rest
  length-field = omega (arith, length-append (le_bytes n x) rest, length-le_bytes n x)

  pub read-field : x < 256 ^ n → le_value (take n (le_bytes n x ++ rest)) ≡ x
  read-field h = ap le_value take-field ∙ le_value-le_bytes n x h
