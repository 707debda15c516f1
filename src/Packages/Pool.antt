-- ===== src/Packages/Pool.antt =====
-- PoolPro::Pool as Page uses it: a fixed number of places for objects of one type.
use mini_database.Prelude.{ℕ, ◌<◌, ◌≡◌, ◌≢◌, Option, none, some, List, [], ◌∷◌, ◌++◌, length}

pub record PoolLib : Type 1 where
  pub Pool : Type 0
  -- the address that `create` returns
  pub Slot : Type 0
  -- Pool(block size, count)
  pub make : ℕ → ℕ → Pool
  -- create<T>(…); `none` is a null pointer
  pub create : Pool → Option (Slot × Pool)
  pub destroy : Pool → Slot → Pool
  pub capacity : Pool → ℕ
  -- the live objects are these, in some order
  pub Holds : Pool → List Slot → Type 0
  pub make-capacity : (size count : ℕ) → capacity (make size count) ≡ count
  pub make-Holds : (size count : ℕ) → Holds (make size count) []
  pub create-ne-none :
      (p : Pool) (l : List Slot) → Holds p l → length l < capacity p → create p ≢ none
  pub create-capacity :
      (p : Pool) (s : Slot) (q : Pool) → create p ≡ some (s, q) → capacity q ≡ capacity p
  pub create-Holds :
      (p : Pool) (l : List Slot) (s : Slot) (q : Pool)
      → Holds p l
      → create p ≡ some (s, q)
      → Holds q (l ++ s ∷ [])
  pub destroy-capacity : (p : Pool) (s : Slot) → capacity (destroy p s) ≡ capacity p
  pub destroy-Holds :
      (p : Pool) (l : List Slot) (s : Slot) (r : List Slot)
      → Holds p (l ++ s ∷ r)
      → Holds (destroy p s) (l ++ r)
