-- ===== src/Packages/HashMap.antt =====
-- HashMapPro::HashMap<K, V> as Table and Database use it. What `insert` does to a key that is
-- already there is left open.
use mini_database.Prelude.{◌≡◌, Bool, Option, none, some, is_some, if◌then◌else◌}

pub record HashMapLib (K V : Type 0) (eq : K → K → Bool) : Type 1 where
  pub HashMap : Type 0
  pub empty : HashMap
  pub insert : HashMap → K → V → HashMap
  pub erase : HashMap → K → HashMap
  pub contains : HashMap → K → Bool
  -- at(k); `none` is the exception for a missing key
  pub at : HashMap → K → Option V
  pub contains-at : (m : HashMap) (k : K) → contains m k ≡ is_some (at m k)
  pub at-empty : (k : K) → at empty k ≡ none
  pub at-insert :
      (m : HashMap) (k : K) (v : V) (j : K)
      → at m k ≡ none
      → at (insert m k v) j ≡ (if eq k j then some v else at m j)
  pub at-erase : (m : HashMap) (k j : K) → at (erase m k) j ≡ (if eq k j then none else at m j)
