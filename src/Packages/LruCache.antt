-- ===== src/Packages/LruCache.antt =====
-- CachePro::LRUCache<K, V> as the storage engine uses it. `peek` is what the cache holds; no program
-- reads it. Which entry a full cache drops for a new one is left open.
use mini_database.Prelude.{
  ℕ, ◌≡◌, ◌⊎◌, Bool, true, false, ◌&&◌, Option, none, some, is_some, if◌then◌else◌,
}

pub record LruCacheLib (K V : Type 0) (eq : K → K → Bool) : Type 1 where
  pub Cache : Type 0
  pub make : ℕ → Cache
  pub peek : Cache → K → Option V
  pub contains : Cache → K → Bool
  -- get(k): the value that the pointer points to, `none` for null
  pub get : Cache → K → Cache × Option V
  -- an assignment through the pointer that get(k) returned
  pub store : Cache → K → V → Cache
  pub put : Cache → K → V → Cache
  pub erase : Cache → K → Cache
  pub hit_count : Cache → ℕ
  pub miss_count : Cache → ℕ
  pub peek-make : (n : ℕ) (k : K) → peek (make n) k ≡ none
  pub contains-peek : (c : Cache) (k : K) → contains c k ≡ is_some (peek c k)
  pub get-peek : (c : Cache) (k : K) → (get c k).1 ≡ peek c k
  pub peek-get : (c : Cache) (k j : K) → peek (get c k).0 j ≡ peek c j
  pub peek-store :
      (c : Cache) (k j : K) (v : V)
      → peek (store c k v) j ≡ (if eq k j && is_some (peek c k) then some v else peek c j)
  pub peek-erase : (c : Cache) (k j : K) → peek (erase c k) j ≡ (if eq k j then none else peek c j)
  pub peek-put : (c : Cache) (k j : K) (v : V) → eq k j ≡ true → peek (put c k v) j ≡ some v
  -- Another entry is kept or dropped.
  pub peek-put-other :
      (c : Cache) (k j : K) (v : V)
      → eq k j ≡ false
      → (peek (put c k v) j ≡ peek c j) ⊎ (peek (put c k v) j ≡ none)
