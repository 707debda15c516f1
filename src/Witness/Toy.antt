-- ===== src/Witness/Toy.antt =====
-- A pool that counts its objects, and a hash map as a function.
use mini_database.Prelude.{
  ℕ, suc, ◌-◌, ◌<◌, ◌≡◌, ◌≢◌, refl, Option, none, some, is_some, List, [], ◌∷◌, ◌++◌, length,
  length-append, arith, ltb, ◌==◌, String, str_eq, if◌then◌else◌,
}
use mini_database.Packages.Pool.{PoolLib}
use mini_database.Packages.HashMap.{HashMapLib}

pub record Counter : Type 0 where
  pub capacity : ℕ
  pub used : ℕ

abbrev create : Counter → Option (Unit {0} × Counter)
create p = if ltb p.used p.capacity then some (tt, record p { used = suc p.used }) else none

abbrev Holds : Counter → List (Unit {0}) → Type 0
Holds p l = length l ≡ p.used

pub create-ne-none :
    (p : Counter) (l : List Unit) → Holds p l → length l < p.capacity → create p ≢ none
create-ne-none p l h less = ground arith

pub create-capacity :
    (p : Counter) (s : Unit {0}) (q : Counter) → create p ≡ some (s, q) → q.capacity ≡ p.capacity
create-capacity p s q e = ground arith

pub create-Holds :
    (p : Counter) (l : List Unit) (s : Unit {0}) (q : Counter)
    → Holds p l
    → create p ≡ some (s, q)
    → Holds q (l ++ s ∷ [])
create-Holds p l s q h e = ground (arith, length-append l (s ∷ []))

pub destroy-Holds :
    (p : Counter) (l : List Unit) (s : Unit {0}) (r : List Unit)
    → Holds p (l ++ s ∷ r)
    → Holds (record p { used = p.used - 1 }) (l ++ r)
destroy-Holds p l s r h = omega (arith, length-append l (s ∷ r), length-append l r)

abbrev pub toy_pool : PoolLib
toy_pool = record {
  Pool = Counter;
  Slot = Unit {0};
  make = λ size count. record { capacity = count; used = 0 };
  create = create;
  destroy = λ p s. record p { used = p.used - 1 };
  capacity = λ p. p.capacity;
  Holds = Holds;
  make-capacity = λ size count. refl;
  make-Holds = λ size count. refl;
  create-ne-none = create-ne-none;
  create-capacity = create-capacity;
  create-Holds = create-Holds;
  destroy-capacity = λ p s. refl;
  destroy-Holds = destroy-Holds;
}

abbrev pub toy_map : HashMapLib ℕ ℕ ◌==◌
toy_map = record {
  HashMap = ℕ → Option ℕ;
  empty = λ k. none;
  insert = λ m k v j. if k == j then some v else m j;
  erase = λ m k j. if k == j then none else m j;
  contains = λ m k. is_some (m k);
  at = λ m k. m k;
  contains-at = λ m k. refl;
  at-empty = λ k. refl;
  at-insert = λ m k v j fresh. refl;
  at-erase = λ m k j. refl;
}

abbrev pub toy_names : HashMapLib String ℕ str_eq
toy_names = record {
  HashMap = String → Option ℕ;
  empty = λ k. none;
  insert = λ m k v j. if str_eq k j then some v else m j;
  erase = λ m k j. if str_eq k j then none else m j;
  contains = λ m k. is_some (m k);
  at = λ m k. m k;
  contains-at = λ m k. refl;
  at-empty = λ k. refl;
  at-insert = λ m k v j fresh. refl;
  at-erase = λ m k j. refl;
}
