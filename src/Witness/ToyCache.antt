-- ===== src/Witness/ToyCache.antt =====
-- A cache that has room for everything, and a text as the numbers of its characters.
use Prim.Native.Char.{Char, char, code, nul, IsLt}
use Prim.Native.Nat.{Ordering, compare as compare_ℕ}
use Prim.Native.String.{[] as []ₛ, ◌∷◌ as ◌∷ₛ◌}
use mini_database.Prelude.{
  ℕ, ◌≡◌, refl, ap₂, inl, ◌&&◌, Option, none, some, is_some, List, [], ◌∷◌, String, str_eq,
  if◌then◌else◌,
}
use mini_database.Packages.LruCache.{LruCacheLib}
use mini_database.Packages.Text.{TextLib}

abbrev pub toy_cache : (V : Type 0) → LruCacheLib String V str_eq
toy_cache V = record {
  Cache = String → Option V;
  make = λ n k. none;
  peek = λ c k. c k;
  contains = λ c k. is_some (c k);
  get = λ c k. (c, c k);
  store = λ c k v j. if str_eq k j && is_some (c k) then some v else c j;
  put = λ c k v j. if str_eq k j then some v else c j;
  erase = λ c k j. if str_eq k j then none else c j;
  hit_count = λ c. 0;
  miss_count = λ c. 0;
  peek-make = λ n k. refl;
  contains-peek = λ c k. refl;
  get-peek = λ c k. refl;
  peek-get = λ c k j. refl;
  peek-store = λ c k j v. refl;
  peek-erase = λ c k j. refl;
  peek-put = λ c k j v same. rw same refl;
  peek-put-other = λ c k j v other. inl (rw other refl);
}

abbrev Both : Ordering → Ordering → Type 0
Both Ordering.lt o = IsLt o
Both Ordering.eq o = ⊥
Both Ordering.gt o = ⊥

abbrev Scalar : Ordering → Ordering → Ordering → Type 0
Scalar Ordering.lt o p = Unit
Scalar Ordering.eq o p = Both o p
Scalar Ordering.gt o p = Both o p

abbrev pub less? : (o : Ordering) → Option (IsLt o)
less? Ordering.lt = some tt
less? Ordering.eq = none
less? Ordering.gt = none

abbrev pub both? : (o p : Ordering) → Option (Both o p)
both? Ordering.lt p = less? p
both? Ordering.eq p = none
both? Ordering.gt p = none

abbrev pub scalar? : (o p q : Ordering) → Option (Scalar o p q)
scalar? Ordering.lt p q = some tt
scalar? Ordering.eq p q = both? p q
scalar? Ordering.gt p q = both? p q

less-eq : (o : Ordering) (h : IsLt o) → less? o ≡ some h
less-eq Ordering.lt h = refl
less-eq Ordering.eq h = absurd h
less-eq Ordering.gt h = absurd h

both-eq : (o p : Ordering) (h : Both o p) → both? o p ≡ some h
both-eq Ordering.lt p h = less-eq p h
both-eq Ordering.eq p h = absurd h
both-eq Ordering.gt p h = absurd h

scalar-eq : (o p q : Ordering) (h : Scalar o p q) → scalar? o p q ≡ some h
scalar-eq Ordering.lt p q h = refl
scalar-eq Ordering.eq p q h = both-eq p q h
scalar-eq Ordering.gt p q h = both-eq p q h

abbrev char_of : ℕ → Char
char_of n = elim (scalar? (compare_ℕ n 55296) (compare_ℕ 57343 n) (compare_ℕ n 1114112)) [
  | none ↦ nul
  | some h ↦ char n h
]

char_of-code : (c : Char) → char_of (code c) ≡ c
char_of-code (char n h) =
    rw (char_of, scalar-eq (compare_ℕ n 55296) (compare_ℕ 57343 n) (compare_ℕ n 1114112) h) refl

abbrev pub codes : String → List ℕ
codes []ₛ = []
codes (c ∷ₛ s) = code c ∷ codes s

abbrev pub chars : List ℕ → String
chars [] = []ₛ
chars (n ∷ ns) = char_of n ∷ₛ chars ns

pub chars-codes : (s : String) → chars (codes s) ≡ s
chars-codes []ₛ = refl
chars-codes (c ∷ₛ s) = ap₂ (λ a t. a ∷ₛ t) (char_of-code c) (chars-codes s)

abbrev pub toy_text : TextLib
toy_text = record {
  bytes_of = codes;
  text_of = chars;
  to_string = λ n. "0";
  text_of-bytes_of = chars-codes;
}
