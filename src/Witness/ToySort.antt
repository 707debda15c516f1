-- ===== src/Witness/ToySort.antt =====
-- Insertion sort, which meets every law of `SortLib`.
use mathlib.Core.Logic.Or
use mathlib.Core.List.{Mem, Perm, mem-cons, not-mem-nil}
use mathlib.Core.List.Perm
use mathlib.Core.List.Pairwise
use mathlib.Core.Bool.{Bool-set}
use mini_database.Prelude.{
  some, refl, ◌≡◌, Bool, false, inl, inr, List, [], ◌∷◌, if◌then◌else◌, Bool-cases, All,
}
use mini_database.Packages.Sort.{SortLib, StrictWeak, IsAscending}

module _ {A : Type 0} (less : A → A → Bool) where
  abbrev pub insert : A → List A → List A
  insert x [] = x ∷ []
  insert x (y ∷ ys) = let rest = insert x ys in if less y x then y ∷ rest else x ∷ y ∷ ys

  abbrev pub sort : List A → List A
  sort [] = []
  sort (x ∷ xs) = insert x (sort xs)

  insert-perm : (x : A) (ys : List A) → Perm (insert x ys) (x ∷ ys)
  insert-perm x [] = Perm.refl (x ∷ [])
  insert-perm x (y ∷ ys) = elim (Bool-cases (less y x)) [
    | inl e ↦ rw e (Perm.trans (Perm.cons y (insert-perm x ys)) (Perm.swap x y ys))
    | inr e ↦ rw e (Perm.refl (x ∷ y ∷ ys))
  ]

  pub sort-perm : (xs : List A) → Perm (sort xs) xs
  sort-perm [] = Perm.refl []
  sort-perm (x ∷ xs) = Perm.trans (insert-perm x (sort xs)) (Perm.cons x (sort-perm xs))

  All-insert : (P : A → Type 0) (x : A) (ys : List A) → P x → All P ys → All P (insert x ys)
  All-insert P x [] h k = (h, tt)
  All-insert P x (y ∷ ys) h (k, l) = elim (Bool-cases (less y x)) [
    | inl e ↦ rw e (k, All-insert P x ys h l)
    | inr e ↦ rw e (h, (k, l))
  ]

  All-sort : (P : A → Type 0) (xs : List A) → All P xs → All P (sort xs)
  All-sort P [] h = tt
  All-sort P (x ∷ xs) (h, k) = All-insert P x (sort xs) h (All-sort P xs k)

  abbrev pub IsSorted : List A → Type 0
  IsSorted [] = Unit
  IsSorted (x ∷ xs) = All (λ z. less z x ≡ false) xs × IsSorted xs

  module _ (P : A → Type 0) (weak : StrictWeak P less) where
    above :
        (x y : A) (ys : List A)
        → P x
        → P y
        → All P ys
        → less y x ≡ false
        → All (λ z. less z y ≡ false) ys
        → All (λ z. less z x ≡ false) ys
    above x y [] h k l e a = tt
    above x y (z ∷ ys) h k (l, m) e (a, b) = (weak.negtrans z y x l k h a e, above x y ys h k m e b)

    insert-IsSorted : (x : A) (ys : List A) → P x → All P ys → IsSorted ys → IsSorted (insert x ys)
    insert-IsSorted x [] h k s = (tt, tt)
    insert-IsSorted x (y ∷ ys) h (k, l) (b, s) = elim (Bool-cases (less y x)) [
      | inl e ↦ rw e (
        All-insert (λ z. less z y ≡ false) x ys (weak.asymm y x k h e) b,
        insert-IsSorted x ys h l s,
      )
      | inr e ↦ rw e ((e, above x y ys h k l e b), (b, s))
    ]

    pub sort-IsSorted : (xs : List A) → All P xs → IsSorted (sort xs)
    sort-IsSorted [] h = tt
    sort-IsSorted (x ∷ xs) (h, k) =
        insert-IsSorted x (sort xs) h (All-sort P xs k) (sort-IsSorted xs k)

  Mem-All : (x z : A) (ys : List A) → All (λ z. less z x ≡ false) ys → Mem z ys → less z x ≡ false
  Mem-All x z [] h m = absurd (not-mem-nil m)
  Mem-All x z (y ∷ ys) (h, k) m =
      Or.elim (Bool-set _ _) (mem-cons.0 m) (λ e. rw e h) (Mem-All x z ys k)

  pub IsSorted-IsAscending : (xs : List A) → IsSorted xs → IsAscending less xs
  IsSorted-IsAscending [] s = Pairwise.nil
  IsSorted-IsAscending (x ∷ xs) (h, s) =
      Pairwise.cons (λ z m. Mem-All x z xs h m) (IsSorted-IsAscending xs s)

abbrev pub toy_sort : (A : Type 0) → SortLib A
toy_sort A = record {
  sort = λ less l. some (sort less l);
  sort-some = λ P less l weak h. (
    sort less l,
    refl,
    sort-perm less l,
    IsSorted-IsAscending less (sort less l) (sort-IsSorted less P weak l h),
  );
}
