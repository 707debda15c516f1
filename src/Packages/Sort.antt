-- ===== src/Packages/Sort.antt =====
-- std::sort: the result for a comparison and a sequence. With a comparison that is no strict weak
-- ordering of the sequence its behaviour is undefined, so a law gives a result for no other.
use mathlib.Core.List.{Perm, Pairwise}
use mini_database.Prelude.{◌≡◌, Option, some, Bool, true, false, List, All}

-- The comparison is a strict weak ordering on the values of a predicate.
pub record StrictWeak {A : Type 0} (P : A → Type 0) (less : A → A → Bool) : Type 0 where
  pub asymm : (x y : A) → P x → P y → less x y ≡ true → less y x ≡ false
  pub negtrans :
      (x y z : A) → P x → P y → P z → less x y ≡ false → less y z ≡ false → less x z ≡ false

-- No later value is less than an earlier one.
abbrev pub IsAscending : {A : Type 0} → (A → A → Bool) → List A → Type 0
IsAscending less = Pairwise (λ x y. less y x ≡ false)

pub record SortLib (A : Type 0) : Type 1 where
  -- none where the behaviour is undefined
  pub sort : (A → A → Bool) → List A → Option (List A)
  pub sort-some :
      (P : A → Type 0) (less : A → A → Bool) (l : List A)
      → StrictWeak P less
      → All P l
      → (sorted : List A) × (sort less l ≡ some sorted) × Perm sorted l × IsAscending less sorted
