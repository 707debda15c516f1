-- ===== src/Query/Aggregates.antt =====
-- Engine/QueryEngine.cpp: count, sum, avg, max and min against folds over the matching records.
use mini_database.Prelude.{
  ℕ, ◌+◌, ◌≡◌, refl, ap, ◌∙◌, Bool, true, false, ◌⊎◌, inl, inr, Option, none, some, List, [], ◌∷◌,
  arith, String, if◌then◌else◌, Bool-cases, Option-cases, length, All, ltb,
}
use mini_database.Packages.Json.{JsonLib, pos}
use mini_database.Packages.Pool.{PoolLib}
use mini_database.Packages.Sort.{SortLib}
use mini_database.Record
use mini_database.Record.{Record}
use mini_database.Table.{Table, IdMap}
use mini_database.Query.{more, FilterPredicate, each_page}
use mini_database.Query.Scans.{
  outcome, count_round, number_round, add_number, add_counted, keep_max, keep_min, count, sum, avg,
  max, min,
}
use mini_database.Query.Values.{matches, evaluate_all-matches}
use mini_database.Query.Rows.{live_records, each_of, each_page-live}
use mini_database.Query.Filtering.{filtered}

unfoldable pub fold {ℓ κ} : {A : Type ℓ} {B : Type κ} → (A → B → B) → B → List A → B
fold f b [] = b
fold f b (a ∷ as') = fold f (f a b) as'

module _ (J : JsonLib) where
  open J use {
    Double, double_eq, double_lt, double_add, double_zero, double_div, double_of, lt-asymm,
    lt-negtrans, is_number, as_number, contains, at, at-ne-none, as_number-ne-none,
  }

  -- The number in a record's field, if there is one.
  unfoldable pub number_of : String → Record J → Option Double
  number_of field r =
      if contains r.fields field
      then elim (at r.fields field) [
        | none ↦ none
        | some val ↦ if is_number val then as_number val else none
      ]
      else none

  unfoldable pub numbers : String → List (Record J) → List Double
  numbers field [] = []
  numbers field (r ∷ rs) = elim (number_of field r) [
    | none ↦ numbers field rs
    | some d ↦ d ∷ numbers field rs
  ]

  module _ (P : PoolLib) (ps : List (FilterPredicate J)) where
    count_round-all :
        (rs : List (Record J)) (n : ℕ)
        → outcome (each_of J P (count_round J ps) rs n) ≡ some (n + length (filtered J ps rs))
    unfolding each_of filtered outcome count_round
    count_round-all [] n = ap some (omega arith)
    count_round-all (r ∷ rs) n = elim (Bool-cases (matches J r ps)) [
      | inl match ↦
          rw (each_of, count_round, evaluate_all-matches J r ps, match)
            (count_round-all rs (n + 1) ∙ ap some (omega arith))
      | inr skip ↦
          rw (each_of, count_round, evaluate_all-matches J r ps, skip) (count_round-all rs n)
    ]

    -- A round changes the variables as the number in the record's field says.
    unfoldable pub used : {A : Type 0} → (Double → A → A) → Option Double → A → A
    used f none a = a
    used f (some d) a = f d a

    number_round-used :
        {A : Type 0} (field : String) (f : Double → A → A) (r : Record J) (a : A)
        → number_round J ps field f r a
          ≡ more (if matches J r ps then used f (number_of field r) a else a)
    unfolding number_round used number_of Record.has_field Record.get_field_ref
    number_round-used field f r a = elim (Option-cases (at r.fields field)) [
      | inl e ↦ ground (arith, evaluate_all-matches J r ps, e, at-ne-none r.fields field)
      | inr (val, e) ↦ elim (Option-cases (as_number val)) [
        | inl e' ↦ ground (arith, evaluate_all-matches J r ps, e, e', as_number-ne-none val)
        | inr (d, e') ↦ ground (arith, evaluate_all-matches J r ps, e, e')
      ]
    ]

    number_round-all :
        {A : Type 0} (field : String) (f : Double → A → A) (rs : List (Record J)) (a : A)
        → outcome (each_of J P (number_round J ps field f) rs a)
          ≡ some (fold f a (numbers field (filtered J ps rs)))
    unfolding each_of filtered outcome numbers fold used
    number_round-all field f [] a = refl
    number_round-all field f (r ∷ rs) a = elim (Bool-cases (matches J r ps)) [
      | inr skip ↦ rw (each_of, number_round-used field f r a, skip) (number_round-all field f rs a)
      | inl match ↦ elim (Option-cases (number_of field r)) [
        | inl e ↦
            rw (each_of, number_round-used field f r a, match, numbers, e)
              (number_round-all field f rs a)
        | inr (d, e) ↦
            rw (each_of, number_round-used field f r a, match, numbers, e)
              (number_round-all field f rs (f d a))
      ]
    ]

  -- avg's loop has the sum and the number of what was added.
  fold-add_counted :
      (ds : List Double) (total : Double) (n : ℕ)
      → fold (add_counted J) (total, n) ds ≡ (fold (add_number J) total ds, n + length ds)
  unfolding fold add_counted add_number
  fold-add_counted [] total n = ap (λ k. (total, k)) (omega arith)
  fold-add_counted (d ∷ ds) total n =
      fold-add_counted ds (double_add total d) (n + 1)
      ∙ ap (λ k. (fold (add_number J) (double_add total d) ds, k)) (omega arith)

  -- A value of the list.
  abbrev pub Among : Double → List Double → Type 0
  Among d [] = ⊥
  Among d (x ∷ xs) = (d ≡ x) ⊎ Among d xs

  -- Not NaN.
  abbrev pub IsNumber : Double → Type 0
  IsNumber d = double_eq d d ≡ true

  module _ (use_number : Double → Double × Bool → Double × Bool) (beats : Double → Double → Bool)
      (first : (d r : Double) → use_number d (r, false) ≡ (d, true))
      (later : (d r : Double)
        → use_number d (r, true) ≡ (if beats d r then (d, true) else (r, true)))
      (asymm : (a b : Double) → beats a b ≡ true → beats b a ≡ false)
      (negtrans : (a b c : Double)
        → IsNumber b
        → beats a b ≡ false
        → beats b c ≡ false
        → beats a c ≡ false) where
    -- The best so far is not beaten by what has been seen.
    fold-best :
        (ds : List Double) (r : Double)
        → IsNumber r
        → All IsNumber ds
        → (best : Double) × (fold use_number (r, true) ds ≡ (best, true))
          × IsNumber best
          × (beats r best ≡ false)
          × All (λ x. beats x best ≡ false) ds
          × ((best ≡ r) ⊎ Among best ds)
    unfolding fold
    fold-best [] r n h = (r, refl, n, irrefl, tt, inl refl)
      where
        irrefl : beats r r ≡ false
        irrefl = elim (Bool-cases (beats r r)) [ inl e ↦ asymm r r e | inr e ↦ e ]
    fold-best (d ∷ ds) r n (m, h) = elim (Bool-cases (beats d r)) [
      | inl better ↦
          let (best, e, k, below, rest, among) = fold-best ds d m h in
          (
            best,
            rw (later d r, better) e,
            k,
            negtrans r d best m (asymm d r better) below,
            (below, rest),
            inr among,
          )
      | inr worse ↦
          let (best, e, k, below, rest, among) = fold-best ds r n h in
          (
            best,
            rw (later d r, worse) e,
            k,
            below,
            (negtrans d r best n worse below, rest),
            elim among [ inl same ↦ inl same | inr other ↦ inr (inr other) ],
          )
    ]

    -- Over no number the variables are as they were; over some, the best of them is found.
    fold-IsBest :
        (ds : List Double) (r : Double)
        → All IsNumber ds
        → (best : Double) × ((fold use_number (r, false) ds).0 ≡ best)
          × All (λ x. beats x best ≡ false) ds
          × (((ds ≡ []) × (best ≡ r)) ⊎ Among best ds)
    unfolding fold
    fold-IsBest [] r h = (r, refl, tt, inl (refl, refl))
    fold-IsBest (d ∷ ds) r (m, h) =
        let (best, e, k, below, rest, among) = fold-best ds d m h in
        (best, rw (fold, first d r) (ap (λ p. p.0) e), (below, rest), inr among)

module _ (J : JsonLib) (P : PoolLib) (M : IdMap) (L : SortLib (Record J)) (t : Table J P M)
    (ps : List (FilterPredicate J)) where
  open J use {Double, double_lt, double_zero, double_div, double_of, lt-asymm, lt-negtrans}

  -- The records that the aggregates are about.
  abbrev pub matching : List (Record J)
  matching = filtered J ps (live_records J P t.pages)

  count-matching : count J P M L t ps ≡ some (length matching)
  unfolding count
  count-matching =
      rw (each_page-live J P (count_round J ps) t.pages 0, count)
        (count_round-all J P ps (live_records J P t.pages) 0 ∙ ap some (omega arith))

  module _ (field : String) where
    scan-numbers :
        {A : Type 0} (f : Double → A → A) (a : A)
        → outcome (each_page J P (number_round J ps field f) t.pages a)
          ≡ some (fold f a (numbers J field matching))
    scan-numbers f a =
        ap outcome (each_page-live J P (number_round J ps field f) t.pages a)
        ∙ number_round-all J P ps field f (live_records J P t.pages) a

    sum-avg :
        (sum J P M L t field ps ≡ some (fold (add_number J) double_zero (numbers J field matching)))
        × (avg J P M L t field ps
            ≡ some (
                if ltb 0 (length (numbers J field matching))
                then double_div
                    (fold (add_number J) double_zero (numbers J field matching))
                    (double_of (pos (length (numbers J field matching))))
                else double_zero))
    unfolding sum avg
    sum-avg = (
      scan-numbers (add_number J) double_zero,
      rw (scan-numbers (add_counted J) (double_zero, 0), avg, counted) refl,
    )
      where
        counted : fold (add_counted J) (double_zero, 0) (numbers J field matching) ≡ (
          fold (add_number J) double_zero (numbers J field matching),
          length (numbers J field matching),
        )
        counted =
            fold-add_counted J (numbers J field matching) double_zero 0
            ∙ ap (λ k. (fold (add_number J) double_zero (numbers J field matching), k))
                (omega arith)

    -- count, sum and avg on any table raise nothing. count answers how many live records satisfy all
    -- predicates. Over the numbers that these records have in the field, in order, sum adds them to 0.0,
    -- and avg divides that sum by how many they are, or answers 0.0 if there are none.
    pub count-sum-avg :
        (count J P M L t ps ≡ some (length matching))
        × (sum J P M L t field ps
            ≡ some (fold (add_number J) double_zero (numbers J field matching)))
        × (avg J P M L t field ps
            ≡ some (
                if ltb 0 (length (numbers J field matching))
                then double_div
                    (fold (add_number J) double_zero (numbers J field matching))
                    (double_of (pos (length (numbers J field matching))))
                else double_zero))
    count-sum-avg = (count-matching, sum-avg.0, sum-avg.1)

    -- An answer that is one of the numbers, or 0.0 without any, and that no number beats.
    abbrev pub IsBest : (Double → Double → Bool) → Option Double → Type 0
    IsBest beats answer =
        (best : Double) × (answer ≡ some best)
        × All (λ x. beats x best ≡ false) (numbers J field matching)
        × (((numbers J field matching ≡ []) × (best ≡ double_zero))
            ⊎ Among J best (numbers J field matching))

    -- max and min on any table whose matching records have no NaN in the field raise nothing. Each answers
    -- one of the matching records' numbers, or 0.0 if they have none; no number of theirs is above the
    -- answer of max, and none is below that of min.
    pub max-min-IsBest :
        All (IsNumber J) (numbers J field matching)
        → IsBest (λ a b. double_lt b a) (max J P M L t field ps)
          × IsBest double_lt (min J P M L t field ps)
    unfolding max keep_max min keep_min
    max-min-IsBest h =
        let (top, e, above, among) =
          fold-IsBest J (keep_max J) (λ d r. double_lt r d) (λ d r. refl) (λ d r. ground arith)
            (λ a b k. lt-asymm b a k) (λ a b c n k l. lt-negtrans c b a n l k)
            (numbers J field matching) double_zero h in
        let (low, e', below, among') =
          fold-IsBest J (keep_min J) double_lt (λ d r. refl) (λ d r. ground arith) lt-asymm
            lt-negtrans (numbers J field matching) double_zero h in
        (
          (top, rw (scan-numbers (keep_max J) (double_zero, false), max) (ap some e), above, among),
          (
            low,
            rw (scan-numbers (keep_min J) (double_zero, false), min) (ap some e'),
            below,
            among',
          ),
        )
