-- ===== src/Query/Filtering.antt =====
-- Engine/QueryEngine.cpp: select's loops against a filter of the records.
use mini_database.Prelude.{
  ℕ, zero, suc, ◌+◌, ◌≡◌, refl, ap, sym, ◌∙◌, Bool, true, false, ◌&&◌, some, List, [], ◌∷◌, ◌++◌,
  append_assoc, append-nil, arith, if◌then◌else◌, Bool-cases, inl, inr, length, length-append, take,
  take_of_length-le, take-append_len, ltb, leb,
}
use mini_database.Common.{ok}
use mini_database.Packages.Json.{JsonLib}
use mini_database.Packages.Pool.{PoolLib}
use mini_database.Record.{Record}
use mini_database.Query.{more, stop, FilterPredicate, QueryResult}
use mini_database.Query.Scans.{outcome, select_round}
use mini_database.Query.Values.{matches, evaluate_all-matches}
use mini_database.Query.Rows.{each_of}

module _ (J : JsonLib) where
  -- The records that every predicate holds for, in order.
  unfoldable pub filtered : List (FilterPredicate J) → List (Record J) → List (Record J)
  filtered ps [] = []
  filtered ps (r ∷ rs) = if matches J r ps then r ∷ filtered ps rs else filtered ps rs

  -- At most so many of them; 0 is no limit.
  abbrev pub limited : ℕ → List (Record J) → List (Record J)
  limited zero rs = rs
  limited (suc n) rs = take (suc n) rs

  abbrev pub result_of : List (Record J) → QueryResult J
  result_of rs = record { records = rs; total_matched = length rs; status = ok }

module _ (J : JsonLib) (P : PoolLib) (ps : List (FilterPredicate J)) (limit : ℕ) where
  -- Whether select's loops stop with so many records.
  abbrev pub enough : List (Record J) → Bool
  enough rs = ltb 0 limit && leb limit (length rs)

  limited-short : (rs : List (Record J)) → enough rs ≡ false → limited J limit rs ≡ rs
  limited-short rs h =
      elim limit as (λ n. (ltb 0 n && leb n (length rs)) ≡ false → limited J n rs ≡ rs) [
        | zero ↦ λ k. refl
        | suc n ↦ λ k. take_of_length-le (suc n) rs (ground (arith, k))
      ]
        h

  limited-full :
      (rs ss : List (Record J)) (r : Record J)
      → enough rs ≡ false
      → enough (rs ++ r ∷ []) ≡ true
      → limited J limit ((rs ++ r ∷ []) ++ ss) ≡ rs ++ r ∷ []
  limited-full rs ss r h k =
      elim limit
          as (λ n.
            (ltb 0 n && leb n (length rs)) ≡ false
            → (ltb 0 n && leb n (length (rs ++ r ∷ []))) ≡ true
            → limited J n ((rs ++ r ∷ []) ++ ss) ≡ rs ++ r ∷ []) [
              | zero ↦ λ a b. absurd (ground (arith, b))
              | suc n ↦ λ a b.
                  take-append_len (suc n) (rs ++ r ∷ []) ss
                    (ground (arith, a, b, length-append rs (r ∷ [])))
            ]
        h k

  module _ (r : Record J) (done : List (Record J)) where
    grown :
        result_of J (done ++ r ∷ [])
        ≡ record { records = done ++ r ∷ []; total_matched = length done + 1; status = ok }
    grown =
        ap (λ n. record { records = done ++ r ∷ []; total_matched = n; status = ok })
          (length-append done (r ∷ []))

    round-skip :
        matches J r ps ≡ false
        → select_round J ps limit r (result_of J done) ≡ more (result_of J done)
    unfolding select_round
    round-skip h = ground (arith, h, evaluate_all-matches J r ps)

    round-more :
        matches J r ps ≡ true
        → enough (done ++ r ∷ []) ≡ false
        → select_round J ps limit r (result_of J done) ≡ more (result_of J (done ++ r ∷ []))
    unfolding select_round
    round-more h k = ground (arith, h, k, evaluate_all-matches J r ps, grown)

    round-stop :
        matches J r ps ≡ true
        → enough (done ++ r ∷ []) ≡ true
        → select_round J ps limit r (result_of J done) ≡ stop (result_of J (done ++ r ∷ []))
    unfolding select_round
    round-stop h k = ground (arith, h, k, evaluate_all-matches J r ps, grown)

  pub select_round-all :
      (rs done : List (Record J))
      → enough done ≡ false
      → outcome (each_of J P (select_round J ps limit) rs (result_of J done))
        ≡ some (result_of J (limited J limit (done ++ filtered J ps rs)))
  unfolding each_of filtered outcome
  select_round-all [] done h =
      ap (λ l. some (result_of J l))
        (sym (ap (limited J limit) (append-nil done) ∙ limited-short done h))
  select_round-all (r ∷ rs) done h = elim (Bool-cases (matches J r ps)) [
    | inr skip ↦ rw (each_of, round-skip r done skip, skip) (select_round-all rs done h)
    | inl match ↦ elim (Bool-cases (enough (done ++ r ∷ []))) [
      | inl full ↦
          rw (each_of, round-stop r done match full, match)
            (ap (λ l. some (result_of J l))
              (sym (
                ap (limited J limit) (sym (append_assoc done (r ∷ []) (filtered J ps rs)))
                ∙ limited-full done (filtered J ps rs) r h full)))
      | inr room ↦
          rw (each_of, round-more r done match room, match)
            (select_round-all rs (done ++ r ∷ []) room
              ∙ ap (λ l. some (result_of J (limited J limit l)))
                  (append_assoc done (r ∷ []) (filtered J ps rs)))
    ]
  ]
