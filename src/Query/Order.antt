-- ===== src/Query/Order.antt =====
-- Engine/QueryEngine.cpp: finishSelect and sortResults over records with numbers in the sort field.
use mathlib.Core.Logic.Or
use mathlib.Core.List.{Mem, Perm, Pairwise, mem-cons, not-mem-nil}
use mathlib.Core.List.Perm
use mathlib.Core.List.Pairwise
use mathlib.Core.Bool.{Bool-set}
use mini_database.Prelude.{
  ◌≡◌, refl, sym, ◌∙◌, Bool, true, false, inl, inr, none, some, List, [], ◌∷◌, arith, String,
  Bool-cases, Option-cases, All, ltb, length,
}
use mini_database.Common.{SortOrder, asc, desc}
use mini_database.Packages.Json.{JsonLib}
use mini_database.Packages.Sort.{SortLib, StrictWeak}
use mini_database.Record
use mini_database.Record.{Record}
use mini_database.Query.{
  SortCondition, QueryResult, precedes, or_false, sort_results, finish_select, compare_values,
  compare_numbers,
}
use mini_database.Query.Aggregates.{number_of}

module _ (J : JsonLib) where
  open J use {
    Double, double_eq, double_lt, double_zero, lt-asymm, lt-negtrans, is_number, is_string,
    as_number, contains, at, null, number-not_string, null-not_number, null-not_bool,
  }

  -- The number in a record's field, 0.0 without one.
  unfoldable pub key_of : String → Record J → Double
  key_of field r = elim (number_of J field r) [ none ↦ double_zero | some d ↦ d ]

  -- A record has a number in the field that is not NaN.
  unfoldable pub is_keyed : String → Record J → Bool
  is_keyed field r = elim (number_of J field r) [ none ↦ false | some d ↦ double_eq d d ]

  abbrev pub IsKeyed : String → Record J → Type 0
  IsKeyed field r = is_keyed field r ≡ true

  -- One number may stand before another in the order.
  abbrev pub MayPrecede : SortOrder → Double → Double → Type 0
  MayPrecede asc a b = double_lt b a ≡ false
  MayPrecede desc a b = double_lt a b ≡ false

  unfoldable pub less_by : SortOrder → Double → Double → Bool
  less_by asc a b = double_lt a b
  less_by desc a b = double_lt b a

  keyed :
      (field : String) (r : Record J)
      → IsKeyed field r
      → (v : J.Json) × (Record.get_field_ref J r field ≡ some v)
        × (is_number v ≡ true)
        × (as_number v ≡ some (key_of field r))
        × (double_eq (key_of field r) (key_of field r) ≡ true)
  unfolding key_of is_keyed number_of Record.get_field_ref
  keyed field r h = elim (Option-cases (number_of J field r)) [
    | inl e ↦ absurd (ground (arith, h, e))
    | inr (d, e) ↦ elim (Option-cases (at r.fields field)) [
      | inl e' ↦ absurd (ground (arith, e, e'))
      | inr (v, e') ↦ (
        v,
        ground (arith, e, e'),
        ground (arith, e, e'),
        ground (arith, e, e'),
        ground (arith, h, e),
      )
    ]
  ]

  precedes-less_by :
      (sort : SortCondition) (a b : Record J)
      → IsKeyed sort.field a
      → IsKeyed sort.field b
      → or_false J (precedes J sort a b)
        ≡ less_by sort.order (key_of sort.field a) (key_of sort.field b)
  unfolding precedes compare_values compare_numbers less_by
  precedes-less_by sort a b ka kb =
      let (va, ga, na, xa, _) = keyed sort.field a ka in
      let (vb, gb, nb, xb, _) = keyed sort.field b kb in
      elim sort.order
        as (λ o.
          or_false J (precedes J (record { field = sort.field; order = o }) a b)
          ≡ less_by o (key_of sort.field a) (key_of sort.field b)) [
            | asc ↦
                rw (precedes, ga, gb)
                  (ground (arith, na, nb, xa, xb, number-not_string va, number-not_string vb))
            | desc ↦
                rw (precedes, ga, gb)
                  (ground (arith, na, nb, xa, xb, number-not_string va, number-not_string vb))
          ]

  less_by-asymm : (o : SortOrder) (a b : Double) → less_by o a b ≡ true → less_by o b a ≡ false
  unfolding less_by
  less_by-asymm asc a b h = lt-asymm a b h
  less_by-asymm desc a b h = lt-asymm b a h

  less_by-negtrans :
      (o : SortOrder) (a b c : Double)
      → double_eq b b ≡ true
      → less_by o a b ≡ false
      → less_by o b c ≡ false
      → less_by o a c ≡ false
  unfolding less_by
  less_by-negtrans asc a b c n h k = lt-negtrans a b c n h k
  less_by-negtrans desc a b c n h k = lt-negtrans c b a n k h

  precedes-StrictWeak :
      (sort : SortCondition)
      → StrictWeak (IsKeyed sort.field) (λ a b. or_false J (precedes J sort a b))
  precedes-StrictWeak sort = record {
    asymm = λ a b ka kb h. ground (
      arith,
      h,
      precedes-less_by sort a b ka kb,
      precedes-less_by sort b a kb ka,
      less_by-asymm sort.order (key_of sort.field a) (key_of sort.field b),
    );
    negtrans = λ a b c ka kb kc h k. ground (
      arith,
      h,
      k,
      precedes-less_by sort a b ka kb,
      precedes-less_by sort b c kb kc,
      precedes-less_by sort a c ka kc,
      less_by-negtrans sort.order (key_of sort.field a) (key_of sort.field b) (key_of sort.field c)
          (keyed sort.field b kb).4,
    );
  }

  Mem-All :
      (P : Record J → Bool) (x : Record J) (l : List (Record J))
      → All (λ r. P r ≡ true) l
      → Mem x l
      → P x ≡ true
  Mem-All P x [] h m = absurd (not-mem-nil m)
  Mem-All P x (r ∷ l) h m =
      Or.elim (Bool-set _ _) (mem-cons.0 m) (λ e. rw e h.0) (Mem-All P x l h.1)

  less_by-MayPrecede : (o : SortOrder) (a b : Double) → less_by o b a ≡ false → MayPrecede o a b
  unfolding less_by
  less_by-MayPrecede asc a b h = h
  less_by-MayPrecede desc a b h = h

  missing-precedes :
      (sort : SortCondition) (a b : Record J)
      → IsKeyed sort.field a
      → Record.has_field J b sort.field ≡ false
      → (precedes J sort a b ≡ some false) × (precedes J sort b a ≡ some false)
  unfolding precedes compare_values Record.has_field Record.get_field_ref
  missing-precedes sort a b ka nb =
      let (va, ga, na, xa, _) = keyed sort.field a ka in
      elim sort.order
        as (λ o.
          (precedes J (record { field = sort.field; order = o }) a b ≡ some false)
          × (precedes J (record { field = sort.field; order = o }) b a ≡ some false)) [
            | asc ↦
                rw (precedes, ga, got)
                  (
                    ground (arith, na, xa, number-not_string va, null-not_number, null-not_bool),
                    ground (arith, na, xa, number-not_string va, null-not_number, null-not_bool),
                  )
            | desc ↦
                rw (precedes, ga, got)
                  (
                    ground (arith, na, xa, number-not_string va, null-not_number, null-not_bool),
                    ground (arith, na, xa, number-not_string va, null-not_number, null-not_bool),
                  )
          ]
    where
      got : Record.get_field_ref J b sort.field ≡ some null
      got = rw (Record.get_field_ref, nb) refl

  -- Once two records have numbers in the sort field of which one is below (for desc: above) the other,
  -- and a third record has no such field, the comparison that sortResults hands to std::sort is not a
  -- strict weak ordering.
  pub missing-not-StrictWeak :
      (sort : SortCondition) (a b c : Record J)
      → IsKeyed sort.field a
      → Record.has_field J b sort.field ≡ false
      → IsKeyed sort.field c
      → less_by sort.order (key_of sort.field a) (key_of sort.field c) ≡ true
      → ¬ StrictWeak (λ r. Unit) (λ x y. or_false J (precedes J sort x y))
  missing-not-StrictWeak sort a b c ka nb kc below weak = ground (
    arith,
    below,
    missing-precedes sort a b ka nb,
    missing-precedes sort c b kc nb,
    precedes-less_by sort a c ka kc,
    weak.negtrans a b c tt tt tt,
  )

module _ (J : JsonLib) (L : SortLib (Record J)) where
  -- The same records in another order, the sort's.
  abbrev pub Ordered : SortCondition → List (Record J) → List (Record J) → Type 0
  Ordered sort before after =
      Perm after before
      × Pairwise (λ a b. MayPrecede J sort.order (key_of J sort.field a) (key_of J sort.field b))
          after

  few-Ordered :
      (sort : SortCondition) (rs : List (Record J)) → ltb 1 (length rs) ≡ false → Ordered sort rs rs
  few-Ordered sort [] h = (Perm.refl [], Pairwise.nil)
  few-Ordered sort (r ∷ []) h =
      (Perm.refl (r ∷ []), Pairwise.cons (λ a m. absurd (not-mem-nil m)) Pairwise.nil)
  few-Ordered sort (r ∷ s ∷ rs) h = absurd (ground (arith, h))

  sort_results-Ordered :
      (rs : List (Record J)) (sort : SortCondition)
      → All (IsKeyed J sort.field) rs
      → (sorted : List (Record J)) × (sort_results J L rs sort ≡ some sorted)
        × Ordered sort rs sorted
  unfolding sort_results
  sort_results-Ordered rs sort h =
      let less : Record J → Record J → Bool = λ a b. or_false J (precedes J sort a b) in
      let (sorted, result, moved, ascending) =
        L.sort-some (IsKeyed J sort.field) less rs (precedes-StrictWeak J sort) h in
      let kept : (a : Record J) → Mem a sorted → IsKeyed J sort.field a =
        λ a m. Mem-All J (is_keyed J sort.field) a rs h ((Perm.mem_iff moved).0 m) in
      (
        sorted,
        result,
        (
          moved,
          Pairwise.imp_of_mem
              (λ a b ma mb e.
                less_by-MayPrecede J sort.order (key_of J sort.field a) (key_of J sort.field b)
                  (sym (precedes-less_by J sort b a (kept b mb) (kept a ma)) ∙ e))
              ascending,
        ),
      )

  -- finishSelect with a sort, of records that all have a number in the sort field that is not NaN,
  -- sorts: it keeps the status and the total, and its records are those records in another order, in
  -- which no number is below (for desc: above) one before it.
  pub finish_select-Ordered :
      (result : QueryResult J) (sort : SortCondition)
      → All (IsKeyed J sort.field) result.records
      → (sorted : QueryResult J) × (finish_select J L result (some sort) ≡ some sorted)
        × Ordered sort result.records sorted.records
        × (sorted.total_matched ≡ result.total_matched)
        × (sorted.status ≡ result.status)
  unfolding finish_select
  finish_select-Ordered result sort h = elim (Bool-cases (ltb 1 (length result.records))) [
    | inl several ↦
        let (rs, e, ordered) = sort_results-Ordered result.records sort h in
        (record result { records = rs }, rw (finish_select, several, e) refl, ordered, refl, refl)
    | inr few ↦
        (result, rw (finish_select, few) refl, few-Ordered sort result.records few, refl, refl)
  ]
