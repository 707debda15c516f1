-- ===== src/Query/Values.antt =====
-- Engine/QueryEngine.cpp: comparing values and evaluating predicates.
use mini_database.Prelude.{
  ◌≡◌, ◌≢◌, refl, Bool, true, ◌&&◌, none, some, List, [], ◌∷◌, String, arith, Option-cases, inl,
  inr, ◌>>=◌,
}
use mini_database.Common.{Op, lt}
use mini_database.Packages.Json.{JsonLib}
use mini_database.Record
use mini_database.Record.{Record}
use mini_database.Query.{
  FilterPredicate, or_false, compare_values, evaluate_predicate, evaluate_all, SortCondition,
  precedes,
}

module _ (J : JsonLib) where
  open J use {
    Json, is_string, is_number, is_bool, as_string, as_number, as_bool, as_string-ne-none,
    as_number-ne-none, as_bool-ne-none, contains, at, at-ne-none, null,
  }

  compare_values-ne-none : (a b : Json) (op : Op) → compare_values J a b op ≢ none
  unfolding compare_values
  compare_values-ne-none a b op = ground (
    arith,
    as_string-ne-none a,
    as_string-ne-none b,
    as_number-ne-none a,
    as_number-ne-none b,
    as_bool-ne-none a,
    as_bool-ne-none b,
  )

  -- A record has the field and its value compares with the predicate's.
  unfoldable pub holds : Record J → FilterPredicate J → Bool
  holds r p =
      contains r.fields p.field
      && or_false J (at r.fields p.field >>= λ val. compare_values J val p.value p.op)

  unfoldable pub matches : Record J → List (FilterPredicate J) → Bool
  matches r [] = true
  matches r (p ∷ ps) = holds r p && matches r ps

  evaluate_predicate-holds :
      (r : Record J) (p : FilterPredicate J) → evaluate_predicate J r p ≡ some (holds r p)
  unfolding evaluate_predicate holds Record.has_field Record.get_field_ref
  evaluate_predicate-holds r p = elim (Option-cases (at r.fields p.field)) [
    | inl e ↦ ground (arith, e, at-ne-none r.fields p.field)
    | inr (val, e) ↦ ground (arith, e, compare_values-ne-none val p.value p.op)
  ]

  -- evaluateAll raises nothing.
  pub evaluate_all-matches :
      (r : Record J) (ps : List (FilterPredicate J)) → evaluate_all J r ps ≡ some (matches r ps)
  unfolding evaluate_all matches
  evaluate_all-matches r [] = refl
  evaluate_all-matches r (p ∷ ps) =
      ground (arith, evaluate_predicate-holds r p, evaluate_all-matches r ps)

  get_field_ref-ne-none : (r : Record J) (key : String) → Record.get_field_ref J r key ≢ none
  unfolding Record.get_field_ref
  get_field_ref-ne-none r key = ground (arith, at-ne-none r.fields key)

  precedes-ne-none : (sort : SortCondition) (a b : Record J) → precedes J sort a b ≢ none
  unfolding precedes
  precedes-ne-none sort a b = elim (Option-cases (Record.get_field_ref J a sort.field)) [
    | inl e ↦ ground (arith, e, get_field_ref-ne-none a sort.field)
    | inr (fa, e) ↦ elim (Option-cases (Record.get_field_ref J b sort.field)) [
      | inl e' ↦ ground (arith, e', get_field_ref-ne-none b sort.field)
      | inr (fb, e') ↦
          ground (arith, e, e', compare_values-ne-none fa fb lt, compare_values-ne-none fb fa lt)
    ]
  ]
