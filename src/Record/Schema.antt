-- ===== src/Record/Schema.antt =====
-- Core/Record.cpp, section 3: `validate` against a column-by-column reading of the schema.
use mini_database.Prelude.{
  ◌^◌, ◌≡◌, ◌≢◌, ◌↔◌, ◌⊎◌, inl, inr, true, false, none, some, Option-cases, Bool-cases, refl, List,
  [], ◌∷◌, arith, All,
}
use mini_database.Common.{ok, ColumnDef, ColumnType, int, double, string, bool, unnamed}
use mini_database.Packages.Json.{JsonLib, pos}
use mini_database.Record.{Record, type_matches, validate, int64_min, int64_max}

module _ (J : JsonLib) where
  open J use {
    Json, Double, is_number, is_string, is_bool, as_number, contains, at, trunc, double_eq,
    double_le, double_of, as_number-ne-none, at-ne-none,
  }

  -- A double that is its own truncation and lies between the doubles nearest to the ends of int64_t. The
  -- upper one is 2^63, which int64_t does not hold.
  abbrev pub IsIntegral : Double → Type 0
  IsIntegral d =
      (double_eq d (trunc d) ≡ true)
      × (double_le (double_of int64_min) d ≡ true)
      × (double_le d (double_of int64_max) ≡ true)

  -- The values that a column of each type accepts.
  abbrev pub HasType : ColumnType → Json → Type 0
  HasType int val = (is_number val ≡ true) × ((d : Double) → as_number val ≡ some d → IsIntegral d)
  HasType double val = is_number val ≡ true
  HasType string val = is_string val ≡ true
  HasType bool val = is_bool val ≡ true
  HasType (unnamed z) val = ⊥

  type_matches_iff :
      (type : ColumnType) (val : Json) → (type_matches J type val ≡ some true) ↔ HasType type val
  unfolding type_matches
  type_matches_iff int val = elim (Option-cases (as_number val)) [
    | inl e ↦ (λ h. ground arith, λ h. ground (arith, as_number-ne-none val))
    | inr (d, e) ↦ (λ h. (ground arith, λ c ec. ground arith), λ h. ground (arith, h.1 d e))
  ]
  type_matches_iff double val = ground arith
  type_matches_iff string val = ground arith
  type_matches_iff bool val = ground arith
  type_matches_iff (unnamed z) val = (λ h. cc, λ h. absurd h)

  type_matches-ne-none : (type : ColumnType) (val : Json) → type_matches J type val ≢ none
  unfolding type_matches
  type_matches-ne-none int val = ground (arith, as_number-ne-none val)
  type_matches-ne-none double val = ground arith
  type_matches-ne-none string val = ground arith
  type_matches-ne-none bool val = ground arith
  type_matches-ne-none (unnamed z) val = ground arith

  -- What a schema's column asks of a record.
  abbrev pub Meets : Record J → ColumnDef → Type 0
  Meets r col =
      ((contains r.fields col.name ≡ false) × (col.nullable ≡ true))
      ⊎ ((val : Json) × (contains r.fields col.name ≡ true)
          × (at r.fields col.name ≡ some val)
          × HasType col.type val)

  module _ (r : Record J) where
    pub validate-ne-none : (schema : List ColumnDef) → validate J r schema ≢ none
    unfolding validate
    validate-ne-none [] = ground arith
    validate-ne-none (col ∷ schema) = elim (Option-cases (at r.fields col.name)) [
      | inl e ↦ ground (arith, at-ne-none r.fields col.name, validate-ne-none schema)
      | inr (val, e) ↦ ground (arith, type_matches-ne-none col.type val, validate-ne-none schema)
    ]

    validate-Meets :
        (schema : List ColumnDef) → validate J r schema ≡ some ok → All (Meets r) schema
    unfolding validate
    validate-Meets [] h = tt
    validate-Meets (col ∷ schema) h = elim (Option-cases (at r.fields col.name)) [
      | inl e ↦ (
        inl (ground (arith, at-ne-none r.fields col.name)),
        validate-Meets schema (ground (arith, at-ne-none r.fields col.name)),
      )
      | inr (val, e) ↦ elim (Bool-cases (contains r.fields col.name)) [
        | inl there ↦ (
          inr (val, there, e, (type_matches_iff col.type val).0 (ground arith)),
          validate-Meets schema (ground arith),
        )
        | inr missing ↦ (inl (missing, ground arith), validate-Meets schema (ground arith))
      ]
    ]

    Meets-validate :
        (schema : List ColumnDef) → All (Meets r) schema → validate J r schema ≡ some ok
    unfolding validate
    Meets-validate [] h = refl
    Meets-validate (col ∷ schema) (inl missing, rest) = ground (arith, Meets-validate schema rest)
    Meets-validate (col ∷ schema) (inr (val, there, e, fits), rest) =
        ground (arith, Meets-validate schema rest, (type_matches_iff col.type val).1 fits)

    -- validate answers ok exactly when the record meets every column of the schema: a field that is not
    -- there is nullable, and one that is there is accepted for the column's type, a text for STRING, a
    -- boolean for BOOL, a number for DOUBLE, and for INT a number that is its own truncation and
    -- lies between the doubles that the ends of int64_t convert to, both included.
    pub validate_iff :
        (schema : List ColumnDef) → (validate J r schema ≡ some ok) ↔ All (Meets r) schema
    validate_iff schema = (validate-Meets schema, Meets-validate schema)

  -- An INT column accepts the number 2^63, which no int64_t holds. The doubles are such that the largest
  -- int64_t rounds up to 2^63, and that the double 2^63 is not below the smallest int64_t, is at most
  -- itself, and is its own truncation.
  pub type_matches_overflow :
      (val : Json)
      → double_of int64_max ≡ double_of (pos (2 ^ 63))
      → double_le (double_of int64_min) (double_of (pos (2 ^ 63))) ≡ true
      → double_le (double_of (pos (2 ^ 63))) (double_of (pos (2 ^ 63))) ≡ true
      → double_eq (double_of (pos (2 ^ 63))) (trunc (double_of (pos (2 ^ 63)))) ≡ true
      → is_number val ≡ true
      → as_number val ≡ some (double_of (pos (2 ^ 63)))
      → type_matches J int val ≡ some true
  type_matches_overflow val rounds above le_refl whole number e = (type_matches_iff int val).1 (
    number,
    λ d ed.
        let d-eq : double_of (pos (2 ^ 63)) ≡ d = cc in
        rw (← d-eq) (whole, above, rw rounds le_refl),
  )
