-- ===== src/Packages/Json.antt =====
-- JsonPro::Json as the code uses it, with the `double` of its numbers.
-- `none` stands for a thrown exception. What an operation gives where the code relies on nothing
-- is left open: no law speaks of it.
use mini_database.Prelude.{
  ℕ, ◌<◌, ◌^◌, ◌≡◌, ◌≢◌, Bool, true, false, ◌||◌, Option, none, some, List, String, str_eq,
  if◌then◌else◌,
}

-- An `int` of the source: `negsuc n` is -(n + 1).
pub data ℤ : Type 0 where
  pos : ℕ → ℤ
  negsuc : ℕ → ℤ

pub record JsonLib : Type 1 where
  -- double, with `==`, `<=`, `<`, `+`, `/`, 0.0, std::trunc and the conversions that the code makes
  pub Double : Type 0
  pub double_eq : Double → Double → Bool
  pub double_le : Double → Double → Bool
  pub double_lt : Double → Double → Bool
  pub double_add : Double → Double → Double
  pub double_div : Double → Double → Double
  pub double_zero : Double
  pub trunc : Double → Double
  pub double_of : ℤ → Double
  pub uint_of : Double → ℕ
  pub int_of : Double → ℤ
  pub Json : Type 0
  pub null : Json
  pub object : Json
  pub array : List Json → Json
  pub of_int : ℤ → Json
  pub of_bool : Bool → Json
  pub of_string : String → Json
  pub is_null : Json → Bool
  pub is_number : Json → Bool
  pub is_string : Json → Bool
  pub is_bool : Json → Bool
  pub is_object : Json → Bool
  pub is_array : Json → Bool
  pub as_number : Json → Option Double
  pub as_bool : Json → Option Bool
  pub as_string : Json → Option String
  pub as_array : Json → Option (List Json)
  -- asObject().entries(), in the order in which the loop meets them
  pub entries : Json → Option (List (String × Json))
  -- contains(k), operator[](k), operator[](k) = v, asObject().erase(k)
  pub contains : Json → String → Bool
  pub at : Json → String → Option Json
  pub put : Json → String → Json → Json
  pub erase : Json → String → Json
  pub dump : Json → String
  pub parse : String → Option Json
  -- small integers are exact in a double
  pub uint_of-double_of : (n : ℕ) → n < 2 ^ 31 → uint_of (double_of (pos n)) ≡ n
  pub int_of-double_of : (n : ℕ) → n < 2 ^ 31 → int_of (double_of (pos n)) ≡ pos n
  pub as_number-of_int : (z : ℤ) → as_number (of_int z) ≡ some (double_of z)
  pub as_bool-of_bool : (b : Bool) → as_bool (of_bool b) ≡ some b
  pub as_string-of_string : (s : String) → as_string (of_string s) ≡ some s
  pub array-is_array : (js : List Json) → is_array (array js) ≡ true
  pub array-not_null : (js : List Json) → is_null (array js) ≡ false
  pub of_int-is_number : (z : ℤ) → is_number (of_int z) ≡ true
  pub as_array-array : (js : List Json) → as_array (array js) ≡ some js
  pub as_number-ne-none : (j : Json) → is_number j ≡ true → as_number j ≢ none
  pub as_string-ne-none : (j : Json) → is_string j ≡ true → as_string j ≢ none
  pub null-not_number : is_number null ≡ false
  pub null-not_bool : is_bool null ≡ false
  pub number-not_string : (j : Json) → is_number j ≡ true → is_string j ≡ false
  pub as_bool-ne-none : (j : Json) → is_bool j ≡ true → as_bool j ≢ none
  -- `<` is asymmetric, and not-`<` is transitive through what is not a NaN
  pub lt-asymm : (a b : Double) → double_lt a b ≡ true → double_lt b a ≡ false
  pub lt-negtrans :
      (a b c : Double)
      → double_eq b b ≡ true
      → double_lt a b ≡ false
      → double_lt b c ≡ false
      → double_lt a c ≡ false
  pub object-is_object : is_object object ≡ true
  pub put-is_object :
      (j : Json) (k : String) (v : Json) → is_object j ≡ true → is_object (put j k v) ≡ true
  pub object-not_null : (j : Json) → is_object j ≡ true → is_null j ≡ false
  pub contains-put :
      (j : Json) (k l : String) (v : Json)
      → is_object j ≡ true
      → contains (put j k v) l ≡ (str_eq k l || contains j l)
  pub at-put :
      (j : Json) (k l : String) (v : Json)
      → is_object j ≡ true
      → at (put j k v) l ≡ (if str_eq k l then some v else at j l)
  pub at-ne-none : (j : Json) (k : String) → contains j k ≡ true → at j k ≢ none
  pub contains-erase :
      (j : Json) (k l : String)
      → contains j k ≡ true
      → contains (erase j k) l ≡ (if str_eq k l then false else contains j l)
  -- a key that was not there, put and erased again
  pub erase-put :
      (j : Json) (k : String) (v : Json)
      → is_object j ≡ true
      → contains j k ≡ false
      → erase (put j k v) k ≡ j
  pub at-erase :
      (j : Json) (k l : String)
      → contains j k ≡ true
      → str_eq k l ≡ false
      → at (erase j k) l ≡ at j l
