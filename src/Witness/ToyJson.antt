-- ===== src/Witness/ToyJson.antt =====
-- A JSON value as a tree, which meets every law of `JsonLib`. Its numbers are integers; a conversion
-- rounds the largest int64_t up to 2^63, as a double does.
use mini_database.Prelude.{
  ℕ, ◌-◌, ◌^◌, ◌<◌, ◌≡◌, ◌≢◌, refl, ap, Bool, true, false, ◌||◌, Option, none, some, List, [], ◌∷◌,
  String, str_eq, str_eq_iff, arith, leb, ◌==◌, Bool-cases, inl, inr, if◌then◌else◌, ltb, ◌+◌, ◌/◌,
}
use mini_database.Packages.Json.{JsonLib, ℤ, pos, negsuc}

mutual
  pub data Value : Type 0 where
    null : Value
    bool : Bool → Value
    num : ℤ → Value
    str : String → Value
    arr : Items → Value
    obj : Fields → Value

  pub data Fields : Type 0 where
    end : Fields
    field : String → Value → Fields → Fields

  pub data Items : Type 0 where
    nil : Items
    cons : Value → Items → Items

abbrev pub has : Fields → String → Bool
has end k = false
has (field l v fs) k = str_eq l k || has fs k

abbrev pub find : Fields → String → Option Value
find end k = none
find (field l v fs) k = if str_eq l k then some v else find fs k

abbrev pub assign : Fields → String → Value → Fields
assign end k v = field k v end
assign (field l w fs) k v = if str_eq l k then field k v fs else field l w (assign fs k v)

abbrev pub without : Fields → String → Fields
without end k = end
without (field l w fs) k = let rest = without fs k in if str_eq l k then rest else field l w rest

abbrev pub items : List Value → Items
items [] = nil
items (v ∷ vs) = cons v (items vs)

abbrev pub values : Items → List Value
values nil = []
values (cons v vs) = v ∷ values vs

pub values-items : (vs : List Value) → values (items vs) ≡ vs
values-items [] = refl
values-items (v ∷ vs) = ap (◌∷◌ v) (values-items vs)

has-assign :
    (fs : Fields) (k l : String) (v : Value) → has (assign fs k v) l ≡ (str_eq k l || has fs l)
has-assign end k l v = refl
has-assign (field m w fs) k l v =
    ground (arith, has-assign fs k l v, str_eq_iff m k, str_eq_iff m l, str_eq_iff k l)

find-assign :
    (fs : Fields) (k l : String) (v : Value)
    → find (assign fs k v) l ≡ (if str_eq k l then some v else find fs l)
find-assign end k l v = refl
find-assign (field m w fs) k l v =
    ground (arith, find-assign fs k l v, str_eq_iff m k, str_eq_iff m l, str_eq_iff k l)

has-without :
    (fs : Fields) (k l : String) → has (without fs k) l ≡ (if str_eq k l then false else has fs l)
has-without end k l = ground arith
has-without (field m w fs) k l =
    ground (arith, has-without fs k l, str_eq_iff m k, str_eq_iff m l, str_eq_iff k l)

find-without : (fs : Fields) (k l : String) → str_eq k l ≡ false → find (without fs k) l ≡ find fs l
find-without end k l h = refl
find-without (field m w fs) k l h =
    ground (arith, find-without fs k l h, str_eq_iff m k, str_eq_iff m l, str_eq_iff k l)

find-has : (fs : Fields) (k : String) → has fs k ≡ true → find fs k ≢ none
find-has end k h = cc
find-has (field m w fs) k h = ground (arith, find-has fs k)

abbrev contains : Value → String → Bool
contains (obj fs) k = has fs k
contains _ k = false

abbrev at : Value → String → Option Value
at (obj fs) k = find fs k
at _ k = none

abbrev put : Value → String → Value → Value
put (obj fs) k v = obj (assign fs k v)
put j k v = j

abbrev erase : Value → String → Value
erase (obj fs) k = obj (without fs k)
erase j k = j

abbrev is_object : Value → Bool
is_object (obj fs) = true
is_object _ = false

abbrev pub pairs : Fields → List (String × Value)
pairs end = []
pairs (field l v fs) = (l, v) ∷ pairs fs

abbrev entries : Value → Option (List (String × Value))
entries (obj fs) = some (pairs fs)
entries _ = none

abbrev is_array : Value → Bool
is_array (arr vs) = true
is_array _ = false

abbrev is_null : Value → Bool
is_null null = true
is_null _ = false

abbrev is_number : Value → Bool
is_number (num z) = true
is_number _ = false

abbrev is_string : Value → Bool
is_string (str s) = true
is_string _ = false

abbrev is_bool : Value → Bool
is_bool (bool b) = true
is_bool _ = false

abbrev pub double_of : ℤ → ℤ
double_of (pos n) = if n == 2 ^ 63 - 1 then pos (2 ^ 63) else pos n
double_of (negsuc n) = negsuc n

abbrev as_number : Value → Option ℤ
as_number (num z) = some (double_of z)
as_number _ = none

abbrev as_bool : Value → Option Bool
as_bool (bool b) = some b
as_bool _ = none

abbrev as_string : Value → Option String
as_string (str s) = some s
as_string _ = none

abbrev as_array : Value → Option (List Value)
as_array (arr vs) = some (values vs)
as_array _ = none

abbrev double_eq : ℤ → ℤ → Bool
double_eq (pos a) (pos b) = a == b
double_eq (negsuc a) (negsuc b) = a == b
double_eq _ _ = false

abbrev double_le : ℤ → ℤ → Bool
double_le (pos a) (pos b) = leb a b
double_le (negsuc a) (negsuc b) = leb b a
double_le (negsuc a) (pos b) = true
double_le (pos a) (negsuc b) = false

abbrev double_lt : ℤ → ℤ → Bool
double_lt (pos a) (pos b) = ltb a b
double_lt (negsuc a) (negsuc b) = ltb b a
double_lt (negsuc a) (pos b) = true
double_lt (pos a) (negsuc b) = false

-- Sums and quotients of what is not negative suffice here.
abbrev double_add : ℤ → ℤ → ℤ
double_add (pos a) (pos b) = pos (a + b)
double_add a b = a

abbrev double_div : ℤ → ℤ → ℤ
double_div (pos a) (pos b) = pos (a / b)
double_div a b = a

pub lt-asymm : (a b : ℤ) → double_lt a b ≡ true → double_lt b a ≡ false
lt-asymm (pos a) (pos b) h = ground arith
lt-asymm (negsuc a) (negsuc b) h = ground arith
lt-asymm (negsuc a) (pos b) h = refl
lt-asymm (pos a) (negsuc b) h = cc

pub lt-negtrans :
    (a b c : ℤ)
    → double_eq b b ≡ true
    → double_lt a b ≡ false
    → double_lt b c ≡ false
    → double_lt a c ≡ false
lt-negtrans (pos a) (pos b) (pos c) e h k = ground arith
lt-negtrans (negsuc a) (negsuc b) (negsuc c) e h k = ground arith
lt-negtrans (pos a) (pos b) (negsuc c) e h k = refl
lt-negtrans (pos a) (negsuc b) (negsuc c) e h k = refl
lt-negtrans a (negsuc b) (pos c) e h k = cc
lt-negtrans (negsuc a) (pos b) c e h k = cc

abbrev uint_of : ℤ → ℕ
uint_of (pos n) = n
uint_of (negsuc n) = 0

pub contains-put :
    (j : Value) (k l : String) (v : Value)
    → is_object j ≡ true
    → contains (put j k v) l ≡ (str_eq k l || contains j l)
contains-put (obj fs) k l v h = has-assign fs k l v
contains-put j k l v h = cc

pub at-put :
    (j : Value) (k l : String) (v : Value)
    → is_object j ≡ true
    → at (put j k v) l ≡ (if str_eq k l then some v else at j l)
at-put (obj fs) k l v h = find-assign fs k l v
at-put j k l v h = cc

pub contains-erase :
    (j : Value) (k l : String)
    → contains j k ≡ true
    → contains (erase j k) l ≡ (if str_eq k l then false else contains j l)
contains-erase (obj fs) k l h = has-without fs k l
contains-erase j k l h = cc

without-assign :
    (fs : Fields) (k : String) (v : Value) → has fs k ≡ false → without (assign fs k v) k ≡ fs
without-assign end k v h = ground (arith, (str_eq_iff k k).1 refl)
without-assign (field l w fs) k v h = elim (Bool-cases (str_eq l k)) [
  | inl same ↦ absurd (ground (arith, h, same))
  | inr other ↦
      rw (other, other, without) (ap (field l w) (without-assign fs k v (ground (arith, h, other))))
]

pub erase-put :
    (j : Value) (k : String) (v : Value)
    → is_object j ≡ true
    → contains j k ≡ false
    → erase (put j k v) k ≡ j
erase-put (obj fs) k v h fresh = ap obj (without-assign fs k v fresh)
erase-put j k v h fresh = cc

pub at-erase :
    (j : Value) (k l : String)
    → contains j k ≡ true
    → str_eq k l ≡ false
    → at (erase j k) l ≡ at j l
at-erase (obj fs) k l h ne = find-without fs k l ne
at-erase j k l h ne = cc

pub at-ne-none : (j : Value) (k : String) → contains j k ≡ true → at j k ≢ none
at-ne-none (obj fs) k h = find-has fs k h
at-ne-none j k h = cc

pub put-is_object :
    (j : Value) (k : String) (v : Value) → is_object j ≡ true → is_object (put j k v) ≡ true
put-is_object (obj fs) k v h = refl
put-is_object j k v h = cc

pub object-not_null : (j : Value) → is_object j ≡ true → is_null j ≡ false
object-not_null (obj fs) h = refl
object-not_null j h = cc

pub as_number-ne-none : (j : Value) → is_number j ≡ true → as_number j ≢ none
as_number-ne-none (num z) h = ground arith
as_number-ne-none j h = cc

pub as_string-ne-none : (j : Value) → is_string j ≡ true → as_string j ≢ none
as_string-ne-none (str s) h = ground arith
as_string-ne-none j h = cc

pub as_bool-ne-none : (j : Value) → is_bool j ≡ true → as_bool j ≢ none
as_bool-ne-none (bool b) h = ground arith
as_bool-ne-none j h = cc

pub number-not_string : (j : Value) → is_number j ≡ true → is_string j ≡ false
number-not_string (num z) h = refl
number-not_string j h = cc

pub uint_of-double_of : (n : ℕ) → n < 2 ^ 31 → uint_of (double_of (pos n)) ≡ n
uint_of-double_of n h = ground arith

pub int_of-double_of : (n : ℕ) → n < 2 ^ 31 → double_of (pos n) ≡ pos n
int_of-double_of n h = ground arith

abbrev pub toy_json_with : (Value → String) → (String → Option Value) → JsonLib
toy_json_with dump parse = record {
  Double = ℤ;
  double_eq = double_eq;
  double_le = double_le;
  double_lt = double_lt;
  double_add = double_add;
  double_div = double_div;
  double_zero = pos 0;
  trunc = λ d. d;
  double_of = double_of;
  uint_of = uint_of;
  int_of = λ d. d;
  Json = Value;
  null = null;
  object = obj end;
  array = λ vs. arr (items vs);
  of_int = num;
  of_bool = bool;
  of_string = str;
  is_null = is_null;
  is_number = is_number;
  is_string = is_string;
  is_bool = is_bool;
  is_object = is_object;
  is_array = is_array;
  as_number = as_number;
  as_bool = as_bool;
  as_string = as_string;
  as_array = as_array;
  entries = entries;
  contains = contains;
  at = at;
  put = put;
  erase = erase;
  dump = dump;
  parse = parse;
  uint_of-double_of = uint_of-double_of;
  int_of-double_of = int_of-double_of;
  as_number-of_int = λ z. refl;
  as_bool-of_bool = λ b. refl;
  as_string-of_string = λ s. refl;
  array-is_array = λ vs. refl;
  array-not_null = λ vs. refl;
  of_int-is_number = λ z. refl;
  as_array-array = λ vs. ap some (values-items vs);
  as_number-ne-none = as_number-ne-none;
  as_string-ne-none = as_string-ne-none;
  as_bool-ne-none = as_bool-ne-none;
  null-not_number = refl;
  null-not_bool = refl;
  number-not_string = number-not_string;
  lt-asymm = lt-asymm;
  lt-negtrans = lt-negtrans;
  object-is_object = refl;
  put-is_object = put-is_object;
  object-not_null = object-not_null;
  contains-put = contains-put;
  at-put = at-put;
  at-ne-none = at-ne-none;
  contains-erase = contains-erase;
  erase-put = erase-put;
  at-erase = at-erase;
}

-- One text for all values, of which `parse` gives one.
abbrev pub toy_json : Option Value → JsonLib
toy_json parsed = toy_json_with (λ j. "{}") (λ s. parsed)

pub double_le_refl : (d : ℤ) → double_le d d ≡ true
double_le_refl (pos n) = ground arith
double_le_refl (negsuc n) = ground arith

pub double_eq-trunc : (n : ℕ) → double_eq (double_of (pos n)) (double_of (pos n)) ≡ true
double_eq-trunc n = ground arith
