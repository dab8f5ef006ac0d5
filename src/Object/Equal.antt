-- ===== src/Object/Equal.antt =====
-- Object.c: ObjectEquals, which compares the keys of a map table. `==` on float and double is that
-- of IEEE-754 on the bit patterns: a NaN equals nothing, and the two zeros are equal.
use haze.Base.{
  ℕ, ◌+◌, ◌-◌, ◌^◌, ◌/◌, ◌%◌, ◌≡◌, refl, Option, none, some, List, Bool, true, false, not, ◌&&◌,
  ◌||◌, ◌==◌, int_eq, bytes_eq, bytes_eq→eq, bytes_eq_comm, arith, ap, ℤ, Bool-cases, inl, inr,
}
use haze.Object.{Value, Object, bool, int, uint, float, double, str, bin, object}
use haze.Object.Copy.Content.{canonical, canonical_value}

-- A number of `e` exponent bits over `m` mantissa bits: all exponent bits set, a mantissa not 0.
abbrev pub is_nan : ℕ → ℕ → ℕ → Bool
is_nan e m x = ((x / 2 ^ m) % 2 ^ e == 2 ^ e - 1) && not (x % 2 ^ m == 0)

abbrev pub is_zero : ℕ → ℕ → ℕ → Bool
is_zero e m x = x % 2 ^ (e + m) == 0

ieee_eq : ℕ → ℕ → ℕ → ℕ → Bool
ieee_eq e m x y =
    not (is_nan e m x) && (not (is_nan e m y) && ((x == y) || (is_zero e m x && is_zero e m y)))

unfoldable pub float_eq : ℕ → ℕ → Bool
unfolding ieee_eq
float_eq x y = ieee_eq 8 23 x y

unfoldable pub double_eq : ℕ → ℕ → Bool
unfolding ieee_eq
double_eq x y = ieee_eq 11 52 x y

bool_eq : Bool → Bool → Bool
bool_eq true b = b
bool_eq false b = not b

str_eq : Option (List ℕ) → Option (List ℕ) → Bool
str_eq none none = true
str_eq (some s) (some t) = bytes_eq s t
str_eq _ _ = false

value_eq : Value → Value → Bool
unfolding bool_eq float_eq double_eq str_eq
value_eq (bool a) (bool b) = bool_eq a b
value_eq (int a) (int b) = int_eq a b
value_eq (uint a) (uint b) = a == b
value_eq (float a) (float b) = float_eq a b
value_eq (double a) (double b) = double_eq a b
value_eq (str s) (str t) = str_eq s t
value_eq _ _ = false

-- ObjectEquals of two objects that are there.
unfoldable pub equals : Object → Object → Bool
unfolding value_eq
equals (object v n) (object w m) = value_eq v w

value_eq-canonical : (v w : Value) → value_eq (canonical_value v) w ≡ value_eq v w
unfolding value_eq canonical
value_eq-canonical (bin none) w = refl
value_eq-canonical (bin (some b)) w = refl
value_eq-canonical _ w = refl

-- An object without what ObjectCopy does not keep is equal to the same objects as the object.
pub equals-canonical : (a b : Object) → equals (canonical a) b ≡ equals a b
unfolding equals canonical
equals-canonical (object v n) (object w m) = value_eq-canonical v w

module _ (bad zero_bits : ℕ → Bool) where
  abbrev same_number : ℕ → ℕ → Bool
  same_number x y = not (bad x) && (not (bad y) && ((x == y) || (zero_bits x && zero_bits y)))

  same_zero :
      (x z : ℕ) → zero_bits x ≡ true → bad x ≡ false → same_number x z ≡ not (bad z) && zero_bits z
  same_zero x z h k = elim (Bool-cases (x == z)) [
    | inl e ↦ let f : x ≡ z = ground arith in rw (← f) (ground arith)
    | inr e ↦ ground arith
  ]

  same_number_euclidean : (x y z : ℕ) → same_number x y ≡ true → same_number x z ≡ same_number y z
  same_number_euclidean x y z h = elim (Bool-cases (x == y)) [
    | inl e ↦ let f : x ≡ y = ground arith in ap (λ (t : ℕ). same_number t z) f
    | inr e ↦ ground (arith, same_zero x z, same_zero y z)
  ]

ieee_eq_euclidean : (e m x y z : ℕ) → ieee_eq e m x y ≡ true → ieee_eq e m x z ≡ ieee_eq e m y z
unfolding ieee_eq
ieee_eq_euclidean e m x y z h = same_number_euclidean (is_nan e m) (is_zero e m) x y z h

bool_eq→eq : (a b : Bool) → bool_eq a b ≡ true → a ≡ b
unfolding bool_eq
bool_eq→eq a b h = ground arith

int_eq→eq : (a b : ℤ) → int_eq a b ≡ true → a ≡ b
int_eq→eq a b h = ground arith

==→eq : (a b : ℕ) → (a == b) ≡ true → a ≡ b
==→eq a b h = ground arith

float_euclidean :
    (a b : ℕ) (c : Value)
    → value_eq (float a) (float b) ≡ true
    → value_eq (float a) c ≡ value_eq (float b) c
unfolding value_eq
float_euclidean a b (float c) h = ieee_eq_euclidean 8 23 a b c h
float_euclidean a b _ h = refl

double_euclidean :
    (a b : ℕ) (c : Value)
    → value_eq (double a) (double b) ≡ true
    → value_eq (double a) c ≡ value_eq (double b) c
unfolding value_eq
double_euclidean a b (double c) h = ieee_eq_euclidean 11 52 a b c h
double_euclidean a b _ h = refl

value_eq_euclidean : (a b c : Value) → value_eq a b ≡ true → value_eq a c ≡ value_eq b c
unfolding value_eq
value_eq_euclidean (bool a) (bool b) c h = ap (λ (t : Bool). value_eq (bool t) c) (bool_eq→eq a b h)
value_eq_euclidean (int a) (int b) c h = ap (λ (t : ℤ). value_eq (int t) c) (int_eq→eq a b h)
value_eq_euclidean (uint a) (uint b) c h = ap (λ (t : ℕ). value_eq (uint t) c) (==→eq a b h)
value_eq_euclidean (float a) (float b) c h = float_euclidean a b c h
value_eq_euclidean (double a) (double b) c h = double_euclidean a b c h
value_eq_euclidean (str (some s)) (str (some t)) c h =
    ap (λ (u : List ℕ). value_eq (str (some u)) c) (bytes_eq→eq s t h)
value_eq_euclidean (str none) (str none) c h = refl
value_eq_euclidean a b c h = cc

-- Two objects that are equal are equal to the same third objects.
pub equals_euclidean : (a b c : Object) → equals a b ≡ true → equals a c ≡ equals b c
unfolding equals
equals_euclidean (object u i) (object v j) (object w k) h = value_eq_euclidean u v w h

same_number_comm :
    (bad zero_bits : ℕ → Bool) (x y : ℕ)
    → same_number bad zero_bits x y ≡ same_number bad zero_bits y x
same_number_comm bad zero_bits x y = ground arith

value_eq_comm : (a b : Value) → value_eq a b ≡ value_eq b a
unfolding value_eq
value_eq_comm (bool a) (bool b) = ground arith
value_eq_comm (int a) (int b) = ground arith
value_eq_comm (uint a) (uint b) = ground arith
value_eq_comm (float a) (float b) = same_number_comm (is_nan 8 23) (is_zero 8 23) a b
value_eq_comm (double a) (double b) = same_number_comm (is_nan 11 52) (is_zero 11 52) a b
value_eq_comm (str (some s)) (str (some t)) = bytes_eq_comm s t
value_eq_comm (str none) (str (some t)) = refl
value_eq_comm (str (some s)) (str none) = refl
value_eq_comm _ _ = ground arith

-- Whether two objects are equal does not depend on their order.
pub equals_comm : (a b : Object) → equals a b ≡ equals b a
unfolding equals
equals_comm (object u i) (object v j) = value_eq_comm u v
