-- ===== src/Wire/Notification/Unmarshal/Laws.antt =====
-- What mpack documents of its expect interface, and the objects that are read back.
use haze.Base.{
  ℕ, suc, ◌+◌, ◌≡◌, ◌++◌, ◌≤◌, ◌<◌, ℤ, pos, negsuc, some, List, Bool, length, IsText, arith,
}
use haze.Object.{
  Value, Object, Slots, nil, bool, int, uint, float, double, str, bin, array, object, end, slot,
  hole,
}
use haze.Object.Copy.{count}
use haze.Object.Copy.Content.{
  canonical, canonical_value, canonical_slots, canonical_bytes, IsFull, IsFullSlots, IsFullValue,
}
use haze.Wire.Mpack.{Tag, Reader, Reads}
use haze.Wire.Encode.{IsInside, IsInsideValue, IsInsideSlots}
use haze.Wire.Notification.Encoding.{data_sent}
use haze.Wire.Notification.Expect.{Expect, max_params}

-- A reader that stands before an encoded tag gives what it expects, and goes behind it. A string is
-- given if it holds no 0 and has room for its terminator.
pub record Expects {R : Type 0} {rd : Reader R} {enc : Tag → List ℕ} (law : Reads rd enc)
    (ex : Expect R) : Type 0 where
  pub peek_there :
      (r : R) (t : Tag) (rest : List ℕ)
      → law.input r ≡ some (enc t ++ rest)
      → ((ex.peek_tag r).0 ≡ t) × (law.input (ex.peek_tag r).1 ≡ some (enc t ++ rest))
  pub nil_there :
      (r : R) (rest : List ℕ)
      → law.input r ≡ some (enc Tag.nil ++ rest)
      → law.input (ex.expect_nil r) ≡ some rest
  pub bool_there :
      (r : R) (b : Bool) (rest : List ℕ)
      → law.input r ≡ some (enc (Tag.bool b) ++ rest)
      → ((ex.expect_bool r).0 ≡ b) × (law.input (ex.expect_bool r).1 ≡ some rest)
  pub int_there :
      (r : R) (z : ℤ) (rest : List ℕ)
      → law.input r ≡ some (enc (Tag.int z) ++ rest)
      → ((ex.expect_int r).0 ≡ z) × (law.input (ex.expect_int r).1 ≡ some rest)
  pub uint_there :
      (r : R) (n : ℕ) (rest : List ℕ)
      → law.input r ≡ some (enc (Tag.uint n) ++ rest)
      → ((ex.expect_uint r).0 ≡ n) × (law.input (ex.expect_uint r).1 ≡ some rest)
  pub float_there :
      (r : R) (x : ℕ) (rest : List ℕ)
      → law.input r ≡ some (enc (Tag.float x) ++ rest)
      → ((ex.expect_float r).0 ≡ x) × (law.input (ex.expect_float r).1 ≡ some rest)
  pub double_there :
      (r : R) (x : ℕ) (rest : List ℕ)
      → law.input r ≡ some (enc (Tag.double x) ++ rest)
      → ((ex.expect_double r).0 ≡ x) × (law.input (ex.expect_double r).1 ≡ some rest)
  pub str_there :
      (r : R) (n : ℕ) (rest : List ℕ)
      → law.input r ≡ some (enc (Tag.str n) ++ rest)
      → ((ex.expect_str r).0 ≡ n) × (law.input (ex.expect_str r).1 ≡ some rest)
  pub bin_there :
      (r : R) (n : ℕ) (rest : List ℕ)
      → law.input r ≡ some (enc (Tag.bin n) ++ rest)
      → ((ex.expect_bin r).0 ≡ n) × (law.input (ex.expect_bin r).1 ≡ some rest)
  pub array_there :
      (r : R) (max n : ℕ) (rest : List ℕ)
      → n ≤ max
      → law.input r ≡ some (enc (Tag.array n) ++ rest)
      → ((ex.expect_array_max max r).0 ≡ n) × (law.input (ex.expect_array_max max r).1 ≡ some rest)
  pub match_there :
      (r : R) (n : ℕ) (rest : List ℕ)
      → law.input r ≡ some (enc (Tag.uint n) ++ rest)
      → law.input (ex.expect_uint_match n r) ≡ some rest
  pub cstr_there :
      (r : R) (max : ℕ) (s rest : List ℕ)
      → IsText s
      → length s < max
      → law.input r ≡ some (enc (Tag.str (length s)) ++ (s ++ rest))
      → ((ex.expect_cstr_alloc max r).0 ≡ some s)
        × (law.input (ex.expect_cstr_alloc max r).1 ≡ some rest)

-- What a notification carries so that it comes back: a string has its length for its size and holds
-- no 0, a bin has its bytes, and no array is longer than a reader takes.
abbrev mutual
  pub IsKeptValue : Value → ℕ → Type 0
  IsKeptValue nil size = Unit
  IsKeptValue (bool b) size = Unit
  IsKeptValue (int z) size = Unit
  IsKeptValue (uint n) size = Unit
  IsKeptValue (float x) size = Unit
  IsKeptValue (double x) size = Unit
  IsKeptValue (str (some s)) size = (size ≡ length s) × IsText s
  IsKeptValue (bin (some b)) size = length (data_sent b.bytes b.len) ≡ b.len
  IsKeptValue (array slots capacity) size = (count slots ≤ max_params) × IsKeptSlots slots
  IsKeptValue v size = ⊥

  pub IsKept : Object → Type 0
  IsKept (object v size) = IsKeptValue v size

  pub IsKeptSlots : Slots → Type 0
  IsKeptSlots end = Unit
  IsKeptSlots (hole rest) = ⊥
  IsKeptSlots (slot o rest) = IsKept o × IsKeptSlots rest

mutual
  KeptValue-IsInside : (v : Value) (size : ℕ) → IsKeptValue v size → IsInsideValue v size
  KeptValue-IsInside (str (some s)) size f = omega (arith, f.0)
  KeptValue-IsInside (array slots capacity) size f = Kept-IsInside slots f.1
  KeptValue-IsInside _ size f = tt

  KeptObject-IsInside : (o : Object) → IsKept o → IsInside o
  KeptObject-IsInside (object v size) f = KeptValue-IsInside v size f

  pub Kept-IsInside : (s : Slots) → IsKeptSlots s → IsInsideSlots s
  Kept-IsInside end f = tt
  Kept-IsInside (hole rest) f = absurd f
  Kept-IsInside (slot o rest) f = (KeptObject-IsInside o f.0, Kept-IsInside rest f.1)

abbrev pub restored_int : ℤ → Object
restored_int (pos n) = object (uint n) 8
restored_int (negsuc n) = object (int (negsuc n)) 8

-- The object as it comes back: an integer of no sign as unsigned, and the sizes that the
-- constructors set.
unfoldable mutual
  pub restored_value : Value → Object
  restored_value (bool b) = object (bool b) 1
  restored_value (int z) = restored_int z
  restored_value (uint n) = object (uint n) 8
  restored_value (float x) = object (float x) 4
  restored_value (double x) = object (double x) 8
  restored_value (str (some s)) = object (str (some s)) (length s)
  restored_value (bin (some b)) = object (bin (some (canonical_bytes b.bytes b.len))) b.len
  restored_value (array slots capacity) = object (array (restored_slots slots) 0) (count slots)
  restored_value v = object nil 0

  pub restored : Object → Object
  restored (object v size) = restored_value v

  pub restored_slots : Slots → Slots
  restored_slots end = end
  restored_slots (hole rest) = restored_slots rest
  restored_slots (slot o rest) = slot (restored o) (restored_slots rest)

mutual
  unfolding canonical

  IsFullValue-of : (v : Value) → IsFullValue (canonical_value v) → IsFullValue v
  IsFullValue-of (array slots capacity) f = IsFullSlots-of slots f
  IsFullValue-of _ f = tt

  pub IsFull-of : (o : Object) → IsFull (canonical o) → IsFull o
  IsFull-of (object v size) f = IsFullValue-of v f

  IsFullSlots-of : (s : Slots) → IsFullSlots (canonical_slots s) → IsFullSlots s
  IsFullSlots-of end f = tt
  IsFullSlots-of (hole rest) f = f
  IsFullSlots-of (slot o rest) (f, g) = (IsFull-of o f, IsFullSlots-of rest g)

restored_int-IsFull : (z : ℤ) → IsFull (canonical (restored_int z))
unfolding canonical
restored_int-IsFull (pos n) = tt
restored_int-IsFull (negsuc n) = tt

mutual
  unfolding restored_value canonical

  restored_value-IsFull :
      (v : Value) (size : ℕ) → IsKeptValue v size → IsFull (canonical (restored_value v))
  restored_value-IsFull (int z) size k = restored_int-IsFull z
  restored_value-IsFull (array slots capacity) size (few, k) = restored_slots-IsFull slots k
  restored_value-IsFull (str (some s)) size k = tt
  restored_value-IsFull (bin (some b)) size k = tt
  restored_value-IsFull _ size k = tt

  pub restored-IsFull : (o : Object) → IsKept o → IsFull (canonical (restored o))
  restored-IsFull (object v size) k = restored_value-IsFull v size k

  restored_slots-IsFull :
      (s : Slots) → IsKeptSlots s → IsFullSlots (canonical_slots (restored_slots s))
  restored_slots-IsFull end k = tt
  restored_slots-IsFull (hole rest) k = absurd k
  restored_slots-IsFull (slot o rest) (k, l) = (restored-IsFull o k, restored_slots-IsFull rest l)

-- Arrays inside one another are at most as many as objects.
abbrev mutual
  pub weight_value : Value → ℕ
  weight_value (array slots capacity) = weight_slots slots
  weight_value _ = 0

  pub weight : Object → ℕ
  weight (object v size) = suc (weight_value v)

  pub weight_slots : Slots → ℕ
  weight_slots end = 0
  weight_slots (hole rest) = weight_slots rest
  weight_slots (slot o rest) = weight o + weight_slots rest
