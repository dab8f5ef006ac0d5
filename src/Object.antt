-- ===== src/Object.antt =====
-- source/msgpack/Object.h and the constructors and getters of Object.c: MessagePack values as trees
-- that their parents own. A C string is the list of its bytes before the terminator; a float or a
-- double is its IEEE-754 bit pattern.
pub mod Copy
pub mod Array
pub mod Equal
pub mod MapTable
use haze.Base.{
  ℕ, suc, ◌+◌, ◌*◌, ◌^◌, ◌%◌, ℤ, Option, none, some, List, [], ◌∷◌, Bool, true, false, ◌==◌,
  if◌then◌else◌, length,
}
use haze.Memory.{M, pure, ◌>>=◌, ◌>>◌, alloc, free}
use haze.Buffer.{RawBuffer}

-- ObjectType
pub data ObjectType : Type 0 where
  obj_und obj_nil obj_bool obj_int obj_uint obj_float obj_double obj_str obj_bin : ObjectType
  obj_array obj_map : ObjectType

-- ObjectValue with the type that says how to read it. `none` is a null pointer of the union, as are
-- `null_array` and `null_map`; of OBJ_MAP the union holds one pair or a table.
mutual
  pub data Value : Type 0 where
    und nil : Value
    bool : Bool → Value
    int : ℤ → Value
    uint : ℕ → Value
    float : ℕ → Value
    double : ℕ → Value
    str : Option (List ℕ) → Value
    bin : Option RawBuffer → Value
    array : Slots → ℕ → Value
    null_array null_map : Value
    map_pair : Object → Object → Value
    map_table : Pairs → ℕ → Value

  -- The struct Object: the value and the field `size`.
  pub data Object : Type 0 where
    object : Value → ℕ → Object

  -- `objects[0 .. len)` of an ObjectArray; a `hole` is a null pointer.
  pub data Slots : Type 0 where
    end : Slots
    slot : Object → Slots → Slots
    hole : Slots → Slots

  -- `pairs[0 .. len)` of an ObjectMapTable, with the key and the value of each pair.
  pub data Pairs : Type 0 where
    no_pairs : Pairs
    pair : Object → Object → Pairs → Pairs

-- ObjectArray; its `len` is the number of slots.
pub record ObjectArray : Type 0 where
  pub slots : Slots
  pub capacity : ℕ

-- ObjectMapTable; its `len` is the number of pairs.
pub record ObjectMapTable : Type 0 where
  pub pairs : Pairs
  pub capacity : ℕ

abbrev pub initial_capacity : ℕ
initial_capacity = 8

-- The modulus of size_t.
abbrev pub size_mod : ℕ
size_mod = 2 ^ 64

unfoldable pub value_of : Object → Value
value_of (object v size) = v

unfoldable pub type_of : Value → ObjectType
type_of und = obj_und
type_of nil = obj_nil
type_of (bool b) = obj_bool
type_of (int z) = obj_int
type_of (uint n) = obj_uint
type_of (float x) = obj_float
type_of (double x) = obj_double
type_of (str s) = obj_str
type_of (bin b) = obj_bin
type_of (array slots capacity) = obj_array
type_of null_array = obj_array
type_of null_map = obj_map
type_of (map_pair k v) = obj_map
type_of (map_table pairs capacity) = obj_map

-- ObjectGetType and ObjectGetSize; a null object is undefined and has size 0.
unfoldable pub get_type : Option Object → ObjectType
unfolding type_of
get_type none = obj_und
get_type (some (object v size)) = type_of v

unfoldable pub get_size : Option Object → ℕ
get_size none = 0
get_size (some (object v size)) = size

-- ObjectNew
unfoldable pub new : M (Option Object)
new = do ok ← alloc; pure (if ok then some (object und 0) else none)

-- The constructors that store a plain value: a new object with its type, value and size set.
abbrev create : Value → ℕ → M (Option Object)
create v size = do ok ← alloc; pure (if ok then some (object v size) else none)

unfoldable pub create_nil : M (Option Object)
create_nil = create nil 0

unfoldable pub create_bool : Bool → M (Option Object)
create_bool b = create (bool b) 1

unfoldable pub create_int : ℤ → M (Option Object)
create_int z = create (int z) 8

unfoldable pub create_uint : ℕ → M (Option Object)
create_uint n = create (uint n) 8

unfoldable pub create_float : ℕ → M (Option Object)
create_float x = create (float x) 4

unfoldable pub create_double : ℕ → M (Option Object)
create_double x = create (double x) 8

-- The bytes of "NULL", which stand for a null string.
abbrev null_text : List ℕ
null_text = b'N' ∷ b'U' ∷ b'L' ∷ b'L' ∷ []

abbrev or_null_text : Option (List ℕ) → List ℕ
or_null_text none = null_text
or_null_text (some s) = s

-- After strdup, with the object there.
str_object : List ℕ → Bool → M (Option Object)
unfolding free
str_object s true = pure (some (object (str (some s)) (length s)))
str_object s false = do free 1; pure none

-- ObjectCreateStr
unfoldable pub create_str : Option (List ℕ) → M (Option Object)
unfolding str_object
create_str s = do
  ok ← alloc
  if ok then (do copied ← alloc; str_object (or_null_text s) copied) else pure none

-- The numbers of the enum.
abbrev pub type_code : ObjectType → ℕ
type_code obj_und = 0
type_code obj_nil = 1
type_code obj_bool = 2
type_code obj_int = 3
type_code obj_uint = 4
type_code obj_float = 5
type_code obj_double = 6
type_code obj_str = 7
type_code obj_bin = 8
type_code obj_array = 9
type_code obj_map = 10

unfoldable pub type_eq : ObjectType → ObjectType → Bool
type_eq a b = type_code a == type_code b

-- ObjectExpect
unfoldable pub expect : Option Object → ObjectType → Bool
unfolding type_eq get_type
expect none t = false
expect (some o) t = type_eq (get_type (some o)) t

str_value : Value → Option (List ℕ)
str_value (str s) = s
str_value _ = none

-- ObjectGetStr of an object of type OBJ_STR.
unfoldable pub get_str : Object → Option (List ℕ)
unfolding str_value
get_str (object v size) = str_value v
