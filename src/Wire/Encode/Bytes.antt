-- ===== src/Wire/Encode/Bytes.antt =====
-- The bytes that ObjectMarshalMPack writes, as a function of the object.
use haze.Base.{
  ℕ, ◌%◌, ◌≡◌, sym, Option, none, some, List, [], ◌++◌, append_assoc, append-nil, take, length,
  arith,
}
use haze.Object.{
  Value, Object, Slots, bool, int, uint, float, double, str, bin, array, object, end, slot, hole,
}
use haze.Object.Copy.{count}
use haze.Wire.Mpack.{Tag, Writer, Writes, int_tag}
use haze.Wire.Encode.{
  u32_mod, c_bytes, write_value, write_object, write_slots, IsInside, IsInsideValue, IsInsideSlots,
}

module _ (enc : Tag → List ℕ) where
  data_bytes : Option (List ℕ) → ℕ → List ℕ
  data_bytes none n = enc Tag.nil
  data_bytes (some bytes) n = let s = take (n % u32_mod) bytes in enc (Tag.bin (length s)) ++ s

  str_bytes : List ℕ → ℕ → List ℕ
  str_bytes s size = let t = c_bytes (size % u32_mod) s in enc (Tag.str (length t)) ++ t

  -- The MessagePack encoding of an object: arrays with their elements, and nil for what has none.
  unfoldable mutual
    unfolding data_bytes str_bytes

    pub value_bytes : Value → ℕ → List ℕ
    value_bytes (bool b) size = enc (Tag.bool b)
    value_bytes (int z) size = enc (int_tag z)
    value_bytes (uint n) size = enc (Tag.uint n)
    value_bytes (float x) size = enc (Tag.float x)
    value_bytes (double x) size = enc (Tag.double x)
    value_bytes (str (some s)) size = str_bytes s size
    value_bytes (bin (some b)) size = data_bytes b.bytes b.len
    value_bytes (array slots capacity) size =
        enc (Tag.array (count slots % u32_mod)) ++ slots_bytes slots
    value_bytes v size = enc Tag.nil

    pub object_bytes : Object → List ℕ
    object_bytes (object v size) = value_bytes v size

    pub slots_bytes : Slots → List ℕ
    slots_bytes end = []
    slots_bytes (slot o rest) = object_bytes o ++ slots_bytes rest
    slots_bytes (hole rest) = enc Tag.nil ++ slots_bytes rest

module _ {W : Type 0} (wr : Writer W) (enc : Tag → List ℕ) (law : Writes wr enc) where
  open law use {output}

  output_data :
      (bytes : Option (List ℕ)) (n : ℕ) (w : W)
      → output (write_value wr (bin (some (record { bytes = bytes; len = n }))) 0 w)
        ≡ output w ++ data_bytes enc bytes n
  unfolding write_value data_bytes
  output_data none n w = law.output_nil w
  output_data (some bytes) n w = law.output_bin (take (n % u32_mod) bytes) w

  mutual
    unfolding write_value value_bytes

    output_value :
        (v : Value) (size : ℕ) (w : W)
        → IsInsideValue v size
        → output (write_value wr v size w) ≡ output w ++ value_bytes enc v size
    output_value (bool b) size w i = law.output_bool b w
    output_value (int z) size w i = law.output_int z w
    output_value (uint n) size w i = law.output_uint n w
    output_value (float x) size w i = law.output_float x w
    output_value (double x) size w i = law.output_double x w
    output_value (str (some s)) size w i = law.output_cstr s (size % u32_mod) w (omega (arith, i))
    output_value (bin (some b)) size w i = output_data b.bytes b.len w
    output_value (array slots capacity) size w i =
        simp (law.output_finish, output_slots slots _ i, law.output_array, append_assoc)
    output_value _ size w i = law.output_nil w

    pub output_object :
        (o : Object) (w : W)
        → IsInside o
        → output (write_object wr o w) ≡ output w ++ object_bytes enc o
    output_object (object v size) w i = output_value v size w i

    pub output_slots :
        (s : Slots) (w : W)
        → IsInsideSlots s
        → output (write_slots wr s w) ≡ output w ++ slots_bytes enc s
    output_slots end w i = sym (append-nil (output w))
    output_slots (slot o rest) w i =
        simp (output_slots rest _ i.1, output_object o w i.0, append_assoc)
    output_slots (hole rest) w i = simp (output_slots rest _ i, law.output_nil, append_assoc)
