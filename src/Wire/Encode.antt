-- ===== src/Wire/Encode.antt =====
-- ObjectMarshalMPack, of which Request.c and Response.c each have a copy.
pub mod Bytes
use haze.Base.{
  ℕ, zero, suc, ◌+◌, ◌≤◌, ◌%◌, ◌^◌, Option, none, some, List, [], ◌∷◌, ◌++◌, take, length,
}
use haze.Buffer.{RawBuffer}
use haze.Object.{
  Value, Object, Slots, und, nil, bool, int, uint, float, double, str, bin, array, null_array,
  null_map, map_pair, map_table, object, end, slot, hole,
}
use haze.Object.Copy.{count}
use haze.Wire.Mpack.{Writer}

-- The modulus of uint32_t.
abbrev pub u32_mod : ℕ
u32_mod = 2 ^ 32

-- The first `n` bytes at a C string, where they end at its terminator or before it.
abbrev pub c_bytes : ℕ → List ℕ → List ℕ
c_bytes n s = take n (s ++ 0 ∷ [])

-- No string of the object has a size that goes on behind its terminator: of such a string the program
-- reads memory that is not its own.
abbrev mutual
  pub IsInsideValue : Value → ℕ → Type 0
  IsInsideValue (str (some s)) size = size ≤ length s + 1
  IsInsideValue (array slots capacity) size = IsInsideSlots slots
  IsInsideValue _ size = Unit

  pub IsInside : Object → Type 0
  IsInside (object v size) = IsInsideValue v size

  pub IsInsideSlots : Slots → Type 0
  IsInsideSlots end = Unit
  IsInsideSlots (slot o rest) = IsInside o × IsInsideSlots rest
  IsInsideSlots (hole rest) = IsInsideSlots rest

-- The same of an object that may be missing.
abbrev pub IsInsidePointer : Option Object → Type 0
IsInsidePointer none = Unit
IsInsidePointer (some o) = IsInside o

module _ {W : Type 0} (wr : Writer W) where
  write_data : Option (List ℕ) → ℕ → W → W
  write_data none n w = wr.write_nil w
  write_data (some bytes) n w = wr.write_bin (take (n % u32_mod) bytes) w

  unfoldable mutual
    unfolding write_data

    pub write_value : Value → ℕ → W → W
    write_value (bool b) size w = wr.write_bool b w
    write_value (int z) size w = wr.write_int z w
    write_value (uint n) size w = wr.write_uint n w
    write_value (float x) size w = wr.write_float x w
    write_value (double x) size w = wr.write_double x w
    write_value (str (some s)) size w = wr.write_cstr s (size % u32_mod) w
    write_value (bin (some b)) size w = write_data b.bytes b.len w
    write_value (array slots capacity) size w =
        wr.finish_array (write_slots slots (wr.start_array (count slots % u32_mod) w))
    write_value v size w = wr.write_nil w

    pub write_object : Object → W → W
    write_object (object v size) w = write_value v size w

    pub write_slots : Slots → W → W
    write_slots end w = w
    write_slots (slot o rest) w = write_slots rest (write_object o w)
    write_slots (hole rest) w = write_slots rest (wr.write_nil w)

  -- ObjectMarshalMPack of a pointer
  unfoldable pub write_pointer : Option Object → W → W
  unfolding write_object
  write_pointer none w = wr.write_nil w
  write_pointer (some o) w = write_object o w
