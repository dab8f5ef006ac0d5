-- ===== src/Wire/Mpack.antt =====
-- The calls of the mpack library (third_party/mpack), which is not modelled: its reader and writer
-- are parameters, with what mpack documents of them as laws. The numbers of a tag are those of the C
-- types (uint64_t, the bit patterns of float and double, the uint32_t lengths).
use haze.Base.{
  ℕ, ◌+◌, ◌≡◌, ◌++◌, ◌<◌, ◌≤◌, ℤ, pos, negsuc, Option, some, List, [], ◌∷◌, Bool, false, length,
  take,
}

-- mpack_tag_t. A string, a bin and an array carry their length; the contents follow.
pub data Tag : Type 0 where
  missing nil ext : Tag
  bool : Bool → Tag
  int : ℤ → Tag
  uint : ℕ → Tag
  float : ℕ → Tag
  double : ℕ → Tag
  str : ℕ → Tag
  bin : ℕ → Tag
  array : ℕ → Tag
  map : ℕ → Tag

-- mpack_writer_t over a growable buffer: `destroy` gives the bytes, or nothing on an error.
-- mpack_write_str is `write_str` where all the bytes that it takes are known, and `write_cstr` where
-- it takes a number of bytes from a C string on, which may go on behind the terminator.
pub record Writer (W : Type 0) : Type 0 where
  pub start : W
  pub write_nil : W → W
  pub write_bool : Bool → W → W
  pub write_int : ℤ → W → W
  pub write_uint : ℕ → W → W
  pub write_float : ℕ → W → W
  pub write_double : ℕ → W → W
  pub write_str : List ℕ → W → W
  pub write_cstr : List ℕ → ℕ → W → W
  pub write_bin : List ℕ → W → W
  pub start_array : ℕ → W → W
  pub finish_array : W → W
  pub writer_failed : W → Bool
  pub destroy : W → Option (List ℕ)

-- mpack_reader_t over the bytes of a buffer. A reader that met an error stays in error.
pub record Reader (R : Type 0) : Type 0 where
  pub init_data : List ℕ → R
  pub read_tag : R → Tag × R
  pub read_bytes : ℕ → R → List ℕ × R
  pub read_bytes_inplace : ℕ → R → Option (List ℕ) × R
  pub done_str : R → R
  pub done_bin : R → R
  pub done_array : R → R
  pub remaining : R → ℕ
  pub reader_failed : R → Bool

-- An integer of no sign is written as unsigned.
abbrev pub int_tag : ℤ → Tag
int_tag (pos n) = uint n
int_tag (negsuc n) = int (negsuc n)

-- A writer that does not run out of memory: each write appends the encoding of its tag, and of a
-- string or a bin the bytes behind it. What is written of a C string is known up to its terminator.
pub record Writes {W : Type 0} (wr : Writer W) (enc : Tag → List ℕ) : Type 0 where
  pub output : W → List ℕ
  pub output_start : output wr.start ≡ []
  pub output_nil : (w : W) → output (wr.write_nil w) ≡ output w ++ enc nil
  pub output_bool : (b : Bool) (w : W) → output (wr.write_bool b w) ≡ output w ++ enc (bool b)
  pub output_int : (z : ℤ) (w : W) → output (wr.write_int z w) ≡ output w ++ enc (int_tag z)
  pub output_uint : (n : ℕ) (w : W) → output (wr.write_uint n w) ≡ output w ++ enc (uint n)
  pub output_float : (x : ℕ) (w : W) → output (wr.write_float x w) ≡ output w ++ enc (float x)
  pub output_double : (x : ℕ) (w : W) → output (wr.write_double x w) ≡ output w ++ enc (double x)
  pub output_str :
      (s : List ℕ) (w : W) → output (wr.write_str s w) ≡ output w ++ (enc (str (length s)) ++ s)
  pub output_cstr :
      (s : List ℕ) (n : ℕ) (w : W)
      → n ≤ length s + 1
      → let t = take n (s ++ 0 ∷ []) in
        output (wr.write_cstr s n w) ≡ output w ++ (enc (str (length t)) ++ t)
  pub output_bin :
      (s : List ℕ) (w : W) → output (wr.write_bin s w) ≡ output w ++ (enc (bin (length s)) ++ s)
  pub output_array : (n : ℕ) (w : W) → output (wr.start_array n w) ≡ output w ++ enc (array n)
  pub output_finish : (w : W) → output (wr.finish_array w) ≡ output w
  pub no_failure : (w : W) → wr.writer_failed w ≡ false
  pub tag_nonempty : (t : Tag) → 0 < length (enc t)
  pub output_destroy : (w : W) → wr.destroy w ≡ some (output w)

-- `input` is what a reader has before it: nothing once it met an error. It reads back the tags that
-- stand there in their encoding, and the bytes.
pub record Reads {R : Type 0} (rd : Reader R) (enc : Tag → List ℕ) : Type 0 where
  pub input : R → Option (List ℕ)
  pub input_init : (bytes : List ℕ) → input (rd.init_data bytes) ≡ some bytes
  pub tag_there :
      (r : R) (t : Tag) (rest : List ℕ)
      → input r ≡ some (enc t ++ rest)
      → ((rd.read_tag r).0 ≡ t) × (input (rd.read_tag r).1 ≡ some rest)
  pub bytes_there :
      (r : R) (bytes rest : List ℕ)
      → input r ≡ some (bytes ++ rest)
      → ((rd.read_bytes (length bytes) r).0 ≡ bytes)
        × (input (rd.read_bytes (length bytes) r).1 ≡ some rest)
  pub inplace_there :
      (r : R) (bytes rest : List ℕ)
      → input r ≡ some (bytes ++ rest)
      → ((rd.read_bytes_inplace (length bytes) r).0 ≡ some bytes)
        × (input (rd.read_bytes_inplace (length bytes) r).1 ≡ some rest)
  pub input_done_str : (r : R) → input (rd.done_str r) ≡ input r
  pub input_done_bin : (r : R) → input (rd.done_bin r) ≡ input r
  pub input_done_array : (r : R) → input (rd.done_array r) ≡ input r
  pub remaining_there : (r : R) (rest : List ℕ) → input r ≡ some rest → rd.remaining r ≡ length rest
  pub failed_not : (r : R) (rest : List ℕ) → input r ≡ some rest → rd.reader_failed r ≡ false
