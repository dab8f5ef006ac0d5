-- ===== src/Wire/Response/Unmarshal.antt =====
-- ResponseUnmarshal of source/api/proto/Response.c, with its ObjectUnmarshalMPack. A jump to `fail`
-- gives the response back; bytes that are not there cannot be read.
pub mod Reborn
pub mod Back
pub mod Fields
pub mod Sizes
pub mod RoundTrip
use haze.Base.{
  ℕ, zero, suc, Option, none, some, List, Bool, true, false, ◌==◌, ◌||◌, not, if◌then◌else◌, take,
  c_string,
}
use haze.Memory
use haze.Memory.{M, Heap, alloc, free}
use haze.Buffer
use haze.Buffer.{RawBuffer}
use haze.Object
use haze.Object.{
  Object, ObjectArray, ObjectType, obj_nil, array, null_array, bin, object, get_type, type_eq,
}
use haze.Object.Copy.{create_array}
use haze.Object.Array
use haze.Wire.Mpack.{Tag, Reader}
use haze.Wire.Cursor.{Cursor, S, pure, ◌>>=◌, ◌>>◌, mem, call, run}
use haze.Wire.Response
use haze.Wire.Response.{Response, rpc_response, free_response, free_pointer}

-- The calls of mpack's expect interface.
pub record ExpectHead (R : Type 0) : Type 0 where
  pub expect_array : R → ℕ × R
  pub expect_u8 : R → ℕ × R
  pub expect_u32 : R → ℕ × R

-- The response, or a use of a null pointer.
pub data Outcome : Type 0 where
  returned : Option Response → Outcome
  crashed : Outcome

-- ObjectArrayAppend of an array that may be null.
append_to : Option ObjectArray → Object → M (Option ObjectArray)
append_to none o h = (none, h)
append_to (some a) o h = let (r, h') = Array.append a (some o) h in (some r.1, h')

array_value : Option ObjectArray → Object
array_value none = object null_array 0
array_value (some a) = object (array a.slots a.capacity) 0

-- `ObjectGetType(o) == OBJ_NIL`
unfoldable pub is_nil : Option Object → Bool
unfolding get_type type_eq
is_nil o = type_eq (get_type o) obj_nil

module _ {R : Type 0} (rd : Reader R) where
  failed : S R Bool
  failed c = (rd.reader_failed c.reader, c)

  read_str : ℕ → Bool → S R (Option Object)
  unfolding free
  read_str n false = pure none
  read_str n true = do
    bytes ← call (rd.read_bytes n)
    run rd.done_str
    o ← mem (Object.create_str (some (c_string bytes)))
    mem (free 1)
    pure o

  -- The copy of the bytes may be null; the temporary block is given back.
  bin_object : List ℕ → ℕ → Option Object → S R (Option Object)
  unfolding free
  bin_object bytes n none = do mem (free 1); pure none
  bin_object bytes n (some o) = do
    b ← mem (Buffer.new (some bytes) n)
    mem (free 1)
    pure (some (object (bin b) n))

  read_bin : ℕ → Bool → S R (Option Object)
  unfolding bin_object
  read_bin n false = pure none
  read_bin n true = do
    bytes ← call (rd.read_bytes n)
    run rd.done_bin
    o ← mem Object.new
    bin_object bytes n o

  -- The loop over the elements; one that is not there is left out.
  unfoldable pub read_elements :
      S R (Option Object) → ℕ → Option ObjectArray → S R (Option ObjectArray)
  unfolding append_to
  read_elements item zero a = pure a
  read_elements item (suc n) a = item >>= λ v. elim v [
    | none ↦ read_elements item n a
    | some o ↦ mem (append_to a o) >>= read_elements item n
  ]

  array_object : Option ObjectArray → Bool → S R (Option Object)
  unfolding array_value
  array_object a false = pure none
  array_object a true = pure (some (array_value a))

  -- After the loop.
  array_done : Option ObjectArray → S R (Option Object)
  unfolding array_object
  array_done a = do run rd.done_array; ok ← mem alloc; array_object a ok

  read_array : S R (Option Object) → ℕ → S R (Option Object)
  unfolding read_elements array_done
  read_array item n = do a ← mem create_array; a' ← read_elements item n a; array_done a'

  pub read_tagged : S R (Option Object) → Tag → S R (Option Object)
  unfolding read_array read_str read_bin
  read_tagged item (Tag.bool b) = mem (Object.create_bool b)
  read_tagged item (Tag.int z) = mem (Object.create_int z)
  read_tagged item (Tag.uint n) = mem (Object.create_uint n)
  read_tagged item (Tag.float x) = mem (Object.create_float x)
  read_tagged item (Tag.double x) = mem (Object.create_double x)
  read_tagged item (Tag.str n) = do room ← mem alloc; read_str n room
  read_tagged item (Tag.bin n) = do room ← mem alloc; read_bin n room
  read_tagged item (Tag.array n) = read_array item n
  read_tagged item _ = mem Object.create_nil

  -- ObjectUnmarshalMPack, with fuel for the arrays inside one another.
  unfoldable pub read_object : ℕ → S R (Option Object)
  unfolding read_tagged failed
  read_object zero = pure none
  read_object (suc fuel) = do
    tag ← call rd.read_tag
    bad ← failed
    if bad then pure none else read_tagged (read_object fuel) tag

  -- The label `fail`, with the response there.
  fail : Response → S R (Option Response)
  fail r = do mem (free_response r); pure none

  -- A nil object is given back for a null pointer.
  without_nil : Option Object → S R (Option Object)
  unfolding is_nil
  without_nil o = if is_nil o then (do mem (free_pointer o); pure none) else pure o

  read_result : S R (Option Object) → Response → S R (Option Response)
  unfolding fail failed without_nil
  read_result item r = do
    o ← item
    bad ← failed
    if bad then fail (record r { result = o }) else (do
      kept ← without_nil o
      run rd.done_array
      bad ← failed
      if bad then fail (record r { result = kept }) else pure (some (record r { result = kept })))

  read_error : S R (Option Object) → Response → S R (Option Response)
  unfolding fail failed without_nil read_result
  read_error item r = do
    o ← item
    bad ← failed
    if bad
        then fail (record r { error = o })
        else (do kept ← without_nil o; read_result item (record r { error = kept }))

module _ {R : Type 0} (rd : Reader R) (ex : ExpectHead R) where
  read_fields : S R (Option Object) → Option Response → S R (Option Response)
  unfolding fail failed read_error
  read_fields item none = pure none
  read_fields item (some r) = do
    type ← call ex.expect_u8
    bad ← failed rd
    if bad || not (type == rpc_response) then fail rd (record r { type = type }) else (do
      id ← call ex.expect_u32
      bad ← failed rd
      if bad
          then fail rd (record r { type = type; msgid = id })
          else read_error rd item (record r { type = type; msgid = id }))

  pub read_message : S R (Option Object) → S R (Option Response)
  unfolding failed read_fields
  read_message item = do
    n ← call ex.expect_array
    bad ← failed rd
    if bad || not (n == 4) then pure none else (do r ← mem Response.new; read_fields item r)

  unmarshal_bytes : Option (List ℕ) → ℕ → M Outcome
  unfolding read_message
  unmarshal_bytes none len h = (crashed, h)
  unmarshal_bytes (some bytes) len h =
      let (r, c) =
        read_message (read_object rd (suc len))
          (record { reader = rd.init_data (take len bytes); heap = h }) in
      (returned r, c.heap)

  -- ResponseUnmarshal; an array takes a byte at least, so that the buffer's length is enough fuel.
  unfoldable pub unmarshal : Option RawBuffer → M Outcome
  unfolding unmarshal_bytes
  unmarshal none h = (returned none, h)
  unmarshal (some b) h = if b.len == 0 then (returned none, h) else unmarshal_bytes b.bytes b.len h
