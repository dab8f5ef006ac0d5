-- ===== src/Object/Copy.antt =====
-- Object.c: ObjectCopy, ObjectFree and the functions on ObjectArray that they call and that call
-- them.
pub mod Ledger
pub mod Ample
pub mod Content
use haze.Base.{
  ℕ, suc, ◌+◌, ◌*◌, ◌%◌, Option, none, some, List, Bool, true, false, leb, if◌then◌else◌,
}
use haze.Memory.{M, pure, ◌>>=◌, ◌>>◌, alloc, realloc, free}
use haze.Buffer
use haze.Buffer.{RawBuffer}
use haze.Object.{
  Value, Object, Slots, Pairs, ObjectArray, und, nil, bool, int, uint, float, double, str, bin,
  array, null_array, null_map, map_pair, map_table, object, end, slot, hole, initial_capacity,
  size_mod,
}

-- `len` of an ObjectArray
abbrev pub count : Slots → ℕ
count end = 0
count (slot o rest) = suc (count rest)
count (hole rest) = suc (count rest)

-- objects[len] = o
abbrev pub snoc : Slots → Object → Slots
snoc end o = slot o end
snoc (slot p rest) o = slot p (snoc rest o)
snoc (hole rest) o = hole (snoc rest o)

abbrev freed_str : Option (List ℕ) → ℕ
freed_str none = 0
freed_str (some s) = 1

-- free(bin_value) gives back the struct alone.
abbrev freed_bin : Option RawBuffer → ℕ
freed_bin none = 0
freed_bin (some b) = 1

-- ObjectFree and ObjectArrayFree: the blocks are given back from the leaves up.
unfoldable mutual
  unfolding free

  pub free_value : Value → M (Unit {0})
  free_value (str s) = free (freed_str s)
  free_value (bin b) = free (freed_bin b)
  free_value (array slots capacity) = free_slots slots >> free 2
  free_value _ = pure tt

  pub free_object : Object → M (Unit {0})
  free_object (object v size) = free_value v >> free 1

  -- the loop over `objects[i]`
  pub free_slots : Slots → M (Unit {0})
  free_slots end = pure tt
  free_slots (slot o rest) = free_object o >> free_slots rest
  free_slots (hole rest) = free_slots rest

-- ObjectArrayFree of an array that is there.
unfoldable pub free_array : ObjectArray → M (Unit {0})
unfolding free_slots
free_array a = free_slots a.slots >> free 2

-- The second allocation of ObjectArrayCreate.
created : Bool → M (Option ObjectArray)
unfolding free
created true = pure (some (record { slots = end; capacity = initial_capacity }))
created false = do free 1; pure none

-- ObjectArrayCreate
unfoldable pub create_array : M (Option ObjectArray)
unfolding created
create_array = do ok ← alloc; if ok then (do inner ← alloc; created inner) else pure none

-- The capacity test of ObjectArrayAppend: doubles a full array, unless realloc fails.
unfoldable pub grow : ObjectArray → M (Bool × ObjectArray)
grow a =
    if leb a.capacity (count a.slots)
    then (do
      ok ← realloc
      pure (ok, if ok then record a { capacity = a.capacity * 2 % size_mod } else a))
    else pure (true, a)

store : ObjectArray → Option Object → Bool × ObjectArray
store a none = (false, a)
store a (some o) = (true, record a { slots = snoc a.slots o })

-- ObjectArrayAppend, with `copy` the call ObjectCopy(obj).
unfoldable pub append_copy : ObjectArray → M (Option Object) → M (Bool × ObjectArray)
unfolding store
append_copy a copy = do
  (room, a') ← grow a
  if room then (do o ← copy; pure (store a' o)) else pure (false, a')

abbrev pub array_of : Option ObjectArray → Option Value
array_of none = none
array_of (some a) = some (array a.slots a.capacity)

abbrev pub bin_of : Option RawBuffer → Option Value
bin_of none = none
bin_of (some b) = some (bin (some b))

-- The end of ObjectCopy: the struct is given back if the value could not be copied.
finish : ℕ → Option Value → M (Option Object)
unfolding free
finish size none = do free 1; pure none
finish size (some v) = pure (some (object v size))

-- ObjectCopy and the loop of ObjectArrayCopy. A null value pointer is copied as null; of a map only
-- the type is.
unfoldable mutual
  unfolding finish

  pub copy_value : Value → M (Option Value)
  copy_value (str (some s)) = do ok ← alloc; pure (if ok then some (str (some s)) else none)
  copy_value (bin (some b)) = do d ← Buffer.dup b; pure (bin_of d)
  copy_value (array slots capacity) = do
    dst ← create_array
    copied ← copy_into slots dst
    pure (array_of copied)
  copy_value (map_pair k v) = pure (some null_map)
  copy_value (map_table pairs capacity) = pure (some null_map)
  copy_value v = pure (some v)

  pub copy : Object → M (Option Object)
  copy (object v size) = do
    ok ← alloc
    if ok then (do w ← copy_value v; finish size w) else pure none

  pub copy_into : Slots → Option ObjectArray → M (Option ObjectArray)
  copy_into slots none = pure none
  copy_into end (some dst) = pure (some dst)
  copy_into (hole rest) (some dst) = do free_array dst; pure none
  copy_into (slot o rest) (some dst) = do
    (done, dst') ← append_copy dst (copy o)
    if done then copy_into rest (some dst') else (do free_array dst'; pure none)

-- ObjectArrayCopy
unfoldable pub copy_array : ObjectArray → M (Option ObjectArray)
copy_array src = do dst ← create_array; copy_into src.slots dst
