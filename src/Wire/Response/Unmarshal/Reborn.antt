-- ===== src/Wire/Response/Unmarshal/Reborn.antt =====
-- The objects that ObjectUnmarshalMPack reads back, and copies of their bytes.
use haze.Base.{
  ℕ, zero, suc, ◌≡◌, refl, ◌<◌, ℤ, pos, negsuc, Option, none, some, List, length, IsText, arith,
  take, Option-cases, inl, inr,
}
use haze.Memory.{Heap, IsAmple}
use haze.Buffer
use haze.Buffer.{RawBuffer}
use haze.Object.{
  Value, Object, Slots, nil, bool, int, uint, float, double, str, bin, array, object, end, slot,
  hole,
}
use haze.Object.Copy.{count}
use haze.Object.Copy.Content.{
  canonical, canonical_value, canonical_slots, canonical_bytes, IsFull, IsFullSlots, dup-Total,
  dup-SameValue,
}
use haze.Wire.Encode.{u32_mod, IsInside, IsInsideValue, IsInsideSlots}

abbrev pub HasBytes : Option (List ℕ) → ℕ → Type 0
HasBytes none n = Unit
HasBytes (some bytes) n = (length (take n bytes) ≡ n) × (n < u32_mod)

-- A string has its length for its size, below 2 ^ 32, and holds no 0; a bin with bytes has as many as
-- it says; an array holds fewer than 2 ^ 32 objects and no null pointer.
abbrev mutual
  pub IsWholeValue : Value → ℕ → Type 0
  IsWholeValue (str (some s)) size = (size ≡ length s) × IsText s × (length s < u32_mod)
  IsWholeValue (bin (some b)) size = HasBytes b.bytes b.len
  IsWholeValue (array slots capacity) size = (count slots < u32_mod) × IsWholeSlots slots
  IsWholeValue _ size = Unit

  pub IsWhole : Object → Type 0
  IsWhole (object v size) = IsWholeValue v size

  pub IsWholeSlots : Slots → Type 0
  IsWholeSlots end = Unit
  IsWholeSlots (hole rest) = ⊥
  IsWholeSlots (slot o rest) = IsWhole o × IsWholeSlots rest

mutual
  WholeValue-IsInside : (v : Value) (size : ℕ) → IsWholeValue v size → IsInsideValue v size
  WholeValue-IsInside (str (some s)) size f = omega (arith, f.0)
  WholeValue-IsInside (array slots capacity) size f = WholeSlots-IsInside slots f.1
  WholeValue-IsInside _ size f = tt

  pub Whole-IsInside : (o : Object) → IsWhole o → IsInside o
  Whole-IsInside (object v size) f = WholeValue-IsInside v size f

  WholeSlots-IsInside : (s : Slots) → IsWholeSlots s → IsInsideSlots s
  WholeSlots-IsInside end f = tt
  WholeSlots-IsInside (hole rest) f = absurd f
  WholeSlots-IsInside (slot o rest) f = (Whole-IsInside o f.0, WholeSlots-IsInside rest f.1)

abbrev pub reborn_int : ℤ → Object
reborn_int (pos n) = object (uint n) 8
reborn_int (negsuc n) = object (int (negsuc n)) 8

abbrev pub reborn_bin : Option (List ℕ) → ℕ → Object
reborn_bin none n = object nil 0
reborn_bin (some bytes) n = object (bin (some (canonical_bytes (some bytes) n))) n

-- The object as it comes back: an integer of no sign as unsigned, an array with the size 0, and nil
-- for what has no encoding of its own.
unfoldable mutual
  pub reborn_value : Value → Object
  reborn_value (bool b) = object (bool b) 1
  reborn_value (int z) = reborn_int z
  reborn_value (uint n) = object (uint n) 8
  reborn_value (float x) = object (float x) 4
  reborn_value (double x) = object (double x) 8
  reborn_value (str (some s)) = object (str (some s)) (length s)
  reborn_value (bin (some b)) = reborn_bin b.bytes b.len
  reborn_value (array slots capacity) = object (array (reborn_slots slots) 0) 0
  reborn_value v = object nil 0

  pub reborn : Object → Object
  reborn (object v size) = reborn_value v

  pub reborn_slots : Slots → Slots
  reborn_slots end = end
  reborn_slots (hole rest) = reborn_slots rest
  reborn_slots (slot o rest) = slot (reborn o) (reborn_slots rest)

reborn_int-IsFull : (z : ℤ) → IsFull (canonical (reborn_int z))
unfolding canonical
reborn_int-IsFull (pos n) = tt
reborn_int-IsFull (negsuc n) = tt

reborn_bin-IsFull : (bytes : Option (List ℕ)) (n : ℕ) → IsFull (canonical (reborn_bin bytes n))
unfolding canonical
reborn_bin-IsFull none n = tt
reborn_bin-IsFull (some bytes) n = tt

mutual
  unfolding reborn_value canonical

  reborn_value-IsFull : (v : Value) → IsFull (canonical (reborn_value v))
  reborn_value-IsFull (int z) = reborn_int-IsFull z
  reborn_value-IsFull (array slots capacity) = reborn_slots-IsFull slots
  reborn_value-IsFull (str (some s)) = tt
  reborn_value-IsFull (bin (some b)) = reborn_bin-IsFull b.bytes b.len
  reborn_value-IsFull _ = tt

  pub reborn-IsFull : (o : Object) → IsFull (canonical (reborn o))
  reborn-IsFull (object v size) = reborn_value-IsFull v

  reborn_slots-IsFull : (s : Slots) → IsFullSlots (canonical_slots (reborn_slots s))
  reborn_slots-IsFull end = tt
  reborn_slots-IsFull (hole rest) = reborn_slots-IsFull rest
  reborn_slots-IsFull (slot o rest) = (reborn-IsFull o, reborn_slots-IsFull rest)

-- With ample memory there is a copy of these bytes.
pub new_there :
    (bytes : List ℕ) (n : ℕ) (h : Heap)
    → IsAmple h
    → (x : RawBuffer) × ((Buffer.new (some bytes) n h).0 ≡ some x)
      × (canonical_value (bin (some x))
          ≡ canonical_value (bin (some (record { bytes = some bytes; len = n }))))
      × IsAmple (Buffer.new (some bytes) n h).1
unfolding Buffer.dup canonical
new_there bytes n h e = elim (Option-cases (Buffer.new (some bytes) n h).0) [
  | inl g ↦ absurd (ground (arith, dup-Total (record { bytes = some bytes; len = n }) h))
  | inr (x, g) ↦ (
    x,
    g,
    ground (arith, dup-SameValue (record { bytes = some bytes; len = n }) h),
    ground (arith, dup-Total (record { bytes = some bytes; len = n }) h),
  )
]

pub bin_same :
    (bytes : List ℕ) (n : ℕ)
    → canonical_value (bin (some (record { bytes = some (take n bytes); len = n })))
      ≡ canonical_value (bin (some (canonical_bytes (some bytes) n)))
unfolding canonical
bin_same bytes zero = refl
bin_same bytes (suc n) = refl
