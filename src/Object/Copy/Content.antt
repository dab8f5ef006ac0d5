-- ===== src/Object/Copy/Content.antt =====
-- What a copy by ObjectCopy holds, and when there is one.
use haze.Base.{
  ℕ, zero, suc, ◌≡◌, refl, Option, none, some, List, Bool, true, false, arith, Option-cases, inl,
  inr, Bool-cases, take, take-take, ap, ◌∙◌,
}
use haze.Memory.{Heap, M, IsAmple, alloc-IsAmple, realloc-IsAmple, alloc, free}
use haze.Buffer
use haze.Buffer.{RawBuffer}
use haze.Object.{
  Value, Object, Slots, ObjectArray, str, bin, array, null_map, map_pair, map_table, object, end,
  slot, hole,
}
use haze.Object.Copy.{
  snoc, create_array, grow, array_of, bin_of, append_copy, copy_value, copy, copy_into,
}

abbrev pub canonical_bytes : Option (List ℕ) → ℕ → RawBuffer
canonical_bytes (some bytes) (suc n) = record { bytes = some (take (suc n) bytes); len = suc n }
canonical_bytes _ _ = record { bytes = none; len = 0 }

-- The object without what ObjectCopy does not keep: the capacities of arrays, bytes behind a
-- buffer's length, and the contents of maps.
unfoldable mutual
  pub canonical_value : Value → Value
  canonical_value (bin (some b)) = bin (some (canonical_bytes b.bytes b.len))
  canonical_value (array slots capacity) = array (canonical_slots slots) 0
  canonical_value (map_pair k v) = null_map
  canonical_value (map_table pairs capacity) = null_map
  canonical_value v = v

  pub canonical : Object → Object
  canonical (object v size) = object (canonical_value v) size

  pub canonical_slots : Slots → Slots
  canonical_slots end = end
  canonical_slots (slot o rest) = slot (canonical o) (canonical_slots rest)
  canonical_slots (hole rest) = hole (canonical_slots rest)

abbrev pub join : Slots → Slots → Slots
join end t = t
join (slot o rest) t = slot o (join rest t)
join (hole rest) t = hole (join rest t)

pub canonical-snoc :
    (s : Slots) (o : Object) → canonical_slots (snoc s o) ≡ snoc (canonical_slots s) (canonical o)
unfolding canonical
canonical-snoc end o = refl
canonical-snoc (slot p rest) o = ap (slot (canonical p)) (canonical-snoc rest o)
canonical-snoc (hole rest) o = ap hole (canonical-snoc rest o)

pub join-snoc : (s : Slots) (o : Object) (t : Slots) → join (snoc s o) t ≡ join s (slot o t)
join-snoc end o t = refl
join-snoc (slot p rest) o t = ap (slot p) (join-snoc rest o t)
join-snoc (hole rest) o t = ap hole (join-snoc rest o t)

pub join-end : (s : Slots) → join s end ≡ s
join-end end = refl
join-end (slot o rest) = ap (slot o) (join-end rest)
join-end (hole rest) = ap hole (join-end rest)

-- `r`, if it is there, has the content of `o`.
abbrev pub Same : Option Object → Object → Type 0
Same none o = Unit
Same (some c) o = canonical c ≡ canonical o

abbrev pub SameValue : Option Value → Value → Type 0
SameValue none v = Unit
SameValue (some w) v = canonical_value w ≡ canonical_value v

abbrev Joined : Option ObjectArray → Slots → Slots → Type 0
Joined none before slots = Unit
Joined (some a) before slots =
    canonical_slots a.slots ≡ join (canonical_slots before) (canonical_slots slots)

abbrev pub Appended : (Bool × ObjectArray) → Slots → Object → Type 0
Appended (false, a) before o = Unit
Appended (true, a) before o = canonical_slots a.slots ≡ snoc (canonical_slots before) (canonical o)

pub grow_keeps : (a : ObjectArray) (h : Heap) → (grow a h).0.1.slots ≡ a.slots
unfolding grow
grow_keeps a h = ground arith

pub append_copy-Appended :
    (a : ObjectArray) (act : M (Option Object)) (o : Object)
    → ((h : Heap) → Same (act h).0 o)
    → (h : Heap) → Appended (append_copy a act h).0 a.slots o
unfolding append_copy
append_copy-Appended a act o k h = elim (Bool-cases (grow a h).0.0) [
  | inr full ↦ ground arith
  | inl room ↦ elim (Option-cases (act (grow a h).1).0) [
    | inl e ↦ ground arith
    | inr (c, e) ↦
        ground (arith, grow_keeps a h, k (grow a h).1, canonical-snoc (grow a h).0.1.slots c)
  ]
]

create_array_empty : (h : Heap) → Joined (create_array h).0 end end
unfolding create_array canonical
create_array_empty h = ground arith

pub dup-SameValue :
    (b : RawBuffer) (h : Heap) → SameValue (bin_of (Buffer.dup b h).0) (bin (some b))
unfolding Buffer.dup canonical
dup-SameValue b h = go b.bytes b.len
  where
    go :
        (bytes : Option (List ℕ)) (n : ℕ)
        → SameValue
            (bin_of (Buffer.new bytes n h).0)
            (bin (some (record { bytes = bytes; len = n })))
    go none n = ground arith
    go (some bytes) zero = ground arith
    go (some bytes) (suc n) = elim (Bool-cases (alloc h).0) [
      | inr e ↦ rw e tt
      | inl e ↦ elim (Bool-cases (alloc (alloc h).1).0) [
        | inr f ↦ rw (e, f) tt
        | inl f ↦
            rw (e, f)
              (ap (λ (t : List ℕ). bin (some (record { bytes = some t; len = suc n })))
                (take-take (suc n) bytes))
      ]
    ]

Joined-chain :
    (r : Option ObjectArray) (middle before rest : Slots) (o : Object)
    → canonical_slots middle ≡ snoc (canonical_slots before) (canonical o)
    → Joined r middle rest
    → Joined r before (slot o rest)
unfolding canonical
Joined-chain none middle before rest o e j = tt
Joined-chain (some a) middle before rest o e j =
    j
    ∙ ap (λ s. join s (canonical_slots rest)) e
    ∙ join-snoc (canonical_slots before) (canonical o) (canonical_slots rest)

mutual
  unfolding copy canonical free

  copy_value-SameValue : (v : Value) (h : Heap) → SameValue (copy_value v h).0 v
  copy_value-SameValue (str (some s)) h = ground arith
  copy_value-SameValue (bin (some b)) h = dup-SameValue b h
  copy_value-SameValue (array slots capacity) h = elim (Option-cases (create_array h).0) [
    | inl e ↦ ground arith
    | inr (a, e) ↦ ground (arith, create_array_empty h, copy_into-Joined slots a (create_array h).1)
  ]
  copy_value-SameValue (map_pair k v) h = refl
  copy_value-SameValue _ h = ground arith

  pub copy-Same : (o : Object) (h : Heap) → Same (copy o h).0 o
  copy-Same (object v size) h = elim (Option-cases (copy_value v (alloc h).1).0) [
    | inl e ↦ ground arith
    | inr (w, e) ↦ ground (arith, copy_value-SameValue v (alloc h).1)
  ]

  copy_into-Joined :
      (slots : Slots) (dst : ObjectArray) (h : Heap)
      → Joined (copy_into slots (some dst) h).0 dst.slots slots
  copy_into-Joined end dst h = ground (arith, join-end (canonical_slots dst.slots))
  copy_into-Joined (hole rest) dst h = ground arith
  copy_into-Joined (slot o rest) dst h =
      let step = append_copy-Appended dst (copy o) o (copy-Same o) h in
      elim (Bool-cases (append_copy dst (copy o) h).0.0) [
        | inr e ↦ rw e (ground arith)
        | inl e ↦ rw e (
            Joined-chain _ (append_copy dst (copy o) h).0.1.slots dst.slots rest o (ground arith) (
              copy_into-Joined rest (append_copy dst (copy o) h).0.1
                (append_copy dst (copy o) h).1))
      ]

-- Every array in the object holds objects alone, no null pointer.
abbrev mutual
  pub IsFullValue : Value → Type 0
  IsFullValue (array slots capacity) = IsFullSlots slots
  IsFullValue _ = Unit

  pub IsFull : Object → Type 0
  IsFull (object v size) = IsFullValue v

  pub IsFullSlots : Slots → Type 0
  IsFullSlots end = Unit
  IsFullSlots (slot o rest) = IsFull o × IsFullSlots rest
  IsFullSlots (hole rest) = ⊥

-- The result is there, and memory is ample still.
abbrev pub Total {ℓ} : {A : Type ℓ} → Option A → Heap → Type 0
Total none h = ⊥
Total (some _) h = IsAmple h

abbrev pub Went : Bool → Heap → Type 0
Went false h = ⊥
Went true h = IsAmple h

pub grow-Went : (a : ObjectArray) (h : Heap) → IsAmple h → Went (grow a h).0.0 (grow a h).1
unfolding grow
grow-Went a h e = ground (arith, realloc-IsAmple h)

pub append_copy-Went :
    (a : ObjectArray) (act : M (Option Object)) (h : Heap)
    → ((g : Heap) → IsAmple g → Total (act g).0 (act g).1)
    → IsAmple h
    → Went (append_copy a act h).0.0 (append_copy a act h).1
unfolding append_copy
append_copy-Went a act h k e = ground (arith, grow-Went a h, k (grow a h).1)

create_array-Total : (h : Heap) → IsAmple h → Total (create_array h).0 (create_array h).1
unfolding create_array
create_array-Total h e = ground (arith, alloc-IsAmple h, alloc-IsAmple (alloc h).1)

pub dup-Total :
    (b : RawBuffer) (h : Heap) → IsAmple h → Total (bin_of (Buffer.dup b h).0) (Buffer.dup b h).1
unfolding Buffer.dup
dup-Total b h e = go b.bytes b.len
  where
    go :
        (bytes : Option (List ℕ)) (n : ℕ)
        → Total (bin_of (Buffer.new bytes n h).0) (Buffer.new bytes n h).1
    go none n = ground (arith, alloc-IsAmple h)
    go (some bytes) zero = ground (arith, alloc-IsAmple h)
    go (some bytes) (suc n) = ground (arith, alloc-IsAmple h, alloc-IsAmple (alloc h).1)

Total-array_of : (r : Option ObjectArray) (h : Heap) → Total r h → Total (array_of r) h
Total-array_of (some a) h t = t
Total-array_of none h t = t

mutual
  unfolding copy

  copy_value-Total :
      (v : Value) (h : Heap)
      → IsAmple h
      → IsFullValue v
      → Total (copy_value v h).0 (copy_value v h).1
  copy_value-Total (str (some s)) h e f = ground (arith, alloc-IsAmple h)
  copy_value-Total (bin (some b)) h e f = dup-Total b h e
  copy_value-Total (array slots capacity) h e f = elim (Option-cases (create_array h).0) [
    | inl g ↦ ground (arith, create_array-Total h)
    | inr (a, g) ↦ rw g (
        Total-array_of _ _
          (copy_into-Total slots a (create_array h).1 (ground (arith, create_array-Total h)) f))
  ]
  copy_value-Total (map_pair k v) h e f = e
  copy_value-Total _ h e f = e

  pub copy-Total : (o : Object) (h : Heap) → IsAmple h → IsFull o → Total (copy o h).0 (copy o h).1
  copy-Total (object v size) h e f = elim (Option-cases (copy_value v (alloc h).1).0) [
    | inl g ↦ ground (arith, alloc-IsAmple h, copy_value-Total v (alloc h).1)
    | inr (w, g) ↦ ground (arith, alloc-IsAmple h, copy_value-Total v (alloc h).1)
  ]

  copy_into-Total :
      (slots : Slots) (dst : ObjectArray) (h : Heap)
      → IsAmple h
      → IsFullSlots slots
      → Total (copy_into slots (some dst) h).0 (copy_into slots (some dst) h).1
  copy_into-Total end dst h e f = e
  copy_into-Total (hole rest) dst h e f = absurd f
  copy_into-Total (slot o rest) dst h e f =
      let step = append_copy-Went dst (copy o) h (λ g a. copy-Total o g a f.0) e in
      elim (Bool-cases (append_copy dst (copy o) h).0.0) [
        | inr g ↦ absurd (ground arith)
        | inl g ↦ rw g (
            copy_into-Total rest (append_copy dst (copy o) h).0.1 (append_copy dst (copy o) h).1
              (ground arith) f.1)
      ]

-- With ample memory ObjectCopy of an object whose arrays hold no null pointer returns a copy, and
-- the copy has the object's content: all but the capacities of arrays, bytes behind a buffer's
-- length, and what maps hold.
pub copy_faithful :
    (o : Object) (h : Heap)
    → IsAmple h
    → IsFull o
    → (c : Object) × ((copy o h).0 ≡ some c) × (canonical c ≡ canonical o)
copy_faithful o h e f = elim (Option-cases (copy o h).0) [
  | inl g ↦ absurd (ground (arith, copy-Total o h))
  | inr (c, g) ↦ (c, g, ground (arith, copy-Same o h))
]
