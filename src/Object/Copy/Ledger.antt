-- ===== src/Object/Copy/Ledger.antt =====
-- What ObjectCopy and ObjectFree do to the allocator's blocks.
use haze.Base.{
  ℕ, zero, suc, ◌+◌, ◌-◌, ◌≤◌, ◌≡◌, refl, Option, none, some, List, Bool, true, false, arith,
  Option-cases, inl, inr, Bool-cases,
}
use haze.Memory.{Heap, M, alloc, free, live-alloc, live-realloc}
use haze.Buffer
use haze.Buffer.{RawBuffer}
use haze.Object.{
  Value, Object, Slots, ObjectArray, str, bin, array, map_pair, object, end, slot, hole,
}
use haze.Object.Copy.{
  snoc, freed_str, freed_bin, free_value, free_object, free_slots, free_array, create_array, grow,
  array_of, bin_of, append_copy, copy_value, copy, copy_into,
}

-- The blocks that ObjectFree gives back.
abbrev mutual
  pub freed_value : Value → ℕ
  freed_value (str s) = freed_str s
  freed_value (bin b) = freed_bin b
  freed_value (array slots capacity) = freed_slots slots + 2
  freed_value _ = 0

  pub freed : Object → ℕ
  freed (object v size) = freed_value v + 1

  pub freed_slots : Slots → ℕ
  freed_slots end = 0
  freed_slots (slot o rest) = freed o + freed_slots rest
  freed_slots (hole rest) = freed_slots rest

freed_slots-snoc : (s : Slots) (o : Object) → freed_slots (snoc s o) ≡ freed_slots s + freed o
freed_slots-snoc end o = omega arith
freed_slots-snoc (slot p rest) o = omega (arith, freed_slots-snoc rest o)
freed_slots-snoc (hole rest) o = freed_slots-snoc rest o

mutual
  unfolding free_object

  live-free_value :
      (v : Value) (h : Heap) → (free_value v h).1 ≡ record h { live = h.live - freed_value v }
  live-free_value (str s) h = refl
  live-free_value (array slots capacity) h = ground (arith, live-free_slots slots h)
  live-free_value _ h = ground arith

  live-free_object :
      (o : Object) (h : Heap) → (free_object o h).1 ≡ record h { live = h.live - freed o }
  live-free_object (object v size) h = ground (arith, live-free_value v h)

  live-free_slots :
      (s : Slots) (h : Heap) → (free_slots s h).1 ≡ record h { live = h.live - freed_slots s }
  live-free_slots end h = ground arith
  live-free_slots (slot o rest) h =
      ground (arith, live-free_object o h, live-free_slots rest (free_object o h).1)
  live-free_slots (hole rest) h = live-free_slots rest h

abbrev leak_bytes : Option (List ℕ) → ℕ → ℕ
leak_bytes (some bytes) (suc n) = 1
leak_bytes _ _ = 0

abbrev leak_bin : Option RawBuffer → ℕ
leak_bin none = 0
leak_bin (some b) = leak_bytes b.bytes b.len

-- The data blocks that a copy of the value owns and that ObjectFree of the copy leaves behind.
abbrev mutual
  pub leaks_value : Value → ℕ
  leaks_value (bin b) = leak_bin b
  leaks_value (array slots capacity) = leaks_slots slots
  leaks_value _ = 0

  pub leaks : Object → ℕ
  leaks (object v size) = leaks_value v

  pub leaks_slots : Slots → ℕ
  leaks_slots end = 0
  leaks_slots (slot o rest) = leaks o + leaks_slots rest
  leaks_slots (hole rest) = leaks_slots rest

-- From `h` to `h'` a result came to own what ObjectFree gives back for it, and `l` blocks beside it;
-- without a result at most `l` blocks were left behind.
abbrev pub Accounts : ℕ → Option ℕ → ℕ → ℕ → Type 0
Accounts l none before after = (before ≤ after) × (after ≤ before + l)
Accounts l (some held) before after = after ≡ before + held + l

abbrev pub held : Option Object → Option ℕ
held none = none
held (some o) = some (freed o)

abbrev held_value : Option Value → Option ℕ
held_value none = none
held_value (some v) = some (freed_value v)

abbrev pub held_array : Option ObjectArray → Option ℕ
held_array none = none
held_array (some a) = some (freed_slots a.slots + 2)

abbrev pub Step : ℕ → (Bool × ObjectArray) → ObjectArray → ℕ → ℕ → Type 0
Step l (false, a') a before after = (a'.slots ≡ a.slots) × (before ≤ after) × (after ≤ before + l)
Step l (true, a') a before after = after + freed_slots a.slots ≡ before + freed_slots a'.slots + l

live-grow :
    (a : ObjectArray) (h : Heap) → ((grow a h).1.live ≡ h.live) × ((grow a h).0.1.slots ≡ a.slots)
unfolding grow
live-grow a h = (ground (arith, live-realloc h), ground arith)

pub append_copy-Step :
    (a : ObjectArray) (act : M (Option Object)) (l : ℕ)
    → ((h : Heap) → Accounts l (held (act h).0) h.live (act h).1.live)
    → (h : Heap) → Step l (append_copy a act h).0 a h.live (append_copy a act h).1.live
unfolding append_copy
append_copy-Step a act l k h = elim (Bool-cases (grow a h).0.0) [
  | inr full ↦ ground (arith, live-grow a h)
  | inl room ↦ elim (Option-cases (act (grow a h).1).0) [
    | inl e ↦ ground (arith, live-grow a h, k (grow a h).1)
    | inr (o, e) ↦
        ground (arith, live-grow a h, k (grow a h).1, freed_slots-snoc (grow a h).0.1.slots o)
  ]
]

-- The same for the loop of ObjectArrayCopy, which was given `d` blocks to keep or to give back.
abbrev Into : ℕ → ℕ → Option ℕ → ℕ → ℕ → Type 0
Into l d none before after = (before ≤ after + d) × (after + d ≤ before + l)
Into l d (some kept) before after = after + d ≡ before + kept + l

pub live-create_array :
    (h : Heap) → Accounts 0 (held_array (create_array h).0) h.live (create_array h).1.live
unfolding create_array free
live-create_array h = ground (arith, live-alloc h, live-alloc (alloc h).1)

pub live-free_array :
    (a : ObjectArray) (h : Heap) → (free_array a h).1.live ≡ h.live - (freed_slots a.slots + 2)
unfolding free_array free
live-free_array a h = ground (arith, live-free_slots a.slots h)

live-dup_bin :
    (b : RawBuffer) (h : Heap)
    → Accounts
        (leak_bytes b.bytes b.len)
        (held_value (bin_of (Buffer.dup b h).0))
        h.live
        (Buffer.dup b h).1.live
unfolding Buffer.dup
live-dup_bin b h = go b.bytes b.len
  where
    go :
        (bytes : Option (List ℕ)) (n : ℕ)
        → Accounts
            (leak_bytes bytes n)
            (held_value (bin_of (Buffer.new bytes n h).0))
            h.live
            (Buffer.new bytes n h).1.live
    go none n = ground (arith, live-alloc h)
    go (some bytes) zero = ground (arith, live-alloc h)
    go (some bytes) (suc n) = ground (arith, live-alloc h, live-alloc (alloc h).1)

Into-array_of :
    (a : Option ObjectArray) (l d before middle after : ℕ)
    → middle ≡ before + d
    → Into l d (held_array a) middle after
    → Accounts l (held_value (array_of a)) before after
Into-array_of none l d before middle after e i = ground arith
Into-array_of (some a) l d before middle after e i = ground arith

Into-chain :
    (r : Option ℕ) (l m d d' before middle after : ℕ)
    → middle + d ≡ before + d' + l
    → Into m d' r middle after
    → Into (l + m) d r before after
Into-chain none l m d d' before middle after e i = omega arith
Into-chain (some k) l m d d' before middle after e i = omega arith

mutual
  unfolding copy free

  live-copy_value :
      (v : Value) (h : Heap)
      → Accounts (leaks_value v) (held_value (copy_value v h).0) h.live (copy_value v h).1.live
  live-copy_value (str (some s)) h = ground (arith, live-alloc h)
  live-copy_value (bin (some b)) h = live-dup_bin b h
  live-copy_value (array slots capacity) h = elim (Option-cases (create_array h).0) [
    | inl e ↦ ground (arith, live-create_array h)
    | inr (a, e) ↦ rw e (
        Into-array_of (copy_into slots (some a) (create_array h).1).0 (leaks_slots slots)
          (freed_slots a.slots + 2) h.live (create_array h).1.live _
          (ground (arith, live-create_array h))
          (live-copy_into slots a (create_array h).1 (ground (arith, live-create_array h))))
  ]
  live-copy_value (map_pair k v) h = ground arith
  live-copy_value _ h = ground arith

  pub live-copy :
      (o : Object) (h : Heap) → Accounts (leaks o) (held (copy o h).0) h.live (copy o h).1.live
  live-copy (object v size) h = elim (Option-cases (copy_value v (alloc h).1).0) [
    | inl e ↦ ground (arith, live-alloc h, live-copy_value v (alloc h).1)
    | inr (w, e) ↦ ground (arith, live-alloc h, live-copy_value v (alloc h).1)
  ]

  live-copy_into :
      (slots : Slots) (dst : ObjectArray) (h : Heap)
      → freed_slots dst.slots + 2 ≤ h.live
      → Into
          (leaks_slots slots)
          (freed_slots dst.slots + 2)
          (held_array (copy_into slots (some dst) h).0)
          h.live
          (copy_into slots (some dst) h).1.live
  live-copy_into end dst h room = ground arith
  live-copy_into (hole rest) dst h room = ground (arith, live-free_array dst h)
  live-copy_into (slot o rest) dst h room =
      let step = append_copy-Step dst (copy o) (leaks o) (live-copy o) h in
      elim (Bool-cases (append_copy dst (copy o) h).0.0) [
        | inl e ↦ rw e (
            Into-chain _ (leaks o) (leaks_slots rest) (freed_slots dst.slots + 2)
              (freed_slots (append_copy dst (copy o) h).0.1.slots + 2) h.live
              (append_copy dst (copy o) h).1.live _ (ground arith)
              (live-copy_into rest (append_copy dst (copy o) h).0.1 (append_copy dst (copy o) h).1
                (ground arith)))
        | inr e ↦ rw e (
            ground (
              arith,
              live-free_array (append_copy dst (copy o) h).0.1 (append_copy dst (copy o) h).1,
            ))
      ]

-- ObjectFree of a result of ObjectCopy, if there is one.
abbrev pub discard : Option Object × Heap → Heap
discard (none, h) = h
discard (some c, h) = (free_object c h).1

-- Whatever the allocator answers, ObjectCopy of an object that holds no data-carrying bin, and
-- ObjectFree of what it returned, leave as many blocks as there were.
pub copy_balanced : (o : Object) (h : Heap) → leaks o ≡ 0 → (discard (copy o h)).live ≡ h.live
copy_balanced o h e = elim (Option-cases (copy o h).0) [
  | inl f ↦ ground (arith, live-copy o h)
  | inr (c, f) ↦ ground (arith, live-copy o h, live-free_object c (copy o h).1)
]

-- ObjectCopy and then ObjectFree of the copy leave one block more for each data-carrying bin.
pub copy-leaks :
    (o c : Object) (h : Heap) → (copy o h).0 ≡ some c → (discard (copy o h)).live ≡ h.live + leaks o
copy-leaks o c h e = ground (arith, live-copy o h, live-free_object c (copy o h).1)
