-- ===== src/Object/Array/Laws.antt =====
-- Appending to, reading and removing from an ObjectArray.
use haze.Base.{
  ℕ, zero, suc, ◌+◌, ◌^◌, ◌≤◌, ◌<◌, ◌≡◌, refl, ap, Option, none, some, true, false, ltb, ◌==◌,
  arith, if◌then◌else◌, Option-cases, inl, inr,
}
use haze.Memory.{Heap, IsAmple}
use haze.Object.{Object, Slots, ObjectArray, end, slot, hole}
use haze.Object.Copy.{count, snoc, append_copy, grow, copy}
use haze.Object.Copy.Content.{IsFull, canonical, copy_faithful, grow_keeps, grow-Went}
use haze.Object.Array.{append, at, get, shift, remove, len}

pub count-snoc : (s : Slots) (o : Object) → count (snoc s o) ≡ suc (count s)
count-snoc end o = refl
count-snoc (slot p rest) o = ap suc (count-snoc rest o)
count-snoc (hole rest) o = ap suc (count-snoc rest o)

at-snoc :
    (s : Slots) (o : Object) (i : ℕ)
    → at (snoc s o) i
      ≡ (if ltb i (count s) then at s i else (if i == count s then some o else none))
at-snoc end o zero = refl
at-snoc end o (suc i) = ground arith
at-snoc (slot p rest) o zero = ground arith
at-snoc (slot p rest) o (suc i) = ground (arith, at-snoc rest o i)
at-snoc (hole rest) o zero = ground arith
at-snoc (hole rest) o (suc i) = ground (arith, at-snoc rest o i)

count-shift : (s : Slots) (i : ℕ) → i < count s → count (shift s i) + 1 ≡ count s
count-shift end i h = absurd (omega arith)
count-shift (slot o rest) zero h = omega arith
count-shift (hole rest) zero h = omega arith
count-shift (slot o rest) (suc i) h = omega (arith, count-shift rest i)
count-shift (hole rest) (suc i) h = omega (arith, count-shift rest i)

at-shift : (s : Slots) (i j : ℕ) → at (shift s i) j ≡ (if ltb j i then at s j else at s (suc j))
at-shift end i j = ground arith
at-shift (slot o rest) zero j = ground arith
at-shift (hole rest) zero j = ground arith
at-shift (slot o rest) (suc i) zero = ground arith
at-shift (slot o rest) (suc i) (suc j) = ground (arith, at-shift rest i j)
at-shift (hole rest) (suc i) zero = ground arith
at-shift (hole rest) (suc i) (suc j) = ground (arith, at-shift rest i j)

-- The array has room for its elements.
pub record HasRoom (a : ObjectArray) : Type 0 where
  pub fits : count a.slots ≤ a.capacity
  pub positive : 0 < a.capacity

grow-HasRoom :
    (a : ObjectArray) (h : Heap)
    → HasRoom a
    → a.capacity < 2 ^ 63
    → HasRoom (grow a h).0.1
      × ((grow a h).0.0 ≡ true → count (grow a h).0.1.slots < (grow a h).0.1.capacity)
unfolding grow
grow-HasRoom a h v b = (ground arith, ground arith)

-- On every branch of ObjectArrayAppend the array keeps room for its elements, below the capacity
-- at which doubling would overflow size_t.
pub append-HasRoom :
    (a : ObjectArray) (o : Option Object) (h : Heap)
    → HasRoom a
    → a.capacity < 2 ^ 63
    → HasRoom (append a o h).0.1
unfolding append append_copy
append-HasRoom a none h v b = v
append-HasRoom a (some o) h v b = elim (Option-cases (copy o (grow a h).1).0) [
  | inl e ↦ ground (arith, grow-HasRoom a h v b)
  | inr (c, e) ↦ ground (arith, grow-HasRoom a h v b, count-snoc (grow a h).0.1.slots c)
]

-- An ObjectArrayAppend that returns false leaves the elements as they were, and one that returns
-- true adds one element behind them.
pub append_elements :
    (a : ObjectArray) (o : Option Object) (h : Heap)
    → ((append a o h).0.0 ≡ false → (append a o h).0.1.slots ≡ a.slots)
      × ((append a o h).0.0 ≡ true → count (append a o h).0.1.slots ≡ suc (count a.slots))
unfolding append append_copy
append_elements a none h = (λ e. refl, λ e. cc)
append_elements a (some o) h = elim (Option-cases (copy o (grow a h).1).0) [
  | inl e ↦ (λ f. ground (arith, grow_keeps a h), λ f. ground arith)
  | inr (c, e) ↦ (
    λ f. ground (arith, grow_keeps a h),
    λ f. ground (arith, grow_keeps a h, count-snoc (grow a h).0.1.slots c),
  )
]

-- With ample memory ObjectArrayAppend of an object without null elements adds a copy of it behind
-- the elements, and reads of the array then give the elements and that copy.
pub append_reads :
    (a : ObjectArray) (o : Object) (h : Heap)
    → IsAmple h
    → IsFull o
    → (c : Object) × ((append a (some o) h).0.0 ≡ true)
      × (canonical c ≡ canonical o)
      × ((i : ℕ)
          → get (some (append a (some o) h).0.1) i
            ≡ (if i == count a.slots then some c else get (some a) i))
unfolding append append_copy get
append_reads a o h e f =
    let (c, copied, same) = copy_faithful o (grow a h).1 (ground (arith, grow-Went a h)) f in
    (
      c,
      ground (arith, grow-Went a h),
      same,
      λ i. ground (
        arith,
        grow-Went a h,
        grow_keeps a h,
        count-snoc (grow a h).0.1.slots c,
        at-snoc (grow a h).0.1.slots c i,
      ),
    )

-- ObjectArrayRemove at an index of the array drops that element and closes the gap.
pub remove_drops :
    (a : ObjectArray) (i : ℕ) (h : Heap)
    → i < count a.slots
    → (b : ObjectArray) × ((remove (some a) i h).0 ≡ (true, some b))
      × (len (some b) + 1 ≡ len (some a))
      × ((j : ℕ) → get (some b) j ≡ (if ltb j i then get (some a) j else get (some a) (suc j)))
unfolding remove get len
remove_drops a i h p = (
  record a { slots = shift a.slots i },
  ground arith,
  count-shift a.slots i p,
  λ j. ground (arith, at-shift a.slots i j, count-shift a.slots i),
)
