-- ===== src/Buffer/Ledger.antt =====
-- What the functions of source/RawBuffer.c do to the allocator's blocks and to the bytes.
use haze.Base.{
  ℕ, zero, suc, ◌+◌, ◌≤◌, ◌<◌, ◌≡◌, refl, ap, Option, none, some, List, ◌++◌, Bool, true, false,
  arith, length, take, take-length, length-take, length-take-le,
}
use haze.Memory.{Heap, alloc, realloc, live-alloc}
use haze.Buffer.{RawBuffer, new, dup, blocks, append, append_grown, write_at, faults}

abbrev pub owned : Option RawBuffer → ℕ
owned none = 0
owned (some b) = blocks b

-- Whatever the allocator answers, RawBufferNew leaves as many blocks more as its result owns.
pub live-new :
    (bytes : Option (List ℕ)) (n : ℕ) (h : Heap)
    → (new bytes n h).1.live ≡ h.live + owned (new bytes n h).0
unfolding new
live-new none n h = ground (arith, live-alloc h)
live-new (some bytes) zero h = ground (arith, live-alloc h)
live-new (some bytes) (suc n) h = ground (arith, live-alloc h, live-alloc (alloc h).1)

-- Whatever the allocator answers, RawBufferDup leaves as many blocks more as its result owns.
pub live-dup : (b : RawBuffer) (h : Heap) → (dup b h).1.live ≡ h.live + owned (dup b h).0
unfolding dup
live-dup b h = live-new b.bytes b.len h

-- A copy by RawBufferDup that succeeds holds the bytes and the length of a buffer that has both.
pub dup_copies :
    (block : List ℕ) (n : ℕ) (h : Heap) (c : RawBuffer)
    → length block ≡ suc n
    → (dup (record { bytes = some block; len = suc n }) h).0 ≡ some c
    → c ≡ record { bytes = some block; len = suc n }
unfolding dup
dup_copies block n h c sized e =
    ground (arith, ap (λ (k : ℕ). take k block) sized, take-length block)

write_at_behind :
    (block src : List ℕ) (at : ℕ)
    → length block ≤ at
    → 0 < length src
    → write_at block at src ≡ none
unfolding write_at
write_at_behind block src at h k = ground arith

grown_faults :
    (b : RawBuffer) (block src fresh : List ℕ) (n : ℕ) (ok : Bool)
    → length src ≡ suc n
    → append_grown b block src (suc n) fresh ok ≡ faults
unfolding append_grown
grown_faults b block src fresh n false h = refl
grown_faults b block src fresh n true h = rw (
    write_at_behind (take (b.len + suc n) (block ++ fresh)) (take (suc n) src) (b.len + suc n)
      (length-take-le _ _) (omega (arith, length-take (suc n) src)))

-- Every RawBufferAppend of some bytes to a buffer with data writes outside the block that realloc
-- gave, whatever the allocator answers.
pub append_faults :
    (b : RawBuffer) (block src fresh : List ℕ) (n : ℕ) (h : Heap)
    → b.bytes ≡ some block
    → length src ≡ suc n
    → (append b src (suc n) fresh h).0 ≡ faults
unfolding append
append_faults b block src fresh n h e n_src =
    rw e (grown_faults b block src fresh n (realloc h).0 n_src)
