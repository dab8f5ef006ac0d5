-- ===== src/Buffer.antt =====
-- source/RawBuffer.c and RawBuffer.h: a block of bytes with its length. A null `RawBuffer *` is
-- `none`; so is a null `data`.
pub mod Ledger
use haze.Base.{
  ℕ, zero, suc, ◌+◌, ◌≤◌, ◌≡◌, Option, none, some, List, [], ◌∷◌, ◌++◌, Bool, true, false, ◌||◌,
  ◌==◌, leb, if◌then◌else◌, length, take, drop, replicate,
}
use haze.Memory.{M, pure, ◌>>=◌, ◌>>◌, alloc, realloc, free}

-- The fields of the C struct: `len` is stored, and need not be the size of the block.
pub record RawBuffer : Type 0 where
  pub bytes : Option (List ℕ)
  pub len : ℕ

-- RawBufferInit
unfoldable pub init : Option (List ℕ) → ℕ → RawBuffer
init bytes n = record { bytes = bytes; len = n }

-- The second allocation of RawBufferNew, with the struct already there.
fill : List ℕ → ℕ → Bool → M (Option RawBuffer)
fill bytes n true h = (some (record { bytes = some (take n bytes); len = n }), h)
fill bytes n false h = (do free 1; pure none) h

new_block : Option (List ℕ) → ℕ → M (Option RawBuffer)
unfolding fill free
new_block none n = pure (some (record { bytes = none; len = 0 }))
new_block (some bytes) zero = pure (some (record { bytes = none; len = 0 }))
new_block (some bytes) (suc n) = do ok ← alloc; fill bytes (suc n) ok

-- RawBufferNew: copies `n` bytes, if there are any.
unfoldable pub new : Option (List ℕ) → ℕ → M (Option RawBuffer)
unfolding new_block
new bytes n = do ok ← alloc; if ok then new_block bytes n else pure none

-- RawBufferDup
unfoldable pub dup : RawBuffer → M (Option RawBuffer)
unfolding new
dup b = new b.bytes b.len

-- The blocks of a buffer: the struct, and its data if there is any.
abbrev pub data_blocks : Option (List ℕ) → ℕ
data_blocks none = 0
data_blocks (some _) = 1

abbrev pub blocks : RawBuffer → ℕ
blocks b = 1 + data_blocks b.bytes

-- RawBufferFree
unfoldable pub free_buffer : Option RawBuffer → M (Unit {0})
unfolding free
free_buffer none = pure tt
free_buffer (some b) = free (blocks b)

-- RawBufferData and RawBufferLen
unfoldable pub data_of : Option RawBuffer → Option (List ℕ)
data_of none = none
data_of (some b) = b.bytes

unfoldable pub len_of : Option RawBuffer → ℕ
len_of none = 0
len_of (some b) = b.len

null_or_empty : Option (List ℕ) → ℕ → Bool
null_or_empty none n = true
null_or_empty (some _) n = n == 0

-- RawBufferIsNullOrEmpty
unfoldable pub is_null_or_empty : Option RawBuffer → Bool
unfolding null_or_empty
is_null_or_empty none = true
is_null_or_empty (some b) = null_or_empty b.bytes b.len

-- What memcpy does at an offset of a block: `none` where it would write behind the block's end.
unfoldable pub write_at : List ℕ → ℕ → List ℕ → Option (List ℕ)
write_at block at src =
    if leb (at + length src) (length block)
    then some (take at block ++ src ++ drop (at + length src) block)
    else none

-- The outcome of a call that may write outside its block.
pub data Outcome : Type 0 where
  returns : Bool → RawBuffer → Outcome
  faults : Outcome

stored : ℕ → Option (List ℕ) → Outcome
stored n none = faults
stored n (some block) = returns true (record { bytes = some block; len = n })

-- The block that realloc gives has `n` bytes more, `fresh`; a null one is written to all the same.
append_grown : RawBuffer → List ℕ → List ℕ → ℕ → List ℕ → Bool → Outcome
unfolding write_at stored
append_grown b block src n fresh false = faults
append_grown b block src n fresh true =
    let len = b.len + n in stored len (write_at (take len (block ++ fresh)) len (take n src))

append_to : RawBuffer → Option (List ℕ) → List ℕ → ℕ → List ℕ → M Outcome
unfolding append_grown
append_to b none src n fresh = pure (returns false b)
append_to b (some block) src zero fresh = pure (returns false b)
append_to b (some block) src (suc n) fresh = do
  ok ← realloc
  pure (append_grown b block src (suc n) fresh ok)

-- RawBufferAppend of `n` bytes of `src`; `len` is raised before memcpy computes its target.
unfoldable pub append : RawBuffer → List ℕ → ℕ → List ℕ → M Outcome
unfolding append_to
append b src n fresh = append_to b b.bytes src n fresh

clear_block : RawBuffer → Option (List ℕ) → ℕ → Bool × RawBuffer
clear_block b none n = (false, b)
clear_block b (some block) zero = (false, b)
clear_block b (some block) (suc n) =
    (true, record b { bytes = some (replicate (suc n) 0 ++ drop (suc n) block) })

-- RawBufferClear
unfoldable pub clear : RawBuffer → Bool × RawBuffer
unfolding clear_block
clear b = clear_block b b.bytes b.len
