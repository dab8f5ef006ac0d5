-- ===== src/Object/Array.antt =====
-- Object.c: the functions on ObjectArray, with their bounds and what they do to the elements.
pub mod Laws
use haze.Base.{ℕ, zero, suc, ◌-◌, Option, none, some, Bool, true, false, ltb, if◌then◌else◌}
use haze.Memory.{M, pure, ◌>>=◌, ◌>>◌}
use haze.Object.{Object, Slots, ObjectArray, end, slot, hole}
use haze.Object.Copy.{count, append_copy, copy, free_object}

-- ObjectArrayAppend; the array is there, the object may be null.
unfoldable pub append : ObjectArray → Option Object → M (Bool × ObjectArray)
append a none = pure (false, a)
append a (some o) = append_copy a (copy o)

-- objects[i]
abbrev pub at : Slots → ℕ → Option Object
at end i = none
at (slot o rest) zero = some o
at (hole rest) zero = none
at (slot o rest) (suc i) = at rest i
at (hole rest) (suc i) = at rest i

-- ObjectArrayGet
unfoldable pub get : Option ObjectArray → ℕ → Option Object
get none i = none
get (some a) i = if ltb i (count a.slots) then at a.slots i else none

-- objects[i] = objects[i + 1] from `i` to the end, and one element less.
abbrev pub shift : Slots → ℕ → Slots
shift end i = end
shift (slot o rest) zero = rest
shift (hole rest) zero = rest
shift (slot o rest) (suc i) = slot o (shift rest i)
shift (hole rest) (suc i) = hole (shift rest i)

free_slot : Option Object → M (Unit {0})
free_slot none = pure tt
free_slot (some o) = free_object o

-- ObjectArrayRemove
unfoldable pub remove : Option ObjectArray → ℕ → M (Bool × Option ObjectArray)
unfolding free_slot
remove none i = pure (false, none)
remove (some a) i =
    if ltb i (count a.slots)
    then (do free_slot (at a.slots i); pure (true, some (record a { slots = shift a.slots i })))
    else pure (false, some a)

-- ObjectArrayLen
unfoldable pub len : Option ObjectArray → ℕ
len none = 0
len (some a) = count a.slots
