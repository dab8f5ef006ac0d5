-- ===== src/Wire/Request/Params.antt =====
-- RequestParamAppend: a parameter at a given index, with nil objects in the gap before it.
use haze.Base.{
  ℕ, zero, suc, ◌+◌, ◌-◌, Option, none, some, Bool, true, false, ltb, ◌==◌, if◌then◌else◌,
}
use haze.Memory.{M, pure, ◌>>=◌, Heap, steps}
use haze.Object
use haze.Object.{Object, ObjectArray, Slots, end, slot, hole}
use haze.Object.Copy.{count}
use haze.Object.Array
use haze.Object.Array.{at}
use haze.Wire.Request.{Request}

-- objects[i] = o
abbrev pub put : Slots → ℕ → Object → Slots
put end i o = end
put (slot p rest) zero o = slot o rest
put (hole rest) zero o = slot o rest
put (slot p rest) (suc i) o = slot p (put rest i o)
put (hole rest) (suc i) o = hole (put rest i o)

-- One round of the loop that fills the gap; its nil object is not given back.
unfoldable pub fill_one : ObjectArray → M ObjectArray
fill_one a = do o ← Object.create_nil; (done, a') ← Array.append a o; pure a'

-- `while (len < ind) append(nil)`: a round whose allocation fails is repeated. `none` means that the
-- rounds of the fuel were made and the gap is there still.
unfoldable pub fill : ℕ → ℕ → ObjectArray → M (Option ObjectArray)
fill zero ind a = pure (if ltb (count a.slots) ind then none else some a)
fill (suc fuel) ind a =
    if ltb (count a.slots) ind then fill_one a >>= fill fuel ind else pure (some a)

-- Each round adds an element, uses up an outcome of the plan, or fails as all that come after it do:
-- a gap that is there after so many rounds is never filled.
abbrev pub fill_fuel : ℕ → ObjectArray → Heap → ℕ
fill_fuel ind a h = (ind - count a.slots) + steps h.plan

-- The slot in use is kept; a null one takes the parameter itself.
fill_hole : ObjectArray → ℕ → Object → Option Object → Bool × ObjectArray
fill_hole a ind o (some old) = (false, a)
fill_hole a ind o none = (true, record a { slots = put a.slots ind o })

append_filled : Object → Option ObjectArray → M (Option (Bool × ObjectArray))
append_filled o none = pure none
append_filled o (some a) = do r ← Array.append a (some o); pure (some r)

append_behind : ObjectArray → Object → ℕ → M (Option (Bool × ObjectArray))
unfolding append_filled
append_behind a o ind h = (fill (fill_fuel ind a h) ind a >>= append_filled o) h

-- RequestParamAppend of a parameter that is there, to the array of a request; `none` if its loop does
-- not end.
unfoldable pub append_at : ObjectArray → Object → ℕ → M (Option (Bool × ObjectArray))
unfolding fill_hole append_behind
append_at a o ind =
    if ind == count a.slots
    then (do r ← Array.append a (some o); pure (some r))
    else if ltb ind (count a.slots)
    then pure (some (fill_hole a ind o (at a.slots ind)))
    else append_behind a o ind

with_array : Request → Option (Bool × ObjectArray) → Option (Bool × Request)
with_array r none = none
with_array r (some (done, a)) = some (done, record r { parameters = some a })

append_to : Request → Option ObjectArray → Object → ℕ → M (Option (Bool × Request))
unfolding with_array
append_to r none o ind = pure (some (false, r))
append_to r (some a) o ind = do appended ← append_at a o ind; pure (with_array r appended)

-- RequestParamAppend of a request that is there.
unfoldable pub param_append : Request → Option Object → ℕ → M (Option (Bool × Request))
unfolding append_to
param_append r none ind = pure (some (false, r))
param_append r (some o) ind = append_to r r.parameters o ind
