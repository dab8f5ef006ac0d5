-- ===== src/Tests.antt =====
-- Runs of the program's functions on concrete input, and the theorems at concrete input.
mod Codec
mod Channels
mod Objects
mod Samples
mod Messages
mod Expecting
mod Notices
mod Replies
mod Files
mod Sessions
mod Servers
mod Nets
mod Starting
use haze.Base.{true, List, [], ◌∷◌, ℕ, pos, some}
use haze.Memory.{Heap, always}
use haze.Object.{Object, Slots, ObjectArray, object, slot, end, int, str, nil}

abbrev pub ample : Heap
ample = record { plan = always true; live = 10 }

abbrev pub text : List ℕ
text = b'k' ∷ b'i' ∷ b'c' ∷ b'k' ∷ []

abbrev pub kick : Object
kick = object (str (some text)) 4

abbrev pub seven : Object
seven = object (int (pos 7)) 8

abbrev pub two_slots : Slots
two_slots = slot kick (slot seven end)

abbrev pub two_items : ObjectArray
two_items = record { slots = two_slots; capacity = 8 }
