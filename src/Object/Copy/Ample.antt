-- ===== src/Object/Copy/Ample.antt =====
-- ObjectFree and ObjectArrayFree leave the outcomes of the coming allocations as they are.
use haze.Base.{◌≡◌, refl, ◌∙◌}
use haze.Memory.{Heap, free}
use haze.Object.{Value, Object, Slots, ObjectArray, str, bin, array, object, end, slot, hole}
use haze.Object.Copy.{free_value, free_object, free_slots, free_array}

mutual
  unfolding free_value free

  plan-free_value : (v : Value) (h : Heap) → (free_value v h).1.plan ≡ h.plan
  plan-free_value (str s) h = refl
  plan-free_value (bin b) h = refl
  plan-free_value (array slots capacity) h = plan-free_slots slots h
  plan-free_value _ h = refl

  pub plan-free_object : (o : Object) (h : Heap) → (free_object o h).1.plan ≡ h.plan
  plan-free_object (object v size) h = plan-free_value v h

  plan-free_slots : (s : Slots) (h : Heap) → (free_slots s h).1.plan ≡ h.plan
  plan-free_slots end h = refl
  plan-free_slots (slot o rest) h = plan-free_slots rest (free_object o h).1 ∙ plan-free_object o h
  plan-free_slots (hole rest) h = plan-free_slots rest h

pub plan-free_array : (a : ObjectArray) (h : Heap) → (free_array a h).1.plan ≡ h.plan
unfolding free_array free
plan-free_array a h = plan-free_slots a.slots h
