-- ===== src/Wire/Notification/Ledger.antt =====
-- The blocks of a notification that NotificationCreate makes and NotificationFree gives back.
use haze.Base.{
  ℕ, ◌+◌, ◌≡◌, Option, none, some, List, [], ◌∷◌, arith, Option-cases, Bool-cases, inl, inr,
}
use haze.Memory.{Heap, alloc, free, live-alloc}
use haze.Object.{Object, ObjectArray}
use haze.Object.Copy.{create_array, copy}
use haze.Object.Copy.Ledger.{
  leaks, freed_slots, live-create_array, live-free_array, append_copy-Step, live-copy,
}
use haze.Object.Array
use haze.Wire.Notification.{
  Notification, method_blocks, new, free_notification, free_params, set_method, append_all,
  append_param, method_set, fill_new, create,
}

array_blocks : Option ObjectArray → ℕ
array_blocks none = 0
array_blocks (some a) = freed_slots a.slots + 2

abbrev blocks : Notification → ℕ
unfolding array_blocks
blocks n = method_blocks n.method + array_blocks n.params + 1

-- NotificationFree of what NotificationCreate returned.
abbrev pub close : Option Notification × Heap → Heap
close (none, h) = h
close (some n, h) = (free_notification n h).1

-- No parameter has bytes of a bin, which ObjectFree does not give back.
abbrev pub HaveNoBins : List (Option Object) → Type 0
HaveNoBins [] = Unit
HaveNoBins (none ∷ rest) = HaveNoBins rest
HaveNoBins (some o ∷ rest) = (leaks o ≡ 0) × HaveNoBins rest

live-free_params :
    (p : Option ObjectArray) (h : Heap) (base : ℕ)
    → h.live ≡ base + array_blocks p
    → (free_params p h).1.live ≡ base
unfolding free_params array_blocks
live-free_params none h base e = omega (arith, e)
live-free_params (some a) h base e = omega (arith, e, live-free_array a h)

live-free_notification :
    (n : Notification) (h : Heap) (base : ℕ)
    → h.live ≡ base + blocks n
    → (free_notification n h).1.live ≡ base
unfolding free_notification array_blocks
live-free_notification n h base e = omega (
  arith,
  e,
  live-free_params n.params (free (method_blocks n.method) h).1 (base + 1) (omega (arith, e)),
)

append-Owns :
    (a : ObjectArray) (o : Object) (h : Heap) (base : ℕ)
    → leaks o ≡ 0
    → h.live ≡ base + freed_slots a.slots
    → (Array.append a (some o) h).1.live ≡ base + freed_slots (Array.append a (some o) h).0.1.slots
unfolding Array.append
append-Owns a o h base l e = ground (arith, append_copy-Step a (copy o) (leaks o) (live-copy o) h)

append_param-Owns :
    (p : Option ObjectArray) (o : Option Object) (h : Heap) (base : ℕ)
    → HaveNoBins (o ∷ [])
    → h.live ≡ base + array_blocks p
    → (append_param p o h).1.live ≡ base + array_blocks (append_param p o h).0.1
unfolding append_param array_blocks Array.append
append_param-Owns none o h base l e = e
append_param-Owns (some a) none h base l e = e
append_param-Owns (some a) (some o) h base (l, k) e =
    omega (arith, append-Owns a o h (base + 2) l (omega (arith, e)))

no_bins_head :
    (o : Option Object) (rest : List (Option Object)) → HaveNoBins (o ∷ rest) → HaveNoBins (o ∷ [])
no_bins_head none rest k = tt
no_bins_head (some o) rest (l, k) = (l, tt)

no_bins_tail :
    (o : Option Object) (rest : List (Option Object)) → HaveNoBins (o ∷ rest) → HaveNoBins rest
no_bins_tail none rest k = k
no_bins_tail (some o) rest (l, k) = k

live-append_all :
    (params : List (Option Object)) (n : Notification) (h : Heap) (base : ℕ)
    → HaveNoBins params
    → h.live ≡ base + blocks n
    → (close (append_all params n h)).live ≡ base
unfolding append_all array_blocks
live-append_all [] n h base k e = live-free_notification n h base e
live-append_all (o ∷ rest) n h base k e =
    let owns =
      append_param-Owns n.params o h (base + method_blocks n.method + 1) (no_bins_head o rest k)
        (omega (arith, e)) in
    let n' = record n { params = (append_param n.params o h).0.1 } in
    let h' = (append_param n.params o h).1 in
    let kept : h'.live ≡ base + blocks n' = omega (arith, owns) in
    elim (Bool-cases (append_param n.params o h).0.0) [
      | inl t ↦ rw t (live-append_all rest n' h' base (no_bins_tail o rest k) kept)
      | inr f ↦ rw f (live-free_notification n' h' base kept)
    ]

set_method-Owns :
    (n : Notification) (m : Option (List ℕ)) (h : Heap) (base : ℕ)
    → h.live ≡ base + blocks n
    → (set_method n m h).1.live ≡ base + blocks (set_method n m h).0
unfolding set_method blocks
set_method-Owns n none h base e = omega (arith, e)
set_method-Owns n (some s) h base e = ground (arith, e, live-alloc h)

live-method_set :
    (method : Option (List ℕ)) (params : List (Option Object)) (n : Notification) (h : Heap)
    (base : ℕ)
    → HaveNoBins params
    → h.live ≡ base + blocks n
    → (close (method_set method params n h)).live ≡ base
unfolding method_set
live-method_set method params n h base k e =
    ground (arith, live-append_all params n h base k e, live-free_notification n h base e)

abbrev owned : Option Notification → ℕ
owned none = 0
owned (some n) = blocks n

new-Owns : (h : Heap) → (new h).1.live ≡ h.live + owned (new h).0
unfolding new blocks
new-Owns h = elim (Option-cases (create_array (alloc h).1).0) [
  | inl e ↦ ground (arith, live-alloc h, live-create_array (alloc h).1)
  | inr (a, e) ↦ ground (arith, live-alloc h, live-create_array (alloc h).1)
]

live-fill_new :
    (method : Option (List ℕ)) (params : List (Option Object)) (n : Option Notification) (h : Heap)
    (base : ℕ)
    → HaveNoBins params
    → h.live ≡ base + owned n
    → (close (fill_new method params n h)).live ≡ base
unfolding fill_new
live-fill_new method params none h base k e = omega (arith, e)
live-fill_new method params (some n) h base k e =
    live-method_set method params _ _ base k (set_method-Owns n method h base e)

-- Of parameters without bytes of a bin, whatever allocation fails, NotificationCreate leaves no block
-- behind when it returns none, and NotificationFree gives back all blocks of what it returns.
pub create_balanced :
    (method : Option (List ℕ)) (params : List (Option Object)) (h : Heap)
    → HaveNoBins params
    → (close (create method params h)).live ≡ h.live
unfolding create
create_balanced method params h k =
    ground (arith, live-fill_new method params (new h).0 (new h).1 h.live k (new-Owns h))
