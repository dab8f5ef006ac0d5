-- ===== src/Wire/Request/Gaps.antt =====
-- The loop of RequestParamAppend that fills a gap with nil objects.
use haze.Base.{
  ℕ, zero, suc, ◌+◌, ◌-◌, ◌≤◌, ◌<◌, ◌≡◌, refl, Option, none, some, Bool, true, false, ltb, arith,
  Bool-cases, inl, inr,
}
use haze.Memory.{Heap, always, alloc, recovers, steps, Spends, alloc-Spends, realloc-Spends}
use haze.Object
use haze.Object.{Object, ObjectArray, nil, object}
use haze.Object.Copy.{count, copy, grow, append_copy}
use haze.Object.Array
use haze.Object.Array.Laws.{append_elements}
use haze.Wire.Request.Params.{fill, fill_one, fill_fuel}

grow-Spends :
    (a : ObjectArray) (h : Heap) → recovers h.plan ≡ true → Spends (grow a h).0.0 h (grow a h).1
unfolding grow
grow-Spends a h e = ground (arith, realloc-Spends h e)

abbrev there : Option Object → Bool
there none = false
there (some o) = true

copy_nil-Spends :
    (h : Heap)
    → recovers h.plan ≡ true
    → Spends (there (copy (object nil 0) h).0) h (copy (object nil 0) h).1
unfolding copy
copy_nil-Spends h e = ground (arith, alloc-Spends h e)

append_nil-Spends :
    (a : ObjectArray) (h : Heap)
    → recovers h.plan ≡ true
    → Spends
        (Array.append a (some (object nil 0)) h).0.0
        h
        (Array.append a (some (object nil 0)) h).1
unfolding Array.append append_copy
append_nil-Spends a h e =
    let grown = grow-Spends a h e in ground (arith, grown, copy_nil-Spends (grow a h).1 grown.0)

-- What is missing, in elements and in outcomes of the plan.
abbrev measure : ℕ → ObjectArray → Heap → ℕ
measure ind a h = (ind - count a.slots) + steps h.plan

record Round (ind : ℕ) (a a' : ObjectArray) (h h' : Heap) : Type 0 where
  kept : count a.slots ≤ count a'.slots
  below : count a'.slots ≤ ind
  recovered : recovers h'.plan ≡ true
  less : measure ind a' h' < measure ind a h

append-none : (a : ObjectArray) (h : Heap) → Array.append a none h ≡ ((false, a), h)
unfolding Array.append
append-none a h = refl

append_nil-Round :
    (ind : ℕ) (a : ObjectArray) (h g : Heap)
    → count a.slots < ind
    → recovers h.plan ≡ true
    → steps h.plan ≤ steps g.plan
    → Round ind a
        (Array.append a (some (object nil 0)) h).0.1
        g
        (Array.append a (some (object nil 0)) h).1
append_nil-Round ind a h g p s q = elim (Bool-cases (Array.append a (some (object nil 0)) h).0.0) [
  | inl e ↦ ground (arith, append_nil-Spends a h s, append_elements a (some (object nil 0)) h)
  | inr e ↦ ground (arith, append_nil-Spends a h s, append_elements a (some (object nil 0)) h)
]

fill_one-Round :
    (ind : ℕ) (a : ObjectArray) (h : Heap)
    → count a.slots < ind
    → recovers h.plan ≡ true
    → Round ind a (fill_one a h).0 h (fill_one a h).1
unfolding fill_one Object.create_nil
fill_one-Round ind a h p s = elim (Bool-cases (alloc h).0) [
  | inr e ↦ rw (e, append-none) (ground (arith, alloc-Spends h s))
  | inl e ↦ rw e (
      append_nil-Round ind a (alloc h).1 h p (alloc-Spends h s).0
        (ground (arith, alloc-Spends h s)))
]

fill_reaches :
    (fuel ind : ℕ) (a : ObjectArray) (h : Heap)
    → count a.slots ≤ ind
    → recovers h.plan ≡ true
    → measure ind a h ≤ fuel
    → (b : ObjectArray) × ((fill fuel ind a h).0 ≡ some b) × (count b.slots ≡ ind)
unfolding fill
fill_reaches zero ind a h p s m =
    let filled : ltb (count a.slots) ind ≡ false = ground arith in (a, rw filled refl, omega arith)
fill_reaches (suc fuel) ind a h p s m = elim (Bool-cases (ltb (count a.slots) ind)) [
  | inr e ↦ (a, rw e refl, ground arith)
  | inl e ↦
      let round = fill_one-Round ind a h (ground arith) s in
      let (b, there, filled) =
        fill_reaches fuel ind (fill_one a h).0 (fill_one a h).1 round.below round.recovered
          (omega arith) in
      (b, rw e there, filled)
]

-- Rounds whose allocations all fail leave the gap as it is.
fill_stalls :
    (rounds ind : ℕ) (a : ObjectArray) (live : ℕ)
    → count a.slots < ind
    → (fill rounds ind a (record { plan = always false; live = live })).0 ≡ none
unfolding fill fill_one Object.create_nil alloc Array.append
fill_stalls zero ind a live p =
    let below : ltb (count a.slots) ind ≡ true = ground arith in rw below refl
fill_stalls (suc rounds) ind a live p =
    let below : ltb (count a.slots) ind ≡ true = ground arith in
    rw below (fill_stalls rounds ind a live p)

-- The loop that fills the gap of an array shorter than the index: if from some time on allocation
-- succeeds, the rounds of the fuel, which are the missing elements and the outcomes up to that time,
-- give an array whose length is the index; and if allocation fails for ever, the gap is there after
-- any number of rounds.
pub fill_fills :
    (ind : ℕ) (a : ObjectArray) (h : Heap) (rounds live : ℕ)
    → count a.slots < ind
    → recovers h.plan ≡ true
    → (b : ObjectArray) × ((fill (fill_fuel ind a h) ind a h).0 ≡ some b)
      × (count b.slots ≡ ind)
      × ((fill rounds ind a (record { plan = always false; live = live })).0 ≡ none)
fill_fills ind a h rounds live p s =
    let (b, there, filled) =
      fill_reaches (fill_fuel ind a h) ind a h (omega arith) s (omega arith) in
    (b, there, filled, fill_stalls rounds ind a live p)
