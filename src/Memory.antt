-- ===== src/Memory.antt =====
-- The C allocator as the program sees it: which calls of malloc, calloc, realloc and strdup
-- succeed, and how many blocks are live. Contents are values of the other modules.
use haze.Base.{
  ap, ◌∙◌, ◌≤◌, ◌<◌, suc, ℕ, ◌+◌, ◌-◌, ◌≡◌, List, [], ◌∷◌, Bool, true, false, refl, arith,
}

-- The outcomes of the coming allocations: one after the other, and from then on always the same.
pub data Plan : Type 0 where
  always : Bool → Plan
  next : Bool → Plan → Plan

-- These outcomes, and success from then on.
abbrev pub planned : List Bool → Plan
planned [] = always true
planned (b ∷ rest) = next b (planned rest)

pub record Heap : Type 0 where
  pub plan : Plan
  pub live : ℕ

-- Memory is ample when no coming allocation fails.
abbrev pub IsAmple : Heap → Type 0
IsAmple h = h.plan ≡ always true

-- An action that allocates and frees.
abbrev pub M {ℓ} : Type ℓ → Type ℓ
M A = Heap → A × Heap

abbrev pub pure {ℓ} : {A : Type ℓ} → A → M A
pure a h = (a, h)

infixl 5 ◌>>=◌ ◌>>◌
abbrev pub ◌>>=◌ {ℓ κ} : {A : Type ℓ} {B : Type κ} → M A → (A → M B) → M B
◌>>=◌ m f h = let (a, h') = m h in f a h'

abbrev pub ◌>>◌ {κ} : {B : Type κ} → M (Unit {0}) → M B → M B
m >> n = m >>= λ _. n

alloc_next : Plan → Heap → Bool × Heap
alloc_next (always true) h = (true, record h { live = h.live + 1 })
alloc_next (always false) h = (false, h)
alloc_next (next true p) h = (true, record { plan = p; live = h.live + 1 })
alloc_next (next false p) h = (false, record { plan = p; live = h.live })

-- A new block: `true` if the allocator gave one.
unfoldable pub alloc : M Bool
unfolding alloc_next
alloc h = alloc_next h.plan h

realloc_next : Plan → Heap → Bool × Heap
realloc_next (always b) h = (b, h)
realloc_next (next b p) h = (b, record { plan = p; live = h.live })

-- realloc of a live block: on failure the old block stays.
unfoldable pub realloc : M Bool
unfolding realloc_next
realloc h = realloc_next h.plan h

-- Frees `k` blocks.
unfoldable pub free : ℕ → M (Unit {0})
free k h = (tt, record h { live = h.live - k })

-- One block more exactly if the allocation succeeds.
abbrev pub got : Bool → ℕ
got true = 1
got false = 0

pub live-alloc : (h : Heap) → (alloc h).1.live ≡ h.live + got (alloc h).0
unfolding alloc
live-alloc h = go h.plan
  where
    go : (p : Plan) → (alloc_next p h).1.live ≡ h.live + got (alloc_next p h).0
    go (always true) = refl
    go (always false) = omega arith
    go (next true p) = refl
    go (next false p) = omega arith

pub live-realloc : (h : Heap) → (realloc h).1.live ≡ h.live
unfolding realloc
live-realloc h = ground arith

-- With ample memory an allocation succeeds and memory stays ample.
pub alloc-IsAmple : (h : Heap) → IsAmple h → ((alloc h).0 ≡ true) × IsAmple (alloc h).1
unfolding alloc
alloc-IsAmple h e = (rw e, ground arith)

pub realloc-IsAmple : (h : Heap) → IsAmple h → ((realloc h).0 ≡ true) × IsAmple (realloc h).1
unfolding realloc
realloc-IsAmple h e = (rw e, ground arith)

pub free-IsAmple : (k : ℕ) (h : Heap) → IsAmple h → IsAmple (free k h).1
unfolding free
free-IsAmple k h e = e

-- A block that a library allocated and hands over to its caller.
unfoldable pub adopt : M (Unit {0})
adopt h = (tt, record h { live = h.live + 1 })

-- The number of outcomes before those that are always the same.
abbrev pub steps : Plan → ℕ
steps (always b) = 0
steps (next b p) = suc (steps p)

-- Behind its outcomes the plan has success.
abbrev pub recovers : Plan → Bool
recovers (always b) = b
recovers (next b p) = recovers p

-- Each failure of an allocation uses up an outcome of a plan that recovers.
abbrev pub Less : Bool → ℕ → ℕ → Type 0
Less true m n = m ≤ n
Less false m n = m < n

abbrev pub Spends : Bool → Heap → Heap → Type 0
Spends b h h' = (recovers h'.plan ≡ true) × Less b (steps h'.plan) (steps h.plan)

pub alloc-Spends : (h : Heap) → recovers h.plan ≡ true → Spends (alloc h).0 h (alloc h).1
unfolding alloc
alloc-Spends h e = go h.plan h refl e
  where
    go :
        (p : Plan) (g : Heap)
        → g.plan ≡ p
        → recovers p ≡ true
        → let t = alloc_next p g in (recovers t.1.plan ≡ true) × Less t.0 (steps t.1.plan) (steps p)
    go (always true) g q r = (ap recovers q ∙ r, omega (arith, ap steps q))
    go (always false) g q r = absurd (cc)
    go (next true p) g q r = (r, omega arith)
    go (next false p) g q r = (r, omega arith)

pub realloc-Spends : (h : Heap) → recovers h.plan ≡ true → Spends (realloc h).0 h (realloc h).1
unfolding realloc
realloc-Spends h e = go h.plan h refl e
  where
    go :
        (p : Plan) (g : Heap)
        → g.plan ≡ p
        → recovers p ≡ true
        → let t = realloc_next p g in
          (recovers t.1.plan ≡ true) × Less t.0 (steps t.1.plan) (steps p)
    go (always true) g q r = (ap recovers q ∙ r, omega (arith, ap steps q))
    go (always false) g q r = absurd (cc)
    go (next true p) g q r = (r, omega arith)
    go (next false p) g q r = (r, omega arith)
