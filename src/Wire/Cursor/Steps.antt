-- ===== src/Wire/Cursor/Steps.antt =====
-- Steps on input that stands in its encoding.
use haze.Base.{ℕ, ◌≡◌, refl, Option, none, some, List}
use haze.Memory.{M, IsAmple}
use haze.Object.{Object}
use haze.Object.Copy.Content.{canonical}
use haze.Wire.Mpack.{Tag, Reader, Reads}
use haze.Wire.Cursor.{Cursor, S, mem}
use haze.Wire.Request.Unmarshal.Steps.{Makes}

-- The step gave something, of which and of what is behind it `Q` holds.
abbrev pub Gives {ℓ} :
    {R : Type 0} {A : Type ℓ} → Option A × Cursor R → (A → Cursor R → Type 0) → Type 0
Gives (none, c) Q = ⊥
Gives (some a, c) Q = Q a c

pub Gives-then {ℓ κ} :
    {R : Type 0} {A : Type ℓ} {B : Type κ} (r : Option A × Cursor R) (n : S R (Option B))
    (f : A → S R (Option B)) (Q : A → Cursor R → Type 0) (Q' : B → Cursor R → Type 0)
    → Gives r Q
    → ((a : A) (c : Cursor R) → Q a c → Gives (f a c) Q')
    → Gives ((elim r.0 as (λ _. S R (Option B)) [ none ↦ n | some a ↦ f a ]) r.1) Q'
Gives-then (none, c) n f Q Q' g k = absurd g
Gives-then (some a, c) n f Q Q' g k = k a c g

pub Gives-mono {ℓ} :
    {R : Type 0} {A : Type ℓ} (r : Option A × Cursor R) (Q Q' : A → Cursor R → Type 0)
    → ((a : A) (c : Cursor R) → Q a c → Q' a c)
    → Gives r Q
    → Gives r Q'
Gives-mono (none, c) Q Q' k g = g
Gives-mono (some a, c) Q Q' k g = k a c g

module _ {R : Type 0} (rd : Reader R) (enc : Tag → List ℕ) (law : Reads rd enc) where
  -- The reader stands before these bytes, and memory is ample.
  abbrev pub At : Cursor R → List ℕ → Type 0
  At c bytes = (law.input c.reader ≡ some bytes) × IsAmple c.heap

  -- An object came with the content of `o`, and the reader is behind it.
  abbrev pub Came : Object → List ℕ → Object → Cursor R → Type 0
  Came o rest v c = (canonical v ≡ canonical o) × At c rest

  pub made-Gives :
      (make : M (Option Object)) (o : Object) (rest : List ℕ) (c : Cursor R)
      → Makes rd enc law make o
      → At c rest
      → Gives (mem make c) (Came o rest)
  unfolding Makes
  made-Gives make o rest c k (i, a) = let (there, ample) = k c.heap a in rw there (refl, (i, ample))
