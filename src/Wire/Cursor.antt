-- ===== src/Wire/Cursor.antt =====
-- Steps over a reader of mpack and memory.
pub mod Steps
use haze.Memory.{M, Heap}

-- The reader, and memory.
pub record Cursor (R : Type 0) : Type 0 where
  pub reader : R
  pub heap : Heap

abbrev pub S {ℓ} : Type 0 → Type ℓ → Type ℓ
S R A = Cursor R → A × Cursor R

module _ {R : Type 0} where
  abbrev pub pure {ℓ} : {A : Type ℓ} → A → S R A
  pure a c = (a, c)

  infixl 5 ◌>>=◌ ◌>>◌
  abbrev pub ◌>>=◌ {ℓ κ} : {A : Type ℓ} {B : Type κ} → S R A → (A → S R B) → S R B
  ◌>>=◌ m f c = let (a, c') = m c in f a c'

  abbrev pub ◌>>◌ {κ} : {B : Type κ} → S R (Unit {0}) → S R B → S R B
  m >> n = m >>= λ _. n

  -- An action on memory.
  abbrev pub mem {ℓ} : {A : Type ℓ} → M A → S R A
  mem m c = let (a, h) = m c.heap in (a, record c { heap = h })

  -- A call of the reader, with and without a result.
  abbrev pub call {ℓ} : {A : Type ℓ} → (R → A × R) → S R A
  call f c = let (a, r) = f c.reader in (a, record c { reader = r })

  abbrev pub run : (R → R) → S R (Unit {0})
  run f c = (tt, record c { reader = f c.reader })
