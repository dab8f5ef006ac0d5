-- ===== src/Server/Middleware.antt =====
-- source/server/HazeServerMiddleware.c: the test for a request of HTTP.
use mathlib.Core.List.{Memᴰ}
use haze.Base.{
  ℕ, zero, suc, ◌≡◌, refl, sym, ap, ◌∙◌, Option, none, some, List, [], ◌∷◌, ◌++◌, Bool, true, false,
  ◌||◌, ◌↔◌, ltb, if◌then◌else◌, length, take, drop, take-append, length-append, bytes_eq,
  bytes_eq→eq, bytes_eq_refl, arith, Bool-cases, inl, inr,
}

-- HazeServerMiddlewareResult
pub data Verdict : Type 0 where
  reject next : Verdict

-- The words that a method of HTTP begins with.
abbrev pub methods : List (List ℕ)
methods =
    (b'G' ∷ b'E' ∷ b'T' ∷ b' ' ∷ [])
    ∷ (b'P' ∷ b'O' ∷ b'S' ∷ b'T' ∷ [])
    ∷ (b'P' ∷ b'U' ∷ b'T' ∷ b' ' ∷ [])
    ∷ (b'H' ∷ b'E' ∷ b'A' ∷ b'D' ∷ [])
    ∷ (b'D' ∷ b'E' ∷ b'L' ∷ b'E' ∷ [])
    ∷ (b'P' ∷ b'A' ∷ b'T' ∷ b'C' ∷ [])
    ∷ (b'O' ∷ b'P' ∷ b'T' ∷ b'I' ∷ [])
    ∷ []

-- The loop, with memcmp of four bytes.
begins : List (List ℕ) → List ℕ → Bool
unfolding bytes_eq
begins [] bytes = false
begins (m ∷ rest) bytes = bytes_eq (take 4 bytes) m || begins rest bytes

-- HazeServerMiddlewareIsHttp
unfoldable pub is_http : Option (List ℕ) → Verdict
unfolding begins
is_http none = next
is_http (some bytes) =
    if ltb (length bytes) 4 then next else if begins methods bytes then reject else next

-- The bytes are one of these words with something behind it.
abbrev pub BeginsWith : List (List ℕ) → List ℕ → Type 0
BeginsWith words bytes = (m : List ℕ) × (rest : List ℕ) × Memᴰ m words × (bytes ≡ m ++ rest)

take-drop : (n : ℕ) (bytes : List ℕ) → take n bytes ++ drop n bytes ≡ bytes
take-drop zero bytes = refl
take-drop (suc n) [] = refl
take-drop (suc n) (b ∷ bytes) = ap (λ t. b ∷ t) (take-drop n bytes)

begins-BeginsWith :
    (words : List (List ℕ)) (bytes : List ℕ) → begins words bytes ≡ true → BeginsWith words bytes
unfolding begins
begins-BeginsWith [] bytes e = absurd (ground arith)
begins-BeginsWith (m ∷ rest) bytes e = elim (Bool-cases (bytes_eq (take 4 bytes) m)) [
  | inl same ↦ (
    m,
    drop 4 bytes,
    Memᴰ.head refl,
    sym (ap (λ t. t ++ drop 4 bytes) (sym (bytes_eq→eq (take 4 bytes) m same)) ∙ take-drop 4 bytes),
  )
  | inr other ↦
      let (w, behind, there, whole) = begins-BeginsWith rest bytes (ground (arith, e, other)) in
      (w, behind, Memᴰ.tail there, whole)
]

or_true : (b : Bool) → b || true ≡ true
or_true true = refl
or_true false = refl

-- All the words have four bytes.
AreFour : List (List ℕ) → Type 0
AreFour [] = Unit
AreFour (m ∷ rest) = (length m ≡ 4) × AreFour rest

BeginsWith-begins :
    (words : List (List ℕ)) (m behind : List ℕ)
    → AreFour words
    → Memᴰ m words
    → (begins words (m ++ behind) ≡ true) × (length m ≡ 4)
unfolding begins AreFour
BeginsWith-begins [] m behind four there = elim there [ ]
BeginsWith-begins (w ∷ words) m behind four (Memᴰ.head e) =
    let sized : length m ≡ 4 = ap length e ∙ four.0 in
    let front : take 4 (m ++ behind) ≡ w =
      ap (λ n. take n (m ++ behind)) (sym sized) ∙ take-append m behind ∙ e in
    (rw (front, bytes_eq_refl w) refl, sized)
BeginsWith-begins (w ∷ words) m behind four (Memᴰ.tail there) =
    let (found, sized) = BeginsWith-begins words m behind four.1 there in
    (rw found (or_true (bytes_eq (take 4 (m ++ behind)) w)), sized)

rejected_if :
    (short found : Bool)
    → (if short then next else if found then reject else next) ≡ reject
    → found ≡ true
rejected_if true found e = absurd (cc)
rejected_if false true e = refl
rejected_if false false e = absurd (cc)

rejects :
    (short found : Bool)
    → short ≡ false
    → found ≡ true
    → (if short then next else if found then reject else next) ≡ reject
rejects short found s f = rw (s, f) refl

-- HazeServerMiddlewareIsHttp rejects a message exactly if it begins with one of the seven words.
pub is_http_lem : (bytes : List ℕ) → (is_http (some bytes) ≡ reject) ↔ BeginsWith methods bytes
unfolding is_http AreFour
is_http_lem bytes = (
  λ e.
      begins-BeginsWith methods bytes (rejected_if (ltb (length bytes) 4) (begins methods bytes) e),
  λ (m, rest, there, whole).
      let (found, sized) =
        BeginsWith-begins methods m rest (refl, (refl, (refl, (refl, (refl, (refl, (refl, tt)))))))
          there in
      rejects (ltb (length bytes) 4) (begins methods bytes)
        (ground (arith, ap length whole, length-append m rest, sized))
        (ap (begins methods) whole ∙ found),
)
