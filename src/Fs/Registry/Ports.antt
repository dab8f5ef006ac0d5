-- ===== src/Fs/Registry/Ports.antt =====
-- source/fs/InstanceRegistry.c: the name that InstanceRegistryNew gives to a file, and the port that
-- InstanceRegistryGetLastPort reads from it.
use haze.Base.{
  ℕ, zero, suc, ◌+◌, ◌-◌, ◌*◌, ◌/◌, ◌%◌, ◌≤◌, ◌<◌, ◌≡◌, refl, sym, ap, ◌∙◌, some, List, [], ◌∷◌,
  ◌++◌, append_assoc, append-nil, ltb, leb, if◌then◌else◌, arith, Bool-cases, inl, inr, codes,
  bytes_eq,
}
use haze.Audio.SampleList.{decimal_fuel}
use haze.Fs.{
  is_digit, is_space, digits_value, saturate, signed_value, strtoul, ulong_max, last_port,
}
use haze.Fs.Laws.{Covers, port_of, last_port_lem}

digits_value_step :
    (a d : ℕ) (rest : List ℕ)
    → d < 10
    → digits_value a ((48 + d) ∷ rest) ≡ digits_value (a * 10 + d) rest
unfolding digits_value is_digit
digits_value_step a d rest h = ground (arith, ap (λ n. digits_value n rest) (shifted a d))
  where
    shifted : (a d : ℕ) → a * 10 + (48 + d - 48) ≡ a * 10 + d
    shifted a d = omega arith

-- The digits of `n` are read as `n`, whatever follows.
digits_value-decimal :
    (fuel n : ℕ) (rest : List ℕ)
    → n ≤ fuel
    → digits_value 0 (decimal_fuel fuel n ++ rest) ≡ digits_value n rest
unfolding decimal_fuel
digits_value-decimal zero n rest h =
    digits_value_step 0 (n % 10) rest (omega arith) ∙ ap (λ m. digits_value m rest) (omega arith)
digits_value-decimal (suc fuel) n rest h = elim (Bool-cases (ltb n 10)) [
  | inl e ↦ rw e (
      digits_value_step 0 (n % 10) rest (omega arith)
      ∙ ap (λ m. digits_value m rest) (ground arith))
  | inr e ↦
      rw (e, append_assoc (decimal_fuel fuel (n / 10)) ((48 + n % 10) ∷ []) rest)
        (digits_value-decimal fuel (n / 10) ((48 + n % 10) ∷ rest) (omega arith)
          ∙ digits_value_step (n / 10) (n % 10) rest (omega arith)
          ∙ ap (λ m. digits_value m rest) (omega arith))
]

-- A first character that is a digit.
decimal_head :
    (fuel n : ℕ) → (c : ℕ) × (s : List ℕ) × (decimal_fuel fuel n ≡ c ∷ s) × (48 ≤ c) × (c ≤ 57)
unfolding decimal_fuel
decimal_head zero n = (_, _, refl, omega arith, omega arith)
decimal_head (suc fuel) n = elim (Bool-cases (ltb n 10)) [
  | inl e ↦ rw e (_, _, refl, omega arith, omega arith)
  | inr e ↦ let (c, s, q, lo, hi) = decimal_head fuel (n / 10) in rw (e, q) (c, _, refl, lo, hi)
]

decimal_value : (n : ℕ) → digits_value 0 (decimal_fuel n n) ≡ n
unfolding digits_value
decimal_value n =
    ap (digits_value 0) (sym (append-nil (decimal_fuel n n)))
    ∙ digits_value-decimal n n [] (omega arith)

-- What is neither space nor sign is read digit by digit.
strtoul_digits :
    (c : ℕ) (s : List ℕ)
    → 48 ≤ c
    → c ≤ 57
    → digits_value 0 (c ∷ s) ≤ ulong_max
    → strtoul (c ∷ s) ≡ digits_value 0 (c ∷ s)
unfolding strtoul signed_value saturate is_space
strtoul_digits c s lo hi h = ground arith

strtoul-decimal : (n : ℕ) → n ≤ ulong_max → strtoul (decimal_fuel n n) ≡ n
strtoul-decimal n h =
    let (c, s, q, lo, hi) = decimal_head n n in
    let v : digits_value 0 (c ∷ s) ≡ n = ap (digits_value 0) (sym q) ∙ decimal_value n in
    ap strtoul q ∙ strtoul_digits c s lo hi (omega (arith, v, h)) ∙ v

-- No number is `.` or `..`.
not_dots :
    (c : ℕ) (s : List ℕ)
    → 48 ≤ c
    → port_of (c ∷ s) ≡ (if leb (strtoul (c ∷ s)) 65535 then strtoul (c ∷ s) else 0)
unfolding codes bytes_eq
not_dots c s lo = ground arith

port_of-decimal : (port : ℕ) → port ≤ 65535 → port_of (decimal_fuel port port) ≡ port
port_of-decimal port h =
    let (c, s, q, lo, hi) = decimal_head port port in
    let v : strtoul (c ∷ s) ≡ port = ap strtoul (sym q) ∙ strtoul-decimal port (omega arith) in
    ap port_of q ∙ not_dots c s lo ∙ ground (arith, v)

Covers-there :
    (before : List (List ℕ)) (name : List ℕ) (after : List (List ℕ)) (p : ℕ)
    → Covers (before ++ name ∷ after) p
    → port_of name ≤ p
Covers-there [] name after p c = c.0
Covers-there (x ∷ before) name after p c = Covers-there before name after p c.1

-- InstanceRegistryGetLastPort reads the port that InstanceRegistryNew gives a file for its name: with
-- the file of an instance among those of the directory, the port found is not below the instance's.
pub port_found_again :
    (before after : List (List ℕ)) (port : ℕ)
    → port ≤ 65535
    → port ≤ last_port (some (before ++ decimal_fuel port port ∷ after))
port_found_again before after port h =
    let names : List (List ℕ) = before ++ decimal_fuel port port ∷ after in
    let found : ℕ = last_port (some names) in
    omega (
      arith,
      port_of-decimal port h,
      Covers-there before (decimal_fuel port port) after found (last_port_lem names).2,
    )
