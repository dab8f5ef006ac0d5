-- ===== src/Wire/Response/Unmarshal/Fields.antt =====
-- The fields of a response, read back in their encoding.
use haze.Base.{
  ℕ, suc, ◌^◌, ◌≡◌, refl, ap, sym, subst, ◌∙◌, ◌++◌, ◌≤◌, ◌<◌, Option, none, some, List,
  if◌then◌else◌, arith, Bool-cases, inl, inr,
}
use haze.Memory.{alloc, alloc-IsAmple}
use haze.Object.{
  Object, und, nil, bool, int, uint, float, double, str, bin, array, null_array, null_map, map_pair,
  map_table, object,
}
use haze.Object.Copy.Ample.{plan-free_object}
use haze.Object.Copy.Content.{canonical}
use haze.Wire.Mpack.{Tag, Reader, Reads}
use haze.Wire.Encode.{u32_mod, IsInsidePointer}
use haze.Wire.Cursor.{Cursor, S}
use haze.Wire.Cursor.Steps.{Gives, At, Came}
use haze.Wire.Notification.Unmarshal.Laws.{weight}
use haze.Wire.Response
use haze.Wire.Response.{Response, rpc_response, free_response, free_pointer, marshal}
use haze.Wire.Response.Laws.{pointer_bytes}
use haze.Wire.Response.Unmarshal.{
  ExpectHead, read_object, read_error, read_result, read_fields, read_message, failed, without_nil,
  is_nil,
}
use haze.Wire.Response.Unmarshal.Reborn.{IsWhole, Whole-IsInside, reborn}
use haze.Wire.Response.Unmarshal.Back.{nil-Gives, object_back}

-- What mpack documents of the expect calls, of numbers in the range of their types.
pub record ExpectsHead {R : Type 0} {rd : Reader R} {enc : Tag → List ℕ} (law : Reads rd enc)
    (ex : ExpectHead R) : Type 0 where
  pub array_there :
      (r : R) (n : ℕ) (rest : List ℕ)
      → law.input r ≡ some (enc (Tag.array n) ++ rest)
      → ((ex.expect_array r).0 ≡ n) × (law.input (ex.expect_array r).1 ≡ some rest)
  pub u8_there :
      (r : R) (n : ℕ) (rest : List ℕ)
      → n < 2 ^ 8
      → law.input r ≡ some (enc (Tag.uint n) ++ rest)
      → ((ex.expect_u8 r).0 ≡ n) × (law.input (ex.expect_u8 r).1 ≡ some rest)
  pub u32_there :
      (r : R) (n : ℕ) (rest : List ℕ)
      → n < u32_mod
      → law.input r ≡ some (enc (Tag.uint n) ++ rest)
      → ((ex.expect_u32 r).0 ≡ n) × (law.input (ex.expect_u32 r).1 ≡ some rest)

-- The error or the result is no object, or one that comes back.
abbrev pub IsWholePointer : Option Object → Type 0
IsWholePointer none = Unit
IsWholePointer (some o) = IsWhole o

pub WholePointer-IsInside : (p : Option Object) → IsWholePointer p → IsInsidePointer p
WholePointer-IsInside none f = tt
WholePointer-IsInside (some o) f = Whole-IsInside o f

-- A nil object comes back as none.
pub keep : Object → Option Object
unfolding is_nil
keep o = if is_nil (some o) then none else some o

unfoldable pub reborn_pointer : Option Object → Option Object
unfolding keep
reborn_pointer none = none
reborn_pointer (some o) = keep (reborn o)

abbrev pub Weighs : Option Object → ℕ → Type 0
Weighs none fuel = Unit
Weighs (some o) fuel = weight o ≤ fuel

-- Both are there with the same content, or none is.
abbrev pub SameContent : Option Object → Option Object → Type 0
SameContent none none = Unit
SameContent (some a) (some b) = canonical a ≡ canonical b
SameContent _ _ = ⊥

is_nil-canonical : (o : Object) → is_nil (some (canonical o)) ≡ is_nil (some o)
unfolding is_nil canonical
is_nil-canonical (object und size) = refl
is_nil-canonical (object nil size) = refl
is_nil-canonical (object (bool b) size) = refl
is_nil-canonical (object (int z) size) = refl
is_nil-canonical (object (uint n) size) = refl
is_nil-canonical (object (float x) size) = refl
is_nil-canonical (object (double x) size) = refl
is_nil-canonical (object (str (some s)) size) = refl
is_nil-canonical (object (str none) size) = refl
is_nil-canonical (object (bin (some b)) size) = refl
is_nil-canonical (object (bin none) size) = refl
is_nil-canonical (object (array slots capacity) size) = refl
is_nil-canonical (object null_array size) = refl
is_nil-canonical (object null_map size) = refl
is_nil-canonical (object (map_pair k v) size) = refl
is_nil-canonical (object (map_table pairs capacity) size) = refl

is_nil-Came : (v o : Object) → canonical v ≡ canonical o → is_nil (some v) ≡ is_nil (some o)
is_nil-Came v o e = sym (is_nil-canonical v) ∙ ap (λ x. is_nil (some x)) e ∙ is_nil-canonical o

module _ {R : Type 0} (rd : Reader R) (enc : Tag → List ℕ) (law : Reads rd enc) where
  -- The pointer after a nil object is given back.
  without_nil-Same :
      (v o : Object) (rest : List ℕ) (c : Cursor R)
      → Came rd enc law o rest v c
      → SameContent (without_nil rd (some v) c).0 (keep o)
        × At rd enc law (without_nil rd (some v) c).1 rest
  unfolding without_nil keep free_pointer
  without_nil-Same v o rest c (same, (i, a)) = elim (Bool-cases (is_nil (some o))) [
    | inl n ↦ rw (is_nil-Came v o same, n) (tt, (i, plan-free_object v c.heap ∙ a))
    | inr n ↦ rw (is_nil-Came v o same, n) (same, (i, a))
  ]

  -- An item that reads what stands for this pointer.
  abbrev pub Pointer : S R (Option Object) → Option Object → Type 0
  Pointer item p =
      (rest : List ℕ) (c : Cursor R)
      → At rd enc law c (pointer_bytes enc p ++ rest)
      → (o : Object) × (reborn_pointer p ≡ keep o) × Gives (item c) (Came rd enc law o rest)

  pub read_object-Pointer :
      (fuel : ℕ) (p : Option Object)
      → IsWholePointer p
      → Weighs p fuel
      → Pointer (read_object rd (suc fuel)) p
  unfolding reborn_pointer keep is_nil
  read_object-Pointer fuel none w k rest c at =
      (object nil 0, refl, nil-Gives rd enc law fuel rest c at)
  read_object-Pointer fuel (some o) w k rest c at =
      (reborn o, refl, object_back rd enc law o (suc fuel) rest c (omega (arith, k)) w at)

  -- The response came with this id, and with the content of this error and this result.
  abbrev pub CameBack : ℕ → Option Object → Option Object → List ℕ → Response → Cursor R → Type 0
  CameBack id e p rest r c =
      (r.type ≡ rpc_response)
      × (r.msgid ≡ id)
      × SameContent r.error (reborn_pointer e)
      × SameContent r.result (reborn_pointer p)
      × At rd enc law c rest

  -- A pointer that was read, after the test of the reader.
  pointer_kept :
      (o : Object) (p : Option Object) (rest : List ℕ) (r : Option Object × Cursor R)
      → reborn_pointer p ≡ keep o
      → Gives r (Came rd enc law o rest)
      → (law.input r.1.reader ≡ some rest)
        × SameContent (without_nil rd r.0 r.1).0 (reborn_pointer p)
        × At rd enc law (without_nil rd r.0 r.1).1 rest
  pointer_kept o p rest (none, c) e g = absurd g
  pointer_kept o p rest (some v, c) e g =
      let (same, at) = without_nil-Same v o rest c g in
      (g.1.0, subst (SameContent (without_nil rd (some v) c).0) (sym e) same, at)

  result-Gives :
      (item : S R (Option Object)) (r : Response) (id : ℕ) (e p : Option Object) (rest : List ℕ)
      (c : Cursor R)
      → r.type ≡ rpc_response
      → r.msgid ≡ id
      → SameContent r.error (reborn_pointer e)
      → Pointer item p
      → At rd enc law c (pointer_bytes enc p ++ rest)
      → Gives (read_result rd item r c) (CameBack id e p rest)
  unfolding read_result failed
  result-Gives item r id e p rest c t i s k at =
      let (o, eq, came) = k rest c at in
      let (there, same, (left, ample)) = pointer_kept o p rest (item c) eq came in
      let d = (without_nil rd (item c).0 (item c).1).1 in
      let left' = law.input_done_array d.reader ∙ left in
      rw
        (
          law.failed_not (item c).1.reader rest there,
          law.failed_not (rd.done_array d.reader) rest left',
        )
        (t, i, s, same, (left', ample))

  error-Gives :
      (item : S R (Option Object)) (r : Response) (id : ℕ) (e p : Option Object) (rest : List ℕ)
      (c : Cursor R)
      → r.type ≡ rpc_response
      → r.msgid ≡ id
      → Pointer item e
      → Pointer item p
      → At rd enc law c (pointer_bytes enc e ++ (pointer_bytes enc p ++ rest))
      → Gives (read_error rd item r c) (CameBack id e p rest)
  unfolding read_error failed
  error-Gives item r id e p rest c t i k l at =
      let (o, eq, came) = k (pointer_bytes enc p ++ rest) c at in
      let (there, same, at') = pointer_kept o e (pointer_bytes enc p ++ rest) (item c) eq came in
      let kept = without_nil rd (item c).0 (item c).1 in
      rw (law.failed_not (item c).1.reader _ there)
        (result-Gives item (record r { error = kept.0 }) id e p rest kept.1 t i same l at')

module _ {R : Type 0} (rd : Reader R) (ex : ExpectHead R) (enc : Tag → List ℕ) (law : Reads rd enc)
    (expects : ExpectsHead law ex) where
  pub message-Gives :
      (item : S R (Option Object)) (id : ℕ) (e p : Option Object) (rest : List ℕ) (c : Cursor R)
      → id < u32_mod
      → Pointer rd enc law item e
      → Pointer rd enc law item p
      → At rd enc law c (
          enc (Tag.array 4)
          ++ (enc (Tag.uint rpc_response)
              ++ (enc (Tag.uint id) ++ (pointer_bytes enc e ++ (pointer_bytes enc p ++ rest)))))
      → Gives (read_message rd ex item c) (CameBack rd enc law id e p rest)
  unfolding read_message read_fields failed Response.new
  message-Gives item id e p rest c small k l (i, a) =
      let (four, i₁) = expects.array_there c.reader 4 _ i in
      let r₁ = (ex.expect_array c.reader).1 in
      let (given, a₁) = alloc-IsAmple c.heap a in
      let (one, i₂) = expects.u8_there r₁ rpc_response _ (omega arith) i₁ in
      let r₂ = (ex.expect_u8 r₁).1 in
      let (got, i₃) = expects.u32_there r₂ id _ small i₂ in
      let r₃ = (ex.expect_u32 r₂).1 in
      rw
        (
          law.failed_not r₁ _ i₁,
          four,
          given,
          law.failed_not r₂ _ i₂,
          one,
          law.failed_not r₃ _ i₃,
          got,
        )
        (error-Gives rd enc law item
          (record { type = rpc_response; msgid = id; error = none; result = none }) id e p rest
          (record { reader = r₃; heap = (alloc c.heap).1 }) refl refl k l (i₃, a₁))
