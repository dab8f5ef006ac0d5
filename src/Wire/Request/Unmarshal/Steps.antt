-- ===== src/Wire/Request/Unmarshal/Steps.antt =====
-- Steps of RequestUnmarshal on input that stands in its encoding: tags, parameters, and what is read
-- back of a value that was written.
use haze.Base.{
  ℕ, suc, ◌%◌, ◌<◌, ◌≡◌, refl, ap, sym, ◌∙◌, subst, ℤ, pos, negsuc, Option, some, List, [], ◌∷◌,
  ◌++◌, true, length, take, take-append, IsText, c_string_text, arith,
}
use haze.Memory.{M, Heap, IsAmple, alloc, alloc-IsAmple, free, free-IsAmple}
use haze.Object
use haze.Object.{
  Value, Object, Slots, ObjectArray, und, nil, bool, int, uint, float, double, str, bin, array,
  null_array, null_map, map_pair, map_table, object, end, slot, hole,
}
use haze.Object.Copy.{count, snoc, copy}
use haze.Object.Copy.Content.{
  canonical, canonical_slots, IsFull, copy-Same, copy-Total, append_copy-Appended, append_copy-Went,
}
use haze.Object.Array
use haze.Object.Array.Laws.{append_elements}
use haze.Wire.Mpack.{Tag, Reader, Reads}
use haze.Wire.Encode.{u32_mod, IsInsideValue, IsInsideSlots}
use haze.Wire.Encode.Bytes.{value_bytes}
use haze.Wire.Request.{Request}
use haze.Wire.Request.Params.{param_append, append_at}
use haze.Wire.Request.Unmarshal.{
  Result, ok, stop, Parse, P, continue, ◌>>=◌, mem, call, add_param, read_param, request_of,
}

pub append-back :
    (a : ObjectArray) (o : Object) (h : Heap)
    → IsAmple h
    → IsFull o
    → ((Array.append a (some o) h).0.0 ≡ true)
      × IsAmple (Array.append a (some o) h).1
      × (canonical_slots (Array.append a (some o) h).0.1.slots
          ≡ snoc (canonical_slots a.slots) (canonical o))
unfolding Array.append
append-back a o h e f =
    let went = append_copy-Went a (copy o) h (λ g k. copy-Total o g k f) e in
    let added = append_copy-Appended a (copy o) o (copy-Same o) h in
    (ground arith, ground arith, ground arith)

-- The request with these fields.
abbrev pub req : ℕ → ℕ → List ℕ → ObjectArray → Request
req type id m a = record { type = type; msgid = id; method = some m; parameters = some a }

param_append-back :
    (type id : ℕ) (m : List ℕ) (a : ObjectArray) (o : Object) (h : Heap)
    → IsAmple h
    → IsFull o
    → (b : ObjectArray) × (request_of (param_append (req type id m a) (some o) (count a.slots) h).0
        ≡ some (req type id m b))
      × IsAmple (param_append (req type id m a) (some o) (count a.slots) h).1
      × (count b.slots ≡ suc (count a.slots))
      × (canonical_slots b.slots ≡ snoc (canonical_slots a.slots) (canonical o))
unfolding param_append append_at
param_append-back type id m a o h e f =
    let (done, ample, added) = append-back a o h e f in
    (
      (Array.append a (some o) h).0.1,
      ground arith,
      ground arith,
      ground (arith, append_elements a (some o) h),
      added,
    )

-- The action went on, and `Q` holds of its result and of the variables after it.
abbrev pub Goes {ℓ} :
    {R : Type 0} {A : Type ℓ} → Result A × Parse R → (A → Parse R → Type 0) → Type 0
Goes (ok a, s) Q = Q a s
Goes (stop h, s) Q = ⊥

pub Goes-then {ℓ κ} :
    {R : Type 0} {A : Type ℓ} {B : Type κ} (m : Result A × Parse R) (f : A → P R B)
    (Q : A → Parse R → Type 0) (Q' : B → Parse R → Type 0)
    → Goes m Q
    → ((a : A) (s : Parse R) → Q a s → Goes (f a s) Q')
    → Goes (continue m.0 f m.1) Q'
Goes-then (ok a, s) f Q Q' g k = k a s g
Goes-then (stop h, s) f Q Q' g k = absurd g

-- What is read back of a value that was written: an integer of no sign is unsigned, what has no
-- encoding of its own is nil, and the sizes are those that the constructors set.
reread_int : ℤ → Object
reread_int (pos n) = object (uint n) 8
reread_int (negsuc n) = object (int (negsuc n)) 8

reread_value : Value → Object
unfolding reread_int
reread_value (bool b) = object (bool b) 1
reread_value (int z) = reread_int z
reread_value (uint n) = object (uint n) 8
reread_value (float x) = object (float x) 4
reread_value (double x) = object (double x) 8
reread_value (str (some s)) = object (str (some s)) (length s)
reread_value _ = object nil 0

unfoldable pub reread : Object → Object
unfolding reread_value
reread (object v size) = reread_value v

unfoldable pub reread_slots : Slots → Slots
unfolding reread
reread_slots end = end
reread_slots (slot o rest) = slot (reread o) (reread_slots rest)
reread_slots (hole rest) = slot (object nil 0) (reread_slots rest)

-- A value that is no array, no bin and no map; a string has its length for its size, below 2 ^ 32,
-- and holds no 0.
abbrev pub IsFlatValue : Value → ℕ → Type 0
IsFlatValue (array slots capacity) size = ⊥
IsFlatValue (str (some s)) size = (size ≡ length s) × IsText s × (length s < u32_mod)
IsFlatValue (bin (some b)) size = ⊥
IsFlatValue null_map size = ⊥
IsFlatValue (map_pair k v) size = ⊥
IsFlatValue (map_table pairs capacity) size = ⊥
IsFlatValue _ size = Unit

abbrev pub IsFlat : Object → Type 0
IsFlat (object v size) = IsFlatValue v size

abbrev pub IsFlatSlots : Slots → Type 0
IsFlatSlots end = Unit
IsFlatSlots (slot o rest) = IsFlat o × IsFlatSlots rest
IsFlatSlots (hole rest) = IsFlatSlots rest

FlatValue-IsInside : (v : Value) (size : ℕ) → IsFlatValue v size → IsInsideValue v size
FlatValue-IsInside (str (some s)) size f = omega (arith, f.0)
FlatValue-IsInside (array slots capacity) size f = absurd f
FlatValue-IsInside _ size f = tt

pub Flat-IsInside : (s : Slots) → IsFlatSlots s → IsInsideSlots s
Flat-IsInside end f = tt
Flat-IsInside (slot (object v size) rest) f =
    (FlatValue-IsInside v size f.0, Flat-IsInside rest f.1)
Flat-IsInside (hole rest) f = Flat-IsInside rest f

module _ {R : Type 0} (rd : Reader R) (enc : Tag → List ℕ) (law : Reads rd enc) where
  -- The reader stands before these bytes, memory is ample, and the request is this.
  pub record Now (s : Parse R) (bytes : List ℕ) (q : Option Request) : Type 0 where
    pub input : law.input s.reader ≡ some bytes
    pub ample : IsAmple s.heap
    pub request : s.request ≡ q

  pub tag-then {κ} :
      {B : Type κ} (Q : B → Parse R → Type 0) (t : Tag) (f : Tag → P R B) (s : Parse R)
      (rest : List ℕ) (q : Option Request)
      → Now s (enc t ++ rest) q
      → ((s' : Parse R) → Now s' rest q → Goes (f t s') Q)
      → Goes ((call rd.read_tag >>= f) s) Q
  tag-then Q t f s rest q n k =
      let (tag, left) = law.tag_there s.reader t rest n.input in
      subst (λ u. Goes (f u (record s { reader = (rd.read_tag s.reader).1 })) Q) (sym tag)
        (k (record s { reader = (rd.read_tag s.reader).1 })
          (record { input = left; ample = n.ample; request = n.request }))

  -- A parameter was added whose content is that of `o`.
  unfoldable pub Added : ℕ → ℕ → List ℕ → ObjectArray → Object → List ℕ → Parse R → Type 0
  Added type id m a o rest s =
      (b : ObjectArray) × Now s rest (some (req type id m b))
      × (count b.slots ≡ suc (count a.slots))
      × (canonical_slots b.slots ≡ snoc (canonical_slots a.slots) (canonical o))

  pub add_param-back :
      (type id : ℕ) (m : List ℕ) (a : ObjectArray) (o : Object) (make : M (Option Object))
      (rest : List ℕ) (s : Parse R)
      → Now s rest (some (req type id m a))
      → IsFull o
      → (make s.heap).0 ≡ some o
      → IsAmple (make s.heap).1
      → Goes (add_param make (count a.slots) s) (λ _. Added type id m a o rest)
  unfolding add_param Added
  add_param-back type id m a o make rest s n f made ample =
      let (b, got_b, ample', len, same) = param_append-back type id m a o (make s.heap).1 ample f in
      rw (made, n.request, got_b)
        (b, record { input = n.input; ample = ample'; request = refl }, len, same)

  -- With ample memory `make` returns `o`, and memory stays ample.
  unfoldable pub Makes : M (Option Object) → Object → Type 0
  Makes make o = (h : Heap) → IsAmple h → ((make h).0 ≡ some o) × IsAmple (make h).1

  pub scalar-back :
      (type id : ℕ) (m : List ℕ) (a : ObjectArray) (o : Object) (make : M (Option Object)) (t : Tag)
      (rest : List ℕ) (s : Parse R)
      → read_param rd t (count a.slots) ≡ add_param make (count a.slots)
      → Makes make o
      → IsFull o
      → Now s (enc t ++ rest) (some (req type id m a))
      → Goes
          ((call rd.read_tag >>= λ u. read_param rd u (count a.slots)) s)
          (λ _. Added type id m a o rest)
  unfolding Makes
  scalar-back type id m a o make t rest s e k f n =
      tag-then (λ _. Added type id m a o rest) t (λ u. read_param rd u (count a.slots)) s rest
        (some (req type id m a)) n
        λ s' n'. rw e (
          add_param-back type id m a o make rest s' n' f (k s'.heap n'.ample).0
            (k s'.heap n'.ample).1)

  pub text_bytes :
      (s : List ℕ)
      → length s < u32_mod
      → value_bytes enc (str (some s)) (length s) ≡ enc (Tag.str (length s)) ++ s
  unfolding value_bytes
  text_bytes s h =
      let e : length s % u32_mod ≡ length s = omega arith in
      ap (λ t. enc (Tag.str (length t)) ++ t)
        (ap (λ n. take n (s ++ 0 ∷ [])) e ∙ take-append s (0 ∷ []))

  pub Makes-str :
      (s : List ℕ) → Makes (Object.create_str (some s)) (object (str (some s)) (length s))
  unfolding Makes Object.create_str
  Makes-str s h e = ground (arith, alloc-IsAmple h, alloc-IsAmple (alloc h).1)

  -- Giving back a block changes nothing else.
  pub Added-free :
      (type id : ℕ) (m : List ℕ) (a : ObjectArray) (o : Object) (rest : List ℕ) (k : ℕ)
      (u : Unit {0}) (s : Parse R)
      → Added type id m a o rest s
      → Goes (mem (free k) s) (λ _. Added type id m a o rest)
  unfolding Added
  Added-free type id m a o rest k u s (b, n, len, same) = (
    b,
    record { input = n.input; ample = free-IsAmple k s.heap n.ample; request = n.request },
    len,
    same,
  )

  pub text-back :
      (type id : ℕ) (m : List ℕ) (a : ObjectArray) (text rest : List ℕ) (s : Parse R)
      → IsText text
      → Now s (enc (Tag.str (length text)) ++ (text ++ rest)) (some (req type id m a))
      → Goes
          ((call rd.read_tag >>= λ u. read_param rd u (count a.slots)) s)
          (λ _. Added type id m a (object (str (some text)) (length text)) rest)
  unfolding read_param Makes
  text-back type id m a text rest s clean n =
      tag-then _ (Tag.str (length text)) (λ u. read_param rd u (count a.slots)) s (text ++ rest)
        (some (req type id m a)) n
        λ s' n'.
          let (given, ample) = alloc-IsAmple s'.heap n'.ample in
          let (bytes, left) = law.bytes_there s'.reader text rest n'.input in
          let (made, ample') = Makes-str text (alloc s'.heap).1 ample in
          rw (given, bytes, c_string_text text clean)
            (Goes-then _ (λ (x : Unit {0}). mem (free 1))
              (λ _. Added type id m a (object (str (some text)) (length text)) rest) _
              (add_param-back type id m a (object (str (some text)) (length text))
                (Object.create_str (some text)) rest
                (record {
                  reader = (rd.read_bytes (length text) s'.reader).1;
                  heap = (alloc s'.heap).1;
                  request = s'.request;
                })
                (record { input = left; ample = ample; request = n'.request }) tt made ample')
              (Added-free type id m a (object (str (some text)) (length text)) rest 1))
