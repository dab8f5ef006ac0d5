-- ===== src/Wire/Request/Unmarshal/Back.antt =====
-- What RequestUnmarshal reads from the bytes that RequestMarshal writes.
use haze.Base.{
  ℕ, suc, ◌≡◌, refl, ap, sym, ◌∙◌, subst, ℤ, pos, negsuc, some, List, ◌++◌, append_assoc, Bool,
  length, arith,
}
use haze.Memory.{alloc-IsAmple}
use haze.Object
use haze.Object.{
  Value, Object, Slots, ObjectArray, und, nil, bool, int, uint, float, double, str, bin, array,
  null_array, null_map, map_pair, map_table, object, end, slot, hole,
}
use haze.Object.Copy.{count}
use haze.Object.Copy.Content.{canonical, canonical_slots, join, join-snoc, join-end}
use haze.Wire.Mpack.{Tag, Reader, Reads, int_tag}
use haze.Wire.Encode.Bytes.{object_bytes, slots_bytes, value_bytes}
use haze.Wire.Request.Unmarshal.Steps.{
  Goes, Goes-then, Now, Added, Makes, scalar-back, text_bytes, text-back, req, reread, reread_slots,
  IsFlat, IsFlatValue, IsFlatSlots,
}
use haze.Wire.Request.Unmarshal.{Parse, ◌>>=◌, call, read_param, read_params}

module _ {R : Type 0} (rd : Reader R) (enc : Tag → List ℕ) (law : Reads rd enc) where
  pub create_nil-Makes : Makes rd enc law Object.create_nil (object nil 0)
  unfolding Makes Object.create_nil
  create_nil-Makes h e = ground (arith, alloc-IsAmple h)

  pub create_bool-Makes : (b : Bool) → Makes rd enc law (Object.create_bool b) (object (bool b) 1)
  unfolding Makes Object.create_bool
  create_bool-Makes b h e = ground (arith, alloc-IsAmple h)

  pub create_int-Makes : (z : ℤ) → Makes rd enc law (Object.create_int z) (object (int z) 8)
  unfolding Makes Object.create_int
  create_int-Makes z h e = ground (arith, alloc-IsAmple h)

  pub create_uint-Makes : (n : ℕ) → Makes rd enc law (Object.create_uint n) (object (uint n) 8)
  unfolding Makes Object.create_uint
  create_uint-Makes n h e = ground (arith, alloc-IsAmple h)

  pub create_float-Makes : (x : ℕ) → Makes rd enc law (Object.create_float x) (object (float x) 4)
  unfolding Makes Object.create_float
  create_float-Makes x h e = ground (arith, alloc-IsAmple h)

  pub create_double-Makes :
      (x : ℕ) → Makes rd enc law (Object.create_double x) (object (double x) 8)
  unfolding Makes Object.create_double
  create_double-Makes x h e = ground (arith, alloc-IsAmple h)

  module _ (type id : ℕ) (m : List ℕ) (a : ObjectArray) (rest : List ℕ) (s : Parse R) where
    -- The next parameter was read and added as `o`.
    abbrev Read : Object → Type 0
    Read o =
        Goes ((call rd.read_tag >>= λ u. read_param rd u (count a.slots)) s)
          (λ _. Added rd enc law type id m a o rest)

    nil-back : Now rd enc law s (enc Tag.nil ++ rest) (some (req type id m a)) → Read (object nil 0)
    unfolding read_param
    nil-back n =
        scalar-back rd enc law type id m a (object nil 0) Object.create_nil Tag.nil rest s refl
          create_nil-Makes tt n

    int-back :
        (z : ℤ)
        → Now rd enc law s (enc (int_tag z) ++ rest) (some (req type id m a))
        → Read (reread (object (int z) 0))
    unfolding read_param reread
    int-back (pos k) n =
        scalar-back rd enc law type id m a (object (uint k) 8) (Object.create_uint k) (Tag.uint k)
          rest s refl (create_uint-Makes k) tt n
    int-back (negsuc k) n =
        scalar-back rd enc law type id m a (object (int (negsuc k)) 8)
          (Object.create_int (negsuc k)) (Tag.int (negsuc k)) rest s refl
          (create_int-Makes (negsuc k)) tt n

    str-back :
        (t : List ℕ) (size : ℕ)
        → IsFlatValue (str (some t)) size
        → Now rd enc law s (value_bytes enc (str (some t)) size ++ rest) (some (req type id m a))
        → Read (object (str (some t)) (length t))
    str-back t size (sized, clean, small) n = text-back rd enc law type id m a t rest s clean (
        subst (λ bytes. Now rd enc law s bytes (some (req type id m a)))
          (ap (λ k. value_bytes enc (str (some t)) k ++ rest) sized
            ∙ ap (λ bytes. bytes ++ rest) (text_bytes rd enc law t small)
            ∙ append_assoc (enc (Tag.str (length t))) t rest)
          n)

    value-back :
        (v : Value) (size : ℕ)
        → IsFlatValue v size
        → Now rd enc law s (value_bytes enc v size ++ rest) (some (req type id m a))
        → Read (reread (object v size))
    unfolding read_param value_bytes reread
    value-back (bool b) size f n =
        scalar-back rd enc law type id m a (object (bool b) 1) (Object.create_bool b) (Tag.bool b)
          rest s refl (create_bool-Makes b) tt n
    value-back (int z) size f n = int-back z n
    value-back (uint k) size f n =
        scalar-back rd enc law type id m a (object (uint k) 8) (Object.create_uint k) (Tag.uint k)
          rest s refl (create_uint-Makes k) tt n
    value-back (float x) size f n =
        scalar-back rd enc law type id m a (object (float x) 4) (Object.create_float x)
          (Tag.float x) rest s refl (create_float-Makes x) tt n
    value-back (double x) size f n =
        scalar-back rd enc law type id m a (object (double x) 8) (Object.create_double x)
          (Tag.double x) rest s refl (create_double-Makes x) tt n
    value-back (str (some t)) size f n = str-back t size f n
    value-back (bin (some b)) size f n = absurd f
    value-back (array slots capacity) size f n = absurd f
    value-back null_map size f n = absurd f
    value-back (map_pair k w) size f n = absurd f
    value-back (map_table pairs capacity) size f n = absurd f
    value-back _ size f n = nil-back n

    object-back :
        (o : Object)
        → IsFlat o
        → Now rd enc law s (object_bytes enc o ++ rest) (some (req type id m a))
        → Read (reread o)
    unfolding value_bytes
    object-back (object v size) f n = value-back v size f n

  -- All the parameters were read: the request holds those that it had, and `todo` as it is read back.
  unfoldable pub Filled : ℕ → ℕ → List ℕ → ObjectArray → Slots → List ℕ → Parse R → Type 0
  Filled type id m a todo rest s =
      (b : ObjectArray) × Now rd enc law s rest (some (req type id m b))
      × (canonical_slots b.slots ≡ join (canonical_slots a.slots) (canonical_slots todo))

  -- After one more parameter the others are read.
  Filled-step :
      (type id : ℕ) (m : List ℕ) (a : ObjectArray) (o : Object) (todo : Slots)
      (behind rest : List ℕ) (n : ℕ) (s : Parse R)
      → ((b : ObjectArray) (t : Parse R)
          → Now rd enc law t behind (some (req type id m b))
          → Goes (read_params rd n (count b.slots) t) (λ _. Filled type id m b todo rest))
      → Added rd enc law type id m a o behind s
      → Goes (read_params rd n (suc (count a.slots)) s) (λ _. Filled type id m a (slot o todo) rest)
  unfolding Added Filled canonical
  Filled-step type id m a o todo behind rest n s k (b, now, len, same) =
      let e : join (canonical_slots b.slots) (canonical_slots todo)
          ≡ join (canonical_slots a.slots) (slot (canonical o) (canonical_slots todo)) =
        ap (λ t. join t (canonical_slots todo)) same
        ∙ join-snoc (canonical_slots a.slots) (canonical o) (canonical_slots todo) in
      subst (λ i. Goes (read_params rd n i s) (λ _. Filled type id m a (slot o todo) rest)) len
        (subst
          (λ t. Goes (read_params rd n (count b.slots) s) (λ _ s'.
            (c : ObjectArray) × Now rd enc law s' rest (some (req type id m c))
            × (canonical_slots c.slots ≡ t)))
          e (k b s now))

  pub read_params-back :
      (type id : ℕ) (m : List ℕ) (todo : Slots) (a : ObjectArray) (rest : List ℕ) (s : Parse R)
      → IsFlatSlots todo
      → Now rd enc law s (slots_bytes enc todo ++ rest) (some (req type id m a))
      → Goes
          (read_params rd (count todo) (count a.slots) s)
          (λ _. Filled type id m a (reread_slots todo) rest)
  unfolding read_params slots_bytes reread_slots Filled canonical
  read_params-back type id m end a rest s f n = (a, n, sym (join-end (canonical_slots a.slots)))
  read_params-back type id m (slot o todo) a rest s (f, g) n =
      Goes-then _ (λ (x : Unit {0}). read_params rd (count todo) (suc (count a.slots))) _
        (λ _. Filled type id m a (slot (reread o) (reread_slots todo)) rest)
        (object-back type id m a (slots_bytes enc todo ++ rest) s o f (
          subst (λ bytes. Now rd enc law s bytes (some (req type id m a)))
            (append_assoc (object_bytes enc o) (slots_bytes enc todo) rest) n))
        (λ x t added.
          Filled-step type id m a (reread o) (reread_slots todo) (slots_bytes enc todo ++ rest) rest
            (count todo) t (λ b u now. read_params-back type id m todo b rest u g now) added)
  read_params-back type id m (hole todo) a rest s g n =
      Goes-then _ (λ (x : Unit {0}). read_params rd (count todo) (suc (count a.slots))) _
        (λ _. Filled type id m a (slot (object nil 0) (reread_slots todo)) rest)
        (nil-back type id m a (slots_bytes enc todo ++ rest) s (
          subst (λ bytes. Now rd enc law s bytes (some (req type id m a)))
            (append_assoc (enc Tag.nil) (slots_bytes enc todo) rest) n))
        (λ x t added.
          Filled-step type id m a (object nil 0) (reread_slots todo) (slots_bytes enc todo ++ rest)
            rest (count todo) t (λ b u now. read_params-back type id m todo b rest u g now) added)
