-- ===== src/Wire/Response/Unmarshal/Back.antt =====
-- ObjectUnmarshalMPack on the bytes that ObjectMarshalMPack writes.
use haze.Base.{
  ℕ, zero, suc, ◌%◌, ◌≡◌, refl, ap, sym, subst, ◌∙◌, ◌++◌, ◌≤◌, ℤ, pos, negsuc, Option, none, some,
  List, length, IsText, c_string_text, append_assoc, arith, take,
}
use haze.Memory.{alloc, alloc-IsAmple, free-IsAmple}
use haze.Buffer
use haze.Buffer.{RawBuffer}
use haze.Object
use haze.Object.{
  Value, Object, ObjectArray, Slots, und, nil, bool, int, uint, float, double, str, bin, array,
  object, end, slot, hole,
}
use haze.Object.Copy.{count, snoc, create_array}
use haze.Object.Copy.Content.{
  canonical, canonical_slots, canonical_bytes, IsFull, join, join-snoc, join-end,
}
use haze.Object.Array
use haze.Wire.Mpack.{Tag, Reader, Reads, int_tag}
use haze.Wire.Encode.{u32_mod}
use haze.Wire.Encode.Bytes.{value_bytes, object_bytes, slots_bytes}
use haze.Wire.Cursor.{Cursor, S}
use haze.Wire.Cursor.Steps.{Gives, Gives-then, Gives-mono, At, Came, made-Gives}
use haze.Wire.Request.Unmarshal.Steps.{append-back, Makes, Makes-str, text_bytes}
use haze.Wire.Request.Unmarshal.Back.{
  create_nil-Makes, create_bool-Makes, create_int-Makes, create_uint-Makes, create_float-Makes,
  create_double-Makes,
}
use haze.Wire.Notification.Unmarshal.Laws.{IsFull-of, weight, weight_value, weight_slots}
use haze.Wire.Response.Unmarshal.{
  read_object, read_tagged, read_elements, read_array, read_str, read_bin, bin_object, array_object,
  array_value, array_done, append_to, failed,
}
use haze.Wire.Response.Unmarshal.Reborn.{
  HasBytes, IsWholeValue, IsWhole, IsWholeSlots, reborn_int, reborn_bin, reborn_value, reborn,
  reborn_slots, reborn-IsFull, new_there, bin_same,
}

module _ {R : Type 0} (rd : Reader R) (enc : Tag → List ℕ) (law : Reads rd enc) where
  tag-Gives :
      (fuel : ℕ) (o : Object) (t : Tag) (bytes rest : List ℕ) (c : Cursor R)
      → ((c' : Cursor R)
          → At rd enc law c' bytes
          → Gives (read_tagged rd (read_object rd fuel) t c') (Came rd enc law o rest))
      → At rd enc law c (enc t ++ bytes)
      → Gives (read_object rd (suc fuel) c) (Came rd enc law o rest)
  unfolding read_object failed
  tag-Gives fuel o t bytes rest c k (i, a) =
      let (tag, left) = law.tag_there c.reader t bytes i in
      let c' : Cursor R = record c { reader = (rd.read_tag c.reader).1 } in
      rw (law.failed_not (rd.read_tag c.reader).1 bytes left) (
        subst (λ u. Gives (read_tagged rd (read_object rd fuel) u c') (Came rd enc law o rest))
          (sym tag) (k c' (left, a)))

  str-Gives :
      (item : S R (Option Object)) (s rest : List ℕ) (c : Cursor R)
      → IsText s
      → At rd enc law c (s ++ rest)
      → Gives
          (read_tagged rd item (Tag.str (length s)) c)
          (Came rd enc law (object (str (some s)) (length s)) rest)
  unfolding read_tagged read_str Makes
  str-Gives item s rest c clean (i, a) =
      let (given, ample) = alloc-IsAmple c.heap a in
      let (got, left) = law.bytes_there c.reader s rest i in
      let (made, ample') = Makes-str rd enc law s (alloc c.heap).1 ample in
      let r = (rd.read_bytes (length s) c.reader).1 in
      rw (given, got, c_string_text s clean, made)
        (
          refl,
          (
            law.input_done_str r ∙ left,
            free-IsAmple 1 (Object.create_str (some s) (alloc c.heap).1).1 ample',
          ),
        )

  bin-Gives :
      (item : S R (Option Object)) (bytes rest : List ℕ) (n : ℕ) (c : Cursor R)
      → length (take n bytes) ≡ n
      → At rd enc law c (take n bytes ++ rest)
      → Gives
          (read_tagged rd item (Tag.bin n) c)
          (Came rd enc law (object (bin (some (canonical_bytes (some bytes) n))) n) rest)
  unfolding read_tagged read_bin bin_object Object.new canonical
  bin-Gives item bytes rest n c sized (i, a) =
      let (given, a₁) = alloc-IsAmple c.heap a in
      let (got, left) =
        subst
          (λ k.
            ((rd.read_bytes k c.reader).0 ≡ take n bytes)
            × (law.input (rd.read_bytes k c.reader).1 ≡ some rest))
          sized (law.bytes_there c.reader (take n bytes) rest i) in
      let r = (rd.read_bytes n c.reader).1 in
      let (given', a₂) = alloc-IsAmple (alloc c.heap).1 a₁ in
      let h = (alloc (alloc c.heap).1).1 in
      let (x, made, same, a₃) = new_there (take n bytes) n h a₂ in
      rw (given, got, given', made)
        (
          ap (λ v. object v n) (same ∙ bin_same bytes n),
          (law.input_done_bin r ∙ left, free-IsAmple 1 (Buffer.new (some (take n bytes)) n h).1 a₃),
        )

  -- `item` reads each of these objects, wherever it stands.
  abbrev Items : S R (Option Object) → Slots → Type 0
  Items item end = Unit
  Items item (hole rest) = ⊥
  Items item (slot o rest) =
      ((behind : List ℕ) (c : Cursor R)
        → At rd enc law c (object_bytes enc o ++ behind)
        → Gives (item c) (Came rd enc law (reborn o) behind))
      × Items item rest

  -- The array with the elements of `before` and then those of `slots`.
  abbrev Grown : Slots → Slots → List ℕ → ObjectArray → Cursor R → Type 0
  Grown before slots rest d c =
      (canonical_slots d.slots
        ≡ join (canonical_slots before) (canonical_slots (reborn_slots slots)))
      × At rd enc law c rest

  elements-Gives :
      (item : S R (Option Object)) (todo : Slots) (a : ObjectArray) (rest : List ℕ) (c : Cursor R)
      → IsWholeSlots todo
      → Items item todo
      → At rd enc law c (slots_bytes enc todo ++ rest)
      → Gives (read_elements rd item (count todo) (some a) c) (Grown a.slots todo rest)
  unfolding read_elements reborn_value canonical append_to slots_bytes
  elements-Gives item end a rest c k l at = (sym (join-end (canonical_slots a.slots)), at)
  elements-Gives item (hole todo) a rest c k l at = absurd k
  elements-Gives item (slot o todo) a rest c (k, ks) (l, ls) (i, ample) =
      let behind = slots_bytes enc todo ++ rest in
      let i' = i ∙ ap some (append_assoc (object_bytes enc o) (slots_bytes enc todo) rest) in
      Gives-then (item c) (read_elements rd item (count todo) (some a)) _
        (Came rd enc law (reborn o) behind) _ (l behind c (i', ample))
        λ v c' (same, (j, ample')).
          let full = IsFull-of v (subst IsFull (sym same) (reborn-IsFull o)) in
          let (done, ample'', added) = append-back a v c'.heap ample' full in
          let b = (Array.append a (some v) c'.heap).0.1 in
          let c'' : Cursor R = record c' { heap = (Array.append a (some v) c'.heap).1 } in
          let e : (canonical_slots b.slots)
              ≡ snoc (canonical_slots a.slots) (canonical (reborn o)) =
            added ∙ ap (snoc (canonical_slots a.slots)) same in
          Gives-mono (read_elements rd item (count todo) (some b) c'') _ _
            (λ d d' (same', at). (
              same'
                  ∙ ap (λ t. join t (canonical_slots (reborn_slots todo))) e
                  ∙ join-snoc (canonical_slots a.slots) (canonical (reborn o))
                      (canonical_slots (reborn_slots todo)),
              at,
            ))
            (elements-Gives item todo b rest c'' ks ls (j, ample''))

  closed :
      (slots : Slots) (rest : List ℕ) (r : Option ObjectArray × Cursor R)
      → Gives r (Grown end slots rest)
      → Gives
          (array_done rd r.0 r.1)
          (Came rd enc law (object (array (reborn_slots slots) 0) 0) rest)
  unfolding array_done array_object array_value canonical
  closed slots rest (none, c) g = absurd g
  closed slots rest (some d, c) (same, (i, a)) =
      let (given, ample) = alloc-IsAmple c.heap a in
      rw given (ap (λ t. object (array t 0) 0) same, (law.input_done_array c.reader ∙ i, ample))

  array-Gives :
      (item : S R (Option Object)) (slots : Slots) (rest : List ℕ) (c : Cursor R)
      → IsWholeSlots slots
      → Items item slots
      → At rd enc law c (slots_bytes enc slots ++ rest)
      → Gives
          (read_array rd item (count slots) c)
          (Came rd enc law (object (array (reborn_slots slots) 0) 0) rest)
  unfolding read_array create_array
  array-Gives item slots rest c k l (i, a) =
      let (given, ample) = alloc-IsAmple c.heap a in
      let (given', ample') = alloc-IsAmple (alloc c.heap).1 ample in
      let c' : Cursor R = record c { heap = (alloc (alloc c.heap).1).1 } in
      rw (given, given')
        (closed slots rest _ (
          elements-Gives item slots (record { slots = end; capacity = 8 }) rest c' k l (i, ample')))

  int-Gives :
      (fuel : ℕ) (z : ℤ) (rest : List ℕ) (c : Cursor R)
      → At rd enc law c (enc (int_tag z) ++ rest)
      → Gives (read_object rd (suc fuel) c) (Came rd enc law (reborn_int z) rest)
  unfolding read_tagged
  int-Gives fuel (pos n) rest c = tag-Gives fuel (object (uint n) 8) (Tag.uint n) rest rest c λ c'.
      made-Gives rd enc law (Object.create_uint n) (object (uint n) 8) rest c'
        (create_uint-Makes rd enc law n)
  int-Gives fuel (negsuc n) rest c =
      tag-Gives fuel (object (int (negsuc n)) 8) (Tag.int (negsuc n)) rest rest c λ c'.
        made-Gives rd enc law (Object.create_int (negsuc n)) (object (int (negsuc n)) 8) rest c'
          (create_int-Makes rd enc law (negsuc n))

  pub nil-Gives :
      (fuel : ℕ) (rest : List ℕ) (c : Cursor R)
      → At rd enc law c (enc Tag.nil ++ rest)
      → Gives (read_object rd (suc fuel) c) (Came rd enc law (object nil 0) rest)
  unfolding read_tagged
  nil-Gives fuel rest c = tag-Gives fuel (object nil 0) Tag.nil rest rest c λ c'.
      made-Gives rd enc law Object.create_nil (object nil 0) rest c' (create_nil-Makes rd enc law)

  bin_back :
      (fuel : ℕ) (bytes : Option (List ℕ)) (n : ℕ) (rest : List ℕ) (c : Cursor R)
      → HasBytes bytes n
      → At rd enc law c (value_bytes enc (bin (some (record { bytes = bytes; len = n }))) 0 ++ rest)
      → Gives (read_object rd (suc fuel) c) (Came rd enc law (reborn_bin bytes n) rest)
  unfolding value_bytes
  bin_back fuel none n rest c h at = nil-Gives fuel rest c at
  bin_back fuel (some bytes) n rest c (sized, small) (i, a) =
      let e : n % u32_mod ≡ n = omega (arith, small) in
      tag-Gives fuel (object (bin (some (canonical_bytes (some bytes) n))) n) (Tag.bin n)
        (take n bytes ++ rest) rest c
        (λ c' here. bin-Gives (read_object rd fuel) bytes rest n c' sized here)
        (
          i
              ∙ ap (λ k. some ((enc (Tag.bin (length (take k bytes))) ++ take k bytes) ++ rest)) e
              ∙ ap (λ k. some ((enc (Tag.bin k) ++ take n bytes) ++ rest)) sized
              ∙ ap some (append_assoc (enc (Tag.bin n)) (take n bytes) rest),
          a,
        )

  mutual
    unfolding reborn_value value_bytes read_tagged

    value_back :
        (v : Value) (size fuel : ℕ) (rest : List ℕ) (c : Cursor R)
        → weight_value v ≤ fuel
        → IsWholeValue v size
        → At rd enc law c (value_bytes enc v size ++ rest)
        → Gives (read_object rd (suc fuel) c) (Came rd enc law (reborn_value v) rest)
    value_back (bool b) size fuel rest c w k at =
        tag-Gives fuel (object (bool b) 1) (Tag.bool b) rest rest c
          (λ c'.
            made-Gives rd enc law (Object.create_bool b) (object (bool b) 1) rest c'
              (create_bool-Makes rd enc law b))
          at
    value_back (int z) size fuel rest c w k at = int-Gives fuel z rest c at
    value_back (uint n) size fuel rest c w k at = int-Gives fuel (pos n) rest c at
    value_back (float x) size fuel rest c w k at =
        tag-Gives fuel (object (float x) 4) (Tag.float x) rest rest c
          (λ c'.
            made-Gives rd enc law (Object.create_float x) (object (float x) 4) rest c'
              (create_float-Makes rd enc law x))
          at
    value_back (double x) size fuel rest c w k at =
        tag-Gives fuel (object (double x) 8) (Tag.double x) rest rest c
          (λ c'.
            made-Gives rd enc law (Object.create_double x) (object (double x) 8) rest c'
              (create_double-Makes rd enc law x))
          at
    value_back (str (some s)) size fuel rest c w (sized, clean, small) (i, a) =
        tag-Gives fuel (object (str (some s)) (length s)) (Tag.str (length s)) (s ++ rest) rest c
          (λ c' here. str-Gives (read_object rd fuel) s rest c' clean here)
          (
            i
                ∙ ap (λ k. some (value_bytes enc (str (some s)) k ++ rest)) sized
                ∙ ap (λ t. some (t ++ rest)) (text_bytes rd enc law s small)
                ∙ ap some (append_assoc (enc (Tag.str (length s))) s rest),
            a,
          )
    value_back (bin (some b)) size fuel rest c w k at = bin_back fuel b.bytes b.len rest c k at
    value_back (array slots capacity) size fuel rest c w (few, k) (i, a) =
        let e : count slots % u32_mod ≡ count slots = omega (arith, few) in
        tag-Gives fuel (object (array (reborn_slots slots) 0) 0) (Tag.array (count slots))
          (slots_bytes enc slots ++ rest) rest c
          (λ c' here.
            array-Gives (read_object rd fuel) slots rest c' k (slots_back slots fuel w k) here)
          (
            i
                ∙ ap (λ k. some ((enc (Tag.array k) ++ slots_bytes enc slots) ++ rest)) e
                ∙ ap some
                    (append_assoc (enc (Tag.array (count slots))) (slots_bytes enc slots) rest),
            a,
          )
    value_back _ size fuel rest c w k at = nil-Gives fuel rest c at

    pub object_back :
        (o : Object) (fuel : ℕ) (rest : List ℕ) (c : Cursor R)
        → weight o ≤ fuel
        → IsWhole o
        → At rd enc law c (object_bytes enc o ++ rest)
        → Gives (read_object rd fuel c) (Came rd enc law (reborn o) rest)
    object_back (object v size) zero rest c w k at = absurd (omega (arith, w))
    object_back (object v size) (suc fuel) rest c w k at =
        value_back v size fuel rest c (omega (arith, w)) k at

    slots_back :
        (s : Slots) (fuel : ℕ)
        → weight_slots s ≤ fuel
        → IsWholeSlots s
        → Items (read_object rd fuel) s
    slots_back end fuel w k = tt
    slots_back (hole rest) fuel w k = k
    slots_back (slot o rest) fuel w (k, ks) = (
      λ behind c at. object_back o fuel behind c (omega (arith, w)) k at,
      slots_back rest fuel (omega (arith, w)) ks,
    )
