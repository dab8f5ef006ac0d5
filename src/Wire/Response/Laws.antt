-- ===== src/Wire/Response/Laws.antt =====
-- What responses hold, which bytes they become and what becomes of memory.
use haze.Base.{
  ℕ, ◌+◌, ◌%◌, ◌^◌, ◌<◌, ◌≡◌, refl, ap, sym, ◌∙◌, Option, none, some, List, [], ◌∷◌, ◌++◌,
  append_assoc, false, length, arith, take-length, length-append,
}
use haze.Memory.{Heap, IsAmple, alloc, alloc-IsAmple, free, adopt}
use haze.Buffer
use haze.Buffer.{RawBuffer}
use haze.Buffer.Ledger.{owned, live-new}
use haze.Object
use haze.Object.{Value, Object, Slots, ObjectArray, nil, str, array, object, end, slot}
use haze.Object.Copy.{snoc, copy, create_array}
use haze.Object.Copy.Content.{
  canonical, canonical_slots, join, join-snoc, join-end, copy-Same, copy-Total,
  append_copy-Appended, append_copy-Went,
}
use haze.Object.Array
use haze.Wire.Mpack.{Tag, Writer, Writes}
use haze.Wire.Encode.{write_pointer, IsInsidePointer}
use haze.Wire.Encode.Bytes.{object_bytes, output_object}
use haze.Wire.Response
use haze.Wire.Response.{
  Response, marshal, write_response, wrap, append_strings, create_str_array_result, create_result,
  create_error,
}

live-wrap : (d : Option (List ℕ)) (h : Heap) → (wrap d h).1.live ≡ h.live + owned (wrap d h).0
unfolding wrap adopt free
live-wrap none h = omega arith
live-wrap (some d) h = omega (arith, live-new (some d) (length d) (adopt h).1)

-- Whatever the allocator and the writer answer, ResponseMarshal leaves as many blocks more as its
-- result owns.
pub live-marshal :
    {W : Type 0} (wr : Writer W) (r : Option Response) (h : Heap)
    → (marshal wr r h).1.live ≡ h.live + owned (marshal wr r h).0
unfolding marshal
live-marshal wr none h = omega arith
live-marshal wr (some r) h = live-wrap (wr.destroy (write_response wr r wr.start)) h

pub wrap_all :
    (d : List ℕ) (h : Heap)
    → 0 < length d
    → IsAmple h
    → (wrap (some d) h).0 ≡ some (record { bytes = some d; len = length d })
unfolding wrap Buffer.new
wrap_all [] h p e = absurd (omega arith)
wrap_all (x ∷ d) h p e =
    ground (arith, alloc-IsAmple (adopt h).1, alloc-IsAmple (alloc (adopt h).1).1, take-length d)

-- The objects that hold these strings.
abbrev pub string_slots : List (List ℕ) → Slots
string_slots [] = end
string_slots (s ∷ rest) = slot (object (str (some s)) (length s)) (string_slots rest)

-- With ample memory the string object is there.
made_str :
    (s : List ℕ) (h : Heap)
    → IsAmple h
    → ((Object.create_str (some s) h).0 ≡ some (object (str (some s)) (length s)))
      × IsAmple (Object.create_str (some s) h).1
unfolding Object.create_str
made_str s h e = ground (arith, alloc-IsAmple h, alloc-IsAmple (alloc h).1)

append_string :
    (s : List ℕ) (a : ObjectArray) (h : Heap)
    → IsAmple h
    → let o = object (str (some s)) (length s) in
      IsAmple (Array.append a (some o) h).1
      × (canonical_slots (Array.append a (some o) h).0.1.slots ≡ snoc (canonical_slots a.slots) o)
unfolding Array.append canonical
append_string s a h e =
    let o = object (str (some s)) (length s) in
    let went = append_copy-Went a (copy o) h (λ g k. copy-Total o g k tt) e in
    let added = append_copy-Appended a (copy o) o (copy-Same o) h in (ground arith, ground arith)

append_strings-back :
    (values : List (List ℕ)) (a : ObjectArray) (h : Heap)
    → IsAmple h
    → IsAmple (append_strings values a h).1
      × (canonical_slots (append_strings values a h).0.slots
          ≡ join (canonical_slots a.slots) (string_slots values))
unfolding append_strings
append_strings-back [] a h e = (e, sym (join-end _))
append_strings-back (s ∷ rest) a h e =
    let (made, ample) = made_str s h e in
    let o = object (str (some s)) (length s) in
    let (ample', added) = append_string s a (Object.create_str (some s) h).1 ample in
    let (left, same) =
      append_strings-back rest (Array.append a (some o) (Object.create_str (some s) h).1).0.1
        (Array.append a (some o) (Object.create_str (some s) h).1).1 ample' in
    rw made (
      left,
      same
          ∙ ap (λ t. join t (string_slots rest)) added
          ∙ join-snoc (canonical_slots a.slots) o (string_slots rest),
    )

-- With ample memory ResponseCreateStrArrayResult gives a response without an error, whose result is
-- an array of these strings.
pub str_array_lem :
    (id : ℕ) (values : List (List ℕ)) (h : Heap)
    → IsAmple h
    → (a : ObjectArray) × ((create_str_array_result id (some values) h).0
        ≡ some (record {
          type = 1;
          msgid = id;
          error = none;
          result = some (object (array a.slots a.capacity) 0);
        }))
      × (canonical_slots a.slots ≡ string_slots values)
unfolding create_str_array_result create_array Object.new Response.new canonical
str_array_lem id values h e =
    let (r_there, r_ample) = alloc-IsAmple h e in
    let (a_there, a_ample) = alloc-IsAmple (alloc h).1 r_ample in
    let (i_there, i_ample) = alloc-IsAmple (alloc (alloc h).1).1 a_ample in
    let empty : ObjectArray = record { slots = end; capacity = 8 } in
    let g = (alloc (alloc (alloc h).1).1).1 in
    let (ample, same) = append_strings-back values empty g i_ample in
    let (o_there, o_ample) = alloc-IsAmple (append_strings values empty g).1 ample in
    ((append_strings values empty g).0, rw (r_there, a_there, i_there, o_there) refl, same)

-- With ample memory ResponseCreateResult puts the message of a Result that failed in `result`, and
-- gives no error.
pub failure_in_result :
    (id : ℕ) (msg : List ℕ) (h : Heap)
    → IsAmple h
    → (create_result id false (some msg) h).0
      ≡ some (record {
        type = 1;
        msgid = id;
        error = none;
        result = some (object (str (some msg)) (length msg));
      })
unfolding create_result Response.new Object.create_str
failure_in_result id msg h e =
    ground (arith, alloc-IsAmple h, alloc-IsAmple (alloc h).1, alloc-IsAmple (alloc (alloc h).1).1)

module _ (enc : Tag → List ℕ) where
  abbrev pub pointer_bytes : Option Object → List ℕ
  pointer_bytes none = enc Tag.nil
  pointer_bytes (some o) = object_bytes enc o

  -- The bytes of [type, msgid, error, result].
  abbrev pub response_bytes : Response → List ℕ
  response_bytes r =
      enc (Tag.array 4)
      ++ (enc (Tag.uint (r.type % 2 ^ 8))
          ++ (enc (Tag.uint (r.msgid % 2 ^ 32))
              ++ (pointer_bytes r.error ++ pointer_bytes r.result)))

module _ {W : Type 0} (wr : Writer W) (enc : Tag → List ℕ) (law : Writes wr enc) where
  open law use {output}

  output_pointer :
      (o : Option Object) (w : W)
      → IsInsidePointer o
      → output (write_pointer wr o w) ≡ output w ++ pointer_bytes enc o
  unfolding write_pointer
  output_pointer none w i = law.output_nil w
  output_pointer (some o) w i = output_object wr enc law o w i

  output_response :
      (r : Response)
      → IsInsidePointer r.error
      → IsInsidePointer r.result
      → output (write_response wr r wr.start) ≡ response_bytes enc r
  unfolding write_response
  output_response r i j = simp (
    law.output_finish,
    output_pointer r.result _ j,
    output_pointer r.error _ i,
    law.output_uint,
    law.output_array,
    law.output_start,
    append_assoc,
  )

  -- With ample memory ResponseMarshal of a response gives the encoding of [type, msgid, error,
  -- result], if no string in the error and the result has a size behind its terminator. A missing
  -- error or result is written as nil, and so are a map, wherever it stands, and any other value
  -- without an encoding; a string is written as far as its size modulo 2 ^ 32 says, and an array with
  -- its length modulo 2 ^ 32.
  pub marshal-response_bytes :
      (r : Response) (h : Heap)
      → IsInsidePointer r.error
      → IsInsidePointer r.result
      → IsAmple h
      → let bytes = response_bytes enc r in
        (marshal wr (some r) h).0 ≡ some (record { bytes = some bytes; len = length bytes })
  unfolding marshal
  marshal-response_bytes r h i j e =
      rw (law.output_destroy, output_response r i j)
        (wrap_all _ h
          (omega (arith, law.tag_nonempty (Tag.array 4), length-append {0} (enc (Tag.array 4)))) e)
