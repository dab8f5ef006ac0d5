-- ===== src/Wire/Request/Unmarshal/RoundTrip.antt =====
-- The round trip: RequestUnmarshal of what RequestMarshal wrote.
use haze.Base.{
  ℕ, ◌-◌, ◌%◌, ◌<◌, ◌≡◌, refl, ap, ◌∙◌, none, some, List, [], ◌++◌, append_assoc, false, ◌==◌,
  length, take, take-length, length-append, IsText, c_string_text, arith,
}
use haze.Memory.{Heap, IsAmple, alloc, alloc-IsAmple, free, free-IsAmple}
use haze.Object.{Slots, ObjectArray, end}
use haze.Object.Copy.{count, create_array}
use haze.Object.Copy.Content.{canonical_slots}
use haze.Wire.Mpack.{Tag, Writer, Writes, Reader, Reads}
use haze.Wire.Encode.{u32_mod}
use haze.Wire.Encode.Bytes.{slots_bytes}
use haze.Wire.Request
use haze.Wire.Request.{Request, rpc_request, set_method}
use haze.Wire.Request.Marshal.{request_bytes, marshal, marshal-request_bytes}
use haze.Wire.Request.Unmarshal.Steps.{
  Goes, Goes-then, Now, req, reread_slots, IsFlatSlots, Flat-IsInside,
}
use haze.Wire.Request.Unmarshal.{
  Result, ok, stop, Parse, parsed, finish, unmarshal_bytes, need, reject, array_count, ◌>>=◌, ◌>>◌,
  call, read_params, read_method, read_message, unmarshal,
}
use haze.Wire.Request.Unmarshal.Back.{Filled, read_params-back}

-- The request that RequestNew gives.
abbrev fresh_request : Request
fresh_request = record {
  type = 0;
  msgid = 0;
  method = some [];
  parameters = some (record { slots = end; capacity = 8 });
}

new-there :
    (h : Heap) → IsAmple h → ((Request.new h).0 ≡ some fresh_request) × IsAmple (Request.new h).1
unfolding Request.new create_array
new-there h e =
    let (one, e1) = alloc-IsAmple h e in
    let (two, e2) = alloc-IsAmple (alloc h).1 e1 in
    let (three, e3) = alloc-IsAmple (alloc (alloc h).1).1 e2 in
    let (four, e4) = alloc-IsAmple (alloc (alloc (alloc h).1).1).1 e3 in
    (rw (one, two, three, four) refl, rw (one, two, three, four) e4)

still_some : (xs rest : List ℕ) → 0 < length xs → (length (xs ++ rest) == 0) ≡ false
still_some xs rest h = ground (arith, length-append xs rest)

consumed : (xs rest : List ℕ) → length (xs ++ rest) - length rest ≡ length xs
consumed xs rest = omega (arith, length-append xs rest)

module _ {R : Type 0} (rd : Reader R) (enc : Tag → List ℕ) (law : Reads rd enc) where
  method-back :
      (type id : ℕ) (m old : List ℕ) (a : ObjectArray) (rest : List ℕ) (s : Parse R)
      → IsText m
      → Now rd enc law s (enc (Tag.str (length m)) ++ (m ++ rest)) (some (req type id old a))
      → Goes (read_method rd s) (λ _ s'. Now rd enc law s' rest (some (req type id m a)))
  unfolding read_method set_method
  method-back type id m old a rest s clean n =
      let (tag, left) = law.tag_there s.reader (Tag.str (length m)) (m ++ rest) n.input in
      let (bytes, left') = law.inplace_there (rd.read_tag s.reader).1 m rest left in
      let (room, ample) = alloc-IsAmple s.heap n.ample in
      let (copied, ample') =
        alloc-IsAmple (free 1 (alloc s.heap).1).1 (free-IsAmple 1 (alloc s.heap).1 ample) in
      rw (tag, bytes, room, n.request, c_string_text m clean, copied)
        (record {
          input = left';
          ample = free-IsAmple 1 (alloc (free 1 (alloc s.heap).1).1).1 ample';
          request = refl;
        })

  -- The message was read, and `rest` is left.
  unfoldable pub Message : ℕ → List ℕ → Slots → List ℕ → Parse R → Type 0
  Message id m params rest s =
      (b : ObjectArray) × Now rd enc law s rest (some (req 0 id m b))
      × (canonical_slots b.slots ≡ canonical_slots (reread_slots params))

  -- What follows the method, into the empty array of parameters.
  params-back :
      (id : ℕ) (m : List ℕ) (params : Slots) (rest : List ℕ) (s : Parse R)
      → IsFlatSlots params
      → Now rd enc law s
          (enc (Tag.array (count params)) ++ (slots_bytes enc params ++ rest))
          (some (req 0 id m (record { slots = end; capacity = 8 })))
      → Goes {0}
          ((do
            tag ← call rd.read_tag
            n ← need reject (array_count tag)
            read_params rd n 0
            call (λ r. (tt, rd.done_array r)))
            s)
          (λ _. Message id m params rest)
  unfolding Message Filled canonical_slots
  params-back id m params rest s f n =
      let (tag, left) =
        law.tag_there s.reader (Tag.array (count params)) (slots_bytes enc params ++ rest)
          n.input in
      rw tag (
        Goes-then _ (λ (x : Unit {0}). call (λ r. (tt, rd.done_array r))) _
          (λ _. Message id m params rest)
          (read_params-back rd enc law 0 id m params (record { slots = end; capacity = 8 }) rest
            (record s { reader = (rd.read_tag s.reader).1 }) f
            (record { input = left; ample = n.ample; request = n.request }))
          (λ x t filled.
            let (b, now, same) = filled in
            (
              b,
              record {
                input = law.input_done_array t.reader ∙ now.input;
                ample = now.ample;
                request = now.request;
              },
              same,
            )))

  read_message-back :
      (id : ℕ) (m : List ℕ) (params : Slots) (rest : List ℕ) (s : Parse R)
      → id < u32_mod
      → IsText m
      → IsFlatSlots params
      → IsAmple s.heap
      → law.input s.reader
        ≡ some (
            enc (Tag.array 4)
            ++ (enc (Tag.uint 0)
                ++ (enc (Tag.uint id)
                    ++ (enc (Tag.str (length m))
                        ++ (m
                            ++ (enc (Tag.array (count params))
                                ++ (slots_bytes enc params ++ rest)))))))
      → Goes (read_message rd s) (λ _. Message id m params rest)
  unfolding read_message
  read_message-back id m params rest s small clean f ample input =
      let (t1, i1) = law.tag_there s.reader (Tag.array 4) _ input in
      let (made, ample') = new-there s.heap ample in
      let (t2, i2) = law.tag_there (rd.read_tag s.reader).1 (Tag.uint 0) _ i1 in
      let (t3, i3) = law.tag_there (rd.read_tag (rd.read_tag s.reader).1).1 (Tag.uint id) _ i2 in
      let fits : id % u32_mod ≡ id = omega arith in
      let none_yet : ObjectArray = record { slots = end; capacity = 8 } in
      rw (t1, made, t2, t3, fits)
        (Goes-then _ _
          (λ _ t.
            Now rd enc law t (enc (Tag.array (count params)) ++ (slots_bytes enc params ++ rest))
              (some (req 0 id m none_yet)))
          _
          (method-back 0 id m [] none_yet
            (enc (Tag.array (count params)) ++ (slots_bytes enc params ++ rest)) _ clean
            (record { input = i3; ample = ample'; request = refl }))
          (λ x t now.
            params-back id m params rest (record t { reader = rd.done_str t.reader }) f
              (record {
                input = law.input_done_str t.reader ∙ now.input;
                ample = now.ample;
                request = now.request;
              })))

  finish-Message :
      (id : ℕ) (m : List ℕ) (params : Slots) (rest : List ℕ) (len : ℕ)
      (r : Result (Unit {0}) × Parse R)
      → Goes r (λ _. Message id m params rest)
      → (b : ObjectArray) × ((finish rd len r).0 ≡ parsed (req 0 id m b) (len - length rest))
        × (canonical_slots b.slots ≡ canonical_slots (reread_slots params))
        × IsAmple (finish rd len r).1
  unfolding finish Message
  finish-Message id m params rest len (ok x, t) (b, now, same) = (
    b,
    rw (now.request, law.remaining_there t.reader rest now.input) refl,
    same,
    rw now.request now.ample,
  )
  finish-Message id m params rest len (stop h, t) g = absurd g

  request_bytes-append :
      (id : ℕ) (m : List ℕ) (params : Slots) (rest : List ℕ)
      → request_bytes enc 0 id m params ++ rest
        ≡ enc (Tag.array 4)
          ++ (enc (Tag.uint 0)
              ++ (enc (Tag.uint id)
                  ++ (enc (Tag.str (length m))
                      ++ (m
                          ++ (enc (Tag.array (count params))
                              ++ (slots_bytes enc params ++ rest))))))
  request_bytes-append id m params rest = simp (append_assoc)

  -- What RequestUnmarshal makes of the encoding of [0, msgid, method, params] and what follows it.
  pub unmarshal_reads :
      (id : ℕ) (m : List ℕ) (params : Slots) (rest : List ℕ) (h : Heap)
      → id < u32_mod
      → IsText m
      → IsFlatSlots params
      → 0 < length (request_bytes enc 0 id m params)
      → IsAmple h
      → let bytes = request_bytes enc 0 id m params in
        (b : ObjectArray) × ((unmarshal rd
            (some (record { bytes = some (bytes ++ rest); len = length (bytes ++ rest) }))
            h).0
          ≡ parsed (req 0 id m b) (length bytes))
        × (canonical_slots b.slots ≡ canonical_slots (reread_slots params))
        × IsAmple
            (unmarshal rd
              (some (record { bytes = some (bytes ++ rest); len = length (bytes ++ rest) }))
              h).1
  unfolding unmarshal unmarshal_bytes
  unmarshal_reads id m params rest h small clean f some_bytes ample =
      let bytes = request_bytes enc 0 id m params in
      let s : Parse R = record {
        reader = rd.init_data (take (length (bytes ++ rest)) (bytes ++ rest));
        heap = h;
        request = none;
      } in
      let input =
        law.input_init (take (length (bytes ++ rest)) (bytes ++ rest))
        ∙ ap some (take-length (bytes ++ rest) ∙ request_bytes-append id m params rest) in
      let (b, back, same, ample') =
        finish-Message id m params rest (length (bytes ++ rest)) (read_message rd s)
          (read_message-back id m params rest s small clean f ample input) in
      (
        b,
        rw (still_some (request_bytes enc 0 id m params) rest some_bytes)
            (back ∙ ap (parsed (req 0 id m b)) (consumed (request_bytes enc 0 id m params) rest)),
        same,
        rw (still_some (request_bytes enc 0 id m params) rest some_bytes) ample',
      )

-- With ample memory RequestMarshal writes a request of type 0 and RequestUnmarshal reads it back from
-- these bytes and whatever follows them, and takes just these bytes. The method holds no 0, the id,
-- the method's length and the number of parameters are below 2 ^ 32, no parameter is an array, a bin
-- or a map, and a string among them has its length for its size, below 2 ^ 32, and holds no 0. The
-- parameters come back with their content, an integer of no sign as unsigned, and an undefined
-- object and a null pointer as nil.
pub unmarshal-marshal :
    {W R : Type 0} (wr : Writer W) (rd : Reader R) (enc : Tag → List ℕ) (writes : Writes wr enc)
    (reads : Reads rd enc) (id : ℕ) (m : List ℕ) (a : ObjectArray) (rest : List ℕ) (h k : Heap)
    → id < u32_mod
    → length m < u32_mod
    → count a.slots < u32_mod
    → IsText m
    → IsFlatSlots a.slots
    → IsAmple h
    → IsAmple k
    → (bytes : List ℕ) × (b : ObjectArray) × ((marshal wr (some (req 0 id m a)) h).0
        ≡ some (record { bytes = some bytes; len = length bytes }))
      × ((unmarshal rd
            (some (record { bytes = some (bytes ++ rest); len = length (bytes ++ rest) }))
            k).0
          ≡ parsed (req 0 id m b) (length bytes))
      × (canonical_slots b.slots ≡ canonical_slots (reread_slots a.slots))
unmarshal-marshal wr rd enc writes reads id m a rest h k small fits few clean flat e f =
    let bytes = request_bytes enc 0 id m a.slots in
    let some_bytes : 0 < length bytes =
      omega (arith, writes.tag_nonempty (Tag.array 4), length-append {0} (enc (Tag.array 4))) in
    let (b, back, same, ample) =
      unmarshal_reads rd enc reads id m a.slots rest k small clean flat some_bytes f in
    (
      bytes,
      b,
      marshal-request_bytes wr enc writes 0 id m a h fits few (Flat-IsInside a.slots flat) e,
      back,
      same,
    )
