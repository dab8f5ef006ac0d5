-- ===== src/Wire/Request/Marshal.antt =====
-- RequestMarshal: the request [0, msgid, method, params] as a buffer.
use haze.Base.{
  ℕ, zero, suc, ◌<◌, ◌≡◌, ap, sym, ◌∙◌, ◌%◌, Option, none, some, List, [], ◌∷◌, ◌++◌, append_assoc,
  append-nil, if◌then◌else◌, length, take, take-length, length-append, arith,
}
use haze.Memory.{M, pure, ◌>>=◌, ◌>>◌, free, adopt, Heap, IsAmple, alloc, alloc-IsAmple}
use haze.Buffer
use haze.Buffer.{RawBuffer}
use haze.Object.{ObjectArray, Slots, end, slot, hole}
use haze.Object.Copy.{count}
use haze.Wire.Mpack.{Tag, Writer, Writes}
use haze.Wire.Encode.{u32_mod, write_object, IsInsideSlots}
use haze.Wire.Encode.Bytes.{slots_bytes, output_object}
use haze.Wire.Request.{Request, param_count}

-- RawBufferNew of the writer's data, which a success does not give back.
abbrev keep_data : Option RawBuffer → M (Option RawBuffer)
keep_data none = do free 1; pure none
keep_data (some b) = pure (some b)

wrap : Option (List ℕ) → M (Option RawBuffer)
unfolding free adopt
wrap none = pure none
wrap (some data_bytes) = do adopt; b ← Buffer.new (some data_bytes) (length data_bytes); keep_data b

slots_of : Option ObjectArray → Slots
slots_of none = end
slots_of (some a) = a.slots

module _ {W : Type 0} (wr : Writer W) where
  write_method : Option (List ℕ) → W → W
  write_method none w = wr.write_nil w
  write_method (some m) w = wr.write_str (take (length m % u32_mod) m) w

  -- The loop over the first `n` parameters.
  write_params : ℕ → Slots → W → W
  unfolding write_object
  write_params zero s w = w
  write_params (suc n) end w = w
  write_params (suc n) (slot o rest) w = write_params n rest (write_object wr o w)
  write_params (suc n) (hole rest) w = write_params n rest (wr.write_nil w)

  write_request : Request → W → W
  unfolding slots_of
  write_request r w =
      let n = param_count (some r) in
      let head =
        write_method r.method (wr.write_uint r.msgid (wr.write_uint r.type (wr.start_array 4 w))) in
      wr.finish_array
        (wr.finish_array (write_params n (slots_of r.parameters) (wr.start_array n head)))

  -- RequestMarshal
  pub marshal : Option Request → M (Option RawBuffer)
  unfolding wrap write_request
  marshal none = pure none
  marshal (some r) =
      if wr.writer_failed wr.start then pure none else wrap (wr.destroy (write_request r wr.start))

-- The bytes of [type, msgid, method, params] with a method that is there.
abbrev pub request_bytes : (Tag → List ℕ) → ℕ → ℕ → List ℕ → Slots → List ℕ
request_bytes enc type msgid m params =
    enc (Tag.array 4)
    ++ (enc (Tag.uint type)
        ++ (enc (Tag.uint msgid)
            ++ (enc (Tag.str (length m))
                ++ (m ++ (enc (Tag.array (count params)) ++ slots_bytes enc params)))))

wrap_all :
    (d : List ℕ) (h : Heap)
    → 0 < length d
    → IsAmple h
    → (wrap (some d) h).0 ≡ some (record { bytes = some d; len = length d })
unfolding wrap Buffer.new
wrap_all [] h p e = absurd (omega arith)
wrap_all (x ∷ d) h p e =
    ground (arith, alloc-IsAmple (adopt h).1, alloc-IsAmple (alloc (adopt h).1).1, take-length d)

param_count_small :
    (type msgid : ℕ) (m : List ℕ) (a : ObjectArray)
    → count a.slots < u32_mod
    → param_count
        (some (record { type = type; msgid = msgid; method = some m; parameters = some a }))
      ≡ count a.slots
unfolding param_count
param_count_small type msgid m a h = omega arith

module _ {W : Type 0} (wr : Writer W) (enc : Tag → List ℕ) (law : Writes wr enc) where
  open law use {output}

  output_params :
      (s : Slots) (w : W)
      → IsInsideSlots s
      → output (write_params wr (count s) s w) ≡ output w ++ slots_bytes enc s
  unfolding write_params slots_bytes
  output_params end w i = sym (append-nil (output w))
  output_params (slot o rest) w i =
      simp (output_params rest _ i.1, output_object wr enc law o w i.0, append_assoc)
  output_params (hole rest) w i = simp (output_params rest _ i, law.output_nil, append_assoc)

  output_method :
      (m : List ℕ) (w : W)
      → length m < u32_mod
      → output (write_method wr (some m) w) ≡ output w ++ (enc (Tag.str (length m)) ++ m)
  unfolding write_method
  output_method m w h =
      let e : length m % u32_mod ≡ length m = omega arith in
      law.output_str (take (length m % u32_mod) m) w
      ∙ ap (λ t. output w ++ (enc (Tag.str (length t)) ++ t)) (ap (λ n. take n m) e ∙ take-length m)

  output_request :
      (type msgid : ℕ) (m : List ℕ) (a : ObjectArray)
      → length m < u32_mod
      → count a.slots < u32_mod
      → IsInsideSlots a.slots
      → output (
          write_request wr
            (record { type = type; msgid = msgid; method = some m; parameters = some a })
            wr.start)
        ≡ request_bytes enc type msgid m a.slots
  unfolding write_request
  output_request type msgid m a hm ha i =
      let ea = param_count_small type msgid m a ha in
      simp (
        ea,
        law.output_finish,
        output_params a.slots _ i,
        law.output_array,
        output_method m _ hm,
        law.output_uint,
        law.output_start,
        append_assoc,
      )

  -- With ample memory and fewer than 2 ^ 32 parameters, RequestMarshal of a request with a method
  -- of fewer than 2 ^ 32 bytes gives the encoding of [type, msgid, method, params], if no string of
  -- the parameters has a size behind its terminator. A string is written as far as its size modulo
  -- 2 ^ 32 says, an array with its length modulo 2 ^ 32, and a map, as any value without an encoding
  -- and a null pointer, is written as nil.
  pub marshal-request_bytes :
      (type msgid : ℕ) (m : List ℕ) (a : ObjectArray) (h : Heap)
      → length m < u32_mod
      → count a.slots < u32_mod
      → IsInsideSlots a.slots
      → IsAmple h
      → let bytes = request_bytes enc type msgid m a.slots in
        (marshal wr
          (some (record { type = type; msgid = msgid; method = some m; parameters = some a }))
          h).0
        ≡ some (record { bytes = some bytes; len = length bytes })
  unfolding marshal
  marshal-request_bytes type msgid m a h hm ha i e =
      rw (law.no_failure, law.output_destroy, output_request type msgid m a hm ha i)
        (wrap_all _ h
          (omega (arith, law.tag_nonempty (Tag.array 4), length-append {0} (enc (Tag.array 4)))) e)
