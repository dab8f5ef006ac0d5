-- ===== src/Wire/Response/Unmarshal/RoundTrip.antt =====
-- ResponseUnmarshal on the bytes that ResponseMarshal writes.
use haze.Base.{
  ℕ, suc, ◌%◌, ◌^◌, ◌≡◌, ap, ◌∙◌, ◌++◌, ◌<◌, ◌==◌, Option, none, some, List, false, length,
  append_assoc, arith, take, take-length,
}
use haze.Memory.{Heap, IsAmple}
use haze.Object.{Object}
use haze.Wire.Mpack.{Tag, Reader, Reads, Writer, Writes}
use haze.Wire.Encode.{u32_mod}
use haze.Wire.Cursor.{Cursor}
use haze.Wire.Cursor.Steps.{Gives}
use haze.Wire.Response.{Response, rpc_response, marshal}
use haze.Wire.Response.Laws.{pointer_bytes, response_bytes, marshal-response_bytes}
use haze.Wire.Response.Unmarshal.{
  ExpectHead, Outcome, returned, read_object, read_message, unmarshal, unmarshal_bytes,
}
use haze.Wire.Response.Unmarshal.Fields.{
  ExpectsHead, IsWholePointer, WholePointer-IsInside, SameContent, reborn_pointer, CameBack,
  read_object-Pointer, message-Gives,
}
use haze.Wire.Response.Unmarshal.Sizes.{response_fits}

-- The response with this id, error and result.
abbrev pub answer : ℕ → Option Object → Option Object → Response
answer id e p = record { type = rpc_response; msgid = id; error = e; result = p }

answer_bytes :
    (enc : Tag → List ℕ) (id : ℕ) (e p : Option Object) (rest : List ℕ)
    → id < u32_mod
    → response_bytes enc (answer id e p) ++ rest
      ≡ enc (Tag.array 4)
        ++ (enc (Tag.uint rpc_response)
            ++ (enc (Tag.uint id) ++ (pointer_bytes enc e ++ (pointer_bytes enc p ++ rest))))
answer_bytes enc id e p rest small =
    let i : id % 2 ^ 32 ≡ id = omega (arith, small) in simp (i, append_assoc)

-- An outcome with a response of this id, whose error and result have this content.
abbrev pub IsAnswer : ℕ → Option Object → Option Object → Outcome → Type 0
IsAnswer id e p (returned (some r)) =
    (r.type ≡ rpc_response)
    × (r.msgid ≡ id)
    × SameContent r.error (reborn_pointer e)
    × SameContent r.result (reborn_pointer p)
IsAnswer id e p _ = ⊥

module _ {R : Type 0} (rd : Reader R) (ex : ExpectHead R) (enc : Tag → List ℕ) (law : Reads rd enc)
    (expects : ExpectsHead law ex) where
  given :
      (id : ℕ) (e p : Option Object) (rest : List ℕ) (r : Option Response × Cursor R)
      → Gives r (CameBack rd enc law id e p rest)
      → IsAnswer id e p (returned r.0)
  given id e p rest (none, c) g = g
  given id e p rest (some r, c) (t, i, s, same, at) = (t, i, s, same)

  pub unmarshal_reads_response :
      (id : ℕ) (e p : Option Object) (rest : List ℕ) (h : Heap)
      → ((t : Tag) → 0 < length (enc t))
      → id < u32_mod
      → IsWholePointer e
      → IsWholePointer p
      → IsAmple h
      → let bytes = response_bytes enc (answer id e p) ++ rest in
        IsAnswer id e p
          (unmarshal rd ex (some (record { bytes = some bytes; len = length bytes })) h).0
  unfolding unmarshal unmarshal_bytes
  unmarshal_reads_response id e p rest h positive small we wp ample =
      let bytes = response_bytes enc (answer id e p) ++ rest in
      let (fe, fp, some_bytes) = response_fits enc positive (answer id e p) rest in
      let not_empty : (length bytes == 0) ≡ false = ground (arith, some_bytes) in
      let c : Cursor R = record { reader = rd.init_data (take (length bytes) bytes); heap = h } in
      let input =
        law.input_init (take (length bytes) bytes)
        ∙ ap some (take-length bytes ∙ answer_bytes enc id e p rest small) in
      rw not_empty (
        given id e p rest (read_message rd ex (read_object rd (suc (length bytes))) c) (
          message-Gives rd ex enc law expects (read_object rd (suc (length bytes))) id e p rest c
            small (read_object-Pointer rd enc law (length bytes) e we fe)
            (read_object-Pointer rd enc law (length bytes) p wp fp) (input, ample)))

-- With ample memory ResponseMarshal writes a response of type 1 and ResponseUnmarshal reads it back
-- from these bytes and whatever is behind them, if the id is below 2 ^ 32 and the error and the result
-- are null or whole: a string has its length for its size, below 2 ^ 32, and no 0, a bin with bytes has
-- as many as it says, and arrays, which may be nested, hold fewer than 2 ^ 32 objects and no null
-- pointer. They come back with their content, nil and what has no encoding of its own as null or, in
-- an array, as nil, an integer of no sign as unsigned, and the size of an array as 0.
pub unmarshal-marshal_response :
    {W R : Type 0} (wr : Writer W) (rd : Reader R) (ex : ExpectHead R) (enc : Tag → List ℕ)
    (writes : Writes wr enc) (reads : Reads rd enc) (expects : ExpectsHead reads ex) (id : ℕ)
    (e p : Option Object) (rest : List ℕ) (h k : Heap)
    → id < u32_mod
    → IsWholePointer e
    → IsWholePointer p
    → IsAmple h
    → IsAmple k
    → (bytes : List ℕ) × ((marshal wr (some (answer id e p)) h).0
        ≡ some (record { bytes = some bytes; len = length bytes }))
      × IsAnswer id e p
          (unmarshal rd ex
            (some (record { bytes = some (bytes ++ rest); len = length (bytes ++ rest) }))
            k).0
unmarshal-marshal_response wr rd ex enc writes reads expects id e p rest h k small we wp a b = (
  response_bytes enc (answer id e p),
  marshal-response_bytes wr enc writes (answer id e p) h (WholePointer-IsInside e we)
      (WholePointer-IsInside p wp) a,
  unmarshal_reads_response rd ex enc reads expects id e p rest k writes.tag_nonempty small we wp b,
)
