-- ===== src/Wire/Response/Answers.antt =====
-- With ample memory the constructors of api/proto/Response.c give a response with the id they are
-- given.
use haze.Base.{
  ℕ, ◌≡◌, refl, Option, none, some, List, Bool, true, false, arith, Bool-cases, inl, inr, ℤ,
}
use haze.Memory.{Heap, M, IsAmple, alloc, alloc-IsAmple, free-IsAmple}
use haze.Audio.{ResultAudio, is_ok, message_of, message_blocks}
use haze.Object
use haze.Object.{Object}
use haze.Wire.Encode.{IsInsidePointer}
use haze.Wire.Response
use haze.Wire.Response.{
  Response, create, with_new, with_result, create_string, create_int, create_nil_result,
  create_result, create_error, create_result_audio, error_object, error_response,
}

-- With ample memory `make` gives a response of this id, no string of which has a size behind its
-- terminator, and memory stays ample.
abbrev pub Answers : ℕ → M (Option Response) → Type 0
Answers id make =
    (h : Heap)
    → IsAmple h
    → (r : Response) × ((make h).0 ≡ some r)
      × (r.type ≡ 1)
      × (r.msgid ≡ id)
      × IsInsidePointer r.error
      × IsInsidePointer r.result
      × IsAmple (make h).1

abbrev Stays : M (Option Object) → Type 0
Stays m = (h : Heap) → IsAmple h → IsAmple (m h).1 × IsInsidePointer (m h).0

str-Stays : (s : Option (List ℕ)) → Stays (Object.create_str s)
unfolding Object.create_str
str-Stays s h e =
    let (one, e1) = alloc-IsAmple h e in
    let (two, e2) = alloc-IsAmple (alloc h).1 e1 in rw (one, two) (e2, omega arith)

nil-Stays : Stays Object.create_nil
unfolding Object.create_nil
nil-Stays h e = let (one, e1) = alloc-IsAmple h e in rw one (e1, tt)

int-Stays : (z : ℤ) → Stays (Object.create_int z)
unfolding Object.create_int
int-Stays z h e = let (one, e1) = alloc-IsAmple h e in rw one (e1, tt)

create-Answers : (make : M (Option Object)) (id : ℕ) → Stays make → Answers id (create make id)
unfolding create with_new with_result Response.new Response.set_result Response.set_msgid
create-Answers make id k h e =
    let (there, ample) = alloc-IsAmple h e in
    (
      record { type = 1; msgid = id; error = none; result = (make (alloc h).1).0 },
      rw there refl,
      refl,
      refl,
      tt,
      (k (alloc h).1 ample).1,
      rw there (k (alloc h).1 ample).0,
    )

pub create_string-Answers : (id : ℕ) (s : Option (List ℕ)) → Answers id (create_string id s)
unfolding create_string
create_string-Answers id s = create-Answers (Object.create_str s) id (str-Stays s)

pub create_int-Answers : (id : ℕ) (z : ℤ) → Answers id (create_int id z)
unfolding create_int
create_int-Answers id z = create-Answers (Object.create_int z) id (int-Stays z)

pub create_result-Answers :
    (id : ℕ) (success : Bool) (msg : Option (List ℕ)) → Answers id (create_result id success msg)
unfolding create_result
create_result-Answers id true msg = create-Answers Object.create_nil id nil-Stays
create_result-Answers id false msg = create-Answers (Object.create_str msg) id (str-Stays msg)

create_nil_result-Answers : (id : ℕ) → Answers id (create_nil_result id)
unfolding create_nil_result with_result Response.new Response.set_result Response.set_msgid
create_nil_result-Answers id h e =
    let (there, ample) = alloc-IsAmple h e in
    (
      record { type = 1; msgid = id; error = none; result = (Object.create_nil (alloc h).1).0 },
      rw there refl,
      refl,
      refl,
      tt,
      (nil-Stays (alloc h).1 ample).1,
      rw there (nil-Stays (alloc h).1 ample).0,
    )

error_object-Stays : (s : Option (List ℕ)) → Stays (error_object s)
unfolding error_object
error_object-Stays none = nil-Stays
error_object-Stays (some s) = str-Stays (some s)

pub create_error-Answers : (id : ℕ) (s : Option (List ℕ)) → Answers id (create_error id s)
unfolding create_error error_response Response.new
create_error-Answers id s h e =
    let (there, ample) = alloc-IsAmple h e in
    (
      record { type = 1; msgid = id; error = (error_object s (alloc h).1).0; result = none },
      rw there refl,
      refl,
      refl,
      (error_object-Stays s (alloc h).1 ample).1,
      tt,
      rw there (error_object-Stays s (alloc h).1 ample).0,
    )

pub create_result_audio-Answers :
    (id : ℕ) (res : ResultAudio) → Answers id (create_result_audio id res)
unfolding create_result_audio
create_result_audio-Answers id res h e = elim (Bool-cases (is_ok res)) [
  | inl ok ↦
      let (r, there, type, same, err, res_in, ample) = create_nil_result-Answers id h e in
      (
        r,
        rw ok there,
        type,
        same,
        err,
        res_in,
        rw ok (free-IsAmple (message_blocks res) (create_nil_result id h).1 ample),
      )
  | inr bad ↦
      let (r, there, type, same, err, res_in, ample) =
        create_error-Answers id (message_of res) h e in
      (
        r,
        rw bad there,
        type,
        same,
        err,
        res_in,
        rw bad (free-IsAmple (message_blocks res) (create_error id (message_of res) h).1 ample),
      )
]
