-- ===== src/Tests/Replies.antt =====
-- Tests of responses that are read back.
use haze.Base.{ℕ, ◌≡◌, refl, arith, List, [], ◌∷◌, ◌++◌, Option, none, some, length}
use haze.Object.{Object, object, array}
use haze.Wire.Mpack.{Tag}
use haze.Wire.Response.{marshal}
use haze.Wire.Response.Unmarshal.{ExpectHead, unmarshal}
use haze.Wire.Response.Unmarshal.Fields.{ExpectsHead, IsWholePointer}
use haze.Wire.Response.Unmarshal.RoundTrip.{answer, IsAnswer, unmarshal-marshal_response}
use haze.Tests.Codec.{
  encode, list_writer, list_writer-Writes, list_reader, list_reader-Reads, next_tag-encode,
}
use haze.Tests.Expecting.{expect_number}
use haze.Tests.Messages.{text-IsText}
use haze.Tests.{ample, two_slots}

abbrev list_head : ExpectHead (Option (List ℕ))
list_head = record {
  expect_array = expect_number;
  expect_u8 = expect_number;
  expect_u32 = expect_number;
}

list_head-ExpectsHead : ExpectsHead list_reader-Reads list_head
unfolding list_reader-Reads
list_head-ExpectsHead = record {
  array_there = λ r n rest e. rw (e, next_tag-encode (Tag.array n) rest) (refl, refl);
  u8_there = λ r n rest k e. rw (e, next_tag-encode (Tag.uint n) rest) (refl, refl);
  u32_there = λ r n rest k e. rw (e, next_tag-encode (Tag.uint n) rest) (refl, refl);
}

abbrev list_object : Object
list_object = object (array two_slots 2) 2

list_object-IsWhole : IsWholePointer (some list_object)
list_object-IsWhole = (omega arith, ((refl, text-IsText, omega arith), (tt, tt)))

unmarshal-marshal_response_example :
    (bytes : List ℕ) × ((marshal list_writer (some (answer 7 none (some list_object))) ample).0
      ≡ some (record { bytes = some bytes; len = length bytes }))
    × IsAnswer 7 none
        (some list_object)
        (unmarshal list_reader list_head
          (some (record { bytes = some (bytes ++ 3 ∷ []); len = length (bytes ++ 3 ∷ []) }))
          ample).0
unmarshal-marshal_response_example =
    unmarshal-marshal_response list_writer list_reader list_head encode list_writer-Writes
      list_reader-Reads list_head-ExpectsHead 7 none (some list_object) (3 ∷ []) ample ample
      (omega arith) tt list_object-IsWhole refl refl
