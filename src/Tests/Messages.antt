-- ===== src/Tests/Messages.antt =====
-- Tests of requests and responses, with a writer whose numbers take one place each.
use haze.Base.{IsText, ℕ, ◌≡◌, refl, arith, List, [], ◌∷◌, ◌++◌, none, some, true, false, length}
use haze.Memory.{Heap, always, planned}
use haze.Object.{ObjectArray}
use haze.Object.Copy.{count}
use haze.Object.Copy.Content.{canonical_slots}
use haze.Wire.Request.Marshal.{marshal, request_bytes, marshal-request_bytes}
use haze.Wire.Request.Params.{fill, fill_fuel}
use haze.Wire.Request.Gaps.{fill_fills}
use haze.Wire.Response.{Response, create_str_array_result, create_result}
use haze.Wire.Response
use haze.Wire.Response.Laws.{response_bytes, marshal-response_bytes}
use haze.Wire.Request.Unmarshal.{unmarshal, parsed}
use haze.Wire.Request.Unmarshal.Steps.{req, reread_slots, IsFlatSlots}
use haze.Wire.Request.Unmarshal.RoundTrip.{unmarshal-marshal}
use haze.Tests.Codec.{encode, list_writer, list_writer-Writes, list_reader, list_reader-Reads}
use haze.Tests.{ample, text, kick, two_slots, two_items}

marshal-request_bytes_example :
    let bytes = request_bytes encode 0 7 text two_slots in
    (marshal list_writer
      (some (record { type = 0; msgid = 7; method = some text; parameters = some two_items }))
      ample).0
    ≡ some (record { bytes = some bytes; len = length bytes })
marshal-request_bytes_example =
    marshal-request_bytes list_writer encode list_writer-Writes 0 7 text two_items ample
      (omega arith) (omega arith) (omega arith, (tt, tt)) refl

-- The fifth and the sixth allocation fail.
abbrev failing : Heap
failing = record { plan = planned (true ∷ true ∷ true ∷ true ∷ false ∷ false ∷ []); live = 10 }

fill_fills_example :
    (b : ObjectArray) × ((fill (fill_fuel 5 two_items failing) 5 two_items failing).0 ≡ some b)
    × (count b.slots ≡ 5)
    × ((fill 9 5 two_items (record { plan = always false; live = 10 })).0 ≡ none)
fill_fills_example = fill_fills 5 two_items failing 9 10 (omega arith) refl

abbrev answer : Response
answer = record { type = 1; msgid = 7; error = none; result = some kick }

marshal-response_bytes_example :
    let bytes = response_bytes encode answer in
    (Response.marshal list_writer (some answer) ample).0
    ≡ some (record { bytes = some bytes; len = length bytes })
marshal-response_bytes_example =
    marshal-response_bytes list_writer encode list_writer-Writes answer ample tt (omega arith) refl

pub text-IsText : IsText text
text-IsText = (omega arith, (omega arith, (omega arith, (omega arith, tt))))

two_items-IsFlat : IsFlatSlots two_slots
two_items-IsFlat = ((refl, text-IsText, omega arith), (tt, tt))

unmarshal-marshal_example :
    (bytes : List ℕ) × (b : ObjectArray) × ((marshal list_writer
        (some (req 0 7 text two_items))
        ample).0
      ≡ some (record { bytes = some bytes; len = length bytes }))
    × ((unmarshal list_reader
          (some (record { bytes = some (bytes ++ 1 ∷ []); len = length (bytes ++ 1 ∷ []) }))
          ample).0
        ≡ parsed (req 0 7 text b) (length bytes))
    × (canonical_slots b.slots ≡ canonical_slots (reread_slots two_slots))
unmarshal-marshal_example =
    unmarshal-marshal list_writer list_reader encode list_writer-Writes list_reader-Reads 7 text
      two_items (1 ∷ []) ample ample (omega arith) (omega arith) (omega arith) text-IsText
      two_items-IsFlat refl refl
