-- ===== src/Tests/Notices.antt =====
-- Tests of notifications.
use haze.Base.{
  ℕ, ◌≡◌, refl, arith, List, [], ◌∷◌, ◌++◌, none, some, true, false, Bool, Option, length,
}
use haze.Memory.{Heap, planned}
use haze.Object.{ObjectArray, object, array, null_map, slot, end, bin}
use haze.Object.Copy.Content.{canonical_slots}
use haze.Wire.Mpack.{Writer}
use haze.Wire.Notification.{create, marshal, notify_object}
use haze.Wire.Notification.Encoding.{sendable_object, object_sent, notify_object_lem}
use haze.Wire.Notification.Refusals.{Flags, marshal_refuses}
use haze.Wire.Notification.Ledger.{close, create_balanced}
use haze.Wire.Notification.Unmarshal.{unmarshal}
use haze.Wire.Notification.Unmarshal.Laws.{IsKeptSlots, restored_slots}
use haze.Wire.Notification.Unmarshal.RoundTrip.{notice, unmarshal-marshal_notification}
use haze.Tests.Codec.{encode, list_writer, list_writer-Writes, list_reader, list_reader-Reads}
use haze.Tests.Expecting.{list_expect, list_expect-Expects}
use haze.Tests.Messages.{text-IsText}
use haze.Tests.{ample, text, kick, seven, two_slots}

-- An array inside an array, and bytes.
abbrev nested : ObjectArray
nested = record {
  slots = slot kick (
      slot (object (array two_slots 2) 2)
        (slot (object (bin (some (record { bytes = some (0 ∷ 1 ∷ []); len = 2 }))) 2) end));
  capacity = 8;
}

nested-IsKept : IsKeptSlots nested.slots
nested-IsKept = ((refl, text-IsText), ((omega arith, ((refl, text-IsText), (tt, tt))), (refl, tt)))

unmarshal-marshal_notification_example :
    (bytes : List ℕ) × (b : ObjectArray) × ((marshal list_writer
        (λ w. [])
        (some (record { type = 2; method = some text; params = some nested }))
        ample).0
      ≡ some (record { bytes = some bytes; len = length bytes }))
    × ((unmarshal list_reader list_expect
          (some (record { bytes = some (bytes ++ 5 ∷ []); len = length (bytes ++ 5 ∷ []) }))
          ample).0
        ≡ some (notice text b))
    × (canonical_slots b.slots ≡ canonical_slots (restored_slots nested.slots))
unmarshal-marshal_notification_example =
    unmarshal-marshal_notification list_writer (λ w. []) list_reader list_expect encode
      list_writer-Writes list_reader-Reads list_expect-Expects 2 text nested (5 ∷ []) ample ample
      text-IsText (omega arith) (omega arith) refl nested-IsKept refl refl

notify_object_lem_example :
    ((notify_object list_writer kick []).0 ≡ sendable_object kick)
    × (sendable_object kick ≡ true
        → (notify_object list_writer kick []).1 ≡ [] ++ object_sent encode kick)
unfolding list_writer-Writes
notify_object_lem_example =
    notify_object_lem list_writer encode list_writer-Writes kick (omega arith) []

-- A writer that may be in error.
abbrev on_bytes : (List ℕ → List ℕ) → Option (List ℕ) → Option (List ℕ)
on_bytes f none = none
on_bytes f (some w) = some (f w)

abbrev marked : Option (List ℕ) → Bool
marked none = true
marked (some w) = false

abbrev careful : Writer (Option (List ℕ))
careful = record {
  start = some [];
  write_nil = on_bytes list_writer.write_nil;
  write_bool = λ b. on_bytes (list_writer.write_bool b);
  write_int = λ z. on_bytes (list_writer.write_int z);
  write_uint = λ n. on_bytes (list_writer.write_uint n);
  write_float = λ x. on_bytes (list_writer.write_float x);
  write_double = λ x. on_bytes (list_writer.write_double x);
  write_str = λ s. on_bytes (list_writer.write_str s);
  write_cstr = λ s n. on_bytes (list_writer.write_cstr s n);
  write_bin = λ s. on_bytes (list_writer.write_bin s);
  start_array = λ n. on_bytes (list_writer.start_array n);
  finish_array = on_bytes list_writer.finish_array;
  writer_failed = marked;
  destroy = λ w. w;
}

careful-Flags : Flags careful (λ w. none)
careful-Flags = record {
  IsFailed = λ w. w ≡ none;
  flagged_fails = λ w. refl;
  finish_fails = λ w e. rw e refl;
  destroy_fails = λ w e. e;
}

abbrev with_map : ObjectArray
with_map = record {
  slots = slot kick (slot (object (array (slot (object null_map 0) end) 8) 1) end);
  capacity = 8;
}

marshal_refuses_example :
    marshal careful
      (λ w. none)
      (some (record { type = 2; method = some text; params = some with_map }))
      ample
    ≡ (none, ample)
marshal_refuses_example =
    marshal_refuses careful (λ w. none) careful-Flags 2 text with_map ample refl

-- The fifth allocation fails.
abbrev scarce : Heap
scarce = record { plan = planned (true ∷ true ∷ true ∷ true ∷ false ∷ []); live = 10 }

create_balanced_example :
    (close (create (some text) (some kick ∷ some seven ∷ []) scarce)).live ≡ 10
create_balanced_example =
    create_balanced (some text) (some kick ∷ some seven ∷ []) scarce (refl, (refl, tt))
