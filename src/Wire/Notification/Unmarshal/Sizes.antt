-- ===== src/Wire/Notification/Unmarshal/Sizes.antt =====
-- The bytes of a notification are at least as many as its objects.
use haze.Base.{ℕ, suc, ◌++◌, ◌≤◌, ◌<◌, pos, negsuc, some, List, length, length-append, arith}
use haze.Object.{
  Value, Object, Slots, bool, int, uint, float, double, str, bin, array, object, end, slot, hole,
}
use haze.Object.Copy.{count}
use haze.Wire.Mpack.{Tag}
use haze.Wire.Encode.{c_bytes}
use haze.Wire.Notification.{rpc_notification}
use haze.Wire.Notification.Encoding.{
  object_sent, slots_sent, value_sent, data_sent, notification_bytes,
}
use haze.Wire.Notification.Unmarshal.Laws.{weight, weight_value, weight_slots}

-- Each object takes a byte at least.
module _ (enc : Tag → List ℕ) (positive : (t : Tag) → 0 < length (enc t)) where
  mutual
    value_fits : (v : Value) (size : ℕ) → weight_value v < length (value_sent enc v size)
    value_fits (bool b) size = positive (Tag.bool b)
    value_fits (int (pos n)) size = positive (Tag.uint n)
    value_fits (int (negsuc n)) size = positive (Tag.int (negsuc n))
    value_fits (uint n) size = positive (Tag.uint n)
    value_fits (float x) size = positive (Tag.float x)
    value_fits (double x) size = positive (Tag.double x)
    value_fits (str (some s)) size =
        let t = c_bytes size s in
        omega (arith, positive (Tag.str (length t)), length-append (enc (Tag.str (length t))) t)
    value_fits (bin (some b)) size =
        let t = data_sent b.bytes b.len in
        omega (arith, positive (Tag.bin (length t)), length-append (enc (Tag.bin (length t))) t)
    value_fits (array slots capacity) size = omega (
      arith,
      positive (Tag.array (count slots)),
      length-append (enc (Tag.array (count slots))) (slots_sent enc slots),
      slots_fit slots,
    )
    value_fits _ size = positive Tag.nil

    object_fits : (o : Object) → weight o ≤ length (object_sent enc o)
    object_fits (object v size) = value_fits v size

    slots_fit : (s : Slots) → weight_slots s ≤ length (slots_sent enc s)
    slots_fit end = omega arith
    slots_fit (hole rest) =
        omega (arith, slots_fit rest, length-append (enc Tag.nil) (slots_sent enc rest))
    slots_fit (slot o rest) = omega (
      arith,
      slots_fit rest,
      object_fits o,
      length-append (object_sent enc o) (slots_sent enc rest),
    )

  pub notification_fits :
      (m : List ℕ) (slots : Slots) (rest : List ℕ)
      → suc (weight_slots slots) ≤ length (notification_bytes enc m slots ++ rest)
  notification_fits m slots rest = omega (
    arith,
    slots_fit slots,
    positive (Tag.array 3),
    length-append (notification_bytes enc m slots) rest,
    length-append (enc (Tag.array 3)) (
        enc (Tag.uint rpc_notification)
        ++ (enc (Tag.str (length m))
            ++ (m ++ (enc (Tag.array (count slots)) ++ slots_sent enc slots)))),
    length-append (enc (Tag.uint rpc_notification)) (
        enc (Tag.str (length m)) ++ (m ++ (enc (Tag.array (count slots)) ++ slots_sent enc slots))),
    length-append (enc (Tag.str (length m)))
        (m ++ (enc (Tag.array (count slots)) ++ slots_sent enc slots)),
    length-append m (enc (Tag.array (count slots)) ++ slots_sent enc slots),
    length-append (enc (Tag.array (count slots))) (slots_sent enc slots),
  )
