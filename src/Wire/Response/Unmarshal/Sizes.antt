-- ===== src/Wire/Response/Unmarshal/Sizes.antt =====
-- The bytes of a response are at least as many as the objects in its error and in its result.
use haze.Base.{
  ℕ, ◌^◌, ◌%◌, ◌++◌, ◌≤◌, ◌<◌, pos, negsuc, Option, none, some, List, length, length-append, arith,
  take,
}
use haze.Object.{
  Value, Object, Slots, bool, int, uint, float, double, str, bin, array, object, end, slot, hole,
}
use haze.Object.Copy.{count}
use haze.Wire.Mpack.{Tag}
use haze.Wire.Encode.{u32_mod, c_bytes}
use haze.Wire.Encode.Bytes.{value_bytes, object_bytes, slots_bytes}
use haze.Wire.Notification.Unmarshal.Laws.{weight, weight_value, weight_slots}
use haze.Wire.Response.{Response}
use haze.Wire.Response.Laws.{pointer_bytes, response_bytes}
use haze.Wire.Response.Unmarshal.Fields.{Weighs}

module _ (enc : Tag → List ℕ) (positive : (t : Tag) → 0 < length (enc t)) where
  bin_fits :
      (bytes : Option (List ℕ)) (n size : ℕ)
      → 0 < length (value_bytes enc (bin (some (record { bytes = bytes; len = n }))) size)
  unfolding value_bytes
  bin_fits none n size = positive Tag.nil
  bin_fits (some bytes) n size =
      let t = take (n % u32_mod) bytes in
      omega (arith, positive (Tag.bin (length t)), length-append (enc (Tag.bin (length t))) t)

  mutual
    unfolding value_bytes

    value_fits : (v : Value) (size : ℕ) → weight_value v < length (value_bytes enc v size)
    value_fits (bool b) size = positive (Tag.bool b)
    value_fits (int (pos n)) size = positive (Tag.uint n)
    value_fits (int (negsuc n)) size = positive (Tag.int (negsuc n))
    value_fits (uint n) size = positive (Tag.uint n)
    value_fits (float x) size = positive (Tag.float x)
    value_fits (double x) size = positive (Tag.double x)
    value_fits (str (some s)) size =
        let t = c_bytes (size % u32_mod) s in
        omega (arith, positive (Tag.str (length t)), length-append (enc (Tag.str (length t))) t)
    value_fits (bin (some b)) size = bin_fits b.bytes b.len size
    value_fits (array slots capacity) size = omega (
      arith,
      positive (Tag.array (count slots % u32_mod)),
      length-append (enc (Tag.array (count slots % u32_mod))) (slots_bytes enc slots),
      slots_fit slots,
    )
    value_fits _ size = positive Tag.nil

    object_fits : (o : Object) → weight o ≤ length (object_bytes enc o)
    object_fits (object v size) = value_fits v size

    slots_fit : (s : Slots) → weight_slots s ≤ length (slots_bytes enc s)
    slots_fit end = omega arith
    slots_fit (hole rest) =
        omega (arith, slots_fit rest, length-append (enc Tag.nil) (slots_bytes enc rest))
    slots_fit (slot o rest) = omega (
      arith,
      slots_fit rest,
      object_fits o,
      length-append (object_bytes enc o) (slots_bytes enc rest),
    )

  pointer_fits : (p : Option Object) (n : ℕ) → length (pointer_bytes enc p) ≤ n → Weighs p n
  pointer_fits none n k = tt
  pointer_fits (some o) n k = omega (arith, object_fits o, k)

  pub response_fits :
      (r : Response) (rest : List ℕ)
      → let n = length (response_bytes enc r ++ rest) in
        Weighs r.error n × Weighs r.result n × (0 < n)
  response_fits r rest =
      let tail = pointer_bytes enc r.error ++ pointer_bytes enc r.result in
      let id = enc (Tag.uint (r.msgid % 2 ^ 32)) in
      let type = enc (Tag.uint (r.type % 2 ^ 8)) in
      let whole = length-append (response_bytes enc r) rest in
      let all = length-append (enc (Tag.array 4)) (type ++ (id ++ tail)) in
      let most = length-append type (id ++ tail) in
      let ends = length-append id tail in
      let both = length-append (pointer_bytes enc r.error) (pointer_bytes enc r.result) in
      (
        pointer_fits r.error _ (omega (arith, whole, all, most, ends, both)),
        pointer_fits r.result _ (omega (arith, whole, all, most, ends, both)),
        omega (arith, whole, all, positive (Tag.array 4)),
      )
