-- ===== src/Wire/Notification/Encoding.antt =====
-- NotificationWriteObject and NotificationMarshal: what they write, and what they refuse.
use haze.Base.{
  ℕ, ◌<◌, ◌≡◌, refl, ap, ◌∙◌, sym, Option, none, some, List, [], ◌++◌, Bool, true, false, leb, ltb,
  not, ◌&&◌, if◌then◌else◌, length, take, arith, append_assoc, append-nil,
}
use haze.Memory.{Heap, IsAmple, adopt, alloc-IsAmple}
use haze.Object.{
  Value, Object, ObjectArray, Slots, nil, bool, int, uint, float, double, str, bin, array, object,
  end, slot, hole,
}
use haze.Object.Copy.{count}
use haze.Wire.Mpack.{Tag, Writer, Writes, int_tag}
use haze.Wire.Encode.{u32_mod, c_bytes, IsInside, IsInsideValue, IsInsideSlots}
use haze.Wire.Notification.{
  rpc_notification, notify_value, notify_object, notify_slots, marshal, boxed, write_notification,
  flagged, checked, next, write_data,
}

abbrev pub no_dangling : Option (List ℕ) → ℕ → Bool
no_dangling none n = not (ltb 0 n)
no_dangling (some s) n = true

-- The objects that a notification carries: no map, undefined object or null pointer, and lengths
-- below 2 ^ 32.
abbrev mutual
  pub sendable_value : Value → ℕ → Bool
  sendable_value nil size = true
  sendable_value (bool b) size = true
  sendable_value (int z) size = true
  sendable_value (uint n) size = true
  sendable_value (float x) size = true
  sendable_value (double x) size = true
  sendable_value (str (some s)) size = not (leb u32_mod size)
  sendable_value (bin (some b)) size = not (leb u32_mod b.len) && no_dangling b.bytes b.len
  sendable_value (array slots capacity) size = not (leb u32_mod (count slots)) && sendable slots
  sendable_value v size = false

  pub sendable_object : Object → Bool
  sendable_object (object v size) = sendable_value v size

  pub sendable : Slots → Bool
  sendable end = true
  sendable (hole rest) = false
  sendable (slot o rest) = sendable_object o && sendable rest

-- The data that a bin is written with.
abbrev pub data_sent : Option (List ℕ) → ℕ → List ℕ
data_sent none n = []
data_sent (some bytes) n = take n bytes

module _ (enc : Tag → List ℕ) where
  -- The MessagePack encoding of an object.
  abbrev mutual
    pub value_sent : Value → ℕ → List ℕ
    value_sent (bool b) size = enc (Tag.bool b)
    value_sent (int z) size = enc (int_tag z)
    value_sent (uint n) size = enc (Tag.uint n)
    value_sent (float x) size = enc (Tag.float x)
    value_sent (double x) size = enc (Tag.double x)
    value_sent (str (some s)) size = let t = c_bytes size s in enc (Tag.str (length t)) ++ t
    value_sent (bin (some b)) size =
        let t = data_sent b.bytes b.len in enc (Tag.bin (length t)) ++ t
    value_sent (array slots capacity) size = enc (Tag.array (count slots)) ++ slots_sent slots
    value_sent v size = enc Tag.nil

    pub object_sent : Object → List ℕ
    object_sent (object v size) = value_sent v size

    pub slots_sent : Slots → List ℕ
    slots_sent end = []
    slots_sent (hole rest) = enc Tag.nil ++ slots_sent rest
    slots_sent (slot o rest) = object_sent o ++ slots_sent rest

module _ {W : Type 0} (wr : Writer W) (enc : Tag → List ℕ) (law : Writes wr enc) where
  open law use {output}

  -- The test passes exactly if `ok`, and then the output is longer by `bytes`.
  abbrev pub Sends : Bool × W → Bool → W → List ℕ → Type 0
  Sends r ok w bytes = (r.0 ≡ ok) × (ok ≡ true → output r.1 ≡ output w ++ bytes)

  checked-Sends :
      (w w' : W) (bytes : List ℕ)
      → output w' ≡ output w ++ bytes
      → Sends (checked wr w') true w bytes
  unfolding checked
  checked-Sends w w' bytes e = (ap not (law.no_failure w'), λ t. e)

  refused-Sends :
      (test ok : Bool) (r : Bool × W) (w : W) (bytes : List ℕ)
      → Sends r ok w bytes
      → Sends (if test then (false, w) else r) (not test && ok) w bytes
  refused-Sends true ok r w bytes s = (refl, λ t. absurd (ground arith))
  refused-Sends false ok r w bytes s = s

  tested-Sends :
      (test : Bool) (r : Bool × W) (w : W) (bytes : List ℕ)
      → Sends r true w bytes
      → Sends (if test then (false, w) else r) (not test) w bytes
  tested-Sends true r w bytes s = (refl, λ t. absurd (ground arith))
  tested-Sends false r w bytes s = s

  closed-Sends :
      (r : Bool × W) (ok : Bool) (n : ℕ) (w : W) (bytes : List ℕ)
      → Sends r ok (wr.start_array n w) bytes
      → Sends (next wr r (λ w'. checked wr (wr.finish_array w'))) ok w (enc (Tag.array n) ++ bytes)
  unfolding next checked
  closed-Sends (false, w₁) false n w bytes s = (refl, λ e. absurd (ground arith))
  closed-Sends (false, w₁) true n w bytes (e, s) = absurd (ground arith)
  closed-Sends (true, w₁) false n w bytes (e, s) = absurd (ground arith)
  closed-Sends (true, w₁) true n w bytes (e, s) = (
    ap not (law.no_failure (wr.finish_array w₁)),
    λ t.
        law.output_finish w₁
        ∙ s refl
        ∙ ap (λ o. o ++ bytes) (law.output_array n w)
        ∙ append_assoc (output w) (enc (Tag.array n)) bytes,
  )

  next-Sends :
      (r : Bool × W) (k : W → Bool × W) (a b : Bool) (w : W) (first second : List ℕ)
      → Sends r a w first
      → ((w' : W) → Sends (k w') b w' second)
      → Sends (next wr r k) (a && b) w (first ++ second)
  unfolding next
  next-Sends (false, w₁) k false b w first second s t = (refl, λ e. absurd (ground arith))
  next-Sends (false, w₁) k true b w first second (e, s) t = absurd (ground arith)
  next-Sends (true, w₁) k false b w first second (e, s) t = absurd (ground arith)
  next-Sends (true, w₁) k true b w first second (e, s) t = (
    (t w₁).0,
    λ f. (t w₁).1 f ∙ ap (λ o. o ++ second) (s refl) ∙ append_assoc (output w) first second,
  )

  write_data-Sends :
      (bytes : Option (List ℕ)) (n : ℕ) (w : W)
      → Sends
          (write_data wr bytes n w)
          (no_dangling bytes n)
          w
          (enc (Tag.bin (length (data_sent bytes n))) ++ data_sent bytes n)
  unfolding write_data checked
  write_data-Sends none n w =
      tested-Sends (ltb 0 n) _ w _ (checked-Sends w _ _ (law.output_bin [] w))
  write_data-Sends (some bytes) n w = checked-Sends w _ _ (law.output_bin (take n bytes) w)

  mutual
    unfolding notify_value

    notify_value-Sends :
        (v : Value) (size : ℕ)
        → IsInsideValue v size
        → (w : W)
        → Sends (notify_value wr v size w) (sendable_value v size) w (value_sent enc v size)
    notify_value-Sends nil size i w = checked-Sends w _ _ (law.output_nil w)
    notify_value-Sends (bool b) size i w = checked-Sends w _ _ (law.output_bool b w)
    notify_value-Sends (int z) size i w = checked-Sends w _ _ (law.output_int z w)
    notify_value-Sends (uint n) size i w = checked-Sends w _ _ (law.output_uint n w)
    notify_value-Sends (float x) size i w = checked-Sends w _ _ (law.output_float x w)
    notify_value-Sends (double x) size i w = checked-Sends w _ _ (law.output_double x w)
    notify_value-Sends (str (some s)) size i w =
        tested-Sends (leb u32_mod size) _ w _ (checked-Sends w _ _ (law.output_cstr s size w i))
    notify_value-Sends (bin (some b)) size i w =
        refused-Sends (leb u32_mod b.len) (no_dangling b.bytes b.len) _ w _
          (write_data-Sends b.bytes b.len w)
    notify_value-Sends (array slots capacity) size i w =
        refused-Sends (leb u32_mod (count slots)) (sendable slots) _ w _ (
          closed-Sends _ (sendable slots) (count slots) w (slots_sent enc slots)
            (notify_slots-Sends slots i (wr.start_array (count slots) w)))
    notify_value-Sends _ size i w = (refl, λ t. absurd (ground arith))

    notify_object-Sends :
        (o : Object)
        → IsInside o
        → (w : W) → Sends (notify_object wr o w) (sendable_object o) w (object_sent enc o)
    notify_object-Sends (object v size) i w = notify_value-Sends v size i w

    notify_slots-Sends :
        (s : Slots)
        → IsInsideSlots s
        → (w : W) → Sends (notify_slots wr s w) (sendable s) w (slots_sent enc s)
    notify_slots-Sends end i w = (refl, λ t. sym (append-nil (output w)))
    notify_slots-Sends (hole rest) i w = (refl, λ t. absurd (ground arith))
    notify_slots-Sends (slot o rest) i w =
        next-Sends _ (notify_slots wr rest) (sendable_object o) (sendable rest) w
          (object_sent enc o) (slots_sent enc rest) (notify_object-Sends o i.0 w)
          (notify_slots-Sends rest i.1)

  -- NotificationWriteObject, of an object no string of which has a size behind its terminator,
  -- succeeds exactly for the objects that a notification carries, and then the writer's output is
  -- longer by the encoding of the object.
  pub notify_object_lem :
      (o : Object)
      → IsInside o
      → (w : W)
      → ((notify_object wr o w).0 ≡ sendable_object o)
        × (sendable_object o ≡ true
            → output (notify_object wr o w).1 ≡ output w ++ object_sent enc o)
  notify_object_lem = notify_object-Sends

-- The bytes of [2, method, params].
abbrev pub notification_bytes : (Tag → List ℕ) → List ℕ → Slots → List ℕ
notification_bytes enc m params =
    enc (Tag.array 3)
    ++ (enc (Tag.uint rpc_notification)
        ++ (enc (Tag.str (length m))
            ++ (m ++ (enc (Tag.array (count params)) ++ slots_sent enc params))))

boxed_all :
    (d : List ℕ) (h : Heap)
    → IsAmple h
    → (boxed (some d) h).0 ≡ some (record { bytes = some d; len = length d })
unfolding boxed
boxed_all d h e = ground (arith, alloc-IsAmple (adopt h).1)

not_over : {n : ℕ} → n < u32_mod → leb u32_mod n ≡ false
not_over h = ground arith

module _ {W : Type 0} (wr : Writer W) (flag_error : W → W) (enc : Tag → List ℕ)
    (law : Writes wr enc) where
  open law use {output}

  flagged_ok : (r : Bool × W) → r.0 ≡ true → flagged wr flag_error r ≡ r.1
  unfolding flagged
  flagged_ok (true, w) e = refl
  flagged_ok (false, w) e = absurd (ground arith)

  output_notification :
      (m : List ℕ) (params : Slots)
      → sendable params ≡ true
      → IsInsideSlots params
      → output (write_notification wr flag_error m params) ≡ notification_bytes enc m params
  unfolding write_notification
  output_notification m params s i =
      let w =
        wr.start_array (count params)
          (wr.write_str m (wr.write_uint rpc_notification (wr.start_array 3 wr.start))) in
      let sent = notify_slots-Sends wr enc law params i w in
      law.output_finish _
      ∙ law.output_finish _
      ∙ ap output (flagged_ok (notify_slots wr params w) (sent.0 ∙ s))
      ∙ sent.1 s
      ∙ simp (law.output_array, law.output_str, law.output_uint, law.output_start, append_assoc)

  -- With ample memory, NotificationMarshal of fewer than 2 ^ 32 parameters that a notification
  -- carries, and a method of fewer than 2 ^ 32 bytes, gives the encoding of [2, method, params].
  pub marshal-notification_bytes :
      (type : ℕ) (m : List ℕ) (a : ObjectArray) (h : Heap)
      → length m < u32_mod
      → count a.slots < u32_mod
      → sendable a.slots ≡ true
      → IsInsideSlots a.slots
      → IsAmple h
      → let bytes = notification_bytes enc m a.slots in
        (marshal wr flag_error
          (some (record { type = type; method = some m; params = some a }))
          h).0
        ≡ some (record { bytes = some bytes; len = length bytes })
  unfolding marshal flagged
  marshal-notification_bytes type m a h hm ha s i e =
      rw (not_over hm, not_over ha, law.output_destroy, output_notification m a.slots s i)
        (boxed_all _ h e)
