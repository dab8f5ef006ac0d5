-- ===== src/Wire/Notification/Unmarshal/RoundTrip.antt =====
-- NotificationUnmarshal on the bytes that NotificationMarshal writes.
use haze.Base.{
  ℕ, suc, ◌≡◌, refl, ap, sym, subst, ◌∙◌, ◌++◌, ◌≤◌, ◌<◌, ◌==◌, Option, none, some, List, Bool,
  true, false, if◌then◌else◌, length, IsText, append_assoc, arith, take, take-length,
}
use haze.Memory.{Heap, IsAmple, alloc, alloc-IsAmple, adopt}
use haze.Object.{Object, ObjectArray, Slots, end, slot, hole}
use haze.Object.Copy.{count, snoc, create_array, free_object}
use haze.Object.Copy.Ample.{plan-free_object}
use haze.Object.Copy.Content.{canonical, canonical_slots, IsFull, join, join-snoc, join-end}
use haze.Object.Array
use haze.Wire.Mpack.{Tag, Reader, Reads, Writer, Writes}
use haze.Wire.Request.Unmarshal.Steps.{append-back}
use haze.Wire.Notification.{Notification, rpc_notification, new, append_param, marshal}
use haze.Wire.Notification.Encoding.{
  object_sent, slots_sent, notification_bytes, sendable, marshal-notification_bytes,
}
use haze.Wire.Notification.Expect.{Expect, max_params, max_method_size}
use haze.Wire.Cursor.{Cursor, S}
use haze.Wire.Notification.Unmarshal.{
  read_object, read_params, param_done, failed, close_message, drop_notification, with_notification,
  with_method, read_message, unmarshal, unmarshal_bytes,
}
use haze.Wire.Notification.Unmarshal.Laws.{
  Expects, IsKeptSlots, Kept-IsInside, restored, restored_slots, restored-IsFull, IsFull-of,
}
use haze.Wire.Notification.Unmarshal.Back.{Items, slots_back}
use haze.Wire.Cursor.Steps.{Gives, Gives-then, Gives-mono, At, Came}
use haze.Wire.Notification.Unmarshal.Sizes.{notification_fits}

-- The notification with these fields.
abbrev pub notice : List ℕ → ObjectArray → Notification
notice m a = record { type = rpc_notification; method = some m; params = some a }

bytes-append :
    (enc : Tag → List ℕ) (m : List ℕ) (slots : Slots) (rest : List ℕ)
    → notification_bytes enc m slots ++ rest
      ≡ enc (Tag.array 3)
        ++ (enc (Tag.uint rpc_notification)
            ++ (enc (Tag.str (length m))
                ++ (m ++ (enc (Tag.array (count slots)) ++ (slots_sent enc slots ++ rest)))))
bytes-append enc m slots rest = simp (append_assoc)

module _ {R : Type 0} (rd : Reader R) (ex : Expect R) (enc : Tag → List ℕ) (law : Reads rd enc)
    (expects : Expects law ex) where
  -- The notification came with the elements of `before` and then those of `slots`.
  abbrev Filled : List ℕ → Slots → Slots → List ℕ → Notification → Cursor R → Type 0
  Filled m before slots rest q c =
      (b : ObjectArray) × (q ≡ notice m b)
      × (canonical_slots b.slots
          ≡ join (canonical_slots before) (canonical_slots (restored_slots slots)))
      × At rd enc law c rest

  param_go :
      (o : Object) (q : Notification) (go : Notification → S R (Option Notification))
      (r : Bool × Option ObjectArray) (c : Cursor R) (Q : Notification → Cursor R → Type 0)
      → r.0 ≡ true
      → Gives (go (record q { params = r.1 }) (record c { heap = (free_object o c.heap).1 })) Q
      → Gives (param_done rd ex o q go r c) Q
  unfolding param_done
  param_go o q go (true, a) c Q e g = g
  param_go o q go (false, a) c Q e g = absurd (ground arith)

  params-Gives :
      (item : S R (Option Object)) (todo : Slots) (m : List ℕ) (a : ObjectArray) (rest : List ℕ)
      (c : Cursor R)
      → IsKeptSlots todo
      → Items rd ex enc law expects item todo
      → At rd enc law c (slots_sent enc todo ++ rest)
      → Gives (read_params rd ex item (count todo) (notice m a) c) (Filled m a.slots todo rest)
  unfolding read_params restored_slots canonical append_param
  params-Gives item end m a rest c k l at = (a, refl, sym (join-end (canonical_slots a.slots)), at)
  params-Gives item (hole todo) m a rest c k l at = absurd k
  params-Gives item (slot o todo) m a rest c (k, ks) (l, ls) (i, ample) =
      let behind = slots_sent enc todo ++ rest in
      let i' = i ∙ ap some (append_assoc (object_sent enc o) (slots_sent enc todo) rest) in
      Gives-then (item c) (drop_notification rd ex (notice m a)) _
        (Came rd enc law (restored o) behind) _ (l behind c (i', ample))
        λ v c' (same, (j, ample')).
          let full = IsFull-of v (subst IsFull (sym same) (restored-IsFull o k)) in
          let (done, ample'', added) = append-back a v c'.heap ample' full in
          let b = (Array.append a (some v) c'.heap).0.1 in
          let h = (Array.append a (some v) c'.heap).1 in
          let e : (canonical_slots b.slots)
              ≡ snoc (canonical_slots a.slots) (canonical (restored o)) =
            added ∙ ap (snoc (canonical_slots a.slots)) same in
          param_go v (notice m a) (read_params rd ex item (count todo)) _ (record c' { heap = h }) _
            done
            (Gives-mono
              (read_params rd ex item (count todo) (notice m b)
                (record c' { heap = (free_object v h).1 }))
              _ _
              (λ q d (b', got, same', at). (
                b',
                got,
                same'
                    ∙ ap (λ t. join t (canonical_slots (restored_slots todo))) e
                    ∙ join-snoc (canonical_slots a.slots) (canonical (restored o))
                        (canonical_slots (restored_slots todo)),
                at,
              ))
              (params-Gives item todo m b rest (record c' { heap = (free_object v h).1 }) ks ls
                (j, plan-free_object v h ∙ ample'')))

  close_message-Gives :
      (q : Notification) (m : List ℕ) (before slots : Slots) (rest : List ℕ) (c : Cursor R)
      → Filled m before slots rest q c
      → Gives (close_message rd ex (some q) c) (Filled m before slots rest)
  unfolding close_message failed
  close_message-Gives q m before slots rest c (b, e, same, (i, ample)) =
      let j = law.input_done_array (rd.done_array c.reader) ∙ law.input_done_array c.reader ∙ i in
      rw (law.failed_not _ rest j) (b, e, same, (j, ample))

  closed :
      (r : Option Notification × Cursor R) (m : List ℕ) (before slots : Slots) (rest : List ℕ)
      → Gives r (Filled m before slots rest)
      → Gives (close_message rd ex r.0 r.1) (Filled m before slots rest)
  closed (none, c) m before slots rest g = absurd g
  closed (some q, c) m before slots rest g = close_message-Gives q m before slots rest c g

  with_method-Gives :
      (item : S R (Option Object)) (m : List ℕ) (slots : Slots) (rest : List ℕ) (c : Cursor R)
      → count slots ≤ max_params
      → IsKeptSlots slots
      → Items rd ex enc law expects item slots
      → At rd enc law c (enc (Tag.array (count slots)) ++ (slots_sent enc slots ++ rest))
      → Gives (with_method rd ex item (some m) c) (Filled m end slots rest)
  unfolding with_method with_notification failed new create_array adopt
  with_method-Gives item m slots rest c few k l (i, ample) =
      let (len, left) =
        expects.array_there c.reader max_params (count slots) (slots_sent enc slots ++ rest) few
          i in
      let r = (ex.expect_array_max max_params c.reader).1 in
      let h = (adopt c.heap).1 in
      let (given, a₁) = alloc-IsAmple h ample in
      let (given', a₂) = alloc-IsAmple (alloc h).1 a₁ in
      let (given'', a₃) = alloc-IsAmple (alloc (alloc h).1).1 a₂ in
      rw (law.failed_not c.reader _ i, len, law.failed_not r _ left, given, given', given'')
        (closed
          (read_params rd ex item (count slots) (notice m (record { slots = end; capacity = 8 }))
            (record { reader = r; heap = (alloc (alloc (alloc h).1).1).1 }))
          m end slots rest
          (params-Gives item slots m (record { slots = end; capacity = 8 }) rest
            (record { reader = r; heap = (alloc (alloc (alloc h).1).1).1 }) k l (left, a₃)))

  read_message-Gives :
      (item : S R (Option Object)) (m : List ℕ) (slots : Slots) (rest : List ℕ) (c : Cursor R)
      → IsText m
      → length m < max_method_size
      → count slots ≤ max_params
      → IsKeptSlots slots
      → Items rd ex enc law expects item slots
      → At rd enc law c (notification_bytes enc m slots ++ rest)
      → Gives (read_message rd ex item c) (Filled m end slots rest)
  unfolding read_message failed
  read_message-Gives item m slots rest c clean short few k l (i, ample) =
      let behind = enc (Tag.array (count slots)) ++ (slots_sent enc slots ++ rest) in
      let i₀ = i ∙ ap some (bytes-append enc m slots rest) in
      let (three, i₁) = expects.array_there c.reader 3 3 _ (omega arith) i₀ in
      let r₁ = (ex.expect_array_max 3 c.reader).1 in
      let i₂ = expects.match_there r₁ rpc_notification _ i₁ in
      let r₂ = ex.expect_uint_match rpc_notification r₁ in
      let (got, i₃) = expects.cstr_there r₂ max_method_size m behind clean short i₂ in
      let r₃ = (ex.expect_cstr_alloc max_method_size r₂).1 in
      rw (law.failed_not r₁ _ i₁, three, law.failed_not r₂ _ i₂, got)
        (with_method-Gives item m slots rest (record c { reader = r₃ }) few k l (i₃, ample))

  given :
      (bytes m : List ℕ) (slots : Slots) (rest : List ℕ) (h : Heap)
      → 0 < length bytes
      → (r : Option Notification × Cursor R) → Gives r (Filled m end slots rest)
      → (b : ObjectArray) × ((if◌then◌else◌ {A = Option Notification × Heap}
            (length bytes == 0)
            (none, h)
            (r.0, r.1.heap)).0
          ≡ some (notice m b))
        × (canonical_slots b.slots ≡ canonical_slots (restored_slots slots))
  unfolding canonical
  given bytes m slots rest h p (none, c) g = absurd g
  given bytes m slots rest h p (some q, c) (b, e, same, at) = (b, ground (arith, e, p), same)

  -- With ample memory NotificationUnmarshal of the encoding of [2, method, params], and whatever is
  -- behind it, gives the notification with this method and the content of these parameters.
  pub unmarshal_reads_notification :
      (m : List ℕ) (slots : Slots) (rest : List ℕ) (h : Heap)
      → ((t : Tag) → 0 < length (enc t))
      → IsText m
      → length m < max_method_size
      → count slots ≤ max_params
      → IsKeptSlots slots
      → IsAmple h
      → let bytes = notification_bytes enc m slots ++ rest in
        (b : ObjectArray) × ((unmarshal rd ex
            (some (record { bytes = some bytes; len = length bytes }))
            h).0
          ≡ some (notice m b))
        × (canonical_slots b.slots ≡ canonical_slots (restored_slots slots))
  unfolding unmarshal unmarshal_bytes
  unmarshal_reads_notification m slots rest h positive clean short few k ample =
      let bytes = notification_bytes enc m slots ++ rest in
      let fits = notification_fits enc positive m slots rest in
      let c : Cursor R = record { reader = rd.init_data (take (length bytes) bytes); heap = h } in
      let at : At rd enc law c bytes =
        (law.input_init (take (length bytes) bytes) ∙ ap some (take-length bytes), ample) in
      let item = read_object rd ex (suc (length bytes)) in
      given bytes m slots rest h (omega (arith, fits)) (read_message rd ex item c) (
        read_message-Gives item m slots rest c clean short few k
          (slots_back rd ex enc law expects slots _ (omega (arith, fits)) k) at)

-- With ample memory NotificationMarshal writes a notification and NotificationUnmarshal reads it back
-- from these bytes and whatever is behind them. The method has fewer than 4096 bytes and no 0, the
-- parameters and the elements of an array are at most 4096, and each parameter is sendable and kept:
-- a string has its length for its size, below 2 ^ 32, and no 0, a bin has its bytes, and there is no
-- map. Arrays inside arrays come back too; an integer of no sign comes back as unsigned.
pub unmarshal-marshal_notification :
    {W R : Type 0} (wr : Writer W) (flag_error : W → W) (rd : Reader R) (ex : Expect R)
    (enc : Tag → List ℕ) (writes : Writes wr enc) (reads : Reads rd enc)
    (expects : Expects reads ex) (type : ℕ) (m : List ℕ) (a : ObjectArray) (rest : List ℕ)
    (h k : Heap)
    → IsText m
    → length m < max_method_size
    → count a.slots ≤ max_params
    → sendable a.slots ≡ true
    → IsKeptSlots a.slots
    → IsAmple h
    → IsAmple k
    → (bytes : List ℕ) × (b : ObjectArray) × ((marshal wr flag_error
          (some (record { type = type; method = some m; params = some a }))
          h).0
        ≡ some (record { bytes = some bytes; len = length bytes }))
      × ((unmarshal rd ex
            (some (record { bytes = some (bytes ++ rest); len = length (bytes ++ rest) }))
            k).0
          ≡ some (notice m b))
      × (canonical_slots b.slots ≡ canonical_slots (restored_slots a.slots))
unmarshal-marshal_notification wr flag_error rd ex enc writes reads expects type m a rest h k clean
      short few s kept e f =
    let (b, back, same) =
      unmarshal_reads_notification rd ex enc reads expects m a.slots rest k writes.tag_nonempty
        clean short few kept f in
    (
      notification_bytes enc m a.slots,
      b,
      marshal-notification_bytes wr flag_error enc writes type m a h (omega (arith, short))
          (omega (arith, few)) s (Kept-IsInside a.slots kept) e,
      back,
      same,
    )
