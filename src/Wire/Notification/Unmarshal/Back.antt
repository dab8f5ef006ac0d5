-- ===== src/Wire/Notification/Unmarshal/Back.antt =====
-- NotificationReadObject on the bytes that NotificationWriteObject writes.
use haze.Base.{
  ℕ, zero, suc, ◌≡◌, ap, sym, subst, ◌∙◌, ◌++◌, ◌≤◌, pos, Option, some, List, [], ◌∷◌, Bool, true,
  false, length, append_assoc, arith, take, take-append,
}
use haze.Memory.{alloc, alloc-IsAmple}
use haze.Object
use haze.Object.{
  Value, Object, ObjectArray, Slots, und, nil, bool, int, uint, float, double, str, bin, array,
  object, end, slot, hole,
}
use haze.Object.Copy.{count, snoc, create_array, free_object}
use haze.Object.Copy.Ample.{plan-free_object}
use haze.Object.Copy.Content.{
  canonical, canonical_slots, canonical_bytes, IsFull, join, join-snoc, join-end,
}
use haze.Object.Array
use haze.Wire.Mpack.{Tag, Reader, Reads}
use haze.Wire.Request.Unmarshal.Steps.{append-back}
use haze.Wire.Request.Unmarshal.Back.{
  create_nil-Makes, create_bool-Makes, create_float-Makes, create_double-Makes,
}
use haze.Wire.Notification.Encoding.{object_sent, slots_sent, value_sent, data_sent}
use haze.Wire.Notification.Expect.{Expect, max_params}
use haze.Wire.Cursor.{Cursor, S, ◌>>=◌, mem}
use haze.Wire.Notification.Unmarshal.{
  read_object, read_tagged, read_array, read_elements, failed, array_body, array_object, appended,
  drop_array,
}
use haze.Wire.Notification.Unmarshal.Laws.{
  Expects, IsKept, IsKeptValue, IsKeptSlots, restored, restored_value, restored_slots,
  restored-IsFull, IsFull-of, weight, weight_value, weight_slots,
}
use haze.Wire.Cursor.Steps.{Gives, Gives-then, Gives-mono, At, Came, made-Gives}
use haze.Wire.Notification.Unmarshal.Values.{
  peek-Gives, value-Gives, int-Gives, str-Gives, bin-Gives,
}

module _ {R : Type 0} (rd : Reader R) (ex : Expect R) (enc : Tag → List ℕ) (law : Reads rd enc)
    (expects : Expects law ex) where
  -- `item` reads each of these objects, wherever it stands.
  abbrev pub Items : S R (Option Object) → Slots → Type 0
  Items item end = Unit
  Items item (hole rest) = ⊥
  Items item (slot o rest) =
      ((behind : List ℕ) (c : Cursor R)
        → At rd enc law c (object_sent enc o ++ behind)
        → Gives (item c) (Came rd enc law (restored o) behind))
      × Items item rest

  appended_go :
      (v : Object) (go : ObjectArray → S R (Option ObjectArray)) (r : Bool × ObjectArray)
      (c : Cursor R) (Q : ObjectArray → Cursor R → Type 0)
      → r.0 ≡ true
      → Gives (go r.1 (record c { heap = (free_object v c.heap).1 })) Q
      → Gives (appended rd ex v go r c) Q
  unfolding appended
  appended_go v go (true, a) c Q e g = g
  appended_go v go (false, a) c Q e g = absurd (ground arith)

  -- An element that came is appended, and given back.
  appended-Gives :
      (o v : Object) (a : ObjectArray) (todo : Slots) (go : ObjectArray → S R (Option ObjectArray))
      (bytes rest : List ℕ) (c : Cursor R)
      → IsKept o
      → Came rd enc law (restored o) bytes v c
      → ((b : ObjectArray) (c' : Cursor R)
          → At rd enc law c' bytes
          → Gives (go b c') (λ d c'.
            (canonical_slots d.slots ≡ join (canonical_slots b.slots) (canonical_slots todo))
            × At rd enc law c' rest))
      → Gives ((mem (Array.append a (some v)) >>= appended rd ex v go) c) (λ d c'.
        (canonical_slots d.slots
          ≡ join (canonical_slots a.slots) (slot (canonical (restored o)) (canonical_slots todo)))
        × At rd enc law c' rest)
  unfolding appended
  appended-Gives o v a todo go bytes rest c k (same, (i, ample)) next =
      let full = IsFull-of v (subst IsFull (sym same) (restored-IsFull o k)) in
      let (done, ample', added) = append-back a v c.heap ample full in
      let b = (Array.append a (some v) c.heap).0.1 in
      let c' : Cursor R = record c {
        heap = (free_object v (Array.append a (some v) c.heap).1).1;
      } in
      let e : (canonical_slots b.slots) ≡ snoc (canonical_slots a.slots) (canonical (restored o)) =
        added ∙ ap (snoc (canonical_slots a.slots)) same in
      appended_go v go (Array.append a (some v) c.heap).0
        (record c { heap = (Array.append a (some v) c.heap).1 }) _ done
        (Gives-mono (go b c') _ _
          (λ d d' (same', at). (
            same'
                ∙ ap (λ t. join t (canonical_slots todo)) e
                ∙ join-snoc (canonical_slots a.slots) (canonical (restored o))
                    (canonical_slots todo),
            at,
          ))
          (next b c' (i, plan-free_object v (Array.append a (some v) c.heap).1 ∙ ample')))

  elements-Gives :
      (item : S R (Option Object)) (todo : Slots) (a : ObjectArray) (rest : List ℕ) (c : Cursor R)
      → IsKeptSlots todo
      → Items item todo
      → At rd enc law c (slots_sent enc todo ++ rest)
      → Gives (read_elements rd ex item (count todo) a c) (λ d c'.
        (canonical_slots d.slots
          ≡ join (canonical_slots a.slots) (canonical_slots (restored_slots todo)))
        × At rd enc law c' rest)
  unfolding read_elements restored_value canonical failed
  elements-Gives item end a rest c k l at = (sym (join-end (canonical_slots a.slots)), at)
  elements-Gives item (hole todo) a rest c k l at = absurd k
  elements-Gives item (slot o todo) a rest c (k, ks) (l, ls) (i, ample) =
      let behind = slots_sent enc todo ++ rest in
      let i' = i ∙ ap some (append_assoc (object_sent enc o) (slots_sent enc todo) rest) in
      rw (law.failed_not c.reader _ i) (
        Gives-then (item c) (drop_array rd ex a) _ (Came rd enc law (restored o) behind) _
          (l behind c (i', ample))
          λ v c' came.
            appended-Gives o v a (restored_slots todo) (read_elements rd ex item (count todo))
              behind rest c' k came λ b c'' at. elements-Gives item todo b rest c'' ks ls at)

  array_body-Gives :
      (item : S R (Option Object)) (slots : Slots) (rest : List ℕ) (c : Cursor R)
      → IsKeptSlots slots
      → Items item slots
      → At rd enc law c (slots_sent enc slots ++ rest)
      → Gives
          (array_body rd ex item (count slots) (some (record { slots = end; capacity = 8 })) c)
          (Came rd enc law (object (array (restored_slots slots) 0) (count slots)) rest)
  unfolding array_body array_object failed canonical
  array_body-Gives item slots rest c k l at =
      Gives-then (read_elements rd ex item (count slots) (record { slots = end; capacity = 8 }) c) _
        _ _ _ (elements-Gives item slots (record { slots = end; capacity = 8 }) rest c k l at)
        λ b c' (same, (i, ample)).
          let behind = law.input_done_array c'.reader ∙ i in
          let (given, ample') = alloc-IsAmple c'.heap ample in
          rw (law.failed_not (rd.done_array c'.reader) rest behind, given)
            (ap (λ t. object (array t 0) (count slots)) same, (behind, ample'))

  read_array-Gives :
      (item : S R (Option Object)) (slots : Slots) (rest : List ℕ) (c : Cursor R)
      → count slots ≤ max_params
      → IsKeptSlots slots
      → Items item slots
      → At rd enc law c (enc (Tag.array (count slots)) ++ (slots_sent enc slots ++ rest))
      → Gives
          (read_array rd ex item c)
          (Came rd enc law (object (array (restored_slots slots) 0) (count slots)) rest)
  unfolding read_array failed create_array
  read_array-Gives item slots rest c few k l (i, a) =
      let (len, left) =
        expects.array_there c.reader max_params (count slots) (slots_sent enc slots ++ rest) few
          i in
      let r = (ex.expect_array_max max_params c.reader).1 in
      let (given, ample) = alloc-IsAmple c.heap a in
      let (given', ample') = alloc-IsAmple (alloc c.heap).1 ample in
      rw (len, law.failed_not r _ left, given, given')
        (array_body-Gives item slots rest (record { reader = r; heap = (alloc (alloc c.heap).1).1 })
          k l (left, ample'))

  mutual
    unfolding read_tagged restored_value read_object

    value_back :
        (v : Value) (size fuel : ℕ) (rest : List ℕ) (c : Cursor R)
        → weight_value v ≤ fuel
        → IsKeptValue v size
        → At rd enc law c (value_sent enc v size ++ rest)
        → Gives (read_object rd ex (suc fuel) c) (Came rd enc law (restored_value v) rest)
    value_back nil size fuel rest c w k at =
        peek-Gives rd ex enc law expects fuel (object nil 0) Tag.nil rest rest c
          (λ c' here.
            made-Gives rd enc law Object.create_nil (object nil 0) rest
              (record c' { reader = ex.expect_nil c'.reader }) (create_nil-Makes rd enc law)
              (expects.nil_there c'.reader rest here.0, here.1))
          at
    value_back (bool b) size fuel rest c w k at =
        peek-Gives rd ex enc law expects fuel (object (bool b) 1) (Tag.bool b) rest rest c
          (λ c'.
            value-Gives rd ex enc law expects ex.expect_bool Object.create_bool b
              (object (bool b) 1) _ rest c' (expects.bool_there c'.reader b rest)
              (create_bool-Makes rd enc law b))
          at
    value_back (int z) size fuel rest c w k at = int-Gives rd ex enc law expects fuel z rest c at
    value_back (uint n) size fuel rest c w k at =
        int-Gives rd ex enc law expects fuel (pos n) rest c at
    value_back (float x) size fuel rest c w k at =
        peek-Gives rd ex enc law expects fuel (object (float x) 4) (Tag.float x) rest rest c
          (λ c'.
            value-Gives rd ex enc law expects ex.expect_float Object.create_float x
              (object (float x) 4) _ rest c' (expects.float_there c'.reader x rest)
              (create_float-Makes rd enc law x))
          at
    value_back (double x) size fuel rest c w k at =
        peek-Gives rd ex enc law expects fuel (object (double x) 8) (Tag.double x) rest rest c
          (λ c'.
            value-Gives rd ex enc law expects ex.expect_double Object.create_double x
              (object (double x) 8) _ rest c' (expects.double_there c'.reader x rest)
              (create_double-Makes rd enc law x))
          at
    value_back (str (some s)) size fuel rest c w (e, k) (i, a) =
        peek-Gives rd ex enc law expects fuel (object (str (some s)) (length s))
          (Tag.str (length s)) (s ++ rest) rest c
          (λ c' here. str-Gives rd ex enc law expects s rest c' k here)
          (
            i
                ∙ ap (λ t. some ((enc (Tag.str (length t)) ++ t) ++ rest))
                    (ap (λ n. take n (s ++ 0 ∷ [])) e ∙ take-append s (0 ∷ []))
                ∙ ap some (append_assoc (enc (Tag.str (length s))) s rest),
            a,
          )
    value_back (bin (some b)) size fuel rest c w k (i, a) =
        let t = data_sent b.bytes b.len in
        peek-Gives rd ex enc law expects fuel
          (object (bin (some (canonical_bytes b.bytes b.len))) b.len) (Tag.bin (length t))
          (t ++ rest) rest c
          (λ c' here. bin-Gives rd ex enc law expects b.bytes b.len rest c' k here)
          (i ∙ ap some (append_assoc (enc (Tag.bin (length t))) t rest), a)
    value_back (array slots capacity) size fuel rest c w (few, k) (i, a) =
        peek-Gives rd ex enc law expects fuel
          (object (array (restored_slots slots) 0) (count slots)) (Tag.array (count slots))
          (slots_sent enc slots ++ rest) rest c
          (λ c' here.
            read_array-Gives (read_object rd ex fuel) slots rest c' few k
              (slots_back slots fuel w k) here)
          (
            i ∙ ap some (append_assoc (enc (Tag.array (count slots))) (slots_sent enc slots) rest),
            a,
          )
    value_back _ size fuel rest c w k at = absurd k

    pub object_back :
        (o : Object) (fuel : ℕ) (rest : List ℕ) (c : Cursor R)
        → weight o ≤ fuel
        → IsKept o
        → At rd enc law c (object_sent enc o ++ rest)
        → Gives (read_object rd ex fuel c) (Came rd enc law (restored o) rest)
    object_back (object v size) zero rest c w k at = absurd (omega (arith, w))
    object_back (object v size) (suc fuel) rest c w k at =
        value_back v size fuel rest c (omega (arith, w)) k at

    pub slots_back :
        (s : Slots) (fuel : ℕ)
        → weight_slots s ≤ fuel
        → IsKeptSlots s
        → Items (read_object rd ex fuel) s
    slots_back end fuel w k = tt
    slots_back (hole rest) fuel w k = k
    slots_back (slot o rest) fuel w (k, ks) = (
      λ behind c at. object_back o fuel behind c (omega (arith, w)) k at,
      slots_back rest fuel (omega (arith, w)) ks,
    )
