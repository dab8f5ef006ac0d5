-- ===== src/Wire/Notification/Unmarshal/Values.antt =====
-- NotificationReadObject on a value that is not an array, as NotificationWriteObject writes it.
use haze.Base.{
  ℕ, zero, suc, ◌≡◌, refl, sym, subst, ◌∙◌, ◌++◌, ℤ, pos, negsuc, Option, none, some, List, [], ◌∷◌,
  true, false, length, IsText, arith, take,
}
use haze.Memory.{M, alloc, alloc-IsAmple}
use haze.Object
use haze.Object.{
  Value, Object, ObjectArray, Slots, und, nil, bool, int, uint, float, double, str, bin, array,
  object, end, slot, hole,
}
use haze.Object.Copy.Content.{canonical, canonical_bytes}
use haze.Wire.Mpack.{Tag, Reader, Reads, int_tag}
use haze.Wire.Request.Unmarshal.Steps.{Makes}
use haze.Wire.Request.Unmarshal.Back.{create_int-Makes, create_uint-Makes}
use haze.Wire.Notification.Encoding.{data_sent}
use haze.Wire.Notification.Expect.{Expect}
use haze.Wire.Cursor.{Cursor, ◌>>=◌, mem, call}
use haze.Wire.Notification.Unmarshal.{
  read_object, read_tagged, read_str, read_bin, has_zero, failed, around, text_object, text_body,
  bin_body, bytes_read,
}
use haze.Wire.Notification.Unmarshal.Laws.{Expects, restored_int}
use haze.Wire.Cursor.Steps.{Gives, At, Came, made-Gives}

text_no_zero : (s : List ℕ) → IsText s → has_zero s ≡ false
unfolding has_zero
text_no_zero [] h = refl
text_no_zero (c ∷ s) (p, h) = ground (arith, text_no_zero s h)

module _ {R : Type 0} (rd : Reader R) (ex : Expect R) (enc : Tag → List ℕ) (law : Reads rd enc)
    (expects : Expects law ex) where
  pub peek-Gives :
      (fuel : ℕ) (o : Object) (t : Tag) (bytes rest : List ℕ) (c : Cursor R)
      → ((c' : Cursor R)
          → At rd enc law c' (enc t ++ bytes)
          → Gives (read_tagged rd ex (read_object rd ex fuel) t c') (Came rd enc law o rest))
      → At rd enc law c (enc t ++ bytes)
      → Gives (read_object rd ex (suc fuel) c) (Came rd enc law o rest)
  unfolding read_object
  peek-Gives fuel o t bytes rest c k (i, a) =
      let (tag, left) = expects.peek_there c.reader t bytes i in
      let c' : Cursor R = record c { reader = (ex.peek_tag c.reader).1 } in
      subst (λ u. Gives (read_tagged rd ex (read_object rd ex fuel) u c') (Came rd enc law o rest))
        (sym tag) (k c' (left, a))

  -- An expected value, of which an object is made.
  pub value-Gives {ℓ} :
      {A : Type ℓ} (expect : R → A × R) (make : A → M (Option Object)) (x : A) (o : Object)
      (bytes rest : List ℕ) (c : Cursor R)
      → (law.input c.reader ≡ some bytes
          → ((expect c.reader).0 ≡ x) × (law.input (expect c.reader).1 ≡ some rest))
      → Makes rd enc law (make x) o
      → At rd enc law c bytes
      → Gives ((call expect >>= λ y. mem (make y)) c) (Came rd enc law o rest)
  value-Gives expect make x o bytes rest c e k (i, a) =
      let (got, left) = e i in
      let c' : Cursor R = record c { reader = (expect c.reader).1 } in
      subst (λ y. Gives (mem (make y) c') (Came rd enc law o rest)) (sym got)
        (made-Gives rd enc law (make x) o rest c' k (left, a))

  pub int-Gives :
      (fuel : ℕ) (z : ℤ) (rest : List ℕ) (c : Cursor R)
      → At rd enc law c (enc (int_tag z) ++ rest)
      → Gives (read_object rd ex (suc fuel) c) (Came rd enc law (restored_int z) rest)
  unfolding read_tagged
  int-Gives fuel (pos n) rest c = peek-Gives fuel (object (uint n) 8) (Tag.uint n) rest rest c λ c'.
      value-Gives ex.expect_uint Object.create_uint n (object (uint n) 8) _ rest c'
        (expects.uint_there c'.reader n rest) (create_uint-Makes rd enc law n)
  int-Gives fuel (negsuc n) rest c =
      peek-Gives fuel (object (int (negsuc n)) 8) (Tag.int (negsuc n)) rest rest c λ c'.
        value-Gives ex.expect_int Object.create_int (negsuc n) (object (int (negsuc n)) 8) _ rest c'
          (expects.int_there c'.reader (negsuc n) rest) (create_int-Makes rd enc law (negsuc n))

  pub str-Gives :
      (s rest : List ℕ) (c : Cursor R)
      → IsText s
      → At rd enc law c (enc (Tag.str (length s)) ++ (s ++ rest))
      → Gives (read_str rd ex c) (Came rd enc law (object (str (some s)) (length s)) rest)
  unfolding read_str text_body text_object around failed
  str-Gives s rest c clean (i, a) =
      let (len, left) = expects.str_there c.reader (length s) (s ++ rest) i in
      let r = (ex.expect_str c.reader).1 in
      let (given, ample) = alloc-IsAmple c.heap a in
      let (got, left') = law.bytes_there r s rest left in
      let r' = (rd.read_bytes (length s) r).1 in
      let (given', ample') = alloc-IsAmple (alloc c.heap).1 ample in
      let behind = law.input_done_str r' ∙ left' in
      rw
        (
          len,
          law.failed_not r _ left,
          given,
          got,
          law.failed_not (rd.done_str r') rest behind,
          text_no_zero s clean,
          given',
        )
        (refl, (behind, ample'))

  bin_body-Gives :
      (bytes : Option (List ℕ)) (n : ℕ) (rest : List ℕ) (c : Cursor R)
      → length (data_sent bytes n) ≡ n
      → At rd enc law c (data_sent bytes n ++ rest)
      → Gives
          (bin_body rd ex n true c)
          (Came rd enc law (object (bin (some (canonical_bytes bytes n))) n) rest)
  unfolding bin_body bytes_read around failed canonical
  bin_body-Gives none zero rest c sized (i, a) =
      let (given, ample) = alloc-IsAmple c.heap a in
      let behind = law.input_done_bin c.reader ∙ i in
      rw (law.failed_not (rd.done_bin c.reader) rest behind, given) (refl, (behind, ample))
  bin_body-Gives (some s) zero rest c sized (i, a) =
      let (given, ample) = alloc-IsAmple c.heap a in
      let behind = law.input_done_bin c.reader ∙ i in
      rw (law.failed_not (rd.done_bin c.reader) rest behind, given) (refl, (behind, ample))
  bin_body-Gives none (suc n) rest c sized (i, a) = absurd (omega (arith, sized))
  bin_body-Gives (some s) (suc n) rest c sized (i, a) =
      let (given, ample) = alloc-IsAmple c.heap a in
      let (got, left) =
        subst
          (λ k.
            ((rd.read_bytes k c.reader).0 ≡ take (suc n) s)
            × (law.input (rd.read_bytes k c.reader).1 ≡ some rest))
          sized (law.bytes_there c.reader (take (suc n) s) rest i) in
      let r' = (rd.read_bytes (suc n) c.reader).1 in
      let behind = law.input_done_bin r' ∙ left in
      rw (got, law.failed_not (rd.done_bin r') rest behind, given) (refl, (behind, ample))

  pub bin-Gives :
      (bytes : Option (List ℕ)) (n : ℕ) (rest : List ℕ) (c : Cursor R)
      → length (data_sent bytes n) ≡ n
      → At rd enc law c (enc (Tag.bin (length (data_sent bytes n))) ++ (data_sent bytes n ++ rest))
      → Gives
          (read_bin rd ex c)
          (Came rd enc law (object (bin (some (canonical_bytes bytes n))) n) rest)
  unfolding read_bin bin_body bytes_read around failed
  bin-Gives bytes n rest c sized (i, a) =
      let (len, left) =
        expects.bin_there c.reader (length (data_sent bytes n)) (data_sent bytes n ++ rest) i in
      let r = (ex.expect_bin c.reader).1 in
      let (given, ample) = alloc-IsAmple c.heap a in
      rw (len, sized, law.failed_not r _ left, given)
        (bin_body-Gives bytes n rest (record { reader = r; heap = (alloc c.heap).1 }) sized
          (left, ample))
