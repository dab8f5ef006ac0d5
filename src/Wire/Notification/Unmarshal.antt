-- ===== src/Wire/Notification/Unmarshal.antt =====
-- NotificationReadObject and NotificationUnmarshal of source/api/proto/Notification.c. Every null
-- pointer is tested there, so that each step gives its result and goes on.
pub mod Laws
pub mod Values
pub mod Back
pub mod Sizes
pub mod RoundTrip
use haze.Base.{
  ℕ, zero, suc, ◌≡◌, ◌++◌, ◌≤◌, ◌<◌, ℤ, Option, none, some, List, [], ◌∷◌, Bool, true, false, ltb,
  ◌==◌, ◌||◌, not, if◌then◌else◌, length, IsText, take,
}
use haze.Memory
use haze.Memory.{M, Heap, alloc, free, adopt}
use haze.Buffer.{RawBuffer}
use haze.Object
use haze.Object.{Object, ObjectArray, str, bin, array, object}
use haze.Object.Copy.{count, create_array, free_array, free_object}
use haze.Object.Array
use haze.Wire.Mpack.{Tag, Reader, Reads}
use haze.Wire.Notification
use haze.Wire.Notification.{Notification, rpc_notification, free_notification, append_param}
use haze.Wire.Notification.Expect.{max_params, max_method_size, Expect}
use haze.Wire.Cursor.{Cursor, S, pure, ◌>>=◌, ◌>>◌, mem, call, run}

has_zero : List ℕ → Bool
has_zero [] = false
has_zero (c ∷ rest) = c == 0 || has_zero rest

module _ {R : Type 0} (rd : Reader R) (ex : Expect R) where
  failed : S R Bool
  failed c = (rd.reader_failed c.reader, c)

  -- The end of a case that gives `k` blocks back and marks the reader.
  flagged_none : ℕ → S R (Option Object)
  unfolding free
  flagged_none k = do mem (free k); run ex.flag_error; pure none

  -- The object around a value in `k` blocks.
  around : Object → Bool → S R (Option Object)
  unfolding flagged_none
  around o true = pure (some o)
  around o false = flagged_none 1

  text_object : ℕ → List ℕ → S R (Option Object)
  unfolding around flagged_none has_zero
  text_object n bytes =
      if has_zero bytes
      then flagged_none 1
      else (do ok ← mem alloc; around (object (str (some bytes)) n) ok)

  text_body : ℕ → Bool → S R (Option Object)
  unfolding text_object failed flagged_none free
  text_body n false = flagged_none 0
  text_body n true = do
    bytes ← call (rd.read_bytes n)
    run rd.done_str
    bad ← failed
    if bad then (do mem (free 1); pure none) else text_object n bytes

  -- The case of a string.
  pub read_str : S R (Option Object)
  unfolding text_body failed
  read_str = do
    n ← call ex.expect_str
    bad ← failed
    if bad then pure none else (do room ← mem alloc; text_body n room)

  bytes_read : ℕ → S R (Option (List ℕ))
  bytes_read zero = pure none
  bytes_read (suc n) = do bytes ← call (rd.read_bytes (suc n)); pure (some bytes)

  bin_body : ℕ → Bool → S R (Option Object)
  unfolding around failed flagged_none bytes_read free
  bin_body n false = flagged_none 0
  bin_body n true = do
    bytes ← bytes_read n
    run rd.done_bin
    bad ← failed
    if bad then (do mem (free 1); pure none) else (do
      ok ← mem alloc
      around (object (bin (some (record { bytes = bytes; len = n }))) n) ok)

  -- The case of a bin.
  pub read_bin : S R (Option Object)
  unfolding bin_body failed
  read_bin = do
    n ← call ex.expect_bin
    bad ← failed
    if bad then pure none else (do room ← mem alloc; bin_body n room)

  -- The array is given back.
  drop_array : ObjectArray → S R (Option ObjectArray)
  unfolding free_array
  drop_array a = do mem (free_array a); pure none

  -- After ObjectArrayAppend of the element.
  appended :
      Object
      → (ObjectArray → S R (Option ObjectArray))
      → Bool × ObjectArray
      → S R (Option ObjectArray)
  unfolding drop_array
  appended v go (true, a) = do mem (free_object v); go a
  appended v go (false, a) = do
    mem (free_object v)
    mem (free_array a)
    run ex.flag_error
    pure none

  -- The loop over the elements, which `item` reads.
  unfoldable pub read_elements : S R (Option Object) → ℕ → ObjectArray → S R (Option ObjectArray)
  unfolding appended failed drop_array
  read_elements item zero a = pure (some a)
  read_elements item (suc n) a = failed >>= λ bad.
      if bad
      then drop_array a
      else item >>= λ v. elim v [
        | none ↦ drop_array a
        | some o ↦ mem (Array.append a (some o)) >>= appended o (read_elements item n)
      ]

  array_object : ℕ → ObjectArray → Bool → S R (Option Object)
  array_object n a true = pure (some (object (array a.slots a.capacity) n))
  array_object n a false = do mem (free_array a); run ex.flag_error; pure none

  array_body : S R (Option Object) → ℕ → Option ObjectArray → S R (Option Object)
  unfolding read_elements array_object failed
  array_body item n none = do run ex.flag_error; pure none
  array_body item n (some a) = read_elements item n a >>= λ all. elim all [
    | none ↦ pure none
    | some b ↦ (do
      run rd.done_array
      bad ← failed
      if bad then (do mem (free_array b); pure none) else (do ok ← mem alloc; array_object n b ok))
  ]

  -- The case of an array.
  read_array : S R (Option Object) → S R (Option Object)
  unfolding array_body failed
  read_array item = do
    n ← call (ex.expect_array_max max_params)
    bad ← failed
    if bad then pure none else (do a ← mem create_array; array_body item n a)

  pub read_tagged : S R (Option Object) → Tag → S R (Option Object)
  unfolding read_array read_str read_bin
  read_tagged item Tag.nil = do run ex.expect_nil; mem Object.create_nil
  read_tagged item (Tag.bool b) = do b' ← call ex.expect_bool; mem (Object.create_bool b')
  read_tagged item (Tag.int z) = do z' ← call ex.expect_int; mem (Object.create_int z')
  read_tagged item (Tag.uint n) = do n' ← call ex.expect_uint; mem (Object.create_uint n')
  read_tagged item (Tag.float x) = do x' ← call ex.expect_float; mem (Object.create_float x')
  read_tagged item (Tag.double x) = do x' ← call ex.expect_double; mem (Object.create_double x')
  read_tagged item (Tag.str n) = read_str
  read_tagged item (Tag.bin n) = read_bin
  read_tagged item (Tag.array n) = read_array item
  read_tagged item _ = do run ex.discard; run ex.flag_error; pure none

  -- NotificationReadObject, with fuel for the arrays inside one another.
  unfoldable pub read_object : ℕ → S R (Option Object)
  unfolding read_tagged
  read_object zero = pure none
  read_object (suc fuel) = do tag ← call ex.peek_tag; read_tagged (read_object fuel) tag

  drop_notification : Notification → S R (Option Notification)
  drop_notification n = do mem (free_notification n); pure none

  param_done :
      Object
      → Notification
      → (Notification → S R (Option Notification))
      → Bool × Option ObjectArray
      → S R (Option Notification)
  unfolding drop_notification
  param_done o q go (true, params) = do mem (free_object o); go (record q { params = params })
  param_done o q go (false, params) = do
    mem (free_object o)
    drop_notification (record q { params = params })

  -- The loop over the parameters.
  read_params : S R (Option Object) → ℕ → Notification → S R (Option Notification)
  unfolding param_done drop_notification append_param
  read_params item zero q = pure (some q)
  read_params item (suc n) q = item >>= λ v. elim v [
    | none ↦ drop_notification q
    | some o ↦ mem (append_param q.params (some o)) >>= param_done o q (read_params item n)
  ]

  -- The end, with mpack_reader_destroy, which returns the error of the reader.
  close_message : Option Notification → S R (Option Notification)
  unfolding drop_notification failed
  close_message none = pure none
  close_message (some q) = do
    run rd.done_array
    run rd.done_array
    bad ← failed
    if bad then drop_notification q else pure (some q)

  with_notification :
      S R (Option Object) → List ℕ → ℕ → Option Notification → S R (Option Notification)
  unfolding read_params close_message free
  with_notification item m n none = do mem (free 1); pure none
  with_notification item m n (some q) =
      read_params item n (record q { method = some m }) >>= close_message

  with_method : S R (Option Object) → Option (List ℕ) → S R (Option Notification)
  unfolding with_notification failed free adopt
  with_method item none = pure none
  with_method item (some m) = do
    mem adopt
    bad ← failed
    if bad then (do mem (free 1); pure none) else (do
      n ← call (ex.expect_array_max max_params)
      bad ← failed
      if bad
          then (do mem (free 1); pure none)
          else (do q ← mem Notification.new; with_notification item m n q))

  read_message : S R (Option Object) → S R (Option Notification)
  unfolding with_method failed
  read_message item = do
    n ← call (ex.expect_array_max 3)
    bad ← failed
    if bad || not (n == 3) then pure none else (do
      run (ex.expect_uint_match rpc_notification)
      bad ← failed
      if bad
          then pure none
          else (do m ← call (ex.expect_cstr_alloc max_method_size); with_method item m))

  unmarshal_bytes : Option (List ℕ) → ℕ → M (Option Notification)
  unfolding read_message
  unmarshal_bytes none len h = (none, h)
  unmarshal_bytes (some bytes) len h =
      let (q, c) =
        read_message (read_object (suc len))
          (record { reader = rd.init_data (take len bytes); heap = h }) in
      if len == 0 then (none, h) else (q, c.heap)

  -- NotificationUnmarshal; an array takes a byte at least, so that the buffer's length is enough fuel.
  unfoldable pub unmarshal : Option RawBuffer → M (Option Notification)
  unfolding unmarshal_bytes
  unmarshal none = Memory.pure none
  unmarshal (some b) = unmarshal_bytes b.bytes b.len
