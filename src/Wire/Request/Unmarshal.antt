-- ===== src/Wire/Request/Unmarshal.antt =====
-- RequestUnmarshal. A jump to `fail` is `stop reject`; a use of a null pointer, which an allocation
-- that is not tested can cause, is `stop crash`, and a loop that does not end is `stop hang`.
pub mod Steps
pub mod Back
pub mod RoundTrip
use haze.Base.{
  ℕ, zero, suc, ◌-◌, ◌%◌, ℤ, pos, negsuc, Option, none, some, List, Bool, true, false, ◌==◌, ◌||◌,
  if◌then◌else◌, c_string, take,
}
use haze.Memory
use haze.Memory.{M, Heap, alloc, free, got}
use haze.Buffer
use haze.Buffer.{RawBuffer}
use haze.Object
use haze.Object.{Object, bin, object}
use haze.Wire.Mpack.{Tag, Reader}
use haze.Wire.Encode.{u32_mod}
use haze.Wire.Request
use haze.Wire.Request.{Request, rpc_request, free_request, set_method}
use haze.Wire.Request.Params.{param_append}

pub data Halt : Type 0 where
  reject crash hang : Halt

pub data Result {ℓ} (A : Type ℓ) : Type ℓ where
  ok : A → Result A
  stop : Halt → Result A

-- The local variables: the reader, and the request once RequestNew was called.
pub record Parse (R : Type 0) : Type 0 where
  pub reader : R
  pub heap : Heap
  pub request : Option Request

-- The message was read, with the bytes it took; or not; or the program is undefined, or goes on for
-- ever.
pub data Outcome : Type 0 where
  parsed : Request → ℕ → Outcome
  rejected crashed endless : Outcome

-- (uint32_t)v of an integer tag.
abbrev pub wrap32 : ℤ → ℕ
wrap32 (pos n) = n % u32_mod
wrap32 (negsuc n) = u32_mod - 1 - n % u32_mod

-- The number of an integer tag, as uint32_t.
abbrev pub number : Tag → Option ℕ
number (Tag.uint n) = some (n % u32_mod)
number (Tag.int z) = some (wrap32 z)
number _ = none

abbrev pub str_len : Tag → Option ℕ
str_len (Tag.str n) = some n
str_len _ = none

abbrev pub array_count : Tag → Option ℕ
array_count (Tag.array n) = some n
array_count _ = none

abbrev pub P {ℓ} : Type 0 → Type ℓ → Type ℓ
P R A = Parse R → Result A × Parse R

-- The request after RequestParamAppend returned.
abbrev pub request_of : Option (Bool × Request) → Option Request
request_of none = none
request_of (some (done, r)) = some r

module _ {R : Type 0} where
  abbrev pub pure {ℓ} : {A : Type ℓ} → A → P R A
  pure a s = (ok a, s)

  abbrev pub halt {ℓ} : {A : Type ℓ} → Halt → P R A
  halt h s = (stop h, s)

  abbrev pub continue {ℓ κ} : {A : Type ℓ} {B : Type κ} → Result A → (A → P R B) → P R B
  continue (ok a) f s = f a s
  continue (stop h) f s = (stop h, s)

  infixl 5 ◌>>=◌ ◌>>◌
  abbrev pub ◌>>=◌ {ℓ κ} : {A : Type ℓ} {B : Type κ} → P R A → (A → P R B) → P R B
  ◌>>=◌ m f s = let (r, s') = m s in continue r f s'

  abbrev pub ◌>>◌ {κ} : {B : Type κ} → P R (Unit {0}) → P R B → P R B
  m >> n = m >>= λ _. n

  -- An action on memory.
  abbrev pub mem {ℓ} : {A : Type ℓ} → M A → P R A
  mem m s = let (a, h) = m s.heap in (ok a, record s { heap = h })

  -- A call of the reader.
  abbrev pub call {ℓ} : {A : Type ℓ} → (R → A × R) → P R A
  call f s = let (a, r) = f s.reader in (ok a, record s { reader = r })

  -- What is not there is a jump to `fail`, or a use of a null pointer.
  abbrev pub need {ℓ} : {A : Type ℓ} → Halt → Option A → P R A
  need h none = halt h
  need h (some a) = pure a

  abbrev pub guard : Halt → Bool → P R (Unit {0})
  guard h true = pure tt
  guard h false = halt h

  abbrev pub get_request : P R (Option Request)
  get_request s = (ok s.request, s)

  abbrev pub put_request : Option Request → P R (Unit {0})
  put_request r s = (ok tt, record s { request = r })

  -- Replaces the request that must be there.
  abbrev pub modify : (Request → Request) → P R (Unit {0})
  modify f = do o ← get_request; r ← need crash o; put_request (some (f r))

  -- RequestParamAppend(request, ObjectCreate…(), i), the object being what `make` gives.
  pub add_param : M (Option Object) → ℕ → P R (Unit {0})
  add_param make i = do
    o ← mem make
    q ← get_request
    r ← need crash q
    appended ← mem (param_append r o i)
    r' ← need hang (request_of appended)
    put_request (some r')

  -- A bin object around the bytes that were read.
  pub bin_param : List ℕ → ℕ → ℕ → P R (Unit {0})
  bin_param bytes n i = do
    o ← mem Object.new
    p ← need crash o
    b ← mem (Buffer.new (some bytes) n)
    add_param (Memory.pure (some (object (bin b) n))) i

module _ {R : Type 0} (rd : Reader R) where
  -- The body of the loop, on the tag that was read.
  pub read_param : Tag → ℕ → P R (Unit {0})
  read_param Tag.nil i = add_param Object.create_nil i
  read_param (Tag.bool b) i = add_param (Object.create_bool b) i
  read_param (Tag.int z) i = add_param (Object.create_int z) i
  read_param (Tag.uint n) i = add_param (Object.create_uint n) i
  read_param (Tag.float x) i = add_param (Object.create_float x) i
  read_param (Tag.double x) i = add_param (Object.create_double x) i
  read_param (Tag.str n) i = do
    room ← mem alloc
    guard crash room
    bytes ← call (rd.read_bytes n)
    add_param (Object.create_str (some (c_string bytes))) i
    mem (free 1)
  read_param (Tag.bin n) i = do
    room ← mem alloc
    guard crash (room || n == 0)
    bytes ← call (rd.read_bytes n)
    bin_param bytes n i
    mem (free (got room))
  read_param _ i = pure tt

  -- `n` more parameters, the first at index `i`.
  pub read_params : ℕ → ℕ → P R (Unit {0})
  read_params zero i = pure tt
  read_params (suc n) i = do tag ← call rd.read_tag; read_param tag i; read_params n (suc i)

  -- The method, copied once for the terminator and once by RequestSetMethod.
  pub read_method : P R (Unit {0})
  read_method = do
    tag ← call rd.read_tag
    n ← need reject (str_len tag)
    there ← call (rd.read_bytes_inplace n)
    bytes ← need reject there
    room ← mem alloc
    guard reject room
    o ← get_request
    r ← need crash o
    r' ← mem (set_method r (some (c_string bytes)))
    put_request (some r')
    mem (free 1)

  pub read_message : P R (Unit {0})
  read_message = do
    envelope ← call rd.read_tag
    four ← need reject (array_count envelope)
    guard reject (four == 4)
    fresh ← mem Request.new
    put_request fresh
    tag ← call rd.read_tag
    type ← need reject (number tag)
    modify (λ r. record r { type = type })
    guard reject (type == rpc_request)
    tag ← call rd.read_tag
    id ← need reject (number tag)
    modify (λ r. record r { msgid = id })
    read_method
    call (λ r. (tt, rd.done_str r))
    tag ← call rd.read_tag
    n ← need reject (array_count tag)
    read_params n 0
    call (λ r. (tt, rd.done_array r))

  returned : ℕ → R → Heap → Option Request → Outcome × Heap
  returned len r h none = (crashed, h)
  returned len r h (some q) = (parsed q (len - rd.remaining r), h)

  -- The return of the request with the bytes consumed, or the label `fail`.
  finish : ℕ → Result (Unit {0}) × Parse R → Outcome × Heap
  unfolding returned
  finish len (ok _, s) = returned len s.reader s.heap s.request
  finish len (stop reject, s) = (rejected, (free_request s.request s.heap).1)
  finish len (stop crash, s) = (crashed, s.heap)
  finish len (stop hang, s) = (endless, s.heap)

  unmarshal_bytes : Option (List ℕ) → ℕ → Heap → Outcome × Heap
  unfolding finish
  unmarshal_bytes none len h = (crashed, h)
  unmarshal_bytes (some bytes) len h =
      finish len
        (read_message (record { reader = rd.init_data (take len bytes); heap = h; request = none }))

  -- RequestUnmarshal of a buffer; the outcome holds what it stores in the buffer's `len`.
  pub unmarshal : Option RawBuffer → M Outcome
  unfolding unmarshal_bytes
  unmarshal none h = (rejected, h)
  unmarshal (some b) h = if b.len == 0 then (rejected, h) else unmarshal_bytes b.bytes b.len h
