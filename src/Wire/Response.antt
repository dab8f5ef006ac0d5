-- ===== src/Wire/Response.antt =====
-- source/api/proto/Response.c and Response.h, without ResponseToString.
pub mod Laws
pub mod Answers
pub mod Unmarshal
use haze.Base.{
  ℕ, zero, suc, ◌+◌, ◌%◌, ◌^◌, ℤ, Option, none, some, List, [], ◌∷◌, Bool, true, false,
  if◌then◌else◌, length,
}
use haze.Memory.{M, pure, ◌>>=◌, ◌>>◌, alloc, free, adopt}
use haze.Audio.{ResultAudio, is_ok, message_of, message_blocks}
use haze.Buffer
use haze.Buffer.{RawBuffer}
use haze.Object
use haze.Object.{Object, ObjectArray, array, object}
use haze.Object.Copy.{free_object, create_array, free_array}
use haze.Object.Array
use haze.Wire.Mpack.{Writer}
use haze.Wire.Encode.{write_pointer}

-- The struct Response.
pub record Response : Type 0 where
  pub type : ℕ
  pub msgid : ℕ
  pub error : Option Object
  pub result : Option Object

-- HAZE_RPC_RESPONSE
abbrev pub rpc_response : ℕ
rpc_response = 1

-- ObjectFree of a pointer.
unfoldable pub free_pointer : Option Object → M (Unit {0})
unfolding free_object
free_pointer none = pure tt
free_pointer (some o) = free_object o

abbrev fresh : Response
fresh = record { type = rpc_response; msgid = 0; error = none; result = none }

-- ResponseNew
unfoldable pub new : M (Option Response)
new = do ok ← alloc; pure (if ok then some fresh else none)

-- ResponseSetResultObject, ResponseSetErrorObject and ResponseSetMsgId
unfoldable pub set_result : Option Response → Option Object → M (Bool × Option Response)
unfolding free_pointer
set_result none o = pure (false, none)
set_result (some r) o = do free_pointer r.result; pure (true, some (record r { result = o }))

unfoldable pub set_error : Option Response → Option Object → M (Bool × Option Response)
unfolding free_pointer
set_error none o = pure (false, none)
set_error (some r) o = do free_pointer r.error; pure (true, some (record r { error = o }))

unfoldable pub set_msgid : Option Response → ℕ → Bool × Option Response
set_msgid none id = (false, none)
set_msgid (some r) id = (true, some (record r { msgid = id }))

-- ResponseFree of a response that is there.
unfoldable pub free_response : Response → M (Unit {0})
unfolding free_pointer free
free_response r = free_pointer r.error >> free_pointer r.result >> free 1

-- A buffer with the writer's bytes, which are then given back.
unfoldable pub wrap : Option (List ℕ) → M (Option RawBuffer)
unfolding free adopt
wrap none = pure none
wrap (some data_bytes) = do
  adopt
  b ← Buffer.new (some data_bytes) (length data_bytes)
  free 1
  pure b

module _ {W : Type 0} (wr : Writer W) where
  -- mpack_write_u8 and mpack_write_u32 write as mpack_write_uint does.
  unfoldable pub write_response : Response → W → W
  unfolding write_pointer
  write_response r w =
      let head =
        wr.write_uint (r.msgid % 2 ^ 32) (wr.write_uint (r.type % 2 ^ 8) (wr.start_array 4 w)) in
      wr.finish_array (write_pointer wr r.result (write_pointer wr r.error head))

  -- ResponseMarshal
  unfoldable pub marshal : Option Response → M (Option RawBuffer)
  unfolding write_response wrap
  marshal none = pure none
  marshal (some r) = wrap (wr.destroy (write_response r wr.start))

-- The result that `make` gives, in a response that is there or not.
with_result : M (Option Object) → ℕ → Option Response → M (Option Response)
unfolding set_result set_msgid
with_result make id r = do o ← make; (done, r') ← set_result (set_msgid r id).1 o; pure r'

with_new : M (Option Object) → ℕ → Option Response → M (Option Response)
unfolding with_result
with_new make id none = pure none
with_new make id (some r) = with_result make id (some r)

-- The constructors that give up when ResponseNew fails.
create : M (Option Object) → ℕ → M (Option Response)
unfolding new with_new
create make id = do r ← new; with_new make id r

-- ResponseCreateString
unfoldable pub create_string : ℕ → Option (List ℕ) → M (Option Response)
unfolding create
create_string id s = create (Object.create_str s) id

-- ResponseCreateInt
unfoldable pub create_int : ℕ → ℤ → M (Option Response)
unfolding create
create_int id z = create (Object.create_int z) id

-- ResponseCreateNilResult, which does not test what ResponseNew gives.
unfoldable pub create_nil_result : ℕ → M (Option Response)
unfolding new with_result
create_nil_result id = do r ← new; with_result Object.create_nil id r

-- ResponseCreateResult of a Result that succeeded or holds a message.
unfoldable pub create_result : ℕ → Bool → Option (List ℕ) → M (Option Response)
unfolding create
create_result id success msg =
    create (if success then Object.create_nil else Object.create_str msg) id

-- ResponseCreateOk
unfoldable pub create_ok : ℕ → M (Option Response)
unfolding create_result
create_ok id = create_result id true (some [])

error_object : Option (List ℕ) → M (Option Object)
error_object none = Object.create_nil
error_object (some err) = Object.create_str (some err)

error_response : ℕ → Option (List ℕ) → Option Response → M (Option Response)
unfolding error_object
error_response id err none = pure none
error_response id err (some r) = do
  o ← error_object err
  pure (some (record r { msgid = id; error = o }))

-- ResponseCreateError
unfoldable pub create_error : ℕ → Option (List ℕ) → M (Option Response)
unfolding new error_response
create_error id err = do r ← new; error_response id err r

-- The loop of ResponseCreateStrArrayResult: ObjectArrayAppend copies each string object, and no one
-- gives back the original.
unfoldable pub append_strings : List (List ℕ) → ObjectArray → M ObjectArray
append_strings [] a = pure a
append_strings (s ∷ rest) a = do
  o ← Object.create_str (some s)
  (done, a') ← Array.append a o
  append_strings rest a'

array_result : ℕ → Response → ObjectArray → Option Object → M (Option Response)
unfolding set_result set_msgid free
array_result id r a none = do free_array a; free 1; pure none
array_result id r a (some (object v size)) = do
  (done, r') ← set_result (set_msgid (some r) id).1 (some (object (array a.slots a.capacity) size))
  pure r'

array_response : ℕ → List (List ℕ) → Response → Option ObjectArray → M (Option Response)
unfolding append_strings array_result free
array_response id values r none = do free 1; pure none
array_response id values r (some a) = do
  a' ← append_strings values a
  o ← Object.new
  array_result id r a' o

str_array_response : ℕ → List (List ℕ) → Option Response → M (Option Response)
unfolding array_response
str_array_response id values none = pure none
str_array_response id values (some r) = do a ← create_array; array_response id values r a

-- ResponseCreateStrArrayResult
unfoldable pub create_str_array_result : ℕ → Option (List (List ℕ)) → M (Option Response)
unfolding new str_array_response
create_str_array_result id none = pure none
create_str_array_result id (some values) = do r ← new; str_array_response id values r

-- ResponseCreateResultAudio, which gives back the message.
unfoldable pub create_result_audio : ℕ → ResultAudio → M (Option Response)
unfolding free
create_result_audio id res = do
  r ← if is_ok res then create_nil_result id else create_error id (message_of res)
  free (message_blocks res)
  pure r
