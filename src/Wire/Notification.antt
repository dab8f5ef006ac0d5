-- ===== src/Wire/Notification.antt =====
-- source/api/proto/Notification.c: notifications, and what NotificationMarshal writes of them.
pub mod Encoding
pub mod Refusals
pub mod Ledger
pub mod Expect
pub mod Unmarshal
use haze.Base.{
  ℕ, zero, suc, Option, none, some, List, [], ◌∷◌, Bool, true, false, leb, ltb, not, if◌then◌else◌,
  length, take, ◌&&◌, ◌==◌,
}
use haze.Memory.{M, pure, ◌>>=◌, ◌>>◌, alloc, free, adopt}
use haze.Buffer.{RawBuffer}
use haze.Object.{
  Value, Object, ObjectArray, Slots, und, nil, bool, int, uint, float, double, str, bin, array,
  null_array, null_map, map_pair, map_table, object, end, slot, hole,
}
use haze.Object.Copy.{count, create_array, free_array}
use haze.Object.Array
use haze.Wire.Mpack.{Writer}
use haze.Wire.Encode.{u32_mod}

-- HAZE_RPC_NOTIFICATION
abbrev pub rpc_notification : ℕ
rpc_notification = 2

-- The struct Notification.
pub record Notification : Type 0 where
  pub type : ℕ
  pub method : Option (List ℕ)
  pub params : Option ObjectArray

with_params : Option ObjectArray → M (Option Notification)
unfolding free
with_params none = do free 1; pure none
with_params (some a) =
    pure (some (record { type = rpc_notification; method = none; params = some a }))

-- NotificationNew
unfoldable pub new : M (Option Notification)
unfolding with_params
new = do ok ← alloc; if ok then (do a ← create_array; with_params a) else pure none

abbrev pub method_blocks : Option (List ℕ) → ℕ
method_blocks none = 0
method_blocks (some s) = 1

free_params : Option ObjectArray → M (Unit {0})
free_params none = pure tt
free_params (some a) = free_array a

-- NotificationFree of a notification that is there.
unfoldable pub free_notification : Notification → M (Unit {0})
unfolding free free_params
free_notification n = free (method_blocks n.method) >> free_params n.params >> free 1

-- After strdup: a failure leaves the old method.
method_copied : Notification → List ℕ → Bool → M Notification
unfolding free
method_copied n s false = pure n
method_copied n s true = do free (method_blocks n.method); pure (record n { method = some s })

-- NotificationSetMethod of a notification that is there.
unfoldable pub set_method : Notification → Option (List ℕ) → M Notification
unfolding method_copied free
set_method n none = do free (method_blocks n.method); pure (record n { method = none })
set_method n (some s) = do ok ← alloc; method_copied n s ok

append_param : Option ObjectArray → Option Object → M (Bool × Option ObjectArray)
append_param none o = pure (false, none)
append_param (some a) o = do (done, a') ← Array.append a o; pure (done, some a')

-- The loop of NotificationCreate: a null parameter or a failing copy ends it.
unfoldable pub append_all : List (Option Object) → Notification → M (Option Notification)
unfolding append_param
append_all [] n = pure (some n)
append_all (o ∷ rest) n = do
  (done, params) ← append_param n.params o
  let n' = record n { params = params }
  if done then append_all rest n' else (do free_notification n'; pure none)

is_none : Option (List ℕ) → Bool
is_none none = true
is_none (some s) = false

-- A method that is asked for has to be there.
method_set : Option (List ℕ) → List (Option Object) → Notification → M (Option Notification)
unfolding append_all is_none
method_set method params n =
    if not (is_none method) && is_none n.method
    then (do free_notification n; pure none)
    else append_all params n

-- The rest of NotificationCreate.
fill_new : Option (List ℕ) → List (Option Object) → Option Notification → M (Option Notification)
unfolding method_set
fill_new method params none = pure none
fill_new method params (some n) = do n' ← set_method n method; method_set method params n'

-- NotificationCreate, with the array of parameters that the two arguments stand for.
unfoldable pub create : Option (List ℕ) → List (Option Object) → M (Option Notification)
unfolding fill_new is_none
create method params =
    if is_none method && not (length params == 0)
    then pure none
    else if leb u32_mod (length params)
    then pure none
    else (do n ← new; fill_new method params n)

-- The struct around the writer's bytes, which a failure gives back.
boxed : Option (List ℕ) → M (Option RawBuffer)
unfolding free adopt
boxed none = pure none
boxed (some d) = do
  adopt
  ok ← alloc
  if ok then pure (some (record { bytes = some d; len = length d })) else (do free 1; pure none)

module _ {W : Type 0} (wr : Writer W) where
  checked : W → Bool × W
  checked w = (not (wr.writer_failed w), w)

  next : Bool × W → (W → Bool × W) → Bool × W
  next (false, w) k = (false, w)
  next (true, w) k = k w

  write_data : Option (List ℕ) → ℕ → W → Bool × W
  unfolding checked
  write_data none n w = if ltb 0 n then (false, w) else checked (wr.write_bin [] w)
  write_data (some bytes) n w = checked (wr.write_bin (take n bytes) w)

  -- NotificationWriteObject, with the test that it ends in.
  unfoldable mutual
    unfolding write_data checked next

    pub notify_value : Value → ℕ → W → Bool × W
    notify_value nil size w = checked (wr.write_nil w)
    notify_value (bool b) size w = checked (wr.write_bool b w)
    notify_value (int z) size w = checked (wr.write_int z w)
    notify_value (uint n) size w = checked (wr.write_uint n w)
    notify_value (float x) size w = checked (wr.write_float x w)
    notify_value (double x) size w = checked (wr.write_double x w)
    notify_value (str (some s)) size w =
        if leb u32_mod size then (false, w) else checked (wr.write_cstr s size w)
    notify_value (bin (some b)) size w =
        if leb u32_mod b.len then (false, w) else write_data b.bytes b.len w
    notify_value (array slots capacity) size w =
        let inner = notify_slots slots (wr.start_array (count slots) w) in
        if leb u32_mod (count slots)
        then (false, w)
        else next inner (λ w'. checked (wr.finish_array w'))
    notify_value v size w = (false, w)

    pub notify_object : Object → W → Bool × W
    notify_object (object v size) w = notify_value v size w

    pub notify_slots : Slots → W → Bool × W
    notify_slots end w = (true, w)
    notify_slots (hole rest) w = (false, w)
    notify_slots (slot o rest) w = next (notify_object o w) (notify_slots rest)

-- Beside the writer's calls mpack_writer_flag_error.
module _ {W : Type 0} (wr : Writer W) (flag_error : W → W) where
  -- After the loop over the parameters.
  flagged : Bool × W → W
  flagged (true, w) = w
  flagged (false, w) = flag_error w

  write_notification : List ℕ → Slots → W
  unfolding flagged notify_slots
  write_notification m slots =
      let head = wr.write_str m (wr.write_uint rpc_notification (wr.start_array 3 wr.start)) in
      wr.finish_array
        (wr.finish_array (flagged (notify_slots wr slots (wr.start_array (count slots) head))))

  parts : Option (List ℕ) → Option ObjectArray → M (Option RawBuffer)
  unfolding write_notification boxed
  parts none a = pure none
  parts (some m) none = pure none
  parts (some m) (some a) =
      if leb u32_mod (length m)
      then pure none
      else if leb u32_mod (count a.slots)
      then pure none
      else boxed (wr.destroy (write_notification m a.slots))

  -- NotificationMarshal
  unfoldable pub marshal : Option Notification → M (Option RawBuffer)
  unfolding parts
  marshal none = pure none
  marshal (some n) = parts n.method n.params
