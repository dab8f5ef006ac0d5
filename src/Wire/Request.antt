-- ===== src/Wire/Request.antt =====
-- source/api/proto/Request.c and Request.h.
pub mod Params
pub mod Gaps
pub mod Marshal
pub mod Unmarshal
use haze.Base.{
  ℕ, zero, suc, ◌+◌, ◌%◌, Option, none, some, List, [], ◌∷◌, Bool, true, false, ltb, ◌==◌,
  if◌then◌else◌, length,
}
use haze.Memory.{M, pure, ◌>>=◌, ◌>>◌, alloc, free, Heap}
use haze.Object
use haze.Object.{Object, ObjectArray, ObjectType}
use haze.Object.Copy.{count, create_array, free_array}
use haze.Object.Array
use haze.Object.Array.{at}
use haze.Wire.Encode.{u32_mod}

-- The struct Request.
pub record Request : Type 0 where
  pub type : ℕ
  pub msgid : ℕ
  pub method : Option (List ℕ)
  pub parameters : Option ObjectArray

-- HAZE_RPC_REQUEST
abbrev pub rpc_request : ℕ
rpc_request = 0

abbrev text_blocks : Option (List ℕ) → ℕ
text_blocks none = 0
text_blocks (some s) = 1

free_parameters : Option ObjectArray → M (Unit {0})
free_parameters none = pure tt
free_parameters (some a) = free_array a

-- RequestFree
unfoldable pub free_request : Option Request → M (Unit {0})
unfolding free free_parameters
free_request none = pure tt
free_request (some r) = free (text_blocks r.method) >> free_parameters r.parameters >> free 1

-- The end of RequestNew: the array is there, or the method and the struct are given back.
with_parameters : Option ObjectArray → M (Option Request)
unfolding free
with_parameters none = do free 2; pure none
with_parameters (some a) =
    pure (some (record { type = rpc_request; msgid = 0; method = some []; parameters = some a }))

with_method : Bool → M (Option Request)
unfolding with_parameters free
with_method false = do free 1; pure none
with_method true = do a ← create_array; with_parameters a

-- RequestNew
unfoldable pub new : M (Option Request)
unfolding with_method
new = do ok ← alloc; if ok then (do method ← alloc; with_method method) else pure none

-- The copy that RequestSetMethod makes of a method that is there.
set_copied : Request → List ℕ → Bool → Request
set_copied r s true = record r { method = some s }
set_copied r s false = record r { method = none }

-- RequestSetMethod of a request that is there: the old method is given back first.
unfoldable pub set_method : Request → Option (List ℕ) → M Request
unfolding set_copied free
set_method r none = do free (text_blocks r.method); pure (record r { method = none })
set_method r (some s) = do free (text_blocks r.method); ok ← alloc; pure (set_copied r s ok)

params_len : Option ObjectArray → ℕ
params_len none = 0
params_len (some a) = count a.slots

-- RequestParamCount
unfoldable pub param_count : Option Request → ℕ
unfolding params_len
param_count none = 0
param_count (some r) = params_len r.parameters % u32_mod

param_at : Option ObjectArray → ℕ → Option Object
param_at none i = none
param_at (some a) i = if ltb i (count a.slots) then at a.slots i else none

-- RequestParamGet
unfoldable pub param_get : Option Request → ℕ → Option Object
unfolding param_at
param_get none i = none
param_get (some r) i = param_at r.parameters i

-- RequestParamIsType
unfoldable pub param_is_type : Option Request → ObjectType → ℕ → Bool
unfolding Array.get Object.type_eq Object.get_type
param_is_type none t i = false
param_is_type (some r) t i = elim (Array.get r.parameters i) [
  | none ↦ false
  | some o ↦ Object.type_eq (Object.get_type (some o)) t
]
