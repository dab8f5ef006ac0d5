-- ===== src/Server/Asks.antt =====
-- Requests to send, their bytes, and memory while they are answered.
use haze.Base.{
  ℕ, zero, suc, ◌<◌, ◌≡◌, refl, ◌∙◌, Option, none, some, List, [], ◌∷◌, ◌++◌, Bool, true, false,
  length, take-length, arith, codes, IsText,
}
use haze.Memory.{Heap, IsAmple, alloc, alloc-IsAmple, free, adopt}
use haze.Buffer
use haze.Buffer.{RawBuffer, free_buffer, data_of, len_of}
use haze.Object.{Object, Slots, ObjectArray}
use haze.Object.Copy.Ample.{plan-free_object, plan-free_array}
use haze.Object.Copy.{count}
use haze.Wire.Mpack.{Tag}
use haze.Wire.Encode.{u32_mod}
use haze.Wire.Request.{free_request}
use haze.Wire.Request.Marshal.{request_bytes}
use haze.Wire.Request.Unmarshal.Steps.{req, IsFlatSlots}
use haze.Wire.Response.{Response, wrap, free_response, free_pointer}
use haze.Wire.Response.Laws.{response_bytes}
use haze.Api.{is_method}
use haze.Server.{send, respond, buf_of}

-- Giving back a request or a response keeps memory ample.
pub free_request-IsAmple :
    (id : ℕ) (m : List ℕ) (a : ObjectArray) (h : Heap)
    → IsAmple h
    → IsAmple (free_request (some (req 0 id m a)) h).1
unfolding free_request free
free_request-IsAmple id m a h e = plan-free_array a (free 1 h).1 ∙ e

pub free_pointer-IsAmple : (o : Option Object) (h : Heap) → IsAmple h → IsAmple (free_pointer o h).1
unfolding free_pointer
free_pointer-IsAmple none h e = e
free_pointer-IsAmple (some o) h e = plan-free_object o h ∙ e

pub free_response-IsAmple : (r : Response) (h : Heap) → IsAmple h → IsAmple (free_response r h).1
unfolding free_response free
free_response-IsAmple r h e =
    free_pointer-IsAmple r.result (free_pointer r.error h).1 (free_pointer-IsAmple r.error h e)

pub new-IsAmple : (d : List ℕ) (n : ℕ) (h : Heap) → IsAmple h → IsAmple (Buffer.new (some d) n h).1
unfolding Buffer.new
new-IsAmple d zero h e = ground (arith, alloc-IsAmple h)
new-IsAmple d (suc n) h e = ground (arith, alloc-IsAmple h, alloc-IsAmple (alloc h).1)

pub wrap-IsAmple : (d : List ℕ) (h : Heap) → IsAmple h → IsAmple (wrap (some d) h).1
unfolding wrap adopt free
wrap-IsAmple d h e = new-IsAmple d (length d) (adopt h).1 e

-- With ample memory the bytes of a buffer are sent, as far as uv_buf_init counts them, and the buffer is given back.
pub respond-sent :
    (accepts : List ℕ → Bool) (bytes : List ℕ) (h : Heap)
    → accepts (buf_of bytes) ≡ true
    → IsAmple h
    → ((respond accepts (some (record { bytes = some bytes; len = length bytes })) h).0
        ≡ buf_of bytes ∷ [])
      × IsAmple (respond accepts (some (record { bytes = some bytes; len = length bytes })) h).1
unfolding respond send free_buffer data_of len_of free
respond-sent accepts bytes h ok e =
    let (one, e1) = alloc-IsAmple h e in
    let (two, e2) = alloc-IsAmple (alloc h).1 e1 in
    (rw (take-length bytes, one, two, ok) refl, rw (take-length bytes, one, two, ok) e2)

-- A request of type 0 to send: its id, its method and its parameters.
pub record Ask : Type 0 where
  pub id : ℕ
  pub method : List ℕ
  pub params : Slots

-- The id, the method's length and the number of parameters fit; the method is a text and not
-- samplelist/import, and the parameters are neither arrays nor bins nor maps, with strings that have
-- their length for their size and hold no 0.
abbrev pub IsPlain : Ask → Type 0
IsPlain a =
    (a.id < u32_mod)
    × IsText a.method
    × IsFlatSlots a.params
    × (is_method a.method (codes "samplelist/import") ≡ false)
    × (length a.method < u32_mod)
    × (count a.params < u32_mod)

abbrev pub ArePlain : List Ask → Type 0
ArePlain [] = Unit
ArePlain (a ∷ rest) = IsPlain a × ArePlain rest

abbrev pub ids : List Ask → List ℕ
ids [] = []
ids (a ∷ rest) = a.id ∷ ids rest

abbrev pub reply_ids : List Response → List ℕ
reply_ids [] = []
reply_ids (r ∷ rest) = r.msgid ∷ reply_ids rest

abbrev pub ask_bytes : (Tag → List ℕ) → Ask → List ℕ
ask_bytes enc a = request_bytes enc 0 a.id a.method a.params

-- The requests, as RequestMarshal writes them, one behind the other.
abbrev pub stream : (Tag → List ℕ) → List Ask → List ℕ
stream enc [] = []
stream enc (a ∷ rest) = ask_bytes enc a ++ stream enc rest

-- What is written of each response.
abbrev pub replies : (Tag → List ℕ) → List Response → List (List ℕ)
replies enc [] = []
replies enc (r ∷ rest) = buf_of (response_bytes enc r) ∷ replies enc rest
