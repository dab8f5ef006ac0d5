-- ===== src/Server.antt =====
-- source/server/Dispatch.c and HazeServer.c: what a connection does with the bytes that it reads, and
-- the list of connections.
pub mod Growth
pub mod Loop
pub mod Asks
pub mod Pipeline
pub mod Connections
pub mod Net
pub mod Middleware
pub mod Closes
use haze.Base.{
  ℕ, zero, suc, ◌+◌, ◌*◌, ◌-◌, ◌%◌, Option, none, some, List, [], ◌∷◌, ◌++◌, Bool, true, false,
  ◌==◌, ◌||◌, ltb, if◌then◌else◌, length, take, drop,
}
use haze.Memory.{M, pure, ◌>>=◌, ◌>>◌, alloc, realloc, free}
use haze.Buffer.{RawBuffer, free_buffer, data_of, len_of}
use haze.Session.{Session}
use haze.Wire.Mpack.{Writer, Reader}
use haze.Wire.Encode.{u32_mod}
use haze.Wire.Request.{Request, free_request}
use haze.Wire.Request.Unmarshal
use haze.Wire.Request.Unmarshal.{unmarshal, parsed, rejected}
use haze.Wire.Response
use haze.Wire.Response.{Response, free_response}
use haze.Api
use haze.Api.{
  World, Reply, Payload, null_payload, dangling, param_string, answered, queued, dispatch,
}

-- uv_buf_init takes the length as an unsigned int, so that of a longer block only the beginning is
-- written.
abbrev pub buf_of : List ℕ → List ℕ
buf_of bytes = take (length bytes % u32_mod) bytes

-- haze_send: the bytes that uv_write takes, if both allocations succeed and uv_write accepts them.
-- haze_on_write_done gives the two blocks back later.
sent_to : Bool → List ℕ → M (List (List ℕ))
unfolding free
sent_to true bytes = pure (bytes ∷ [])
sent_to false bytes = do free 2; pure []

copied_to : Bool → List ℕ → Bool → M (List (List ℕ))
unfolding sent_to free
copied_to accepts bytes true = sent_to accepts bytes
copied_to accepts bytes false = do free 1; pure []

unfoldable pub send : (List ℕ → Bool) → List ℕ → M (List (List ℕ))
unfolding copied_to
send accepts bytes = do
  ok ← alloc
  if ok
      then (do copied ← alloc; copied_to (accepts (buf_of bytes)) (buf_of bytes) copied)
      else pure []

bytes_or_none : Option (List ℕ) → List ℕ
bytes_or_none none = []
bytes_or_none (some bytes) = bytes

-- The response is sent and given back.
unfoldable pub respond : (List ℕ → Bool) → Option RawBuffer → M (List (List ℕ))
unfolding send bytes_or_none free_buffer data_of len_of
respond accepts none = pure []
respond accepts (some b) = do
  out ← send accepts (take (len_of (some b)) (bytes_or_none (data_of (some b))))
  free_buffer (some b)
  pure out

-- The doubling of `new_cap` until it holds `need` bytes.
unfoldable pub grow_cap : ℕ → ℕ → ℕ → ℕ
grow_cap zero cap need = cap
grow_cap (suc fuel) cap need =
    let more = grow_cap fuel (cap * 2) need in if ltb cap need then more else cap

-- RequestFree gives back the parameters, into one of which the payload may point.
freed : Payload → Payload
freed null_payload = null_payload
freed _ = dangling

-- DispatchBytes, with the length that the buffer is left with, the job that was pushed, and the
-- session after it. `unusable` has `ok` false.
pub data Served (S : Type 0) : Type 0 where
  served : Option RawBuffer → ℕ → Option (ℕ × Payload) → Session S → Served S
  unusable crashed endless : Served S

module _ {W R S : Type 0} (wr : Writer W) (rd : Reader R) where
  reply_bytes : ℕ → Session S → Reply → M (Served S)
  unfolding free_response freed
  reply_bytes n s (answered none) = pure (served none n none s)
  reply_bytes n s (answered (some r)) = do
    bytes ← Response.marshal wr (some r)
    free_response r
    pure (served bytes n none s)
  reply_bytes n s (queued id payload) = pure (served none n (some (id, freed payload)) s)
  reply_bytes n s Api.crashed = pure crashed

  serve_parsed : World S → Session S → Unmarshal.Outcome → M (Served S)
  unfolding reply_bytes free_request dispatch
  serve_parsed w s (parsed q n) = do
    (reply, s') ← dispatch w s (some q)
    free_request (some q)
    reply_bytes n s' reply
  serve_parsed w s rejected = pure unusable
  serve_parsed w s Unmarshal.crashed = pure crashed
  serve_parsed w s Unmarshal.endless = pure endless

  -- ServerDispatch
  unfoldable pub server_dispatch : World S → Session S → RawBuffer → M (Served S)
  unfolding serve_parsed
  server_dispatch w s b = do o ← unmarshal rd (some b); serve_parsed w s o

-- Why haze_on_read's loop ended, or that RequestUnmarshal did not return.
pub data Stop : Type 0 where
  drained closed crashed endless no_fuel : Stop

-- HazeConn with the session of its context: `buffer` holds the first `buffer_len` bytes. `sent` are
-- the bytes given to uv_write, `jobs` those pushed, and `closes` the calls of uv_close.
pub record Conn (S : Type 0) : Type 0 where
  pub buffer : List ℕ
  pub cap : ℕ
  pub session : Session S
  pub sent : List (List ℕ)
  pub jobs : List (ℕ × Payload)
  pub closes : ℕ

-- What uv_read_start reports: an error or the end, nothing, or bytes.
pub data Event : Type 0 where
  broken idle : Event
  arrived : List ℕ → Event

job_list : Option (ℕ × Payload) → List (ℕ × Payload)
job_list none = []
job_list (some j) = j ∷ []

module _ {S : Type 0} where
  unfoldable pub close_conn : Conn S → Conn S
  close_conn c = record c { closes = c.closes + 1 }

  -- The test of what was consumed, before the loop goes on.
  consume : ℕ → (Conn S → M (Stop × Conn S)) → Conn S → M (Stop × Conn S)
  unfolding close_conn
  consume n go c =
      if n == 0 || ltb (length c.buffer) n
      then pure (closed, close_conn c)
      else go (record c { buffer = drop n c.buffer })

  -- What the loop does with the bytes that ServerDispatch gave.
  unfoldable pub after_dispatch :
      (List ℕ → Bool) → (Conn S → M (Stop × Conn S)) → Conn S → Served S → M (Stop × Conn S)
  unfolding respond consume job_list close_conn
  after_dispatch accepts go c (served bytes n job s) = do
    out ← respond accepts bytes
    consume n go (record c { session = s; sent = c.sent ++ out; jobs = c.jobs ++ job_list job })
  after_dispatch accepts go c unusable = pure (closed, close_conn c)
  after_dispatch accepts go c crashed = pure (crashed, c)
  after_dispatch accepts go c endless = pure (endless, c)

module _ {W R S : Type 0} (wr : Writer W) (rd : Reader R) (w : World S)
    (accepts : List ℕ → Bool) where
  -- `while (conn->buffer_len > 0)`
  unfoldable pub drain : ℕ → Conn S → M (Stop × Conn S)
  unfolding after_dispatch server_dispatch
  drain zero c = pure (if length c.buffer == 0 then drained else no_fuel, c)
  drain (suc fuel) c = if length c.buffer == 0 then pure (drained, c) else (do
    d ← server_dispatch wr rd w c.session (record { bytes = some c.buffer; len = length c.buffer })
    after_dispatch accepts (drain fuel) c d)

  -- The buffer may not exceed 4 MB when the loop has ended; a connection that the loop closed is
  -- closed again.
  check_size : Stop × Conn S → Stop × Conn S
  unfolding close_conn
  check_size (crashed, c) = (crashed, c)
  check_size (endless, c) = (endless, c)
  check_size (stop, c) =
      if ltb (4 * 1024 * 1024) (length c.buffer) then (closed, close_conn c) else (stop, c)

  -- The block of the buffer: realloc, or its first allocation.
  enlarge : ℕ → M Bool
  enlarge zero = alloc
  enlarge (suc cap) = realloc

  start_cap : ℕ → ℕ
  start_cap zero = 1024
  start_cap (suc cap) = suc cap

  -- memcpy of the bytes behind the others, and the loop; each message takes a byte at least, so that
  -- the length is fuel enough.
  received : Conn S → List ℕ → M (Stop × Conn S)
  unfolding drain check_size free
  received c bytes = do
    free 1
    r ← drain (length (c.buffer ++ bytes)) (record c { buffer = c.buffer ++ bytes })
    pure (check_size r)

  room_made : Conn S → List ℕ → ℕ → Bool → M (Stop × Conn S)
  unfolding received close_conn free
  room_made c bytes cap true = received (record c { cap = cap }) bytes
  room_made c bytes cap false = do free 1; pure (closed, close_conn c)

  -- haze_on_read, with the block that haze_on_alloc gave.
  unfoldable pub on_read : Conn S → Event → M (Stop × Conn S)
  unfolding room_made received close_conn enlarge start_cap grow_cap free
  on_read c broken = do free 1; pure (closed, close_conn c)
  on_read c idle = do free 1; pure (drained, c)
  on_read c (arrived bytes) =
      let need = length c.buffer + length bytes in
      if ltb c.cap need
      then (do ok ← enlarge c.cap; room_made c bytes (grow_cap need (start_cap c.cap) need) ok)
      else received c bytes
