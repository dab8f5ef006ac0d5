-- ===== src/Server/Pipeline.antt =====
-- A buffer with several requests: each is answered, in their order.
use haze.Base.{
  ℕ, zero, suc, ◌+◌, ◌≤◌, ◌<◌, ◌≡◌, refl, ap, sym, ◌∙◌, none, some, List, [], ◌∷◌, ◌++◌,
  append_assoc, append-nil, Bool, true, false, ◌==◌, ◌||◌, ltb, length, length-append, drop-append,
  arith, Bool-cases, inl, inr,
}
use haze.Memory.{Heap, M, IsAmple, alloc-IsAmple, realloc-IsAmple, free, free-IsAmple}
use haze.Session.{Session}
use haze.Object.{ObjectArray}
use haze.Wire.Mpack.{Tag, Writer, Writes, Reader, Reads}
use haze.Wire.Encode.{IsInsidePointer}
use haze.Wire.Request.{free_request}
use haze.Wire.Request.Unmarshal.{parsed}
use haze.Wire.Request.Unmarshal.Steps.{req}
use haze.Wire.Request.Unmarshal.RoundTrip.{unmarshal_reads}
use haze.Wire.Response
use haze.Wire.Response.{Response, wrap, free_response, free_pointer}
use haze.Wire.Response.Laws.{response_bytes, marshal-response_bytes}
use haze.Api.{World, answered, dispatch}
use haze.Api.Laws.{dispatch-Responds}
use haze.Server
use haze.Server.{
  Served, served, Stop, drained, Conn, consume, after_dispatch, drain, send, copied_to, respond,
  server_dispatch, serve_parsed, reply_bytes, check_size, received, room_made, enlarge, start_cap,
  grow_cap, on_read, arrived, buf_of,
}
use haze.Server.Asks.{
  free_request-IsAmple, free_response-IsAmple, wrap-IsAmple, respond-sent, IsPlain, ArePlain, ids,
  reply_ids, ask_bytes, stream, replies, Ask,
}

module _ {W R S : Type 0} (wr : Writer W) (rd : Reader R) (enc : Tag → List ℕ)
    (writes : Writes wr enc) (reads : Reads rd enc) (w : World S) where
  some_bytes : (a : Ask) → 0 < length (ask_bytes enc a)
  some_bytes a =
      omega (arith, writes.tag_nonempty (Tag.array 4), length-append {0} (enc (Tag.array 4)))

  marshal-IsAmple :
      (r : Response) (h : Heap) → IsAmple h → IsAmple (Response.marshal wr (some r) h).1
  unfolding Response.marshal
  marshal-IsAmple r h e = rw (writes.output_destroy) (wrap-IsAmple _ h e)

  reply_bytes-sent :
      (n : ℕ) (s : Session S) (r : Response) (h : Heap)
      → IsInsidePointer r.error
      → IsInsidePointer r.result
      → IsAmple h
      → ((reply_bytes wr rd n s (answered (some r)) h).0
          ≡ served
              (some (record {
                bytes = some (response_bytes enc r);
                len = length (response_bytes enc r);
              }))
              n
              none
              s)
        × IsAmple (reply_bytes wr rd n s (answered (some r)) h).1
  unfolding reply_bytes
  reply_bytes-sent n s r h i j e = (
    ap (λ o. served o n none s) (marshal-response_bytes wr enc writes r h i j e),
    free_response-IsAmple r (Response.marshal wr (some r) h).1 (marshal-IsAmple r h e),
  )

  -- ServerDispatch of a buffer that begins with a request answers it.
  Answered : Ask → Served S × Heap → Type 0
  Answered a (d, h) =
      (r : Response) × (s : Session S) × (d
        ≡ served
            (some
              (record { bytes = some (response_bytes enc r); len = length (response_bytes enc r) }))
            (length (ask_bytes enc a)) none s)
      × (r.msgid ≡ a.id)
      × IsAmple h

  serve_parsed-Answered :
      (a : Ask) (s : Session S) (b : ObjectArray) (h : Heap)
      → IsPlain a
      → IsAmple h
      → Answered a
          (serve_parsed wr rd w s (parsed (req 0 a.id a.method b) (length (ask_bytes enc a))) h)
  unfolding serve_parsed Answered
  serve_parsed-Answered a s b h (small, text, flat, other, fits, few) e =
      let q = req 0 a.id a.method b in
      let (r, there, type, same, i, j, ample) = dispatch-Responds w s q a.method refl other h e in
      let g = (free_request (some q) (dispatch w s (some q) h).1).1 in
      let (made, ample') =
        reply_bytes-sent (length (ask_bytes enc a)) (dispatch w s (some q) h).0.1 r g i j
          (free_request-IsAmple a.id a.method b (dispatch w s (some q) h).1 ample) in
      (r, (dispatch w s (some q) h).0.1, rw there made, same, rw there ample')

  server_dispatch-Answered :
      (a : Ask) (s : Session S) (rest : List ℕ) (h : Heap)
      → IsPlain a
      → IsAmple h
      → Answered a (
          server_dispatch wr rd w s
            (record {
              bytes = some (ask_bytes enc a ++ rest);
              len = length (ask_bytes enc a ++ rest);
            })
            h)
  unfolding server_dispatch
  server_dispatch-Answered a s rest h (small, text, flat, other, fits, few) e =
      let (b, back, same, ample) =
        unmarshal_reads rd enc reads a.id a.method a.params rest h small text flat (some_bytes a)
          e in
      rw back (serve_parsed-Answered a s b _ (small, text, flat, other, fits, few) ample)

  module _ (accepts : List ℕ → Bool) (open_link : (bytes : List ℕ) → accepts bytes ≡ true) where
    Done : List Ask → List (List ℕ) → Stop × Conn S → Type 0
    Done asks before (stop, d) =
        (rs : List Response) × (stop ≡ drained)
        × (d.buffer ≡ [])
        × (d.sent ≡ before ++ replies enc rs)
        × (reply_ids rs ≡ ids asks)

    Done-cons :
        (a : Ask) (asks : List Ask) (before : List (List ℕ)) (r : Response) (o : Stop × Conn S)
        → r.msgid ≡ a.id
        → Done asks (before ++ buf_of (response_bytes enc r) ∷ []) o
        → Done (a ∷ asks) before o
    unfolding Done
    Done-cons a asks before r (stop, d) same (rs, ended, empty, sent, in_order) = (
      r ∷ rs,
      ended,
      empty,
      sent ∙ append_assoc before (buf_of (response_bytes enc r) ∷ []) (replies enc rs),
      ap (λ i. i ∷ reply_ids rs) same ∙ ap (λ l. a.id ∷ l) in_order,
    )

    after_dispatch-Done :
        (a : Ask) (asks : List Ask) (c : Conn S) (r : Response) (s : Session S)
        (go : Conn S → M (Stop × Conn S)) (h : Heap)
        → r.msgid ≡ a.id
        → IsAmple h
        → ((c' : Conn S) (g : Heap)
            → IsAmple g
            → Done asks c'.sent (go (record c' { buffer = stream enc asks }) g).0)
        → Done
            (a ∷ asks)
            c.sent
            (after_dispatch accepts go
              (record c { buffer = ask_bytes enc a ++ stream enc asks })
              (served
                (some (record {
                  bytes = some (response_bytes enc r);
                  len = length (response_bytes enc r);
                }))
                (length (ask_bytes enc a))
                none
                s)
              h).0
    unfolding after_dispatch consume
    after_dispatch-Done a asks c r s go h same e k =
        let bytes = response_bytes enc r in
        let (sent, ample) = respond-sent accepts bytes h (open_link (buf_of bytes)) e in
        let goes_on : (length (ask_bytes enc a) == 0
              || ltb (length (ask_bytes enc a ++ stream enc asks)) (length (ask_bytes enc a)))
            ≡ false =
          ground (arith, some_bytes a, length-append {0} (ask_bytes enc a) (stream enc asks)) in
        let c' : Conn S = record c {
          session = s;
          sent = c.sent ++ buf_of bytes ∷ [];
          jobs = c.jobs ++ [];
        } in
        rw (sent, goes_on, drop-append (ask_bytes enc a) (stream enc asks))
          (Done-cons a asks c.sent r _ same (k c' _ ample))

    drain-Done :
        (asks : List Ask) (fuel : ℕ) (c : Conn S) (h : Heap)
        → ArePlain asks
        → IsAmple h
        → length (stream enc asks) ≤ fuel
        → Done asks c.sent (drain wr rd w accepts fuel (record c { buffer = stream enc asks }) h).0
    unfolding drain Done Answered
    drain-Done [] zero c h plain e room = ([], refl, refl, sym (append-nil c.sent), refl)
    drain-Done [] (suc fuel) c h plain e room = ([], refl, refl, sym (append-nil c.sent), refl)
    drain-Done (a ∷ asks) zero c h (plain, more) e room =
        absurd (omega (arith, some_bytes a, length-append {0} (ask_bytes enc a) (stream enc asks)))
    drain-Done (a ∷ asks) (suc fuel) c h (plain, more) e room =
        let (r, s, made, same, ample) =
          server_dispatch-Answered a c.session (stream enc asks) h plain e in
        let some_left : (length (ask_bytes enc a ++ stream enc asks) == 0) ≡ false =
          ground (arith, some_bytes a, length-append {0} (ask_bytes enc a) (stream enc asks)) in
        let shorter : length (stream enc asks) ≤ fuel =
          omega (arith, some_bytes a, length-append {0} (ask_bytes enc a) (stream enc asks)) in
        rw (some_left, made)
          (after_dispatch-Done a asks c r s (drain wr rd w accepts fuel)
            (server_dispatch wr rd w c.session
              (record {
                bytes = some (ask_bytes enc a ++ stream enc asks);
                len = length (ask_bytes enc a ++ stream enc asks);
              })
              h).1
            same ample (λ c' g e'. drain-Done asks fuel c' g more e' shorter))

    check_size-Done :
        (asks : List Ask) (before : List (List ℕ)) (o : Stop × Conn S)
        → Done asks before o
        → Done asks before (check_size wr rd w accepts o)
    unfolding check_size Done
    check_size-Done asks before (drained, d) (rs, ended, empty, sent, in_order) =
        let short : ltb (4194304) (length d.buffer) ≡ false = rw empty refl in
        rw short (rs, refl, empty, sent, in_order)
    check_size-Done asks before (Server.closed, d) (rs, ended, empty, sent, in_order) = absurd (cc)
    check_size-Done asks before (Server.crashed, d) (rs, ended, empty, sent, in_order) = absurd (cc)
    check_size-Done asks before (Server.endless, d) (rs, ended, empty, sent, in_order) = absurd (cc)
    check_size-Done asks before (Server.no_fuel, d) (rs, ended, empty, sent, in_order) = absurd (cc)

    received-Done :
        (asks : List Ask) (c : Conn S) (h : Heap)
        → ArePlain asks
        → IsAmple h
        → c.buffer ≡ []
        → Done asks c.sent (received wr rd w accepts c (stream enc asks) h).0
    unfolding received
    received-Done asks c h plain e empty =
        check_size-Done asks c.sent
          (drain wr rd w accepts (length (c.buffer ++ stream enc asks))
            (record c { buffer = c.buffer ++ stream enc asks }) (free 1 h).1).0
          (rw empty (
            drain-Done asks (length (stream enc asks)) c (free 1 h).1 plain (free-IsAmple 1 h e)
              (omega arith)))

    enlarge-IsAmple :
        (cap : ℕ) (h : Heap)
        → IsAmple h
        → ((enlarge wr rd w accepts cap h).0 ≡ true) × IsAmple (enlarge wr rd w accepts cap h).1
    unfolding enlarge
    enlarge-IsAmple zero h e = alloc-IsAmple h e
    enlarge-IsAmple (suc cap) h e = realloc-IsAmple h e

    -- With ample memory and a link that takes every write, haze_on_read of any number of requests
    -- that arrive together in an empty buffer, in the bytes that RequestMarshal writes of them,
    -- answers each: it writes as many responses, with the requests' ids in their order, each as far
    -- as its length modulo 2 ^ 32, keeps the connection open and leaves nothing in the buffer. The
    -- requests are of type 0, with an id, a number of parameters and a method's length below 2 ^ 32;
    -- the method holds no 0 and is not samplelist/import; no parameter is an array, a bin or a map,
    -- and a string among them has its length for its size, below 2 ^ 32, and holds no 0.
    pub on_read_answers :
        (asks : List Ask) (c : Conn S) (h : Heap)
        → ArePlain asks
        → IsAmple h
        → c.buffer ≡ []
        → let (stop, d) = (on_read wr rd w accepts c (arrived (stream enc asks)) h).0 in
          (rs : List Response) × (stop ≡ drained)
          × (d.buffer ≡ [])
          × (d.sent ≡ c.sent ++ replies enc rs)
          × (reply_ids rs ≡ ids asks)
    unfolding on_read room_made Done
    on_read_answers asks c h plain e empty =
        elim (Bool-cases (ltb c.cap (length c.buffer + length (stream enc asks)))) [
          | inr fits ↦ rw fits (received-Done asks c h plain e empty)
          | inl short ↦
              let (room, ample) = enlarge-IsAmple c.cap h e in
              rw (short, room)
                (received-Done asks
                  (record c {
                    cap =
                        grow_cap (length c.buffer + length (stream enc asks))
                          (start_cap wr rd w accepts c.cap)
                          (length c.buffer + length (stream enc asks));
                  })
                  (enlarge wr rd w accepts c.cap h).1 plain ample empty)
        ]
