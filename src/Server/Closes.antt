-- ===== src/Server/Closes.antt =====
-- source/server/HazeServer.c: how often haze_on_read calls uv_close, which may be called once.
use haze.Base.{
  ℕ, zero, suc, ◌+◌, ◌*◌, ◌≤◌, ◌<◌, ◌≡◌, refl, some, List, ◌++◌, Bool, true, false, ◌==◌, ◌||◌, ltb,
  length, arith, Bool-cases, inl, inr,
}
use haze.Memory.{Heap, M, free}
use haze.Wire.Mpack.{Writer, Reader}
use haze.Api.{World}
use haze.Server
use haze.Server.{
  Served, served, unusable, Stop, drained, closed, no_fuel, Conn, Event, broken, idle, arrived,
  consume, after_dispatch, drain, server_dispatch, check_size, received, room_made, on_read,
  close_conn,
}

-- The loop closes a connection once where it says so.
abbrev once : Stop → ℕ
once closed = 1
once _ = 0

module _ {S : Type 0} where
  abbrev Counts : (Conn S → M (Stop × Conn S)) → Type 0
  Counts go = (c : Conn S) (h : Heap) → (go c h).0.1.closes ≡ c.closes + once (go c h).0.0

  consume-Counts : (n : ℕ) (go : Conn S → M (Stop × Conn S)) → Counts go → Counts (consume n go)
  unfolding consume close_conn
  consume-Counts n go counts c h = elim (Bool-cases (n == 0 || ltb (length c.buffer) n)) [
    | inl e ↦ rw e (refl)
    | inr e ↦ rw e (counts _ h)
  ]

  after_dispatch-Counts :
      (accepts : List ℕ → Bool) (go : Conn S → M (Stop × Conn S)) (d : Served S)
      → Counts go
      → Counts (λ c. after_dispatch accepts go c d)
  unfolding after_dispatch close_conn
  after_dispatch-Counts accepts go (served bytes n job s) counts c h =
      consume-Counts n go counts _ _
  after_dispatch-Counts accepts go unusable counts c h = refl
  after_dispatch-Counts accepts go Server.crashed counts c h = omega arith
  after_dispatch-Counts accepts go Server.endless counts c h = omega arith

module _ {W R S : Type 0} (wr : Writer W) (rd : Reader R) (w : World S)
    (accepts : List ℕ → Bool) where
  drain-Counts : (fuel : ℕ) → Counts (drain wr rd w accepts fuel)
  unfolding drain
  drain-Counts zero c h = ground arith
  drain-Counts (suc fuel) c h = elim (Bool-cases (length c.buffer == 0)) [
    | inl e ↦ rw e (omega arith)
    | inr e ↦
        let d =
          server_dispatch wr rd w c.session
            (record { bytes = some c.buffer; len = length c.buffer }) h in
        rw e
          (after_dispatch-Counts accepts (drain wr rd w accepts fuel) d.0 (drain-Counts fuel) c d.1)
  ]

  -- What haze_on_read may do to a connection that was open.
  abbrev pub Closes : Stop × Conn S → Type 0
  Closes r =
      (r.1.closes ≤ 2)
      × (r.1.closes ≡ 2 → 4 * 1024 * 1024 < length r.1.buffer)
      × (0 < r.1.closes → r.0 ≡ closed)

  check_size-Closes :
      (r : Stop × Conn S) → r.1.closes ≡ once r.0 → Closes (check_size wr rd w accepts r)
  unfolding check_size close_conn
  check_size-Closes (drained, d) e = ground arith
  check_size-Closes (closed, d) e = ground arith
  check_size-Closes (no_fuel, d) e = ground arith
  check_size-Closes (Server.crashed, d) e = ground arith
  check_size-Closes (Server.endless, d) e = ground arith

  received-Closes :
      (c : Conn S) (bytes : List ℕ) (h : Heap)
      → c.closes ≡ 0
      → Closes (received wr rd w accepts c bytes h).0
  unfolding received free
  received-Closes c bytes h e =
      let c' : Conn S = record c { buffer = c.buffer ++ bytes } in
      let g : Heap = (free 1 h).1 in
      let counted = drain-Counts (length c'.buffer) c' g in
      check_size-Closes (drain wr rd w accepts (length c'.buffer) c' g).0
        (omega (arith, counted, e))

  room_made-Closes :
      (c : Conn S) (bytes : List ℕ) (cap : ℕ) (ok : Bool) (h : Heap)
      → c.closes ≡ 0
      → Closes (room_made wr rd w accepts c bytes cap ok h).0
  unfolding room_made close_conn
  room_made-Closes c bytes cap true h e = received-Closes (record c { cap = cap }) bytes h e
  room_made-Closes c bytes cap false h e = ground (arith, e)

  -- Whatever arrives on an open connection, and whatever the allocator and the network answer: haze_on_read
  -- calls uv_close only where it ends with the connection closed, and twice only where more than 4 MB
  -- are left in the buffer.
  pub on_read_closes :
      (c : Conn S) (e : Event) (h : Heap) → c.closes ≡ 0 → Closes (on_read wr rd w accepts c e h).0
  unfolding on_read close_conn
  on_read_closes c broken h z = ground (arith, z)
  on_read_closes c idle h z = ground (arith, z)
  on_read_closes c (arrived bytes) h z =
      elim (Bool-cases (ltb c.cap (length c.buffer + length bytes))) [
        | inl e ↦ rw e (room_made-Closes c bytes _ _ _ z)
        | inr e ↦ rw e (received-Closes c bytes h z)
      ]
