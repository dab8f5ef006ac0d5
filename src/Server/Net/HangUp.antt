-- ===== src/Server/Net/HangUp.antt =====
-- A connection of source/server/HazeServer.c whose peer is gone: from the read that reports it to
-- haze_on_close.
use haze.Base.{
  ℕ, ◌+◌, ◌-◌, ◌≤◌, ◌<◌, ◌≡◌, refl, ap, ◌∙◌, some, none, List, [], ◌∷◌, Bool, false, ◌==◌,
  if◌then◌else◌, length, arith,
}
use haze.Memory.{Heap, free}
use haze.Wire.Mpack.{Writer, Reader}
use haze.Api.{World}
use haze.Server.{Conn, broken, on_read, close_conn}
use haze.Server.Connections.{times, times-remove_connection}
use haze.Server.Net.{
  Net, find, put, without, on_close, on_write_done, write_ended, read_from, read_into,
}
use haze.Server.Net.Sound.{ids, IsSound, Reach-IsSound}
use haze.Server.Net.Steps.{State, Reach, read, written, close, here, next}
use haze.Server.Net.Ledger.{conn_blocks, read_into_silent}

module _ {S : Type 0} where
  find-put :
      (xs : List (ℕ × Conn S)) (id d : ℕ) (b c : Conn S)
      → find xs id ≡ some b
      → find (put xs id c) d ≡ (if id == d then some c else find xs d)
  unfolding find put
  find-put [] id d b c e = cc
  find-put ((i, a) ∷ rest) id d b c e = grind (arith, find-put rest id d b c)

  find-none_of : (xs : List (ℕ × Conn S)) (id : ℕ) → times (ids xs) id ≡ 0 → find xs id ≡ none
  unfolding find
  find-none_of [] id e = refl
  find-none_of ((i, a) ∷ rest) id e = grind (arith, find-none_of rest id)

  find-without :
      (xs : List (ℕ × Conn S)) (id d : ℕ)
      → times (ids xs) id ≤ 1
      → find (without xs id) d ≡ (if id == d then none else find xs d)
  unfolding find without
  find-without [] id d e = ground arith
  find-without ((i, a) ∷ rest) id d e = grind (arith, find-without rest id d, find-none_of rest id)

  -- The other connections are as they were, in the list and as HazeConns.
  abbrev Others : ℕ → Net S → Net S → Type 0
  Others id n m =
      (d : ℕ)
      → (id == d) ≡ false
      → (find m.conns d ≡ find n.conns d)
        × (times m.server.connections d ≡ times n.server.connections d)

  write_ended_closing : (c : Conn S) → 0 < c.closes → write_ended false c ≡ c
  unfolding write_ended
  write_ended_closing c k = ground arith

  -- A write of a closing connection that is reported.
  after_write :
      (n : Net S) (h : Heap) (id : ℕ) (c : Conn S) (rest : List (List ℕ))
      → find n.conns id ≡ some c
      → 0 < c.closes
      → let t = on_write_done false id c rest n h in
        (find t.0.conns id ≡ some (record c { sent = rest }))
        × (t.1.live ≡ h.live - 2)
        × Others id n t.0
  unfolding on_write_done free
  after_write n h id c rest f k = rw (write_ended_closing (record c { sent = rest }) k) (
    ground (arith, find-put n.conns id id c (record c { sent = rest }) f),
    refl,
    λ d ne. (ground (arith, ne, find-put n.conns id d c (record c { sent = rest }) f), refl),
  )

module _ {W R S : Type 0} (wr : Writer W) (rd : Reader R) (w : World S)
    (takes : ℕ → List ℕ → Bool) where
  -- What is left of a closing connection when its writes are cancelled.
  record Cancelled (id : ℕ) (c : Conn S) (s t : State S) : Type 0 where
    last : State S
    reach : Reach wr rd w takes s last
    conn : Conn S
    there : find last.0.conns id ≡ some conn
    done : conn.sent ≡ []
    closing : 0 < conn.closes
    room : conn_blocks conn ≤ last.1.live
    kept : last.1.live + conn_blocks c ≡ t.1.live + conn_blocks conn
    others : Others id t.0 last.0

  cancel :
      (sent : List (List ℕ)) (id : ℕ) (c : Conn S) {s t : State S}
      → Reach wr rd w takes s t
      → find t.0.conns id ≡ some c
      → c.sent ≡ sent
      → 0 < c.closes
      → conn_blocks c ≤ t.1.live
      → Cancelled id c s t
  cancel [] id c {t} r f e k enough = record {
    last = t;
    reach = r;
    conn = c;
    there = f;
    done = e;
    closing = k;
    room = enough;
    kept = refl;
    others = λ d ne. (refl, refl);
  }
  cancel (bytes ∷ rest) id c {s} {t} r f e k enough =
      let (there, less, same) = after_write t.0 t.1 id c rest f k in
      widen less same (
        cancel rest id (record c { sent = rest }) (next r (written false id c bytes rest f e)) there
          refl k (omega (arith, less, enough, ap length e)))
    where
      widen :
          (on_write_done false id c rest t.0 t.1).1.live ≡ t.1.live - 2
          → Others id t.0 (on_write_done false id c rest t.0 t.1).0
          → Cancelled id (record c { sent = rest }) s (on_write_done false id c rest t.0 t.1)
          → Cancelled id c s t
      widen less same z = record {
        last = z.last;
        reach = z.reach;
        conn = z.conn;
        there = z.there;
        done = z.done;
        closing = z.closing;
        room = z.room;
        kept = omega (arith, z.kept, less, enough, ap length e);
        others = λ d ne. ((z.others d ne).0 ∙ (same d ne).0, (z.others d ne).1 ∙ (same d ne).1);
      }

  read_closes :
      (accepts : List ℕ → Bool) (c : Conn S) (h : Heap)
      → 0 < (read_into wr rd w accepts c broken h).0.1.closes
  unfolding read_into on_read close_conn
  read_closes accepts c h = ground arith

  -- The read that reports the end.
  after_end :
      (n : Net S) (h : Heap) (id : ℕ) (c : Conn S)
      → find n.conns id ≡ some c
      → let t = read_from wr rd w takes id c broken n h in
        (d : Conn S) × (conn_blocks d ≡ conn_blocks c)
        × (0 < d.closes)
        × (find t.0.conns id ≡ some d)
        × (t.1.live ≡ h.live)
        × Others id n t.0
  unfolding read_from
  after_end n h id c f =
      let c' : Conn S = record c { session = n.session } in
      let d : Conn S = (read_into wr rd w (takes id) c' broken h).0.1 in
      let (same, live) = read_into_silent wr rd w (takes id) c' broken h tt in
      (
        d,
        same,
        read_closes (takes id) c' h,
        ground (arith, find-put n.conns id id c d f),
        live,
        λ x ne. (ground (arith, ne, find-put n.conns id x c d f), refl),
      )

  -- haze_on_close of a connection that is there.
  after_close :
      (n : Net S) (h : Heap) (id : ℕ) (c : Conn S)
      → IsSound n
      → c.sent ≡ []
      → conn_blocks c ≤ h.live
      → let t = on_close id c n h in
        (find t.0.conns id ≡ none)
        × (times t.0.server.connections id ≡ 0)
        × (t.1.live + conn_blocks c ≡ h.live)
        × Others id n t.0
  unfolding on_close free
  after_close n h id c s done enough = (
    ground (arith, find-without n.conns id id (s.apart id)),
    ground (arith, times-remove_connection n.server id id, s.alive id, s.apart id),
    omega (arith, enough, ap length done),
    λ d ne. (
      ground (arith, ne, find-without n.conns id d (s.apart id)),
      ground (arith, ne, times-remove_connection n.server id d),
    ),
  )

  -- When the peer of an open connection hangs up, the loop can go on to a state in which the
  -- connection is in neither the list nor memory, all its blocks, the writes under way among them, are
  -- given back, and every other connection is as it was. Its server is sound, and the connection's
  -- blocks are among the live ones.
  pub hang_up_ends :
      (n : Net S) (h : Heap) (id : ℕ) (c : Conn S)
      → IsSound n
      → find n.conns id ≡ some c
      → c.closes ≡ 0
      → conn_blocks c ≤ h.live
      → (u : State S) × Reach wr rd w takes (n, h) u
        × (find u.0.conns id ≡ none)
        × (times u.0.server.connections id ≡ 0)
        × (u.1.live + conn_blocks c ≡ h.live)
        × Others id n u.0
  hang_up_ends n h id c s f k enough =
      let (d, same, closing, there, live, others) = after_end n h id c f in
      let z : Cancelled id d (n, h) (read_from wr rd w takes id c broken n h) =
        cancel d.sent id d (next here (read id c broken f k)) there refl closing
          (omega (arith, same, live, enough)) in
      let (gone, unlisted, freed, kept) =
        after_close z.last.0 z.last.1 id z.conn (Reach-IsSound wr rd w takes s z.reach) z.done
          z.room in
      (
        on_close id z.conn z.last.0 z.last.1,
        next z.reach (close id z.conn z.there z.closing z.done),
        gone,
        unlisted,
        omega (arith, freed, z.kept, live, same),
        λ x ne. (
          (kept x ne).0 ∙ (z.others x ne).0 ∙ (others x ne).0,
          (kept x ne).1 ∙ (z.others x ne).1 ∙ (others x ne).1,
        ),
      )
