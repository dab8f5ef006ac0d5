-- ===== src/Server/Net/Ledger.antt =====
-- The blocks that the callbacks of source/server/HazeServer.c allocate and free.
use haze.Base.{
  ℕ, ◌+◌, ◌*◌, ◌≤◌, ◌<◌, ◌≡◌, refl, sym, some, List, [], ◌∷◌, Bool, length, length-append, arith,
  Bool-cases, inl, inr,
}
use haze.Memory.{Heap, alloc, free, live-alloc}
use haze.Audio.{name_blocks}
use haze.Wire.Mpack.{Writer, Reader}
use haze.Api.{World}
use haze.Server.{Conn, Event, broken, idle, arrived, on_read, close_conn}
use haze.Server.Connections.{remove_connection, times, blocks, broadcast}
use haze.Server.Connections.Ledger.{
  live-add_connection, addr-add_connection, live-broadcast, targets-broadcast, writes, targets,
}
use haze.Server.Net.{
  Net, Accept, find, put, without, on_connect, connected, registered, on_close, on_write_done,
  write_ended, read_from, read_into, queue_one, queue_all, net_broadcast,
}
use haze.Server.Net.Sound.{ids, IsSound, ids-queue_one, Reach-IsSound}
use haze.Server.Net.Steps.{State, Step, connect, read, written, close, tell, Reach, here, next}

module _ {S : Type 0} where
  -- The blocks of a HazeConn, its buffer and its writes.
  abbrev pub conn_blocks : Conn S → ℕ
  conn_blocks c = 1 + blocks c.cap + length c.sent * 2

  abbrev pub all_blocks : List (ℕ × Conn S) → ℕ
  all_blocks [] = 0
  all_blocks ((i, c) ∷ rest) = conn_blocks c + all_blocks rest

  -- Everything that a server holds, the array and libuv's loop included.
  abbrev pub net_blocks : Net S → ℕ
  net_blocks n =
      2 + name_blocks n.server.addr + n.signals + blocks n.server.conn_cap + all_blocks n.conns

  put-blocks :
      (xs : List (ℕ × Conn S)) (id : ℕ) (c d : Conn S)
      → find xs id ≡ some c
      → all_blocks (put xs id d) + conn_blocks c ≡ all_blocks xs + conn_blocks d
  unfolding find put
  put-blocks [] id c d e = cc
  put-blocks ((i, b) ∷ rest) id c d e = grind (arith, put-blocks rest id c d)

  without-blocks :
      (xs : List (ℕ × Conn S)) (id : ℕ) (c : Conn S)
      → find xs id ≡ some c
      → all_blocks (without xs id) + conn_blocks c ≡ all_blocks xs
  unfolding find without
  without-blocks [] id c e = cc
  without-blocks ((i, b) ∷ rest) id c e = grind (arith, without-blocks rest id c)

  -- What a callback allocates or frees is what the server holds more or less.
  abbrev Keeps : Net S → Heap → Net S × Heap → Type 0
  Keeps n h r = net_blocks r.0 + h.live ≡ net_blocks n + r.1.live

  registered-Keeps :
      (id : ℕ) (n : Net S) (h : Heap)
      → net_blocks (registered id n h).0 + h.live ≡ 1 + net_blocks n + (registered id n h).1.live
  unfolding registered
  registered-Keeps id n h =
      rw (addr-add_connection n.server id h) (omega (arith, live-add_connection n.server id h))

  connected-Keeps :
      (o : Accept) (id : ℕ) (n : Net S) (h : Heap)
      → 0 < h.live
      → net_blocks (connected o id n h).0 + h.live ≡ 1 + net_blocks n + (connected o id n h).1.live
  unfolding connected free close_conn
  connected-Keeps o id n h p = grind (arith, registered-Keeps id n h)

  on_connect-Keeps : (o : Accept) (id : ℕ) (n : Net S) (h : Heap) → Keeps n h (on_connect o id n h)
  unfolding on_connect
  on_connect-Keeps o id n h = elim (Bool-cases (alloc h).0) [
    | inl e ↦ grind (arith, live-alloc h, connected-Keeps o id n (alloc h).1)
    | inr e ↦ grind (arith, live-alloc h)
  ]

  on_close-Keeps :
      (id : ℕ) (c : Conn S) (n : Net S) (h : Heap)
      → find n.conns id ≡ some c
      → c.sent ≡ []
      → net_blocks n ≤ h.live
      → Keeps n h (on_close id c n h)
  unfolding on_close free remove_connection
  on_close-Keeps id c n h f done enough = grind (arith, without-blocks n.conns id c)

  on_write_done-Keeps :
      (ok : Bool) (id : ℕ) (c : Conn S) (bytes : List ℕ) (rest : List (List ℕ)) (n : Net S)
      (h : Heap)
      → find n.conns id ≡ some c
      → c.sent ≡ bytes ∷ rest
      → net_blocks n ≤ h.live
      → Keeps n h (on_write_done ok id c rest n h)
  unfolding on_write_done free write_ended close_conn
  on_write_done-Keeps ok id c bytes rest n h f e enough =
      grind (arith, put-blocks n.conns id c (write_ended ok (record c { sent = rest })))

  queue_one-blocks :
      (id : ℕ) (out : List (List ℕ)) (xs : List (ℕ × Conn S))
      → 0 < times (ids xs) id
      → all_blocks (queue_one id out xs) ≡ all_blocks xs + length out * 2
  unfolding queue_one
  queue_one-blocks id out [] h = absurd (omega arith)
  queue_one-blocks id out ((i, c) ∷ rest) h =
      ground (arith, queue_one-blocks id out rest, length-append c.sent out)

  queue_all-blocks :
      (outs : List (ℕ × List (List ℕ))) (xs : List (ℕ × Conn S))
      → ((d : ℕ) → 0 < times (targets outs) d → 0 < times (ids xs) d)
      → all_blocks (queue_all outs xs) ≡ all_blocks xs + writes outs
  unfolding queue_all
  queue_all-blocks [] xs known = omega arith
  queue_all-blocks ((id, out) ∷ outs) xs known = omega (
    arith,
    queue_one-blocks id out xs (known id (ground arith)),
    queue_all-blocks outs (queue_one id out xs)
        (λ d h. rw (ids-queue_one id out xs) (known d (ground arith))),
  )

  net_broadcast-Keeps :
      (takes : ℕ → List ℕ → Bool) (bytes : List ℕ) (n : Net S) (h : Heap)
      → IsSound n
      → Keeps n h (net_broadcast takes bytes n h)
  unfolding net_broadcast
  net_broadcast-Keeps takes bytes n h s = omega (
    arith,
    live-broadcast takes n.server.connections bytes h,
    queue_all-blocks (broadcast takes n.server.connections bytes h).0 n.conns
        (λ d t. omega (arith, s.alive d, listed d t)),
  )
    where
      back : targets (broadcast takes n.server.connections bytes h).0 ≡ n.server.connections
      back = targets-broadcast takes n.server.connections bytes h

      listed :
          (d : ℕ)
          → 0 < times (targets (broadcast takes n.server.connections bytes h).0) d
          → 0 < times n.server.connections d
      listed d t = rw (sym back) t

-- Nothing arrives: the end of the stream, an error, or a read of no bytes.
abbrev IsSilent : Event → Type 0
IsSilent broken = Unit
IsSilent idle = Unit
IsSilent (arrived bytes) = ⊥

module _ {W R S : Type 0} (wr : Writer W) (rd : Reader R) (w : World S) where
  pub read_into_silent :
      (accepts : List ℕ → Bool) (c : Conn S) (e : Event) (h : Heap)
      → IsSilent e
      → (conn_blocks (read_into wr rd w accepts c e h).0.1 ≡ conn_blocks c)
        × ((read_into wr rd w accepts c e h).1.live ≡ h.live)
  unfolding read_into on_read close_conn free
  read_into_silent accepts c broken h q = (ground arith, ground (arith, live-alloc h))
  read_into_silent accepts c idle h q = (ground arith, ground (arith, live-alloc h))
  read_into_silent accepts c (arrived bytes) h q = elim q [ ]

module _ {W R S : Type 0} (wr : Writer W) (rd : Reader R) (w : World S)
    (takes : ℕ → List ℕ → Bool) where
  read_from-Keeps :
      (id : ℕ) (c : Conn S) (e : Event) (n : Net S) (h : Heap)
      → IsSilent e
      → find n.conns id ≡ some c
      → Keeps n h (read_from wr rd w takes id c e n h)
  unfolding read_from
  read_from-Keeps id c e n h q f =
      let d = (read_into wr rd w (takes id) (record c { session = n.session }) e h).0.1 in
      let same = read_into_silent wr rd w (takes id) (record c { session = n.session }) e h q in
      omega (arith, put-blocks n.conns id c d f, same.0, same.1)

  -- No bytes are read in this step, in these steps.
  abbrev IsQuiet : {t u : State S} → Step wr rd w takes t u → Type 0
  IsQuiet (read id c e f reading) = IsSilent e
  IsQuiet _ = Unit

  abbrev AreQuiet : {t u : State S} → Reach wr rd w takes t u → Type 0
  AreQuiet here = Unit
  AreQuiet (next r st) = AreQuiet r × IsQuiet st

  step-Keeps :
      {t u : State S} (st : Step wr rd w takes t u)
      → IsQuiet st
      → IsSound t.0
      → net_blocks t.0 ≤ t.1.live
      → Keeps t.0 t.1 u
  step-Keeps {t} (connect o id new) q s enough = on_connect-Keeps o id t.0 t.1
  step-Keeps {t} (read id c e f reading) q s enough = read_from-Keeps id c e t.0 t.1 q f
  step-Keeps {t} (written ok id c bytes rest f e) q s enough =
      on_write_done-Keeps ok id c bytes rest t.0 t.1 f e enough
  step-Keeps {t} (close id c f closing done) q s enough = on_close-Keeps id c t.0 t.1 f done enough
  step-Keeps {t} (tell bytes) q s enough = net_broadcast-Keeps takes bytes t.0 t.1 s

  -- Connections that arrive, on every branch of their setup, broadcasts, writes that end well or
  -- badly, reads that bring no bytes, and closes give and take exactly the blocks that the server holds
  -- more and less, in whatever order they come and whatever the allocator answers; the server is sound
  -- at first, and its blocks are among the live ones.
  pub quiet_balanced :
      {t u : State S} (r : Reach wr rd w takes t u)
      → AreQuiet r
      → IsSound t.0
      → net_blocks t.0 ≤ t.1.live
      → net_blocks u.0 + t.1.live ≡ net_blocks t.0 + u.1.live
  quiet_balanced here q s enough = refl
  quiet_balanced {t} (next r st) q s enough =
      let before = quiet_balanced r q.0 s enough in
      omega
        (arith, before, step-Keeps st q.1 (Reach-IsSound wr rd w takes s r) (omega (arith, before)))
