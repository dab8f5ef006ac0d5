-- ===== src/Server/Net/Sound.antt =====
-- What the callbacks of source/server/HazeServer.c keep, in whatever order libuv runs them.
use haze.Base.{
  ℕ, ◌+◌, ◌≤◌, ◌<◌, ◌≡◌, refl, some, none, List, [], ◌∷◌, Bool, true, false, ◌==◌, ◌&&◌,
  if◌then◌else◌, length, arith, Bool-cases, inl, inr,
}
use haze.Memory.{Heap, M, alloc}
use haze.Wire.Mpack.{Writer, Reader}
use haze.Api.{World}
use haze.Server.{Conn}
use haze.Server.Connections.{
  broadcast, times, times-remove_connection, remove_connection_fits, times-add_connection,
  add_connection_fits,
}
use haze.Server.Net.{
  Net, Accept, find, put, without, on_connect, connected, registered, on_close, on_write_done,
  net_broadcast, queue_one, queue_all, read_from,
}
use haze.Server.Net.Steps.{State, Step, connect, read, written, close, tell, Reach, here, next}

module _ {S : Type 0} where
  -- The addresses of the HazeConns.
  abbrev pub ids : List (ℕ × Conn S) → List ℕ
  ids [] = []
  ids ((i, c) ∷ rest) = i ∷ ids rest

  -- No two HazeConns have one address; the list has none of them twice, and no pointer to one that is
  -- freed; and it fits into its array.
  pub record IsSound (n : Net S) : Type 0 where
    pub apart : (c : ℕ) → times (ids n.conns) c ≤ 1
    pub alive : (c : ℕ) → times n.server.connections c ≤ times (ids n.conns) c
    pub fits : length n.server.connections ≤ n.server.conn_cap

  ids-put : (xs : List (ℕ × Conn S)) (id : ℕ) (d : Conn S) → ids (put xs id d) ≡ ids xs
  unfolding put
  ids-put [] id d = refl
  ids-put ((i, c) ∷ rest) id d = elim (Bool-cases (i == id)) [
    | inl e ↦ rw e (refl)
    | inr e ↦ rw (e, ids-put rest id d) (refl)
  ]

  pub times-without :
      (xs : List (ℕ × Conn S)) (id d : ℕ)
      → 0 < times (ids xs) id
      → times (ids (without xs id)) d + (if id == d then 1 else 0) ≡ times (ids xs) d
  unfolding without
  times-without [] id d h = absurd (omega arith)
  times-without ((i, c) ∷ rest) id d h = ground (arith, times-without rest id d)

  pub find-times :
      (xs : List (ℕ × Conn S)) (id : ℕ) (c : Conn S) → find xs id ≡ some c → 0 < times (ids xs) id
  unfolding find
  find-times [] id c e = cc
  find-times ((i, b) ∷ rest) id c e = ground (arith, find-times rest id c)

  find-none : (xs : List (ℕ × Conn S)) (id : ℕ) → find xs id ≡ none → times (ids xs) id ≡ 0
  unfolding find
  find-none [] id e = refl
  find-none ((i, b) ∷ rest) id e = ground (arith, find-none rest id)

  pub ids-queue_one :
      (id : ℕ) (out : List (List ℕ)) (xs : List (ℕ × Conn S)) → ids (queue_one id out xs) ≡ ids xs
  unfolding queue_one
  ids-queue_one id out [] = refl
  ids-queue_one id out ((i, c) ∷ rest) = elim (Bool-cases (i == id)) [
    | inl e ↦ rw e (refl)
    | inr e ↦ rw (e, ids-queue_one id out rest) (refl)
  ]

  ids-queue_all :
      (outs : List (ℕ × List (List ℕ))) (xs : List (ℕ × Conn S)) → ids (queue_all outs xs) ≡ ids xs
  unfolding queue_all
  ids-queue_all [] xs = refl
  ids-queue_all ((id, out) ∷ outs) xs =
      rw (ids-queue_all outs (queue_one id out xs), ids-queue_one id out xs) (refl)

  same-IsSound :
      (n m : Net S) → m.server ≡ n.server → ids m.conns ≡ ids n.conns → IsSound n → IsSound m
  same-IsSound n m e i s = record {
    apart = λ c. rw i (s.apart c);
    alive = λ c. rw (e, i) (s.alive c);
    fits = rw e (s.fits);
  }

  fresh-IsSound :
      (n : Net S) (id : ℕ) (c : Conn S)
      → times (ids n.conns) id ≡ 0
      → IsSound n
      → IsSound (record n { conns = (id, c) ∷ n.conns })
  fresh-IsSound n id c new s = record {
    apart = λ d. ground (arith, s.apart d);
    alive = λ d. ground (arith, s.alive d);
    fits = s.fits;
  }

  registered-IsSound :
      (id : ℕ) (n : Net S) (h : Heap)
      → times (ids n.conns) id ≡ 0
      → IsSound n
      → IsSound (registered id n h).0
  unfolding registered
  registered-IsSound id n h new s = record {
    apart = λ d. ground (arith, s.apart d);
    alive = λ d. ground (arith, s.alive d, times-add_connection n.server id d h);
    fits = (add_connection_fits n.server id h s.fits).0;
  }

  on_close-IsSound :
      (id : ℕ) (c : Conn S) (n : Net S) (h : Heap)
      → 0 < times (ids n.conns) id
      → IsSound n
      → IsSound (on_close id c n h).0
  unfolding on_close
  on_close-IsSound id c n h present s = record {
    apart = λ d. ground (arith, s.apart d, times-without n.conns id d present);
    alive = λ d. ground (
      arith,
      s.alive d,
      times-without n.conns id d present,
      times-remove_connection n.server id d,
    );
    fits = remove_connection_fits n.server id s.fits;
  }

  branch-IsSound :
      (b : Bool) (m k : M (Net S)) (h : Heap)
      → IsSound (m h).0
      → IsSound (k h).0
      → IsSound ((if b then m else k) h).0
  branch-IsSound true m k h p q = p
  branch-IsSound false m k h p q = q

  connected-IsSound :
      (o : Accept) (id : ℕ) (n : Net S) (h : Heap)
      → times (ids n.conns) id ≡ 0
      → IsSound n
      → IsSound (connected o id n h).0
  unfolding connected
  connected-IsSound o id n h new s =
      branch-IsSound o.inits _ _ h
        (branch-IsSound (o.accepts && o.reads) _ _ h (registered-IsSound id n h new s)
          (fresh-IsSound n id _ new s))
        s

  on_connect-IsSound :
      (o : Accept) (id : ℕ) (n : Net S) (h : Heap)
      → times (ids n.conns) id ≡ 0
      → IsSound n
      → IsSound (on_connect o id n h).0
  unfolding on_connect
  on_connect-IsSound o id n h new s =
      branch-IsSound o.arrives _ _ h
        (branch-IsSound (alloc h).0 _ _ (alloc h).1 (connected-IsSound o id n (alloc h).1 new s) s)
        s

module _ {W R S : Type 0} (wr : Writer W) (rd : Reader R) (w : World S)
    (takes : ℕ → List ℕ → Bool) where
  Step-IsSound : {t u : State S} → Step wr rd w takes t u → IsSound t.0 → IsSound u.0
  unfolding on_write_done net_broadcast read_from
  Step-IsSound {t} (connect o id new) s = on_connect-IsSound o id t.0 t.1 (find-none _ id new) s
  Step-IsSound {t} (read id c e f reading) s = same-IsSound t.0 _ refl (ids-put _ id _) s
  Step-IsSound {t} (written ok id c bytes rest f e) s = same-IsSound t.0 _ refl (ids-put _ id _) s
  Step-IsSound {t} (close id c f closing done) s =
      on_close-IsSound id c t.0 t.1 (find-times _ id c f) s
  Step-IsSound {t} (tell bytes) s =
      same-IsSound t.0 _ refl (ids-queue_all (broadcast takes t.0.server.connections bytes t.1).0 _)
        s

  -- In whatever order connections arrive, are read, written to, broadcast to and closed, and whatever
  -- the allocator and the network answer: if at first no two HazeConns have one address, the server's
  -- list has each connection once at most and none that is freed, and it fits into its array, then
  -- all this still holds.
  pub Reach-IsSound : {t u : State S} → IsSound t.0 → Reach wr rd w takes t u → IsSound u.0
  Reach-IsSound s here = s
  Reach-IsSound s (next r st) = Step-IsSound st (Reach-IsSound s r)
