-- ===== src/Main/Search.antt =====
-- source/main.c: the search for a port ends behind the ports that are taken.
use haze.Base.{
  ℕ, zero, suc, ◌+◌, ◌-◌, ◌%◌, ◌^◌, ◌<◌, ◌≡◌, refl, ap, subst, ℤ, pos, Option, none, some, [], true,
  codes, arith,
}
use haze.Memory.{Heap, IsAmple, M, alloc, free, live-alloc, alloc-IsAmple, got}
use haze.Session.{Session}
use haze.Server.Connections.{HazeServer}
use haze.Server.Net.{made, server_new, server_start, server_free}
use haze.Main.{Start, listening, is_taken, quiet, started, try_server, search}

-- The server that HazeServerNew makes for a port.
unfoldable pub fresh : ℕ → HazeServer
unfolding codes
fresh port = record {
  addr = some (codes "127.0.0.1");
  port = port % 2 ^ 16;
  connections = [];
  conn_cap = 0;
}

-- With ample memory HazeServerNew makes a server of three blocks.
new_made :
    (port : ℕ) (h : Heap)
    → IsAmple h
    → let r = server_new none (port % 2 ^ 16) h in
      (r.0 ≡ made (fresh port)) × IsAmple r.1 × (r.1.live ≡ h.live + 3)
unfolding server_new fresh
new_made port h e =
    let (one, e') = alloc-IsAmple h e in
    let (two, e'') = alloc-IsAmple (alloc h).1 e' in
    let (three, e''') = alloc-IsAmple (alloc (alloc h).1).1 e'' in
    let live : (alloc (alloc (alloc h).1).1).1.live ≡ h.live + 3 = omega (
      arith,
      live-alloc h,
      live-alloc (alloc h).1,
      live-alloc (alloc (alloc h).1).1,
      ap got one,
      ap got two,
      ap got three,
    ) in
    rw (one, two, three) (refl, e''', live)

module _ {S : Type 0} (bound listens : ℕ → ℤ) (s : Session S) where
  -- HazeServerFree gives the three blocks back.
  free_fresh :
      (port : ℕ) (h : Heap)
      → IsAmple h
      → let r = server_free (quiet bound listens s (fresh port)) h in
        IsAmple r.1 × (r.1.live ≡ h.live - 3)
  unfolding server_free free fresh
  free_fresh port h e = (e, omega arith)

  -- What HazeServerStart returns on a port.
  abbrev pub answer : ℕ → Option ℤ
  answer port = server_start (fresh port) (bound (fresh port).port) (listens (fresh port).port)

  abbrev pub IsTaken : ℕ → Type 0
  IsTaken port = (err : ℤ) × (answer port ≡ some err) × (is_taken err ≡ true)

  -- A round on a port that is taken leaves memory as it was.
  skips :
      (again : M Start) (port : ℕ) (h : Heap)
      → IsAmple h
      → IsTaken port
      → (g : Heap) × (try_server bound listens s again (made (fresh port)) h ≡ again g)
        × (IsAmple h → IsAmple g)
        × (g.live ≡ h.live - 3)
  unfolding try_server started
  skips again port h e (err, a, t) =
      let r = server_free (quiet bound listens s (fresh port)) h in
      let (ample, live) = free_fresh port h e in (r.1, rw (a, t) (refl), λ k. ample, live)

  starts :
      (again : M Start) (port : ℕ) (h : Heap)
      → answer port ≡ some (pos 0)
      → try_server bound listens s again (made (fresh port)) h ≡ (listening (fresh port), h)
  unfolding try_server started is_taken
  starts again port h a = rw a (refl)

  -- If bind and listen succeed on port + n, and on each port from `port` up to it one of them fails
  -- with UV_EADDRINUSE or UV_EACCES, the loop of main ends with a server that listens on port + n, and
  -- the blocks of every server before it are given back: where no allocation fails and fuel is more
  -- than n.
  pub search_finds :
      (n fuel port : ℕ) (h : Heap)
      → n < fuel
      → IsAmple h
      → ((k : ℕ) → k < n → IsTaken (port + k))
      → answer (port + n) ≡ some (pos 0)
      → let r = search bound listens s fuel port h in
        (r.0 ≡ listening (fresh (port + n))) × (r.1.live ≡ h.live + 3)
  unfolding search
  search_finds n zero port h b e taken free_port = absurd (omega arith)
  search_finds zero (suc fuel) port h b e taken free_port =
      let (there, ample, live) = new_made port h e in
      let q : port + 0 ≡ port = omega arith in
      let here : answer port ≡ some (pos 0) = subst (λ p. answer p ≡ some (pos 0)) q free_port in
      rw
        (
          q,
          there,
          starts (search bound listens s fuel (port + 1)) port (server_new none (port % 2 ^ 16) h).1
              here,
        )
        (refl, live)
  search_finds (suc n) (suc fuel) port h b e taken free_port =
      let (there, ample, live) = new_made port h e in
      let q : port + 0 ≡ port = omega arith in
      let again : M Start = search bound listens s fuel (port + 1) in
      let (g, skipped, ample', less) =
        skips again port (server_new none (port % 2 ^ 16) h).1 ample
          (subst IsTaken q (taken 0 (omega arith))) in
      let step : (k : ℕ) → port + suc k ≡ port + 1 + k = λ k. omega arith in
      let (found, gained) =
        search_finds n fuel (port + 1) g (omega arith) (ample' ample)
          (λ k below. subst IsTaken (step k) (taken (suc k) (omega arith)))
          (subst (λ p. answer p ≡ some (pos 0)) (step n) free_port) in
      rw (step n, there, skipped) (found, omega (arith, gained, less, live))
